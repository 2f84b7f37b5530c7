-- ===== src/OwnerLease/Lineage.antt =====
-- How the leases of scripts/owner_lease.py follow each other, and who may take over a task.
use ai_coding_workflow.Prelude.{
  ℕ, ◌+◌, String, ◌≡◌, ◌≢◌, refl, sym, ◌∙◌, ap, Bool, true, false, not, ◌&&◌, Option, none, some,
  ◌⊎◌, inl, inr, Bool-cases, is_empty, is_empty_text, str_eq, str_eq_refl, if◌then◌else◌, ok,
  raise_if->>-eq-ok, >>=-eq-ok, ok-injective, arith,
}
use ai_coding_workflow.OwnerLease.Model.{
  OwnershipRequest, Lease, LeaseHashing, LeaseStatus, requested, granted, expired, revoked,
  is_falsy, is_resumed, validate_request, validate_lease,
}
use ai_coding_workflow.OwnerLease.Selection.{
  invalid_request, switch_reason_forbidden, session_missing, generated_invalid, check_previous,
  returns_to_builder, selected, selected_by, switching, session_of, lease_content, sealed,
  select_owner, is_live, transition_lease, terminal_reason, ended, is_terminal, not_terminal,
  not_live, invalid_previous,
}

-- Who is selected, when it is not the current builder.
selected_elsewhere :
    (o : Option String) (q : OwnershipRequest)
    → str_eq (selected_by o q).0 q.current_builder_id ≡ false
    → (is_falsy o ≡ false)
      ⊎ ((returns_to_builder q.operation ≡ true) × ((selected_by o q).0 ≡ q.original_builder_id))
selected_elsewhere none q h = elim (Bool-cases (returns_to_builder q.operation)) [
  | inl r ↦ inr (r, rw r refl)
  | inr r ↦ absurd (ground (arith, str_eq_refl q.current_builder_id))
]
selected_elsewhere (some owner) q h = elim (Bool-cases (is_empty_text owner)) [
  | inr f ↦ inl f
  | inl f ↦ elim (Bool-cases (returns_to_builder q.operation)) [
    | inl r ↦ inr (r, rw (f, r) refl)
    | inr r ↦ absurd (ground (arith, str_eq_refl q.current_builder_id))
  ]
]

flip_switch : (b : Bool) → ◌≡◌ {A = ℕ} (if not b then 1 else 0) (if b then 0 else 1)
flip_switch true = refl
flip_switch false = refl

module _ (hashing : LeaseHashing) (q : OwnershipRequest) (previous : Option Lease)
    (lease : Lease) where
  selected_lease :
      select_owner hashing q previous ≡ ok lease → lease ≡ sealed hashing (lease_content q previous)
  unfolding select_owner
  selected_lease h =
      let (_, h1) = raise_if->>-eq-ok (not (is_empty (validate_request q))) invalid_request _ h in
      let (_, _, h2) = >>=-eq-ok (check_previous hashing previous q) _ h1 in
      let (_, h3) =
        raise_if->>-eq-ok (not (switching q) && not (is_falsy q.switch_reason))
          switch_reason_forbidden _ h2 in
      let (_, h4) =
        raise_if->>-eq-ok
          (is_resumed (session_of (switching q) q.resume_status).0 && is_falsy q.current_session_id)
          session_missing _ h3 in
      let (_, h5) =
        raise_if->>-eq-ok
          (not (is_empty (validate_lease hashing (sealed hashing (lease_content q previous)))))
          generated_invalid _ h4 in
      sym (ok-injective h5)

  -- A lease goes to an owner other than the current builder only where the request names an owner, or
  -- where a mechanical revision or a test fix returns the task to its original builder.
  pub select_owner_continuity :
      select_owner hashing q previous ≡ ok lease
      → str_eq lease.selected_owner_id q.current_builder_id ≡ false
      → (is_falsy q.explicit_owner_id ≡ false)
        ⊎ ((returns_to_builder q.operation ≡ true)
            × (lease.selected_owner_id ≡ q.original_builder_id))
  unfolding lease_content selected
  select_owner_continuity h n =
      let owner : lease.selected_owner_id ≡ (selected q).0 =
        ap (λ (l : Lease). l.selected_owner_id) (selected_lease h) in
      let changed = ap (λ s. str_eq s q.current_builder_id) (sym owner) ∙ n in
      elim (selected_elsewhere q.explicit_owner_id q changed) [
        | inl f ↦ inl f
        | inr g ↦ inr (g.0, owner ∙ g.1)
      ]

module _ (hashing : LeaseHashing) where
  ended_lease :
      (p : Lease) (status : LeaseStatus) (reason : Option String) (lease : Lease)
      → transition_lease hashing p status reason ≡ ok lease
      → (is_live p.status ≡ true)
        × (is_terminal status ≡ true)
        × ((why : String) × (lease ≡ ended hashing p status why))
  unfolding transition_lease
  ended_lease p status reason lease h =
      let (_, h1) =
        raise_if->>-eq-ok (not (is_empty (validate_lease hashing p))) invalid_previous _ h in
      let (t, h2) = raise_if->>-eq-ok (not (is_terminal status)) not_terminal _ h1 in
      let (l, h3) = raise_if->>-eq-ok (not (is_live p.status)) not_live _ h2 in
      let (why, _, h4) = >>=-eq-ok (terminal_reason status reason) _ h3 in
      let (_, h5) =
        raise_if->>-eq-ok (not (is_empty (validate_lease hashing (ended hashing p status why))))
          generated_invalid _ h4 in
      (ground arith, ground arith, (why, sym (ok-injective h5)))

  terminal_not_live : (s : LeaseStatus) → is_terminal s ≡ true → is_live s ≡ false
  terminal_not_live requested h = cc
  terminal_not_live granted h = cc
  terminal_not_live expired h = refl
  terminal_not_live revoked h = refl

  -- A lease ends once: `transition_lease` takes a requested or granted lease to an expired or revoked
  -- one that names it and is one generation younger, and no transition starts from the result.
  pub transition_once :
      (p : Lease) (status : LeaseStatus) (reason : Option String) (lease : Lease)
      → transition_lease hashing p status reason ≡ ok lease
      → (is_live p.status ≡ true)
        × (is_terminal lease.status ≡ true)
        × (lease.previous_lease_id ≡ some p.lease_id)
        × (lease.lease_generation ≡ p.lease_generation + 1)
        × ((s : LeaseStatus) (r : Option String) (next : Lease)
            → transition_lease hashing lease s r ≢ ok next)
  transition_once p status reason lease h =
      let (l, t, ended_by) = ended_lease p status reason lease h in
      let (why, e) = ended_by in
      let dead = ap is_live (ap (λ (x : Lease). x.status) e) ∙ terminal_not_live status t in
      (
        l,
        ap (λ (x : Lease). is_terminal x.status) e ∙ t,
        ap (λ (x : Lease). x.previous_lease_id) e,
        ap (λ (x : Lease). x.lease_generation) e,
        λ s r next k. let (live, _, _) = ended_lease lease s r next k in ground arith,
      )
