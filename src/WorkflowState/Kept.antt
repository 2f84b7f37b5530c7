-- ===== src/WorkflowState/Kept.antt =====
-- What the event log of scripts/workflow_state.py never takes back: registered evidence, and frozen
-- decisions until they are invalidated.
use mathlib.Core.List.{Memᴰ}
use mathlib.Core.List.Memᴰ
use ai_coding_workflow.Prelude.{
  ℕ, zero, suc, String, ◌≡◌, ◌≢◌, refl, ap, sym, ◌∙◌, subst, true, false, not, inl, inr, List, [],
  ◌∷◌, All, mem, mem-append, Memᴰ-sort_by, ok, >>=-eq-ok, raise_if->>-eq-ok, ok-injective,
  Result-cases, arith,
}
use ai_coding_workflow.Json.{Fields, at, arr, nil, str}
use ai_coding_workflow.WorkflowState.Model.{
  EventType, decision_accepted, decision_frozen, decision_invalidated, goal_updated, evidence_added,
  Decision, frozen, Material, State, Event, Hashing,
}
use ai_coding_workflow.WorkflowState.Mutation.{
  mutate, sort_lists, apply_mutation, find, found, update_at, freeze, decision_id, is_accepted,
  nonempty_or_raise, mutation_evidence_refs, get_or, decision_clash, require_payload,
  digest_or_raise,
}
use ai_coding_workflow.WorkflowState.Chain.{stamp, replay_event, replay_rest}
use ai_coding_workflow.WorkflowState.Items.{mem-sort_refs}

mem-mutate :
    (t : EventType) (p : Fields) (m m' : Material) (r : String)
    → mutate t p m ≡ ok m'
    → mem r m.evidence_refs ≡ true
    → mem r m'.evidence_refs ≡ true
unfolding mutate
mem-mutate goal_updated p m m' r h k = ground arith
mem-mutate evidence_added p m m' r h k =
    let (_, _, h1) = >>=-eq-ok (require_payload p ("ref" ∷ [])) _ h in
    let (ref, _, h2) = >>=-eq-ok (digest_or_raise (at "ref" p)) _ h1 in
    let (_, h3) = raise_if->>-eq-ok (mem ref m.evidence_refs) _ _ h2 in
    subst (λ (x : Material). mem r x.evidence_refs ≡ true) (ok-injective h3)
      (ground (arith, mem-append r m.evidence_refs (ref ∷ [])))
mem-mutate _ p m m' r h k = ground arith

mem-apply_mutation :
    (s : State) (t : EventType) (p : Fields) (s' : State) (r : String)
    → apply_mutation s t p ≡ ok s'
    → mem r s.evidence_refs ≡ true
    → mem r s'.evidence_refs ≡ true
unfolding apply_mutation sort_lists
mem-apply_mutation s t p s' r h k =
    let (m, e, h1) = >>=-eq-ok (mutate t p s.material) _ h in
    subst (λ (x : State). mem r x.evidence_refs ≡ true) (ok-injective h1)
      (rw mem-sort_refs (mem-mutate t p s.material m r e k))

freeze_frozen : (d : Decision) → d.status ≡ frozen → freeze d ≡ d
freeze_frozen d f = ground arith

-- Freezing leaves what is frozen as it is, wherever it happens.
Memᴰ-update_at :
    {d : Decision} {ds : List Decision} (i : ℕ)
    → d.status ≡ frozen
    → Memᴰ d ds
    → Memᴰ d (update_at i freeze ds)
unfolding update_at
Memᴰ-update_at {d} zero f (Memᴰ.head {x = x} e) = Memᴰ.head (sym (freeze_frozen d f) ∙ ap freeze e)
Memᴰ-update_at zero f (Memᴰ.tail k) = Memᴰ.tail k
Memᴰ-update_at (suc i) f (Memᴰ.head e) = Memᴰ.head e
Memᴰ-update_at (suc i) f (Memᴰ.tail k) = Memᴰ.tail (Memᴰ-update_at i f k)

Memᴰ-mutate :
    (t : EventType) (p : Fields) (m m' : Material) (d : Decision)
    → t ≢ decision_invalidated
    → d.status ≡ frozen
    → mutate t p m ≡ ok m'
    → Memᴰ d m.accepted_decisions
    → Memᴰ d m'.accepted_decisions
unfolding mutate
Memᴰ-mutate decision_accepted p m m' d n f h k =
    let (_, _, h1) = >>=-eq-ok (require_payload p ("id" ∷ "statement" ∷ [])) _ h in
    let (id, _, h2) = >>=-eq-ok (nonempty_or_raise (at "id" p) "id") _ h1 in
    let (statement, _, h3) = >>=-eq-ok (nonempty_or_raise (at "statement" p) "statement") _ h2 in
    let (refs, _, h4) =
      >>=-eq-ok (mutation_evidence_refs m.evidence_refs (get_or "evidence_refs" p (arr nil)) false)
        _ h3 in
    let (_, _, h5) =
      >>=-eq-ok (decision_clash (find decision_id m.accepted_decisions (str id)) statement) _ h4 in
    subst (λ (x : Material). Memᴰ d x.accepted_decisions) (ok-injective h5) (Memᴰ.append_left _ k)
Memᴰ-mutate decision_frozen p m m' d n f h k =
    let (_, _, h1) = >>=-eq-ok (require_payload p ("id" ∷ [])) _ h in
    let (hit, e, h2) =
      >>=-eq-ok (found (find decision_id m.accepted_decisions (at "id" p)) _) _ h1 in
    let (_, h3) = raise_if->>-eq-ok (not (is_accepted hit.1.status)) _ _ h2 in
    subst (λ (x : Material). Memᴰ d x.accepted_decisions) (ok-injective h3)
      (Memᴰ-update_at hit.0 f k)
Memᴰ-mutate decision_invalidated p m m' d n f h k = absurd (n refl)
Memᴰ-mutate _ p m m' d n f h k = subst (λ l. Memᴰ d l) (ground arith) k

Memᴰ-apply_mutation :
    (s : State) (t : EventType) (p : Fields) (s' : State) (d : Decision)
    → t ≢ decision_invalidated
    → d.status ≡ frozen
    → apply_mutation s t p ≡ ok s'
    → Memᴰ d s.accepted_decisions
    → Memᴰ d s'.accepted_decisions
unfolding apply_mutation sort_lists
Memᴰ-apply_mutation s t p s' d n f h k =
    let (m, e, h1) = >>=-eq-ok (mutate t p s.material) _ h in
    subst (λ (x : State). Memᴰ d x.accepted_decisions) (ok-injective h1)
      (Memᴰ-sort_by decision_id (Memᴰ-mutate t p s.material m d n f e k))

module _ (hashing : Hashing) where
  -- The state that a replayed event leads to is the stamped result of its mutation.
  replay_event_inv :
      (current : State) (event : Event) (next : State)
      → replay_event hashing current event ≡ ok next
      → (mutated : State) × (apply_mutation current event.event_type event.payload.fields
          ≡ ok mutated)
        × (stamp hashing current mutated ≡ next)
  unfolding replay_event
  replay_event_inv current event next h =
      elim (Result-cases (apply_mutation current event.event_type event.payload.fields)) [
        | inl (mutated, e) ↦ (mutated, e, ground arith)
        | inr (error, e) ↦ absurd (ground arith)
      ]

  -- Evidence that is registered stays registered, whatever events follow.
  pub evidence_kept :
      (current : State) (events : List Event) (s : State) (r : String)
      → replay_rest hashing current events ≡ ok s
      → mem r current.evidence_refs ≡ true
      → mem r s.evidence_refs ≡ true
  unfolding replay_rest stamp
  evidence_kept current [] s r h k =
      subst (λ (x : State). mem r x.evidence_refs ≡ true) (ok-injective h) k
  evidence_kept current (event ∷ events) s r h k =
      let (next, e, h') = >>=-eq-ok (replay_event hashing current event) _ h in
      let (mutated, m, n) = replay_event_inv current event next e in
      evidence_kept next events s r h' (
        subst (λ (x : State). mem r x.evidence_refs ≡ true) n
          (mem-apply_mutation current event.event_type event.payload.fields mutated r m k))

  -- A frozen decision is in every later state, with its statement and its references unchanged, as
  -- long as no event invalidates a decision.
  pub frozen_kept :
      (current : State) (events : List Event) (s : State) (d : Decision)
      → replay_rest hashing current events ≡ ok s
      → All (λ (e : Event). e.event_type ≢ decision_invalidated) events
      → d.status ≡ frozen
      → Memᴰ d current.accepted_decisions
      → Memᴰ d s.accepted_decisions
  unfolding replay_rest stamp
  frozen_kept current [] s d h n f k =
      subst (λ (x : State). Memᴰ d x.accepted_decisions) (ok-injective h) k
  frozen_kept current (event ∷ events) s d h n f k =
      let (next, e, h') = >>=-eq-ok (replay_event hashing current event) _ h in
      let (mutated, m, q) = replay_event_inv current event next e in
      frozen_kept next events s d h' n.1 f (
        subst (λ (x : State). Memᴰ d x.accepted_decisions) q
          (Memᴰ-apply_mutation current event.event_type event.payload.fields mutated d n.0 f m k))
