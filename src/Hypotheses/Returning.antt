-- ===== src/Hypotheses/Returning.antt =====
-- What an operation of scripts/hypothesis_ledger.py that returns has tested, and what it returns.
use ai_coding_workflow.Prelude.{
  ℕ, String, ◌≡◌, sym, ap, Bool, true, false, not, ◌⊎◌, inl, inr, Option, none, some, List, [], ◌∷◌,
  ◌++◌, any, mem, map, is_empty, if◌then◌else◌, arith, sort_by, ◌==◌, ok, >>=-eq-ok,
  raise_if->>-eq-ok, ok-injective, is_empty-eq-nil, append-eq-nil,
}
use ai_coding_workflow.Hypotheses.Model.{
  HypothesisItem, RevisitEvent, HypothesisLedger, is_rejected, statement_digest, validate_ledger,
}
use ai_coding_workflow.Hypotheses.Operations.{
  RejectInput, ReopenInput, Proposal, invalid, not_rejected, no_new_evidence, condition_not_met,
  bad_max_relevant, unknown_related, validate_reject_input, validate_reopen_input,
  validate_proposal, find_equal, rejected_item, find_item, change_item, reopened_item,
  sorted_difference, item_id, matches_of, ProposalResult,
}
use ai_coding_workflow.Hypotheses.Ledger.{
  key_of, item_of, active_items, with_items, add_rejected_item, reopen_item, answer, check_proposal,
}

key_of-ok : (o : Option String) (key : String) → key_of o ≡ ok key → o ≡ some key
key_of-ok none key h = cc
key_of-ok (some k) key h = ap some (ok-injective h)

item_of-ok : (o : Option HypothesisItem) (i : HypothesisItem) → item_of o ≡ ok i → o ≡ some i
item_of-ok none i h = cc
item_of-ok (some k) i h = ap some (ok-injective h)

module _ (normalize_statement sha256 : String → String) (event_digest : RevisitEvent → String)
    (ledger_digest : HypothesisLedger → String) where
  pub add_rejected_item-eq-ok :
      (l l' : HypothesisLedger) (v : RejectInput) (state : String)
      → add_rejected_item normalize_statement sha256 event_digest ledger_digest l v state ≡ ok l'
      → (validate_ledger normalize_statement sha256 event_digest ledger_digest l ≡ [])
        × (validate_reject_input v ≡ [])
        × (key : String) × (statement_digest normalize_statement sha256 v.statement ≡ some key)
        × (((find_equal key v l.items ≡ ok true) × (l' ≡ l))
            ⊎ ((find_equal key v l.items ≡ ok false)
                × (l'
                    ≡ with_items normalize_statement sha256 event_digest ledger_digest
                        (sort_by item_id (l.items ++ rejected_item key state v ∷ []))
                        v.repository_state_hash
                        l)))
  unfolding add_rejected_item
  add_rejected_item-eq-ok l l' v state h =
      let errors =
        validate_ledger normalize_statement sha256 event_digest ledger_digest l
        ++ validate_reject_input v in
      let (no_errors, h1) = raise_if->>-eq-ok (not (is_empty errors)) (invalid errors) _ h in
      let (key, k, h2) =
        >>=-eq-ok (key_of (statement_digest normalize_statement sha256 v.statement)) _ h1 in
      let (present, f, h3) = >>=-eq-ok (find_equal key v l.items) _ h2 in
      let (valid, fine) =
        append-eq-nil (validate_ledger normalize_statement sha256 event_digest ledger_digest l)
          (validate_reject_input v) (is_empty-eq-nil errors (ground arith)) in
      (valid, fine, key, key_of-ok _ key k, last key present f (ok-injective h3))
    where
      last :
          (key : String) (present : Bool)
          → find_equal key v l.items ≡ ok present
          → (if present
              then l
              else with_items normalize_statement sha256 event_digest ledger_digest
                  (sort_by item_id (l.items ++ rejected_item key state v ∷ []))
                  v.repository_state_hash
                  l)
            ≡ l'
          → ((find_equal key v l.items ≡ ok true) × (l' ≡ l))
            ⊎ ((find_equal key v l.items ≡ ok false)
                × (l'
                    ≡ with_items normalize_statement sha256 event_digest ledger_digest
                        (sort_by item_id (l.items ++ rejected_item key state v ∷ []))
                        v.repository_state_hash
                        l))
      last key true f e = inl (f, sym e)
      last key false f e = inr (f, sym e)

  pub reopen_item-eq-ok :
      (l l' : HypothesisLedger) (v : ReopenInput)
      → reopen_item normalize_statement sha256 event_digest ledger_digest l v ≡ ok l'
      → (validate_ledger normalize_statement sha256 event_digest ledger_digest l ≡ [])
        × (validate_reopen_input v ≡ [])
        × (i : HypothesisItem) × (find_item v.hypothesis_id l.items ≡ some i)
        × (is_rejected i.status ≡ true)
        × (is_empty (sorted_difference v.new_evidence_refs i.evidence_refs) ≡ false)
        × (v.condition_met ≡ true)
        × (l'
            ≡ with_items normalize_statement sha256 event_digest ledger_digest
                (change_item v.hypothesis_id
                  (reopened_item v.reason
                    (sorted_difference v.new_evidence_refs i.evidence_refs)
                    v.producer)
                  l.items)
                v.repository_state_hash
                l)
  unfolding reopen_item
  reopen_item-eq-ok l l' v h =
      let errors =
        validate_ledger normalize_statement sha256 event_digest ledger_digest l
        ++ validate_reopen_input v in
      let (no_errors, h1) = raise_if->>-eq-ok (not (is_empty errors)) (invalid errors) _ h in
      let (i, f, h2) = >>=-eq-ok (item_of (find_item v.hypothesis_id l.items)) _ h1 in
      let (r, h3) = raise_if->>-eq-ok (not (is_rejected i.status)) not_rejected _ h2 in
      let (n, h4) =
        raise_if->>-eq-ok (is_empty (sorted_difference v.new_evidence_refs i.evidence_refs))
          no_new_evidence _ h3 in
      let (c, h5) = raise_if->>-eq-ok (not v.condition_met) condition_not_met _ h4 in
      let (valid, fine) =
        append-eq-nil (validate_ledger normalize_statement sha256 event_digest ledger_digest l)
          (validate_reopen_input v) (is_empty-eq-nil errors (ground arith)) in
      (valid, fine, i, item_of-ok _ i f, ground arith, n, ground arith, sym (ok-injective h5))

  pub check_proposal-eq-ok :
      (is_similar : String → String → Bool) (utc_now : String) (l : HypothesisLedger) (p : Proposal)
      (max_relevant : ℕ) (out : ProposalResult × Option RevisitEvent × List HypothesisItem)
      → check_proposal normalize_statement sha256 event_digest ledger_digest is_similar utc_now l p
          max_relevant
        ≡ ok out
      → (validate_ledger normalize_statement sha256 event_digest ledger_digest l ≡ [])
        × (validate_proposal p ≡ [])
        × (key : String) × (statement_digest normalize_statement sha256 p.statement ≡ some key)
        × (out
            ≡ answer normalize_statement sha256 event_digest ledger_digest is_similar utc_now
                max_relevant key p
                (active_items l.items)
                (matches_of is_similar key p (active_items l.items)))
  unfolding check_proposal
  check_proposal-eq-ok is_similar utc_now l p max_relevant out h =
      let errors =
        validate_ledger normalize_statement sha256 event_digest ledger_digest l
        ++ validate_proposal p in
      let (no_errors, h1) = raise_if->>-eq-ok (not (is_empty errors)) (invalid errors) _ h in
      let (n, h2) = raise_if->>-eq-ok (max_relevant == 0) bad_max_relevant _ h1 in
      let (r, h3) =
        raise_if->>-eq-ok (any (λ r. not (mem r (map item_id l.items))) p.related_hypothesis_ids)
          unknown_related _ h2 in
      let (key, k, h4) =
        >>=-eq-ok (key_of (statement_digest normalize_statement sha256 p.statement)) _ h3 in
      let (valid, fine) =
        append-eq-nil (validate_ledger normalize_statement sha256 event_digest ledger_digest l)
          (validate_proposal p) (is_empty-eq-nil errors (ground arith)) in
      (valid, fine, key, key_of-ok _ key k, sym (ok-injective h4))
