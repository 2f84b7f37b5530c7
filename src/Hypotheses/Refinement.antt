-- ===== src/Hypotheses/Refinement.antt =====
-- The ledger of scripts/hypothesis_ledger.py as a set of rejected statements, by their hashes.
use ai_coding_workflow.Prelude.{
  some-injective, ◌+◌, String, ◌≡◌, refl, sym, ap, subst, Bool, true, false, not, ◌&&◌, ◌||◌, inl,
  inr, Bool-cases, some, List, [], ◌∷◌, ◌++◌, any, str_eq, str_eq_refl, str_cases, leb, arith,
  indicator, sort_by, ok,
}
use ai_coding_workflow.Hypotheses.Model.{
  HypothesisItem, RevisitEvent, HypothesisLedger, is_rejected, statement_digest,
}
use ai_coding_workflow.Hypotheses.Operations.{
  RejectInput, ReopenInput, is_active, rejected_item, find_item, change_item, reopened_item,
  sorted_difference, item_id,
}
use ai_coding_workflow.Hypotheses.Ledger.{add_rejected_item, reopen_item, record_revisit}
use ai_coding_workflow.Hypotheses.Items.{tally, tally-append, tally-sort_by, rejects_hash}
use ai_coding_workflow.Hypotheses.Returning.{add_rejected_item-eq-ok, reopen_item-eq-ok}
use ai_coding_workflow.Hypotheses.Searching.{rejects, any_implies, find_equal-true}
use ai_coding_workflow.Hypotheses.Blocking.{record_revisit-items}
use ai_coding_workflow.Hypotheses.Validity.{old_items}

-- The abstract ledger: which statements are rejected, by the hash.
abbrev pub rejected_set : HypothesisLedger → String → Bool
rejected_set l key = any (is_active key) l.items

any-tally :
    (x : String) (items : List HypothesisItem)
    → any (is_active x) items ≡ leb 1 (tally (rejects_hash x) items)
any-tally x [] = refl
any-tally x (i ∷ is) = ground (arith, any-tally x is)

-- Reopening an item takes one rejection of its hash away.
tally-reopened :
    (x id reason : String) (new_evidence : List String) (producer : String)
    (items : List HypothesisItem) (i : HypothesisItem)
    → find_item id items ≡ some i
    → is_rejected i.status ≡ true
    → tally (rejects_hash x) items
      ≡ tally (rejects_hash x) (change_item id (reopened_item reason new_evidence producer) items)
        + indicator (str_eq i.statement_hash x)
unfolding find_item change_item
tally-reopened x id reason new_evidence producer [] i e r = cc
tally-reopened x id reason new_evidence producer (j ∷ is) i e r =
    elim (Bool-cases (str_eq j.id id)) [
      | inl b ↦
          let same : j ≡ i = some-injective (rw b at e) in
          rw b (
            subst
              (λ k.
                indicator (str_eq j.statement_hash x && is_rejected j.status)
                  + tally (rejects_hash x) is
                ≡ indicator (str_eq j.statement_hash x && false)
                  + tally (rejects_hash x) is
                  + indicator (str_eq k.statement_hash x))
              same
              (let active : is_rejected j.status ≡ true =
                  subst (λ (k : HypothesisItem). is_rejected k.status ≡ true) (sym same) r in
                ground arith))
      | inr b ↦
          let rest = tally-reopened x id reason new_evidence producer is i (rw b at e) r in
          rw b (omega (arith, rest))
    ]

find_item-rejects :
    (id : String) (items : List HypothesisItem) (i : HypothesisItem)
    → find_item id items ≡ some i
    → is_rejected i.status ≡ true
    → any (rejects id i.statement_hash) items ≡ true
unfolding find_item
find_item-rejects id [] i e r = cc
find_item-rejects id (j ∷ is) i e r = elim (Bool-cases (str_eq j.id id)) [
  | inl b ↦
      let same : j ≡ i = some-injective (rw b at e) in
      subst
        (λ (k : HypothesisItem).
          (rejects id k.statement_hash j || any (rejects id k.statement_hash) is) ≡ true)
        same
        (let active : is_rejected j.status ≡ true =
            subst (λ (k : HypothesisItem). is_rejected k.status ≡ true) (sym same) r in
          ground (arith, str_eq_refl j.statement_hash))
  | inr b ↦ let rest = find_item-rejects id is i (rw b at e) r in ground arith
]

module _ (normalize_statement sha256 : String → String) (event_digest : RevisitEvent → String)
    (ledger_digest : HypothesisLedger → String) where
  -- An operation that returns, from a ledger to the next.
  pub data LedgerStep (l : HypothesisLedger) : HypothesisLedger → Type 0 where
    rejecting_step :
        {m : HypothesisLedger}
        → (v : RejectInput) → (state : String)
        → add_rejected_item normalize_statement sha256 event_digest ledger_digest l v state ≡ ok m
        → LedgerStep l m
    reopening_step :
        {m : HypothesisLedger}
        → (v : ReopenInput)
        → reopen_item normalize_statement sha256 event_digest ledger_digest l v ≡ ok m
        → LedgerStep l m
    revisiting_step :
        (e : RevisitEvent)
        → LedgerStep l (record_revisit normalize_statement sha256 event_digest ledger_digest l e)

  -- What the step of an operation does to the set of rejected statements: a rejection inserts the
  -- digest of its statement, a reopening deletes the digest of the statement that its hypothesis
  -- rejected, a revisit changes nothing.
  pub Commutes : (l m : HypothesisLedger) → LedgerStep l m → Type 0
  Commutes l m (rejecting_step v state h) =
      (key : String) × (statement_digest normalize_statement sha256 v.statement ≡ some key)
      × ((x : String) → rejected_set m x ≡ (rejected_set l x || str_eq key x))
  Commutes l m (reopening_step v h) =
      (key : String) × (any (rejects v.hypothesis_id key) l.items ≡ true)
      × ((x : String) → rejected_set m x ≡ (rejected_set l x && not (str_eq key x)))
  Commutes l m (revisiting_step e) = (x : String) → rejected_set m x ≡ rejected_set l x

  rejecting-Commutes :
      (l m : HypothesisLedger) (v : RejectInput) (state : String)
      → add_rejected_item normalize_statement sha256 event_digest ledger_digest l v state ≡ ok m
      → (key : String) × (statement_digest normalize_statement sha256 v.statement ≡ some key)
        × ((x : String) → rejected_set m x ≡ (rejected_set l x || str_eq key x))
  rejecting-Commutes l m v state h =
      let (valid, fine, key, k, c) =
        add_rejected_item-eq-ok normalize_statement sha256 event_digest ledger_digest l m v state
          h in
      (
        key,
        k,
        elim c [
          | inl (f, same) ↦ λ x.
              let there =
                any_implies (rejects v.id key) (is_active key) l.items (λ i a. ground arith)
                  (find_equal-true key v l.items f) in
              subst
                (λ (n : HypothesisLedger).
                  any (is_active x) n.items ≡ (any (is_active x) l.items || str_eq key x))
                (sym same)
                (elim (str_cases key x) [
                  | inl e ↦
                      let held = subst (λ y. any (is_active y) l.items ≡ true) e there in
                      ground arith
                  | inr e ↦ ground arith
                ])
          | inr (f, same) ↦ λ x.
              let new = rejected_item key state v in
              subst
                (λ (n : HypothesisLedger).
                  any (is_active x) n.items ≡ (any (is_active x) l.items || str_eq key x))
                (sym same)
                (ground (
                  arith,
                  any-tally x (sort_by item_id (l.items ++ new ∷ [])),
                  any-tally x l.items,
                  tally-sort_by (rejects_hash x) (l.items ++ new ∷ []),
                  tally-append (rejects_hash x) l.items (new ∷ []),
                ))
        ],
      )

  reopening-Commutes :
      (l m : HypothesisLedger) (v : ReopenInput)
      → reopen_item normalize_statement sha256 event_digest ledger_digest l v ≡ ok m
      → (key : String) × (any (rejects v.hypothesis_id key) l.items ≡ true)
        × ((x : String) → rejected_set m x ≡ (rejected_set l x && not (str_eq key x)))
  reopening-Commutes l m v h =
      let (valid, fine, i, found, r, new, c, same) =
        reopen_item-eq-ok normalize_statement sha256 event_digest ledger_digest l m v h in
      let new_evidence = sorted_difference v.new_evidence_refs i.evidence_refs in
      let items =
        change_item v.hypothesis_id (reopened_item v.reason new_evidence v.producer) l.items in
      let (own, ids, once) =
        old_items normalize_statement sha256 event_digest ledger_digest l valid in
      (
        i.statement_hash,
        find_item-rejects v.hypothesis_id l.items i found r,
        λ x.
            subst
              (λ (n : HypothesisLedger).
                any (is_active x) n.items
                ≡ (any (is_active x) l.items && not (str_eq i.statement_hash x)))
              (sym same)
              (ground (
                arith,
                any-tally x items,
                any-tally x l.items,
                once x,
                tally-reopened x v.hypothesis_id v.reason new_evidence v.producer l.items i found r,
              )),
      )

  -- Each operation that returns is a step of the set of rejected statements: a rejection inserts
  -- the digest of its statement, a reopening deletes the digest under which the hypothesis it names
  -- was rejected, and a revisit changes nothing.
  pub LedgerStep-Commutes : (l m : HypothesisLedger) (s : LedgerStep l m) → Commutes l m s
  unfolding Commutes
  LedgerStep-Commutes l m (rejecting_step v state h) = rejecting-Commutes l m v state h
  LedgerStep-Commutes l m (reopening_step v h) = reopening-Commutes l m v h
  LedgerStep-Commutes l m (revisiting_step e) = λ x.
      ap (any (is_active x))
        (record_revisit-items normalize_statement sha256 event_digest ledger_digest l e)
