-- ===== src/Hypotheses/Reopened.antt =====
-- What `reopen_item` of scripts/hypothesis_ledger.py changes in a ledger, item by item.
use ai_coding_workflow.Prelude.{
  ◌+◌, String, ◌≡◌, refl, ap, ◌∙◌, subst, true, false, not, ◌&&◌, inl, inr, Bool-cases, some,
  some-injective, List, [], ◌∷◌, ◌++◌, mem, str_eq, str_eq_iff, is_empty, ok,
}
use ai_coding_workflow.Hypotheses.Model.{
  rejected, reopened, ItemStatus, HypothesisItem, RevisitEvent, HypothesisLedger, is_rejected,
}
use ai_coding_workflow.Hypotheses.Operations.{
  ReopenInput, find_item, change_item, reopened_item, sorted_difference,
}
use ai_coding_workflow.Hypotheses.Ledger.{reopen_item}
use ai_coding_workflow.Hypotheses.Returning.{reopen_item-eq-ok}
use ai_coding_workflow.Hypotheses.Searching.{mem-sorted_difference}

-- An item after its reopening against the item before: its status, the metadata of the reopening,
-- and all that a reopening leaves.
pub record IsReopening (v : ReopenInput) (old new : HypothesisItem) : Type 0 where
  pub was_rejected : old.status ≡ rejected
  pub is_reopened : new.status ≡ reopened
  pub because : new.reopened_reason ≡ some v.reason
  pub by : new.reopened_by ≡ some v.producer
  pub evidence :
      (x : String)
      → mem x new.reopened_evidence_refs
        ≡ (mem x v.new_evidence_refs && not (mem x old.evidence_refs))
  pub some_evidence : is_empty new.reopened_evidence_refs ≡ false
  pub id : new.id ≡ old.id
  pub statement : new.statement ≡ old.statement
  pub statement_hash : new.statement_hash ≡ old.statement_hash
  pub reason : new.reason ≡ old.reason
  pub evidence_refs : new.evidence_refs ≡ old.evidence_refs
  pub reopen_when : new.reopen_when ≡ old.reopen_when
  pub producer : new.producer ≡ old.producer
  pub repository_state_hash : new.repository_state_hash ≡ old.repository_state_hash
  pub scope_refs : new.scope_refs ≡ old.scope_refs
  pub rejected_state_id : new.rejected_state_id ≡ old.rejected_state_id

-- A ledger after a reopening against the ledger before: one item is another, at its place.
pub record OneReopened (v : ReopenInput) (l l' : HypothesisLedger) : Type 0 where
  pub before : List HypothesisItem
  pub after : List HypothesisItem
  pub old : HypothesisItem
  pub new : HypothesisItem
  pub there : l.items ≡ before ++ old ∷ after
  pub changed : l'.items ≡ before ++ new ∷ after
  pub named : old.id ≡ v.hypothesis_id
  pub reopening : IsReopening v old new
  pub condition : v.condition_met ≡ true
  pub revision : l'.revision ≡ l.revision + 1
  pub revisit_events : l'.revisit_events ≡ l.revisit_events
  pub task_id : l'.task_id ≡ l.task_id
  pub repository_state_hash : l'.repository_state_hash ≡ v.repository_state_hash

is_rejected-eq : (s : ItemStatus) → is_rejected s ≡ true → s ≡ rejected
is_rejected-eq rejected h = refl
is_rejected-eq reopened h = cc

-- `change_item` replaces the item that `find_item` finds.
change_item-find_item :
    (id : String) (f : HypothesisItem → HypothesisItem) (items : List HypothesisItem)
    (i : HypothesisItem)
    → find_item id items ≡ some i
    → (before : List HypothesisItem) × (after : List HypothesisItem) × (items ≡ before ++ i ∷ after)
      × (change_item id f items ≡ before ++ f i ∷ after)
      × (i.id ≡ id)
unfolding find_item change_item
change_item-find_item id f [] i e = cc
change_item-find_item id f (j ∷ is) i e = elim (Bool-cases (str_eq j.id id)) [
  | inl b ↦
      let same : j ≡ i = some-injective (rw b at e) in
      (
        [],
        is,
        ap (λ k. k ∷ is) same,
        rw b (ap (λ k. f k ∷ is) same),
        subst (λ (k : HypothesisItem). k.id ≡ id) same ((str_eq_iff j.id id).0 b),
      )
  | inr b ↦
      let (before, after, s, c, n) = change_item-find_item id f is i (rw b at e) in
      (j ∷ before, after, ap (λ ks. j ∷ ks) s, rw b (ap (λ ks. j ∷ ks) c), n)
]

module _ (normalize_statement sha256 : String → String) (event_digest : RevisitEvent → String)
    (ledger_digest : HypothesisLedger → String) where
  -- When `reopen_item` returns, the condition is met, and one item, with the given id, changes at its
  -- place: it was rejected and is reopened, with the given reason and producer and with exactly the
  -- given evidence that the rejection did not have, which is not none; the rest of it, every other
  -- item, the revisit events and the task stay, and the revision grows by one.
  pub reopen_item_lem :
      (l l' : HypothesisLedger) (v : ReopenInput)
      → reopen_item normalize_statement sha256 event_digest ledger_digest l v ≡ ok l'
      → OneReopened v l l'
  reopen_item_lem l l' v h =
      let (valid, fine, i, found, r, new, c, same) =
        reopen_item-eq-ok normalize_statement sha256 event_digest ledger_digest l l' v h in
      let evidence = sorted_difference v.new_evidence_refs i.evidence_refs in
      let change = reopened_item v.reason evidence v.producer in
      let (before, after, s, changed, named) =
        change_item-find_item v.hypothesis_id change l.items i found in
      record {
        before = before;
        after = after;
        old = i;
        new = change i;
        there = s;
        changed = ap (λ (m : HypothesisLedger). m.items) same ∙ changed;
        named = named;
        reopening = record {
          was_rejected = is_rejected-eq i.status r;
          is_reopened = refl;
          because = refl;
          by = refl;
          evidence = λ x. mem-sorted_difference x v.new_evidence_refs i.evidence_refs;
          some_evidence = new;
          id = refl;
          statement = refl;
          statement_hash = refl;
          reason = refl;
          evidence_refs = refl;
          reopen_when = refl;
          producer = refl;
          repository_state_hash = refl;
          scope_refs = refl;
          rejected_state_id = refl;
        };
        condition = c;
        revision = ap (λ (m : HypothesisLedger). m.revision) same;
        revisit_events = ap (λ (m : HypothesisLedger). m.revisit_events) same;
        task_id = ap (λ (m : HypothesisLedger). m.task_id) same;
        repository_state_hash = ap (λ (m : HypothesisLedger). m.repository_state_hash) same;
      }
