-- ===== src/Hypotheses/Reached.antt =====
-- Every ledger that the operations of scripts/hypothesis_ledger.py lead to is valid.
use ai_coding_workflow.Prelude.{
  ℕ, String, ◌≡◌, Bool, true, false, some, List, [], is_empty_text, is_digest, ok,
}
use ai_coding_workflow.Hypotheses.Model.{
  HypothesisItem, RevisitEvent, HypothesisLedger, validate_ledger,
}
use ai_coding_workflow.Hypotheses.Operations.{RejectInput, ReopenInput, Proposal, ProposalResult}
use ai_coding_workflow.Hypotheses.Ledger.{
  empty_ledger, add_rejected_item, reopen_item, record_revisit, check_proposal,
}
use ai_coding_workflow.Hypotheses.Validity.{add_rejected_item-valid}
use ai_coding_workflow.Hypotheses.Reopening.{reopen_item-valid}
use ai_coding_workflow.Hypotheses.Recording.{empty_ledger-valid, checked-valid}

module _ (normalize_statement sha256 : String → String) (event_digest : RevisitEvent → String)
    (ledger_digest : HypothesisLedger → String)
    (digests : (l : HypothesisLedger) → is_digest (ledger_digest l) ≡ true)
    (is_similar : String → String → Bool) where
  -- The ledgers that the operations lead to. A revisit records the event of a proposal checked on the
  -- same ledger.
  pub data Reached : HypothesisLedger → Type 0 where
    created :
        (task_id repository_state_hash : String)
        → is_empty_text task_id ≡ false
        → is_empty_text repository_state_hash ≡ false
        → Reached (
            empty_ledger normalize_statement sha256 event_digest ledger_digest task_id
              repository_state_hash)
    grown :
        {l m : HypothesisLedger}
        → Reached l
        → (v : RejectInput) → (state : String) → is_digest state ≡ true
        → add_rejected_item normalize_statement sha256 event_digest ledger_digest l v state ≡ ok m
        → Reached m
    opened :
        {l m : HypothesisLedger}
        → Reached l
        → (v : ReopenInput)
        → reopen_item normalize_statement sha256 event_digest ledger_digest l v ≡ ok m
        → Reached m
    checked :
        {l : HypothesisLedger}
        → Reached l
        → (utc_now : String) → is_empty_text utc_now ≡ false
        → (p : Proposal) → (max_relevant : ℕ) → (r : ProposalResult) → (e : RevisitEvent)
        → (relevant : List HypothesisItem)
        → check_proposal normalize_statement sha256 event_digest ledger_digest is_similar utc_now l
            p max_relevant
          ≡ ok (r, some e, relevant)
        → Reached (record_revisit normalize_statement sha256 event_digest ledger_digest l e)

  -- Every ledger that the operations lead to is valid, where ids of ledgers and states are digests
  -- and the clock's text is not empty.
  pub Reached-valid :
      (l : HypothesisLedger)
      → Reached l
      → validate_ledger normalize_statement sha256 event_digest ledger_digest l ≡ []
  Reached-valid l (created task_id repository_state_hash t r) =
      empty_ledger-valid normalize_statement sha256 event_digest ledger_digest digests is_similar
        task_id repository_state_hash t r
  Reached-valid l (grown {l = k} s v state d e) =
      add_rejected_item-valid normalize_statement sha256 event_digest ledger_digest digests k l v
        state d e
  Reached-valid l (opened {l = k} s v e) =
      reopen_item-valid normalize_statement sha256 event_digest ledger_digest digests k l v e
  Reached-valid l (checked {l = k} s utc_now o p max_relevant r e relevant h) =
      checked-valid normalize_statement sha256 event_digest ledger_digest digests is_similar k
        utc_now p max_relevant r e relevant o h
