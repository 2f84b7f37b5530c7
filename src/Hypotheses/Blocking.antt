-- ===== src/Hypotheses/Blocking.antt =====
-- How long a rejection of scripts/hypothesis_ledger.py blocks the proposals of its statement.
use ai_coding_workflow.Prelude.{
  some-injective, ℕ, String, ◌≡◌, ◌≢◌, refl, sym, ◌∙◌, ap, subst, Bool, true, false, not, inl, inr,
  Bool-cases, Option, none, some, List, [], ◌∷◌, any, str_eq, str_eq_iff, str_eq_refl, is_empty,
  arith, ok,
}
use ai_coding_workflow.Hypotheses.Model.{
  MatchType, HypothesisItem, RevisitEvent, HypothesisLedger, statement_digest,
}
use ai_coding_workflow.Hypotheses.Operations.{
  RejectInput, ReopenInput, Proposal, find_equal, rejected_item, sorted_difference, matches_of,
  ProposalResult,
}
use ai_coding_workflow.Hypotheses.Returning.{
  add_rejected_item-eq-ok, reopen_item-eq-ok, check_proposal-eq-ok,
}
use ai_coding_workflow.Hypotheses.Ledger.{
  active_items, add_rejected_item, reopen_item, record_revisit, answer, check_proposal,
}
use ai_coding_workflow.Hypotheses.Searching.{
  is_match, rejects, matches_of-is_empty, any_implies, any-change_item, added_any, find_equal-true,
}

module _ (normalize_statement sha256 : String → String) (event_digest : RevisitEvent → String)
    (ledger_digest : HypothesisLedger → String) where
  -- The operations on a ledger, but for the reopening of one hypothesis.
  pub data Steps (kept : String) (l : HypothesisLedger) : HypothesisLedger → Type 0 where
    start : Steps kept l l
    added :
        {m n : HypothesisLedger}
        → Steps kept l m
        → (v : RejectInput) → (state : String)
        → add_rejected_item normalize_statement sha256 event_digest ledger_digest m v state ≡ ok n
        → Steps kept l n
    revisited :
        {m : HypothesisLedger}
        → Steps kept l m
        → (e : RevisitEvent)
        → Steps kept l (record_revisit normalize_statement sha256 event_digest ledger_digest m e)
    reopened_other :
        {m n : HypothesisLedger}
        → Steps kept l m
        → (v : ReopenInput) → str_eq v.hypothesis_id kept ≡ false
        → reopen_item normalize_statement sha256 event_digest ledger_digest m v ≡ ok n
        → Steps kept l n

  -- An accepted rejection is in the ledger, and no other is lost.
  pub add_rejected_item-any :
      (l l' : HypothesisLedger) (v : RejectInput) (state : String)
      → add_rejected_item normalize_statement sha256 event_digest ledger_digest l v state ≡ ok l'
      → ((key : String)
          → statement_digest normalize_statement sha256 v.statement ≡ some key
          → any (rejects v.id key) l'.items ≡ true)
        × ((p : HypothesisItem → Bool) → any p l.items ≡ true → any p l'.items ≡ true)
  add_rejected_item-any l l' v state h =
      let (valid, fine, key, k, c) =
        add_rejected_item-eq-ok normalize_statement sha256 event_digest ledger_digest l l' v state
          h in
      elim c [
        | inl (f, same) ↦ (
          (λ key' k'.
              subst (λ (m : HypothesisLedger). any (rejects v.id key') m.items ≡ true) (sym same)
                (find_equal-true key' v l.items
                  (subst (λ x. find_equal x v l.items ≡ ok true) (some-injective (sym k ∙ k')) f))),
          λ p a. subst (λ (m : HypothesisLedger). any p m.items ≡ true) (sym same) a,
        )
        | inr (f, same) ↦ (
          (λ key' k'.
              subst (λ (m : HypothesisLedger). any (rejects v.id key') m.items ≡ true) (sym same)
                (added_any (rejects v.id key') (rejected_item key state v) l.items (
                  inr (
                    ground (
                      arith,
                      str_eq_refl v.id,
                      str_eq_refl key',
                      str_eq_iff key key',
                      some-injective (sym k ∙ k'),
                    ))))),
          λ p a.
              subst (λ (m : HypothesisLedger). any p m.items ≡ true) (sym same)
                (added_any p (rejected_item key state v) l.items (inl a)),
        )
      ]

  pub record_revisit-items :
      (l : HypothesisLedger) (e : RevisitEvent)
      → (record_revisit normalize_statement sha256 event_digest ledger_digest l e).items ≡ l.items
  unfolding record_revisit
  record_revisit-items l e =
      elim (Bool-cases (any (λ x. str_eq x.event_id e.event_id) l.revisit_events)) [
        | inl b ↦ rw b refl
        | inr b ↦ rw b refl
      ]

  -- As long as a hypothesis is not reopened, its rejection stays.
  Steps-any :
      (kept key : String) (l m : HypothesisLedger)
      → Steps kept l m
      → any (rejects kept key) l.items ≡ true
      → any (rejects kept key) m.items ≡ true
  Steps-any kept key l m start h = h
  Steps-any kept key l m (added {m = k} s v state e) h =
      (add_rejected_item-any k m v state e).1 (rejects kept key) (Steps-any kept key l k s h)
  Steps-any kept key l m (revisited {m = k} s e) h =
      subst (λ items. any (rejects kept key) items ≡ true) (sym (record_revisit-items k e))
        (Steps-any kept key l k s h)
  Steps-any kept key l m (reopened_other {m = k} s v n e) h =
      let (valid, fine, i, found, r, new, c, same) =
        reopen_item-eq-ok normalize_statement sha256 event_digest ledger_digest k m v e in
      subst (λ (x : HypothesisLedger). any (rejects kept key) x.items ≡ true) (sym same)
        (any-change_item kept key v.hypothesis_id v.reason
            (sorted_difference v.new_evidence_refs i.evidence_refs) v.producer k.items n
          ∙ Steps-any kept key l k s h)

  module _ (is_similar : String → String → Bool) (utc_now : String) where
    answer-allows :
        (max_relevant : ℕ) (key : String) (p : Proposal) (active : List HypothesisItem)
        (ms : List (HypothesisItem × MatchType))
        → ((answer normalize_statement sha256 event_digest ledger_digest is_similar utc_now
            max_relevant key p active ms).0
          ).execute_allowed
          ≡ is_empty ms
    answer-allows max_relevant key p active [] = refl
    answer-allows max_relevant key p active (m ∷ ms) = refl

    answer-records :
        (max_relevant : ℕ) (key : String) (p : Proposal) (active : List HypothesisItem)
        (ms : List (HypothesisItem × MatchType))
        → is_empty ms ≡ false
        → (answer normalize_statement sha256 event_digest ledger_digest is_similar utc_now
            max_relevant key p active ms).1
          ≢ none
    answer-records max_relevant key p active [] h e = cc
    answer-records max_relevant key p active (m ∷ ms) h e = cc

    -- When `check_proposal` answers, it allows the proposal exactly if the ledger has no rejected item
    -- that the proposal names as related, that has the hash of its statement, or whose statement is
    -- similar.
    pub check_proposal_allows :
        (l : HypothesisLedger) (p : Proposal) (max_relevant : ℕ) (r : ProposalResult)
        (e : Option RevisitEvent) (relevant : List HypothesisItem)
        → check_proposal normalize_statement sha256 event_digest ledger_digest is_similar utc_now l
            p max_relevant
          ≡ ok (r, e, relevant)
        → (key : String) × (statement_digest normalize_statement sha256 p.statement ≡ some key)
          × (r.execute_allowed ≡ not (any (is_match is_similar key p) l.items))
    check_proposal_allows l p max_relevant r e relevant h =
        let (valid, fine, key, k, same) =
          check_proposal-eq-ok normalize_statement sha256 event_digest ledger_digest is_similar
            utc_now l p max_relevant (r, e, relevant) h in
        let matches = matches_of is_similar key p (active_items l.items) in
        (
          key,
          k,
          ap
                (λ (o : ProposalResult × Option RevisitEvent × List HypothesisItem).
                  o.0.execute_allowed)
                same
              ∙ answer-allows max_relevant key p (active_items l.items) matches
              ∙ matches_of-is_empty is_similar key p l.items,
        )

    -- A rejection lasts: once `add_rejected_item` has accepted one, and after any rejections, revisits
    -- and reopenings of other hypotheses, a proposal of a statement with the same hash that
    -- `check_proposal` answers is not allowed, and leaves an event to record.
    pub add_rejected_item_blocks :
        (l m n : HypothesisLedger) (v : RejectInput) (state : String) (p : Proposal)
        (max_relevant : ℕ) (r : ProposalResult) (e : Option RevisitEvent)
        (relevant : List HypothesisItem)
        → add_rejected_item normalize_statement sha256 event_digest ledger_digest l v state ≡ ok m
        → Steps v.id m n
        → statement_digest normalize_statement sha256 p.statement
          ≡ statement_digest normalize_statement sha256 v.statement
        → check_proposal normalize_statement sha256 event_digest ledger_digest is_similar utc_now n
            p max_relevant
          ≡ ok (r, e, relevant)
        → (r.execute_allowed ≡ false) × (e ≢ none)
    add_rejected_item_blocks l m n v state p max_relevant r e relevant taken steps same h =
        let (valid, fine, key, k, result) =
          check_proposal-eq-ok normalize_statement sha256 event_digest ledger_digest is_similar
            utc_now n p max_relevant (r, e, relevant) h in
        let matches = matches_of is_similar key p (active_items n.items) in
        let there = (add_rejected_item-any l m v state taken).0 key (sym same ∙ k) in
        let kept = Steps-any v.id key m n steps there in
        let matched : any (is_match is_similar key p) n.items ≡ true =
          any_implies (rejects v.id key) (is_match is_similar key p) n.items (λ i a. ground arith)
            kept in
        let repeated : is_empty matches ≡ false =
          matches_of-is_empty is_similar key p n.items ∙ ap not matched in
        (
          ap
                (λ (o : ProposalResult × Option RevisitEvent × List HypothesisItem).
                  o.0.execute_allowed)
                result
              ∙ answer-allows max_relevant key p (active_items n.items) matches
              ∙ repeated,
          λ none_left. answer-records max_relevant key p (active_items n.items) matches repeated (
              sym (
                ap (λ (o : ProposalResult × Option RevisitEvent × List HypothesisItem). o.1) result)
              ∙ none_left),
        )
