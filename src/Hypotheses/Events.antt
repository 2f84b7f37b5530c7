-- ===== src/Hypotheses/Events.antt =====
-- The loop of `validate_ledger` of scripts/hypothesis_ledger.py over the events, where more ids are known.
use ai_coding_workflow.Prelude.{
  ℕ, ◌+◌, String, ◌≡◌, refl, true, List, [], ◌∷◌, map, mem, subset, subset_grow, note, arith,
  append-eq-nil, map-eq-nil,
}
use ai_coding_workflow.Hypotheses.Model.{
  MatchType, RevisitEvent, HypothesisLedger, in_event, event_flaws, events_flaws,
}

pub event_flaws_grow :
    (normalize_statement sha256 : String → String) (event_digest : RevisitEvent → String)
    (ledger_digest : HypothesisLedger → String) (known known' seen : List String) (e : RevisitEvent)
    → ((x : String) → mem x known ≡ true → mem x known' ≡ true)
    → event_flaws normalize_statement sha256 event_digest ledger_digest known seen e ≡ []
    → event_flaws normalize_statement sha256 event_digest ledger_digest known' seen e ≡ []
unfolding event_flaws
event_flaws_grow normalize_statement sha256 event_digest ledger_digest known known' seen e g h =
    let (h1, types) = append-eq-nil _ (note _ _) h in
    let (h2, ids) = append-eq-nil _ (note _ _) h1 in
    let keys = map (λ (p : String × MatchType). p.0) e.match_types in
    let ids' : subset e.matched_hypothesis_ids known' ≡ true =
      subset_grow e.matched_hypothesis_ids known known' g (ground arith) in
    let types' : subset keys known' ≡ true = subset_grow keys known known' g (ground arith) in
    rw (h2, ids', types') (ground arith)

pub events_flaws_grow :
    (normalize_statement sha256 : String → String) (event_digest : RevisitEvent → String)
    (ledger_digest : HypothesisLedger → String) (n : ℕ) (known known' seen : List String)
    (es : List RevisitEvent)
    → ((x : String) → mem x known ≡ true → mem x known' ≡ true)
    → events_flaws normalize_statement sha256 event_digest ledger_digest n known seen es ≡ []
    → events_flaws normalize_statement sha256 event_digest ledger_digest n known' seen es ≡ []
unfolding events_flaws
events_flaws_grow normalize_statement sha256 event_digest ledger_digest n known known' seen [] g h =
    refl
events_flaws_grow normalize_statement sha256 event_digest ledger_digest n known known' seen (e ∷ es)
      g h =
    let (here, later) =
      append-eq-nil
        (map (in_event n)
          (event_flaws normalize_statement sha256 event_digest ledger_digest known seen e))
        _ h in
    let here' =
      event_flaws_grow normalize_statement sha256 event_digest ledger_digest known known' seen e g
        (map-eq-nil (in_event n) _ here) in
    let later' =
      events_flaws_grow normalize_statement sha256 event_digest ledger_digest (n + 1) known known'
        (e.event_id ∷ seen) es g later in
    rw (here', later') refl
