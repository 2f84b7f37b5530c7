-- ===== src/Hypotheses/Ledger.antt =====
-- The four functions of scripts/hypothesis_ledger.py that a command calls: `add_rejected_item`,
-- `reopen_item`, `check_proposal` and `record_revisit`. What they compute with Python's library is a
-- parameter: the normal form of a statement, sha256, the digests of documents, the similarity test.
use ai_coding_workflow.Prelude.{
  ℕ, ◌+◌, String, Bool, true, false, not, ◌&&◌, Option, none, some, List, [], ◌∷◌, ◌++◌, map, mem,
  any, filter, to_set, str_eq, is_empty, if◌then◌else◌, Dict, dict_put, sorted, sort_by, ◌==◌,
  Result, ok, err, ◌>>=◌, ◌>>◌, raise_if,
}
use ai_coding_workflow.Hypotheses.Model.{
  MatchType, HypothesisItem, RevisitEvent, HypothesisLedger, is_rejected, statement_digest,
  revisit_event_id_for, ledger_id_for, validate_ledger,
}
use ai_coding_workflow.Hypotheses.Operations.{
  RejectInput, ReopenInput, Proposal, HypothesisError, invalid, no_letters, no_such_hypothesis,
  not_rejected, no_new_evidence, condition_not_met, bad_max_relevant, unknown_related,
  validate_reject_input, validate_reopen_input, validate_proposal, find_equal, rejected_item,
  find_item, change_item, reopened_item, sorted_difference, item_id, matches_of, is_strong, novel,
  repeated, ProposalResult, take, outcome_of,
}

abbrev pub key_of : Option String → Result HypothesisError String
key_of none = err no_letters
key_of (some key) = ok key

abbrev pub item_of : Option HypothesisItem → Result HypothesisError HypothesisItem
item_of none = err no_such_hypothesis
item_of (some i) = ok i

abbrev pub active_items : List HypothesisItem → List HypothesisItem
active_items items = filter (λ i. is_rejected i.status) items

abbrev pub match_id : HypothesisItem × MatchType → String
match_id m = m.0.id

unfoldable pub types_of : List (HypothesisItem × MatchType) → Dict MatchType → Dict MatchType
types_of [] d = d
types_of ((i, m) ∷ ms) d = types_of ms (dict_put i.id m d)

unfoldable pub relevant_items :
    ℕ → Proposal → List String → List HypothesisItem → List HypothesisItem
relevant_items max_relevant p match_ids active = take max_relevant (
    sort_by item_id (filter (λ i. mem i.id match_ids) active)
    ++ sort_by item_id (
        filter (λ i. not (mem i.id match_ids) && any (λ s. mem s i.scope_refs) p.scope_refs)
          active))

module _ (normalize_statement sha256 : String → String) (event_digest : RevisitEvent → String)
    (ledger_digest : HypothesisLedger → String) where
  -- `result["ledger_id"] = ledger_id_for(result)`
  abbrev pub seal : HypothesisLedger → HypothesisLedger
  seal l = record {
    schema_version = l.schema_version;
    ledger_id = ledger_id_for normalize_statement sha256 event_digest ledger_digest l;
    task_id = l.task_id;
    revision = l.revision;
    repository_state_hash = l.repository_state_hash;
    items = l.items;
    revisit_events = l.revisit_events;
  }

  abbrev pub empty_ledger : String → String → HypothesisLedger
  empty_ledger task_id repository_state_hash = seal (record {
    schema_version = 1;
    ledger_id = "";
    task_id = task_id;
    revision = 0;
    repository_state_hash = repository_state_hash;
    items = [];
    revisit_events = [];
  })

  -- A ledger with other items, one revision later.
  abbrev pub with_items : List HypothesisItem → String → HypothesisLedger → HypothesisLedger
  with_items items repository_state_hash l = seal (record {
    schema_version = l.schema_version;
    ledger_id = l.ledger_id;
    task_id = l.task_id;
    revision = l.revision + 1;
    repository_state_hash = repository_state_hash;
    items = items;
    revisit_events = l.revisit_events;
  })

  unfoldable pub add_rejected_item :
      HypothesisLedger → RejectInput → String → Result HypothesisError HypothesisLedger
  unfolding validate_ledger validate_reject_input find_equal statement_digest
  add_rejected_item l value rejected_state_id = do
    let errors =
        validate_ledger normalize_statement sha256 event_digest ledger_digest l
        ++ validate_reject_input value
    raise_if (not (is_empty errors)) (invalid errors)
    key ← key_of (statement_digest normalize_statement sha256 value.statement)
    present ← find_equal key value l.items
    let items = sort_by item_id (l.items ++ rejected_item key rejected_state_id value ∷ [])
    ok (if present then l else with_items items value.repository_state_hash l)

  unfoldable pub reopen_item :
      HypothesisLedger → ReopenInput → Result HypothesisError HypothesisLedger
  unfolding validate_ledger validate_reopen_input find_item change_item sorted_difference
  reopen_item l value = do
    let errors =
        validate_ledger normalize_statement sha256 event_digest ledger_digest l
        ++ validate_reopen_input value
    raise_if (not (is_empty errors)) (invalid errors)
    item ← item_of (find_item value.hypothesis_id l.items)
    raise_if (not (is_rejected item.status)) not_rejected
    let new_evidence = sorted_difference value.new_evidence_refs item.evidence_refs
    raise_if (is_empty new_evidence) no_new_evidence
    raise_if (not value.condition_met) condition_not_met
    let items =
        change_item value.hypothesis_id (reopened_item value.reason new_evidence value.producer)
          l.items
    ok (with_items items value.repository_state_hash l)

  unfoldable pub record_revisit : HypothesisLedger → RevisitEvent → HypothesisLedger
  record_revisit l event =
      if any (λ e. str_eq e.event_id event.event_id) l.revisit_events
      then l
      else seal (record {
        schema_version = l.schema_version;
        ledger_id = l.ledger_id;
        task_id = l.task_id;
        revision = l.revision + 1;
        repository_state_hash = event.repository_state_hash;
        items = l.items;
        revisit_events = l.revisit_events ++ event ∷ [];
      })

  -- `event["event_id"] = revisit_event_id_for(event)`
  abbrev pub seal_event : RevisitEvent → RevisitEvent
  seal_event e = record {
    event_id = revisit_event_id_for normalize_statement sha256 event_digest ledger_digest e;
    observed_at = e.observed_at;
    producer = e.producer;
    statement = e.statement;
    statement_hash = e.statement_hash;
    evidence_refs = e.evidence_refs;
    repository_state_hash = e.repository_state_hash;
    scope_refs = e.scope_refs;
    matched_hypothesis_ids = e.matched_hypothesis_ids;
    match_types = e.match_types;
    outcome = e.outcome;
  }

  module _ (is_similar : String → String → Bool) (utc_now : String) where
    -- What `check_proposal` answers, given the matches among the active items.
    abbrev pub answer :
        ℕ
        → String
        → Proposal
        → List HypothesisItem
        → List (HypothesisItem × MatchType)
        → ProposalResult × Option RevisitEvent × List HypothesisItem
    answer max_relevant key p active [] =
        let relevant = relevant_items max_relevant p [] active in
        (
          record {
            status = novel;
            execute_allowed = true;
            matched_hypotheses = [];
            new_evidence_present = false;
            repository_changed = false;
            relevant_rejected_hypotheses = relevant;
          },
          none,
          relevant,
        )
    answer max_relevant key p active (m ∷ ms) =
        let matches = m ∷ ms in
        let match_ids = to_set (map match_id matches) in
        let relevant = relevant_items max_relevant p match_ids active in
        let has_new_evidence =
          any (λ n. any (λ e. not (mem e n.0.evidence_refs)) p.evidence_refs) matches in
        let repository_changed =
          any (λ n. not (str_eq p.repository_state_hash n.0.repository_state_hash)) matches in
        let outcome =
          outcome_of (any (λ n. is_strong n.1) matches) has_new_evidence repository_changed in
        let rows = sort_by match_id matches in
        (
          record {
            status = repeated outcome;
            execute_allowed = false;
            matched_hypotheses = map (λ n. (n.0.id, n.1)) rows;
            new_evidence_present = has_new_evidence;
            repository_changed = repository_changed;
            relevant_rejected_hypotheses = relevant;
          },
          some (
              seal_event (record {
                event_id = "";
                observed_at = utc_now;
                producer = p.producer;
                statement = p.statement;
                statement_hash = key;
                evidence_refs = sorted p.evidence_refs;
                repository_state_hash = p.repository_state_hash;
                scope_refs = sorted p.scope_refs;
                matched_hypothesis_ids = sorted match_ids;
                match_types = types_of rows [];
                outcome = outcome;
              })),
          relevant,
        )

    unfoldable pub check_proposal :
        HypothesisLedger
        → Proposal
        → ℕ
        → Result HypothesisError (ProposalResult × Option RevisitEvent × List HypothesisItem)
    unfolding validate_ledger validate_proposal matches_of statement_digest
    check_proposal l p max_relevant = do
      let errors =
          validate_ledger normalize_statement sha256 event_digest ledger_digest l
          ++ validate_proposal p
      raise_if (not (is_empty errors)) (invalid errors)
      raise_if (max_relevant == 0) bad_max_relevant
      raise_if (any (λ r. not (mem r (map item_id l.items))) p.related_hypothesis_ids)
          unknown_related
      key ← key_of (statement_digest normalize_statement sha256 p.statement)
      let active = active_items l.items
      ok (answer max_relevant key p active (matches_of is_similar key p active))
