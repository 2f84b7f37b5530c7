-- ===== src/Hypotheses/Runs.antt =====
-- Runs of scripts/update-hypothesis-ledger.py.
use ai_coding_workflow.Prelude.{
  String, ◌≡◌, refl, true, none, some, [], ◌∷◌, map, any, is_digest, after_prefix, is_hex, is_blank,
  is_space, str_leb, sorted, insert_by, sort_by,
}
use ai_coding_workflow.WorkflowState.Examples.{first_id, proof_ref, state, log, hashing, id_of}
use ai_coding_workflow.WorkflowState.Validation.{
  header_problems, list_problems, goal_problems, string_list, unique_ids_after, constraint_problems,
  decision_problems, evidence_ref_list, acceptance_problems, reference_problems,
  next_action_problems, state_id_for, event_id_for, hypothesis_problems, question_problems,
  validate_event, validate_state,
}
use ai_coding_workflow.WorkflowState.Paths.{is_safe_repo_path_pattern, is_absolute, split}
use ai_coding_workflow.Json.{at, get, has, item_strings, strings, truthy}
use ai_coding_workflow.WorkflowState.Chain.{finalize_transition, stamp, tail_is}
use ai_coding_workflow.WorkflowState.Mutation.{
  apply_mutation, find, mutate, mutation_evidence_refs, nonempty_or_raise, require_payload,
  sort_lists,
}
use ai_coding_workflow.Hypotheses.Model.{
  RevisitEvent, HypothesisLedger, validate_ledger, digest_flaws, event_flaws, events_flaws,
  item_flaws, items_flaws, other_fields, reopening_flaws, statement_digest, string_flaws,
  text_fields,
}
use ai_coding_workflow.Hypotheses.Operations.{
  RejectInput, different_metadata, rejected_item, reopened_item, find_equal, same_metadata,
  validate_reject_input,
}
use ai_coding_workflow.Hypotheses.Ledger.{with_items, empty_ledger, add_rejected_item}
use ai_coding_workflow.Hypotheses.Command.{
  Store, ledger_error, update_reject, check_rejection, persist_state_transition, reject_in_state,
  rejected_state_id, state_hypothesis,
}
use ai_coding_workflow.Hypotheses.Searching.{rejects}
use ai_coding_workflow.Hypotheses.Synchrony.{update_reject_succeeds}

abbrev same : String → String
same s = s

abbrev by_statement : RevisitEvent → String
by_statement e = e.statement

abbrev ledger_digest : HypothesisLedger → String
ledger_digest l = first_id

abbrev rejection : RejectInput
rejection = record {
  schema_version = 1;
  id = "h1";
  statement = "cache";
  reason = "no effect";
  evidence_refs = proof_ref ∷ [];
  reopen_when = none;
  producer = "codex";
  repository_state_hash = first_id;
  scope_refs = [];
}

abbrev before : Store
before = record { state = state; events = log; ledger = none }

first_is_digest : is_digest first_id ≡ true
unfolding is_digest after_prefix is_hex
first_is_digest = refl

rejection_succeeds :
    (update_reject hashing same same by_statement ledger_digest before rejection "codex" "t1").error
    ≡ none
unfolding is_digest is_blank after_prefix is_hex is_space str_leb sorted insert_by sort_by
    header_problems list_problems goal_problems string_list unique_ids_after constraint_problems
    decision_problems evidence_ref_list acceptance_problems reference_problems next_action_problems
    state_id_for event_id_for hypothesis_problems question_problems validate_event validate_state
    is_safe_repo_path_pattern is_absolute split id_of update_reject check_rejection
    persist_state_transition reject_in_state rejected_state_id state_hypothesis add_rejected_item
    digest_flaws event_flaws events_flaws item_flaws items_flaws other_fields reopening_flaws
    statement_digest string_flaws text_fields validate_ledger find_equal same_metadata
    validate_reject_input at get has item_strings strings truthy finalize_transition stamp tail_is
    apply_mutation find mutate mutation_evidence_refs nonempty_or_raise require_payload sort_lists
rejection_succeeds = refl

update_reject_succeeds_example :
    (l : HypothesisLedger) × ((update_reject hashing same same by_statement ledger_digest before
        rejection "codex" "t1").store.ledger
      ≡ some l)
    × (validate_ledger same same by_statement ledger_digest l ≡ [])
    × (any (rejects "h1" "cache") l.items ≡ true)
unfolding statement_digest
update_reject_succeeds_example =
    update_reject_succeeds hashing same same by_statement ledger_digest (λ l. first_is_digest)
      before rejection "codex" "t1" "cache" (first_is_digest, tt) refl rejection_succeeds

-- The ledger once the hypothesis has been reopened; the state has dropped it by then.
abbrev reopened_before : Store
reopened_before = record {
  state = state;
  events = log;
  ledger = some (
      with_items same same by_statement ledger_digest
        (reopened_item "new trace" ("e2" ∷ []) "codex" (rejected_item "cache" first_id rejection)
          ∷ [])
        first_id (empty_ledger same same by_statement ledger_digest "T-1" first_id));
}

-- A rejection under the same id fails on the ledger, after the state and its log have been written.
rejected_once_more :
    ((update_reject hashing same same by_statement ledger_digest reopened_before rejection "codex"
        "t1").error
      ≡ some (ledger_error different_metadata))
    × (map
          (λ h. h.id)
          (update_reject hashing same same by_statement ledger_digest reopened_before rejection
            "codex" "t1").store.state.rejected_hypotheses
        ≡ "h1" ∷ [])
unfolding is_digest is_blank after_prefix is_hex is_space str_leb sorted insert_by sort_by
    header_problems list_problems goal_problems string_list unique_ids_after constraint_problems
    decision_problems evidence_ref_list acceptance_problems reference_problems next_action_problems
    state_id_for event_id_for hypothesis_problems question_problems validate_event validate_state
    is_safe_repo_path_pattern is_absolute split id_of update_reject check_rejection
    persist_state_transition reject_in_state rejected_state_id state_hypothesis add_rejected_item
    digest_flaws event_flaws events_flaws item_flaws items_flaws other_fields reopening_flaws
    statement_digest string_flaws text_fields validate_ledger find_equal same_metadata
    validate_reject_input at get has item_strings strings truthy finalize_transition stamp tail_is
    apply_mutation find mutate mutation_evidence_refs nonempty_or_raise require_payload sort_lists
rejected_once_more = (refl, refl)
