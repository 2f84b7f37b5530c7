-- ===== src/WorkflowState/Validation.antt =====
-- The validators of scripts/workflow_state.py. Each returns the list of its errors, in the source's
-- order; an error of a list names the list and not the index.
use ai_coding_workflow.WorkflowState.Paths.{is_safe_repo_path_pattern}
use ai_coding_workflow.Prelude.{
  String, Bool, true, false, not, ◌&&◌, Option, none, some, List, [], ◌∷◌, ◌++◌, mem, unique,
  subset, all, any, is_empty, is_blank, is_digest, is_empty_text, note, collect, str_eq, ◌==◌,
  if◌then◌else◌,
}
use ai_coding_workflow.WorkflowState.Model.{
  Goal, Constraint, Decision, Hypothesis, Question, Acceptance, NextAction, Material, State, Event,
  EventMaterial, Hashing, EventType, unsupported, Problem, schema_version_invalid, hash_mismatch,
  unsafe_paths, event_type_unsupported, not_digest, blank, duplicate_id, not_strings, empty_list,
  duplicates, unregistered,
}

-- _nonempty, at a text
abbrev pub nonempty : String → String → List Problem
nonempty value path = note (is_blank value) (blank path)

-- _unique_ids: `seen` holds the ids of the items before
unfoldable pub unique_ids_after {ℓ} :
    {A : Type ℓ} → (A → String) → List String → String → List A → List Problem
unique_ids_after key seen path [] = []
unique_ids_after key seen path (x ∷ xs) =
    nonempty (key x) path
    ++ (note (mem (key x) seen) (duplicate_id path) ++ unique_ids_after key (key x ∷ seen) path xs)

abbrev pub unique_ids {ℓ} : {A : Type ℓ} → (A → String) → String → List A → List Problem
unique_ids key path xs = unique_ids_after key [] path xs

-- _string_list, at a list of texts
unfoldable pub string_list : String → Bool → List String → List Problem
string_list path require_item value =
    if not (all (λ s. not (is_empty_text s)) value)
    then not_strings path ∷ []
    else if require_item && is_empty value
    then empty_list path ∷ []
    else note (not (unique value)) (duplicates path)

-- _evidence_ref_list
unfoldable pub evidence_ref_list : String → Bool → List String → List Problem
evidence_ref_list path require_item value =
    if not (is_empty (string_list path require_item value))
    then string_list path require_item value
    else collect (λ ref. note (not (is_digest ref)) (not_digest path)) value

unfoldable pub goal_problems : Goal → List Problem
goal_problems g =
    nonempty g.id "goal.id"
    ++ (nonempty g.statement "goal.statement"
        ++ string_list "goal.acceptance_ids" false g.acceptance_ids)

unfoldable pub constraint_problems : Constraint → List Problem
constraint_problems c =
    nonempty c.statement "constraints.statement" ++ nonempty c.source "constraints.source"

unfoldable pub decision_problems : Decision → List Problem
decision_problems d =
    nonempty d.statement "accepted_decisions.statement"
    ++ evidence_ref_list "accepted_decisions.evidence_refs" false d.evidence_refs

unfoldable pub hypothesis_problems : Hypothesis → List Problem
hypothesis_problems h =
    nonempty h.statement "rejected_hypotheses.statement"
    ++ (nonempty h.reason "rejected_hypotheses.reason"
        ++ evidence_ref_list "rejected_hypotheses.evidence_refs" true h.evidence_refs)

unfoldable pub question_problems : Question → List Problem
question_problems q = nonempty q.question "open_questions.question"

unfoldable pub acceptance_problems : Acceptance → List Problem
acceptance_problems a =
    note (is_empty_text a.id) (blank "acceptance_status")
    ++ (nonempty a.description "acceptance_status.description"
        ++ evidence_ref_list "acceptance_status.evidence_refs" false a.evidence_refs)

-- `set(nested_refs) - registered`
abbrev pub registration : List String → String → List String → List Problem
registration registered path refs = note (not (subset refs registered)) (unregistered path)

unfoldable pub next_action_problems : NextAction → List Problem
next_action_problems a =
    nonempty a.owner "next_action.owner"
    ++ (nonempty a.operation "next_action.operation"
        ++ (string_list "next_action.allowed_paths" false a.allowed_paths
            ++ note (any (λ p. not (is_safe_repo_path_pattern p)) a.allowed_paths) unsafe_paths))

abbrev pub optional_digest : Option String → String → List Problem
optional_digest none path = []
optional_digest (some s) path = note (not (is_digest s)) (not_digest path)

-- What `validate_state` finds in the header of a state, in its lists, and in their references.
unfoldable pub header_problems : Material → List Problem
header_problems m =
    note (not (m.schema_version == 1)) schema_version_invalid
    ++ (optional_digest m.parent_state_id "parent_state_id"
        ++ (nonempty m.task_id "task_id"
            ++ note (not (is_digest m.repository_state_hash)) (not_digest "repository_state_hash")))

unfoldable pub list_problems : Material → List Problem
list_problems m =
    goal_problems m.goal
    ++ (unique_ids (λ (c : Constraint). c.id) "constraints" m.constraints
        ++ (unique_ids (λ (d : Decision). d.id) "accepted_decisions" m.accepted_decisions
            ++ (unique_ids (λ (h : Hypothesis). h.id) "rejected_hypotheses" m.rejected_hypotheses
                ++ (unique_ids (λ (q : Question). q.id) "open_questions" m.open_questions
                    ++ (collect constraint_problems m.constraints
                        ++ (collect decision_problems m.accepted_decisions
                            ++ (collect hypothesis_problems m.rejected_hypotheses
                                ++ (collect question_problems m.open_questions
                                    ++ (evidence_ref_list "evidence_refs" false m.evidence_refs
                                        ++ collect acceptance_problems m.acceptance_status)))))))))

unfoldable pub reference_problems : Material → List Problem
reference_problems m =
    collect (λ (d : Decision). registration m.evidence_refs "accepted_decisions" d.evidence_refs)
      m.accepted_decisions
    ++ (collect
          (λ (h : Hypothesis). registration m.evidence_refs "rejected_hypotheses" h.evidence_refs)
          m.rejected_hypotheses
        ++ collect
            (λ (a : Acceptance). registration m.evidence_refs "acceptance_status" a.evidence_refs)
            m.acceptance_status)

-- `event.get("event_type") in VALID_EVENT_TYPES`
abbrev pub is_supported : EventType → Bool
is_supported (unsupported t) = false
is_supported _ = true

module _ (hashing : Hashing) where
  unfoldable pub state_id_for : Material → String
  state_id_for m = hashing.state_hash m

  unfoldable pub event_id_for : EventMaterial → String
  event_id_for e = hashing.event_hash e

  unfoldable pub validate_state : Bool → State → List Problem
  validate_state verify_hash s =
      note (not (is_digest s.state_id)) (not_digest "state_id")
      ++ (header_problems s.material
          ++ (list_problems s.material
              ++ (reference_problems s.material
                  ++ (next_action_problems s.next_action
                      ++ note (verify_hash && not (str_eq s.state_id (state_id_for s.material)))
                          hash_mismatch))))

  unfoldable pub validate_event : Event → List Problem
  validate_event e =
      note (not (e.schema_version == 1)) schema_version_invalid
      ++ (note (not (is_supported e.event_type)) event_type_unsupported
          ++ (nonempty e.actor "actor"
              ++ (nonempty e.timestamp "timestamp"
                  ++ (note (not (is_digest e.event_id)) (not_digest "event_id")
                      ++ (note (not (is_digest e.new_state_id)) (not_digest "new_state_id")
                          ++ (optional_digest e.base_state_id "base_state_id"
                              ++ note (not (str_eq e.event_id (event_id_for e.material)))
                                  hash_mismatch))))))
