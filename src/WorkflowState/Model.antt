-- ===== src/WorkflowState/Model.antt =====
-- The documents of scripts/workflow_state.py: the state, the events, what may be wrong with them.
-- A value of a record is a JSON object that has the fields of that record at their types, so the
-- validator's tests for missing fields and for types are the typing here. A closed vocabulary
-- (VALID_PHASES and the others) is an enumeration.
use ai_coding_workflow.Prelude.{
  ℕ, String, ◌≡◌, Bool, true, Option, List, is_digest, str_eq, if◌then◌else◌, some, none,
}
use ai_coding_workflow.Json.{Json, str, Fields}

pub data Phase : Type 0 where
  planning implementation verification review revision complete : Phase

pub data AcceptanceStatus : Type 0 where
  pending satisfied failed blocked unknown : AcceptanceStatus

pub data DecisionStatus : Type 0 where
  accepted frozen : DecisionStatus

-- VALID_EVENT_TYPES; `unsupported` is any other text.
pub data EventType : Type 0 where
  state_initialized goal_updated constraint_added : EventType
  decision_accepted decision_frozen decision_invalidated : EventType
  hypothesis_rejected hypothesis_reopened question_opened question_resolved : EventType
  evidence_added acceptance_updated next_action_updated : EventType
  repository_state_updated phase_changed : EventType
  unsupported : String → EventType

pub record Goal : Type 0 where
  pub id : String
  pub statement : String
  pub acceptance_ids : List String

pub record Constraint : Type 0 where
  pub id : String
  pub statement : String
  pub source : String
  pub is_frozen : Bool

pub record Decision : Type 0 where
  pub id : String
  pub statement : String
  pub status : DecisionStatus
  pub evidence_refs : List String

pub record Hypothesis : Type 0 where
  pub id : String
  pub statement : String
  pub reason : String
  pub evidence_refs : List String

pub record Question : Type 0 where
  pub id : String
  pub question : String

-- One entry of the dictionary `acceptance_status`, with its key.
pub record Acceptance : Type 0 where
  pub id : String
  pub description : String
  pub status : AcceptanceStatus
  pub evidence_refs : List String

pub record NextAction : Type 0 where
  pub owner : String
  pub operation : String
  pub allowed_paths : List String

-- A state without its `state_id`: what `state_id_for` hashes.
pub record Material : Type 0 where
  pub schema_version : ℕ
  pub parent_state_id : Option String
  pub revision : ℕ
  pub task_id : String
  pub phase : Phase
  pub repository_state_hash : String
  pub goal : Goal
  pub constraints : List Constraint
  pub accepted_decisions : List Decision
  pub rejected_hypotheses : List Hypothesis
  pub open_questions : List Question
  pub evidence_refs : List String
  pub acceptance_status : List Acceptance
  pub next_action : NextAction

pub record State : Type 0 where
  pub state_id : String
  pub material : Material
  pub open material use *

-- The payload of an event: its fields, and its `initial_state` as it reads where it is a state.
pub record Payload : Type 0 where
  pub fields : Fields
  pub initial_state : Option Material

-- An event without its `event_id` and `timestamp`: what `event_id_for` hashes.
pub record EventMaterial : Type 0 where
  pub schema_version : ℕ
  pub actor : String
  pub event_type : EventType
  pub base_state_id : Option String
  pub new_state_id : String
  pub payload : Payload

pub record Event : Type 0 where
  pub event_id : String
  pub timestamp : String
  pub material : EventMaterial
  pub open material use *

-- `"sha256:" + hashlib.sha256(canonical_json(…)).hexdigest()`: `hashlib` and `json` are outside the
-- repository. Documented behaviour: `hexdigest` has 64 lower-case hexadecimal digits.
pub record Hashing : Type 0 where
  pub state_hash : Material → String
  pub event_hash : EventMaterial → String
  pub state_hash_digest : (m : Material) → is_digest (state_hash m) ≡ true
  pub event_hash_digest : (e : EventMaterial) → is_digest (event_hash e) ≡ true

-- What `WorkflowStateError` is raised for; texts name a field or a list. `type_error` and
-- `key_error` stand for Python's own exceptions.
pub data Error : Type 0 where
  unsupported_event type_error log_empty first_event_invalid initial_state_missing : Error
  missing_field blank_field already_exists frozen_overwrite does_not_exist not_accepted :
      String → Error
  invalid_refs unregistered_refs invalid_value illegal_transition : Error
  initial_id_mismatch initial_invalid chain_broken id_mismatch produces_invalid : Error
  invalid_current tail_mismatch delta_invalid : Error

-- One entry of the error list of a validator, with the path that it names.
pub data Problem : Type 0 where
  schema_version_invalid hash_mismatch unsafe_paths event_type_unsupported : Problem
  not_digest blank duplicate_id not_strings empty_list duplicates : String → Problem
  unregistered : String → Problem

-- `payload["phase"] in VALID_PHASES`, with the phase that it names.
unfoldable pub read_phase : Json → Option Phase
read_phase (str s) =
    if str_eq s "planning"
    then some planning
    else if str_eq s "implementation"
    then some implementation
    else if str_eq s "verification"
    then some verification
    else if str_eq s "review"
    then some review
    else if str_eq s "revision"
    then some revision
    else if str_eq s "complete"
    then some complete
    else none
read_phase v = none

-- `payload["status"] in VALID_ACCEPTANCE_STATUS`.
unfoldable pub read_acceptance_status : Json → Option AcceptanceStatus
read_acceptance_status (str s) =
    if str_eq s "pending"
    then some pending
    else if str_eq s "satisfied"
    then some satisfied
    else if str_eq s "failed"
    then some failed
    else if str_eq s "blocked"
    then some blocked
    else if str_eq s "unknown"
    then some unknown
    else none
read_acceptance_status v = none

pub Phase-discrete : Discrete Phase
Phase-discrete = hlevel

-- PHASE_TRANSITIONS: whether the second phase is among those that may follow the first.
unfoldable pub phase_transitions : Phase → Phase → Bool
phase_transitions planning implementation = true
phase_transitions planning complete = true
phase_transitions implementation verification = true
phase_transitions implementation revision = true
phase_transitions verification review = true
phase_transitions verification revision = true
phase_transitions review revision = true
phase_transitions review complete = true
phase_transitions revision implementation = true
phase_transitions revision verification = true
phase_transitions _ _ = Bool.false
