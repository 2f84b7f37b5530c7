-- ===== src/OwnerLease/Model.antt =====
-- The requests and leases of scripts/owner_lease.py and their validators. The fields have the types
-- that the validators ask for, and a closed vocabulary is an enumeration; what is left to test is
-- the contents.
use ai_coding_workflow.Prelude.{
  ℕ, String, ◌≡◌, Bool, true, false, not, ◌&&◌, ◌||◌, Option, none, some, List, [], ◌∷◌, ◌++◌, all,
  unique, is_empty_text, is_digest, str_eq, leb, ◌==◌, note,
}

-- OPERATIONS
pub data Operation : Type 0 where
  mechanical_revision test_fix semantic_revision validation continuation : Operation

-- RESUME_STATUSES
pub data ResumeStatus : Type 0 where
  not_attempted succeeded failed : ResumeStatus

pub data LeaseStatus : Type 0 where
  requested granted expired revoked : LeaseStatus

pub data Mode : Type 0 where
  resumed_session new_session resume_required : Mode

pub data OwnerModel : Type 0 where
  claude_builder codex_fast_path unknown : OwnerModel

pub data Action : Type 0 where
  skip invoke : Action

pub record OwnershipRequest : Type 0 where
  pub schema_version : ℕ
  pub task_id : String
  pub state_id : String
  pub operation : Operation
  pub original_builder_id : String
  pub current_builder_id : String
  pub current_session_id : Option String
  pub resume_status : ResumeStatus
  pub new_evidence_refs : List String
  pub semantic_blockers : List String
  pub explicit_owner_id : Option String
  pub switch_reason : Option String
  pub last_handoff_event_id : Option String
  pub lease_ttl_seconds : ℕ

pub record LeaseSession : Type 0 where
  pub session_id : Option String
  pub resume_status : ResumeStatus
  pub mode : Mode

pub record ModelSwitch : Type 0 where
  pub required : Bool
  pub from_owner : String
  pub to_owner : String
  pub reason : Option String

pub record Advisor : Type 0 where
  pub action : Action
  pub reason : String

pub record Reviewer : Type 0 where
  pub action : Action
  pub reason : String
  pub new_evidence_refs : List String

-- LEASE_FIELDS without `lease_id`: what the hash of a lease covers.
pub record LeaseContent : Type 0 where
  pub schema_version : ℕ
  pub task_id : String
  pub state_id : String
  pub operation : Operation
  pub original_builder_id : String
  pub current_builder_id : String
  pub selected_owner_id : String
  pub owner_source : String
  pub current_model : OwnerModel
  pub selected_model : OwnerModel
  pub status : LeaseStatus
  pub previous_lease_id : Option String
  pub lease_generation : ℕ
  pub handoff_count : ℕ
  pub last_handoff_event_id : Option String
  pub lease_ttl_seconds : ℕ
  pub renewal_count : ℕ
  pub session : LeaseSession
  pub model_switch : ModelSwitch
  pub advisor : Advisor
  pub reviewer : Reviewer
  pub transition_reason : String

pub record Lease : Type 0 where
  pub lease_id : String
  pub content : LeaseContent
  pub open content use *

-- `_hash`: a sha256 digest of the canonical JSON.
pub record LeaseHashing : Type 0 where
  pub lease_hash : LeaseContent → String
  pub lease_hash_digest : (c : LeaseContent) → is_digest (lease_hash c) ≡ true

-- What a validator reports, by the field.
pub data LeaseProblem : Type 0 where
  field_invalid : String → LeaseProblem

abbrev pub bad : Bool → String → List LeaseProblem
bad b name = note b (field_invalid name)

-- The tests of a validator, each with the field that it reports.
abbrev pub reports : List (Bool × String) → List LeaseProblem
reports [] = []
reports ((b, name) ∷ tests) = bad b name ++ reports tests

-- `_strings`
unfoldable pub unique_strings : List String → Bool
unique_strings xs = unique xs && all (λ x. not (is_empty_text x)) xs

-- `value is not None and not value`
abbrev pub is_empty_option : Option String → Bool
is_empty_option none = false
is_empty_option (some s) = is_empty_text s

-- `value is not None and not HASH_RE.fullmatch(value)`
abbrev pub is_not_digest : Option String → Bool
is_not_digest none = false
is_not_digest (some s) = not (is_digest s)

-- `not value`
abbrev pub is_falsy : Option String → Bool
is_falsy none = true
is_falsy (some s) = is_empty_text s

unfoldable pub bad_ttl : ℕ → Bool
bad_ttl n = not (leb 60 n && leb n 86400)

unfoldable pub validate_request : OwnershipRequest → List LeaseProblem
validate_request q = reports (
    (not (q.schema_version == 1), "schema_version")
    ∷ (is_empty_text q.task_id, "task_id")
    ∷ (is_empty_text q.original_builder_id, "original_builder_id")
    ∷ (is_empty_text q.current_builder_id, "current_builder_id")
    ∷ (not (is_digest q.state_id), "state_id")
    ∷ (is_empty_option q.current_session_id, "current_session_id")
    ∷ (is_empty_option q.explicit_owner_id, "explicit_owner_id")
    ∷ (is_empty_option q.switch_reason, "switch_reason")
    ∷ (is_empty_option q.last_handoff_event_id, "last_handoff_event_id")
    ∷ (not (unique_strings q.new_evidence_refs), "new_evidence_refs")
    ∷ (not (unique_strings q.semantic_blockers), "semantic_blockers")
    ∷ (not (all is_digest q.new_evidence_refs), "new_evidence_refs")
    ∷ (bad_ttl q.lease_ttl_seconds, "lease_ttl_seconds")
    ∷ [])

abbrev pub is_resumed : Mode → Bool
is_resumed resumed_session = true
is_resumed _ = false

abbrev pub is_resume_required : Mode → Bool
is_resume_required resume_required = true
is_resume_required _ = false

abbrev pub is_succeeded : ResumeStatus → Bool
is_succeeded succeeded = true
is_succeeded _ = false

abbrev pub is_not_attempted : ResumeStatus → Bool
is_not_attempted not_attempted = true
is_not_attempted _ = false

abbrev pub is_granted : LeaseStatus → Bool
is_granted granted = true
is_granted _ = false

unfoldable pub session_problems : LeaseSession → List LeaseProblem
session_problems s = reports (
    (is_empty_option s.session_id, "session.session_id")
    ∷ (
      is_resumed s.mode && (not (is_succeeded s.resume_status) || is_falsy s.session_id),
      "resumed-session",
    )
    ∷ (is_resume_required s.mode && not (is_not_attempted s.resume_status), "resume-required")
    ∷ [])

abbrev is_some : Option String → Bool
is_some none = false
is_some (some s) = true

unfoldable pub switch_problems : ModelSwitch → List LeaseProblem
switch_problems w = reports (
    (is_empty_text w.from_owner, "model_switch.from_owner")
    ∷ (is_empty_text w.to_owner, "model_switch.to_owner")
    ∷ (is_empty_option w.reason, "model_switch.reason")
    ∷ (w.required && (is_falsy w.reason || str_eq w.from_owner w.to_owner), "switch")
    ∷ (not w.required && (is_some w.reason || not (str_eq w.from_owner w.to_owner)), "non-switch")
    ∷ [])

unfoldable pub validate_lease : LeaseHashing → Lease → List LeaseProblem
validate_lease hashing l =
    reports (
      (not (l.schema_version == 1), "schema_version")
      ∷ (not (is_digest l.lease_id), "lease_id")
      ∷ (not (is_digest l.state_id), "state_id")
      ∷ (is_empty_text l.task_id, "task_id")
      ∷ (is_empty_text l.original_builder_id, "original_builder_id")
      ∷ (is_empty_text l.current_builder_id, "current_builder_id")
      ∷ (is_empty_text l.selected_owner_id, "selected_owner_id")
      ∷ (is_empty_text l.owner_source, "owner_source")
      ∷ (is_empty_text l.transition_reason, "transition_reason")
      ∷ (is_not_digest l.previous_lease_id, "previous_lease_id")
      ∷ (bad_ttl l.lease_ttl_seconds, "lease_ttl_seconds")
      ∷ [])
    ++ session_problems l.session
    ++ switch_problems l.model_switch
    ++ reports (
        (is_empty_text l.advisor.reason, "advisor")
        ∷ (is_empty_text l.reviewer.reason, "reviewer")
        ∷ (not (unique_strings l.reviewer.new_evidence_refs), "reviewer.new_evidence_refs")
        ∷ (
          unique_strings l.reviewer.new_evidence_refs
              && not (all is_digest l.reviewer.new_evidence_refs),
          "reviewer.new_evidence_refs",
        )
        ∷ (is_granted l.status && is_resume_required l.session.mode, "status")
        ∷ (not (str_eq l.lease_id (hashing.lease_hash l.content)), "lease_id")
        ∷ [])
