-- ===== src/WorkflowState/Examples.antt =====
-- A short run of scripts/apply-workflow-delta.py over an initial log, with hashes that tell the first
-- state from the later ones.
use mathlib.Core.List.{Memᴰ}
use ai_coding_workflow.Prelude.{
  ℕ, ◌+◌, length, ◌↔◌, String, ◌≡◌, ◌≢◌, refl, true, false, none, some, List, [], ◌∷◌, All, mem,
  is_digest, is_blank, ◌==◌, if◌then◌else◌, Bool-cases, inl, inr, Result, ok, err, sort_by, str_leb,
}
use ai_coding_workflow.Json.{Fields, end, field, str, at, has, get, strings}
use ai_coding_workflow.WorkflowState.Model.{
  implementation, complete, frozen, pending, state_initialized, goal_updated, decision_accepted,
  decision_invalidated, phase_changed, State, Material, Event, Payload, Hashing, Error, Decision,
  read_phase, phase_transitions,
}
use ai_coding_workflow.WorkflowState.Validation.{
  validate_state, validate_event, header_problems, list_problems, reference_problems,
  next_action_problems, goal_problems, string_list, evidence_ref_list, unique_ids_after,
  state_id_for, event_id_for, constraint_problems, decision_problems, acceptance_problems,
}
use ai_coding_workflow.WorkflowState.Paths.{is_safe_repo_path_pattern}
use ai_coding_workflow.WorkflowState.Mutation.{
  apply_mutation, mutate, sort_lists, require_payload, nonempty_or_raise, digest_or_raise,
  mutation_evidence_refs, find, update_at,
}
use ai_coding_workflow.WorkflowState.Chain.{
  Delta, DeltaEvent, apply_delta, apply_events, apply_event, finalize_transition, stamp,
  replay_events, replay_rest, replay_event, initial_state, tail_is,
}
use ai_coding_workflow.WorkflowState.Replay.{replay_events-apply_delta}
use ai_coding_workflow.WorkflowState.Soundness.{replay_events_sound, IsStamped, IsChain}
use ai_coding_workflow.WorkflowState.Phases.{
  Moves, replay_rest-Moves, complete_stays, VisitsReview, complete_needs_review,
}
use ai_coding_workflow.WorkflowState.WellFormed.{IsWellFormed, problems_IsWellFormed}
use ai_coding_workflow.WorkflowState.Legal.{IsLegal, IsLegal-iff}
use ai_coding_workflow.WorkflowState.Preserved.{IsWellFormed-apply_mutation}
use ai_coding_workflow.WorkflowState.Progress.{apply_event_accepts}
use ai_coding_workflow.WorkflowState.Kept.{evidence_kept, frozen_kept}

abbrev pub first_id : String
first_id = "sha256:0000000000000000000000000000000000000000000000000000000000000000"

abbrev pub later_id : String
later_id = "sha256:1111111111111111111111111111111111111111111111111111111111111111"

abbrev pub proof_ref : String
proof_ref = "sha256:00000000000000000000000000000000000000000000000000000000000000ab"

unfoldable pub id_of : ℕ → String
id_of n = if n == 0 then first_id else later_id

pub id_of_digest : (n : ℕ) → is_digest (id_of n) ≡ true
unfolding id_of is_digest
id_of_digest n = elim (Bool-cases (n == 0)) [ inl e ↦ rw e | inr e ↦ rw e ]

pub later_digest : is_digest later_id ≡ true
unfolding is_digest
later_digest = refl

abbrev pub hashing : Hashing
hashing = record {
  state_hash = λ m. id_of m.revision;
  event_hash = λ e. later_id;
  state_hash_digest = λ m. id_of_digest m.revision;
  event_hash_digest = λ e. later_digest;
}

abbrev pub material : Material
material = record {
  schema_version = 1;
  parent_state_id = none;
  revision = 0;
  task_id = "T-1";
  phase = implementation;
  repository_state_hash = first_id;
  goal = record { id = "G-1"; statement = "ship it"; acceptance_ids = "A-1" ∷ [] };
  constraints =
      record { id = "C-1"; statement = "no push"; source = "user"; is_frozen = true } ∷ [];
  accepted_decisions =
      record {
        id = "D-1";
        statement = "use sqlite";
        status = frozen;
        evidence_refs = proof_ref ∷ [];
      }
      ∷ [];
  rejected_hypotheses = [];
  open_questions = [];
  evidence_refs = proof_ref ∷ [];
  acceptance_status =
      record { id = "A-1"; description = "tests pass"; status = pending; evidence_refs = [] } ∷ [];
  next_action = record { owner = "builder"; operation = "build"; allowed_paths = "src" ∷ [] };
}

abbrev pub state : State
state = record { state_id = first_id; material = material }

abbrev pub payload : Fields → Payload
payload fs = record { fields = fs; initial_state = none }

abbrev pub log : List Event
log =
    record {
      event_id = later_id;
      timestamp = "t0";
      material = record {
        schema_version = 1;
        actor = "planner";
        event_type = state_initialized;
        base_state_id = none;
        new_state_id = first_id;
        payload = record { fields = end; initial_state = some material };
      };
    }
    ∷ []

abbrev move : String → DeltaEvent
move phase = record {
  event_type = phase_changed;
  payload = payload (field "phase" (str phase) end);
}

abbrev accept : DeltaEvent
accept = record {
  event_type = decision_accepted;
  payload = payload (field "id" (str "D-0") (field "statement" (str "cache it") end));
}

abbrev delta : Delta
delta = record {
  schema_version = 1;
  base_state_id = first_id;
  events = accept ∷ move "verification" ∷ move "review" ∷ move "complete" ∷ [];
}

abbrev now : ℕ → String
now i = "t1"

abbrev value {ℓ} : {A : Type ℓ} → A → Result Error A → A
value d (ok a) = a
value d (err e) = d

-- The line names what a run of the program computes with.
done : State × List Event
unfolding apply_delta apply_events apply_event finalize_transition stamp replay_events replay_rest
    replay_event initial_state tail_is validate_state validate_event header_problems list_problems
    reference_problems next_action_problems goal_problems constraint_problems decision_problems
    acceptance_problems string_list evidence_ref_list unique_ids_after state_id_for event_id_for
    is_safe_repo_path_pattern is_digest is_blank id_of apply_mutation mutate sort_lists
    require_payload nonempty_or_raise digest_or_raise mutation_evidence_refs find update_at at has
    get strings read_phase phase_transitions sort_by str_leb
done = value (state, []) (apply_delta hashing state log delta "claude" now)

log_replays : replay_events hashing log ≡ ok state
unfolding done
log_replays = refl

delta_applies : apply_delta hashing state log delta "claude" now ≡ ok done
unfolding done
delta_applies = refl

replay_events-apply_delta_example : replay_events hashing done.1 ≡ ok done.0
replay_events-apply_delta_example =
    replay_events-apply_delta hashing state log delta "claude" now done log_replays delta_applies

done_complete : done.0.phase ≡ complete
unfolding done
done_complete = refl

abbrev first : Event
first = record {
  event_id = later_id;
  timestamp = "t0";
  material = record {
    schema_version = 1;
    actor = "planner";
    event_type = state_initialized;
    base_state_id = none;
    new_state_id = first_id;
    payload = record { fields = end; initial_state = some material };
  };
}

-- The events that the delta has added to the log.
added : List Event
unfolding done
added = (value (state, []) (apply_events hashing "claude" now 0 state delta.events)).1

all_replay : replay_events hashing (first ∷ added) ≡ ok done.0
unfolding added
all_replay = refl

added_replay : replay_rest hashing state added ≡ ok done.0
unfolding added
added_replay = refl

replay_events_sound_example :
    (m : Material) × (first.payload.initial_state ≡ some m)
    × IsStamped hashing done.0
    × (first.base_state_id ≡ none)
    × IsChain first.new_state_id added done.0.state_id
    × (done.0.revision ≡ m.revision + length added)
replay_events_sound_example = replay_events_sound hashing first added done.0 all_replay

replay_rest-Moves_example : Moves hashing state added done.0
replay_rest-Moves_example = replay_rest-Moves hashing state added done.0 added_replay

complete_needs_review_example : VisitsReview hashing state added
complete_needs_review_example =
    complete_needs_review hashing state added done.0 (λ e. cc) (λ e. cc) added_replay done_complete

-- After completion a goal can still be restated.
abbrev restate : DeltaEvent
restate = record {
  event_type = goal_updated;
  payload = payload (field "statement" (str "ship v2") end);
}

restated : State × List Event
unfolding done
restated = value (state, []) (apply_events hashing "claude" now 0 done.0 (restate ∷ []))

restated_replay : replay_rest hashing done.0 restated.1 ≡ ok restated.0
unfolding restated
restated_replay = refl

complete_stays_example : restated.0.phase ≡ complete
complete_stays_example =
    complete_stays hashing done.0 restated.1 restated.0 done_complete restated_replay

evidence_kept_example : mem proof_ref done.0.evidence_refs ≡ true
evidence_kept_example = evidence_kept hashing state added done.0 proof_ref added_replay refl

abbrev sqlite : Decision
sqlite = record {
  id = "D-1";
  statement = "use sqlite";
  status = frozen;
  evidence_refs = proof_ref ∷ [];
}

none_invalidated : All (λ (e : Event). e.event_type ≢ decision_invalidated) added
unfolding added
none_invalidated = ((λ e. cc), ((λ e. cc), ((λ e. cc), ((λ e. cc), tt))))

frozen_kept_example : Memᴰ sqlite done.0.accepted_decisions
frozen_kept_example =
    frozen_kept hashing state added done.0 sqlite added_replay none_invalidated refl
      (Memᴰ.head refl)

state_valid : validate_state hashing true state ≡ []
unfolding done
state_valid = refl

mutated : State
unfolding done
mutated = value state (apply_mutation state decision_accepted accept.payload.fields)

mutation_applies : apply_mutation state decision_accepted accept.payload.fields ≡ ok mutated
unfolding mutated
mutation_applies = refl

header_fine : header_problems material ≡ []
unfolding done
header_fine = refl

lists_fine : list_problems material ≡ []
unfolding done
lists_fine = refl

references_fine : reference_problems material ≡ []
unfolding done
references_fine = refl

state_IsWellFormed : IsWellFormed material
state_IsWellFormed = (problems_IsWellFormed material).0 (header_fine, lists_fine, references_fine)

IsLegal-iff_example :
    ((header_problems material ≡ [])
      × (list_problems material ≡ [])
      × (reference_problems material ≡ []))
    ↔ IsLegal material
IsLegal-iff_example = IsLegal-iff material

IsWellFormed-apply_mutation_example : IsWellFormed mutated.material
IsWellFormed-apply_mutation_example =
    IsWellFormed-apply_mutation state decision_accepted accept.payload.fields mutated
      state_IsWellFormed mutation_applies

next_action_valid : next_action_problems mutated.next_action ≡ []
unfolding mutated
next_action_valid = refl

names_not_blank : (is_blank "claude" ≡ false) × (is_blank "t1" ≡ false)
unfolding is_blank
names_not_blank = (refl, refl)

apply_event_accepts_example :
    apply_event hashing "claude" "t1" state accept
    ≡ ok (finalize_transition hashing state mutated "claude" decision_accepted accept.payload "t1")
apply_event_accepts_example =
    apply_event_accepts hashing "claude" "t1" state accept mutated state_valid mutation_applies
      next_action_valid names_not_blank.0 names_not_blank.1
