-- ===== src/WorkflowState/Chain.antt =====
-- The event chain: `finalize_transition` and `replay_events` of scripts/workflow_state.py, and
-- `apply_delta` of scripts/apply-workflow-delta.py over documents that are already read.
use ai_coding_workflow.Prelude.{
  ℕ, suc, ◌+◌, String, Bool, true, false, not, ◌||◌, Option, none, some, List, [], ◌∷◌, ◌++◌,
  is_empty, str_eq, ◌==◌, Result, ok, err, ◌>>=◌, ◌>>◌, raise_if,
}
use ai_coding_workflow.WorkflowState.Model.{
  EventType, state_initialized, Material, State, Payload, EventMaterial, Event, Hashing, Error,
  log_empty, first_event_invalid, initial_state_missing, initial_id_mismatch, initial_invalid,
  chain_broken, id_mismatch, produces_invalid, invalid_current, tail_mismatch, delta_invalid,
}
use ai_coding_workflow.WorkflowState.Validation.{
  state_id_for, event_id_for, validate_state, validate_event,
}
use ai_coding_workflow.WorkflowState.Mutation.{apply_mutation}

-- SCHEMA_VERSION
abbrev pub schema_version : ℕ
schema_version = 1

-- `event.get("base_state_id") == state_id`, where the first may be null
abbrev pub is_id : Option String → String → Bool
is_id none id = false
is_id (some s) id = str_eq s id

abbrev pub is_null : Option String → Bool
is_null none = true
is_null (some s) = false

abbrev pub is_initialized : EventType → Bool
is_initialized state_initialized = true
is_initialized _ = false

-- `prior_events[-1].get("new_state_id") == state_id` of a log that is not empty
unfoldable pub tail_is : List Event → String → Bool
tail_is [] id = false
tail_is (e ∷ []) id = str_eq e.new_state_id id
tail_is (e ∷ f ∷ es) id = tail_is (f ∷ es) id

-- One entry of `delta["events"]`.
pub record DeltaEvent : Type 0 where
  pub event_type : EventType
  pub payload : Payload

pub record Delta : Type 0 where
  pub schema_version : ℕ
  pub base_state_id : String
  pub events : List DeltaEvent

module _ (hashing : Hashing) where
  -- The successor of `previous` with the content of `mutated`: its parent, revision and id are set.
  unfoldable pub stamp : State → State → State
  stamp previous mutated =
      let m = record mutated.material {
        parent_state_id = some previous.state_id;
        revision = previous.revision + 1;
      } in
      record { state_id = state_id_for hashing m; material = m }

  -- `timestamp` is what the clock says.
  unfoldable pub finalize_transition :
      State → State → String → EventType → Payload → String → State × Event
  finalize_transition previous mutated actor event_type payload timestamp =
      let result = stamp previous mutated in
      let e : EventMaterial = record {
        schema_version = schema_version;
        actor = actor;
        event_type = event_type;
        base_state_id = some previous.state_id;
        new_state_id = result.state_id;
        payload = payload;
      } in
      (result, record { event_id = event_id_for hashing e; timestamp = timestamp; material = e })

  -- The body of the loop of `replay_events`.
  unfoldable pub replay_event : State → Event → Result Error State
  replay_event current event = do
    raise_if (not (is_id event.base_state_id current.state_id)) chain_broken
    mutated ← apply_mutation current event.event_type event.payload.fields
    raise_if (not (str_eq (stamp current mutated).state_id event.new_state_id)) id_mismatch
    raise_if (not (is_empty (validate_state hashing true (stamp current mutated)))) produces_invalid
    ok (stamp current mutated)

  -- The loop of `replay_events` over the events after the first.
  unfoldable pub replay_rest : State → List Event → Result Error State
  replay_rest current [] = ok current
  replay_rest current (event ∷ events) = do
    next ← replay_event current event
    replay_rest next events

  -- `current = deepcopy(material)` with its `state_id` computed
  unfoldable pub initial_state : Option Material → Result Error State
  initial_state none = err initial_state_missing
  initial_state (some m) = ok (record { state_id = state_id_for hashing m; material = m })

  unfoldable pub replay_events : List Event → Result Error State
  replay_events [] = err log_empty
  replay_events (first ∷ rest) = do
    raise_if (not (is_initialized first.event_type) || not (is_null first.base_state_id))
        first_event_invalid
    current ← initial_state first.payload.initial_state
    raise_if (not (str_eq current.state_id first.new_state_id)) initial_id_mismatch
    raise_if (not (is_empty (validate_state hashing true current))) initial_invalid
    replay_rest current rest

  -- The body of the loop of `apply_delta`: the next state and the event that leads to it.
  unfoldable pub apply_event : String → String → State → DeltaEvent → Result Error (State × Event)
  apply_event actor timestamp current mutation = do
    mutated ← apply_mutation current mutation.event_type mutation.payload.fields
    let step =
        finalize_transition current mutated actor mutation.event_type mutation.payload timestamp
    raise_if
        (not (is_empty (validate_state hashing true step.0))
          || not (is_empty (validate_event hashing step.1)))
        produces_invalid
    ok step

  -- The loop of `apply_delta`: the state that it reaches and the events that it writes. `now i` is
  -- the clock at the i-th mutation.
  unfoldable pub apply_events :
      String → (ℕ → String) → ℕ → State → List DeltaEvent → Result Error (State × List Event)
  apply_events actor now i current [] = ok (current, [])
  apply_events actor now i current (mutation ∷ mutations) = do
    step ← apply_event actor (now i) current mutation
    rest ← apply_events actor now (suc i) step.0 mutations
    ok (rest.0, step.1 ∷ rest.1)

  -- The new state, and the log with the new events appended.
  unfoldable pub apply_delta :
      State → List Event → Delta → String → (ℕ → String) → Result Error (State × List Event)
  apply_delta state prior_events delta actor now = do
    raise_if (not (is_empty (validate_state hashing true state))) invalid_current
    raise_if (not (tail_is prior_events state.state_id)) tail_mismatch
    raise_if (not (delta.schema_version == 1)) delta_invalid
    raise_if (not (str_eq delta.base_state_id state.state_id)) delta_invalid
    raise_if (is_empty delta.events) delta_invalid
    done ← apply_events actor now 0 state delta.events
    ok (done.0, prior_events ++ done.1)
