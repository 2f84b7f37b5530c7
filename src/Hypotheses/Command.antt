-- ===== src/Hypotheses/Command.antt =====
-- The rejection of a hypothesis by scripts/update-hypothesis-ledger.py: the state and its log, of
-- WorkflowState, and the ledger change together. What a file holds after a failure is modelled too.
use ai_coding_workflow.Prelude.{
  String, Bool, true, false, not, ◌&&◌, Option, none, some, List, [], ◌∷◌, ◌++◌, mem, any, str_eq,
  is_empty, if◌then◌else◌, Result, ok, err, ◌>>=◌, ◌>>◌, raise_if,
}
use ai_coding_workflow.Json.{Json, str, arr, Items, nil, cons, end, field, get}
use ai_coding_workflow.WorkflowState.Model.{
  State, Event, EventType, hypothesis_rejected, Hypothesis, Payload, Hashing, Error,
}
use ai_coding_workflow.WorkflowState.Mutation.{apply_mutation}
use ai_coding_workflow.WorkflowState.Validation.{validate_state, validate_event}
use ai_coding_workflow.WorkflowState.Chain.{finalize_transition, tail_is}
use ai_coding_workflow.Hypotheses.Model.{RevisitEvent, HypothesisLedger, validate_ledger}
use ai_coding_workflow.Hypotheses.Operations.{
  RejectInput, HypothesisError, validate_reject_input, same_texts,
}
use ai_coding_workflow.Hypotheses.Ledger.{empty_ledger, add_rejected_item}

-- The files; the ledger's may be missing.
pub record Store : Type 0 where
  pub state : State
  pub events : List Event
  pub ledger : Option HypothesisLedger

pub data CommandError : Type 0 where
  invalid_state tail_mismatch invalid_input hash_mismatch missing_evidence : CommandError
  invalid_ledger task_mismatch conflicting_hypothesis invalid_transition : CommandError
  state_error : Error → CommandError
  ledger_error : HypothesisError → CommandError

-- What a run leaves: the files, and the exception that ended it, if one did.
pub record Run : Type 0 where
  pub store : Store
  pub error : Option CommandError

unfoldable pub state_hypothesis : List Hypothesis → String → Option Hypothesis
state_hypothesis [] id = none
state_hypothesis (h ∷ hs) id =
    let rest = state_hypothesis hs id in if str_eq h.id id then some h else rest

-- Whether the event rejects the hypothesis with the id.
abbrev pub is_id_field : String → Option Json → Bool
is_id_field id (some (str s)) = str_eq s id
is_id_field id v = false

abbrev pub is_rejection_type : EventType → Bool
is_rejection_type hypothesis_rejected = true
is_rejection_type t = false

abbrev pub is_rejection : String → Event → Bool
is_rejection id e = is_rejection_type e.event_type && is_id_field id (get "id" e.payload.fields)

-- `for event in reversed(events)`: the last such event counts.
unfoldable pub rejected_state_id : List Event → String → String → String
rejected_state_id [] id fallback = fallback
rejected_state_id (e ∷ es) id fallback =
    rejected_state_id es id (if is_rejection id e then e.new_state_id else fallback)

abbrev pub strings_of : List String → Items
strings_of [] = nil
strings_of (x ∷ xs) = cons (str x) (strings_of xs)

-- `{key: value[key] for key in ("id", "statement", "reason", "evidence_refs")}`
abbrev pub state_payload : RejectInput → Payload
state_payload v = record {
  fields = field "id" (str v.id) (
      field "statement" (str v.statement) (
        field "reason" (str v.reason)
          (field "evidence_refs" (arr (strings_of v.evidence_refs)) end)));
  initial_state = none;
}

-- `existing != state_payload`, of a hypothesis that is there
abbrev pub conflicts : Option Hypothesis → RejectInput → Bool
conflicts none v = false
conflicts (some h) v = not (
    str_eq h.id v.id
    && str_eq h.statement v.statement
    && str_eq h.reason v.reason
    && same_texts h.evidence_refs v.evidence_refs)

abbrev pub lift_state : {A : Type 0} → Result Error A → Result CommandError A
lift_state (ok a) = ok a
lift_state (err e) = err (state_error e)

module _ (hashing : Hashing) where
  -- The new state, and the log with its event.
  unfoldable pub persist_state_transition :
      State
      → List Event
      → EventType
      → Payload
      → String
      → String
      → Result CommandError (State × List Event)
  unfolding apply_mutation finalize_transition validate_state validate_event
  persist_state_transition state events event_type payload actor timestamp = do
    mutated ← lift_state (apply_mutation state event_type payload.fields)
    let p : State × Event =
        finalize_transition hashing state mutated actor event_type payload timestamp
    raise_if
        (not (is_empty (validate_state hashing true p.0) && is_empty (validate_event hashing p.1)))
        invalid_transition
    ok (p.0, events ++ p.1 ∷ [])

  -- The state and the log once the hypothesis is in the state.
  unfoldable pub reject_in_state :
      State → List Event → RejectInput → String → String → Result CommandError (State × List Event)
  unfolding state_hypothesis persist_state_transition
  reject_in_state state events v actor timestamp = do
    let existing : Option Hypothesis = state_hypothesis state.rejected_hypotheses v.id
    raise_if (conflicts existing v) conflicting_hypothesis
    elim existing [
      | none ↦
          persist_state_transition state events hypothesis_rejected (state_payload v) actor
            timestamp
      | some h ↦ ok (state, events)
    ]

  module _ (normalize_statement sha256 : String → String) (event_digest : RevisitEvent → String)
      (ledger_digest : HypothesisLedger → String) where
    -- The ledger of the file, or an empty one.
    abbrev pub open_ledger : Store → Result CommandError HypothesisLedger
    open_ledger st = elim st.ledger [
      | none ↦ ok (
          empty_ledger normalize_statement sha256 event_digest ledger_digest st.state.task_id
            st.state.repository_state_hash)
      | some l ↦ do
        raise_if
            (not
              (is_empty (validate_ledger normalize_statement sha256 event_digest ledger_digest l)))
            invalid_ledger
        raise_if (not (str_eq l.task_id st.state.task_id)) task_mismatch
        ok l
    ]

    -- The tests of `main` before it changes a file.
    unfoldable pub check_rejection : Store → RejectInput → Result CommandError HypothesisLedger
    unfolding validate_state validate_ledger validate_reject_input tail_is
    check_rejection st v = do
      raise_if (not (is_empty (validate_state hashing true st.state))) invalid_state
      raise_if (not (tail_is st.events st.state.state_id)) tail_mismatch
      raise_if (not (is_empty (validate_reject_input v))) invalid_input
      raise_if (not (str_eq v.repository_state_hash st.state.repository_state_hash)) hash_mismatch
      raise_if (any (λ r. not (mem r st.state.evidence_refs)) v.evidence_refs) missing_evidence
      open_ledger st

    -- The end of `main`, with the state and the log written: the ledger is written when nothing fails.
    abbrev pub reject_in_ledger :
        Store → HypothesisLedger → RejectInput → Result CommandError (State × List Event) → Run
    reject_in_ledger st l v (err e) = record { store = st; error = some e }
    reject_in_ledger st l v (ok (state, events)) =
        elim (add_rejected_item normalize_statement sha256 event_digest ledger_digest l v
          (rejected_state_id events v.id state.state_id)) [
            | ok l' ↦ record {
              store = record { state = state; events = events; ledger = some l' };
              error = none;
            }
            | err e ↦ record {
              store = record { state = state; events = events; ledger = st.ledger };
              error = some (ledger_error e);
            }
          ]

    -- `--operation reject`
    unfoldable pub update_reject : Store → RejectInput → String → String → Run
    unfolding check_rejection reject_in_state rejected_state_id add_rejected_item
    update_reject st v actor timestamp = elim (check_rejection st v) [
      | err e ↦ record { store = st; error = some e }
      | ok l ↦ reject_in_ledger st l v (reject_in_state st.state st.events v actor timestamp)
    ]
