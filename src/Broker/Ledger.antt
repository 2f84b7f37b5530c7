-- ===== src/Broker/Ledger.antt =====
-- The ledger of scripts/model-call-broker.py: its records, how they are read, folded by reservation
-- and checked. Fields of a record that nothing reads back (durations, paths, token counts) are left
-- out.
use ai_coding_workflow.Prelude.{
  ℕ, String, Bool, true, false, not, ◌&&◌, Option, none, some, List, [], ◌∷◌, ◌++◌, map, str_eq,
  leb, if◌then◌else◌, Result, ok, err, ◌>>=◌, ◌>>◌, raise_if, Dict, dict_get, dict_put,
}

-- VALID_STATES
pub data CallState : Type 0 where
  reserved running succeeded failed cancelled diagnostic : CallState

-- One JSON object of the ledger; a field that the object lacks is `none`, a missing timestamp is 0.
pub record LedgerRecord : Type 0 where
  pub state : CallState
  pub timestamp : ℕ
  pub run_id : Option String
  pub reservation_id : Option String
  pub task_id : Option String
  pub stage : Option String
  pub role : Option String
  pub call_index : Option ℕ
  pub input_hash : Option String
  pub evidence_hash : Option String
  pub request_id : Option String
  pub effective_call_cap : Option ℕ
  pub call_type : Option String

-- What BrokerError (`denied`) and PlanError (`plan_error`) are raised for.
pub data Error : Type 0 where
  malformed_line not_object missing_state invalid_state : Error
  bad_start illegal_transition : String → Error
  zero_budget reserved_for_others unreserved_exhausted budget_exhausted : Error
  duplicate_active duplicate_failed : String → Error
  request_cap_reached plan_error : Error
  interrupted raised : Error

-- A line of the ledger file as the JSON reader sees it; an object has its `state` as a text, and a
-- record that holds its other fields.
pub data Line : Type 0 where
  blank malformed other : Line
  object : Option String → LedgerRecord → Line

unfoldable pub read_state : String → Option CallState
read_state s =
    if str_eq s "reserved"
    then some reserved
    else if str_eq s "running"
    then some running
    else if str_eq s "succeeded"
    then some succeeded
    else if str_eq s "failed"
    then some failed
    else if str_eq s "cancelled"
    then some cancelled
    else if str_eq s "diagnostic"
    then some diagnostic
    else none

-- The loop body of `load_ledger`: `none` is a line that is skipped.
unfoldable pub load_line : Line → Result Error (Option LedgerRecord)
load_line blank = ok none
load_line malformed = err malformed_line
load_line other = err not_object
load_line (object none r) = err missing_state
load_line (object (some s) r) = elim (read_state s) [
  | none ↦ err invalid_state
  | some state ↦ ok (some (record r { state = state }))
]

abbrev keep : Option LedgerRecord → List LedgerRecord → List LedgerRecord
keep none rs = rs
keep (some r) rs = r ∷ rs

unfoldable pub load_ledger : List Line → Result Error (List LedgerRecord)
unfolding load_line
load_ledger [] = ok []
load_ledger (l ∷ ls) = do r ← load_line l; rs ← load_ledger ls; ok (keep r rs)

-- `r.get(field) == value`
abbrev pub is_value : Option String → String → Bool
is_value none v = false
is_value (some s) v = str_eq s v

-- `r.get("task_id") != task_id or r.get("role") != role`, negated
abbrev pub is_for : String → String → LedgerRecord → Bool
is_for task_id role r = is_value r.task_id task_id && is_value r.role role

-- The newer of two records of one reservation.
abbrev pub is_newer : Option LedgerRecord → LedgerRecord → Bool
is_newer none r = true
is_newer (some existing) r = leb existing.timestamp r.timestamp

abbrev pub fold_one : Option String → LedgerRecord → Dict LedgerRecord → Dict LedgerRecord
fold_one none r latest = latest
fold_one (some rid) r latest =
    if is_newer (dict_get rid latest) r then dict_put rid r latest else latest

-- `for r in records: d = step(r, d)`
unfoldable pub loop : {D : Type 0} → (LedgerRecord → D → D) → List LedgerRecord → D → D
loop step [] d = d
loop step (r ∷ rs) d = loop step rs (step r d)

-- The loop body of `fold_by_reservation`.
unfoldable pub fold_step : String → String → LedgerRecord → Dict LedgerRecord → Dict LedgerRecord
fold_step task_id role r latest =
    if is_for task_id role r then fold_one r.reservation_id r latest else latest

unfoldable pub fold_by_reservation : List LedgerRecord → String → String → Dict LedgerRecord
fold_by_reservation records task_id role = loop (fold_step task_id role) records []

-- VALID_TRANSITIONS
unfoldable pub valid_transition : CallState → CallState → Bool
valid_transition reserved running = true
valid_transition running succeeded = true
valid_transition running failed = true
valid_transition running cancelled = true
valid_transition _ _ = false

abbrev pub is_diagnostic : CallState → Bool
is_diagnostic diagnostic = true
is_diagnostic _ = false

abbrev pub is_reserved : CallState → Bool
is_reserved reserved = true
is_reserved _ = false

abbrev pub items_of : Option (List LedgerRecord) → List LedgerRecord
items_of none = []
items_of (some rs) = rs

-- `by_rid.setdefault(rid, []).append(r)`
abbrev pub group_one :
    Option String → LedgerRecord → Dict (List LedgerRecord) → Dict (List LedgerRecord)
group_one none r groups = groups
group_one (some rid) r groups = dict_put rid (items_of (dict_get rid groups) ++ r ∷ []) groups

-- The body of the first loop of `validate_ledger_history`.
unfoldable pub group_step : LedgerRecord → Dict (List LedgerRecord) → Dict (List LedgerRecord)
group_step r groups = if is_diagnostic r.state then groups else group_one r.reservation_id r groups

-- `sorted(res_records, key=timestamp)`, which is stable
unfoldable pub insert_by_time : LedgerRecord → List LedgerRecord → List LedgerRecord
insert_by_time r [] = r ∷ []
insert_by_time r (q ∷ qs) =
    let rest = q ∷ insert_by_time r qs in if leb r.timestamp q.timestamp then r ∷ q ∷ qs else rest

unfoldable pub sort_by_time : List LedgerRecord → List LedgerRecord
unfolding insert_by_time
sort_by_time [] = []
sort_by_time (r ∷ rs) = insert_by_time r (sort_by_time rs)

unfoldable pub check_transitions : String → CallState → List CallState → Result Error (Unit {0})
unfolding valid_transition
check_transitions rid prev [] = ok tt
check_transitions rid prev (curr ∷ rest) = do
  raise_if (not (valid_transition prev curr)) (illegal_transition rid)
  check_transitions rid curr rest

-- The body of the second loop.
unfoldable pub check_states : String → List CallState → Result Error (Unit {0})
unfolding check_transitions
check_states rid [] = err (bad_start rid)
check_states rid (s ∷ ss) = do
  raise_if (not (is_reserved s)) (bad_start rid)
  check_transitions rid s ss

unfoldable pub check_groups : Dict (List LedgerRecord) → Result Error (Unit {0})
check_groups [] = ok tt
check_groups ((rid, rs) ∷ groups) = do
  check_states rid (map (λ (r : LedgerRecord). r.state) (sort_by_time rs))
  check_groups groups

unfoldable pub validate_ledger_history : List LedgerRecord → Result Error (Unit {0})
validate_ledger_history records = check_groups (loop group_step records [])
