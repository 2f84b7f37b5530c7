-- ===== src/Broker/Execution.antt =====
-- `execute` of scripts/model-call-broker.py: one call from its checks to its last record, with the
-- points at which an exception or a signal may stop it and its handler. An append writes its line or
-- does not; it never writes a part of it. The ledger is the list of its records; the
-- hashes of input and evidence, the clock and the outcome of the command come from outside.
use ai_coding_workflow.Prelude.{
  ℕ, String, Bool, true, false, ◌||◌, Option, none, some, List, [], ◌∷◌, ◌++◌, ◌==◌, if◌then◌else◌,
  Result, ok, err, ◌>>◌, raise_if, is_empty_text,
}
use ai_coding_workflow.Broker.Ledger.{
  CallState, reserved, running, succeeded, failed, cancelled, diagnostic, LedgerRecord, Error,
  plan_error, interrupted, raised, is_value, validate_ledger_history,
}
use ai_coding_workflow.Broker.Checks.{
  Plan, Request, check_budget, check_duplicate, check_request_idempotency, allocate_reservation,
  text_or_empty,
}

-- A process ends with a code, or by a signal.
pub data Exit : Type 0 where
  code signal : ℕ → Exit

abbrev pub is_success : Exit → Bool
is_success (code n) = n == 0
is_success (signal n) = false

-- Where an exception arrives: around the append of the `reserved` record, before `running_record` is
-- set; around the append of the `running` record; in the command; around the append of the final
-- record.
pub data Point : Type 0 where
  before_reserved after_reserved before_running after_running in_command before_final after_final :
      Point

-- Where a second exception stops the handler: while it takes the lock, reads the ledger again or
-- makes its first append; with all of its appends made but the last; after them.
pub data HandlerPoint : Type 0 where
  before_repair before_last_repair after_repair : HandlerPoint

pub record HandlerFault : Type 0 where
  pub point : HandlerPoint
  pub by_signal : Bool

-- The exception, and the one that stops its handler, if any; `by_signal` is for KeyboardInterrupt and
-- SystemExit.
pub record Fault : Type 0 where
  pub point : Point
  pub by_signal : Bool
  pub in_handler : Option HandlerFault

-- The clock at the appends.
pub record Times : Type 0 where
  pub reserved_at : ℕ
  pub running_at : ℕ
  pub final_at : ℕ

pub record Outcome : Type 0 where
  pub ledger : List LedgerRecord
  pub result : Result Error Exit

-- `{**record, "state": …, "timestamp": …}`
abbrev pub restate : LedgerRecord → CallState → ℕ → LedgerRecord
restate r s t = record r { state = s; timestamp = t }

abbrev pub final_state : Exit → CallState
final_state e = if is_success e then succeeded else failed

-- `matching[-1].get("state")`, over the records of the reservation
unfoldable pub last_state : List LedgerRecord → String → Option CallState
last_state [] rid = none
last_state (r ∷ rs) rid =
    let later = last_state rs rid in
    elim later [
      | some s ↦ some s
      | none ↦ if is_value r.reservation_id rid then some r.state else none
    ]

abbrev pub fail_record : LedgerRecord → Bool → ℕ → LedgerRecord
fail_record running_record by_signal t =
    restate running_record (if by_signal then cancelled else failed) t

abbrev pub but_last : List LedgerRecord → List LedgerRecord
but_last [] = []
but_last (r ∷ []) = []
but_last (r ∷ u ∷ rs) = r ∷ but_last (u ∷ rs)

-- What is left of the appends of the handler when it is stopped.
abbrev pub cut : Option HandlerFault → List LedgerRecord → List LedgerRecord
cut none rs = rs
cut (some fault) rs = elim fault.point [
  | before_repair ↦ []
  | before_last_repair ↦ but_last rs
  | after_repair ↦ rs
]

-- The appends of the handler of `execute`, by the state that it finds, once `running_record` is set.
abbrev pub repairs : Option CallState → LedgerRecord → Bool → ℕ → List LedgerRecord
repairs (some reserved) running_record by_signal t =
    running_record ∷ fail_record running_record by_signal t ∷ []
repairs (some running) running_record by_signal t = fail_record running_record by_signal t ∷ []
repairs _ running_record by_signal t = []

unfoldable pub recover :
    List LedgerRecord → String → LedgerRecord → Bool → ℕ → Option HandlerFault → List LedgerRecord
unfolding last_state
recover ledger rid running_record by_signal t in_handler =
    ledger ++ cut in_handler (repairs (last_state ledger rid) running_record by_signal t)

abbrev pub exception : Bool → Error
exception by_signal = if by_signal then interrupted else raised

-- The ledger when the exception arrives, and whether `running_record` is set by then.
abbrev pub reached :
    Point → List LedgerRecord → LedgerRecord → LedgerRecord → LedgerRecord → List LedgerRecord
reached before_reserved l r u f = l
reached after_reserved l r u f = l ++ r ∷ []
reached before_running l r u f = l ++ r ∷ []
reached after_running l r u f = l ++ r ∷ u ∷ []
reached in_command l r u f = l ++ r ∷ u ∷ []
reached before_final l r u f = l ++ r ∷ u ∷ []
reached after_final l r u f = l ++ r ∷ u ∷ f ∷ []

-- The exception that leaves `execute`: that of the handler, where it has one.
abbrev pub escaping : Bool → Option HandlerFault → Error
escaping by_signal none = exception by_signal
escaping by_signal (some fault) = exception fault.by_signal

abbrev pub is_guarded : Point → Bool
is_guarded before_reserved = false
is_guarded after_reserved = false
is_guarded _ = true

-- The body of the `try` of `execute` after its checks, and its handler.
unfoldable pub run_reservation :
    List LedgerRecord → LedgerRecord → String → Times → Exit → Option Fault → Outcome
unfolding recover
run_reservation ledger r rid times exit none = record {
  ledger =
      ledger
      ++ r ∷ restate r running times.running_at ∷ restate r (final_state exit) times.final_at ∷ [];
  result = ok exit;
}
run_reservation ledger r rid times exit (some fault) =
    let u = restate r running times.running_at in
    let l = reached fault.point ledger r u (restate r (final_state exit) times.final_at) in
    record {
      ledger =
          if is_guarded fault.point
          then recover l rid u fault.by_signal times.final_at fault.in_handler
          else l;
      result = err (
          if is_guarded fault.point
          then escaping fault.by_signal fault.in_handler
          else exception fault.by_signal);
    }

abbrev pub bad_cap : Option ℕ → Option String → Bool
bad_cap none request_id = false
bad_cap (some cap) request_id = cap == 0 || is_empty_text (text_or_empty request_id)

-- The checks of `execute`, in its order.
unfoldable pub admit : List LedgerRecord → Plan → Request → Result Error (Unit {0})
admit ledger plan q = do
  raise_if (bad_cap q.call_cap q.request_id) plan_error
  validate_ledger_history ledger
  check_budget ledger plan q.role q.stage
  check_duplicate ledger plan.task_id q.role q.input_hash q.evidence_hash q.retry_failed
  check_request_idempotency ledger plan.task_id q.request_id q.call_cap

abbrev pub after_checks :
    Result Error (Unit {0})
    → List LedgerRecord
    → Plan
    → Request
    → Bool
    → Times
    → Exit
    → Option Fault
    → Outcome
after_checks (err e) ledger plan q dry_run times exit fault = record {
  ledger = ledger;
  result = err e;
}
after_checks (ok _) ledger plan q true times exit fault = record {
  ledger = ledger;
  result = ok (code 0);
}
after_checks (ok _) ledger plan q false times exit fault =
    run_reservation ledger (allocate_reservation ledger plan q times.reserved_at) q.reservation_id
      times exit fault

unfoldable pub execute :
    List LedgerRecord → Plan → Request → Bool → Times → Exit → Option Fault → Outcome
execute ledger plan q dry_run times exit fault =
    after_checks (admit ledger plan q) ledger plan q dry_run times exit fault

-- The record of a diagnostic; it names no reservation.
unfoldable pub diagnostic_record : String → String → String → ℕ → LedgerRecord
diagnostic_record task_id role stage timestamp = record {
  state = diagnostic;
  timestamp = timestamp;
  run_id = none;
  reservation_id = none;
  task_id = some task_id;
  stage = some stage;
  role = some role;
  call_index = none;
  input_hash = none;
  evidence_hash = none;
  request_id = none;
  effective_call_cap = none;
  call_type = some "diagnostic_call";
}

unfoldable pub record_diagnostic :
    List LedgerRecord → String → String → String → ℕ → List LedgerRecord
unfolding diagnostic_record
record_diagnostic ledger task_id role stage timestamp =
    ledger ++ diagnostic_record task_id role stage timestamp ∷ []
