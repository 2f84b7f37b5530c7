-- ===== src/Broker/Examples.antt =====
-- Small ledgers of scripts/model-call-broker.py.
use ai_coding_workflow.Prelude.{
  to_set, ℕ, ◌+◌, ◌≤◌, ◌<◌, ◌↔◌, length, String, ◌≡◌, refl, true, false, Option, none, some, List,
  [], ◌∷◌, ◌++◌, any, values, arith, ok, dict_get, dict_put,
}
use ai_coding_workflow.Broker.Ledger.{
  CallState, reserved, running, succeeded, failed, LedgerRecord, fold_by_reservation, loop,
  fold_step, group_step, check_groups, check_states, check_transitions, valid_transition,
  sort_by_time, insert_by_time, validate_ledger_history,
}
use ai_coding_workflow.Broker.Checks.{
  Plan, Request, budget_of, budget_consuming, count_role_calls, check_budget, check_slots,
  uses_stage, protected_other_slots, non_reserved_consumed, allocate_reservation, duplicate_loop,
  check_duplicate, check_request_idempotency, consumed_for_request, request_step,
}
use ai_coding_workflow.Broker.Execution.{
  code, Fault, in_command, before_repair, run_reservation, recover, Times, admit, execute,
  last_state, record_diagnostic,
}
use ai_coding_workflow.Broker.Diagnostics.{diagnostic_neutral}
use ai_coding_workflow.Broker.Budget.{
  reserved_stage_within_budget, unreserved_stage_within_remainder, unreserved_stage_ignores_total,
}
use ai_coding_workflow.Broker.Duplicates.{
  is_duplicate, check_duplicate_closed, check_duplicate_retry, request_within_cap,
}
use ai_coding_workflow.Broker.Settling.{is_settled, execute_settles}
use ai_coding_workflow.Broker.Lifecycle.{count_role_calls-execute}
use ai_coding_workflow.Broker.Sessions.{Session, session_keeps_history, session_within_budget}

abbrev plan : Plan
plan = record {
  task_id = "T-1";
  claude_calls = 2;
  spark_calls = 1;
  codex_calls = 1;
  reserved_for = [];
}

abbrev review_plan : Plan
review_plan = record {
  task_id = "T-1";
  claude_calls = 2;
  spark_calls = 1;
  codex_calls = 1;
  reserved_for = "review" ∷ [];
}

abbrev record_of : CallState → ℕ → String → String → LedgerRecord
record_of state t rid stage = record {
  state = state;
  timestamp = t;
  run_id = some "run";
  reservation_id = some rid;
  task_id = some "T-1";
  stage = some stage;
  role = some "claude";
  call_index = some 1;
  input_hash = some "in";
  evidence_hash = some "ev";
  request_id = some "R-1";
  effective_call_cap = some 2;
  call_type = some "execution_call";
}

abbrev call_of : String → String → Request
call_of stage evidence = record {
  role = "claude";
  stage = stage;
  input_hash = "in";
  evidence_hash = evidence;
  run_id = "run";
  reservation_id = "new";
  retry_failed = true;
  request_id = some "R-1";
  call_cap = some 2;
  call_type = "execution_call";
}

-- one call that ended well
abbrev one_done : String → List LedgerRecord
one_done stage =
    record_of reserved 1 "a" stage
    ∷ record_of running 2 "a" stage
    ∷ record_of succeeded 3 "a" stage
    ∷ []

-- two calls at the reserved stage
abbrev two_reviews : List LedgerRecord
two_reviews = one_done "review" ++ record_of reserved 4 "b" "review" ∷ []

-- a call that failed, and its retry that is still running
abbrev retrying : List LedgerRecord
retrying =
    record_of reserved 1 "a" "build"
    ∷ record_of running 2 "a" "build"
    ∷ record_of failed 3 "a" "build"
    ∷ record_of reserved 4 "b" "build"
    ∷ record_of running 5 "b" "build"
    ∷ []

reserved_stage_within_budget_example :
    count_role_calls
        (one_done "review"
          ++ allocate_reservation (one_done "review") review_plan (call_of "review" "x") 9 ∷ [])
        "T-1"
        "claude"
      + protected_other_slots
          (values (
            fold_by_reservation
              (one_done "review"
                ++ allocate_reservation (one_done "review") review_plan (call_of "review" "x") 9
                  ∷ [])
              "T-1"
              "claude"))
          (to_set ("review" ∷ []))
          "review"
    ≤ 2
unfolding check_budget check_slots fold_by_reservation loop fold_step budget_of budget_consuming
    to_set protected_other_slots uses_stage dict_get dict_put
reserved_stage_within_budget_example =
    reserved_stage_within_budget (one_done "review") review_plan (call_of "review" "x") 9 refl refl
      refl

unreserved_stage_within_remainder_example :
    non_reserved_consumed
        (values (
          fold_by_reservation
            (one_done "review"
              ++ allocate_reservation (one_done "review") review_plan (call_of "build" "x") 9 ∷ [])
            "T-1"
            "claude"))
        ("review" ∷ [])
      + length (to_set ("review" ∷ []))
    ≤ 2
unfolding check_budget check_slots fold_by_reservation loop fold_step budget_of budget_consuming
    to_set non_reserved_consumed dict_get dict_put
unreserved_stage_within_remainder_example =
    unreserved_stage_within_remainder (one_done "review") review_plan (call_of "build" "x") 9 refl
      refl refl refl

unreserved_stage_ignores_total_example :
    (check_budget two_reviews review_plan "claude" "build" ≡ ok tt)
    × (2
        < count_role_calls
            (two_reviews
              ++ allocate_reservation two_reviews review_plan (call_of "build" "x") 9 ∷ [])
            "T-1"
            "claude")
unfolding fold_by_reservation loop fold_step budget_of budget_consuming to_set non_reserved_consumed
    count_role_calls dict_get dict_put
unreserved_stage_ignores_total_example =
    unreserved_stage_ignores_total two_reviews review_plan (call_of "build" "x") 9 refl refl refl
      (omega arith) (omega arith)

check_duplicate_closed_example :
    (check_duplicate retrying "T-1" "claude" "in" "ev" false ≡ ok tt)
    ↔ (any (is_duplicate "in" "ev") (values (fold_by_reservation retrying "T-1" "claude")) ≡ false)
check_duplicate_closed_example = check_duplicate_closed retrying "T-1" "claude" "in" "ev"

check_duplicate_retry_example : check_duplicate retrying "T-1" "claude" "in" "ev" true ≡ ok tt
unfolding fold_by_reservation loop fold_step dict_put dict_get
check_duplicate_retry_example =
    check_duplicate_retry retrying "T-1" "claude" "in" "ev" "a" (record_of failed 3 "a" "build") []
      (("b", record_of running 5 "b" "build") ∷ []) refl refl refl refl

request_within_cap_example :
    consumed_for_request
      (one_done "build"
        ++ allocate_reservation (one_done "build") plan (call_of "build" "x") 9 ∷ [])
      "T-1"
      "R-1"
    ≤ 2
unfolding check_request_idempotency consumed_for_request request_step loop dict_get dict_put
request_within_cap_example =
    request_within_cap (one_done "build") plan (call_of "build" "x") 9 2 "R-1" refl refl refl refl
      refl

abbrev times : Times
times = record { reserved_at = 4; running_at = 5; final_at = 9 }

abbrev stopped : Option Fault
stopped = some (record { point = in_command; by_signal = true; in_handler = none })

one_done_admits : admit (one_done "build") plan (call_of "build" "x") ≡ ok tt
unfolding admit validate_ledger_history loop group_step check_groups check_states check_transitions
    valid_transition sort_by_time insert_by_time check_budget check_slots fold_by_reservation
    fold_step budget_of budget_consuming check_duplicate duplicate_loop check_request_idempotency
    consumed_for_request request_step dict_put dict_get
one_done_admits = refl

one_done_valid : validate_ledger_history (one_done "build") ≡ ok tt
unfolding validate_ledger_history loop group_step check_groups check_states check_transitions
    valid_transition sort_by_time insert_by_time dict_put dict_get
one_done_valid = refl

execute_settles_example :
    is_settled (
      last_state
        (execute (one_done "build") plan (call_of "build" "x") false times (code 0) stopped).ledger
        "new")
    ≡ true
execute_settles_example =
    execute_settles (one_done "build") plan (call_of "build" "x") times (code 0) stopped
      one_done_admits refl

-- A call whose handler is stopped before its first append, in a ledger that was empty.
abbrev stuck : Option Fault
stuck = some (record {
  point = in_command;
  by_signal = false;
  in_handler = some (record { point = before_repair; by_signal = true });
})

-- Its reservation stays in the state `running`.
stuck_running :
    last_state (execute [] plan (call_of "build" "x") false times (code 0) stuck).ledger "new"
    ≡ some running
unfolding execute admit validate_ledger_history loop check_groups check_budget check_slots
    fold_by_reservation budget_of check_duplicate duplicate_loop check_request_idempotency
    consumed_for_request dict_get run_reservation recover last_state allocate_reservation
stuck_running = refl

count_role_calls-execute_example :
    count_role_calls
      (execute (one_done "build") plan (call_of "build" "x") false times (code 0) none).ledger
      "T-1"
      "claude"
    ≡ count_role_calls (one_done "build") "T-1" "claude" + 1
count_role_calls-execute_example =
    count_role_calls-execute (one_done "build") plan (call_of "build" "x") times (code 0) none refl
      (omega arith, omega arith) one_done_admits

abbrev after_call : List LedgerRecord
after_call =
    (execute (one_done "build") plan (call_of "build" "x") false times (code 0) stopped).ledger

session : Session plan (one_done "build") after_call
session =
    Session.call (call_of "build" "x") false times (code 0) stopped refl (omega arith, omega arith)
      Session.done

session_keeps_history_example : validate_ledger_history after_call ≡ ok tt
session_keeps_history_example = session_keeps_history plan session one_done_valid

session_within_budget_example : count_role_calls after_call "T-1" "claude" ≤ 2
unfolding count_role_calls fold_by_reservation loop fold_step budget_of budget_consuming dict_get
    dict_put
session_within_budget_example = session_within_budget plan "claude" session refl (omega arith)

diagnostic_neutral_example :
    (count_role_calls (record_diagnostic (one_done "build") "T-1" "claude" "probe" 9) "T-1" "claude"
      ≡ count_role_calls (one_done "build") "T-1" "claude")
    × (admit
          (record_diagnostic (one_done "build") "T-1" "claude" "probe" 9)
          plan
          (call_of "build" "x")
        ≡ admit (one_done "build") plan (call_of "build" "x"))
diagnostic_neutral_example =
    diagnostic_neutral (one_done "build") "T-1" "claude" "probe" 9 plan (call_of "build" "x")
