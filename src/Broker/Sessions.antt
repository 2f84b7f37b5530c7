-- ===== src/Broker/Sessions.antt =====
-- Sequences of calls through `execute` of scripts/model-call-broker.py over one ledger, under one
-- plan, with any outcome and any stop.
use ai_coding_workflow.Prelude.{
  ◌≤◌, ◌<◌, String, ◌≡◌, refl, sym, ◌∙◌, ap, subst, Bool, true, false, Option, none, some, inl, inr,
  Bool-cases, List, [], ◌∷◌, str_eq, str_eq_refl, str_cases, All, arith, Dict, values, ok, err,
  Result-cases, raise_if->>-eq-ok, >>=-eq-ok,
}
use ai_coding_workflow.Broker.Ledger.{
  LedgerRecord, Error, plan_error, is_for, loop, fold_step, fold_by_reservation,
  validate_ledger_history,
}
use ai_coding_workflow.Broker.Checks.{
  Plan, Request, budget_of, allocate_reservation, count_role_calls, count_if, budget_consuming,
  check_budget, check_slots,
}
use ai_coding_workflow.Broker.Execution.{
  Exit, Point, before_reserved, after_reserved, before_running, after_running, in_command,
  before_final, after_final, HandlerPoint, before_repair, before_last_repair, after_repair,
  HandlerFault, Fault, Times, admit, execute, bad_cap,
}
use ai_coding_workflow.Broker.Folding.{IsFreshId, loop-append}
use ai_coding_workflow.Broker.Budget.{check_budget-slots}
use ai_coding_workflow.Broker.Written.{written, execute-written}
use ai_coding_workflow.Broker.Histories.{IsOrdered, written_cases, execute_keeps_history}
use ai_coding_workflow.Broker.Lifecycle.{kept_slots, handler_slots, count_role_calls-execute}

-- Calls made one after the other, each under an id that no record of the ledger names yet, and none
-- with a clock that runs back between its appends. Any call may fail or be stopped, its handler too.
pub data Session (plan : Plan) : List LedgerRecord → List LedgerRecord → Type 0 where
  done : {ledger : List LedgerRecord} → Session plan ledger ledger
  call :
      {ledger after : List LedgerRecord} (q : Request) (dry_run : Bool) (times : Times)
      (exit : Exit) (fault : Option Fault)
      → IsFreshId q.reservation_id ledger
      → IsOrdered times
      → Session plan (execute ledger plan q dry_run times exit fault).ledger after
      → Session plan ledger after

-- The history of a ledger stays valid through every sequence of calls under the plan, made one after
-- the other, if each call has a reservation id that no record names when it starts, and if the clock does not run back
-- between the appends of one call. The calls may have any outcome, be dry runs, and be stopped at any
-- point between their appends, in the handler too.
pub session_keeps_history :
    (plan : Plan) {ledger after : List LedgerRecord}
    → Session plan ledger after
    → validate_ledger_history ledger ≡ ok tt
    → validate_ledger_history after ≡ ok tt
session_keeps_history plan done h = h
session_keeps_history plan (call q dry_run times exit fault fresh o rest) h =
    session_keeps_history plan rest
      (execute_keeps_history _ plan q dry_run times exit fault fresh o h)

loop-skips :
    (task_id role : String) (rs : List LedgerRecord) (d : Dict LedgerRecord)
    → All (λ r. is_for task_id role r ≡ false) rs
    → loop (fold_step task_id role) rs d ≡ d
unfolding loop fold_step
loop-skips task_id role [] d h = refl
loop-skips task_id role (r ∷ rs) d h = rw h.0 (loop-skips task_id role rs d h.1)

-- Calls of one role do not count for another.
count_role_calls-other :
    (ledger : List LedgerRecord) (plan : Plan) (q : Request) (times : Times) (exit : Exit)
    (fault : Option Fault) (role : String)
    → admit ledger plan q ≡ ok tt
    → str_eq q.role role ≡ false
    → count_role_calls (execute ledger plan q false times exit fault).ledger plan.task_id role
      ≡ count_role_calls ledger plan.task_id role
unfolding count_role_calls fold_by_reservation allocate_reservation
count_role_calls-other ledger plan q times exit fault role h e =
    let r = allocate_reservation ledger plan q times.reserved_at in
    let m : is_for plan.task_id role r ≡ false = rw (str_eq_refl plan.task_id, e) refl in
    ap (λ l. count_role_calls l plan.task_id role)
      (execute-written ledger plan q times exit fault h)
    ∙ ap (λ d. count_if budget_consuming (values d))
        (loop-append (fold_step plan.task_id role) ledger (written r times exit fault) []
          ∙ loop-skips plan.task_id role (written r times exit fault) _ (
              written_cases (All (λ r. is_for plan.task_id role r ≡ false)) r times exit fault tt
                (m, tt) (m, (m, tt)) (λ s f. (m, (m, (m, tt))))))

handler_slots_small : (k : Option HandlerFault) → handler_slots k ≤ 1
handler_slots_small none = omega arith
handler_slots_small (some k) = at_point k.point k.by_signal
  where
    at_point :
        (p : HandlerPoint) (b : Bool)
        → handler_slots (some (record { point = p; by_signal = b })) ≤ 1
    at_point before_repair b = omega arith
    at_point before_last_repair b = omega arith
    at_point after_repair b = omega arith

kept_slots_small : (exit : Exit) (fault : Option Fault) → kept_slots exit fault ≤ 1
kept_slots_small exit none = ground arith
kept_slots_small exit (some fault) = at_point fault.point fault.by_signal fault.in_handler
  where
    at_point :
        (p : Point) (b : Bool) (k : Option HandlerFault)
        → kept_slots exit (some (record { point = p; by_signal = b; in_handler = k })) ≤ 1
    at_point before_reserved b k = omega arith
    at_point after_reserved b k = omega arith
    at_point after_final b k = ground arith
    at_point before_running b k = handler_slots_small k
    at_point after_running b k = handler_slots_small k
    at_point in_command b k = handler_slots_small k
    at_point before_final b k = handler_slots_small k

admit_budget :
    (ledger : List LedgerRecord) (plan : Plan) (q : Request)
    → admit ledger plan q ≡ ok tt
    → check_budget ledger plan q.role q.stage ≡ ok tt
unfolding admit
admit_budget ledger plan q h =
    let (_, h1) = raise_if->>-eq-ok (bad_cap q.call_cap q.request_id) plan_error _ h in
    let (_, _, h2) = >>=-eq-ok (validate_ledger_history ledger) _ h1 in
    let (x, h3, _) = >>=-eq-ok (check_budget ledger plan q.role q.stage) _ h2 in h3

room_left :
    (ledger : List LedgerRecord) (plan : Plan) (role stage : String)
    → plan.reserved_for ≡ []
    → check_budget ledger plan role stage ≡ ok tt
    → count_role_calls ledger plan.task_id role < budget_of plan role
unfolding check_slots count_role_calls
room_left ledger plan role stage e h =
    let checked = check_budget-slots ledger plan role stage h in ground arith

refused :
    (ledger : List LedgerRecord) (plan : Plan) (q : Request) (dry_run : Bool) (times : Times)
    (exit : Exit) (fault : Option Fault) (e : Error)
    → admit ledger plan q ≡ err e
    → (execute ledger plan q dry_run times exit fault).ledger ≡ ledger
unfolding execute
refused ledger plan q dry_run times exit fault e h = rw h refl

dry :
    (ledger : List LedgerRecord) (plan : Plan) (q : Request) (times : Times) (exit : Exit)
    (fault : Option Fault)
    → admit ledger plan q ≡ ok tt
    → (execute ledger plan q true times exit fault).ledger ≡ ledger
unfolding execute
dry ledger plan q times exit fault h = rw h refl

admitted_within :
    (ledger : List LedgerRecord) (plan : Plan) (q : Request) (times : Times) (exit : Exit)
    (fault : Option Fault) (role : String)
    → IsFreshId q.reservation_id ledger
    → IsOrdered times
    → plan.reserved_for ≡ []
    → count_role_calls ledger plan.task_id role ≤ budget_of plan role
    → admit ledger plan q ≡ ok tt
    → count_role_calls (execute ledger plan q false times exit fault).ledger plan.task_id role
      ≤ budget_of plan role
admitted_within ledger plan q times exit fault role fresh o e h w = elim (str_cases q.role role) [
  | inl same ↦
      let room = room_left ledger plan q.role q.stage e (admit_budget ledger plan q w) in
      let count = count_role_calls-execute ledger plan q times exit fault fresh o w in
      let small = kept_slots_small exit fault in
      subst
        (λ r.
          count_role_calls (execute ledger plan q false times exit fault).ledger plan.task_id r
          ≤ budget_of plan r)
        same (omega (arith, room, count, small))
  | inr other ↦
      subst (λ n. n ≤ budget_of plan role)
        (sym (count_role_calls-other ledger plan q times exit fault role w other)) h
]

within_call :
    (ledger : List LedgerRecord) (plan : Plan) (q : Request) (dry_run : Bool) (times : Times)
    (exit : Exit) (fault : Option Fault) (role : String)
    → IsFreshId q.reservation_id ledger
    → IsOrdered times
    → plan.reserved_for ≡ []
    → count_role_calls ledger plan.task_id role ≤ budget_of plan role
    → count_role_calls (execute ledger plan q dry_run times exit fault).ledger plan.task_id role
      ≤ budget_of plan role
within_call ledger plan q dry_run times exit fault role fresh o e h =
    let P : List LedgerRecord → Type 0 =
      λ l. count_role_calls l plan.task_id role ≤ budget_of plan role in
    elim (Result-cases (admit ledger plan q)) [
      | inr (x, w) ↦ subst P (sym (refused ledger plan q dry_run times exit fault x w)) h
      | inl (_, w) ↦ elim (Bool-cases dry_run) [
        | inl d ↦
            subst (λ b. P (execute ledger plan q b times exit fault).ledger) (sym d)
              (subst P (sym (dry ledger plan q times exit fault w)) h)
        | inr d ↦
            subst (λ b. P (execute ledger plan q b times exit fault).ledger) (sym d)
              (admitted_within ledger plan q times exit fault role fresh o e h w)
      ]
    ]

-- Through every sequence of calls, made one after the other, of a plan without reserved stages, the
-- calls of each role stay
-- within the budget of the plan if they are at the start, if each call has a reservation id that no
-- record names when it starts, and if the clock does not run back between the appends of one call.
-- The calls may have any outcome, be dry runs, and be stopped at any point between their appends, in
-- the handler too.
pub session_within_budget :
    (plan : Plan) (role : String) {ledger after : List LedgerRecord}
    → Session plan ledger after
    → plan.reserved_for ≡ []
    → count_role_calls ledger plan.task_id role ≤ budget_of plan role
    → count_role_calls after plan.task_id role ≤ budget_of plan role
session_within_budget plan role done e h = h
session_within_budget plan role (call {ledger = ledger} q dry_run times exit fault fresh o rest) e
      h =
    session_within_budget plan role rest e
      (within_call ledger plan q dry_run times exit fault role fresh o e h)
