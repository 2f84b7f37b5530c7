-- ===== src/Broker/Lifecycle.antt =====
-- The slots of the budget that a call of `execute` of scripts/model-call-broker.py holds.
use ai_coding_workflow.Prelude.{
  ℕ, ◌+◌, ◌≡◌, refl, ◌∙◌, ap, Bool, true, false, Option, none, some, inl, inr, Bool-cases, List, [],
  ◌∷◌, ◌++◌, str_eq_refl, if◌then◌else◌, arith, values, values-append, ok,
}
use ai_coding_workflow.Broker.Ledger.{
  CallState, running, failed, cancelled, LedgerRecord, fold_by_reservation, is_for,
}
use ai_coding_workflow.Broker.Checks.{
  Plan, Request, allocate_reservation, budget_consuming, is_consuming, count_if, count_role_calls,
}
use ai_coding_workflow.Broker.Execution.{
  Exit, Point, before_reserved, after_reserved, before_running, after_running, in_command,
  before_final, after_final, is_success, fail_record, HandlerPoint, before_repair,
  before_last_repair, after_repair, HandlerFault, Fault, Times, restate, final_state, admit,
  execute,
}
use ai_coding_workflow.Broker.Folding.{
  IsFreshId, fold-append_two, fold-append_three, count_if-append,
}
use ai_coding_workflow.Broker.Budget.{count_role_calls-allocate}
use ai_coding_workflow.Broker.Written.{append_nil, written, after_handler, execute-written}
use ai_coding_workflow.Broker.Histories.{IsOrdered}

-- The slot that a reservation keeps when its handler runs: none when the handler gets to its last
-- append, one when it is stopped before that.
abbrev pub handler_slots : Option HandlerFault → ℕ
handler_slots none = 0
handler_slots (some fault) = elim fault.point [ after_repair ↦ 0 | _ ↦ 1 ]

-- The slots that a call keeps: one when its command succeeds and the final record is appended, one
-- when it is stopped between the append of the reservation and the start of its handler, and those
-- of its handler when it is stopped between that start and the final record.
abbrev pub kept_slots : Exit → Option Fault → ℕ
kept_slots exit none = if is_success exit then 1 else 0
kept_slots exit (some fault) = elim fault.point [
  | before_reserved ↦ 0
  | after_reserved ↦ 1
  | after_final ↦ if is_success exit then 1 else 0
  | _ ↦ handler_slots fault.in_handler
]

module _ (records : List LedgerRecord) (plan : Plan) (q : Request)
    (fresh : IsFreshId q.reservation_id records) where
  count_two :
      (times : Times)
      → IsOrdered times
      → let r = allocate_reservation records plan q times.reserved_at in
        count_role_calls
          (records ++ r ∷ restate r running times.running_at ∷ [])
          plan.task_id
          q.role
        ≡ count_role_calls records plan.task_id q.role + 1
  unfolding count_role_calls allocate_reservation budget_consuming
  count_two times o =
      let r = allocate_reservation records plan q times.reserved_at in
      let u = restate r running times.running_at in
      let m : is_for plan.task_id q.role r ≡ true =
        rw (str_eq_refl plan.task_id, str_eq_refl q.role) refl in
      ap (λ d. count_if budget_consuming (values d))
        (fold-append_two q.reservation_id records fresh plan.task_id q.role r u
          ((refl, m), ((refl, m), tt)) o.0)
      ∙ ap (count_if budget_consuming)
          (values-append (fold_by_reservation records plan.task_id q.role) _)
      ∙ count_if-append budget_consuming (values (fold_by_reservation records plan.task_id q.role))
          (u ∷ [])

  count_three :
      (s : CallState) (times : Times)
      → IsOrdered times
      → let r = allocate_reservation records plan q times.reserved_at in
        count_role_calls
          (records ++ r ∷ restate r running times.running_at ∷ restate r s times.final_at ∷ [])
          plan.task_id
          q.role
        ≡ count_role_calls records plan.task_id q.role + count_if is_consuming (s ∷ [])
  unfolding count_role_calls allocate_reservation budget_consuming
  count_three s times o =
      let r = allocate_reservation records plan q times.reserved_at in
      let u = restate r running times.running_at in
      let f = restate r s times.final_at in
      let m : is_for plan.task_id q.role r ≡ true =
        rw (str_eq_refl plan.task_id, str_eq_refl q.role) refl in
      ap (λ d. count_if budget_consuming (values d))
        (fold-append_three q.reservation_id records fresh plan.task_id q.role r u f
          ((refl, m), ((refl, m), ((refl, m), tt))) o.0 o.1)
      ∙ ap (count_if budget_consuming)
          (values-append (fold_by_reservation records plan.task_id q.role) _)
      ∙ count_if-append budget_consuming (values (fold_by_reservation records plan.task_id q.role))
          (f ∷ [])

consuming_final :
    (exit : Exit)
    → count_if is_consuming (final_state exit ∷ []) ≡ (if is_success exit then 1 else 0)
consuming_final exit = elim (Bool-cases (is_success exit)) [ inl e ↦ rw e | inr e ↦ rw e ]

consuming_stopped : (b : Bool) → count_if is_consuming ((if b then cancelled else failed) ∷ []) ≡ 0
consuming_stopped true = refl
consuming_stopped false = refl

-- What an admitted call, under an id that no record of the ledger names, adds to the calls of its
-- role while the clock does not run back. A call that ends, or is stopped after its final record,
-- adds one if its command succeeded and none if it failed. A call that is stopped before its final
-- record adds none when it is stopped before the reservation is appended, one when it is stopped
-- after that and before `running_record` is set; and when it is stopped later, none if the handler
-- makes its last append and one if the handler is stopped before that.
pub count_role_calls-execute :
    (records : List LedgerRecord) (plan : Plan) (q : Request) (times : Times) (exit : Exit)
    (fault : Option Fault)
    → IsFreshId q.reservation_id records
    → IsOrdered times
    → admit records plan q ≡ ok tt
    → count_role_calls (execute records plan q false times exit fault).ledger plan.task_id q.role
      ≡ count_role_calls records plan.task_id q.role + kept_slots exit fault
count_role_calls-execute records plan q times exit fault fresh o h =
    ap (λ l. count_role_calls l plan.task_id q.role)
      (execute-written records plan q times exit fault h)
    ∙ counted fault
  where
    r : LedgerRecord
    r = allocate_reservation records plan q times.reserved_at

    now : ℕ
    now = count_role_calls records plan.task_id q.role

    u : LedgerRecord
    u = restate r running times.running_at

    failing :
        (b : Bool)
        → count_role_calls
            (records ++ r ∷ u ∷ fail_record u b times.final_at ∷ [])
            plan.task_id
            q.role
          ≡ now + 0
    failing b = count_three records plan q fresh _ times o ∙ ap (now +◌) (consuming_stopped b)

    in_handler :
        (p : HandlerPoint) (y b : Bool) (is_running : Bool)
        → let k : Option HandlerFault = some (record { point = p; by_signal = y }) in
          count_role_calls
            (records ++ after_handler k r u (fail_record u b times.final_at) is_running)
            plan.task_id
            q.role
          ≡ now + handler_slots k
    in_handler before_repair y b true = count_two records plan q fresh times o
    in_handler before_repair y b false =
        count_role_calls-allocate records plan q times.reserved_at fresh ∙ omega arith
    in_handler before_last_repair y b is_running = count_two records plan q fresh times o
    in_handler after_repair y b is_running = failing b

    handled :
        (k : Option HandlerFault) (b : Bool) (is_running : Bool)
        → count_role_calls
            (records ++ after_handler k r u (fail_record u b times.final_at) is_running)
            plan.task_id
            q.role
          ≡ now + handler_slots k
    handled none b is_running = failing b
    handled (some k) b is_running = in_handler k.point k.by_signal b is_running

    stopped :
        (p : Point) (b : Bool) (k : Option HandlerFault)
        → count_role_calls
            (records
              ++ written r times exit (some (record { point = p; by_signal = b; in_handler = k })))
            plan.task_id
            q.role
          ≡ now + kept_slots exit (some (record { point = p; by_signal = b; in_handler = k }))
    stopped before_reserved b k =
        ap (λ l. count_role_calls l plan.task_id q.role) (append_nil records) ∙ omega arith
    stopped after_reserved b k =
        count_role_calls-allocate records plan q times.reserved_at fresh ∙ omega arith
    stopped after_final b k =
        count_three records plan q fresh (final_state exit) times o
        ∙ ap (now +◌) (consuming_final exit)
    stopped before_running b k = handled k b false
    stopped after_running b k = handled k b true
    stopped in_command b k = handled k b true
    stopped before_final b k = handled k b true

    counted :
        (fault : Option Fault)
        → count_role_calls (records ++ written r times exit fault) plan.task_id q.role
          ≡ now + kept_slots exit fault
    counted none =
        count_three records plan q fresh (final_state exit) times o
        ∙ ap (now +◌) (consuming_final exit)
    counted (some fault) = stopped fault.point fault.by_signal fault.in_handler
