-- ===== src/Broker/Settling.antt =====
-- Whether a call of `execute` of scripts/model-call-broker.py is settled when it ends or is stopped.
use ai_coding_workflow.Prelude.{
  ◌≡◌, ◌∙◌, ap, Bool, true, false, Option, none, some, List, [], ◌∷◌, ◌++◌, str_eq_refl, ok,
}
use ai_coding_workflow.Broker.Ledger.{CallState, running, LedgerRecord}
use ai_coding_workflow.Broker.Checks.{Plan, Request, allocate_reservation}
use ai_coding_workflow.Broker.Execution.{Exit, Fault, Times, restate, last_state, admit, execute}
use ai_coding_workflow.Broker.Written.{
  is_final, is_handled, last_state-append, last_three, written_three, execute-written,
}

abbrev pub is_settled : Option CallState → Bool
is_settled none = false
is_settled (some s) = is_final s

-- A call that the checks admit is settled when it ends, and also when it is stopped once
-- `running_record` is set, if its handler is not stopped in turn: the last record of its reservation
-- is then succeeded, failed or cancelled. A stop before that, or in the handler, is not covered.
pub execute_settles :
    (ledger : List LedgerRecord) (plan : Plan) (q : Request) (times : Times) (exit : Exit)
    (fault : Option Fault)
    → admit ledger plan q ≡ ok tt
    → is_handled fault ≡ true
    → is_settled (last_state (execute ledger plan q false times exit fault).ledger q.reservation_id)
      ≡ true
unfolding allocate_reservation
execute_settles ledger plan q times exit fault h g =
    let r = allocate_reservation ledger plan q times.reserved_at in
    let own = str_eq_refl q.reservation_id in
    let (s, f, w) = written_three r times exit fault g in
    let last = last_three q.reservation_id r own running s times.running_at times.final_at in
    let kept = execute-written ledger plan q times exit fault h ∙ ap (ledger ++◌) w in
    ap (λ l. is_settled (last_state l q.reservation_id)) kept
    ∙ ap is_settled (
        last_state-append ledger
          (r ∷ restate r running times.running_at ∷ restate r s times.final_at ∷ [])
          q.reservation_id s last)
    ∙ f
