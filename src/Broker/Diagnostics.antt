-- ===== src/Broker/Diagnostics.antt =====
-- What `record_diagnostic` of scripts/model-call-broker.py means to the checks of later calls.
use ai_coding_workflow.Prelude.{
  ℕ, String, ◌≡◌, refl, ◌∙◌, some, Bool-cases, inl, inr, List, [], ◌∷◌,
}
use ai_coding_workflow.Broker.Ledger.{
  LedgerRecord, is_value, is_for, fold_step, fold_by_reservation, loop, group_step,
  validate_ledger_history,
}
use ai_coding_workflow.Broker.Checks.{
  Plan, Request, count_role_calls, check_budget, check_duplicate, check_request_idempotency,
  request_step, consumed_for_request,
}
use ai_coding_workflow.Broker.Execution.{admit, diagnostic_record, record_diagnostic}
use ai_coding_workflow.Broker.Folding.{loop-append}

module _ (ledger : List LedgerRecord) (task_id role stage : String) (t : ℕ) where
  fold_unchanged :
      (task_id' role' : String)
      → fold_by_reservation (record_diagnostic ledger task_id role stage t) task_id' role'
        ≡ fold_by_reservation ledger task_id' role'
  unfolding fold_by_reservation record_diagnostic loop fold_step diagnostic_record
  fold_unchanged task_id' role' =
      loop-append (fold_step task_id' role') ledger (diagnostic_record task_id role stage t ∷ []) []
      ∙ elim (Bool-cases (is_for task_id' role' (diagnostic_record task_id role stage t))) [
        | inl e ↦ rw e refl
        | inr e ↦ rw e refl
      ]

  groups_unchanged :
      loop group_step (record_diagnostic ledger task_id role stage t) [] ≡ loop group_step ledger []
  unfolding record_diagnostic loop group_step diagnostic_record
  groups_unchanged = loop-append group_step ledger (diagnostic_record task_id role stage t ∷ []) []

  requests_unchanged :
      (task_id' : String)
      → loop (request_step task_id') (record_diagnostic ledger task_id role stage t) []
        ≡ loop (request_step task_id') ledger []
  unfolding record_diagnostic loop request_step diagnostic_record
  requests_unchanged task_id' =
      loop-append (request_step task_id') ledger (diagnostic_record task_id role stage t ∷ []) []
      ∙ elim (Bool-cases (is_value (some task_id) task_id')) [
        | inl e ↦ rw e refl
        | inr e ↦ rw e refl
      ]

-- A diagnostic changes no decision of the broker: it takes no call from any budget, and every call is
-- admitted or refused with the same error after it as before.
pub diagnostic_neutral :
    (ledger : List LedgerRecord) (task_id role stage : String) (t : ℕ) (plan : Plan) (q : Request)
    → (count_role_calls (record_diagnostic ledger task_id role stage t) plan.task_id q.role
        ≡ count_role_calls ledger plan.task_id q.role)
      × (admit (record_diagnostic ledger task_id role stage t) plan q ≡ admit ledger plan q)
unfolding count_role_calls admit check_budget check_duplicate check_request_idempotency
    consumed_for_request validate_ledger_history
diagnostic_neutral ledger task_id role stage t plan q =
    let f = fold_unchanged ledger task_id role stage t plan.task_id q.role in
    let g = groups_unchanged ledger task_id role stage t in
    let r = requests_unchanged ledger task_id role stage t plan.task_id in
    (rw f refl, rw (f, g, r) refl)
