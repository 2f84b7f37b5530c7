-- ===== src/Broker/Budget.antt =====
-- The budget of scripts/model-call-broker.py over the allocations that its checks admit.
use ai_coding_workflow.Prelude.{
  mem-to_set, to_set, ℕ, suc, ◌+◌, ◌-◌, ◌≤◌, ◌<◌, String, ◌≡◌, refl, ◌∙◌, ap, true, false, not,
  ◌&&◌, some, inl, inr, Bool-cases, List, [], ◌∷◌, ◌++◌, mem, is_empty, length, str_eq, str_eq_iff,
  str_eq_refl, ◌==◌, arith, values, values-append, ok, raise_if->>-eq-ok,
}
use ai_coding_workflow.Broker.Ledger.{
  LedgerRecord, zero_budget, is_value, fold_by_reservation, is_for,
}
use ai_coding_workflow.Broker.Checks.{
  Plan, Request, budget_of, budget_consuming, count_if, count_role_calls, check_budget, check_slots,
  is_among, uses_stage, protected_other_slots, non_reserved_consumed, allocate_reservation,
}
use ai_coding_workflow.Broker.Folding.{IsFreshId, fold-append, count_if-append}

allocation_is_for :
    (records : List LedgerRecord) (plan : Plan) (q : Request) (t : ℕ)
    → is_for plan.task_id q.role (allocate_reservation records plan q t) ≡ true
unfolding allocate_reservation
allocation_is_for records plan q t = ground (arith, str_eq_refl plan.task_id, str_eq_refl q.role)

-- The entries of the fold after an allocation.
folded_after :
    (records : List LedgerRecord) (plan : Plan) (q : Request) (t : ℕ)
    → IsFreshId q.reservation_id records
    → values (
        fold_by_reservation
          (records ++ allocate_reservation records plan q t ∷ [])
          plan.task_id
          q.role)
      ≡ values (fold_by_reservation records plan.task_id q.role)
        ++ allocate_reservation records plan q t ∷ []
unfolding allocate_reservation
folded_after records plan q t fresh =
    ap values (
      fold-append q.reservation_id records fresh plan.task_id q.role
        (allocate_reservation records plan q t) refl (allocation_is_for records plan q t))
    ∙ values-append (fold_by_reservation records plan.task_id q.role) _

-- An allocation under a fresh id counts as exactly one call of its role.
pub count_role_calls-allocate :
    (records : List LedgerRecord) (plan : Plan) (q : Request) (t : ℕ)
    → IsFreshId q.reservation_id records
    → count_role_calls (records ++ allocate_reservation records plan q t ∷ []) plan.task_id q.role
      ≡ suc (count_role_calls records plan.task_id q.role)
unfolding count_role_calls budget_consuming allocate_reservation
count_role_calls-allocate records plan q t fresh =
    ap (count_if budget_consuming) (folded_after records plan q t fresh)
    ∙ count_if-append budget_consuming (values (fold_by_reservation records plan.task_id q.role)) _
    ∙ omega arith

abbrev folded : List LedgerRecord → Plan → String → List LedgerRecord
folded records plan role = values (fold_by_reservation records plan.task_id role)

module _ (rs : List LedgerRecord) (n : ℕ) (stage : String) where
  slots_left :
      (reserved_for : List String)
      → mem stage (to_set reserved_for) ≡ true
      → check_slots rs n reserved_for stage ≡ ok tt
      → count_if budget_consuming rs + protected_other_slots rs (to_set reserved_for) stage < n
  unfolding check_slots to_set
  slots_left [] m h = ground arith
  slots_left (s ∷ ss) m h = ground arith

  remainder_left :
      (reserved_for : List String)
      → is_empty reserved_for ≡ false
      → mem stage (to_set reserved_for) ≡ false
      → check_slots rs n reserved_for stage ≡ ok tt
      → non_reserved_consumed rs reserved_for < n - length (to_set reserved_for)
  unfolding check_slots
  remainder_left [] e m h = ground arith
  remainder_left (s ∷ ss) e m h = ground arith

uses_stage-append :
    (rs : List LedgerRecord) (r : LedgerRecord) (s : String)
    → is_value r.stage s ≡ false
    → uses_stage (rs ++ r ∷ []) s ≡ uses_stage rs s
unfolding uses_stage
uses_stage-append [] r s h = ground arith
uses_stage-append (q ∷ rs) r s h = ground (arith, uses_stage-append rs r s)

-- A record at a stage takes no slot that is protected for the other stages.
protected_other_slots-append :
    (rs : List LedgerRecord) (r : LedgerRecord) (stage : String) (stages : List String)
    → r.stage ≡ some stage
    → protected_other_slots (rs ++ r ∷ []) stages stage ≡ protected_other_slots rs stages stage
unfolding protected_other_slots
protected_other_slots-append rs r stage [] e = refl
protected_other_slots-append rs r stage (s ∷ stages) e =
    let rest = protected_other_slots-append rs r stage stages e in
    elim (Bool-cases (str_eq s stage)) [
      | inl b ↦ ground arith
      | inr b ↦
          let other : is_value r.stage s ≡ false =
            ground (arith, str_eq_iff stage s, str_eq_iff s stage) in
          let same = uses_stage-append rs r s other in ground arith
    ]

pub check_budget-slots :
    (records : List LedgerRecord) (plan : Plan) (role stage : String)
    → check_budget records plan role stage ≡ ok tt
    → check_slots (folded records plan role) (budget_of plan role) plan.reserved_for stage ≡ ok tt
unfolding check_budget
check_budget-slots records plan role stage h =
    (raise_if->>-eq-ok (budget_of plan role == 0) zero_budget _ h).1

-- A call of a plan without reserved stages that the budget check lets pass, allocated under an id
-- that no record of the ledger names, leaves the calls of its role within the budget of the plan.
unreserved_plan_within_budget :
    (records : List LedgerRecord) (plan : Plan) (q : Request) (t : ℕ)
    → IsFreshId q.reservation_id records
    → plan.reserved_for ≡ []
    → check_budget records plan q.role q.stage ≡ ok tt
    → count_role_calls (records ++ allocate_reservation records plan q t ∷ []) plan.task_id q.role
      ≤ budget_of plan q.role
unfolding check_slots count_role_calls
unreserved_plan_within_budget records plan q t fresh e h =
    let checked = check_budget-slots records plan q.role q.stage h in
    let counted = count_role_calls-allocate records plan q t fresh in ground arith

-- A call at a reserved stage that the budget check lets pass, allocated under an id that no record
-- of the ledger names, leaves the calls of its role within the budget, and with them the slots of
-- all other reserved stages that have not been used yet.
pub reserved_stage_within_budget :
    (records : List LedgerRecord) (plan : Plan) (q : Request) (t : ℕ)
    → IsFreshId q.reservation_id records
    → mem q.stage (to_set plan.reserved_for) ≡ true
    → check_budget records plan q.role q.stage ≡ ok tt
    → count_role_calls (records ++ allocate_reservation records plan q t ∷ []) plan.task_id q.role
        + protected_other_slots
            (values (
              fold_by_reservation
                (records ++ allocate_reservation records plan q t ∷ [])
                plan.task_id
                q.role))
            (to_set plan.reserved_for)
            q.stage
      ≤ budget_of plan q.role
unfolding count_role_calls allocate_reservation
reserved_stage_within_budget records plan q t fresh m h =
    let checked = check_budget-slots records plan q.role q.stage h in
    let counted = count_role_calls-allocate records plan q t fresh in
    let left =
      slots_left (folded records plan q.role) (budget_of plan q.role) q.stage plan.reserved_for m
        checked in
    let kept =
      ap (λ rs. protected_other_slots rs (to_set plan.reserved_for) q.stage)
        (folded_after records plan q t fresh)
      ∙ protected_other_slots-append (folded records plan q.role)
          (allocate_reservation records plan q t) q.stage (to_set plan.reserved_for) refl in
    let before : count_role_calls records plan.task_id q.role
        ≡ count_if budget_consuming (folded records plan q.role) =
      refl in
    omega (arith, kept, counted, left, before)

-- A call at a stage that is not reserved, of a plan that reserves stages, allocated after a passed
-- budget check under an id that no record of the ledger names: the calls at stages that are not
-- reserved, this one included, together with one slot for each reserved stage, are within the budget.
pub unreserved_stage_within_remainder :
    (records : List LedgerRecord) (plan : Plan) (q : Request) (t : ℕ)
    → IsFreshId q.reservation_id records
    → is_empty plan.reserved_for ≡ false
    → mem q.stage (to_set plan.reserved_for) ≡ false
    → check_budget records plan q.role q.stage ≡ ok tt
    → non_reserved_consumed
          (values (
            fold_by_reservation
              (records ++ allocate_reservation records plan q t ∷ [])
              plan.task_id
              q.role))
          plan.reserved_for
        + length (to_set plan.reserved_for)
      ≤ budget_of plan q.role
unfolding non_reserved_consumed allocate_reservation budget_consuming
unreserved_stage_within_remainder records plan q t fresh e m h =
    let checked = check_budget-slots records plan q.role q.stage h in
    let left =
      remainder_left (folded records plan q.role) (budget_of plan q.role) q.stage plan.reserved_for
        e m checked in
    let counted =
      ap (λ rs. non_reserved_consumed rs plan.reserved_for) (folded_after records plan q t fresh)
      ∙ count_if-append (λ r. budget_consuming r && not (is_among r.stage plan.reserved_for))
          (folded records plan q.role) (allocate_reservation records plan q t ∷ []) in
    let member = mem-to_set q.stage plan.reserved_for in ground arith

-- At a stage that is not reserved, of a plan that reserves stages, the budget check looks at the calls
-- of such stages only: when these leave room, it lets the call pass although the role has used its
-- whole budget already, and the allocation then exceeds the budget.
pub unreserved_stage_ignores_total :
    (records : List LedgerRecord) (plan : Plan) (q : Request) (t : ℕ)
    → IsFreshId q.reservation_id records
    → is_empty plan.reserved_for ≡ false
    → mem q.stage (to_set plan.reserved_for) ≡ false
    → non_reserved_consumed
          (values (fold_by_reservation records plan.task_id q.role))
          plan.reserved_for
        + length (to_set plan.reserved_for)
      < budget_of plan q.role
    → budget_of plan q.role ≤ count_role_calls records plan.task_id q.role
    → (check_budget records plan q.role q.stage ≡ ok tt)
      × (budget_of plan q.role
          < count_role_calls
              (records ++ allocate_reservation records plan q t ∷ [])
              plan.task_id
              q.role)
unfolding check_budget check_slots
unreserved_stage_ignores_total records plan q t fresh e m room used =
    let counted = count_role_calls-allocate records plan q t fresh in (ground arith, ground arith)
