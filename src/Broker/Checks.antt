-- ===== src/Broker/Checks.antt =====
-- The checks of scripts/model-call-broker.py before a call: budget, duplicate evidence, request cap;
-- and the allocation of a reservation.
use ai_coding_workflow.Prelude.{
  ℕ, suc, ◌+◌, ◌-◌, String, Bool, true, false, not, ◌&&◌, ◌||◌, Option, none, some, List, [], ◌∷◌,
  mem, str_eq, leb, ◌==◌, if◌then◌else◌, Result, ok, err, ◌>>◌, raise_if, is_empty, is_empty_text,
  filter, length, Dict, to_set, dict_put, values,
}
use ai_coding_workflow.Broker.Ledger.{
  CallState, reserved, running, succeeded, failed, cancelled, diagnostic, LedgerRecord, Error,
  zero_budget, reserved_for_others, unreserved_exhausted, budget_exhausted, duplicate_active,
  duplicate_failed, request_cap_reached, is_value, loop, fold_by_reservation, is_diagnostic,
}

-- What the broker reads of an execution plan. A negative budget counts as no budget, as zero does.
pub record Plan : Type 0 where
  pub task_id : String
  pub claude_calls : ℕ
  pub spark_calls : ℕ
  pub codex_calls : ℕ
  pub reserved_for : List String

-- `budget.get(f"{role}_calls", 0)`
unfoldable pub budget_of : Plan → String → ℕ
budget_of plan role =
    if str_eq role "claude"
    then plan.claude_calls
    else if str_eq role "spark"
    then plan.spark_calls
    else if str_eq role "codex"
    then plan.codex_calls
    else 0

abbrev override : Option ℕ → Bool → ℕ
override none b = 1
override (some n) true = n
override (some n) false = 1

unfoldable pub make_compatibility_plan : String → Option ℕ → String → Plan
make_compatibility_plan role max_calls task_id = record {
  task_id = task_id;
  claude_calls = override max_calls (str_eq role "claude");
  spark_calls = override max_calls (str_eq role "spark");
  codex_calls = override max_calls (str_eq role "codex");
  reserved_for = [];
}

abbrev pub is_consuming : CallState → Bool
is_consuming reserved = true
is_consuming running = true
is_consuming succeeded = true
is_consuming _ = false

unfoldable pub budget_consuming : LedgerRecord → Bool
budget_consuming r = is_consuming r.state

-- `sum(1 for r in records if p(r))`
abbrev pub count_if {ℓ} : {A : Type ℓ} → (A → Bool) → List A → ℕ
count_if p [] = 0
count_if p (r ∷ rs) = let rest = count_if p rs in if p r then suc rest else rest

unfoldable pub count_role_calls : List LedgerRecord → String → String → ℕ
count_role_calls records task_id role =
    count_if budget_consuming (values (fold_by_reservation records task_id role))

-- `r.get("stage") in stages`
abbrev pub is_among : Option String → List String → Bool
is_among none stages = false
is_among (some s) stages = mem s stages

-- whether some consuming record of `rs` is at the stage `s`
unfoldable pub uses_stage : List LedgerRecord → String → Bool
uses_stage [] s = false
uses_stage (r ∷ rs) s = (budget_consuming r && is_value r.stage s) || uses_stage rs s

-- `len((reserved_stages - used_reserved_stages) - {stage})`
unfoldable pub protected_other_slots : List LedgerRecord → List String → String → ℕ
unfolding uses_stage
protected_other_slots rs reserved_stages stage =
    length (filter (λ s. not (uses_stage rs s) && not (str_eq s stage)) reserved_stages)

-- the consuming records at stages that are not reserved
unfoldable pub non_reserved_consumed : List LedgerRecord → List String → ℕ
non_reserved_consumed rs reserved_for =
    count_if (λ r. budget_consuming r && not (is_among r.stage reserved_for)) rs

-- The part of `check_budget` that follows the test for a zero budget.
unfoldable pub check_slots : List LedgerRecord → ℕ → List String → String → Result Error (Unit {0})
check_slots rs max_calls reserved_for stage =
    if is_empty reserved_for
    then raise_if (leb max_calls (count_if budget_consuming rs)) budget_exhausted
    else if mem stage (to_set reserved_for)
    then raise_if
        (leb max_calls
          (count_if budget_consuming rs + protected_other_slots rs (to_set reserved_for) stage))
        reserved_for_others
    else raise_if
        (leb (max_calls - length (to_set reserved_for)) (non_reserved_consumed rs reserved_for))
        unreserved_exhausted

unfoldable pub check_budget : List LedgerRecord → Plan → String → String → Result Error (Unit {0})
check_budget records plan role stage = do
  raise_if (budget_of plan role == 0) zero_budget
  check_slots (values (fold_by_reservation records plan.task_id role)) (budget_of plan role)
      plan.reserved_for stage

-- The loop of `check_duplicate` over the folded records; the first record with the same hashes
-- decides, but for a diagnostic one.
unfoldable pub duplicate_loop : String → String → Bool → Dict LedgerRecord → Result Error (Unit {0})
duplicate_loop input_hash evidence_hash retry_failed [] = ok tt
duplicate_loop input_hash evidence_hash retry_failed ((rid, r) ∷ rest) =
    let continue = duplicate_loop input_hash evidence_hash retry_failed rest in
    if not (is_value r.input_hash input_hash && is_value r.evidence_hash evidence_hash)
    then continue
    else elim r.state [
      | reserved ↦ err (duplicate_active rid)
      | running ↦ err (duplicate_active rid)
      | succeeded ↦ err (duplicate_active rid)
      | failed ↦ raise_if (not retry_failed) (duplicate_failed rid)
      | cancelled ↦ raise_if (not retry_failed) (duplicate_failed rid)
      | diagnostic ↦ continue
    ]

unfoldable pub check_duplicate :
    List LedgerRecord → String → String → String → String → Bool → Result Error (Unit {0})
unfolding duplicate_loop
check_duplicate records task_id role input_hash evidence_hash retry_failed =
    duplicate_loop input_hash evidence_hash retry_failed (fold_by_reservation records task_id role)

-- `if reservation_id:`, false for a missing and for an empty id
abbrev pub request_one : Option String → LedgerRecord → Dict LedgerRecord → Dict LedgerRecord
request_one none r folded = folded
request_one (some rid) r folded = if is_empty_text rid then folded else dict_put rid r folded

-- The loop body of `check_request_idempotency`.
unfoldable pub request_step : String → LedgerRecord → Dict LedgerRecord → Dict LedgerRecord
request_step task_id r folded =
    if not (is_value r.task_id task_id) || is_diagnostic r.state
    then folded
    else request_one r.reservation_id r folded

unfoldable pub consumed_for_request : List LedgerRecord → String → String → ℕ
consumed_for_request records task_id request_id =
    count_if (λ (r : LedgerRecord). is_value r.request_id request_id)
      (values (loop (request_step task_id) records []))

abbrev reaches_cap : Option ℕ → ℕ → Bool
reaches_cap none n = false
reaches_cap (some cap) n = leb cap n

abbrev pub text_or_empty : Option String → String
text_or_empty none = ""
text_or_empty (some s) = s

unfoldable pub check_request_idempotency :
    List LedgerRecord → String → Option String → Option ℕ → Result Error (Unit {0})
unfolding consumed_for_request
check_request_idempotency records task_id request_id call_cap =
    if is_empty_text (text_or_empty request_id)
    then ok tt
    else raise_if
        (reaches_cap call_cap (consumed_for_request records task_id (text_or_empty request_id)))
        request_cap_reached

-- What one call is made for.
pub record Request : Type 0 where
  pub role : String
  pub stage : String
  pub input_hash : String
  pub evidence_hash : String
  pub run_id : String
  pub reservation_id : String
  pub retry_failed : Bool
  pub request_id : Option String
  pub call_cap : Option ℕ
  pub call_type : String

-- `if request_id: record["request_id"] = request_id`
abbrev truthy_text : Option String → Option String
truthy_text none = none
truthy_text (some s) = if is_empty_text s then none else some s

-- `timestamp` is what the clock says.
unfoldable pub allocate_reservation : List LedgerRecord → Plan → Request → ℕ → LedgerRecord
allocate_reservation records plan q timestamp = record {
  state = reserved;
  timestamp = timestamp;
  run_id = some q.run_id;
  reservation_id = some q.reservation_id;
  task_id = some plan.task_id;
  stage = some q.stage;
  role = some q.role;
  call_index = some (count_role_calls records plan.task_id q.role + 1);
  input_hash = some q.input_hash;
  evidence_hash = some q.evidence_hash;
  request_id = truthy_text q.request_id;
  effective_call_cap = q.call_cap;
  call_type = some q.call_type;
}
