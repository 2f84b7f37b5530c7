-- ===== src/Broker/Duplicates.antt =====
-- The checks of scripts/model-call-broker.py that stop a call from being made twice: duplicate
-- evidence and the cap on the calls of a request.
use ai_coding_workflow.Prelude.{
  ℕ, ◌≤◌, ◌<◌, String, ◌≡◌, ◌↔◌, refl, ◌∙◌, ap, subst, Bool, true, false, not, ◌&&◌, some, inl, inr,
  Bool-cases, List, [], ◌∷◌, ◌++◌, any, str_eq_refl, if◌then◌else◌, arith, Dict, values,
  values-append, dict_put, dict_put_new, is_empty_text, Result, ok, err, raise_if,
}
use ai_coding_workflow.Broker.Ledger.{
  CallState, reserved, running, succeeded, failed, cancelled, diagnostic, LedgerRecord, Error,
  duplicate_active, duplicate_failed, is_value, fold_by_reservation, loop, is_diagnostic,
}
use ai_coding_workflow.Broker.Checks.{
  Plan, Request, count_if, duplicate_loop, check_duplicate, check_request_idempotency,
  consumed_for_request, request_step, allocate_reservation,
}
use ai_coding_workflow.Broker.Folding.{IsFreshId, loop-append, lacks-requests, count_if-append}

-- The record is of a call with these hashes.
abbrev pub is_same_call : String → String → LedgerRecord → Bool
is_same_call input_hash evidence_hash r =
    is_value r.input_hash input_hash && is_value r.evidence_hash evidence_hash

abbrev pub is_duplicate : String → String → LedgerRecord → Bool
is_duplicate input_hash evidence_hash r =
    is_same_call input_hash evidence_hash r && not (is_diagnostic r.state)

abbrev pub is_over : CallState → Bool
is_over failed = true
is_over cancelled = true
is_over _ = false

-- What the loop does at a record with the hashes.
abbrev verdict : String → Bool → CallState → Result Error (Unit {0}) → Result Error (Unit {0})
verdict rid retry_failed s rest = elim s [
  | reserved ↦ err (duplicate_active rid)
  | running ↦ err (duplicate_active rid)
  | succeeded ↦ err (duplicate_active rid)
  | failed ↦ raise_if (not retry_failed) (duplicate_failed rid)
  | cancelled ↦ raise_if (not retry_failed) (duplicate_failed rid)
  | diagnostic ↦ rest
]

duplicate_loop-next :
    (ih eh rid : String) (retry_failed : Bool) (r : LedgerRecord) (d : Dict LedgerRecord)
    → duplicate_loop ih eh retry_failed ((rid, r) ∷ d) ≡ (
        if not (is_same_call ih eh r)
        then duplicate_loop ih eh retry_failed d
        else verdict rid retry_failed r.state (duplicate_loop ih eh retry_failed d))
unfolding duplicate_loop
duplicate_loop-next ih eh rid retry_failed r d = refl

verdict_closed :
    (rid : String) (s : CallState) (rest : Result Error (Unit {0}))
    → (verdict rid false s rest ≡ ok tt) ↔ ((is_diagnostic s ≡ true) × (rest ≡ ok tt))
verdict_closed rid reserved rest = ((λ h. cc), λ h. cc)
verdict_closed rid running rest = ((λ h. cc), λ h. cc)
verdict_closed rid succeeded rest = ((λ h. cc), λ h. cc)
verdict_closed rid failed rest = ((λ h. cc), λ h. cc)
verdict_closed rid cancelled rest = ((λ h. cc), λ h. cc)
verdict_closed rid diagnostic rest = ((λ h. (refl, h)), λ h. h.1)

verdict_over :
    (rid : String) (s : CallState) (rest : Result Error (Unit {0}))
    → is_over s ≡ true
    → verdict rid true s rest ≡ ok tt
verdict_over rid reserved rest h = cc
verdict_over rid running rest h = cc
verdict_over rid succeeded rest h = cc
verdict_over rid failed rest h = refl
verdict_over rid cancelled rest h = refl
verdict_over rid diagnostic rest h = cc

verdict_diagnostic :
    (rid : String) (b : Bool) (s : CallState) (rest : Result Error (Unit {0}))
    → is_diagnostic s ≡ true
    → verdict rid b s rest ≡ rest
verdict_diagnostic rid b reserved rest h = cc
verdict_diagnostic rid b running rest h = cc
verdict_diagnostic rid b succeeded rest h = cc
verdict_diagnostic rid b failed rest h = cc
verdict_diagnostic rid b cancelled rest h = cc
verdict_diagnostic rid b diagnostic rest h = refl

-- The loop passes over the records that are no duplicates.
duplicate_loop_skips :
    (ih eh : String) (b : Bool) (before after : Dict LedgerRecord)
    → any (is_duplicate ih eh) (values before) ≡ false
    → duplicate_loop ih eh b (before ++ after) ≡ duplicate_loop ih eh b after
duplicate_loop_skips ih eh b [] after h = refl
duplicate_loop_skips ih eh b ((rid, r) ∷ before) after h =
    let rest = duplicate_loop_skips ih eh b before after (ground arith) in
    duplicate_loop-next ih eh rid b r (before ++ after) ∙ elim (Bool-cases (is_same_call ih eh r)) [
      | inl e ↦ rw e (
          verdict_diagnostic rid b r.state (duplicate_loop ih eh b (before ++ after)) (ground arith)
          ∙ rest)
      | inr e ↦ rw e rest
    ]

duplicate_loop-closed :
    (ih eh : String) (d : Dict LedgerRecord)
    → (duplicate_loop ih eh false d ≡ ok tt) ↔ (any (is_duplicate ih eh) (values d) ≡ false)
unfolding duplicate_loop
duplicate_loop-closed ih eh [] = ((λ h. refl), λ h. refl)
duplicate_loop-closed ih eh ((rid, r) ∷ d) =
    let next = duplicate_loop-next ih eh rid false r d in
    let rest = duplicate_loop-closed ih eh d in
    let here = verdict_closed rid r.state (duplicate_loop ih eh false d) in
    elim (Bool-cases (is_same_call ih eh r)) [
      | inl e ↦ ((λ h. ground arith), λ h. ground arith)
      | inr e ↦ ((λ h. ground arith), λ h. ground arith)
    ]

-- Without `--retry-failed`, the check lets a call pass exactly when no reservation of the task and
-- the role has its input and evidence hashes, whatever became of that reservation.
pub check_duplicate_closed :
    (records : List LedgerRecord) (task_id role ih eh : String)
    → (check_duplicate records task_id role ih eh false ≡ ok tt)
      ↔ (any (is_duplicate ih eh) (values (fold_by_reservation records task_id role)) ≡ false)
unfolding check_duplicate
check_duplicate_closed records task_id role ih eh =
    duplicate_loop-closed ih eh (fold_by_reservation records task_id role)

-- With `--retry-failed`, the oldest reservation with the hashes decides alone: when it failed or was
-- cancelled, the check lets the call pass whatever reservations with the same hashes follow it,
-- those that are reserved, running or succeeded included.
pub check_duplicate_retry :
    (records : List LedgerRecord) (task_id role ih eh rid : String) (r : LedgerRecord)
    (before after : Dict LedgerRecord)
    → fold_by_reservation records task_id role ≡ before ++ (rid, r) ∷ after
    → any (is_duplicate ih eh) (values before) ≡ false
    → is_same_call ih eh r ≡ true
    → is_over r.state ≡ true
    → check_duplicate records task_id role ih eh true ≡ ok tt
unfolding check_duplicate
check_duplicate_retry records task_id role ih eh rid r before after e b m o =
    ap (duplicate_loop ih eh true) e
    ∙ duplicate_loop_skips ih eh true before ((rid, r) ∷ after) b
    ∙ duplicate_loop-next ih eh rid true r after
    ∙ rw m (verdict_over rid r.state (duplicate_loop ih eh true after) o)

request_step-allocate :
    (records : List LedgerRecord) (plan : Plan) (q : Request) (t : ℕ) (d : Dict LedgerRecord)
    → is_empty_text q.reservation_id ≡ false
    → request_step plan.task_id (allocate_reservation records plan q t) d
      ≡ dict_put q.reservation_id (allocate_reservation records plan q t) d
unfolding request_step allocate_reservation
request_step-allocate records plan q t d n = rw (str_eq_refl plan.task_id, n) refl

request_room :
    (records : List LedgerRecord) (task_id request_id : String) (cap : ℕ)
    → is_empty_text request_id ≡ false
    → check_request_idempotency records task_id (some request_id) (some cap) ≡ ok tt
    → consumed_for_request records task_id request_id < cap
unfolding check_request_idempotency
request_room records task_id request_id cap m h = ground arith

-- A call that the cap on its request lets pass, allocated under a new id that is not empty, leaves
-- the reservations of the request in the task within the cap, those of every role together.
pub request_within_cap :
    (records : List LedgerRecord) (plan : Plan) (q : Request) (t cap : ℕ) (request_id : String)
    → IsFreshId q.reservation_id records
    → is_empty_text q.reservation_id ≡ false
    → is_empty_text request_id ≡ false
    → q.request_id ≡ some request_id
    → check_request_idempotency records plan.task_id q.request_id (some cap) ≡ ok tt
    → consumed_for_request
        (records ++ allocate_reservation records plan q t ∷ [])
        plan.task_id
        request_id
      ≤ cap
unfolding consumed_for_request check_request_idempotency loop
request_within_cap records plan q t cap request_id fresh n m e h =
    let r = allocate_reservation records plan q t in
    let d = loop (request_step plan.task_id) records [] in
    let after =
      loop-append (request_step plan.task_id) records (r ∷ []) []
      ∙ request_step-allocate records plan q t d n
      ∙ dict_put_new q.reservation_id r d
          (lacks-requests q.reservation_id records fresh plan.task_id) in
    let counted =
      ap (λ d. count_if (λ (r : LedgerRecord). is_value r.request_id request_id) (values d)) after
      ∙ ap (count_if (λ (r : LedgerRecord). is_value r.request_id request_id)) (values-append d _)
      ∙ count_if-append (λ (r : LedgerRecord). is_value r.request_id request_id) (values d)
          (r ∷ []) in
    let room =
      request_room records plan.task_id request_id cap m
        (subst (λ o. check_request_idempotency records plan.task_id o (some cap) ≡ ok tt) e h) in
    let one : count_if (λ (r : LedgerRecord). is_value r.request_id request_id) (r ∷ []) ≤ 1 =
      ground arith in
    ground arith
