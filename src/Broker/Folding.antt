-- ===== src/Broker/Folding.antt =====
-- What appending records to the ledger of scripts/model-call-broker.py does to its folds.
use ai_coding_workflow.Prelude.{
  ◌+◌, ◌≤◌, String, ◌≡◌, refl, ◌∙◌, ap, Bool, true, false, not, ◌||◌, Option, none, some,
  Option-cases, Bool-cases, inl, inr, List, [], ◌∷◌, ◌++◌, leb, if◌then◌else◌, any, All, arith,
  is_empty_text, Dict, dict_get, lacks, dict_put_new, dict_put_last, dict_get_last, lacks-dict_put,
}
use ai_coding_workflow.Broker.Ledger.{
  LedgerRecord, is_value, is_for, loop, fold_step, fold_by_reservation, group_step, group_one,
  fold_one, is_newer, is_diagnostic,
}
use ai_coding_workflow.Broker.Checks.{count_if, request_step, request_one}

-- No record of the ledger is of the reservation.
abbrev pub IsFreshId : String → List LedgerRecord → Type 0
IsFreshId rid records = any (λ (r : LedgerRecord). is_value r.reservation_id rid) records ≡ false

module _ {D : Type 0} (step : LedgerRecord → D → D) where
  pub loop-append :
      (xs ys : List LedgerRecord) (d : D) → loop step (xs ++ ys) d ≡ loop step ys (loop step xs d)
  unfolding loop
  loop-append [] ys d = refl
  loop-append (x ∷ xs) ys d = loop-append xs ys (step x d)

-- A key stays missing from a dictionary while no step of a loop writes it.
-- The step leaves a key missing that its record does not name.
abbrev Spares : {V : Type 0} → (LedgerRecord → Dict V → Dict V) → String → Type 0
Spares {V} step rid =
    (r : LedgerRecord) (d : Dict V)
    → is_value r.reservation_id rid ≡ false
    → lacks rid d ≡ true
    → lacks rid (step r d) ≡ true

lacks-loop :
    {V : Type 0} (step : LedgerRecord → Dict V → Dict V) (rid : String)
    → Spares step rid
    → (records : List LedgerRecord) (d : Dict V) → IsFreshId rid records
    → lacks rid d ≡ true
    → lacks rid (loop step records d) ≡ true
unfolding loop
lacks-loop step rid spares [] d f h = h
lacks-loop step rid spares (r ∷ rs) d f h =
    lacks-loop step rid spares rs (step r d) (ground arith) (spares r d (ground arith) h)

lacks-fold_one :
    (o : Option String) (r : LedgerRecord) (rid : String) (d : Dict LedgerRecord)
    → is_value o rid ≡ false
    → lacks rid d ≡ true
    → lacks rid (fold_one o r d) ≡ true
lacks-fold_one none r rid d e h = h
lacks-fold_one (some j) r rid d e h = elim (Bool-cases (is_newer (dict_get j d) r)) [
  | inl b ↦ rw b (lacks-dict_put rid j r d e h)
  | inr b ↦ rw b h
]

Spares-fold_step : (task_id role rid : String) → Spares (fold_step task_id role) rid
unfolding fold_step
Spares-fold_step task_id role rid r d e h = elim (Bool-cases (is_for task_id role r)) [
  | inl b ↦ rw b (lacks-fold_one r.reservation_id r rid d e h)
  | inr b ↦ rw b h
]

lacks-group_one :
    (o : Option String) (r : LedgerRecord) (rid : String) (d : Dict (List LedgerRecord))
    → is_value o rid ≡ false
    → lacks rid d ≡ true
    → lacks rid (group_one o r d) ≡ true
lacks-group_one none r rid d e h = h
lacks-group_one (some j) r rid d e h = lacks-dict_put rid j _ d e h

Spares-group_step : (rid : String) → Spares group_step rid
unfolding group_step
Spares-group_step rid r d e h = elim (Bool-cases (is_diagnostic r.state)) [
  | inl b ↦ rw b h
  | inr b ↦ rw b (lacks-group_one r.reservation_id r rid d e h)
]

lacks-request_one :
    (o : Option String) (r : LedgerRecord) (rid : String) (d : Dict LedgerRecord)
    → is_value o rid ≡ false
    → lacks rid d ≡ true
    → lacks rid (request_one o r d) ≡ true
lacks-request_one none r rid d e h = h
lacks-request_one (some j) r rid d e h = elim (Bool-cases (is_empty_text j)) [
  | inl b ↦ rw b h
  | inr b ↦ rw b (lacks-dict_put rid j r d e h)
]

Spares-request_step : (task_id rid : String) → Spares (request_step task_id) rid
unfolding request_step
Spares-request_step task_id rid r d e h =
    elim (Bool-cases (not (is_value r.task_id task_id) || is_diagnostic r.state)) [
      | inl b ↦ rw b h
      | inr b ↦ rw b (lacks-request_one r.reservation_id r rid d e h)
    ]

pub fold_one_new :
    (rid : String) (r : LedgerRecord) (d : Dict LedgerRecord)
    → lacks rid d ≡ true
    → fold_one (some rid) r d ≡ d ++ (rid, r) ∷ []
fold_one_new rid r d h = elim (Option-cases (dict_get rid d)) [
  | inl e ↦ rw e (dict_put_new rid r d h)
  | inr (v, e) ↦ absurd (ground arith)
]

pub fold_one_last :
    (rid : String) (r u : LedgerRecord) (d : Dict LedgerRecord)
    → lacks rid d ≡ true
    → r.timestamp ≤ u.timestamp
    → fold_one (some rid) u (d ++ (rid, r) ∷ []) ≡ d ++ (rid, u) ∷ []
fold_one_last rid r u d h t =
    let newer : leb r.timestamp u.timestamp ≡ true = ground arith in
    rw (dict_get_last rid r d h) (rw newer (dict_put_last rid u r d h))

pub fold_step_at :
    (task_id role rid : String) (r : LedgerRecord) (d : Dict LedgerRecord)
    → r.reservation_id ≡ some rid
    → is_for task_id role r ≡ true
    → fold_step task_id role r d ≡ fold_one (some rid) r d
unfolding fold_step
fold_step_at task_id role rid r d e m =
    ap (λ b. if b then fold_one r.reservation_id r d else d) m ∙ ap (λ o. fold_one o r d) e

-- A reservation that no record of the ledger names is in none of the folds.
module _ (rid : String) (records : List LedgerRecord) (fresh : IsFreshId rid records) where
  pub lacks-fold :
      (task_id role : String) → lacks rid (loop (fold_step task_id role) records []) ≡ true
  unfolding dict_get
  lacks-fold task_id role =
      lacks-loop _ rid (Spares-fold_step task_id role rid) records [] fresh refl

  pub lacks-groups : lacks rid (loop group_step records []) ≡ true
  unfolding dict_get
  lacks-groups = lacks-loop _ rid (Spares-group_step rid) records [] fresh refl

  pub lacks-requests :
      (task_id : String) → lacks rid (loop (request_step task_id) records []) ≡ true
  unfolding dict_get
  lacks-requests task_id = lacks-loop _ rid (Spares-request_step task_id rid) records [] fresh refl

  -- One record of a new reservation, of the task and the role that are folded, adds one entry.
  pub fold-append :
      (task_id role : String) (r : LedgerRecord)
      → r.reservation_id ≡ some rid
      → is_for task_id role r ≡ true
      → fold_by_reservation (records ++ r ∷ []) task_id role
        ≡ fold_by_reservation records task_id role ++ (rid, r) ∷ []
  unfolding fold_by_reservation loop
  fold-append task_id role r e m =
      let d = loop (fold_step task_id role) records [] in
      loop-append (fold_step task_id role) records (r ∷ []) []
      ∙ fold_step_at task_id role rid r d e m
      ∙ fold_one_new rid r d (lacks-fold task_id role)

  -- Of two records of the new reservation, the last takes the place of the first.
  pub fold-append_two :
      (task_id role : String) (r u : LedgerRecord)
      → All
          (λ (x : LedgerRecord). (x.reservation_id ≡ some rid) × (is_for task_id role x ≡ true))
          (r ∷ u ∷ [])
      → r.timestamp ≤ u.timestamp
      → fold_by_reservation (records ++ r ∷ u ∷ []) task_id role
        ≡ fold_by_reservation records task_id role ++ (rid, u) ∷ []
  unfolding fold_by_reservation loop
  fold-append_two task_id role r u h t =
      let hr = h.0 in
      let hu = h.1.0 in
      let d = loop (fold_step task_id role) records [] in
      let l = lacks-fold task_id role in
      loop-append (fold_step task_id role) records (r ∷ u ∷ []) []
      ∙ ap (fold_step task_id role u)
          (fold_step_at task_id role rid r d hr.0 hr.1 ∙ fold_one_new rid r d l)
      ∙ fold_step_at task_id role rid u (d ++ (rid, r) ∷ []) hu.0 hu.1
      ∙ fold_one_last rid r u d l t

  -- Of three records of the new reservation, the last takes the place of the others.
  pub fold-append_three :
      (task_id role : String) (r u f : LedgerRecord)
      → All
          (λ (x : LedgerRecord). (x.reservation_id ≡ some rid) × (is_for task_id role x ≡ true))
          (r ∷ u ∷ f ∷ [])
      → r.timestamp ≤ u.timestamp
      → u.timestamp ≤ f.timestamp
      → fold_by_reservation (records ++ r ∷ u ∷ f ∷ []) task_id role
        ≡ fold_by_reservation records task_id role ++ (rid, f) ∷ []
  unfolding fold_by_reservation loop
  fold-append_three task_id role r u f h t t' =
      let hr = h.0 in
      let hu = h.1.0 in
      let hf = h.1.1.0 in
      let d = loop (fold_step task_id role) records [] in
      let l = lacks-fold task_id role in
      let one = fold_step_at task_id role rid r d hr.0 hr.1 ∙ fold_one_new rid r d l in
      let two =
        ap (fold_step task_id role u) one
        ∙ fold_step_at task_id role rid u (d ++ (rid, r) ∷ []) hu.0 hu.1
        ∙ fold_one_last rid r u d l t in
      loop-append (fold_step task_id role) records (r ∷ u ∷ f ∷ []) []
      ∙ ap (fold_step task_id role f) two
      ∙ fold_step_at task_id role rid f (d ++ (rid, u) ∷ []) hf.0 hf.1
      ∙ fold_one_last rid u f d l t'

pub count_if-append {ℓ} :
    {A : Type ℓ} (p : A → Bool) (xs ys : List A)
    → count_if p (xs ++ ys) ≡ count_if p xs + count_if p ys
count_if-append p [] ys = ground arith
count_if-append p (x ∷ xs) ys = ground (arith, count_if-append p xs ys)
