-- ===== src/Broker/Written.antt =====
-- The records that a call of `execute` of scripts/model-call-broker.py adds to the ledger, for every point
-- at which an exception or a signal may arrive.
use ai_coding_workflow.Prelude.{
  ℕ, String, ◌≡◌, refl, sym, ◌∙◌, ap, Bool, true, false, Option, none, some, inl, inr, Bool-cases,
  List, [], ◌∷◌, ◌++◌, ◌&&◌, str_eq_refl, if◌then◌else◌, arith, ok,
}
use ai_coding_workflow.Broker.Ledger.{
  CallState, reserved, running, succeeded, failed, cancelled, diagnostic, LedgerRecord, is_value,
}
use ai_coding_workflow.Broker.Checks.{Plan, Request, allocate_reservation}
use ai_coding_workflow.Broker.Execution.{
  Exit, Point, before_reserved, after_reserved, before_running, after_running, in_command,
  before_final, after_final, Fault, Times, restate, final_state, is_success, last_state,
  fail_record, recover, repairs, cut, HandlerPoint, before_repair, before_last_repair, after_repair,
  HandlerFault, is_guarded, run_reservation, admit, execute, after_checks,
}

-- The records that a run of a reservation adds to the ledger, where the handler may be stopped.
abbrev pub after_handler :
    Option HandlerFault → LedgerRecord → LedgerRecord → LedgerRecord → Bool → List LedgerRecord
after_handler none r u f is_running = r ∷ u ∷ f ∷ []
after_handler (some fault) r u f is_running = elim fault.point [
  | before_repair ↦ if is_running then r ∷ u ∷ [] else r ∷ []
  | before_last_repair ↦ r ∷ u ∷ []
  | after_repair ↦ r ∷ u ∷ f ∷ []
]

abbrev pub written : LedgerRecord → Times → Exit → Option Fault → List LedgerRecord
written r times exit none =
    r ∷ restate r running times.running_at ∷ restate r (final_state exit) times.final_at ∷ []
written r times exit (some fault) =
    let u = restate r running times.running_at in
    let stopped = fail_record u fault.by_signal times.final_at in
    elim fault.point [
      | before_reserved ↦ []
      | after_reserved ↦ r ∷ []
      | before_running ↦ after_handler fault.in_handler r u stopped false
      | after_final ↦ r ∷ u ∷ restate r (final_state exit) times.final_at ∷ []
      | _ ↦ after_handler fault.in_handler r u stopped true
    ]

pub last_state-append :
    (xs ys : List LedgerRecord) (rid : String) (s : CallState)
    → last_state ys rid ≡ some s
    → last_state (xs ++ ys) rid ≡ some s
unfolding last_state
last_state-append [] ys rid s h = h
last_state-append (x ∷ xs) ys rid s h = rw (last_state-append xs ys rid s h) refl

abbrev pub is_final : CallState → Bool
is_final succeeded = true
is_final failed = true
is_final cancelled = true
is_final _ = false

pub final_state_final : (exit : Exit) → is_final (final_state exit) ≡ true
final_state_final exit = elim (Bool-cases (is_success exit)) [ inl e ↦ rw e | inr e ↦ rw e ]

module _ (rid : String) (r : LedgerRecord) (own : is_value r.reservation_id rid ≡ true) where
  last_one : last_state (r ∷ []) rid ≡ some r.state
  unfolding last_state
  last_one = ground arith

  last_two : (s : CallState) (t : ℕ) → last_state (r ∷ restate r s t ∷ []) rid ≡ some s
  unfolding last_state
  last_two s t = ground arith

  pub last_three :
      (s z : CallState) (t v : ℕ) → last_state (r ∷ restate r s t ∷ restate r z v ∷ []) rid ≡ some z
  unfolding last_state
  last_three s z t v = ground arith

  -- The handler acts on the last record of the reservation.
  recover_at :
      (ledger new : List LedgerRecord) (s : CallState) (u : LedgerRecord) (b : Bool) (t : ℕ)
      (h : Option HandlerFault)
      → last_state new rid ≡ some s
      → recover (ledger ++ new) rid u b t h ≡ ledger ++ new ++ cut h (repairs (some s) u b t)
  unfolding recover
  recover_at ledger new s u b t h e =
      ap (λ o. ledger ++ new ++ cut h (repairs o u b t)) (last_state-append ledger new rid s e)

pub append_nil : (xs : List LedgerRecord) → xs ++ [] ≡ xs
append_nil [] = refl
append_nil (x ∷ xs) = rw (append_nil xs)

append_assoc : (xs ys zs : List LedgerRecord) → (xs ++ ys) ++ zs ≡ xs ++ (ys ++ zs)
append_assoc [] ys zs = refl
append_assoc (x ∷ xs) ys zs = rw (append_assoc xs ys zs)

cut_nil : (h : Option HandlerFault) → cut h [] ≡ []
cut_nil none = refl
cut_nil (some fault) = at_point fault.point fault.by_signal
  where
    at_point :
        (p : HandlerPoint) (b : Bool) → cut (some (record { point = p; by_signal = b })) [] ≡ []
    at_point before_repair b = refl
    at_point before_last_repair b = refl
    at_point after_repair b = refl

no_repairs :
    (s : CallState) (u : LedgerRecord) (b : Bool) (t : ℕ)
    → is_final s ≡ true
    → repairs (some s) u b t ≡ []
no_repairs reserved u b t h = cc
no_repairs running u b t h = cc
no_repairs succeeded u b t h = refl
no_repairs failed u b t h = refl
no_repairs cancelled u b t h = refl
no_repairs diagnostic u b t h = cc

repaired_reserved :
    (h : Option HandlerFault) (r u f : LedgerRecord)
    → r ∷ cut h (u ∷ f ∷ []) ≡ after_handler h r u f false
repaired_reserved none r u f = refl
repaired_reserved (some fault) r u f = at_point fault.point fault.by_signal
  where
    at_point :
        (p : HandlerPoint) (b : Bool)
        → r ∷ cut (some (record { point = p; by_signal = b })) (u ∷ f ∷ [])
          ≡ after_handler (some (record { point = p; by_signal = b })) r u f false
    at_point before_repair b = refl
    at_point before_last_repair b = refl
    at_point after_repair b = refl

repaired_running :
    (h : Option HandlerFault) (r u f : LedgerRecord)
    → r ∷ u ∷ cut h (f ∷ []) ≡ after_handler h r u f true
repaired_running none r u f = refl
repaired_running (some fault) r u f = at_point fault.point fault.by_signal
  where
    at_point :
        (p : HandlerPoint) (b : Bool)
        → r ∷ u ∷ cut (some (record { point = p; by_signal = b })) (f ∷ [])
          ≡ after_handler (some (record { point = p; by_signal = b })) r u f true
    at_point before_repair b = refl
    at_point before_last_repair b = refl
    at_point after_repair b = refl

-- The ledger of a run that is stopped at the point.
module _ (ledger : List LedgerRecord) (r : LedgerRecord) (rid : String) (times : Times)
    (exit : Exit) (b : Bool) (h : Option HandlerFault) (own : is_value r.reservation_id rid ≡ true)
    (e : r.state ≡ reserved) where
  abbrev u : LedgerRecord
  u = restate r running times.running_at

  abbrev f : LedgerRecord
  f = fail_record u b times.final_at

  stopped_running :
      recover (ledger ++ r ∷ u ∷ []) rid u b times.final_at h ≡ ledger ++ after_handler h r u f true
  stopped_running =
      recover_at rid r own ledger (r ∷ u ∷ []) running u b times.final_at h
        (last_two rid r own running times.running_at)
      ∙ append_assoc ledger (r ∷ u ∷ []) (cut h (f ∷ []))
      ∙ ap (ledger ++◌) (repaired_running h r u f)

  stopped_reserved :
      recover (ledger ++ r ∷ []) rid u b times.final_at h ≡ ledger ++ after_handler h r u f false
  stopped_reserved =
      recover_at rid r own ledger (r ∷ []) reserved u b times.final_at h
        (last_one rid r own ∙ ap some e)
      ∙ append_assoc ledger (r ∷ []) (cut h (u ∷ f ∷ []))
      ∙ ap (ledger ++◌) (repaired_reserved h r u f)

  stopped_final :
      (z : CallState)
      → is_final z ≡ true
      → recover (ledger ++ r ∷ u ∷ restate r z times.final_at ∷ []) rid u b times.final_at h
        ≡ ledger ++ r ∷ u ∷ restate r z times.final_at ∷ []
  stopped_final z k =
      let new = r ∷ u ∷ restate r z times.final_at ∷ [] in
      recover_at rid r own ledger new z u b times.final_at h
        (last_three rid r own running z times.running_at times.final_at)
      ∙ ap (λ rs. ledger ++ new ++ cut h rs) (no_repairs z u b times.final_at k)
      ∙ ap (ledger ++ new ++◌) (cut_nil h)
      ∙ append_nil (ledger ++ new)

  stopped_at :
      (p : Point)
      → (run_reservation ledger r rid times exit
          (some (record { point = p; by_signal = b; in_handler = h }))).ledger
        ≡ ledger
          ++ written r times exit (some (record { point = p; by_signal = b; in_handler = h }))
  unfolding run_reservation
  stopped_at before_reserved = sym (append_nil ledger)
  stopped_at after_reserved = refl
  stopped_at before_running = stopped_reserved
  stopped_at after_running = stopped_running
  stopped_at in_command = stopped_running
  stopped_at before_final = stopped_running
  stopped_at after_final = stopped_final (final_state exit) (final_state_final exit)

-- A run adds to the ledger the records that `written` names, at whatever point it is stopped.
pub run_reservation-written :
    (ledger : List LedgerRecord) (r : LedgerRecord) (rid : String) (times : Times) (exit : Exit)
    → is_value r.reservation_id rid ≡ true
    → r.state ≡ reserved
    → (fault : Option Fault)
    → (run_reservation ledger r rid times exit fault).ledger ≡ ledger ++ written r times exit fault
unfolding run_reservation
run_reservation-written ledger r rid times exit own e none = refl
run_reservation-written ledger r rid times exit own e (some fault) =
    stopped_at ledger r rid times exit fault.by_signal fault.in_handler own e fault.point

abbrev pub no_fault : Option HandlerFault → Bool
no_fault none = true
no_fault (some fault) = false

-- Either no exception arrives, or it arrives once the handler is in place, and none in the handler.
abbrev pub is_handled : Option Fault → Bool
is_handled none = true
is_handled (some fault) = is_guarded fault.point && no_fault fault.in_handler

pub stop_final : (b : Bool) → is_final (if b then cancelled else failed) ≡ true
stop_final true = refl
stop_final false = refl

-- A handled run writes three records, the last of them final.
pub written_three :
    (r : LedgerRecord) (times : Times) (exit : Exit) (fault : Option Fault)
    → is_handled fault ≡ true
    → (s : CallState) × (is_final s ≡ true)
      × (written r times exit fault
          ≡ r ∷ restate r running times.running_at ∷ restate r s times.final_at ∷ [])
written_three r times exit none h = (final_state exit, final_state_final exit, refl)
written_three r times exit (some fault) h = three fault.point fault.by_signal fault.in_handler h
  where
    three :
        (p : Point) (b : Bool) (k : Option HandlerFault)
        → (is_guarded p && no_fault k) ≡ true
        → (s : CallState) × (is_final s ≡ true)
          × (written r times exit (some (record { point = p; by_signal = b; in_handler = k }))
              ≡ r ∷ restate r running times.running_at ∷ restate r s times.final_at ∷ [])
    three before_reserved b k h = cc
    three after_reserved b k h = cc
    three after_final b k h = (final_state exit, final_state_final exit, refl)
    three p b (some k) h = absurd (ground arith)
    three before_running b none h = (_, stop_final b, refl)
    three after_running b none h = (_, stop_final b, refl)
    three in_command b none h = (_, stop_final b, refl)
    three before_final b none h = (_, stop_final b, refl)

-- The ledger after an admitted call.
pub execute-written :
    (ledger : List LedgerRecord) (plan : Plan) (q : Request) (times : Times) (exit : Exit)
    (fault : Option Fault)
    → admit ledger plan q ≡ ok tt
    → (execute ledger plan q false times exit fault).ledger
      ≡ ledger ++ written (allocate_reservation ledger plan q times.reserved_at) times exit fault
unfolding execute allocate_reservation
execute-written ledger plan q times exit fault h =
    ap (λ a. (after_checks a ledger plan q false times exit fault).ledger) h
    ∙ run_reservation-written ledger (allocate_reservation ledger plan q times.reserved_at)
        q.reservation_id times exit (str_eq_refl q.reservation_id) refl fault
