-- ===== src/Broker/Histories.antt =====
-- The history of reservations in the ledger of scripts/model-call-broker.py across a call of `execute`.
use ai_coding_workflow.Prelude.{
  ℕ, ◌≤◌, String, ◌≡◌, refl, sym, ◌∙◌, ap, subst, Bool, true, false, Option, none, some,
  Option-cases, inl, inr, Bool-cases, List, [], ◌∷◌, ◌++◌, map, leb, if◌then◌else◌, arith, Dict,
  dict_get, dict_put, lacks, dict_put_new, dict_put_last, dict_get_last, ok, Result-cases,
  >>=-eq-ok,
}
use ai_coding_workflow.Broker.Ledger.{
  CallState, reserved, running, succeeded, failed, cancelled, diagnostic, LedgerRecord, loop,
  group_step, group_one, items_of, check_groups, check_states, check_transitions, valid_transition,
  sort_by_time, insert_by_time, validate_ledger_history, is_diagnostic,
}
use ai_coding_workflow.Broker.Checks.{Plan, Request, allocate_reservation}
use ai_coding_workflow.Broker.Execution.{
  Exit, Point, before_reserved, after_reserved, before_running, after_running, in_command,
  before_final, after_final, fail_record, HandlerPoint, before_repair, before_last_repair,
  after_repair, HandlerFault, Fault, Times, restate, final_state, admit, execute,
}
use ai_coding_workflow.Broker.Folding.{IsFreshId, loop-append, lacks-groups}
use ai_coding_workflow.Broker.Written.{
  append_nil, written, after_handler, stop_final, final_state_final, execute-written, is_final,
}

-- Groups that pass still pass with one more that does.
check_groups-append :
    (d : Dict (List LedgerRecord)) (rid : String) (rs : List LedgerRecord)
    → check_groups d ≡ ok tt
    → check_states rid (map (λ (r : LedgerRecord). r.state) (sort_by_time rs)) ≡ ok tt
    → check_groups (d ++ (rid, rs) ∷ []) ≡ ok tt
unfolding check_groups
check_groups-append [] rid rs h k = rw k refl
check_groups-append ((j, qs) ∷ d) rid rs h k =
    let (_, h', h'') =
      >>=-eq-ok (check_states j (map (λ (r : LedgerRecord). r.state) (sort_by_time qs)))
        (λ _. check_groups d) h in
    rw h' (check_groups-append d rid rs h'' k)

lacks-eq-none : {V : Type 0} (k : String) (d : Dict V) → lacks k d ≡ true → dict_get k d ≡ none
lacks-eq-none k d h = elim (Option-cases (dict_get k d)) [
  | inl e ↦ e
  | inr (v, e) ↦ absurd (ground arith)
]

module _ (rid : String) (d : Dict (List LedgerRecord)) (l : lacks rid d ≡ true) where
  group_first :
      (r : LedgerRecord)
      → r.reservation_id ≡ some rid
      → is_diagnostic r.state ≡ false
      → group_step r d ≡ d ++ (rid, r ∷ []) ∷ []
  unfolding group_step
  group_first r e n =
      ap (λ b. if b then d else group_one r.reservation_id r d) n
      ∙ ap (λ o. group_one o r d) e
      ∙ ap (λ o. dict_put rid (items_of o ++ r ∷ []) d) (lacks-eq-none rid d l)
      ∙ dict_put_new rid (r ∷ []) d l

  group_next :
      (r : LedgerRecord) (rs : List LedgerRecord)
      → r.reservation_id ≡ some rid
      → is_diagnostic r.state ≡ false
      → group_step r (d ++ (rid, rs) ∷ []) ≡ d ++ (rid, rs ++ r ∷ []) ∷ []
  unfolding group_step
  group_next r rs e n =
      let g = d ++ (rid, rs) ∷ [] in
      ap (λ b. if b then g else group_one r.reservation_id r g) n
      ∙ ap (λ o. group_one o r g) e
      ∙ ap (λ o. dict_put rid (items_of o ++ r ∷ []) g) (dict_get_last rid rs d l)
      ∙ dict_put_last rid (rs ++ r ∷ []) rs d l

sorted_three :
    (r u f : LedgerRecord)
    → r.timestamp ≤ u.timestamp
    → u.timestamp ≤ f.timestamp
    → sort_by_time (r ∷ u ∷ f ∷ []) ≡ r ∷ u ∷ f ∷ []
unfolding sort_by_time insert_by_time
sorted_three r u f t t' =
    let a : leb u.timestamp f.timestamp ≡ true = ground arith in
    let b : leb r.timestamp u.timestamp ≡ true = ground arith in rw (a, b) refl

sorted_two :
    (r u : LedgerRecord) → r.timestamp ≤ u.timestamp → sort_by_time (r ∷ u ∷ []) ≡ r ∷ u ∷ []
unfolding sort_by_time insert_by_time
sorted_two r u t = let b : leb r.timestamp u.timestamp ≡ true = ground arith in rw b refl

final_transition : (s : CallState) → is_final s ≡ true → valid_transition running s ≡ true
unfolding valid_transition
final_transition reserved h = cc
final_transition running h = cc
final_transition succeeded h = refl
final_transition failed h = refl
final_transition cancelled h = refl
final_transition diagnostic h = cc

module _ (rid : String) (records : List LedgerRecord) (fresh : IsFreshId rid records)
    (valid : validate_ledger_history records ≡ ok tt) (r : LedgerRecord)
    (e : r.reservation_id ≡ some rid) (n : r.state ≡ reserved) where
  one_valid : validate_ledger_history (records ++ r ∷ []) ≡ ok tt
  unfolding validate_ledger_history loop check_states check_transitions sort_by_time insert_by_time
  one_valid =
      let d = loop group_step records [] in
      let l = lacks-groups rid records fresh in
      ap check_groups
        (loop-append group_step records (r ∷ []) [] ∙ group_first rid d l r e (ap is_diagnostic n))
      ∙ check_groups-append d rid (r ∷ []) valid (simp n)

  two_valid :
      (t : ℕ)
      → r.timestamp ≤ t
      → validate_ledger_history (records ++ r ∷ restate r running t ∷ []) ≡ ok tt
  unfolding validate_ledger_history loop check_states check_transitions valid_transition
  two_valid t a =
      let d = loop group_step records [] in
      let l = lacks-groups rid records fresh in
      let u = restate r running t in
      ap check_groups (
        loop-append group_step records (r ∷ u ∷ []) []
        ∙ ap (group_step u) (group_first rid d l r e (ap is_diagnostic n))
        ∙ group_next rid d l u (r ∷ []) e refl)
      ∙ check_groups-append d rid (r ∷ u ∷ []) valid (simp (sorted_two r u a, n))

  three_valid :
      (s : CallState) (t v : ℕ)
      → is_final s ≡ true
      → r.timestamp ≤ t
      → t ≤ v
      → validate_ledger_history (records ++ r ∷ restate r running t ∷ restate r s v ∷ []) ≡ ok tt
  unfolding validate_ledger_history loop check_states check_transitions
  three_valid s t v f a b =
      let d = loop group_step records [] in
      let l = lacks-groups rid records fresh in
      let u = restate r running t in
      let z = restate r s v in
      ap check_groups (
        loop-append group_step records (r ∷ u ∷ z ∷ []) []
        ∙ ap (λ g. group_step z (group_step u g)) (group_first rid d l r e (ap is_diagnostic n))
        ∙ ap (group_step z) (group_next rid d l u (r ∷ []) e refl)
        ∙ group_next rid d l z (r ∷ u ∷ []) e (ground arith))
      ∙ check_groups-append d rid (r ∷ u ∷ z ∷ []) valid
          (simp (sorted_three r u z a b, n, final_transition s f))

-- The clock does not run back between the appends of a call.
abbrev pub IsOrdered : Times → Type 0
IsOrdered times = (times.reserved_at ≤ times.running_at) × (times.running_at ≤ times.final_at)

-- A property of ledgers holds after a call when it holds of the ledger with nothing written, with the
-- reservation alone, with its record `running` too, and with its three records.
pub written_cases {ℓ} :
    (P : List LedgerRecord → Type ℓ) (r : LedgerRecord) (times : Times) (exit : Exit)
    (fault : Option Fault)
    → P []
    → P (r ∷ [])
    → P (r ∷ restate r running times.running_at ∷ [])
    → ((s : CallState)
        → is_final s ≡ true
        → P (r ∷ restate r running times.running_at ∷ restate r s times.final_at ∷ []))
    → P (written r times exit fault)
written_cases P r times exit none a b c d = d (final_state exit) (final_state_final exit)
written_cases P r times exit (some fault) a b c d =
    at_point fault.point fault.by_signal fault.in_handler
  where
    u : LedgerRecord
    u = restate r running times.running_at

    stopped : (x : Bool) → P (r ∷ u ∷ fail_record u x times.final_at ∷ [])
    stopped x = d (if x then cancelled else failed) (stop_final x)

    in_handler :
        (p : HandlerPoint) (y x : Bool) (is_running : Bool)
        → P (
            after_handler
              (some (record { point = p; by_signal = y }))
              r
              u
              (fail_record u x times.final_at)
              is_running)
    in_handler before_repair y x true = c
    in_handler before_repair y x false = b
    in_handler before_last_repair y x is_running = c
    in_handler after_repair y x is_running = stopped x

    handled :
        (k : Option HandlerFault) (x : Bool) (is_running : Bool)
        → P (after_handler k r u (fail_record u x times.final_at) is_running)
    handled none x is_running = stopped x
    handled (some k) x is_running = in_handler k.point k.by_signal x is_running

    at_point :
        (p : Point) (x : Bool) (k : Option HandlerFault)
        → P (written r times exit (some (record { point = p; by_signal = x; in_handler = k })))
    at_point before_reserved x k = a
    at_point after_reserved x k = b
    at_point before_running x k = handled k x false
    at_point after_running x k = handled k x true
    at_point in_command x k = handled k x true
    at_point before_final x k = handled k x true
    at_point after_final x k = d (final_state exit) (final_state_final exit)

-- A call under an id that no record of the ledger names keeps the history of the ledger valid,
-- whether it is refused, is a dry run, ends, or is stopped at any point by an exception or a signal,
-- in its handler too. The clock does not run back during the call.
pub execute_keeps_history :
    (ledger : List LedgerRecord) (plan : Plan) (q : Request) (dry_run : Bool) (times : Times)
    (exit : Exit) (fault : Option Fault)
    → IsFreshId q.reservation_id ledger
    → IsOrdered times
    → validate_ledger_history ledger ≡ ok tt
    → validate_ledger_history (execute ledger plan q dry_run times exit fault).ledger ≡ ok tt
unfolding execute allocate_reservation
execute_keeps_history ledger plan q dry_run times exit fault fresh o h =
    elim (Result-cases (admit ledger plan q)) [
      | inr (e, w) ↦ rw w h
      | inl (_, w) ↦ elim (Bool-cases dry_run) [
        | inl d ↦ rw (w, d) h
        | inr d ↦
            let r = allocate_reservation ledger plan q times.reserved_at in
            let after =
              written_cases (λ new. validate_ledger_history (ledger ++ new) ≡ ok tt) r times exit
                fault (subst (λ l. validate_ledger_history l ≡ ok tt) (sym (append_nil ledger)) h)
                (one_valid q.reservation_id ledger fresh h r refl refl)
                (two_valid q.reservation_id ledger fresh h r refl refl times.running_at o.0)
                (λ s f.
                  three_valid q.reservation_id ledger fresh h r refl refl s times.running_at
                    times.final_at f o.0 o.1) in
            subst
              (λ b.
                validate_ledger_history (execute ledger plan q b times exit fault).ledger ≡ ok tt)
              (sym d)
              (ap validate_ledger_history (execute-written ledger plan q times exit fault w)
                ∙ after)
      ]
    ]
