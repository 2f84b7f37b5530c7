-- ===== src/Hypotheses/Synchrony.antt =====
-- What a rejection by scripts/update-hypothesis-ledger.py leaves in the ledger's file.
use ai_coding_workflow.Prelude.{
  String, ◌≡◌, refl, subst, true, not, ◌&&◌, Bool-cases, inl, inr, Option, none, some, List, [],
  ◌∷◌, any, is_empty, is_digest, note, All, All-append, arith, Result, ok, err, >>=-eq-ok,
  raise_if->>-eq-ok, ok-injective, append-eq-nil, is_empty-eq-nil,
}
use ai_coding_workflow.WorkflowState.Model.{
  State, Event, EventType, hypothesis_rejected, Hypothesis, Payload, Hashing, not_digest,
}
use ai_coding_workflow.WorkflowState.Mutation.{apply_mutation}
use ai_coding_workflow.WorkflowState.Validation.{validate_state, validate_event}
use ai_coding_workflow.WorkflowState.Chain.{finalize_transition}
use ai_coding_workflow.Hypotheses.Model.{
  RevisitEvent, HypothesisLedger, statement_digest, validate_ledger,
}
use ai_coding_workflow.Hypotheses.Operations.{RejectInput}
use ai_coding_workflow.Hypotheses.Ledger.{add_rejected_item}
use ai_coding_workflow.Hypotheses.Command.{
  Store, CommandError, invalid_state, invalid_transition, conflicting_hypothesis, ledger_error, Run,
  state_hypothesis, is_rejection, rejected_state_id, state_payload, conflicts, lift_state,
  persist_state_transition, reject_in_state, check_rejection, reject_in_ledger, update_reject,
}
use ai_coding_workflow.Hypotheses.Searching.{rejects}
use ai_coding_workflow.Hypotheses.Blocking.{add_rejected_item-any}
use ai_coding_workflow.Hypotheses.Validity.{add_rejected_item-valid}

-- The events name states by digests.
abbrev pub AreDigests : List Event → Type 0
AreDigests es = All (λ (e : Event). is_digest e.new_state_id ≡ true) es

rejected_state_id-digest :
    (es : List Event) (id fallback : String)
    → AreDigests es
    → is_digest fallback ≡ true
    → is_digest (rejected_state_id es id fallback) ≡ true
unfolding rejected_state_id
rejected_state_id-digest [] id fallback a f = f
rejected_state_id-digest (e ∷ es) id fallback a f = elim (Bool-cases (is_rejection id e)) [
  | inl b ↦ rw b (rejected_state_id-digest es id e.new_state_id a.1 a.0)
  | inr b ↦ rw b (rejected_state_id-digest es id fallback a.1 f)
]

module _ (hashing : Hashing) where
  state_id-digest : (s : State) → validate_state hashing true s ≡ [] → is_digest s.state_id ≡ true
  unfolding validate_state
  state_id-digest s h =
      let (d, _) = append-eq-nil (note (not (is_digest s.state_id)) (not_digest "state_id")) _ h in
      ground arith

  persist-digests :
      (s : State) (es : List Event) (t : EventType) (p : Payload) (actor timestamp : String)
      (out : State × List Event)
      → AreDigests es
      → persist_state_transition hashing s es t p actor timestamp ≡ ok out
      → (is_digest out.0.state_id ≡ true) × AreDigests out.1
  unfolding persist_state_transition finalize_transition
  persist-digests s es t p actor timestamp out a h =
      let (m, e, h1) = >>=-eq-ok (lift_state (apply_mutation s t p.fields)) _ h in
      let f = finalize_transition hashing s m actor t p timestamp in
      let (v, h2) =
        raise_if->>-eq-ok
          (not
            (is_empty (validate_state hashing true f.0) && is_empty (validate_event hashing f.1)))
          invalid_transition _ h1 in
      let valid : validate_state hashing true f.0 ≡ [] =
        is_empty-eq-nil (validate_state hashing true f.0) (ground arith) in
      let digest = state_id-digest f.0 valid in
      subst (λ (o : State × List Event). (is_digest o.0.state_id ≡ true) × AreDigests o.1)
        (ok-injective h2)
        (
          digest,
          All-append (λ (e : Event). is_digest e.new_state_id ≡ true) es (f.1 ∷ []) a (digest, tt),
        )

  reject_in_state-digests :
      (s : State) (es : List Event) (v : RejectInput) (actor timestamp : String)
      (out : State × List Event)
      → AreDigests es
      → is_digest s.state_id ≡ true
      → reject_in_state hashing s es v actor timestamp ≡ ok out
      → (is_digest out.0.state_id ≡ true) × AreDigests out.1
  unfolding reject_in_state
  reject_in_state-digests s es v actor timestamp out a d h =
      let (c, h1) =
        raise_if->>-eq-ok (conflicts (state_hypothesis s.rejected_hypotheses v.id) v)
          conflicting_hypothesis _ h in
      one (state_hypothesis s.rejected_hypotheses v.id) h1
    where
      one :
          (existing : Option Hypothesis)
          → elim existing [
            | none ↦
                persist_state_transition hashing s es hypothesis_rejected
                  (state_payload v)
                  actor
                  timestamp
            | some h ↦ ok (s, es)
          ]
            ≡ ok out
          → (is_digest out.0.state_id ≡ true) × AreDigests out.1
      one none h =
          persist-digests s es hypothesis_rejected (state_payload v) actor timestamp out a h
      one (some x) h =
          subst (λ (o : State × List Event). (is_digest o.0.state_id ≡ true) × AreDigests o.1)
            (ok-injective h) (d, a)

  module _ (normalize_statement sha256 : String → String) (event_digest : RevisitEvent → String)
      (ledger_digest : HypothesisLedger → String) where
    -- What stands in the ledger's file after a run: with an error, what was there; otherwise a valid
    -- ledger with the rejection.
    abbrev LeavesFile : Store → RejectInput → Option HypothesisLedger → Option CommandError → Type 0
    LeavesFile st v ledger (some e) = ledger ≡ st.ledger
    LeavesFile st v ledger none =
        (l : HypothesisLedger) × (ledger ≡ some l)
        × (validate_ledger normalize_statement sha256 event_digest ledger_digest l ≡ [])
        × ((key : String)
            → statement_digest normalize_statement sha256 v.statement ≡ some key
            → any (rejects v.id key) l.items ≡ true)

    abbrev Leaves : Store → RejectInput → Run → Type 0
    Leaves st v r = LeavesFile st v r.store.ledger r.error

    reject_in_ledger-Leaves :
        ((l : HypothesisLedger) → is_digest (ledger_digest l) ≡ true)
        → (st : Store) (l : HypothesisLedger) (v : RejectInput)
          (out : Result CommandError (State × List Event))
        → ((o : State × List Event) → out ≡ ok o → (is_digest o.0.state_id ≡ true) × AreDigests o.1)
        → Leaves st v (
            reject_in_ledger hashing normalize_statement sha256 event_digest ledger_digest st l v
              out)
    reject_in_ledger-Leaves digests st l v (err e) g = refl
    reject_in_ledger-Leaves digests st l v (ok (s, es)) g =
        one
          (add_rejected_item normalize_statement sha256 event_digest ledger_digest l v
            (rejected_state_id es v.id s.state_id))
          refl
      where
        one :
            (r : Result _ HypothesisLedger)
            → add_rejected_item normalize_statement sha256 event_digest ledger_digest l v
                (rejected_state_id es v.id s.state_id)
              ≡ r
            → Leaves st v (elim r [
              | ok l' ↦ record {
                store = record { state = s; events = es; ledger = some l' };
                error = none;
              }
              | err e ↦ record {
                store = record { state = s; events = es; ledger = st.ledger };
                error = some (ledger_error e);
              }
            ])
        one (err e) h = refl
        one (ok l') h =
            let (d, a) = g (s, es) refl in
            let source = rejected_state_id-digest es v.id s.state_id a d in
            (
              l',
              refl,
              add_rejected_item-valid normalize_statement sha256 event_digest ledger_digest digests
                  l l' v (rejected_state_id es v.id s.state_id) source h,
              (add_rejected_item-any normalize_statement sha256 event_digest ledger_digest l l' v
                  (rejected_state_id es v.id s.state_id) h).0,
            )

    check_rejection-digest :
        (st : Store) (v : RejectInput) (l : HypothesisLedger)
        → check_rejection hashing normalize_statement sha256 event_digest ledger_digest st v ≡ ok l
        → is_digest st.state.state_id ≡ true
    unfolding check_rejection
    check_rejection-digest st v l h =
        let (valid, _) =
          raise_if->>-eq-ok (not (is_empty (validate_state hashing true st.state))) invalid_state _
            h in
        state_id-digest st.state
          (is_empty-eq-nil (validate_state hashing true st.state) (ground arith))

    update_reject-Leaves :
        ((l : HypothesisLedger) → is_digest (ledger_digest l) ≡ true)
        → (st : Store) (v : RejectInput) (actor timestamp : String) → AreDigests st.events
        → Leaves st v (
            update_reject hashing normalize_statement sha256 event_digest ledger_digest st v actor
              timestamp)
    unfolding update_reject
    update_reject-Leaves digests st v actor timestamp a =
        one (check_rejection hashing normalize_statement sha256 event_digest ledger_digest st v)
          refl
      where
        one :
            (r : Result CommandError HypothesisLedger)
            → check_rejection hashing normalize_statement sha256 event_digest ledger_digest st v ≡ r
            → Leaves st v (elim r [
              | err e ↦ record { store = st; error = some e }
              | ok l ↦
                  reject_in_ledger hashing normalize_statement sha256 event_digest ledger_digest st
                    l v
                    (reject_in_state hashing st.state st.events v actor timestamp)
            ])
        one (err e) h = refl
        one (ok l) h =
            reject_in_ledger-Leaves digests st l v
              (reject_in_state hashing st.state st.events v actor timestamp)
              λ o e.
                reject_in_state-digests st.state st.events v actor timestamp o a
                  (check_rejection-digest st v l h) e

    -- A rejection that ends without an error leaves a valid ledger in which its statement is rejected
    -- under its id, where ledger ids are digests and the events of the log name states by digests.
    pub update_reject_succeeds :
        ((l : HypothesisLedger) → is_digest (ledger_digest l) ≡ true)
        → (st : Store) (v : RejectInput) (actor timestamp key : String) → AreDigests st.events
        → statement_digest normalize_statement sha256 v.statement ≡ some key
        → (update_reject hashing normalize_statement sha256 event_digest ledger_digest st v actor
            timestamp).error
          ≡ none
        → (l : HypothesisLedger) × ((update_reject hashing normalize_statement sha256 event_digest
              ledger_digest st v actor timestamp).store.ledger
            ≡ some l)
          × (validate_ledger normalize_statement sha256 event_digest ledger_digest l ≡ [])
          × (any (rejects v.id key) l.items ≡ true)
    update_reject_succeeds digests st v actor timestamp key a k h =
        let r =
          update_reject hashing normalize_statement sha256 event_digest ledger_digest st v actor
            timestamp in
        let (l, f, w, g) =
          subst (LeavesFile st v r.store.ledger) h
            (update_reject-Leaves digests st v actor timestamp a) in
        (l, f, w, g key k)

    -- A rejection that ends in an error leaves the ledger's file as it was, though the state may have
    -- the hypothesis already.
    pub update_reject_fails :
        ((l : HypothesisLedger) → is_digest (ledger_digest l) ≡ true)
        → (st : Store) (v : RejectInput) (actor timestamp : String) (e : CommandError)
        → AreDigests st.events
        → (update_reject hashing normalize_statement sha256 event_digest ledger_digest st v actor
            timestamp).error
          ≡ some e
        → (update_reject hashing normalize_statement sha256 event_digest ledger_digest st v actor
            timestamp).store.ledger
          ≡ st.ledger
    update_reject_fails digests st v actor timestamp e a h =
        let r =
          update_reject hashing normalize_statement sha256 event_digest ledger_digest st v actor
            timestamp in
        subst (LeavesFile st v r.store.ledger) h
          (update_reject-Leaves digests st v actor timestamp a)
