-- ===== src/WorkflowState/Replay.antt =====
-- Replaying the event log (scripts/workflow_state.py) rebuilds the state that
-- scripts/apply-workflow-delta.py wrote.
use ai_coding_workflow.Prelude.{
  ℕ, suc, String, ◌≡◌, refl, List, [], ◌∷◌, ◌++◌, str_eq_refl, ok, ◌>>=◌, >>=-eq-ok, arith, inl,
  inr, Result-cases,
}
use ai_coding_workflow.WorkflowState.Model.{State, Event, Hashing}
use ai_coding_workflow.WorkflowState.Mutation.{apply_mutation}
use ai_coding_workflow.WorkflowState.Chain.{
  stamp, finalize_transition, replay_rest, initial_state, replay_events, apply_event, replay_event,
  apply_events, apply_delta, Delta, DeltaEvent,
}

module _ (hashing : Hashing) where
  replay_rest-append :
      (current : State) (xs ys : List Event)
      → replay_rest hashing current (xs ++ ys)
        ≡ (replay_rest hashing current xs >>= λ s. replay_rest hashing s ys)
  unfolding replay_rest
  replay_rest-append current [] ys = refl
  replay_rest-append current (x ∷ xs) ys = elim (Result-cases (replay_event hashing current x)) [
    | inl (next, e) ↦ rw e (replay_rest-append next xs ys)
    | inr (error, e) ↦ rw e
  ]

  -- An event that `apply_delta` has written replays to the state that it reached.
  replay_event-apply_event :
      (actor timestamp : String) (current : State) (mutation : DeltaEvent) (step : State × Event)
      → apply_event hashing actor timestamp current mutation ≡ ok step
      → replay_event hashing current step.1 ≡ ok step.0
  unfolding apply_event replay_event finalize_transition
  replay_event-apply_event actor timestamp current mutation step h =
      elim (Result-cases (apply_mutation current mutation.event_type mutation.payload.fields)) [
        | inl (mutated, e) ↦ ground (
          arith,
          str_eq_refl current.state_id,
          str_eq_refl (stamp hashing current mutated).state_id,
        )
        | inr (error, e) ↦ ground arith
      ]

  replay_rest-apply_events :
      (actor : String) (now : ℕ → String) (i : ℕ) (current : State) (mutations : List DeltaEvent)
      (done : State × List Event)
      → apply_events hashing actor now i current mutations ≡ ok done
      → replay_rest hashing current done.1 ≡ ok done.0
  unfolding apply_events replay_rest
  replay_rest-apply_events actor now i current [] done h = ground arith
  replay_rest-apply_events actor now i current (mutation ∷ mutations) done h =
      let (step, e, h') = >>=-eq-ok (apply_event hashing actor (now i) current mutation) _ h in
      let (rest, e', h'') =
        >>=-eq-ok (apply_events hashing actor now (suc i) step.0 mutations) _ h' in
      ground (
        arith,
        replay_event-apply_event actor (now i) current mutation step e,
        replay_rest-apply_events actor now (suc i) step.0 mutations rest e',
      )

  replay_events-append :
      (log events : List Event) (s : State)
      → replay_events hashing log ≡ ok s
      → replay_events hashing (log ++ events) ≡ replay_rest hashing s events
  unfolding replay_events
  replay_events-append [] events s h = cc
  replay_events-append (first ∷ rest) events s h =
      elim (Result-cases (initial_state hashing first.payload.initial_state)) [
        | inl (current, e) ↦ ground (arith, replay_rest-append current rest events)
        | inr (error, e) ↦ ground arith
      ]

  -- If the event log replays to the current state and `apply_delta` accepts a delta, then the log
  -- that it writes replays to exactly the state that it writes.
  pub replay_events-apply_delta :
      (state : State) (log : List Event) (delta : Delta) (actor : String) (now : ℕ → String)
      (done : State × List Event)
      → replay_events hashing log ≡ ok state
      → apply_delta hashing state log delta actor now ≡ ok done
      → replay_events hashing done.1 ≡ ok done.0
  unfolding apply_delta
  replay_events-apply_delta state log delta actor now done r h =
      elim (Result-cases (apply_events hashing actor now 0 state delta.events)) [
        | inl (reached, e) ↦ ground (
          arith,
          replay_events-append log reached.1 state r,
          replay_rest-apply_events actor now 0 state delta.events reached e,
        )
        | inr (error, e) ↦ ground arith
      ]
