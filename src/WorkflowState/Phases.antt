-- ===== src/WorkflowState/Phases.antt =====
-- The phase of a workflow (PHASE_TRANSITIONS of scripts/workflow_state.py) along its event log.
use ai_coding_workflow.Prelude.{
  ◌≢◌, ◌≡◌, refl, ap, subst, ◌⊎◌, inl, inr, true, List, [], ◌∷◌, ◌++◌, ok, >>=-eq-ok, Result-cases,
  arith,
}
use ai_coding_workflow.Json.{Fields}
use ai_coding_workflow.WorkflowState.Model.{
  Phase, Phase-discrete, complete, review, planning, phase_transitions, EventType,
  state_initialized, State, Material, Event, Hashing,
}
use ai_coding_workflow.WorkflowState.Mutation.{apply_mutation, mutate, sort_lists}
use ai_coding_workflow.WorkflowState.Chain.{stamp, replay_event, replay_rest}

phase-mutate :
    (t : EventType) (p : Fields) (m m' : Material)
    → mutate t p m ≡ ok m'
    → (m'.phase ≡ m.phase) ⊎ (phase_transitions m.phase m'.phase ≡ true)
unfolding mutate
phase-mutate state_initialized p m m' h = ground arith
phase-mutate _ p m m' h = ground arith

phase-apply_mutation :
    (s : State) (t : EventType) (p : Fields) (s' : State)
    → apply_mutation s t p ≡ ok s'
    → (s'.phase ≡ s.phase) ⊎ (phase_transitions s.phase s'.phase ≡ true)
unfolding apply_mutation sort_lists
phase-apply_mutation s t p s' h = elim (Result-cases (mutate t p s.material)) [
  | inl (m, e) ↦ ground (arith, phase-mutate t p s.material m e)
  | inr (error, e) ↦ ground arith
]

-- The phases that a workflow can pass through.
data Reaches (from : Phase) : Phase → Type 0 where
  stay : Reaches from from
  move : {p q : Phase} → Reaches from p → phase_transitions p q ≡ true → Reaches from q

Reaches-first : {a b c : Phase} → phase_transitions a b ≡ true → Reaches b c → Reaches a c
Reaches-first h stay = move stay h
Reaches-first h (move r k) = move (Reaches-first h r) k

no_successor : (p q : Phase) → p ≡ complete → phase_transitions p q ≡ true → ⊥
unfolding phase_transitions
no_successor p q e k = ground arith

-- `complete` has no successor.
complete_final : {a b : Phase} → a ≡ complete → Reaches a b → b ≡ complete
complete_final e stay = e
complete_final e (move {p} {q} r k) = absurd (no_successor p q (complete_final e r) k)

-- From a phase between planning and review, one move leads to none of planning and complete.
between_moves :
    (p q : Phase)
    → p ≢ planning
    → p ≢ complete
    → p ≢ review
    → (q ≡ p) ⊎ (phase_transitions p q ≡ true)
    → (q ≢ planning) × (q ≢ complete)
unfolding phase_transitions
between_moves p q np nc nr (inl e) = (rw e np, rw e nc)
between_moves p q np nc nr (inr k) = (ground arith, ground arith)

module _ (hashing : Hashing) where
  phase-replay_event :
      (current : State) (event : Event) (next : State)
      → replay_event hashing current event ≡ ok next
      → (next.phase ≡ current.phase) ⊎ (phase_transitions current.phase next.phase ≡ true)
  unfolding replay_event stamp
  phase-replay_event current event next h =
      elim (Result-cases (apply_mutation current event.event_type event.payload.fields)) [
        | inl (mutated, e) ↦
            ground
              (arith, phase-apply_mutation current event.event_type event.payload.fields mutated e)
        | inr (error, e) ↦ ground arith
      ]

  -- A replay, event by event: the state after each is what `replay_event` makes of the state before,
  -- and its phase is the phase before or a successor of it in PHASE_TRANSITIONS.
  pub data Moves : State → List Event → State → Type 0 where
    done : {s : State} → Moves s [] s
    step :
        {current after last : State} {event : Event} {events : List Event}
        → replay_event hashing current event ≡ ok after
        → (after.phase ≡ current.phase) ⊎ (phase_transitions current.phase after.phase ≡ true)
        → Moves after events last
        → Moves current (event ∷ events) last

  -- Replaying events moves the phase only along PHASE_TRANSITIONS and by at most one transition for
  -- each event.
  pub replay_rest-Moves :
      (current : State) (events : List Event) (s : State)
      → replay_rest hashing current events ≡ ok s
      → Moves current events s
  unfolding replay_rest
  replay_rest-Moves current [] s h =
      let p : current ≡ s = cc in subst (λ t. Moves current [] t) p done
  replay_rest-Moves current (event ∷ events) s h =
      let (after, e, h') = >>=-eq-ok (replay_event hashing current event) _ h in
      step e (phase-replay_event current event after e) (replay_rest-Moves after events s h')

  Moves-Reaches :
      {current s : State} {events : List Event}
      → Moves current events s
      → Reaches current.phase s.phase
  Moves-Reaches done = stay
  Moves-Reaches (step e (inl same) m) = rw same at (Moves-Reaches m)
  Moves-Reaches (step e (inr legal) m) = Reaches-first legal (Moves-Reaches m)

  -- Once complete, a workflow stays complete, whatever events its log goes on with.
  pub complete_stays :
      (current : State) (events : List Event) (s : State)
      → current.phase ≡ complete
      → replay_rest hashing current events ≡ ok s
      → s.phase ≡ complete
  complete_stays current events s c h =
      complete_final c (Moves-Reaches (replay_rest-Moves current events s h))

  -- Some first part of the events replays to a state in the phase `review`.
  pub record VisitsReview (current : State) (events : List Event) : Type 0 where
    pub before : List Event
    pub after : List Event
    pub reached : State
    pub splits : events ≡ before ++ after
    pub replayed : replay_rest hashing current before ≡ ok reached
    pub in_review : reached.phase ≡ review

  VisitsReview-here :
      (current : State) (events : List Event) → current.phase ≡ review → VisitsReview current events
  unfolding replay_rest
  VisitsReview-here current events h = record {
    before = [];
    after = events;
    reached = current;
    splits = refl;
    replayed = refl;
    in_review = h;
  }

  VisitsReview-next :
      (current : State) (event : Event) (events : List Event) (next : State)
      → replay_event hashing current event ≡ ok next
      → VisitsReview next events
      → VisitsReview current (event ∷ events)
  unfolding replay_rest
  VisitsReview-next current event events next e v = record {
    before = event ∷ v.before;
    after = v.after;
    reached = v.reached;
    splits = ap (λ es. event ∷ es) v.splits;
    replayed = rw e v.replayed;
    in_review = v.in_review;
  }

  -- A workflow that is past planning and not complete gets to `complete` only through `review`: some
  -- first part of its events replays to a state in that phase.
  pub complete_needs_review :
      (current : State) (events : List Event) (s : State)
      → current.phase ≢ planning
      → current.phase ≢ complete
      → replay_rest hashing current events ≡ ok s
      → s.phase ≡ complete
      → VisitsReview current events
  unfolding replay_rest
  complete_needs_review current [] s np nc h c = absurd (nc (ground arith))
  complete_needs_review current (event ∷ events) s np nc h c =
      elim (Phase-discrete current.phase review) [
        | yes r ↦ VisitsReview-here current (event ∷ events) r
        | no nr ↦
            let (next, e, h') = >>=-eq-ok (replay_event hashing current event) _ h in
            let (np', nc') =
              between_moves current.phase next.phase np nc nr
                (phase-replay_event current event next e) in
            VisitsReview-next current event events next e
              (complete_needs_review next events s np' nc' h' c)
      ]
