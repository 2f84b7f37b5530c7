-- ===== src/WorkflowState/Soundness.antt =====
-- What a log that replays (scripts/workflow_state.py) is: a linked chain of valid states.
use ai_coding_workflow.Prelude.{
  ◌+◌, String, ◌≡◌, refl, subst, true, Option, none, some, List, [], ◌∷◌, is_empty, str_eq,
  str_eq_iff, length, ok, >>=-eq-ok, arith, inl, inr, is_empty-eq-nil, Result-cases,
}
use ai_coding_workflow.WorkflowState.Model.{Material, State, Event, Hashing}
use ai_coding_workflow.WorkflowState.Validation.{state_id_for, validate_state}
use ai_coding_workflow.WorkflowState.Mutation.{apply_mutation}
use ai_coding_workflow.WorkflowState.Chain.{
  is_id, is_null, stamp, replay_event, replay_rest, initial_state, replay_events,
}

-- Each event starts at the state that the one before it has reached, and the last reaches `final`.
abbrev pub IsChain : String → List Event → String → Type 0
IsChain id [] final = id ≡ final
IsChain id (e ∷ es) final = (e.base_state_id ≡ some id) × IsChain e.new_state_id es final

is_id-eq-some : (o : Option String) (id : String) → is_id o id ≡ true → o ≡ some id
is_id-eq-some none id h = cc
is_id-eq-some (some s) id h = ground (arith, str_eq_iff s id)

is_null-eq-none : (o : Option String) → is_null o ≡ true → o ≡ none
is_null-eq-none none h = refl
is_null-eq-none (some s) h = cc

module _ (hashing : Hashing) where
  -- A state that passes the validator and whose id is the hash of its content.
  pub record IsStamped (s : State) : Type 0 where
    pub valid : validate_state hashing true s ≡ []
    pub id : s.state_id ≡ state_id_for hashing s.material

  IsStamped-stamp :
      (current mutated : State)
      → validate_state hashing true (stamp hashing current mutated) ≡ []
      → IsStamped (stamp hashing current mutated)
  unfolding stamp
  IsStamped-stamp current mutated h = record { valid = h; id = refl }

  revision-stamp :
      (current mutated : State) → (stamp hashing current mutated).revision ≡ current.revision + 1
  unfolding stamp
  revision-stamp current mutated = refl

  -- What one event of the replay has checked.
  record Checks (current : State) (event : Event) (next : State) : Type 0 where
    stamped : IsStamped next
    base : event.base_state_id ≡ some current.state_id
    id : next.state_id ≡ event.new_state_id
    revision : next.revision ≡ current.revision + 1

  replay_event_sound :
      (current : State) (event : Event) (next : State)
      → replay_event hashing current event ≡ ok next
      → Checks current event next
  unfolding replay_event
  replay_event_sound current event next h =
      elim (Result-cases (apply_mutation current event.event_type event.payload.fields)) [
        | inl (mutated, e) ↦
            let next_is : next ≡ stamp hashing current mutated = ground arith in
            let valid : is_empty (validate_state hashing true (stamp hashing current mutated))
                ≡ true =
              ground arith in
            let based : is_id event.base_state_id current.state_id ≡ true = ground arith in
            let same : str_eq (stamp hashing current mutated).state_id event.new_state_id ≡ true =
              ground arith in
            rw next_is (record {
              stamped = IsStamped-stamp current mutated (is_empty-eq-nil _ valid);
              base = is_id-eq-some event.base_state_id current.state_id based;
              id = (str_eq_iff _ _).0 same;
              revision = revision-stamp current mutated;
            })
        | inr (error, e) ↦ absurd (ground arith)
      ]

  replay_rest_sound :
      (current : State) (events : List Event) (s : State)
      → IsStamped current
      → replay_rest hashing current events ≡ ok s
      → IsStamped s
        × IsChain current.state_id events s.state_id
        × (s.revision ≡ current.revision + length events)
  unfolding replay_rest
  replay_rest_sound current [] s v h =
      let p : current ≡ s = cc in
      subst
        (λ t. IsStamped t × (current.state_id ≡ t.state_id) × (t.revision ≡ current.revision + 0)) p
        (v, refl, omega arith)
  replay_rest_sound current (event ∷ events) s v h =
      let (next, e, h') = >>=-eq-ok (replay_event hashing current event) _ h in
      let c = replay_event_sound current event next e in
      let (v', chain, r) = replay_rest_sound next events s c.stamped h' in
      (v', (c.base, rw (← c.id) chain), omega (arith, c.revision, r))

  initial_state_sound :
      (o : Option Material) (s : State)
      → initial_state hashing o ≡ ok s
      → (o ≡ some s.material) × (s.state_id ≡ state_id_for hashing s.material)
  unfolding initial_state
  initial_state_sound none s h = cc
  initial_state_sound (some m) s h = ground arith

  -- If a log replays to a state, then the state passes the validator and its id is the hash of its
  -- content; the first event has no base and holds an initial state; each later event starts at the
  -- id that the event before it reaches, up to the id of the state; and the revision has been
  -- counted up once for each of them.
  pub replay_events_sound :
      (first : Event) (rest : List Event) (s : State)
      → replay_events hashing (first ∷ rest) ≡ ok s
      → (m : Material) × (first.payload.initial_state ≡ some m)
        × IsStamped s
        × (first.base_state_id ≡ none)
        × IsChain first.new_state_id rest s.state_id
        × (s.revision ≡ m.revision + length rest)
  unfolding replay_events
  replay_events_sound first rest s h =
      elim (Result-cases (initial_state hashing first.payload.initial_state)) [
        | inl (current, e) ↦
            let based : is_null first.base_state_id ≡ true = ground arith in
            let same : str_eq current.state_id first.new_state_id ≡ true = ground arith in
            let valid : is_empty (validate_state hashing true current) ≡ true = ground arith in
            let replayed : replay_rest hashing current rest ≡ ok s = ground arith in
            let (held, id) = initial_state_sound first.payload.initial_state current e in
            let (stamped, chain, counted) =
              replay_rest_sound current rest s (record { valid = is_empty-eq-nil _ valid; id = id })
                replayed in
            (
              current.material,
              held,
              stamped,
              is_null-eq-none first.base_state_id based,
              rw (← (str_eq_iff _ _).0 same) chain,
              counted,
            )
        | inr (error, e) ↦ absurd (ground arith)
      ]
