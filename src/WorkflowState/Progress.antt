-- ===== src/WorkflowState/Progress.antt =====
-- The body of the loop of scripts/apply-workflow-delta.py accepts every mutation that
-- `apply_mutation` accepts and that leaves a valid next action.
use ai_coding_workflow.Prelude.{
  ℕ, ◌+◌, String, ◌≡◌, refl, true, false, not, some, [], is_blank, is_digest, str_eq_refl, note,
  append-eq-nil, nil-append, note-eq-nil, arith, ok, >>=-eq-ok, ◌==◌,
}
use ai_coding_workflow.Json.{Fields}
use ai_coding_workflow.WorkflowState.Model.{
  EventType, unsupported, Material, State, Payload, Hashing, schema_version_invalid, not_digest,
}
use ai_coding_workflow.WorkflowState.Validation.{
  validate_state, validate_event, is_supported, header_problems, list_problems, reference_problems,
  next_action_problems, optional_digest, state_id_for, event_id_for,
}
use ai_coding_workflow.WorkflowState.Mutation.{apply_mutation, mutate}
use ai_coding_workflow.WorkflowState.Chain.{stamp, finalize_transition, apply_event, DeltaEvent}
use ai_coding_workflow.WorkflowState.WellFormed.{IsWellFormed, problems_IsWellFormed}
use ai_coding_workflow.WorkflowState.Preserved.{IsWellFormed-apply_mutation}

-- A state with a new parent and revision is as well formed as before.
IsWellFormed-child :
    (m : Material) (parent : String) (n : ℕ)
    → is_digest parent ≡ true
    → IsWellFormed m
    → IsWellFormed (record m { parent_state_id = some parent; revision = n })
unfolding header_problems
IsWellFormed-child m parent n d v =
    let (a, h1) =
      append-eq-nil (note (not (m.schema_version == 1)) schema_version_invalid) _ v.header in
    let (_, h2) = append-eq-nil (optional_digest m.parent_state_id "parent_state_id") _ h1 in
    record {
      header = nil-append (note (not (m.schema_version == 1)) schema_version_invalid) _ a (rw d h2);
      goal = v.goal;
      constraints = v.constraints;
      decisions = v.decisions;
      hypotheses = v.hypotheses;
      questions = v.questions;
      evidence = v.evidence;
      acceptance = v.acceptance;
    }

-- An event type that `mutate` accepts is supported.
mutate-is_supported :
    (t : EventType) (p : Fields) (m m' : Material) → mutate t p m ≡ ok m' → is_supported t ≡ true
unfolding mutate
mutate-is_supported (unsupported t) p m m' h = cc
mutate-is_supported _ p m m' h = refl

apply_mutation-is_supported :
    (s : State) (t : EventType) (p : Fields) (s' : State)
    → apply_mutation s t p ≡ ok s'
    → is_supported t ≡ true
unfolding apply_mutation
apply_mutation-is_supported s t p s' h =
    let (m, e, _) = >>=-eq-ok (mutate t p s.material) _ h in mutate-is_supported t p s.material m e

module _ (hashing : Hashing) where
  -- What the validator has found to be in order.
  record Parts (s : State) : Type 0 where
    digest : is_digest s.state_id ≡ true
    well_formed : IsWellFormed s.material

  Parts-valid : (s : State) → validate_state hashing true s ≡ [] → Parts s
  unfolding validate_state
  Parts-valid s h =
      let (d, h1) = append-eq-nil (note (not (is_digest s.state_id)) (not_digest "state_id")) _ h in
      let (a, h2) = append-eq-nil (header_problems s.material) _ h1 in
      let (l, h3) = append-eq-nil (list_problems s.material) _ h2 in
      let (r, _) = append-eq-nil (reference_problems s.material) _ h3 in
      record {
        digest = ground (arith, note-eq-nil (not (is_digest s.state_id)) (not_digest "state_id") d);
        well_formed = (problems_IsWellFormed s.material).0 (a, l, r);
      }

  valid-stamp :
      (current mutated : State)
      → is_digest current.state_id ≡ true
      → IsWellFormed mutated.material
      → next_action_problems mutated.next_action ≡ []
      → validate_state hashing true (stamp hashing current mutated) ≡ []
  unfolding validate_state stamp state_id_for
  valid-stamp current mutated d v n =
      let child = IsWellFormed-child mutated.material current.state_id (current.revision + 1) d v in
      let (a, l, r) = (problems_IsWellFormed _).1 child in
      nil-append _ _ (rw hashing.state_hash_digest)
        (nil-append _ _ a (nil-append _ _ l (nil-append _ _ r (nil-append _ _ n (rw str_eq_refl)))))

  valid-event :
      (current mutated : State) (actor : String) (t : EventType) (payload : Payload)
      (timestamp : String)
      → is_digest current.state_id ≡ true
      → is_supported t ≡ true
      → is_blank actor ≡ false
      → is_blank timestamp ≡ false
      → validate_event hashing
          (finalize_transition hashing current mutated actor t payload timestamp).1
        ≡ []
  unfolding validate_event finalize_transition stamp state_id_for event_id_for
  valid-event current mutated actor t payload timestamp d k a b = rw k (
      rw a (
        rw b (rw hashing.event_hash_digest (rw hashing.state_hash_digest (rw d (rw str_eq_refl))))))

  -- If the current state is valid, `apply_mutation` accepts the mutation, the next action that it
  -- leaves is valid, and the actor and the time are not blank, then the loop of `apply_delta` goes
  -- through: the transition is not refused as invalid, and its state is the stamped result.
  pub apply_event_accepts :
      (actor timestamp : String) (current : State) (mutation : DeltaEvent) (mutated : State)
      → validate_state hashing true current ≡ []
      → apply_mutation current mutation.event_type mutation.payload.fields ≡ ok mutated
      → next_action_problems mutated.next_action ≡ []
      → is_blank actor ≡ false
      → is_blank timestamp ≡ false
      → apply_event hashing actor timestamp current mutation
        ≡ ok (
            finalize_transition hashing current mutated actor mutation.event_type mutation.payload
              timestamp)
  unfolding apply_event finalize_transition
  apply_event_accepts actor timestamp current mutation mutated v e n a t =
      let parts = Parts-valid current v in
      let well =
        IsWellFormed-apply_mutation current mutation.event_type mutation.payload.fields mutated
          parts.well_formed e in
      let supported =
        apply_mutation-is_supported current mutation.event_type mutation.payload.fields mutated e in
      rw e (
        rw (valid-stamp current mutated parts.digest well n) (
          rw (
            valid-event current mutated actor mutation.event_type mutation.payload timestamp
              parts.digest supported a t)))
