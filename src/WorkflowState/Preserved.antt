-- ===== src/WorkflowState/Preserved.antt =====
-- `apply_mutation` (scripts/workflow_state.py) keeps a state well formed.
use ai_coding_workflow.Prelude.{
  ◌≡◌, refl, subst, true, false, not, [], ◌∷◌, All-append, mem, arith, ok, >>=-eq-ok,
  raise_if->>-eq-ok, ok-injective,
}
use ai_coding_workflow.Json.{Fields, str, at, arr, nil}
use ai_coding_workflow.WorkflowState.Model.{
  EventType, goal_updated, constraint_added, decision_accepted, decision_frozen,
  decision_invalidated, hypothesis_rejected, hypothesis_reopened, question_opened,
  question_resolved, evidence_added, acceptance_updated, next_action_updated,
  repository_state_updated, phase_changed, state_initialized, unsupported, Material, State,
  read_acceptance_status,
}
use ai_coding_workflow.WorkflowState.Mutation.{
  require_payload, nonempty_or_raise, digest_or_raise, mutation_evidence_refs, find, is_found,
  found, get_or, constraint_id, decision_id, hypothesis_id, question_id, acceptance_id, mutate,
  apply_mutation, decision_clash, or_invalid, is_accepted, is_hashable, freeze, settle,
}
use ai_coding_workflow.WorkflowState.Updates.{
  IsWellFormed-sort_lists, with_constraint, with_decisions, with_hypotheses, with_questions,
  with_evidence, with_acceptance,
}
use ai_coding_workflow.WorkflowState.Passing.{
  decision_clash-eq-ok, with_statement, with_repository, untouched, acceptance_refs,
  constraint_passes, decision_passes, freeze_passes, hypothesis_passes, question_passes,
}
use ai_coding_workflow.WorkflowState.WellFormed.{IsWellFormed}
use ai_coding_workflow.WorkflowState.Items.{
  All-delete_at, All-update_at, HasIds-append, HasIds-delete_at, HasIds-update_at,
  nonempty_or_raise-eq-ok, digest_or_raise-eq-ok, mutation_evidence_refs-eq-ok,
}

-- `mutate` keeps a state well formed, whatever the event.
IsWellFormed-mutate :
    (t : EventType) (p : Fields) (m m' : Material)
    → IsWellFormed m
    → mutate t p m ≡ ok m'
    → IsWellFormed m'
unfolding mutate
IsWellFormed-mutate goal_updated p m m' v h =
    let (_, _, h1) = >>=-eq-ok (require_payload p ("statement" ∷ [])) _ h in
    let (statement, e, h2) = >>=-eq-ok (nonempty_or_raise (at "statement" p) "statement") _ h1 in
    subst IsWellFormed (ok-injective h2)
      (with_statement m statement v (nonempty_or_raise-eq-ok _ _ e))
IsWellFormed-mutate constraint_added p m m' v h =
    let (_, _, h1) = >>=-eq-ok (require_payload p ("id" ∷ "statement" ∷ "source" ∷ [])) _ h in
    let (id, e, h2) = >>=-eq-ok (nonempty_or_raise (at "id" p) "id") _ h1 in
    let (statement, e', h3) = >>=-eq-ok (nonempty_or_raise (at "statement" p) "statement") _ h2 in
    let (source, e'', h4) = >>=-eq-ok (nonempty_or_raise (at "source" p) "source") _ h3 in
    let (f, h5) = raise_if->>-eq-ok (is_found (find constraint_id m.constraints (str id))) _ _ h4 in
    subst IsWellFormed (ok-injective h5) (
      with_constraint m _ v (nonempty_or_raise-eq-ok _ _ e) f
        (constraint_passes _ (nonempty_or_raise-eq-ok _ _ e') (nonempty_or_raise-eq-ok _ _ e'')))
IsWellFormed-mutate decision_accepted p m m' v h =
    let (_, _, h1) = >>=-eq-ok (require_payload p ("id" ∷ "statement" ∷ [])) _ h in
    let (id, e, h2) = >>=-eq-ok (nonempty_or_raise (at "id" p) "id") _ h1 in
    let (statement, e', h3) = >>=-eq-ok (nonempty_or_raise (at "statement" p) "statement") _ h2 in
    let (refs, r, h4) =
      >>=-eq-ok (mutation_evidence_refs m.evidence_refs (get_or "evidence_refs" p (arr nil)) false)
        _ h3 in
    let (_, c, h5) =
      >>=-eq-ok (decision_clash (find decision_id m.accepted_decisions (str id)) statement) _ h4 in
    let (ok_refs, known) =
      mutation_evidence_refs-eq-ok _ _ _ "accepted_decisions.evidence_refs" r in
    subst IsWellFormed (ok-injective h5) (
      with_decisions m _ v (record {
        ids =
            HasIds-append _ m.accepted_decisions _ v.decisions.ids (nonempty_or_raise-eq-ok _ _ e)
              (decision_clash-eq-ok _ _ c);
        items =
            All-append _ m.accepted_decisions (_ ∷ []) v.decisions.items
              (decision_passes _ (nonempty_or_raise-eq-ok _ _ e') ok_refs, tt);
        refs = All-append _ m.accepted_decisions (_ ∷ []) v.decisions.refs (known, tt);
      }))
IsWellFormed-mutate decision_frozen p m m' v h =
    let (_, _, h1) = >>=-eq-ok (require_payload p ("id" ∷ [])) _ h in
    let (hit, e, h2) =
      >>=-eq-ok (found (find decision_id m.accepted_decisions (at "id" p)) _) _ h1 in
    let (_, h3) = raise_if->>-eq-ok (not (is_accepted hit.1.status)) _ _ h2 in
    subst IsWellFormed (ok-injective h3) (
      with_decisions m _ v (record {
        ids =
            HasIds-update_at decision_id freeze (λ d. refl) hit.0 m.accepted_decisions
              v.decisions.ids;
        items = All-update_at _ freeze freeze_passes hit.0 m.accepted_decisions v.decisions.items;
        refs = All-update_at _ freeze (λ d k. k) hit.0 m.accepted_decisions v.decisions.refs;
      }))
IsWellFormed-mutate decision_invalidated p m m' v h =
    let (_, _, h1) = >>=-eq-ok (require_payload p ("id" ∷ "reason" ∷ "evidence_refs" ∷ [])) _ h in
    let (hit, e, h2) =
      >>=-eq-ok (found (find decision_id m.accepted_decisions (at "id" p)) _) _ h1 in
    let (_, _, h3) = >>=-eq-ok (nonempty_or_raise (at "reason" p) "reason") _ h2 in
    let (_, _, h4) =
      >>=-eq-ok (mutation_evidence_refs m.evidence_refs (at "evidence_refs" p) true) _ h3 in
    subst IsWellFormed (ok-injective h4) (
      with_decisions m _ v (record {
        ids = HasIds-delete_at _ hit.0 m.accepted_decisions v.decisions.ids;
        items = All-delete_at _ hit.0 m.accepted_decisions v.decisions.items;
        refs = All-delete_at _ hit.0 m.accepted_decisions v.decisions.refs;
      }))
IsWellFormed-mutate hypothesis_rejected p m m' v h =
    let (_, _, h1) =
      >>=-eq-ok (require_payload p ("id" ∷ "statement" ∷ "reason" ∷ "evidence_refs" ∷ [])) _ h in
    let (id, e, h2) = >>=-eq-ok (nonempty_or_raise (at "id" p) "id") _ h1 in
    let (statement, e', h3) = >>=-eq-ok (nonempty_or_raise (at "statement" p) "statement") _ h2 in
    let (reason, e'', h4) = >>=-eq-ok (nonempty_or_raise (at "reason" p) "reason") _ h3 in
    let (refs, r, h5) =
      >>=-eq-ok (mutation_evidence_refs m.evidence_refs (at "evidence_refs" p) true) _ h4 in
    let (f, h6) =
      raise_if->>-eq-ok (is_found (find hypothesis_id m.rejected_hypotheses (str id))) _ _ h5 in
    let (ok_refs, known) =
      mutation_evidence_refs-eq-ok _ _ _ "rejected_hypotheses.evidence_refs" r in
    subst IsWellFormed (ok-injective h6) (
      with_hypotheses m _ v (record {
        ids =
            HasIds-append _ m.rejected_hypotheses _ v.hypotheses.ids (nonempty_or_raise-eq-ok _ _ e)
              f;
        items = All-append _ m.rejected_hypotheses (_ ∷ []) v.hypotheses.items (
          hypothesis_passes _ (nonempty_or_raise-eq-ok _ _ e') (nonempty_or_raise-eq-ok _ _ e'')
              ok_refs,
          tt,
        );
        refs = All-append _ m.rejected_hypotheses (_ ∷ []) v.hypotheses.refs (known, tt);
      }))
IsWellFormed-mutate hypothesis_reopened p m m' v h =
    let (_, _, h1) = >>=-eq-ok (require_payload p ("id" ∷ "reason" ∷ "evidence_refs" ∷ [])) _ h in
    let (hit, e, h2) =
      >>=-eq-ok (found (find hypothesis_id m.rejected_hypotheses (at "id" p)) _) _ h1 in
    let (_, _, h3) = >>=-eq-ok (nonempty_or_raise (at "reason" p) "reason") _ h2 in
    let (_, _, h4) =
      >>=-eq-ok (mutation_evidence_refs m.evidence_refs (at "evidence_refs" p) true) _ h3 in
    subst IsWellFormed (ok-injective h4) (
      with_hypotheses m _ v (record {
        ids = HasIds-delete_at _ hit.0 m.rejected_hypotheses v.hypotheses.ids;
        items = All-delete_at _ hit.0 m.rejected_hypotheses v.hypotheses.items;
        refs = All-delete_at _ hit.0 m.rejected_hypotheses v.hypotheses.refs;
      }))
IsWellFormed-mutate question_opened p m m' v h =
    let (_, _, h1) = >>=-eq-ok (require_payload p ("id" ∷ "question" ∷ [])) _ h in
    let (id, e, h2) = >>=-eq-ok (nonempty_or_raise (at "id" p) "id") _ h1 in
    let (question, e', h3) = >>=-eq-ok (nonempty_or_raise (at "question" p) "question") _ h2 in
    let (f, h4) =
      raise_if->>-eq-ok (is_found (find question_id m.open_questions (str id))) _ _ h3 in
    subst IsWellFormed (ok-injective h4) (
      with_questions m _ v (record {
        ids = HasIds-append _ m.open_questions _ v.questions.ids (nonempty_or_raise-eq-ok _ _ e) f;
        items =
            All-append _ m.open_questions (_ ∷ []) v.questions.items
              (question_passes _ (nonempty_or_raise-eq-ok _ _ e'), tt);
      }))
IsWellFormed-mutate question_resolved p m m' v h =
    let (_, _, h1) = >>=-eq-ok (require_payload p ("id" ∷ "resolution" ∷ [])) _ h in
    let (_, _, h2) = >>=-eq-ok (nonempty_or_raise (at "resolution" p) "resolution") _ h1 in
    let (hit, e, h3) = >>=-eq-ok (found (find question_id m.open_questions (at "id" p)) _) _ h2 in
    subst IsWellFormed (ok-injective h3) (
      with_questions m _ v (record {
        ids = HasIds-delete_at _ hit.0 m.open_questions v.questions.ids;
        items = All-delete_at _ hit.0 m.open_questions v.questions.items;
      }))
IsWellFormed-mutate evidence_added p m m' v h =
    let (_, _, h1) = >>=-eq-ok (require_payload p ("ref" ∷ [])) _ h in
    let (ref, e, h2) = >>=-eq-ok (digest_or_raise (at "ref" p)) _ h1 in
    let (n, h3) = raise_if->>-eq-ok (mem ref m.evidence_refs) _ _ h2 in
    subst IsWellFormed (ok-injective h3) (with_evidence m ref v (digest_or_raise-eq-ok _ e) n)
IsWellFormed-mutate acceptance_updated p m m' v h =
    let (_, _, h1) = >>=-eq-ok (require_payload p ("id" ∷ "status" ∷ "evidence_refs" ∷ [])) _ h in
    let (_, h2) = raise_if->>-eq-ok (not (is_hashable (at "id" p))) _ _ h1 in
    let (hit, e, h3) =
      >>=-eq-ok (found (find acceptance_id m.acceptance_status (at "id" p)) _) _ h2 in
    let (status, e', h4) = >>=-eq-ok (or_invalid (read_acceptance_status (at "status" p))) _ h3 in
    let (refs, r, h5) =
      >>=-eq-ok (mutation_evidence_refs m.evidence_refs (at "evidence_refs" p) false) _ h4 in
    let (ok_refs, known) = mutation_evidence_refs-eq-ok _ _ _ "acceptance_status.evidence_refs" r in
    subst IsWellFormed (ok-injective h5) (
      with_acceptance m _ v (record {
        items =
            All-update_at _ (settle status refs) (acceptance_refs status refs ok_refs) hit.0
              m.acceptance_status v.acceptance.items;
        refs =
            All-update_at _ (settle status refs) (λ a k. known) hit.0 m.acceptance_status
              v.acceptance.refs;
      }))
IsWellFormed-mutate next_action_updated p m m' v h = untouched m m' v (ground arith)
IsWellFormed-mutate repository_state_updated p m m' v h =
    let (_, _, h1) = >>=-eq-ok (require_payload p ("repository_state_hash" ∷ [])) _ h in
    let (hash, e, h2) = >>=-eq-ok (digest_or_raise (at "repository_state_hash" p)) _ h1 in
    subst IsWellFormed (ok-injective h2) (with_repository m hash v (digest_or_raise-eq-ok _ e))
IsWellFormed-mutate phase_changed p m m' v h = untouched m m' v (ground arith)
IsWellFormed-mutate state_initialized p m m' v h = absurd (ground arith)
IsWellFormed-mutate (unsupported t) p m m' v h = absurd (ground arith)

-- If the header, the lists and the references of a state pass the validator and `apply_mutation`
-- accepts an event, then those of its result pass too, sorting included.
pub IsWellFormed-apply_mutation :
    (s : State) (t : EventType) (p : Fields) (s' : State)
    → IsWellFormed s.material
    → apply_mutation s t p ≡ ok s'
    → IsWellFormed s'.material
unfolding apply_mutation
IsWellFormed-apply_mutation s t p s' v h =
    let (m, e, h1) = >>=-eq-ok (mutate t p s.material) _ h in
    subst (λ (x : State). IsWellFormed x.material) (ok-injective h1)
      (IsWellFormed-sort_lists m (IsWellFormed-mutate t p s.material m v e))
