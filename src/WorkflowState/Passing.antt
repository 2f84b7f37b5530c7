-- ===== src/WorkflowState/Passing.antt =====
-- Items that pass the validator of scripts/workflow_state.py because their texts are not blank, and the
-- writes of `apply_mutation` outside the lists.
use ai_coding_workflow.Prelude.{
  ℕ, String, ◌≡◌, refl, true, false, not, Option, none, some, List, [], is_blank, is_digest, arith,
  ok, nil-append, append-eq-nil, note, is_empty_text, ◌==◌,
}
use ai_coding_workflow.WorkflowState.Model.{
  Constraint, Decision, Hypothesis, Question, Acceptance, Material, AcceptanceStatus, blank,
  schema_version_invalid,
}
use ai_coding_workflow.WorkflowState.Validation.{
  goal_problems, constraint_problems, decision_problems, hypothesis_problems, question_problems,
  acceptance_problems, header_problems, evidence_ref_list, nonempty, optional_digest,
}
use ai_coding_workflow.WorkflowState.Mutation.{is_found, decision_clash, freeze, settle}
use ai_coding_workflow.WorkflowState.WellFormed.{IsWellFormed}

pub decision_clash-eq-ok :
    (o : Option (ℕ × Decision)) (statement : String)
    → decision_clash o statement ≡ ok tt
    → is_found o ≡ false
decision_clash-eq-ok none statement h = refl
decision_clash-eq-ok (some (i, d)) statement h = ground arith

pub with_statement :
    (m : Material) (s : String)
    → IsWellFormed m
    → is_blank s ≡ false
    → IsWellFormed (record m { goal = record m.goal { statement = s } })
unfolding header_problems goal_problems
with_statement m s v b =
    let (id, rest) = append-eq-nil (nonempty m.goal.id "goal.id") _ v.goal in
    let (_, ids) = append-eq-nil (nonempty m.goal.statement "goal.statement") _ rest in
    record {
      header = v.header;
      goal = nil-append _ _ id (nil-append _ _ (rw b) ids);
      constraints = v.constraints;
      decisions = v.decisions;
      hypotheses = v.hypotheses;
      questions = v.questions;
      evidence = v.evidence;
      acceptance = v.acceptance;
    }

pub with_repository :
    (m : Material) (s : String)
    → IsWellFormed m
    → is_digest s ≡ true
    → IsWellFormed (record m { repository_state_hash = s })
unfolding header_problems
with_repository m s v d =
    let (a, h1) =
      append-eq-nil (note (not (m.schema_version == 1)) schema_version_invalid) _ v.header in
    let (b, h2) = append-eq-nil (optional_digest m.parent_state_id "parent_state_id") _ h1 in
    let (c, _) = append-eq-nil (nonempty m.task_id "task_id") _ h2 in
    record {
      header = nil-append _ _ a (nil-append _ _ b (nil-append _ _ c (rw d)));
      goal = v.goal;
      constraints = v.constraints;
      decisions = v.decisions;
      hypotheses = v.hypotheses;
      questions = v.questions;
      evidence = v.evidence;
      acceptance = v.acceptance;
    }

pub untouched :
    (m m' : Material)
    → IsWellFormed m
    → m' ≡ record m { phase = m'.phase; next_action = m'.next_action }
    → IsWellFormed m'
unfolding header_problems
untouched m m' v e = rw e (record {
  header = v.header;
  goal = v.goal;
  constraints = v.constraints;
  decisions = v.decisions;
  hypotheses = v.hypotheses;
  questions = v.questions;
  evidence = v.evidence;
  acceptance = v.acceptance;
})

pub acceptance_refs :
    (status : AcceptanceStatus) (refs : List String)
    → evidence_ref_list "acceptance_status.evidence_refs" false refs ≡ []
    → (a : Acceptance) → acceptance_problems a ≡ []
    → acceptance_problems (settle status refs a) ≡ []
unfolding acceptance_problems
acceptance_refs status refs r a h =
    let (id, rest) = append-eq-nil (note (is_empty_text a.id) (blank "acceptance_status")) _ h in
    let (d, _) = append-eq-nil (nonempty a.description "acceptance_status.description") _ rest in
    nil-append _ _ id (nil-append _ _ d r)

pub constraint_passes :
    (c : Constraint)
    → is_blank c.statement ≡ false
    → is_blank c.source ≡ false
    → constraint_problems c ≡ []
unfolding constraint_problems
constraint_passes c a b = nil-append (nonempty c.statement "constraints.statement") _ (rw a) (rw b)

pub decision_passes :
    (d : Decision)
    → is_blank d.statement ≡ false
    → evidence_ref_list "accepted_decisions.evidence_refs" false d.evidence_refs ≡ []
    → decision_problems d ≡ []
unfolding decision_problems
decision_passes d a r = nil-append (nonempty d.statement "accepted_decisions.statement") _ (rw a) r

pub hypothesis_passes :
    (x : Hypothesis)
    → is_blank x.statement ≡ false
    → is_blank x.reason ≡ false
    → evidence_ref_list "rejected_hypotheses.evidence_refs" true x.evidence_refs ≡ []
    → hypothesis_problems x ≡ []
unfolding hypothesis_problems
hypothesis_passes x a b r =
    nil-append (nonempty x.statement "rejected_hypotheses.statement") _ (rw a)
      (nil-append (nonempty x.reason "rejected_hypotheses.reason") _ (rw b) r)

pub question_passes : (q : Question) → is_blank q.question ≡ false → question_problems q ≡ []
unfolding question_problems
question_passes q a = rw a

pub freeze_passes : (d : Decision) → decision_problems d ≡ [] → decision_problems (freeze d) ≡ []
unfolding decision_problems
freeze_passes d h = h
