-- ===== src/WorkflowState/Legal.antt =====
-- What the validator of scripts/workflow_state.py asks of the header, the lists and the references
-- of a state, in terms of their texts.
use ai_coding_workflow.Prelude.{
  ◌≡◌, ◌↔◌, refl, true, false, [], All, All-map, is_empty, is_empty_text, is_digest, note-eq-nil,
}
use ai_coding_workflow.WorkflowState.Model.{
  Goal, Constraint, Decision, Hypothesis, Question, Acceptance, Material, blank,
}
use ai_coding_workflow.WorkflowState.Validation.{
  goal_problems, constraint_problems, decision_problems, hypothesis_problems, question_problems,
  acceptance_problems, header_problems, list_problems, reference_problems,
}
use ai_coding_workflow.WorkflowState.WellFormed.{
  HasIds, IsRegistered, IsWellFormed, problems_IsWellFormed,
}
use ai_coding_workflow.WorkflowState.Refs.{
  IsText, IsParent, AreTexts, AreRefs, string_list-AreTexts, AreTexts-string_list, refs_iff,
  required_refs_iff, nonempty_iff, both_iff, digest_iff, optional_iff, version_iff,
}

pub record IsLegal (m : Material) : Type 0 where
  pub schema_version : m.schema_version ≡ 1
  pub parent : IsParent m.parent_state_id
  pub task : IsText m.task_id
  pub repository : is_digest m.repository_state_hash ≡ true
  pub goal : IsText m.goal.id × (IsText m.goal.statement × AreTexts m.goal.acceptance_ids)
  pub constraint_ids : HasIds (λ (c : Constraint). c.id) m.constraints
  pub constraints : All (λ (c : Constraint). IsText c.statement × IsText c.source) m.constraints
  pub decision_ids : HasIds (λ (d : Decision). d.id) m.accepted_decisions
  pub decisions :
      All (λ (d : Decision). IsText d.statement × AreRefs d.evidence_refs) m.accepted_decisions
  pub decision_refs :
      All (λ (d : Decision). IsRegistered m.evidence_refs d.evidence_refs) m.accepted_decisions
  pub hypothesis_ids : HasIds (λ (h : Hypothesis). h.id) m.rejected_hypotheses
  pub hypotheses :
      All
        (λ (h : Hypothesis).
          IsText h.statement
          × (IsText h.reason × (AreRefs h.evidence_refs × (is_empty h.evidence_refs ≡ false))))
        m.rejected_hypotheses
  pub hypothesis_refs :
      All (λ (h : Hypothesis). IsRegistered m.evidence_refs h.evidence_refs) m.rejected_hypotheses
  pub question_ids : HasIds (λ (q : Question). q.id) m.open_questions
  pub questions : All (λ (q : Question). IsText q.question) m.open_questions
  pub evidence : AreRefs m.evidence_refs
  pub acceptance :
      All
        (λ (a : Acceptance).
          (is_empty_text a.id ≡ false) × (IsText a.description × AreRefs a.evidence_refs))
        m.acceptance_status
  pub acceptance_refs :
      All (λ (a : Acceptance). IsRegistered m.evidence_refs a.evidence_refs) m.acceptance_status

goal_iff :
    (g : Goal)
    → (goal_problems g ≡ []) ↔ (IsText g.id × (IsText g.statement × AreTexts g.acceptance_ids))
unfolding goal_problems
goal_iff g = both_iff (nonempty_iff _ _) (
    both_iff (nonempty_iff _ _) (
      (string_list-AreTexts "goal.acceptance_ids" false g.acceptance_ids),
      AreTexts-string_list "goal.acceptance_ids" g.acceptance_ids,
    ))

constraint_iff :
    (c : Constraint) → (constraint_problems c ≡ []) ↔ (IsText c.statement × IsText c.source)
unfolding constraint_problems
constraint_iff c = both_iff (nonempty_iff _ _) (nonempty_iff _ _)

decision_iff :
    (d : Decision) → (decision_problems d ≡ []) ↔ (IsText d.statement × AreRefs d.evidence_refs)
unfolding decision_problems
decision_iff d = both_iff (nonempty_iff _ _) (refs_iff _ _)

hypothesis_iff :
    (h : Hypothesis)
    → (hypothesis_problems h ≡ []) ↔ (
        IsText h.statement
        × (IsText h.reason × (AreRefs h.evidence_refs × (is_empty h.evidence_refs ≡ false))))
unfolding hypothesis_problems
hypothesis_iff h = both_iff (nonempty_iff _ _) (both_iff (nonempty_iff _ _) (required_refs_iff _ _))

question_iff : (q : Question) → (question_problems q ≡ []) ↔ IsText q.question
unfolding question_problems
question_iff q = nonempty_iff _ _

acceptance_iff :
    (a : Acceptance)
    → (acceptance_problems a ≡ [])
      ↔ ((is_empty_text a.id ≡ false) × (IsText a.description × AreRefs a.evidence_refs))
unfolding acceptance_problems
acceptance_iff a =
    both_iff (note-eq-nil (is_empty_text a.id) (blank "acceptance_status"), λ h. rw h refl)
      (both_iff (nonempty_iff _ _) (refs_iff _ _))

header_iff :
    (m : Material)
    → (header_problems m ≡ []) ↔ (
        (m.schema_version ≡ 1)
        × ((IsParent m.parent_state_id)
            × (IsText m.task_id × (is_digest m.repository_state_hash ≡ true))))
unfolding header_problems
header_iff m =
    both_iff (version_iff _)
      (both_iff (optional_iff _ _) (both_iff (nonempty_iff _ _) (digest_iff _ _)))

-- The validator finds nothing in the header, the lists and the references of a state exactly when
-- its schema version is 1, its parent, if any, and its repository hash are digests, its task id and
-- the texts of its goal, constraints, decisions, hypotheses, questions and acceptance entries are
-- not blank, the acceptance ids of the goal are distinct and not empty, the ids of the
-- acceptance entries are not empty, the ids of constraints, decisions, hypotheses and questions are
-- distinct in their list and not blank, and the evidence references of the state and of each item
-- are distinct digests, those of an item registered in the state, with at least one for a rejected
-- hypothesis.
pub IsLegal-iff :
    (m : Material)
    → ((header_problems m ≡ []) × (list_problems m ≡ []) × (reference_problems m ≡ [])) ↔ IsLegal m
IsLegal-iff m =
    ((λ h. sound ((problems_IsWellFormed m).0 h)), λ h. (problems_IsWellFormed m).1 (complete h))
  where
    sound : IsWellFormed m → IsLegal m
    sound v =
        let (version, (parent, (task, repository))) = (header_iff m).0 v.header in
        record {
          schema_version = version;
          parent = parent;
          task = task;
          repository = repository;
          goal = (goal_iff m.goal).0 v.goal;
          constraint_ids = v.constraints.ids;
          constraints = All-map (λ c. (constraint_iff c).0) m.constraints v.constraints.items;
          decision_ids = v.decisions.ids;
          decisions = All-map (λ d. (decision_iff d).0) m.accepted_decisions v.decisions.items;
          decision_refs = v.decisions.refs;
          hypothesis_ids = v.hypotheses.ids;
          hypotheses = All-map (λ x. (hypothesis_iff x).0) m.rejected_hypotheses v.hypotheses.items;
          hypothesis_refs = v.hypotheses.refs;
          question_ids = v.questions.ids;
          questions = All-map (λ q. (question_iff q).0) m.open_questions v.questions.items;
          evidence = (refs_iff _ _).0 v.evidence;
          acceptance = All-map (λ a. (acceptance_iff a).0) m.acceptance_status v.acceptance.items;
          acceptance_refs = v.acceptance.refs;
        }

    complete : IsLegal m → IsWellFormed m
    complete v = record {
      header = (header_iff m).1 (v.schema_version, (v.parent, (v.task, v.repository)));
      goal = (goal_iff m.goal).1 v.goal;
      constraints = record {
        ids = v.constraint_ids;
        items = All-map (λ c. (constraint_iff c).1) m.constraints v.constraints;
      };
      decisions = record {
        ids = v.decision_ids;
        items = All-map (λ d. (decision_iff d).1) m.accepted_decisions v.decisions;
        refs = v.decision_refs;
      };
      hypotheses = record {
        ids = v.hypothesis_ids;
        items = All-map (λ x. (hypothesis_iff x).1) m.rejected_hypotheses v.hypotheses;
        refs = v.hypothesis_refs;
      };
      questions = record {
        ids = v.question_ids;
        items = All-map (λ q. (question_iff q).1) m.open_questions v.questions;
      };
      evidence = (refs_iff _ _).1 v.evidence;
      acceptance = record {
        items = All-map (λ a. (acceptance_iff a).1) m.acceptance_status v.acceptance;
        refs = v.acceptance_refs;
      };
    }
