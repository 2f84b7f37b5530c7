-- ===== src/WorkflowState/Updates.antt =====
-- What each write of `apply_mutation` (scripts/workflow_state.py) keeps, list by list, and what the
-- sorting at its end keeps.
use ai_coding_workflow.Prelude.{
  String, ◌≡◌, true, false, List, [], ◌∷◌, ◌++◌, All-append, All-map, mem, mem-append, subset_grow,
  is_blank, is_digest, arith, sort_by, All-sort_by,
}
use ai_coding_workflow.Json.{str}
use ai_coding_workflow.WorkflowState.Model.{
  Constraint, Decision, Hypothesis, Question, Acceptance, Material,
}
use ai_coding_workflow.WorkflowState.Validation.{constraint_problems, header_problems}
use ai_coding_workflow.WorkflowState.Mutation.{find, is_found, constraint_id, sort_lists}
use ai_coding_workflow.WorkflowState.WellFormed.{
  DecisionsOk, HypothesesOk, QuestionsOk, AcceptanceOk, IsWellFormed,
}
use ai_coding_workflow.WorkflowState.Items.{
  RefsOk-iff, RefsOk-sort_by, RefsOk-append, mem-sort_refs, HasIds-append, HasIds-sort_by,
}

-- References stay registered while the registry grows.
abbrev Grows : List String → List String → Type 0
Grows old new = (s : String) → mem s old ≡ true → mem s new ≡ true

DecisionsOk-grow :
    {old new : List String} {ds : List Decision}
    → Grows old new
    → DecisionsOk old ds
    → DecisionsOk new ds
DecisionsOk-grow {old} {new} {ds} g v = record {
  ids = v.ids;
  items = v.items;
  refs = All-map (λ d r. subset_grow d.evidence_refs old new g r) ds v.refs;
}

HypothesesOk-grow :
    {old new : List String} {hs : List Hypothesis}
    → Grows old new
    → HypothesesOk old hs
    → HypothesesOk new hs
HypothesesOk-grow {old} {new} {hs} g v = record {
  ids = v.ids;
  items = v.items;
  refs = All-map (λ h r. subset_grow h.evidence_refs old new g r) hs v.refs;
}

AcceptanceOk-grow :
    {old new : List String} {as' : List Acceptance}
    → Grows old new
    → AcceptanceOk old as'
    → AcceptanceOk new as'
AcceptanceOk-grow {old} {new} {as'} g v = record {
  items = v.items;
  refs = All-map (λ a r. subset_grow a.evidence_refs old new g r) as' v.refs;
}

-- The sorting at the end keeps everything.
pub IsWellFormed-sort_lists : (m : Material) → IsWellFormed m → IsWellFormed (sort_lists m)
unfolding sort_lists header_problems
IsWellFormed-sort_lists m v = record {
  header = v.header;
  goal = v.goal;
  constraints = record {
    ids = HasIds-sort_by _ m.constraints v.constraints.ids;
    items = All-sort_by _ _ m.constraints v.constraints.items;
  };
  decisions = DecisionsOk-grow grows (record {
    ids = HasIds-sort_by _ m.accepted_decisions v.decisions.ids;
    items = All-sort_by _ _ m.accepted_decisions v.decisions.items;
    refs = All-sort_by _ _ m.accepted_decisions v.decisions.refs;
  });
  hypotheses = HypothesesOk-grow grows (record {
    ids = HasIds-sort_by _ m.rejected_hypotheses v.hypotheses.ids;
    items = All-sort_by _ _ m.rejected_hypotheses v.hypotheses.items;
    refs = All-sort_by _ _ m.rejected_hypotheses v.hypotheses.refs;
  });
  questions = record {
    ids = HasIds-sort_by _ m.open_questions v.questions.ids;
    items = All-sort_by _ _ m.open_questions v.questions.items;
  };
  evidence = (RefsOk-iff _ _).1 (RefsOk-sort_by m.evidence_refs ((RefsOk-iff _ _).0 v.evidence));
  acceptance = AcceptanceOk-grow grows v.acceptance;
}
  where
    grows : Grows m.evidence_refs (sort_by (λ r. r) m.evidence_refs)
    grows s h = rw mem-sort_refs h

-- What stands in a list that has been updated.
pub with_constraint :
    (m : Material) (c : Constraint)
    → IsWellFormed m
    → is_blank c.id ≡ false
    → is_found (find constraint_id m.constraints (str c.id)) ≡ false
    → constraint_problems c ≡ []
    → IsWellFormed (record m { constraints = m.constraints ++ c ∷ [] })
unfolding header_problems
with_constraint m c v b f g = record {
  header = v.header;
  goal = v.goal;
  constraints = record {
    ids = HasIds-append _ m.constraints c v.constraints.ids b f;
    items = All-append _ m.constraints (c ∷ []) v.constraints.items (g, tt);
  };
  decisions = v.decisions;
  hypotheses = v.hypotheses;
  questions = v.questions;
  evidence = v.evidence;
  acceptance = v.acceptance;
}

pub with_decisions :
    (m : Material) (ds : List Decision)
    → IsWellFormed m
    → DecisionsOk m.evidence_refs ds
    → IsWellFormed (record m { accepted_decisions = ds })
unfolding header_problems
with_decisions m ds v w = record {
  header = v.header;
  goal = v.goal;
  constraints = v.constraints;
  decisions = w;
  hypotheses = v.hypotheses;
  questions = v.questions;
  evidence = v.evidence;
  acceptance = v.acceptance;
}

pub with_hypotheses :
    (m : Material) (hs : List Hypothesis)
    → IsWellFormed m
    → HypothesesOk m.evidence_refs hs
    → IsWellFormed (record m { rejected_hypotheses = hs })
unfolding header_problems
with_hypotheses m hs v w = record {
  header = v.header;
  goal = v.goal;
  constraints = v.constraints;
  decisions = v.decisions;
  hypotheses = w;
  questions = v.questions;
  evidence = v.evidence;
  acceptance = v.acceptance;
}

pub with_questions :
    (m : Material) (qs : List Question)
    → IsWellFormed m
    → QuestionsOk qs
    → IsWellFormed (record m { open_questions = qs })
unfolding header_problems
with_questions m qs v w = record {
  header = v.header;
  goal = v.goal;
  constraints = v.constraints;
  decisions = v.decisions;
  hypotheses = v.hypotheses;
  questions = w;
  evidence = v.evidence;
  acceptance = v.acceptance;
}

mem-snoc :
    (s : String) (xs : List String) (x : String) → mem s xs ≡ true → mem s (xs ++ x ∷ []) ≡ true
mem-snoc s xs x h = ground (arith, mem-append s xs (x ∷ []))

pub with_evidence :
    (m : Material) (ref : String)
    → IsWellFormed m
    → is_digest ref ≡ true
    → mem ref m.evidence_refs ≡ false
    → IsWellFormed (record m { evidence_refs = m.evidence_refs ++ ref ∷ [] })
unfolding header_problems
with_evidence m ref v d n =
    let grows : Grows m.evidence_refs (m.evidence_refs ++ ref ∷ []) =
      λ s h. mem-snoc s m.evidence_refs ref h in
    record {
      header = v.header;
      goal = v.goal;
      constraints = v.constraints;
      decisions = DecisionsOk-grow grows v.decisions;
      hypotheses = HypothesesOk-grow grows v.hypotheses;
      questions = v.questions;
      evidence =
          (RefsOk-iff _ _).1
            (RefsOk-append m.evidence_refs ref ((RefsOk-iff _ _).0 v.evidence) d n);
      acceptance = AcceptanceOk-grow grows v.acceptance;
    }

pub with_acceptance :
    (m : Material) (as' : List Acceptance)
    → IsWellFormed m
    → AcceptanceOk m.evidence_refs as'
    → IsWellFormed (record m { acceptance_status = as' })
unfolding header_problems
with_acceptance m as' v w = record {
  header = v.header;
  goal = v.goal;
  constraints = v.constraints;
  decisions = v.decisions;
  hypotheses = v.hypotheses;
  questions = v.questions;
  evidence = v.evidence;
  acceptance = w;
}
