-- ===== src/WorkflowState/WellFormed.antt =====
-- What the validator of scripts/workflow_state.py accepts, list by list, apart from the ids and the
-- next action.
use ai_coding_workflow.Prelude.{
  String, ◌≡◌, refl, ◌↔◌, Bool, true, false, not, List, [], ◌∷◌, map, All, mem, unique, subset,
  is_blank, str_eq_sym, note, collect, append-eq-nil, nil-append, note-eq-nil, collect-eq-nil,
  collect_nil, arith,
}
use ai_coding_workflow.WorkflowState.Model.{
  Constraint, Decision, Hypothesis, Question, Acceptance, Material, Problem, blank, duplicate_id,
}
use ai_coding_workflow.WorkflowState.Validation.{
  nonempty, unique_ids_after, unique_ids, evidence_ref_list, goal_problems, constraint_problems,
  decision_problems, hypothesis_problems, question_problems, acceptance_problems, header_problems,
  list_problems, reference_problems,
}

module _ {ℓ} {A : Type ℓ} (key : A → String) where
  -- The ids of a list are texts that are not blank, and no two of them are equal.
  pub record HasIds (xs : List A) : Type ℓ where
    pub nonblank : All (λ x. is_blank (key x) ≡ false) xs
    pub distinct : unique (map key xs) ≡ true

  -- No item has its id in `seen`.
  abbrev IsFresh : List String → List A → Type 0
  IsFresh seen xs = All (λ x. mem (key x) seen ≡ false) xs

  IsFresh-cons :
      (s : String) (seen : List String) (xs : List A)
      → mem s (map key xs) ≡ false
      → IsFresh seen xs
      → IsFresh (s ∷ seen) xs
  IsFresh-cons s seen [] n f = tt
  IsFresh-cons s seen (x ∷ xs) n f =
      (ground (arith, str_eq_sym s (key x)), IsFresh-cons s seen xs (ground arith) f.1)

  IsFresh-uncons :
      (s : String) (seen : List String) (xs : List A)
      → IsFresh (s ∷ seen) xs
      → (mem s (map key xs) ≡ false) × IsFresh seen xs
  IsFresh-uncons s seen [] f = (refl, tt)
  IsFresh-uncons s seen (x ∷ xs) f =
      let (n, g) = IsFresh-uncons s seen xs f.1 in
      (ground (arith, str_eq_sym s (key x)), (ground arith, g))

  IsFresh-nil : (xs : List A) → IsFresh [] xs
  IsFresh-nil [] = tt
  IsFresh-nil (x ∷ xs) = (refl, IsFresh-nil xs)

  unique_ids_after_sound :
      (seen : List String) (path : String) (xs : List A)
      → unique_ids_after key seen path xs ≡ []
      → HasIds xs × IsFresh seen xs
  unfolding unique_ids_after
  unique_ids_after_sound seen path [] h = (record { nonblank = tt; distinct = refl }, tt)
  unique_ids_after_sound seen path (x ∷ xs) h =
      let (a, h') = append-eq-nil (nonempty (key x) path) _ h in
      let (b, h'') = append-eq-nil (note (mem (key x) seen) (duplicate_id path)) _ h' in
      let (ids, fresh) = unique_ids_after_sound (key x ∷ seen) path xs h'' in
      let (apart, fresh') = IsFresh-uncons (key x) seen xs fresh in
      (
        record {
          nonblank = (note-eq-nil (is_blank (key x)) (blank path) a, ids.nonblank);
          distinct = ground (arith, ids.distinct);
        },
        (note-eq-nil (mem (key x) seen) (duplicate_id path) b, fresh'),
      )

  unique_ids_after_complete :
      (seen : List String) (path : String) (xs : List A)
      → HasIds xs
      → IsFresh seen xs
      → unique_ids_after key seen path xs ≡ []
  unfolding unique_ids_after
  unique_ids_after_complete seen path [] ids f = refl
  unique_ids_after_complete seen path (x ∷ xs) ids f = nil-append _ _ (rw ids.nonblank.0) (
      nil-append _ _ (rw f.0) (
        unique_ids_after_complete (key x ∷ seen) path xs
          (record { nonblank = ids.nonblank.1; distinct = ground (arith, ids.distinct) })
          (IsFresh-cons (key x) seen xs (ground (arith, ids.distinct)) f.1)))

  -- `_unique_ids` finds nothing exactly where the ids are such.
  pub unique_ids_iff : (path : String) (xs : List A) → (unique_ids key path xs ≡ []) ↔ HasIds xs
  unique_ids_iff path xs = (
    (λ h. (unique_ids_after_sound [] path xs h).0),
    λ ids. unique_ids_after_complete [] path xs ids (IsFresh-nil xs),
  )

-- The references of an item are digests, distinct, and registered.
abbrev pub IsRegistered : List String → List String → Type 0
IsRegistered registered refs = subset refs registered ≡ true

pub record ConstraintsOk (cs : List Constraint) : Type 0 where
  pub ids : HasIds (λ (c : Constraint). c.id) cs
  pub items : All (λ c. constraint_problems c ≡ []) cs

pub record DecisionsOk (registered : List String) (ds : List Decision) : Type 0 where
  pub ids : HasIds (λ (d : Decision). d.id) ds
  pub items : All (λ d. decision_problems d ≡ []) ds
  pub refs : All (λ (d : Decision). IsRegistered registered d.evidence_refs) ds

pub record HypothesesOk (registered : List String) (hs : List Hypothesis) : Type 0 where
  pub ids : HasIds (λ (h : Hypothesis). h.id) hs
  pub items : All (λ h. hypothesis_problems h ≡ []) hs
  pub refs : All (λ (h : Hypothesis). IsRegistered registered h.evidence_refs) hs

pub record QuestionsOk (qs : List Question) : Type 0 where
  pub ids : HasIds (λ (q : Question). q.id) qs
  pub items : All (λ q. question_problems q ≡ []) qs

pub record AcceptanceOk (registered : List String) (as' : List Acceptance) : Type 0 where
  pub items : All (λ a. acceptance_problems a ≡ []) as'
  pub refs : All (λ (a : Acceptance). IsRegistered registered a.evidence_refs) as'

pub record IsWellFormed (m : Material) : Type 0 where
  pub header : header_problems m ≡ []
  pub goal : goal_problems m.goal ≡ []
  pub constraints : ConstraintsOk m.constraints
  pub decisions : DecisionsOk m.evidence_refs m.accepted_decisions
  pub hypotheses : HypothesesOk m.evidence_refs m.rejected_hypotheses
  pub questions : QuestionsOk m.open_questions
  pub evidence : evidence_ref_list "evidence_refs" false m.evidence_refs ≡ []
  pub acceptance : AcceptanceOk m.evidence_refs m.acceptance_status

module _ {ℓ} {A : Type ℓ} (f : A → Bool) (e : Problem) where
  pub noted_all :
      (xs : List A) → collect (λ x. note (not (f x)) e) xs ≡ [] → All (λ x. f x ≡ true) xs
  noted_all [] h = tt
  noted_all (x ∷ xs) h =
      let (a, b) = append-eq-nil (note (not (f x)) e) _ h in
      (ground (arith, note-eq-nil (not (f x)) e a), noted_all xs b)

  pub all_noted :
      (xs : List A) → All (λ x. f x ≡ true) xs → collect (λ x. note (not (f x)) e) xs ≡ []
  all_noted [] h = refl
  all_noted (x ∷ xs) h = nil-append _ _ (rw h.0) (all_noted xs h.1)

-- The validator finds nothing in the header, the lists and the references of a state exactly where
-- these are well formed.
pub problems_IsWellFormed :
    (m : Material)
    → ((header_problems m ≡ []) × (list_problems m ≡ []) × (reference_problems m ≡ []))
      ↔ IsWellFormed m
unfolding list_problems reference_problems
problems_IsWellFormed m = (sound, complete)
  where
    sound :
        (header_problems m ≡ []) × (list_problems m ≡ []) × (reference_problems m ≡ [])
        → IsWellFormed m
    sound (h, l, r) =
        let (goal, l1) = append-eq-nil (goal_problems m.goal) _ l in
        let (cs, l2) = append-eq-nil (unique_ids _ "constraints" m.constraints) _ l1 in
        let (ds, l3) =
          append-eq-nil (unique_ids _ "accepted_decisions" m.accepted_decisions) _ l2 in
        let (hs, l4) =
          append-eq-nil (unique_ids _ "rejected_hypotheses" m.rejected_hypotheses) _ l3 in
        let (qs, l5) = append-eq-nil (unique_ids _ "open_questions" m.open_questions) _ l4 in
        let (ci, l6) = append-eq-nil (collect constraint_problems m.constraints) _ l5 in
        let (di, l7) = append-eq-nil (collect decision_problems m.accepted_decisions) _ l6 in
        let (hi, l8) = append-eq-nil (collect hypothesis_problems m.rejected_hypotheses) _ l7 in
        let (qi, l9) = append-eq-nil (collect question_problems m.open_questions) _ l8 in
        let (ev, ac) =
          append-eq-nil (evidence_ref_list "evidence_refs" false m.evidence_refs) _ l9 in
        let (dr, r1) = append-eq-nil (collect _ m.accepted_decisions) _ r in
        let (hr, ar) = append-eq-nil (collect _ m.rejected_hypotheses) _ r1 in
        record {
          header = h;
          goal = goal;
          constraints = record { ids = (unique_ids_iff _ _ _).0 cs; items = collect-eq-nil _ _ ci };
          decisions = record {
            ids = (unique_ids_iff _ _ _).0 ds;
            items = collect-eq-nil _ _ di;
            refs = noted_all _ _ _ dr;
          };
          hypotheses = record {
            ids = (unique_ids_iff _ _ _).0 hs;
            items = collect-eq-nil _ _ hi;
            refs = noted_all _ _ _ hr;
          };
          questions = record { ids = (unique_ids_iff _ _ _).0 qs; items = collect-eq-nil _ _ qi };
          evidence = ev;
          acceptance = record { items = collect-eq-nil _ _ ac; refs = noted_all _ _ _ ar };
        }

    complete :
        IsWellFormed m
        → (header_problems m ≡ []) × (list_problems m ≡ []) × (reference_problems m ≡ [])
    complete v = (
      v.header,
      nil-append _ _ v.goal (
          nil-append _ _ ((unique_ids_iff _ _ _).1 v.constraints.ids) (
            nil-append _ _ ((unique_ids_iff _ _ _).1 v.decisions.ids) (
              nil-append _ _ ((unique_ids_iff _ _ _).1 v.hypotheses.ids) (
                nil-append _ _ ((unique_ids_iff _ _ _).1 v.questions.ids) (
                  nil-append _ _ (collect_nil _ _ v.constraints.items) (
                    nil-append _ _ (collect_nil _ _ v.decisions.items) (
                      nil-append _ _ (collect_nil _ _ v.hypotheses.items) (
                        nil-append _ _ (collect_nil _ _ v.questions.items)
                          (nil-append _ _ v.evidence (collect_nil _ _ v.acceptance.items)))))))))),
      nil-append _ _ (all_noted _ _ _ v.decisions.refs)
          (nil-append _ _ (all_noted _ _ _ v.hypotheses.refs) (all_noted _ _ _ v.acceptance.refs)),
    )
