-- ===== src/WorkflowState/Refs.antt =====
-- The checks of texts, digests and lists of references in the validator of scripts/workflow_state.py,
-- in terms of the texts.
use ai_coding_workflow.Prelude.{
  String, ◌≡◌, ◌↔◌, refl, Bool, true, false, not, Option, none, some, List, [], ◌++◌, all, all_iff,
  unique, is_blank, is_empty, is_empty_text, is_digest, note, collect, append-eq-nil, nil-append,
  note-eq-nil, ap, ℕ, ◌==◌, is_empty-eq-nil, arith, inl, inr, Bool-cases,
}
use ai_coding_workflow.WorkflowState.Model.{Problem, blank, not_digest, schema_version_invalid}
use ai_coding_workflow.WorkflowState.Validation.{
  nonempty, string_list, evidence_ref_list, optional_digest,
}
use ai_coding_workflow.WorkflowState.WellFormed.{noted_all, all_noted}

-- Texts that are not blank, and lists of references: distinct digests, none of them empty.
abbrev pub IsText : String → Type 0
IsText s = is_blank s ≡ false

-- No parent, or the digest of one.
abbrev pub IsParent : Option String → Type 0
IsParent none = Unit
IsParent (some s) = is_digest s ≡ true

pub record AreTexts (xs : List String) : Type 0 where
  pub filled : all (λ s. not (is_empty_text s)) xs ≡ true
  pub distinct : unique xs ≡ true

pub record AreRefs (xs : List String) : Type 0 where
  pub texts : AreTexts xs
  pub digests : all is_digest xs ≡ true

pub string_list-AreTexts :
    (path : String) (b : Bool) (xs : List String) → string_list path b xs ≡ [] → AreTexts xs
unfolding string_list
string_list-AreTexts path b xs h = record { filled = ground arith; distinct = ground arith }

string_list-some :
    (path : String) (xs : List String) → string_list path true xs ≡ [] → is_empty xs ≡ false
unfolding string_list
string_list-some path xs h = ground arith

pub AreTexts-string_list :
    (path : String) (xs : List String) → AreTexts xs → string_list path false xs ≡ []
unfolding string_list
AreTexts-string_list path xs t = rw t.filled (rw t.distinct refl)

AreTexts-some :
    (path : String) (xs : List String)
    → AreTexts xs
    → is_empty xs ≡ false
    → string_list path true xs ≡ []
unfolding string_list
AreTexts-some path xs t e = rw t.filled (rw e (rw t.distinct refl))

noted_digests :
    (e : Problem) (xs : List String)
    → (collect (λ ref. note (not (is_digest ref)) e) xs ≡ []) ↔ (all is_digest xs ≡ true)
noted_digests e xs = (
  (λ h. (all_iff is_digest xs).1 (noted_all is_digest e xs h)),
  λ h. all_noted is_digest e xs ((all_iff is_digest xs).0 h),
)

refs_listed :
    (path : String) (b : Bool) (xs : List String)
    → evidence_ref_list path b xs ≡ []
    → (string_list path b xs ≡ []) × (all is_digest xs ≡ true)
unfolding evidence_ref_list
refs_listed path b xs h = elim (Bool-cases (is_empty (string_list path b xs))) [
  | inl e ↦ (
    is_empty-eq-nil (string_list path b xs) e,
    (noted_digests (not_digest path) xs).0 (rw e at h),
  )
  | inr e ↦
      let wrong : string_list path b xs ≡ [] = rw e at h in
      absurd (ground (arith, ap is_empty wrong))
]

refs_complete :
    (path : String) (b : Bool) (xs : List String)
    → string_list path b xs ≡ []
    → all is_digest xs ≡ true
    → evidence_ref_list path b xs ≡ []
unfolding evidence_ref_list
refs_complete path b xs h d = rw (ap is_empty h) ((noted_digests (not_digest path) xs).1 d)

pub refs_iff :
    (path : String) (xs : List String) → (evidence_ref_list path false xs ≡ []) ↔ AreRefs xs
refs_iff path xs = (
  (λ h.
      let (l, d) = refs_listed path false xs h in
      record { texts = string_list-AreTexts path false xs l; digests = d }),
  λ r. refs_complete path false xs (AreTexts-string_list path xs r.texts) r.digests,
)

pub required_refs_iff :
    (path : String) (xs : List String)
    → (evidence_ref_list path true xs ≡ []) ↔ (AreRefs xs × (is_empty xs ≡ false))
required_refs_iff path xs = (
  (λ h.
      let (l, d) = refs_listed path true xs h in
      (
        record { texts = string_list-AreTexts path true xs l; digests = d },
        string_list-some path xs l,
      )),
  λ r. refs_complete path true xs (AreTexts-some path xs r.0.texts r.1) r.0.digests,
)

pub nonempty_iff : (s path : String) → (nonempty s path ≡ []) ↔ IsText s
nonempty_iff s path = (note-eq-nil (is_blank s) (blank path), λ h. rw h refl)

module _ {E : Type 0} {xs ys : List E} where
  -- The problems of two checks, one after the other.
  pub both_iff : {P Q : Type 0} → (xs ≡ []) ↔ P → (ys ≡ []) ↔ Q → (xs ++ ys ≡ []) ↔ (P × Q)
  both_iff p q = (
    (λ h. let (a, b) = append-eq-nil xs ys h in (p.0 a, q.0 b)),
    λ (a, b). nil-append xs ys (p.1 a) (q.1 b),
  )

pub digest_iff :
    (s path : String) → (note (not (is_digest s)) (not_digest path) ≡ []) ↔ (is_digest s ≡ true)
digest_iff s path =
    ((λ h. ground (arith, note-eq-nil (not (is_digest s)) (not_digest path) h)), λ h. rw h refl)

pub optional_iff : (o : Option String) (path : String) → (optional_digest o path ≡ []) ↔ IsParent o
optional_iff none path = ((λ h. tt), λ h. refl)
optional_iff (some s) path = digest_iff s path

pub version_iff : (n : ℕ) → (note (not (n == 1)) schema_version_invalid ≡ []) ↔ (n ≡ 1)
version_iff n =
    ((λ h. ground (arith, note-eq-nil (not (n == 1)) schema_version_invalid h)), λ h. rw h refl)
