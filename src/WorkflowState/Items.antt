-- ===== src/WorkflowState/Items.antt =====
-- What finding, appending, deleting, updating and sorting do to the ids and the items of a list, and
-- what the helpers of `apply_mutation` (scripts/workflow_state.py) have checked when they return.
use mathlib.Core.List.{map-append}
use ai_coding_workflow.Prelude.{
  ℕ, zero, suc, String, ◌≡◌, refl, ap, sym, ◌∙◌, ◌↔◌, Bool, true, false, not, ◌&&◌, List, [], ◌∷◌,
  ◌++◌, map, All, All-append, all_iff, map_same, mem, mem-append, unique, subset, is_empty,
  is_blank, is_digest, after_prefix, is_empty_text, str_eq_sym, Bool-cases, inl, inr, arith,
  sort_by, mem-sort_by, unique-sort_by, All-sort_by, ok, all, is_empty-eq-nil, Option-cases,
}
use ai_coding_workflow.Json.{Json, str, strings}
use ai_coding_workflow.WorkflowState.Model.{Problem, not_digest}
use ai_coding_workflow.WorkflowState.Validation.{string_list, evidence_ref_list}
use ai_coding_workflow.WorkflowState.Mutation.{
  find, is_found, delete_at, update_at, nonempty_or_raise, digest_or_raise, mutation_evidence_refs,
}
use ai_coding_workflow.WorkflowState.WellFormed.{HasIds, noted_all, all_noted}

unique-snoc :
    (ss : List String) (s : String) → unique (ss ++ s ∷ []) ≡ (unique ss && not (mem s ss))
unique-snoc [] s = refl
unique-snoc (t ∷ ss) s = ground (arith, unique-snoc ss s, mem-append t ss (s ∷ []), str_eq_sym s t)

-- The sum of two lists of distinct texts with one text appended that is in neither.
pub unique_appended :
    (ss : List String) (s : String)
    → unique ss ≡ true
    → mem s ss ≡ false
    → unique (ss ++ s ∷ []) ≡ true
unique_appended ss s u n = ground (arith, unique-snoc ss s)

module _ {ℓ} {A : Type ℓ} where
  pub All-delete_at {κ} : (P : A → Type κ) (i : ℕ) (xs : List A) → All P xs → All P (delete_at i xs)
  unfolding delete_at
  All-delete_at P i [] h = tt
  All-delete_at P zero (x ∷ xs) h = h.1
  All-delete_at P (suc i) (x ∷ xs) h = (h.0, All-delete_at P i xs h.1)

  pub All-update_at {κ} :
      (P : A → Type κ) (f : A → A)
      → ((x : A) → P x → P (f x))
      → (i : ℕ) (xs : List A) → All P xs
      → All P (update_at i f xs)
  unfolding update_at
  All-update_at P f k i [] h = tt
  All-update_at P f k zero (x ∷ xs) h = (k x h.0, h.1)
  All-update_at P f k (suc i) (x ∷ xs) h = (h.0, All-update_at P f k i xs h.1)

module _ {ℓ} {A : Type ℓ} (key : A → String) where
  find_absent :
      (xs : List A) (s : String)
      → is_found (find key xs (str s)) ≡ false
      → mem s (map key xs) ≡ false
  unfolding find
  find_absent [] s h = refl
  find_absent (x ∷ xs) s h = elim (Option-cases (find key xs (str s))) [
    | inl e ↦ ground (arith, find_absent xs s (rw e))
    | inr (hit, e) ↦ ground arith
  ]

  mem-delete_at :
      (s : String) (i : ℕ) (xs : List A)
      → mem s (map key xs) ≡ false
      → mem s (map key (delete_at i xs)) ≡ false
  unfolding delete_at
  mem-delete_at s i [] h = refl
  mem-delete_at s zero (x ∷ xs) h = ground arith
  mem-delete_at s (suc i) (x ∷ xs) h = ground (arith, mem-delete_at s i xs)

  unique-delete_at :
      (i : ℕ) (xs : List A) → unique (map key xs) ≡ true → unique (map key (delete_at i xs)) ≡ true
  unfolding delete_at
  unique-delete_at i [] h = refl
  unique-delete_at zero (x ∷ xs) h = ground arith
  unique-delete_at (suc i) (x ∷ xs) h =
      ground (arith, unique-delete_at i xs, mem-delete_at (key x) i xs)

  map-update_at :
      (f : A → A)
      → ((x : A) → key (f x) ≡ key x)
      → (i : ℕ) (xs : List A) → map key (update_at i f xs) ≡ map key xs
  unfolding update_at
  map-update_at f k i [] = refl
  map-update_at f k zero (x ∷ xs) = rw (k x)
  map-update_at f k (suc i) (x ∷ xs) = rw (map-update_at f k i xs)

  pub HasIds-append :
      (xs : List A) (x : A)
      → HasIds key xs
      → is_blank (key x) ≡ false
      → is_found (find key xs (str (key x))) ≡ false
      → HasIds key (xs ++ x ∷ [])
  HasIds-append xs x v b f = record {
    nonblank = All-append _ xs (x ∷ []) v.nonblank (b, tt);
    distinct =
        rw map-append (unique_appended (map key xs) (key x) v.distinct (find_absent xs (key x) f));
  }

  pub HasIds-delete_at : (i : ℕ) (xs : List A) → HasIds key xs → HasIds key (delete_at i xs)
  HasIds-delete_at i xs v = record {
    nonblank = All-delete_at _ i xs v.nonblank;
    distinct = unique-delete_at i xs v.distinct;
  }

  pub HasIds-update_at :
      (f : A → A)
      → ((x : A) → key (f x) ≡ key x)
      → (i : ℕ) (xs : List A) → HasIds key xs
      → HasIds key (update_at i f xs)
  HasIds-update_at f k i xs v = record {
    nonblank = All-update_at _ f (λ x b. rw (k x) b) i xs v.nonblank;
    distinct = rw (map-update_at f k i xs) v.distinct;
  }

  pub HasIds-sort_by : (xs : List A) → HasIds key xs → HasIds key (sort_by key xs)
  HasIds-sort_by xs v = record {
    nonblank = All-sort_by key _ xs v.nonblank;
    distinct = rw unique-sort_by v.distinct;
  }

pub nonempty_or_raise-eq-ok :
    (v : Json) (name : String) {s : String} → nonempty_or_raise v name ≡ ok s → is_blank s ≡ false
unfolding nonempty_or_raise
nonempty_or_raise-eq-ok (str t) name h = ground arith
nonempty_or_raise-eq-ok _ name h = cc

pub digest_or_raise-eq-ok : (v : Json) {s : String} → digest_or_raise v ≡ ok s → is_digest s ≡ true
unfolding digest_or_raise
digest_or_raise-eq-ok (str t) h = ground arith
digest_or_raise-eq-ok _ h = cc

-- What `_evidence_ref_list` finds does not depend on the path that it is told.
string_list_path :
    (p q : String) (r : Bool) (refs : List String)
    → string_list p r refs ≡ []
    → string_list q r refs ≡ []
unfolding string_list
string_list_path p q r refs h = ground arith

-- References pass exactly where they are distinct non-empty texts and digests.
pub evidence_ref_list_iff :
    (p : String) (r : Bool) (refs : List String)
    → (evidence_ref_list p r refs ≡ [])
      ↔ ((string_list p r refs ≡ []) × All (λ s. is_digest s ≡ true) refs)
unfolding evidence_ref_list
evidence_ref_list_iff p r refs = elim (Bool-cases (is_empty (string_list p r refs))) [
  | inl e ↦ rw e (
    (λ h. (is_empty-eq-nil _ e, noted_all is_digest (not_digest p) refs h)),
    λ h. all_noted is_digest (not_digest p) refs h.1,
  )
  | inr e ↦ rw e ((λ h. absurd (not_empty _ e h)), λ h. absurd (not_empty _ e h.0))
]
  where
    not_empty : (ps : List Problem) → is_empty ps ≡ false → ps ≡ [] → ⊥
    not_empty ps e h = ground arith

pub evidence_ref_list_path :
    (p q : String) (r : Bool) (refs : List String)
    → evidence_ref_list p r refs ≡ []
    → evidence_ref_list q r refs ≡ []
evidence_ref_list_path p q r refs h =
    let (ss, ds) = (evidence_ref_list_iff p r refs).0 h in
    (evidence_ref_list_iff q r refs).1 (string_list_path p q r refs ss, ds)

pub mutation_evidence_refs-eq-ok :
    (registered : List String) (v : Json) (r : Bool) (path : String) {refs : List String}
    → mutation_evidence_refs registered v r ≡ ok refs
    → (evidence_ref_list path r refs ≡ []) × (subset refs registered ≡ true)
unfolding mutation_evidence_refs
mutation_evidence_refs-eq-ok registered v r path {refs} h = elim (Option-cases (strings v)) [
  | inl e ↦ absurd (ground arith)
  | inr (read, e) ↦
      let same : read ≡ refs = ground arith in
      let checked : is_empty (evidence_ref_list "evidence_refs" r read) ≡ true = ground arith in
      let known : subset read registered ≡ true = ground arith in
      rw (← same)
        (evidence_ref_list_path "evidence_refs" path r read (is_empty-eq-nil _ checked), known)
]

-- A registry that passes: its references are distinct, not empty, and digests.
pub record RefsOk (refs : List String) : Type 0 where
  pub nonempty : All (λ s. not (is_empty_text s) ≡ true) refs
  pub distinct : unique refs ≡ true
  pub digests : All (λ s. is_digest s ≡ true) refs

string_list_optional :
    (p : String) (refs : List String)
    → (string_list p false refs ≡ [])
      ↔ ((all (λ s. not (is_empty_text s)) refs ≡ true) × (unique refs ≡ true))
unfolding string_list
string_list_optional p refs = (λ h. ground arith, λ h. ground arith)

pub RefsOk-iff :
    (p : String) (refs : List String) → (evidence_ref_list p false refs ≡ []) ↔ RefsOk refs
RefsOk-iff p refs = (
  (λ h.
      let (ss, ds) = (evidence_ref_list_iff p false refs).0 h in
      let (full, u) = (string_list_optional p refs).0 ss in
      record { nonempty = (all_iff _ refs).0 full; distinct = u; digests = ds }),
  λ v.
      (evidence_ref_list_iff p false refs).1
        ((string_list_optional p refs).1 ((all_iff _ refs).1 v.nonempty, v.distinct), v.digests),
)

pub mem-sort_refs : (s : String) (refs : List String) → mem s (sort_by (λ r. r) refs) ≡ mem s refs
mem-sort_refs s refs =
    ap (mem s) (sym (map_same (sort_by (λ r. r) refs)))
    ∙ mem-sort_by (λ r. r) s refs
    ∙ ap (mem s) (map_same refs)

pub RefsOk-sort_by : (refs : List String) → RefsOk refs → RefsOk (sort_by (λ r. r) refs)
RefsOk-sort_by refs v = record {
  nonempty = All-sort_by _ _ refs v.nonempty;
  distinct =
      ap unique (sym (map_same (sort_by (λ r. r) refs)))
      ∙ unique-sort_by (λ r. r) refs
      ∙ ap unique (map_same refs)
      ∙ v.distinct;
  digests = All-sort_by _ _ refs v.digests;
}

digest_nonempty : (s : String) → is_digest s ≡ true → not (is_empty_text s) ≡ true
unfolding is_digest after_prefix
digest_nonempty String.[] h = cc
digest_nonempty (String.◌∷◌ c s) h = refl

pub RefsOk-append :
    (refs : List String) (ref : String)
    → RefsOk refs
    → is_digest ref ≡ true
    → mem ref refs ≡ false
    → RefsOk (refs ++ ref ∷ [])
RefsOk-append refs ref v d n = record {
  nonempty = All-append _ refs (ref ∷ []) v.nonempty (digest_nonempty ref d, tt);
  distinct = unique_appended refs ref v.distinct n;
  digests = All-append _ refs (ref ∷ []) v.digests (d, tt);
}
