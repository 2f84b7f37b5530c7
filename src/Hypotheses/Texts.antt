-- ===== src/Hypotheses/Texts.antt =====
-- Sorted lists of texts before `_string_list` of scripts/hypothesis_ledger.py.
use ai_coding_workflow.Prelude.{
  String, ◌≡◌, refl, sym, ◌∙◌, ap, Bool, true, false, ◌||◌, List, [], ◌∷◌, unique, any, is_empty,
  is_empty_text, is_digest, after_prefix, arith, sorted, sort_by, insert_by, unique-sort_by,
  map_same,
}
use ai_coding_workflow.Hypotheses.Model.{string_flaws}

any-insert_text :
    (p : String → Bool) (x : String) (ys : List String)
    → any p (insert_by (λ s. s) x ys) ≡ (p x || any p ys)
unfolding insert_by
any-insert_text p x [] = refl
any-insert_text p x (y ∷ ys) = ground (arith, any-insert_text p x ys)

pub any-sorted : (p : String → Bool) (xs : List String) → any p (sorted xs) ≡ any p xs
unfolding sorted sort_by
any-sorted p [] = refl
any-sorted p (x ∷ xs) =
    any-insert_text p x (sort_by (λ s. s) xs) ∙ ap (λ b. p x || b) (any-sorted p xs)

is_empty-insert_text : (x : String) (ys : List String) → is_empty (insert_by (λ s. s) x ys) ≡ false
unfolding insert_by
is_empty-insert_text x [] = refl
is_empty-insert_text x (y ∷ ys) = ground arith

pub is_empty-sorted : (xs : List String) → is_empty (sorted xs) ≡ is_empty xs
unfolding sorted sort_by
is_empty-sorted [] = refl
is_empty-sorted (x ∷ xs) = is_empty-insert_text x (sort_by (λ s. s) xs)

pub unique-sorted : (xs : List String) → unique (sorted xs) ≡ unique xs
unfolding sorted
unique-sorted xs =
    ap unique (sym (map_same (sort_by (λ s. s) xs)))
    ∙ unique-sort_by (λ s. s) xs
    ∙ ap unique (map_same xs)

pub string_flaws-sorted :
    (name : String) (nonempty : Bool) (xs : List String)
    → string_flaws name nonempty (sorted xs) ≡ string_flaws name nonempty xs
unfolding string_flaws
string_flaws-sorted name nonempty xs =
    rw (any-sorted is_empty_text xs, is_empty-sorted xs, unique-sorted xs) refl

pub digest-is_empty_text : (s : String) → is_digest s ≡ true → is_empty_text s ≡ false
unfolding is_digest after_prefix
digest-is_empty_text String.[] h = cc
digest-is_empty_text (String.◌∷◌ c s) h = refl
