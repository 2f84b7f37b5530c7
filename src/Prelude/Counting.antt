-- ===== src/Prelude/Counting.antt =====
-- How often a text occurs in a list, and how many entries of a list another one lacks.
use Prim.Native.Nat.{ℕ, ◌+◌}
use Prim.Native.String.{String}
use mathlib.Core.Path.{◌≡◌, refl, sym, ◌∙◌, ap}
use mathlib.Core.Bool.{Bool, true, false, not, ◌&&◌}
use mathlib.Core.List.{List, [], ◌∷◌, ◌++◌}
use native.Mathlib.Omega.{arith}
use ai_coding_workflow.Prelude.Tests.{str_eq, str_eq_iff, str_eq_refl, leb}
use ai_coding_workflow.Prelude.Lists.{mem, unique, length, filter, to_set, mem-append}
use ai_coding_workflow.Prelude.Sorting.{sort_by, insert_by}

abbrev pub indicator : Bool → ℕ
indicator true = 1
indicator false = 0

abbrev pub count : String → List String → ℕ
count x [] = 0
count x (y ∷ ys) = indicator (str_eq y x) + count x ys

-- The entries of the first list that the second lacks.
abbrev pub missing : List String → List String → ℕ
missing [] ys = 0
missing (x ∷ xs) ys = indicator (not (mem x ys)) + missing xs ys

pub count-append : (x : String) (xs ys : List String) → count x (xs ++ ys) ≡ count x xs + count x ys
count-append x [] ys = omega arith
count-append x (y ∷ xs) ys = omega (arith, count-append x xs ys)

pub count-mem : (x : String) (xs : List String) → leb 1 (count x xs) ≡ mem x xs
count-mem x [] = refl
count-mem x (y ∷ ys) = ground (arith, count-mem x ys)

pub count-unique :
    (x : String) (xs : List String) → unique xs ≡ true → count x xs ≡ indicator (mem x xs)
count-unique x [] u = refl
count-unique x (y ∷ ys) u = ground (arith, count-unique x ys, count-mem x ys, str_eq_iff y x)

-- A new entry at the end is missing no more.
pub missing-append :
    (x : String) (xs ys : List String)
    → mem x ys ≡ false
    → missing xs ys ≡ missing xs (ys ++ x ∷ []) + count x xs
missing-append x [] ys h = refl
missing-append x (y ∷ xs) ys h = ground (
  arith,
  missing-append x xs ys,
  mem-append y ys (x ∷ []),
  str_eq_iff x y,
  str_eq_iff y x,
  str_eq_refl x,
)

pub missing_none : (xs : List String) → missing xs [] ≡ length xs
missing_none [] = refl
missing_none (x ∷ xs) = omega (arith, missing_none xs)

pub missing-mem :
    (x : String) (xs ys : List String) → missing xs ys ≡ 0 → mem x xs ≡ true → mem x ys ≡ true
missing-mem x [] ys h m = cc
missing-mem x (y ∷ xs) ys h m = ground (arith, missing-mem x xs ys, str_eq_iff y x)

pub mem-missing :
    (xs ys : List String) → ((x : String) → mem x xs ≡ true → mem x ys ≡ true) → missing xs ys ≡ 0
mem-missing [] ys f = refl
mem-missing (x ∷ xs) ys f =
    ground (arith, f x, str_eq_refl x, mem-missing xs ys λ y m. f y (ground arith))

count-insert_by :
    (x y : String) (ys : List String)
    → count x (insert_by (λ s. s) y ys) ≡ indicator (str_eq y x) + count x ys
unfolding insert_by
count-insert_by x y [] = refl
count-insert_by x y (z ∷ zs) = ground (arith, count-insert_by x y zs)

-- `sorted(xs)`
unfoldable pub sorted : List String → List String
sorted xs = sort_by (λ s. s) xs

pub count-sorted : (x : String) (xs : List String) → count x (sorted xs) ≡ count x xs
unfolding sorted sort_by
count-sorted x [] = refl
count-sorted x (y ∷ ys) = omega (arith, count-insert_by x y (sorted ys), count-sorted x ys)

pub mem-filter :
    (x : String) (ys xs : List String)
    → mem x (filter (λ z. not (mem z ys)) xs) ≡ (mem x xs && not (mem x ys))
mem-filter x ys [] = refl
mem-filter x ys (z ∷ xs) = ground (arith, mem-filter x ys xs, str_eq_iff z x)

pub mem-to_set : (x : String) (xs : List String) → mem x (to_set xs) ≡ mem x xs
unfolding to_set
mem-to_set x [] = refl
mem-to_set x (y ∷ ys) = ground (arith, mem-to_set x ys, mem-to_set y ys, str_eq_iff y x)

pub mem-sorted : (x : String) (xs : List String) → mem x (sorted xs) ≡ mem x xs
mem-sorted x xs = sym (count-mem x (sorted xs)) ∙ ap (leb 1) (count-sorted x xs) ∙ count-mem x xs
