-- ===== src/Prelude/Lists.antt =====
-- Lists: lengths and tests over native numbers, and lists of texts as Python's sets of strings.
use Prim.Native.Nat.{ℕ, suc}
use Prim.Native.String.{String}
use mathlib.Core.Path.{◌≡◌, refl, subst}
use mathlib.Core.Logic.{◌↔◌, inl, inr}
use mathlib.Core.Bool.{Bool, true, false, not, ◌&&◌, ◌||◌}
use mathlib.Core.List.{List, [], ◌∷◌, ◌++◌, map}
use native.Mathlib.Omega.{arith}
use ai_coding_workflow.Prelude.Tests.{str_eq, str_eq_iff, str_eq_refl, str_cases, if◌then◌else◌}

module _ {ℓ} {A : Type ℓ} where
  abbrev pub length : List A → ℕ
  length [] = 0
  length (x ∷ xs) = suc (length xs)

  -- Python's `all(p(x) for x in xs)` and `any(p(x) for x in xs)`.
  abbrev pub all : (A → Bool) → List A → Bool
  all p [] = true
  all p (x ∷ xs) = p x && all p xs

  abbrev pub any : (A → Bool) → List A → Bool
  any p [] = false
  any p (x ∷ xs) = p x || any p xs

  abbrev pub is_empty : List A → Bool
  is_empty [] = true
  is_empty (x ∷ xs) = false

  -- A list comprehension's `if`, with a Boolean test.
  abbrev pub filter : (A → Bool) → List A → List A
  filter p [] = []
  filter p (x ∷ xs) = let rest = filter p xs in if p x then x ∷ rest else rest

  abbrev pub All {κ} : (A → Type κ) → List A → Type κ
  All P [] = Unit
  All P (x ∷ xs) = P x × All P xs

  pub All-append {κ} : (P : A → Type κ) (xs ys : List A) → All P xs → All P ys → All P (xs ++ ys)
  All-append P [] ys left right = right
  All-append P (x ∷ xs) ys left right = (left.0, All-append P xs ys left.1 right)

pub All-map {ℓ κ μ} :
    {A : Type ℓ} {P : A → Type κ} {Q : A → Type μ} (f : (x : A) → P x → Q x) (xs : List A)
    → All P xs
    → All Q xs
All-map f [] h = tt
All-map f (x ∷ xs) h = (f x h.0, All-map f xs h.1)

pub all_iff {ℓ} :
    {A : Type ℓ} (p : A → Bool) (xs : List A) → (all p xs ≡ true) ↔ All (λ x. p x ≡ true) xs
all_iff p [] = ((λ h. tt), λ h. refl)
all_iff p (x ∷ xs) =
    ((λ h. (ground arith, (all_iff p xs).0 (ground arith))), λ h. rw h.0 ((all_iff p xs).1 h.1))

pub map_same {ℓ} : {A : Type ℓ} (xs : List A) → map (λ x. x) xs ≡ xs
map_same [] = refl
map_same (x ∷ xs) = rw (map_same xs)

-- `x in xs` for texts.
abbrev pub mem : String → List String → Bool
mem s [] = false
mem s (t ∷ ts) = str_eq t s || mem s ts

-- `len(xs) == len(set(xs))`.
abbrev pub unique : List String → Bool
unique [] = true
unique (s ∷ ts) = not (mem s ts) && unique ts

-- `set(xs) <= set(ys)`.
abbrev pub subset : List String → List String → Bool
subset xs ys = all (λ x. mem x ys) xs

-- `set(xs)`, as a list without repetitions
unfoldable pub to_set : List String → List String
to_set [] = []
to_set (x ∷ xs) = let rest = to_set xs in if mem x rest then rest else x ∷ rest

pub mem-append : (s : String) (xs ys : List String) → mem s (xs ++ ys) ≡ (mem s xs || mem s ys)
mem-append s [] ys = refl
mem-append s (x ∷ xs) ys = ground (arith, mem-append s xs ys)

-- What holds of every member holds all along the list.
pub All_of_mem {κ} :
    (P : String → Type κ) (xs : List String) → ((x : String) → mem x xs ≡ true → P x) → All P xs
All_of_mem P [] f = tt
All_of_mem P (x ∷ xs) f =
    (f x (ground (arith, str_eq_refl x)), All_of_mem P xs (λ y m. f y (ground arith)))

pub mem-All {κ} :
    (P : String → Type κ) (x : String) (xs : List String) → All P xs → mem x xs ≡ true → P x
mem-All P x [] a m = cc
mem-All P x (y ∷ ys) a m = elim (str_cases y x) [
  | inl e ↦ subst P e a.0
  | inr e ↦ mem-All P x ys a.1 (ground arith)
]

pub subset-mem :
    (s : String) (xs ys : List String) → subset xs ys ≡ true → mem s xs ≡ true → mem s ys ≡ true
subset-mem s [] ys h m = ground arith
subset-mem s (x ∷ xs) ys h m = ground (arith, subset-mem s xs ys, str_eq_iff x s)

-- What lies in a set still does once the set has grown.
pub subset_grow :
    (xs ys zs : List String)
    → ((s : String) → mem s ys ≡ true → mem s zs ≡ true)
    → subset xs ys ≡ true
    → subset xs zs ≡ true
subset_grow [] ys zs g h = refl
subset_grow (x ∷ xs) ys zs g h = ground (arith, g x, subset_grow xs ys zs g)

pub subset_of_mem :
    (xs ys : List String) → ((x : String) → mem x xs ≡ true → mem x ys ≡ true) → subset xs ys ≡ true
subset_of_mem [] ys f = refl
subset_of_mem (x ∷ xs) ys f =
    ground (arith, f x, str_eq_refl x, subset_of_mem xs ys λ y m. f y (ground arith))
