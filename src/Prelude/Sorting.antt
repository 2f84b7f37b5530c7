-- ===== src/Prelude/Sorting.antt =====
-- Python's `sorted(xs, key=…)` at keys that are texts: a stable sort by code points.
use Prim.Native.String.{String}
use mathlib.Core.Path.{◌≡◌, refl, sym, subst}
use mathlib.Core.Logic.{inl, inr}
use mathlib.Core.Bool.{true, false, not, ◌&&◌, ◌||◌}
use mathlib.Core.List.{List, [], ◌∷◌, map, Memᴰ}
use native.Mathlib.Omega.{arith}
use ai_coding_workflow.Prelude.Tests.{str_eq, str_eq_iff, str_eq_sym, if◌then◌else◌, Bool-cases}
use ai_coding_workflow.Prelude.Lists.{mem, unique, All}
use ai_coding_workflow.Prelude.Text.{str_leb}

-- Adjacent items are in order.
abbrev pub IsSorted {ℓ} : {A : Type ℓ} → (A → String) → List A → Type 0
IsSorted key [] = Unit
IsSorted key (x ∷ []) = Unit
IsSorted key (x ∷ y ∷ ys) = (str_leb (key x) (key y) ≡ true) × IsSorted key (y ∷ ys)

pub str_leb_total : (s t : String) → str_leb s t ≡ false → str_leb t s ≡ true
unfolding str_leb
str_leb_total String.[] t h = cc
str_leb_total (String.◌∷◌ c s) String.[] h = refl
str_leb_total (String.◌∷◌ c s) (String.◌∷◌ d t) h = ground (arith, str_leb_total s t)

module _ {ℓ} {A : Type ℓ} (key : A → String) where
  -- Before the first item whose key is not smaller.
  unfoldable pub insert_by : A → List A → List A
  insert_by x [] = x ∷ []
  insert_by x (y ∷ ys) =
      let rest = y ∷ insert_by x ys in if str_leb (key x) (key y) then x ∷ y ∷ ys else rest

  unfoldable pub sort_by : List A → List A
  unfolding insert_by
  sort_by [] = []
  sort_by (x ∷ xs) = insert_by x (sort_by xs)

  All-insert_by {κ} :
      (P : A → Type κ) (x : A) (ys : List A) → P x → All P ys → All P (insert_by x ys)
  unfolding insert_by
  All-insert_by P x [] p h = (p, tt)
  All-insert_by P x (y ∷ ys) p h = elim (Bool-cases (str_leb (key x) (key y))) [
    | inl e ↦ rw e (p, h)
    | inr e ↦ rw e (h.0, All-insert_by P x ys p h.1)
  ]

  pub All-sort_by {κ} : (P : A → Type κ) (xs : List A) → All P xs → All P (sort_by xs)
  unfolding sort_by
  All-sort_by P [] h = tt
  All-sort_by P (x ∷ xs) h = All-insert_by P x (sort_by xs) h.0 (All-sort_by P xs h.1)

  mem-insert_by :
      (s : String) (x : A) (ys : List A)
      → mem s (map key (insert_by x ys)) ≡ (str_eq (key x) s || mem s (map key ys))
  unfolding insert_by
  mem-insert_by s x [] = refl
  mem-insert_by s x (y ∷ ys) = ground (arith, mem-insert_by s x ys)

  pub mem-sort_by : (s : String) (xs : List A) → mem s (map key (sort_by xs)) ≡ mem s (map key xs)
  unfolding sort_by
  mem-sort_by s [] = refl
  mem-sort_by s (x ∷ xs) = ground (arith, mem-insert_by s x (sort_by xs), mem-sort_by s xs)

  unique-insert_by :
      (x : A) (ys : List A)
      → unique (map key (insert_by x ys)) ≡ (not (mem (key x) (map key ys)) && unique (map key ys))
  unfolding insert_by
  unique-insert_by x [] = refl
  unique-insert_by x (y ∷ ys) = ground (
    arith,
    unique-insert_by x ys,
    mem-insert_by (key y) x ys,
    str_eq_sym (key x) (key y),
    str_eq_iff (key x) (key y),
  )

  pub unique-sort_by : (xs : List A) → unique (map key (sort_by xs)) ≡ unique (map key xs)
  unfolding sort_by
  unique-sort_by [] = refl
  unique-sort_by (x ∷ xs) =
      ground (arith, unique-insert_by x (sort_by xs), mem-sort_by (key x) xs, unique-sort_by xs)

  -- The head stays in front of an insertion that its own key comes before.
  IsSorted-below :
      (x y z : A) (zs : List A)
      → str_leb (key y) (key x) ≡ true
      → str_leb (key y) (key z) ≡ true
      → IsSorted key (insert_by x (z ∷ zs))
      → IsSorted key (y ∷ insert_by x (z ∷ zs))
  unfolding insert_by
  IsSorted-below x y z zs yx yz h = elim (Bool-cases (str_leb (key x) (key z))) [
    | inl e ↦ rw e (yx, rw e at h)
    | inr e ↦ rw e (yz, rw e at h)
  ]

  IsSorted-insert_by : (x : A) (ys : List A) → IsSorted key ys → IsSorted key (insert_by x ys)
  unfolding insert_by
  IsSorted-insert_by x [] h = tt
  IsSorted-insert_by x (y ∷ []) h = elim (Bool-cases (str_leb (key x) (key y))) [
    | inl e ↦ rw e (e, tt)
    | inr e ↦ rw e (str_leb_total (key x) (key y) e, tt)
  ]
  IsSorted-insert_by x (y ∷ z ∷ zs) h = elim (Bool-cases (str_leb (key x) (key y))) [
    | inl e ↦ rw e (e, h)
    | inr e ↦ rw e (
        IsSorted-below x y z zs (str_leb_total (key x) (key y) e) h.0
          (IsSorted-insert_by x (z ∷ zs) h.1))
  ]

  -- `sorted` puts the items in order.
  pub IsSorted-sort_by : (xs : List A) → IsSorted key (sort_by xs)
  unfolding sort_by
  IsSorted-sort_by [] = tt
  IsSorted-sort_by (x ∷ xs) = IsSorted-insert_by x (sort_by xs) (IsSorted-sort_by xs)

  Memᴰ-insert_by_self : (x : A) (ys : List A) → Memᴰ x (insert_by x ys)
  unfolding insert_by
  Memᴰ-insert_by_self x [] = Memᴰ.head refl
  Memᴰ-insert_by_self x (y ∷ ys) = elim (Bool-cases (str_leb (key x) (key y))) [
    | inl b ↦ rw b (Memᴰ.head refl)
    | inr b ↦ rw b (Memᴰ.tail (Memᴰ-insert_by_self x ys))
  ]

  Memᴰ-insert_by_other : {a : A} (x : A) {ys : List A} → Memᴰ a ys → Memᴰ a (insert_by x ys)
  unfolding insert_by
  Memᴰ-insert_by_other x (Memᴰ.head {x = y} e) = elim (Bool-cases (str_leb (key x) (key y))) [
    | inl b ↦ rw b (Memᴰ.tail (Memᴰ.head e))
    | inr b ↦ rw b (Memᴰ.head e)
  ]
  Memᴰ-insert_by_other x (Memᴰ.tail {x = y} k) =
      let below = Memᴰ-insert_by_other x k in
      elim (Bool-cases (str_leb (key x) (key y))) [
        | inl b ↦ rw b (Memᴰ.tail (Memᴰ.tail k))
        | inr b ↦ rw b (Memᴰ.tail below)
      ]

  -- Sorting loses no item.
  pub Memᴰ-sort_by : {a : A} {xs : List A} → Memᴰ a xs → Memᴰ a (sort_by xs)
  unfolding sort_by
  Memᴰ-sort_by (Memᴰ.head {x = x} {xs = xs} e) =
      subst (λ a. Memᴰ a (insert_by x (sort_by xs))) (sym e) (Memᴰ-insert_by_self x (sort_by xs))
  Memᴰ-sort_by (Memᴰ.tail {x = x} k) = Memᴰ-insert_by_other x (Memᴰ-sort_by k)
