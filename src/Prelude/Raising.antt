-- ===== src/Prelude/Raising.antt =====
-- A computation that may raise, with the error as a value.
use mathlib.Core.Path.{◌≡◌, refl, ap}
use mathlib.Core.Logic.{◌⊎◌, inl, inr}
use mathlib.Core.Bool.{Bool, true, false}
use mathlib.Core.List.{List, [], ◌∷◌, ◌++◌, map}
use ai_coding_workflow.Prelude.Lists.{All, is_empty}

pub data Result {ℓ} (E : Type 0) (A : Type ℓ) : Type ℓ where
  ok : A → Result E A
  err : E → Result E A

infixl 5 ◌>>=◌ ◌>>◌
abbrev pub ◌>>=◌ {ℓ κ} :
    {E : Type 0} {A : Type ℓ} {B : Type κ} → Result E A → (A → Result E B) → Result E B
ok value >>= rest = rest value
err raised >>= rest = err raised

abbrev pub ◌>>◌ {ℓ} : {E : Type 0} {B : Type ℓ} → Result E (Unit {0}) → Result E B → Result E B
first >> rest = first >>= λ _. rest

-- `if test: raise e`.
abbrev pub raise_if : {E : Type 0} → Bool → E → Result E (Unit {0})
raise_if true e = err e
raise_if false e = ok tt

pub Result-cases {ℓ} :
    {E : Type 0} {A : Type ℓ} (r : Result E A) → ((a : A) × (r ≡ ok a)) ⊎ ((e : E) × (r ≡ err e))
Result-cases (ok a) = inl (a, refl)
Result-cases (err e) = inr (e, refl)

pub ok-injective {ℓ} :
    {E : Type 0} {A : Type ℓ} {a b : A} → ◌≡◌ {A = Result E A} (ok a) (ok b) → a ≡ b
ok-injective {a = a} h = ap (λ r. elim r [ ok x ↦ x | err e ↦ a ]) h

-- What a block that returns has computed first, and what its rest makes of it.
pub >>=-eq-ok {ℓ κ} :
    {E : Type 0} {A : Type ℓ} {B : Type κ} (first : Result E A) (rest : A → Result E B) {out : B}
    → (first >>= rest) ≡ ok out
    → (mid : A) × (first ≡ ok mid) × (rest mid ≡ ok out)
>>=-eq-ok (ok mid) rest returned = (mid, refl, returned)
>>=-eq-ok (err e) rest returned = cc

-- A validator returns the list of what it found. `errors.append(e)` under a test:
abbrev pub note : {E : Type 0} → Bool → E → List E
note true e = e ∷ []
note false e = []

-- `for x in xs: errors.extend(f(x))`.
abbrev pub collect {ℓ} : {E : Type 0} {A : Type ℓ} → (A → List E) → List A → List E
collect f [] = []
collect f (x ∷ xs) = f x ++ collect f xs

module _ {E : Type 0} where
  pub append-eq-nil : (xs ys : List E) → xs ++ ys ≡ [] → (xs ≡ []) × (ys ≡ [])
  append-eq-nil [] ys h = (refl, h)
  append-eq-nil (x ∷ xs) ys h = (cc, cc)

  pub nil-append : (xs ys : List E) → xs ≡ [] → ys ≡ [] → xs ++ ys ≡ []
  nil-append [] ys h k = k
  nil-append (x ∷ xs) ys h k = cc

  pub note-eq-nil : (b : Bool) (e : E) → note b e ≡ [] → b ≡ false
  note-eq-nil true e h = cc
  note-eq-nil false e h = refl

  pub collect-eq-nil {ℓ} :
      {A : Type ℓ} (f : A → List E) (xs : List A) → collect f xs ≡ [] → All (λ x. f x ≡ []) xs
  collect-eq-nil f [] h = tt
  collect-eq-nil f (x ∷ xs) h =
      let p = append-eq-nil (f x) (collect f xs) h in (p.0, collect-eq-nil f xs p.1)

  pub collect_nil {ℓ} :
      {A : Type ℓ} (f : A → List E) (xs : List A) → All (λ x. f x ≡ []) xs → collect f xs ≡ []
  collect_nil f [] h = refl
  collect_nil f (x ∷ xs) h = nil-append (f x) (collect f xs) h.0 (collect_nil f xs h.1)

pub raise_if-eq-ok : {E : Type 0} (b : Bool) (e : E) → raise_if b e ≡ ok tt → b ≡ false
raise_if-eq-ok true e h = cc
raise_if-eq-ok false e h = refl

-- A block that starts with a test and returns has passed the test.
pub raise_if->>-eq-ok {ℓ} :
    {E : Type 0} {B : Type ℓ} (b : Bool) (e : E) (k : Result E B) {r : B}
    → (raise_if b e >> k) ≡ ok r
    → (b ≡ false) × (k ≡ ok r)
raise_if->>-eq-ok true e k h = cc
raise_if->>-eq-ok false e k h = (refl, h)

pub raise_if->>-eq-err {ℓ} :
    {E : Type 0} {B : Type ℓ} (b : Bool) (e : E) (k : Result E B) {f : E}
    → (raise_if b e >> k) ≡ err f
    → (e ≡ f) ⊎ ((b ≡ false) × (k ≡ err f))
raise_if->>-eq-err true e k h = inl cc
raise_if->>-eq-err false e k h = inr (refl, h)

pub is_empty-eq-nil {ℓ} : {A : Type ℓ} (xs : List A) → is_empty xs ≡ true → xs ≡ []
is_empty-eq-nil [] h = refl
is_empty-eq-nil (x ∷ xs) h = cc

pub map-eq-nil {ℓ κ} : {A : Type ℓ} {B : Type κ} (f : A → B) (xs : List A) → map f xs ≡ [] → xs ≡ []
map-eq-nil f [] h = refl
map-eq-nil f (x ∷ xs) h = cc
