-- ===== src/Prelude/Dicts.antt =====
-- Python's `dict` with texts as keys, in the order of insertion: a list of entries.
use Prim.Native.String.{String}
use mathlib.Core.Path.{◌≡◌, refl}
use mathlib.Core.Bool.{Bool, true, false}
use mathlib.Core.Option.{Option, none, some}
use mathlib.Core.List.{List, [], ◌∷◌, ◌++◌}
use native.Mathlib.Omega.{arith}
use ai_coding_workflow.Prelude.Tests.{str_eq, str_eq_refl, str_eq_iff, if◌then◌else◌}

abbrev pub Dict {ℓ} : Type ℓ → Type ℓ
Dict V = List (String × V)

module _ {ℓ} {V : Type ℓ} where
  -- `d.get(k)`
  unfoldable pub dict_get : String → Dict V → Option V
  dict_get k [] = none
  dict_get k ((j, v) ∷ d) = if str_eq j k then some v else dict_get k d

  -- `d[k] = v`: in place, or at the end
  unfoldable pub dict_put : String → V → Dict V → Dict V
  dict_put k v [] = (k, v) ∷ []
  dict_put k v ((j, w) ∷ d) =
      let rest = (j, w) ∷ dict_put k v d in if str_eq j k then (j, v) ∷ d else rest

  abbrev pub values : Dict V → List V
  values [] = []
  values ((k, v) ∷ d) = v ∷ values d

  abbrev pub lacks : String → Dict V → Bool
  lacks k d = elim (dict_get k d) [ none ↦ true | some v ↦ false ]

-- A write is read back under its key, and changes nothing under another.
pub dict_get-dict_put {ℓ} :
    {V : Type ℓ} (k j : String) (v : V) (d : Dict V)
    → dict_get k (dict_put j v d) ≡ (if str_eq j k then some v else dict_get k d)
unfolding dict_get dict_put
dict_get-dict_put k j v [] = refl
dict_get-dict_put k j v ((i, w) ∷ d) =
    ground (arith, dict_get-dict_put k j v d, str_eq_iff i j, str_eq_iff i k, str_eq_iff j k)

module _ {ℓ} {V : Type ℓ} (k : String) where
  pub dict_put_new : (v : V) (d : Dict V) → lacks k d ≡ true → dict_put k v d ≡ d ++ (k, v) ∷ []
  unfolding dict_get dict_put
  dict_put_new v [] h = refl
  dict_put_new v ((j, w) ∷ d) h = ground (arith, dict_put_new v d)

  pub dict_put_last :
      (v w : V) (d : Dict V) → lacks k d ≡ true → dict_put k v (d ++ (k, w) ∷ []) ≡ d ++ (k, v) ∷ []
  unfolding dict_get dict_put
  dict_put_last v w [] h = ground (arith, str_eq_refl k)
  dict_put_last v w ((j, u) ∷ d) h = ground (arith, dict_put_last v w d)

  pub dict_get_last :
      (v : V) (d : Dict V) → lacks k d ≡ true → dict_get k (d ++ (k, v) ∷ []) ≡ some v
  unfolding dict_get
  dict_get_last v [] h = ground (arith, str_eq_refl k)
  dict_get_last v ((j, u) ∷ d) h = ground (arith, dict_get_last v d)

pub values-append {ℓ} : {V : Type ℓ} (d e : Dict V) → values (d ++ e) ≡ values d ++ values e
values-append [] e = refl
values-append ((k, v) ∷ d) e = rw (values-append d e)

-- A write under another key leaves a missing key missing.
pub lacks-dict_put {ℓ} :
    {V : Type ℓ} (k j : String) (v : V) (d : Dict V)
    → str_eq j k ≡ false
    → lacks k d ≡ true
    → lacks k (dict_put j v d) ≡ true
unfolding dict_get dict_put
lacks-dict_put k j v [] e h = ground arith
lacks-dict_put k j v ((i, w) ∷ d) e h =
    ground (arith, lacks-dict_put k j v d, str_eq_iff i j, str_eq_iff i k, str_eq_iff j k)
