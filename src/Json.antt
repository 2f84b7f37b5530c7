-- ===== src/Json.antt =====
-- JSON documents as Python's `json` module reads them, where the program looks at them untyped:
-- the payloads of events (scripts/workflow_state.py).
use ai_coding_workflow.Prelude.{
  ℕ, zero, suc, String, Bool, true, false, not, Option, none, some, List, [], ◌∷◌, str_eq,
  is_empty_text, if◌then◌else◌,
}

-- `num` is an integer that is not negative, zero in every spelling included; `number` is any
-- other number.
mutual
  pub data Json : Type 0 where
    null number : Json
    bool : Bool → Json
    num : ℕ → Json
    str : String → Json
    arr : Items → Json
    obj : Fields → Json

  pub data Items : Type 0 where
    nil : Items
    cons : Json → Items → Items

  pub data Fields : Type 0 where
    end : Fields
    field : String → Json → Fields → Fields

-- `value.get(key)`, `key in value`.
unfoldable pub get : String → Fields → Option Json
get k end = none
get k (field j v fs) = if str_eq j k then some v else get k fs

unfoldable pub has : String → Fields → Bool
unfolding get
has k fs = elim (get k fs) [ none ↦ false | some _ ↦ true ]

-- `value[key]`, where the caller has seen that the key is there.
unfoldable pub at : String → Fields → Json
unfolding get
at k fs = elim (get k fs) [ none ↦ null | some v ↦ v ]

-- `bool(value)`.
unfoldable pub truthy : Json → Bool
truthy null = false
truthy number = true
truthy (bool b) = b
truthy (num zero) = false
truthy (num (suc n)) = true
truthy (str s) = not (is_empty_text s)
truthy (arr nil) = false
truthy (arr (cons x xs)) = true
truthy (obj end) = false
truthy (obj (field k v fs)) = true

-- `isinstance(value, list) and all(isinstance(item, str) and item for item in value)`, with the
-- items as texts.
unfoldable pub item_strings : Items → Option (List String)
item_strings nil = some []
item_strings (cons (str s) xs) =
    let rest = item_strings xs in
    if is_empty_text s then none else elim rest [ none ↦ none | some ss ↦ some (s ∷ ss) ]
item_strings (cons x xs) = none

unfoldable pub strings : Json → Option (List String)
unfolding item_strings
strings (arr xs) = item_strings xs
strings v = none
