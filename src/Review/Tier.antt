-- ===== src/Review/Tier.antt =====
-- `select_tier` of scripts/select-review-tier.py, over the JSON object that it reads. A loop over a
-- value that is no list, text or object raises TypeError.
use ai_coding_workflow.Prelude.{
  String, Bool, true, false, not, ◌&&◌, ◌||◌, Option, none, some, List, [], ◌∷◌, ◌++◌, all, any,
  is_empty, is_empty_text, str_eq, if◌then◌else◌, Result, ok, err, ◌>>=◌, sort_by, to_set,
}
use ai_coding_workflow.Json.{
  Json, null, bool, str, arr, obj, Items, nil, cons, Fields, end, field, get, truthy,
}

pub data Tier : Type 0 where
  l0_local l1_spark l2_codex legacy : Tier

pub data ReviewAction : Type 0 where
  stop human_review spark_review codex_review : ReviewAction

pub data TypeError : Type 0 where
  not_iterable : TypeError

abbrev pub get_or : String → Json → Fields → Json
get_or k d fs = elim (get k fs) [ none ↦ d | some v ↦ v ]

-- `value == word` for a text
abbrev pub is_word : String → Json → Bool
is_word w (str s) = str_eq s w
is_word w v = false

abbrev pub object_of : Option Json → Option Fields
object_of (some (obj fs)) = some fs
object_of _ = none

abbrev is_list : Option Json → Bool
is_list (some (arr xs)) = true
is_list _ = false

unfoldable pub bundle : Fields → Option Fields
bundle input = elim (object_of (get "acceptance_bundle" input)) [
  | some candidate ↦ some candidate
  | none ↦ if is_list (get "acceptance_index" input) then some input else none
]

-- `[item for item in xs if isinstance(item, dict)]`
unfoldable pub objects : Items → List Fields
objects nil = []
objects (cons (obj fs) xs) = fs ∷ objects xs
objects (cons x xs) = objects xs

unfoldable pub index_items : Json → Result TypeError (List Fields)
index_items (arr xs) = ok (objects xs)
index_items (str s) = ok []
index_items (obj fs) = ok []
index_items v = err not_iterable

unfoldable pub any_truthy : Items → Bool
any_truthy nil = false
any_truthy (cons x xs) = truthy x || any_truthy xs

unfoldable pub any_key : Fields → Bool
any_key end = false
any_key (field k v fs) = not (is_empty_text k) || any_key fs

-- whether `[str(value) for value in v if value]` is not empty
unfoldable pub expanded : Json → Result TypeError Bool
expanded (arr xs) = ok (any_truthy xs)
expanded (str s) = ok (not (is_empty_text s))
expanded (obj fs) = ok (any_key fs)
expanded v = err not_iterable

-- `str(item.get("status", "unknown")) == word`, for the words that occur; only a text is one of them
unfoldable pub has_status : String → Fields → Bool
has_status w item = is_word w (get_or "status" (str "unknown") item)

abbrev fields_of : Option Json → Fields
fields_of (some (obj fs)) = fs
fields_of _ = end

unfoldable pub selection : Fields → Fields
selection b = fields_of (get "review_selection" b)

unfoldable pub semantic_risk : Fields → List Fields → Bool
semantic_risk b items =
    truthy (get_or "deep_codex_review_required" null (selection b))
    || truthy (get_or "semantic_risk" null b)
    || any (λ i. has_status "contradictory" i || has_status "reopened" i) items

unfoldable pub all_supported : List Fields → Bool
all_supported items = all (has_status "supported") items

unfoldable pub bundle_review : Fields → Result TypeError (Tier × List String)
bundle_review b = do
  items ← index_items (get_or "acceptance_index" (arr nil) b)
  more ← expanded (get_or "expanded_acceptance_ids" (arr nil) (selection b))
  ok (
      if semantic_risk b items
      then (l2_codex, "semantic-risk-acceptance-delta" ∷ [])
      else if more || not (all_supported items)
      then (l1_spark, "mechanical-or-coverage-acceptance-delta" ∷ [])
      else if not (is_empty items)
      then (l0_local, "deterministic-acceptance-evidence-sufficient" ∷ [])
      else (legacy, "acceptance-index-unavailable" ∷ []))

unfoldable pub bundle_tier : Option Fields → Result TypeError (Tier × List String)
bundle_tier none = ok (legacy, [])
bundle_tier (some b) = bundle_review b

unfoldable pub is_assured : Fields → Bool
is_assured input = is_word "assured" (get_or "lane" (str "standard") input)

-- `lane == "assured" or input.get("codex_required") or input.get("review_triggers")`
unfoldable pub wants_codex : Fields → Bool
wants_codex input =
    is_assured input
    || truthy (get_or "codex_required" null input)
    || truthy (get_or "review_triggers" null input)

abbrev pub is_legacy : Tier → Bool
is_legacy legacy = true
is_legacy _ = false

abbrev pub is_local : Tier → Bool
is_local l0_local = true
is_local _ = false

abbrev pub is_codex : Tier → Bool
is_codex l2_codex = true
is_codex _ = false

unfoldable pub tier_of : Fields → Tier × List String → Tier × List String
tier_of input (tier, reasons) =
    if wants_codex input
    then (l2_codex, reasons ++ "assured-or-explicit-codex-review" ∷ [])
    else if not (is_legacy tier)
    then (tier, reasons)
    else if not (is_word "passed" (get_or "status" null input))
        || truthy (get_or "semantic_uncertainty" null input)
    then (l1_spark, reasons ++ "legacy-non-passing-or-uncertain-evidence" ∷ [])
    else (l0_local, reasons ++ "legacy-deterministic-evidence-sufficient" ∷ [])

-- `value is False`
abbrev pub is_false : Json → Bool
is_false (bool b) = not b
is_false v = false

unfoldable pub is_unavailable : Fields → Bool
is_unavailable input = is_false (get_or "codex_available" null input)

-- The dictionary of actions; no tier is `legacy` here.
abbrev pub usual_action : Tier → ReviewAction
usual_action l0_local = human_review
usual_action l1_spark = spark_review
usual_action l2_codex = codex_review
usual_action legacy = human_review

unfoldable pub action_of : Fields → Tier → ReviewAction
action_of input tier =
    if is_unavailable input && is_codex tier
    then if is_assured input then stop else human_review
    else usual_action tier

pub record Selected : Type 0 where
  pub tier : Tier
  pub action : ReviewAction
  pub reason_codes : List String
  pub deterministic_closed : Bool
  pub expands_on_demand : Bool
  pub final_merge_authorized : Bool

-- `sorted(set(reasons))`
unfoldable pub sorted_set : List String → List String
sorted_set xs = sort_by (λ (s : String). s) (to_set xs)

unfoldable pub select_tier : Fields → Result TypeError Selected
select_tier input = do
  b ← bundle_tier (bundle input)
  let t = tier_of input b
  ok (record {
    tier = t.0;
    action = action_of input t.0;
    reason_codes = sorted_set t.1;
    deterministic_closed = is_local t.0 && is_local b.0;
    expands_on_demand = is_codex t.0;
    final_merge_authorized = false;
  })
