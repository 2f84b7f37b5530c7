-- ===== src/Review/Examples.antt =====
-- Runs of scripts/select-review-tier.py.
use ai_coding_workflow.Prelude.{
  ◌≡◌, some, true, false, List, [], ◌∷◌, ok, is_empty, refl, sort_by, to_set,
}
use ai_coding_workflow.Json.{Fields, end, field, str, bool, obj, arr, cons, nil, get, truthy}
use ai_coding_workflow.Review.Tier.{
  l0_local, l2_codex, Selected, stop, human_review, select_tier, wants_codex, is_assured, bundle,
  bundle_tier, bundle_review, tier_of, action_of, is_unavailable, index_items, objects, expanded,
  any_truthy, has_status, selection, semantic_risk, all_supported, get_or, sorted_set,
}
use ai_coding_workflow.Review.Safety.{
  CodexAction, by_lane, asked_codex_reviews, closed_only_supported,
}

-- an assured lane, without Codex
abbrev assured : Fields
assured = field "lane" (str "assured") (field "codex_available" (bool false) end)

abbrev stopped : Selected
stopped = record {
  tier = l2_codex;
  action = stop;
  reason_codes = "assured-or-explicit-codex-review" ∷ [];
  deterministic_closed = false;
  expands_on_demand = true;
  final_merge_authorized = false;
}

assured_stops : select_tier assured ≡ ok stopped
unfolding select_tier bundle bundle_tier get tier_of wants_codex is_assured action_of is_unavailable
    sorted_set to_set sort_by
assured_stops = refl

asked_codex_reviews_example :
    (stopped.tier ≡ l2_codex) × (stopped.deterministic_closed ≡ false) × CodexAction assured stop
unfolding get
asked_codex_reviews_example = asked_codex_reviews assured stopped assured_stops (by_lane refl)

-- an index with one supported item
abbrev index : Fields
index = field "acceptance_index" (arr (cons (obj (field "status" (str "supported") end)) nil)) end

abbrev closed : Selected
closed = record {
  tier = l0_local;
  action = human_review;
  reason_codes = "deterministic-acceptance-evidence-sufficient" ∷ [];
  deterministic_closed = true;
  expands_on_demand = false;
  final_merge_authorized = false;
}

index_closes : select_tier index ≡ ok closed
unfolding select_tier bundle bundle_tier bundle_review get truthy index_items objects expanded
    any_truthy has_status selection semantic_risk all_supported tier_of wants_codex is_assured
    action_of is_unavailable sorted_set to_set sort_by
index_closes = refl

closed_only_supported_example :
    (wants_codex index ≡ false)
    × ((b : Fields) × (items : List Fields) × (bundle index ≡ some b)
        × (index_items (get_or "acceptance_index" (arr nil) b) ≡ ok items)
        × (is_empty items ≡ false)
        × (all_supported items ≡ true)
        × (semantic_risk b items ≡ false))
closed_only_supported_example = closed_only_supported index closed index_closes refl
