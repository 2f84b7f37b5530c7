-- ===== src/Review/Safety.antt =====
-- When scripts/select-review-tier.py closes a result without a model, and when it insists on one.
use ai_coding_workflow.Prelude.{
  String, subst, ◌≢◌, ◌≡◌, ◌∙◌, refl, ap, sym, true, false, ◌&&◌, Option, none, some, inl, inr,
  Bool-cases, Option-cases, str_eq_iff, ◌↔◌, List, is_empty, ok, >>=-eq-ok, ok-injective, arith,
}
use ai_coding_workflow.Json.{Json, Fields, null, number, num, bool, str, arr, obj, nil, get, truthy}
use ai_coding_workflow.Review.Tier.{
  Tier, ReviewAction, l2_codex, Selected, stop, human_review, codex_review, select_tier, bundle,
  bundle_tier, bundle_review, tier_of, wants_codex, is_assured, is_unavailable, is_local, is_word,
  is_false, index_items, expanded, get_or, selection, semantic_risk, all_supported, action_of,
}

selected_of :
    (input : Fields) (s : Selected)
    → select_tier input ≡ ok s
    → (b : Tier × List String) × (bundle_tier (bundle input) ≡ ok b)
      × (s.tier ≡ (tier_of input b).0)
      × (s.action ≡ action_of input (tier_of input b).0)
      × (s.deterministic_closed ≡ (is_local (tier_of input b).0 && is_local b.0))
unfolding select_tier
selected_of input s h =
    let (b, e, r) = >>=-eq-ok (bundle_tier (bundle input)) _ h in
    let same = sym (ok-injective r) in
    (
      b,
      e,
      ap (λ (x : Selected). x.tier) same,
      ap (λ (x : Selected). x.action) same,
      ap (λ (x : Selected). x.deterministic_closed) same,
    )

tier_wanted :
    (input : Fields) (b : Tier × List String)
    → wants_codex input ≡ true
    → (tier_of input b).0 ≡ l2_codex
unfolding tier_of
tier_wanted input (tier, reasons) w = rw w refl

tier_unwanted :
    (input : Fields) (b : Tier × List String)
    → (is_local (tier_of input b).0 && is_local b.0) ≡ true
    → (wants_codex input ≡ false) × (is_local b.0 ≡ true)
unfolding tier_of
tier_unwanted input (tier, reasons) h = (ground arith, ground arith)

-- The ladder of a bundle ends at the local tier only past the tests above it.
bundle_closed :
    (f : Fields) (b : Tier × List String)
    → bundle_review f ≡ ok b
    → is_local b.0 ≡ true
    → (items : List Fields) × (index_items (get_or "acceptance_index" (arr nil) f) ≡ ok items)
      × (is_empty items ≡ false)
      × (all_supported items ≡ true)
      × (semantic_risk f items ≡ false)
unfolding bundle_review
bundle_closed f b h l =
    let (items, i, h1) = >>=-eq-ok (index_items (get_or "acceptance_index" (arr nil) f)) _ h in
    let (more, m, h2) =
      >>=-eq-ok (expanded (get_or "expanded_acceptance_ids" (arr nil) (selection f))) _ h1 in
    let same = ap (λ (x : Tier × List String). is_local x.0) (ok-injective h2) ∙ l in
    (items, i, ground arith, ground arith, ground arith)

option_closed :
    (o : Option Fields) (b : Tier × List String)
    → bundle_tier o ≡ ok b
    → is_local b.0 ≡ true
    → (f : Fields) × (o ≡ some f) × (bundle_review f ≡ ok b)
unfolding bundle_tier
option_closed none b h l =
    let wrong = ap (λ (x : Tier × List String). is_local x.0) (ok-injective h) ∙ l in
    absurd (ground arith)
option_closed (some f) b h l = (f, refl, h)

-- The input asks for a review by Codex: by its lane, by its flag, or by its list of triggers.
pub data AsksCodex (input : Fields) : Type 0 where
  by_lane : get "lane" input ≡ some (str "assured") → AsksCodex input
  by_flag : (v : Json) → get "codex_required" input ≡ some v → truthy v ≡ true → AsksCodex input
  by_triggers :
      (v : Json) → get "review_triggers" input ≡ some v → truthy v ≡ true → AsksCodex input

get_or-some :
    (k : String) (d : Json) (fs : Fields) (v : Json) → get k fs ≡ some v → get_or k d fs ≡ v
get_or-some k d fs v e = ap (λ (o : Option Json). elim o [ none ↦ d | some w ↦ w ]) e

get_or-none : (k : String) (d : Json) (fs : Fields) → get k fs ≡ none → get_or k d fs ≡ d
get_or-none k d fs e = ap (λ (o : Option Json). elim o [ none ↦ d | some w ↦ w ]) e

asks-wants_codex : (input : Fields) → AsksCodex input → wants_codex input ≡ true
unfolding wants_codex is_assured
asks-wants_codex input (by_lane e) =
    let word = ap (is_word "assured") (get_or-some "lane" (str "standard") input _ e) in
    ground arith
asks-wants_codex input (by_flag v e t) =
    let flag = ap truthy (get_or-some "codex_required" null input v e) ∙ t in ground arith
asks-wants_codex input (by_triggers v e t) =
    let triggers = ap truthy (get_or-some "review_triggers" null input v e) ∙ t in ground arith

-- What becomes of a result that is to be reviewed by Codex: the review, when the input does not say
-- that Codex is unavailable; else the end in the assured lane, and a human outside of it.
pub data CodexAction (input : Fields) : ReviewAction → Type 0 where
  reviewed : get "codex_available" input ≢ some (bool false) → CodexAction input codex_review
  ended :
      get "codex_available" input ≡ some (bool false)
      → get "lane" input ≡ some (str "assured")
      → CodexAction input stop
  handed_over :
      get "codex_available" input ≡ some (bool false)
      → get "lane" input ≢ some (str "assured")
      → CodexAction input human_review

is_false-eq : (v : Json) → is_false v ≡ true → v ≡ bool false
is_false-eq (bool b) h = ap bool (ground arith)
is_false-eq null h = cc
is_false-eq number h = cc
is_false-eq (num n) h = cc
is_false-eq (str s) h = cc
is_false-eq (arr xs) h = cc
is_false-eq (obj fs) h = cc

is_word-eq : (w : String) (v : Json) → is_word w v ≡ true → v ≡ str w
is_word-eq w (str s) h = ap str ((str_eq_iff s w).0 h)
is_word-eq w (bool b) h = cc
is_word-eq w null h = cc
is_word-eq w number h = cc
is_word-eq w (num n) h = cc
is_word-eq w (arr xs) h = cc
is_word-eq w (obj fs) h = cc

is_unavailable_iff :
    (input : Fields)
    → (is_unavailable input ≡ true) ↔ (get "codex_available" input ≡ some (bool false))
unfolding is_unavailable
is_unavailable_iff input = (
  (λ h. elim (Option-cases (get "codex_available" input)) [
    | inl e ↦ absurd (ground (arith, ap is_false (get_or-none "codex_available" null input e)))
    | inr (v, e) ↦
        let same = get_or-some "codex_available" null input v e in
        e ∙ ap some (is_false-eq v (sym (ap is_false same) ∙ h))
  ]),
  λ e. ap is_false (get_or-some "codex_available" null input _ e),
)

is_assured_iff :
    (input : Fields) → (is_assured input ≡ true) ↔ (get "lane" input ≡ some (str "assured"))
unfolding is_assured
is_assured_iff input = (
  (λ h. elim (Option-cases (get "lane" input)) [
    | inl e ↦
        absurd
          (ground (arith, ap (is_word "assured") (get_or-none "lane" (str "standard") input e)))
    | inr (v, e) ↦
        let same = get_or-some "lane" (str "standard") input v e in
        e ∙ ap some (is_word-eq "assured" v (sym (ap (is_word "assured") same) ∙ h))
  ]),
  λ e. ap (is_word "assured") (get_or-some "lane" (str "standard") input _ e),
)

action_codex : (input : Fields) → CodexAction input (action_of input l2_codex)
unfolding action_of
action_codex input = elim (Bool-cases (is_unavailable input)) [
  | inr n ↦ rw n (reviewed (λ e. ground (arith, (is_unavailable_iff input).1 e)))
  | inl u ↦ elim (Bool-cases (is_assured input)) [
    | inl a ↦ rw (u, a) (ended ((is_unavailable_iff input).0 u) ((is_assured_iff input).0 a))
    | inr n ↦
        rw (u, n)
          (handed_over ((is_unavailable_iff input).0 u)
            (λ e. ground (arith, (is_assured_iff input).1 e)))
  ]
]

-- A result in the assured lane, or whose input has a true `codex_required` or `review_triggers`, is
-- never given to a lesser tier nor closed: it is reviewed by Codex unless Codex is said to be
-- unavailable, and then the review stops in the assured lane and goes to a human otherwise.
pub asked_codex_reviews :
    (input : Fields) (s : Selected)
    → select_tier input ≡ ok s
    → AsksCodex input
    → (s.tier ≡ l2_codex) × (s.deterministic_closed ≡ false) × CodexAction input s.action
asked_codex_reviews input s h asks =
    let (b, e, t, a, c) = selected_of input s h in
    let codex = tier_wanted input b (asks-wants_codex input asks) in
    (
      t ∙ codex,
      c ∙ ap (λ x. is_local x && is_local b.0) codex,
      subst (CodexAction input) (sym (a ∙ ap (action_of input) codex)) (action_codex input),
    )

-- A result is closed without a model only when there is an acceptance bundle whose index lists items
-- that are all supported, without semantic risk, and no review by Codex is asked for.
pub closed_only_supported :
    (input : Fields) (s : Selected)
    → select_tier input ≡ ok s
    → s.deterministic_closed ≡ true
    → (wants_codex input ≡ false)
      × ((b : Fields) × (items : List Fields) × (bundle input ≡ some b)
          × (index_items (get_or "acceptance_index" (arr nil) b) ≡ ok items)
          × (is_empty items ≡ false)
          × (all_supported items ≡ true)
          × (semantic_risk b items ≡ false))
closed_only_supported input s h c =
    let (b, e, t, a, d) = selected_of input s h in
    let (unwanted, local) = tier_unwanted input b (sym d ∙ c) in
    let (f, o, r) = option_closed (bundle input) b e local in
    let (items, i, n, u, k) = bundle_closed f b r local in (unwanted, (f, items, o, i, n, u, k))
