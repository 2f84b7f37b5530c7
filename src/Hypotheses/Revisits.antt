-- ===== src/Hypotheses/Revisits.antt =====
-- The event that `check_proposal` of scripts/hypothesis_ledger.py leaves keeps a ledger valid once it is
-- recorded.
use ai_coding_workflow.Prelude.{
  subset_of_mem, ℕ, ◌+◌, String, ◌≡◌, refl, sym, ◌∙◌, subst, Bool, true, false, ◌||◌, inl, inr,
  List, [], ◌∷◌, ◌++◌, map, mem, unique, subset, subset-mem, str_cases, any, str_eq, str_eq_iff,
  str_eq_refl, is_empty, is_empty_text, All, arith, append-eq-nil, Dict, dict_put,
}
use ai_coding_workflow.Hypotheses.Model.{
  MatchType, HypothesisItem, RevisitEvent, HypothesisLedger, in_event, text_flaws, string_flaws,
  text_fields, digest_flaws, event_flaws, events_flaws,
}
use ai_coding_workflow.Hypotheses.Operations.{Proposal, match_type, matches_of, item_id}
use ai_coding_workflow.Hypotheses.Ledger.{seal_event, active_items, match_id, types_of}
use ai_coding_workflow.Hypotheses.Items.{IsFine}

abbrev keys_of : Dict MatchType → List String
keys_of d = map (λ p. p.0) d

keys_of-dict_put :
    (x k : String) (m : MatchType) (d : Dict MatchType)
    → mem x (keys_of (dict_put k m d)) ≡ (str_eq k x || mem x (keys_of d))
unfolding dict_put
keys_of-dict_put x k m [] = refl
keys_of-dict_put x k m ((j, n) ∷ d) = ground (arith, keys_of-dict_put x k m d, str_eq_iff j k)

pub keys_of-types_of :
    (x : String) (ms : List (HypothesisItem × MatchType)) (d : Dict MatchType)
    → mem x (keys_of (types_of ms d)) ≡ (mem x (map match_id ms) || mem x (keys_of d))
unfolding types_of
keys_of-types_of x [] d = refl
keys_of-types_of x ((i, m) ∷ ms) d =
    ground (arith, keys_of-types_of x ms (dict_put i.id m d), keys_of-dict_put x i.id m d)

-- Matches are items of the ledger.
pub matches_of-mem :
    (is_similar : String → String → Bool) (key : String) (p : Proposal) (x : String)
    (items : List HypothesisItem)
    → mem x (map match_id (matches_of is_similar key p (active_items items))) ≡ true
    → mem x (map item_id items) ≡ true
unfolding matches_of match_type
matches_of-mem is_similar key p x [] h = h
matches_of-mem is_similar key p x (i ∷ is) h = ground (arith, matches_of-mem is_similar key p x is)

text_fields-id : (i : HypothesisItem) → text_fields i ≡ [] → is_empty_text i.id ≡ false
unfolding text_fields
text_fields-id i h = let (a, _) = append-eq-nil (text_flaws "id" i.id) _ h in ground arith

-- No id of a fine item is empty.
pub fine_ids :
    (normalize_statement sha256 : String → String) (items : List HypothesisItem)
    → All (IsFine normalize_statement sha256) items
    → any is_empty_text (map item_id items) ≡ false
fine_ids normalize_statement sha256 [] f = refl
fine_ids normalize_statement sha256 (i ∷ is) (f, fs) =
    ground (arith, text_fields-id i f.0, fine_ids normalize_statement sha256 is fs)

any-mem :
    (p : String → Bool) (x : String) (ys : List String)
    → any p ys ≡ false
    → mem x ys ≡ true
    → p x ≡ false
any-mem p x [] h m = cc
any-mem p x (y ∷ ys) h m = elim (str_cases y x) [
  | inl e ↦ subst (λ z. p z ≡ false) e (ground arith)
  | inr e ↦ any-mem p x ys (ground arith) (ground arith)
]

-- What holds of no text holds of none of fewer texts.
any_fewer :
    (p : String → Bool) (xs ys : List String)
    → ((x : String) → mem x xs ≡ true → mem x ys ≡ true)
    → any p ys ≡ false
    → any p xs ≡ false
any_fewer p [] ys f h = refl
any_fewer p (x ∷ xs) ys f h = ground (
  arith,
  any-mem p x ys h (f x (ground (arith, str_eq_refl x))),
  any_fewer p xs ys (λ y m. f y (ground arith)) h,
)

pub matched_flaws :
    (name : String) (xs ys : List String)
    → ((x : String) → mem x xs ≡ true → mem x ys ≡ true)
    → any is_empty_text ys ≡ false
    → is_empty xs ≡ false
    → unique xs ≡ true
    → string_flaws name true xs ≡ []
unfolding string_flaws
matched_flaws name xs ys f h n u = rw (any_fewer is_empty_text xs ys f h, n, u) refl

module _ (normalize_statement sha256 : String → String) (event_digest : RevisitEvent → String)
    (ledger_digest : HypothesisLedger → String) where
  -- A new event at the end.
  pub events_flaws-append :
      (n : ℕ) (known seen : List String) (es : List RevisitEvent) (e : RevisitEvent)
      → events_flaws normalize_statement sha256 event_digest ledger_digest n known seen es ≡ []
      → any (λ x. str_eq x.event_id e.event_id) es ≡ false
      → mem e.event_id seen ≡ false
      → ((seen' : List String)
          → mem e.event_id seen' ≡ false
          → event_flaws normalize_statement sha256 event_digest ledger_digest known seen' e ≡ [])
      → events_flaws normalize_statement sha256 event_digest ledger_digest n known seen
          (es ++ e ∷ [])
        ≡ []
  unfolding events_flaws
  events_flaws-append n known seen [] e h a s g = rw (g seen s) refl
  events_flaws-append n known seen (x ∷ es) e h a s g =
      let (here, later) =
        append-eq-nil
          (map (in_event n)
            (event_flaws normalize_statement sha256 event_digest ledger_digest known seen x))
          _ h in
      rw
        (
          here,
          events_flaws-append (n + 1) known (x.event_id ∷ seen) es e later (ground arith)
              (ground arith) g,
        )
        refl

  -- The event of a valid proposal with matches.
  pub seal_event-flaws :
      (e : RevisitEvent) (known seen : List String)
      → is_empty_text e.observed_at ≡ false
      → is_empty_text e.producer ≡ false
      → is_empty_text e.repository_state_hash ≡ false
      → digest_flaws normalize_statement sha256 e.statement e.statement_hash ≡ []
      → string_flaws "evidence_refs" false e.evidence_refs ≡ []
      → string_flaws "scope_refs" false e.scope_refs ≡ []
      → string_flaws "matched_hypothesis_ids" true e.matched_hypothesis_ids ≡ []
      → subset e.matched_hypothesis_ids known ≡ true
      → ((x : String) → mem x (keys_of e.match_types) ≡ mem x e.matched_hypothesis_ids)
      → mem (seal_event normalize_statement sha256 event_digest ledger_digest e).event_id seen
        ≡ false
      → event_flaws normalize_statement sha256 event_digest ledger_digest known seen
          (seal_event normalize_statement sha256 event_digest ledger_digest e)
        ≡ []
  unfolding event_flaws
  seal_event-flaws e known seen o p r d v c m k t s =
      let keys = keys_of e.match_types in
      let there = subset_of_mem keys e.matched_hypothesis_ids λ x h. sym (t x) ∙ h in
      let back = subset_of_mem e.matched_hypothesis_ids keys λ x h. t x ∙ h in
      let ids =
        subset_of_mem keys known
          λ x h. subset-mem x e.matched_hypothesis_ids known k (sym (t x) ∙ h) in
      rw (o, p, r, str_eq_refl _, s, d, v, c, m, k, there, back, ids) refl
