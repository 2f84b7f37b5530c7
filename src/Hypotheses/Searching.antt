-- ===== src/Hypotheses/Searching.antt =====
-- Whether an item of the ledger of scripts/hypothesis_ledger.py has a property, through its operations.
use ai_coding_workflow.Prelude.{
  String, ◌≡◌, refl, ◌∙◌, ap, Bool, true, false, not, ◌&&◌, ◌||◌, ◌⊎◌, List, [], ◌∷◌, ◌++◌, mem,
  any, filter, to_set, str_eq, str_eq_iff, is_empty, arith, mem-filter, mem-to_set, mem-sorted,
  sort_by, insert_by, ok,
}
use ai_coding_workflow.Hypotheses.Model.{HypothesisItem, is_rejected}
use ai_coding_workflow.Hypotheses.Operations.{
  RejectInput, Proposal, same_metadata, is_active, find_equal, change_item, reopened_item,
  sorted_difference, item_id, match_type, matches_of,
}
use ai_coding_workflow.Hypotheses.Ledger.{active_items}

-- An item that a proposal of a statement with the hash repeats.
abbrev pub is_match : (String → String → Bool) → String → Proposal → HypothesisItem → Bool
is_match is_similar key p i =
    is_rejected i.status
    && (mem i.id p.related_hypothesis_ids
        || str_eq i.statement_hash key
        || is_similar i.statement p.statement)

-- An item that rejects the statement with the hash, by its id.
abbrev pub rejects : String → String → HypothesisItem → Bool
rejects id key i = str_eq i.id id && is_active key i

pub matches_of-is_empty :
    (is_similar : String → String → Bool) (key : String) (p : Proposal)
    (items : List HypothesisItem)
    → is_empty (matches_of is_similar key p (active_items items))
      ≡ not (any (is_match is_similar key p) items)
unfolding matches_of match_type
matches_of-is_empty is_similar key p [] = refl
matches_of-is_empty is_similar key p (i ∷ is) =
    ground (arith, matches_of-is_empty is_similar key p is)

pub any_implies :
    (p q : HypothesisItem → Bool) (items : List HypothesisItem)
    → ((i : HypothesisItem) → p i ≡ true → q i ≡ true)
    → any p items ≡ true
    → any q items ≡ true
any_implies p q [] f h = h
any_implies p q (i ∷ is) f h = ground (arith, f i, any_implies p q is f)

any-append :
    (p : HypothesisItem → Bool) (xs ys : List HypothesisItem)
    → any p (xs ++ ys) ≡ (any p xs || any p ys)
any-append p [] ys = refl
any-append p (x ∷ xs) ys = ground (arith, any-append p xs ys)

any-insert_by :
    (p : HypothesisItem → Bool) (x : HypothesisItem) (ys : List HypothesisItem)
    → any p (insert_by item_id x ys) ≡ (p x || any p ys)
unfolding insert_by
any-insert_by p x [] = refl
any-insert_by p x (y ∷ ys) = ground (arith, any-insert_by p x ys)

any-sort_by :
    (p : HypothesisItem → Bool) (xs : List HypothesisItem) → any p (sort_by item_id xs) ≡ any p xs
unfolding sort_by
any-sort_by p [] = refl
any-sort_by p (x ∷ xs) = ground (arith, any-insert_by p x (sort_by item_id xs), any-sort_by p xs)

pub find_equal-true :
    (key : String) (v : RejectInput) (items : List HypothesisItem)
    → find_equal key v items ≡ ok true
    → any (rejects v.id key) items ≡ true
unfolding find_equal same_metadata
find_equal-true key v [] h = cc
find_equal-true key v (i ∷ is) h = ground (arith, find_equal-true key v is)

-- Reopening another hypothesis leaves the rejection.
pub any-change_item :
    (kept key id : String) (reason : String) (new_evidence : List String) (producer : String)
    (items : List HypothesisItem)
    → str_eq id kept ≡ false
    → any (rejects kept key) (change_item id (reopened_item reason new_evidence producer) items)
      ≡ any (rejects kept key) items
unfolding change_item
any-change_item kept key id reason new_evidence producer [] n = refl
any-change_item kept key id reason new_evidence producer (i ∷ is) n =
    ground
      (arith, any-change_item kept key id reason new_evidence producer is n, str_eq_iff i.id id)

pub added_any :
    (p : HypothesisItem → Bool) (new : HypothesisItem) (items : List HypothesisItem)
    → (any p items ≡ true) ⊎ (p new ≡ true)
    → any p (sort_by item_id (items ++ new ∷ [])) ≡ true
added_any p new items h =
    any-sort_by p (items ++ new ∷ []) ∙ any-append p items (new ∷ []) ∙ ground arith

pub mem-sorted_difference :
    (x : String) (xs ys : List String)
    → mem x (sorted_difference xs ys) ≡ (mem x xs && not (mem x ys))
unfolding sorted_difference
mem-sorted_difference x xs ys =
    mem-sorted x (filter (λ z. not (mem z ys)) (to_set xs))
    ∙ mem-filter x ys (to_set xs)
    ∙ ap (λ b. b && not (mem x ys)) (mem-to_set x xs)
