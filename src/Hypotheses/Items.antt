-- ===== src/Hypotheses/Items.antt =====
-- When the loop of `validate_ledger` of scripts/hypothesis_ledger.py over the items finds nothing: a
-- reading of it that the order of the items does not matter to.
use ai_coding_workflow.Prelude.{
  ℕ, ◌+◌, ◌≤◌, String, ◌≡◌, refl, false, ◌&&◌, List, [], ◌∷◌, ◌++◌, map, mem, str_eq, str_eq_iff,
  str_eq_refl, if◌then◌else◌, note, All, arith, indicator, sort_by, insert_by, append-eq-nil,
  map-eq-nil,
}
use ai_coding_workflow.Hypotheses.Model.{
  HypothesisItem, in_item, is_rejected, duplicate_id, duplicate_statement, text_fields,
  other_fields, digest_flaws, item_flaws, items_flaws,
}
use ai_coding_workflow.Hypotheses.Operations.{item_id}

-- The sum of a number of each item.
abbrev pub tally : (HypothesisItem → ℕ) → List HypothesisItem → ℕ
tally f [] = 0
tally f (i ∷ is) = f i + tally f is

pub tally-append :
    (f : HypothesisItem → ℕ) (xs ys : List HypothesisItem)
    → tally f (xs ++ ys) ≡ tally f xs + tally f ys
tally-append f [] ys = omega arith
tally-append f (x ∷ xs) ys = omega (arith, tally-append f xs ys)

tally-insert_by :
    (f : HypothesisItem → ℕ) (x : HypothesisItem) (ys : List HypothesisItem)
    → tally f (insert_by item_id x ys) ≡ f x + tally f ys
unfolding insert_by
tally-insert_by f x [] = refl
tally-insert_by f x (y ∷ ys) = ground (arith, tally-insert_by f x ys)

pub tally-sort_by :
    (f : HypothesisItem → ℕ) (xs : List HypothesisItem) → tally f (sort_by item_id xs) ≡ tally f xs
unfolding sort_by
tally-sort_by f [] = refl
tally-sort_by f (x ∷ xs) =
    omega (arith, tally-insert_by f x (sort_by item_id xs), tally-sort_by f xs)

abbrev pub has_id : String → HypothesisItem → ℕ
has_id x i = indicator (str_eq i.id x)

abbrev pub rejects_hash : String → HypothesisItem → ℕ
rejects_hash x i = indicator (str_eq i.statement_hash x && is_rejected i.status)

module _ (normalize_statement sha256 : String → String) where
  -- An item in which nothing is wrong by itself.
  abbrev pub IsFine : HypothesisItem → Type 0
  IsFine i =
      (text_fields i ≡ [])
      × (digest_flaws normalize_statement sha256 i.statement i.statement_hash ≡ [])
      × (other_fields i ≡ [])

  -- Items fine by themselves, with distinct ids and distinct hashes of rejections, none seen before.
  abbrev pub AreFine : List String → List String → List HypothesisItem → Type 0
  AreFine seen_ids seen_hashes items =
      All IsFine items
      × ((x : String) → indicator (mem x seen_ids) + tally (has_id x) items ≤ 1)
      × ((x : String) → indicator (mem x seen_hashes) + tally (rejects_hash x) items ≤ 1)

  item_flaws_iff :
      (seen_ids seen_hashes : List String) (i : HypothesisItem)
      → item_flaws normalize_statement sha256 seen_ids seen_hashes i ≡ []
      → IsFine i
        × (mem i.id seen_ids ≡ false)
        × ((is_rejected i.status && mem i.statement_hash seen_hashes) ≡ false)
  unfolding item_flaws
  item_flaws_iff seen_ids seen_hashes i h =
      let (a, h1) = append-eq-nil (text_fields i) _ h in
      let (b, h2) = append-eq-nil (note (mem i.id seen_ids) duplicate_id) _ h1 in
      let (c, h3) =
        append-eq-nil (digest_flaws normalize_statement sha256 i.statement i.statement_hash) _ h2 in
      let (d, e) =
        append-eq-nil
          (note (is_rejected i.status && mem i.statement_hash seen_hashes) duplicate_statement) _
          h3 in
      ((a, c, e), ground arith, ground arith)

  pub items_flaws_fine :
      (n : ℕ) (seen_ids seen_hashes : List String) (items : List HypothesisItem)
      → items_flaws normalize_statement sha256 n seen_ids seen_hashes items ≡ []
      → AreFine seen_ids seen_hashes items
  unfolding items_flaws
  items_flaws_fine n seen_ids seen_hashes [] h = (tt, (λ x. ground arith), λ x. ground arith)
  items_flaws_fine n seen_ids seen_hashes (i ∷ is) h =
      let (here, later) =
        append-eq-nil
          (map (in_item n) (item_flaws normalize_statement sha256 seen_ids seen_hashes i)) _ h in
      let (fine, new, fresh) =
        item_flaws_iff seen_ids seen_hashes i (map-eq-nil (in_item n) _ here) in
      let (rest, ids, hashes) = items_flaws_fine (n + 1) (i.id ∷ seen_ids) _ is later in
      (
        (fine, rest),
        (λ x. ground (arith, ids x, str_eq_iff i.id x)),
        λ x. ground (arith, hashes x, str_eq_iff i.statement_hash x),
      )

  pub fine-items_flaws :
      (n : ℕ) (seen_ids seen_hashes : List String) (items : List HypothesisItem)
      → AreFine seen_ids seen_hashes items
      → items_flaws normalize_statement sha256 n seen_ids seen_hashes items ≡ []
  unfolding items_flaws item_flaws
  fine-items_flaws n seen_ids seen_hashes [] f = refl
  fine-items_flaws n seen_ids seen_hashes (i ∷ is) (f, ids, hashes) =
      let new : mem i.id seen_ids ≡ false = ground (arith, ids i.id, str_eq_refl i.id) in
      let fresh : (is_rejected i.status && mem i.statement_hash seen_hashes) ≡ false =
        ground (arith, hashes i.statement_hash, str_eq_refl i.statement_hash) in
      let rest =
        fine-items_flaws (n + 1) (i.id ∷ seen_ids)
          (if is_rejected i.status then i.statement_hash ∷ seen_hashes else seen_hashes) is
          (
            f.1,
            (λ x. ground (arith, ids x, str_eq_iff i.id x, new)),
            λ x. ground (arith, hashes x, str_eq_iff i.statement_hash x, fresh),
          ) in
      rw (f.0.0, f.0.1, f.0.2, new, fresh) rest
