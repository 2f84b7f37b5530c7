-- ===== src/Hypotheses/Reopening.antt =====
-- `reopen_item` of scripts/hypothesis_ledger.py keeps a ledger valid.
use ai_coding_workflow.Prelude.{
  some-injective, mem-filter, ◌≤◌, String, ◌≡◌, refl, sym, ◌∙◌, subst, Bool, true, false, not, inl,
  inr, Bool-cases, some, List, [], ◌∷◌, map, mem, unique, any, filter, to_set, str_eq, is_empty,
  is_empty_text, is_digest, note, All, arith, append-eq-nil, ok,
}
use ai_coding_workflow.Hypotheses.Model.{
  HypothesisItem, RevisitEvent, HypothesisLedger, is_empty_some, bad_reopen_when, version_flaws,
  text_flaws, string_flaws, text_fields, other_fields, reopening_flaws, validate_ledger,
}
use ai_coding_workflow.Hypotheses.Operations.{
  ReopenInput, validate_reopen_input, find_item, change_item, reopened_item, sorted_difference,
  item_id,
}
use ai_coding_workflow.Hypotheses.Ledger.{reopen_item}
use ai_coding_workflow.Hypotheses.Items.{tally, has_id, rejects_hash, IsFine, AreFine}
use ai_coding_workflow.Hypotheses.Returning.{reopen_item-eq-ok}
use ai_coding_workflow.Hypotheses.Texts.{any-sorted, unique-sorted}
use ai_coding_workflow.Hypotheses.Validity.{with_items-valid, old_items}

any-filter :
    (p q : String → Bool) (xs : List String) → any p xs ≡ false → any p (filter q xs) ≡ false
any-filter p q [] h = refl
any-filter p q (x ∷ xs) h = ground (arith, any-filter p q xs)

pub any-to_set :
    (p : String → Bool) (xs : List String) → any p xs ≡ false → any p (to_set xs) ≡ false
unfolding to_set
any-to_set p [] h = refl
any-to_set p (x ∷ xs) h = ground (arith, any-to_set p xs)

pub unique-to_set : (xs : List String) → unique (to_set xs) ≡ true
unfolding to_set
unique-to_set [] = refl
unique-to_set (x ∷ xs) = ground (arith, unique-to_set xs)

unique-filter :
    (ys xs : List String) → unique xs ≡ true → unique (filter (λ z. not (mem z ys)) xs) ≡ true
unique-filter ys [] u = refl
unique-filter ys (x ∷ xs) u = ground (arith, unique-filter ys xs, mem-filter x ys xs)

-- The evidence of a reopening is a list of distinct texts.
difference_flaws :
    (name : String) (xs ys : List String)
    → any is_empty_text xs ≡ false
    → string_flaws name false (sorted_difference xs ys) ≡ []
unfolding string_flaws sorted_difference
difference_flaws name xs ys h =
    let rest = filter (λ z. not (mem z ys)) (to_set xs) in
    rw
      (
        any-sorted is_empty_text rest
            ∙ any-filter is_empty_text (λ z. not (mem z ys)) (to_set xs)
                (any-to_set is_empty_text xs h),
        unique-sorted rest ∙ unique-filter ys (to_set xs) (unique-to_set xs),
      )
      refl

no_empty_text :
    (name : String) (xs : List String)
    → string_flaws name true xs ≡ []
    → any is_empty_text xs ≡ false
unfolding string_flaws
no_empty_text name xs h = ground arith

tally-change_item :
    (x id reason : String) (new_evidence : List String) (producer : String)
    (items : List HypothesisItem)
    → (tally (has_id x) (change_item id (reopened_item reason new_evidence producer) items)
        ≡ tally (has_id x) items)
      × (tally (rejects_hash x) (change_item id (reopened_item reason new_evidence producer) items)
          ≤ tally (rejects_hash x) items)
unfolding change_item
tally-change_item x id reason new_evidence producer [] = (refl, omega arith)
tally-change_item x id reason new_evidence producer (i ∷ is) =
    let (a, b) = tally-change_item x id reason new_evidence producer is in
    (ground arith, ground arith)

ids-change_item :
    (id reason : String) (new_evidence : List String) (producer : String)
    (items : List HypothesisItem)
    → map item_id (change_item id (reopened_item reason new_evidence producer) items)
      ≡ map item_id items
unfolding change_item
ids-change_item id reason new_evidence producer [] = refl
ids-change_item id reason new_evidence producer (i ∷ is) =
    ground (arith, ids-change_item id reason new_evidence producer is)

module _ (normalize_statement sha256 : String → String) where
  -- A fine item that is reopened on evidence is fine.
  reopened_item-IsFine :
      (i : HypothesisItem) (reason : String) (new_evidence : List String) (producer : String)
      → IsFine normalize_statement sha256 i
      → is_empty_text reason ≡ false
      → is_empty_text producer ≡ false
      → is_empty new_evidence ≡ false
      → string_flaws "reopened_evidence_refs" false new_evidence ≡ []
      → IsFine normalize_statement sha256 (reopened_item reason new_evidence producer i)
  unfolding text_fields other_fields reopening_flaws
  reopened_item-IsFine i reason new_evidence producer (t, d, o) r p n s =
      let (a, h1) = append-eq-nil (string_flaws "evidence_refs" true i.evidence_refs) _ o in
      let (b, h2) = append-eq-nil (string_flaws "scope_refs" false i.scope_refs) _ h1 in
      let (_, h3) =
        append-eq-nil (string_flaws "reopened_evidence_refs" false i.reopened_evidence_refs) _ h2 in
      let (c, _) = append-eq-nil (note (is_empty_some i.reopen_when) bad_reopen_when) _ h3 in
      (t, d, rw (a, b, s, c, r, p, n) refl)

  All-change_item :
      (id : String) (f : HypothesisItem → HypothesisItem) (items : List HypothesisItem)
      (i : HypothesisItem)
      → All (IsFine normalize_statement sha256) items
      → find_item id items ≡ some i
      → (IsFine normalize_statement sha256 i → IsFine normalize_statement sha256 (f i))
      → All (IsFine normalize_statement sha256) (change_item id f items)
  unfolding change_item find_item
  All-change_item id f [] i a e g = tt
  All-change_item id f (j ∷ is) i a e g = elim (Bool-cases (str_eq j.id id)) [
    | inl b ↦
        let same : j ≡ i = some-injective (rw b at e) in
        rw b (
          subst (λ k. IsFine normalize_statement sha256 (f k)) (sym same)
              (g (subst (IsFine normalize_statement sha256) same a.0)),
          a.1,
        )
    | inr b ↦ rw b (a.0, All-change_item id f is i a.1 (rw b at e) g)
  ]

-- The parts of a valid reopening.
reopen_input_parts :
    (v : ReopenInput)
    → validate_reopen_input v ≡ []
    → (is_empty_text v.producer ≡ false)
      × (is_empty_text v.reason ≡ false)
      × (is_empty_text v.repository_state_hash ≡ false)
      × (any is_empty_text v.new_evidence_refs ≡ false)
unfolding validate_reopen_input
reopen_input_parts v h =
    let (_, h0) = append-eq-nil (version_flaws v.schema_version) _ h in
    let (_, h1) = append-eq-nil (text_flaws "hypothesis_id" v.hypothesis_id) _ h0 in
    let (a, h2) = append-eq-nil (text_flaws "producer" v.producer) _ h1 in
    let (b, h3) = append-eq-nil (text_flaws "reason" v.reason) _ h2 in
    let (c, d) = append-eq-nil (text_flaws "repository_state_hash" v.repository_state_hash) _ h3 in
    (
      ground arith,
      ground arith,
      ground arith,
      no_empty_text "new_evidence_refs" v.new_evidence_refs d,
    )

module _ (normalize_statement sha256 : String → String) (event_digest : RevisitEvent → String)
    (ledger_digest : HypothesisLedger → String)
    (digests : (l : HypothesisLedger) → is_digest (ledger_digest l) ≡ true) where
  changed-AreFine :
      (id reason : String) (new_evidence : List String) (producer : String)
      (items : List HypothesisItem) (i : HypothesisItem)
      → AreFine normalize_statement sha256 [] [] items
      → find_item id items ≡ some i
      → (IsFine normalize_statement sha256 i
          → IsFine normalize_statement sha256 (reopened_item reason new_evidence producer i))
      → AreFine normalize_statement sha256 [] []
          (change_item id (reopened_item reason new_evidence producer) items)
  changed-AreFine id reason new_evidence producer items i (f, ids, hashes) found g = (
    All-change_item normalize_statement sha256 id (reopened_item reason new_evidence producer) items
        i f found g,
    (λ x. omega (arith, (tally-change_item x id reason new_evidence producer items).0, ids x)),
    λ x. omega (arith, (tally-change_item x id reason new_evidence producer items).1, hashes x),
  )

  -- What `reopen_item` returns is valid, where ledger ids are digests.
  pub reopen_item-valid :
      (l l' : HypothesisLedger) (v : ReopenInput)
      → reopen_item normalize_statement sha256 event_digest ledger_digest l v ≡ ok l'
      → validate_ledger normalize_statement sha256 event_digest ledger_digest l' ≡ []
  reopen_item-valid l l' v h =
      let (valid, fine, i, found, r, new, c, same) =
        reopen_item-eq-ok normalize_statement sha256 event_digest ledger_digest l l' v h in
      let (producer, reason, repo, texts) = reopen_input_parts v fine in
      let new_evidence = sorted_difference v.new_evidence_refs i.evidence_refs in
      subst (λ m. validate_ledger normalize_statement sha256 event_digest ledger_digest m ≡ [])
        (sym same)
        (with_items-valid normalize_statement sha256 event_digest ledger_digest digests l
          (change_item v.hypothesis_id (reopened_item v.reason new_evidence v.producer) l.items)
          v.repository_state_hash valid repo
          (changed-AreFine v.hypothesis_id v.reason new_evidence v.producer l.items i
            (old_items normalize_statement sha256 event_digest ledger_digest l valid) found
            λ f.
              reopened_item-IsFine normalize_statement sha256 i v.reason new_evidence v.producer f
                reason producer new
                (difference_flaws "reopened_evidence_refs" v.new_evidence_refs i.evidence_refs
                  texts))
          λ x m.
            subst (λ ids. mem x ids ≡ true)
              (sym (ids-change_item v.hypothesis_id v.reason new_evidence v.producer l.items)) m)
