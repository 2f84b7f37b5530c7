-- ===== src/Hypotheses/Validity.antt =====
-- The operations of scripts/hypothesis_ledger.py keep a ledger valid.
use ai_coding_workflow.Prelude.{
  String, ◌≡◌, refl, sym, subst, true, false, not, inl, inr, some, List, [], ◌∷◌, ◌++◌, map, mem,
  str_eq_iff, str_eq_refl, is_empty_text, is_digest, note, All-append, arith, sort_by, All-sort_by,
  append-eq-nil, leb, ok,
}
use ai_coding_workflow.Hypotheses.Model.{
  HypothesisItem, RevisitEvent, HypothesisLedger, bad_ledger_id, version_flaws, text_flaws,
  string_flaws, text_fields, other_fields, reopening_flaws, statement_digest, digest_flaws,
  events_flaws, validate_ledger, items_flaws,
}
use ai_coding_workflow.Hypotheses.Operations.{
  RejectInput, validate_reject_input, find_equal, rejected_item, item_id,
}
use ai_coding_workflow.Hypotheses.Ledger.{with_items, add_rejected_item}
use ai_coding_workflow.Hypotheses.Items.{
  tally, tally-append, tally-sort_by, has_id, rejects_hash, IsFine, AreFine, items_flaws_fine,
  fine-items_flaws,
}
use ai_coding_workflow.Hypotheses.Returning.{add_rejected_item-eq-ok}
use ai_coding_workflow.Hypotheses.Texts.{string_flaws-sorted, digest-is_empty_text}
use ai_coding_workflow.Hypotheses.Events.{events_flaws_grow}

find_equal-false :
    (key : String) (v : RejectInput) (items : List HypothesisItem)
    → find_equal key v items ≡ ok false
    → (tally (has_id v.id) items ≡ 0) × (tally (rejects_hash key) items ≡ 0)
unfolding find_equal
find_equal-false key v [] h = (refl, refl)
find_equal-false key v (i ∷ is) h =
    (ground (arith, find_equal-false key v is), ground (arith, find_equal-false key v is))

count-ids :
    (x : String) (items : List HypothesisItem)
    → leb 1 (tally (has_id x) items) ≡ mem x (map item_id items)
count-ids x [] = refl
count-ids x (i ∷ is) = ground (arith, count-ids x is)

pub digest_flaws_none :
    (normalize_statement sha256 : String → String) (s key : String)
    → statement_digest normalize_statement sha256 s ≡ some key
    → digest_flaws normalize_statement sha256 s key ≡ []
unfolding digest_flaws
digest_flaws_none normalize_statement sha256 s key h = ground (arith, str_eq_refl key)

module _ (normalize_statement sha256 : String → String) (event_digest : RevisitEvent → String)
    (ledger_digest : HypothesisLedger → String) where
  pub old_items :
      (l : HypothesisLedger)
      → validate_ledger normalize_statement sha256 event_digest ledger_digest l ≡ []
      → AreFine normalize_statement sha256 [] [] l.items
  unfolding validate_ledger
  old_items l h =
      let (version, h0) = append-eq-nil (version_flaws l.schema_version) _ h in
      let (_, h1) = append-eq-nil (note (not (is_digest l.ledger_id)) bad_ledger_id) _ h0 in
      let (t, h2) = append-eq-nil (text_flaws "task_id" l.task_id) _ h1 in
      let (_, h3) =
        append-eq-nil (text_flaws "repository_state_hash" l.repository_state_hash) _ h2 in
      let (f, _) = append-eq-nil (items_flaws normalize_statement sha256 0 [] [] l.items) _ h3 in
      items_flaws_fine normalize_statement sha256 0 [] [] l.items f

module _ (normalize_statement sha256 : String → String) (event_digest : RevisitEvent → String)
    (ledger_digest : HypothesisLedger → String)
    (digests : (l : HypothesisLedger) → is_digest (ledger_digest l) ≡ true) where
  -- A valid ledger with other items that are fine, and with the old ids among theirs.
  pub with_items-valid :
      (l : HypothesisLedger) (items : List HypothesisItem) (repository_state_hash : String)
      → validate_ledger normalize_statement sha256 event_digest ledger_digest l ≡ []
      → is_empty_text repository_state_hash ≡ false
      → AreFine normalize_statement sha256 [] [] items
      → ((x : String) → mem x (map item_id l.items) ≡ true → mem x (map item_id items) ≡ true)
      → validate_ledger normalize_statement sha256 event_digest ledger_digest (
          with_items normalize_statement sha256 event_digest ledger_digest items
            repository_state_hash l)
        ≡ []
  unfolding validate_ledger
  with_items-valid l items repository_state_hash h r f g =
      let (version, h0) = append-eq-nil (version_flaws l.schema_version) _ h in
      let (_, h1) = append-eq-nil (note (not (is_digest l.ledger_id)) bad_ledger_id) _ h0 in
      let (t, h2) = append-eq-nil (text_flaws "task_id" l.task_id) _ h1 in
      let (_, h3) =
        append-eq-nil (text_flaws "repository_state_hash" l.repository_state_hash) _ h2 in
      let (_, h4) = append-eq-nil (items_flaws normalize_statement sha256 0 [] [] l.items) _ h3 in
      let (e, _) =
        append-eq-nil
          (events_flaws normalize_statement sha256 event_digest ledger_digest 0
            (map item_id l.items) [] l.revisit_events)
          _ h4 in
      rw
        (
          version,
          digests _,
          t,
          r,
          fine-items_flaws normalize_statement sha256 0 [] [] items f,
          events_flaws_grow normalize_statement sha256 event_digest ledger_digest 0
              (map item_id l.items) (map item_id items) [] l.revisit_events g e,
          str_eq_refl _,
        )
        refl

  -- The item of a valid rejection is fine.
  rejected_item-IsFine :
      (v : RejectInput) (key state : String)
      → validate_reject_input v ≡ []
      → statement_digest normalize_statement sha256 v.statement ≡ some key
      → is_digest state ≡ true
      → IsFine normalize_statement sha256 (rejected_item key state v)
        × (is_empty_text v.repository_state_hash ≡ false)
  unfolding validate_reject_input text_fields other_fields reopening_flaws
  rejected_item-IsFine v key state h k d =
      let (_, h0) = append-eq-nil (version_flaws v.schema_version) _ h in
      let (a, h1) = append-eq-nil (text_flaws "id" v.id) _ h0 in
      let (b, h2) = append-eq-nil (text_flaws "statement" v.statement) _ h1 in
      let (c, h3) = append-eq-nil (text_flaws "reason" v.reason) _ h2 in
      let (e, h4) = append-eq-nil (text_flaws "producer" v.producer) _ h3 in
      let (f, h5) =
        append-eq-nil (text_flaws "repository_state_hash" v.repository_state_hash) _ h4 in
      let (g, h6) = append-eq-nil (string_flaws "evidence_refs" true v.evidence_refs) _ h5 in
      let (m, n) = append-eq-nil (string_flaws "scope_refs" false v.scope_refs) _ h6 in
      (
        (
          rw (a, b, c, e, f, digest-is_empty_text state d, d) refl,
          digest_flaws_none normalize_statement sha256 v.statement key k,
          rw
              (
                string_flaws-sorted "evidence_refs" true v.evidence_refs,
                g,
                string_flaws-sorted "scope_refs" false v.scope_refs,
                m,
                n,
              )
              refl,
        ),
        ground arith,
      )

  added-AreFine :
      (items : List HypothesisItem) (v : RejectInput) (key state : String)
      → AreFine normalize_statement sha256 [] [] items
      → IsFine normalize_statement sha256 (rejected_item key state v)
      → find_equal key v items ≡ ok false
      → AreFine normalize_statement sha256 [] []
          (sort_by item_id (items ++ rejected_item key state v ∷ []))
  added-AreFine items v key state (f, ids, hashes) n e =
      let new = rejected_item key state v in
      let (no_id, no_hash) = find_equal-false key v items e in
      (
        All-sort_by item_id (IsFine normalize_statement sha256) (items ++ new ∷ [])
            (All-append (IsFine normalize_statement sha256) items (new ∷ []) f (n, tt)),
        (λ x. ground (
          arith,
          tally-sort_by (has_id x) (items ++ new ∷ []),
          tally-append (has_id x) items (new ∷ []),
          ids x,
          str_eq_iff v.id x,
          no_id,
        )),
        λ x. ground (
          arith,
          tally-sort_by (rejects_hash x) (items ++ new ∷ []),
          tally-append (rejects_hash x) items (new ∷ []),
          hashes x,
          str_eq_iff key x,
          no_hash,
        ),
      )

  -- What `add_rejected_item` returns is valid, where the state id is a digest, as ledger ids are.
  pub add_rejected_item-valid :
      (l l' : HypothesisLedger) (v : RejectInput) (state : String)
      → is_digest state ≡ true
      → add_rejected_item normalize_statement sha256 event_digest ledger_digest l v state ≡ ok l'
      → validate_ledger normalize_statement sha256 event_digest ledger_digest l' ≡ []
  add_rejected_item-valid l l' v state d h =
      let (valid, fine, key, k, c) =
        add_rejected_item-eq-ok normalize_statement sha256 event_digest ledger_digest l l' v state
          h in
      elim c [
        | inl (f, same) ↦
            subst
              (λ m. validate_ledger normalize_statement sha256 event_digest ledger_digest m ≡ [])
              (sym same) valid
        | inr (f, same) ↦
            let (new, repo) = rejected_item-IsFine v key state fine k d in
            let items = sort_by item_id (l.items ++ rejected_item key state v ∷ []) in
            subst
              (λ m. validate_ledger normalize_statement sha256 event_digest ledger_digest m ≡ [])
              (sym same)
              (with_items-valid l items v.repository_state_hash valid repo
                (added-AreFine l.items v key state
                  (old_items normalize_statement sha256 event_digest ledger_digest l valid) new f)
                λ x m. ground (
                  arith,
                  count-ids x items,
                  count-ids x l.items,
                  tally-sort_by (has_id x) (l.items ++ rejected_item key state v ∷ []),
                  tally-append (has_id x) l.items (rejected_item key state v ∷ []),
                ))
      ]
