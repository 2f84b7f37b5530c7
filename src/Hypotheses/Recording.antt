-- ===== src/Hypotheses/Recording.antt =====
-- The event that `check_proposal` of scripts/hypothesis_ledger.py leaves, and the ledger it is recorded in.
use ai_coding_workflow.Prelude.{
  some-injective, subset_of_mem, mem-sorted, mem-to_set, ℕ, String, ◌≡◌, refl, sym, ◌∙◌, ap, subst,
  Bool, true, false, not, ◌||◌, inl, inr, Bool-cases, Option, some, List, [], ◌∷◌, map, mem, any,
  to_set, str_eq, str_eq_refl, is_empty, is_empty_text, is_digest, note, arith, sorted, sort_by,
  mem-sort_by, append-eq-nil, ok,
}
use ai_coding_workflow.Hypotheses.Model.{
  MatchType, HypothesisItem, RevisitEvent, HypothesisLedger, bad_ledger_id, version_flaws,
  text_flaws, string_flaws, items_flaws, statement_digest, event_flaws, events_flaws,
  validate_ledger,
}
use ai_coding_workflow.Hypotheses.Operations.{
  Proposal, validate_proposal, matches_of, item_id, ProposalResult, outcome_of, is_strong,
}
use ai_coding_workflow.Hypotheses.Ledger.{
  seal_event, empty_ledger, active_items, match_id, types_of, record_revisit, answer,
  check_proposal,
}
use ai_coding_workflow.Hypotheses.Returning.{check_proposal-eq-ok}
use ai_coding_workflow.Hypotheses.Texts.{unique-sorted, string_flaws-sorted}
use ai_coding_workflow.Hypotheses.Validity.{old_items, digest_flaws_none}
use ai_coding_workflow.Hypotheses.Reopening.{unique-to_set}
use ai_coding_workflow.Hypotheses.Revisits.{
  keys_of-types_of, matches_of-mem, fine_ids, matched_flaws, events_flaws-append, seal_event-flaws,
}

mem-is_empty : (x : String) (xs : List String) → mem x xs ≡ true → is_empty xs ≡ false
mem-is_empty x [] h = cc
mem-is_empty x (y ∷ ys) h = refl

proposal_parts :
    (p : Proposal)
    → validate_proposal p ≡ []
    → (is_empty_text p.producer ≡ false)
      × (is_empty_text p.repository_state_hash ≡ false)
      × (string_flaws "evidence_refs" false p.evidence_refs ≡ [])
      × (string_flaws "scope_refs" false p.scope_refs ≡ [])
unfolding validate_proposal
proposal_parts p h =
    let (_, h0) = append-eq-nil (version_flaws p.schema_version) _ h in
    let (_, h1) = append-eq-nil (text_flaws "statement" p.statement) _ h0 in
    let (a, h2) = append-eq-nil (text_flaws "producer" p.producer) _ h1 in
    let (b, h3) = append-eq-nil (text_flaws "repository_state_hash" p.repository_state_hash) _ h2 in
    let (c, h4) = append-eq-nil (string_flaws "evidence_refs" false p.evidence_refs) _ h3 in
    let (d, _) = append-eq-nil (string_flaws "scope_refs" false p.scope_refs) _ h4 in
    (ground arith, ground arith, c, d)

module _ (normalize_statement sha256 : String → String) (event_digest : RevisitEvent → String)
    (ledger_digest : HypothesisLedger → String)
    (digests : (l : HypothesisLedger) → is_digest (ledger_digest l) ≡ true)
    (is_similar : String → String → Bool) where
  -- The ids of the matches, as the event has them.
  matched-mem :
      (x : String) (ms : List (HypothesisItem × MatchType))
      → mem x (sorted (to_set (map match_id ms))) ≡ mem x (map match_id ms)
  matched-mem x ms = mem-sorted x (to_set (map match_id ms)) ∙ mem-to_set x (map match_id ms)

  answer-event_flaws :
      (utc_now key : String) (p : Proposal) (max_relevant : ℕ) (active : List HypothesisItem)
      (ms : List (HypothesisItem × MatchType)) (e : RevisitEvent) (known seen : List String)
      → is_empty_text utc_now ≡ false
      → validate_proposal p ≡ []
      → statement_digest normalize_statement sha256 p.statement ≡ some key
      → ((x : String) → mem x (map match_id ms) ≡ true → mem x known ≡ true)
      → any is_empty_text known ≡ false
      → (answer normalize_statement sha256 event_digest ledger_digest is_similar utc_now
          max_relevant key p active ms).1
        ≡ some e
      → mem e.event_id seen ≡ false
      → (event_flaws normalize_statement sha256 event_digest ledger_digest known seen e ≡ [])
        × (is_empty_text e.repository_state_hash ≡ false)
  answer-event_flaws utc_now key p max_relevant active [] e known seen o valid k f h same s = cc
  answer-event_flaws utc_now key p max_relevant active (m ∷ ms) e known seen o valid k f h same s =
      let matches = m ∷ ms in
      let (producer, repo, evidence, scope) = proposal_parts p valid in
      let matched = sorted (to_set (map match_id matches)) in
      let within : (x : String) → mem x matched ≡ true → mem x known ≡ true =
        λ x a. f x (sym (matched-mem x matches) ∙ a) in
      let rows = sort_by match_id matches in
      let raw : RevisitEvent = record {
        event_id = "";
        observed_at = utc_now;
        producer = p.producer;
        statement = p.statement;
        statement_hash = key;
        evidence_refs = sorted p.evidence_refs;
        repository_state_hash = p.repository_state_hash;
        scope_refs = sorted p.scope_refs;
        matched_hypothesis_ids = matched;
        match_types = types_of rows [];
        outcome =
            outcome_of (any (λ n. is_strong n.1) matches)
              (any (λ n. any (λ e. not (mem e n.0.evidence_refs)) p.evidence_refs) matches)
              (any (λ n. not (str_eq p.repository_state_hash n.0.repository_state_hash)) matches);
      } in
      let left : seal_event normalize_statement sha256 event_digest ledger_digest raw ≡ e =
        some-injective same in
      (
        subst
            (λ e.
              event_flaws normalize_statement sha256 event_digest ledger_digest known seen e ≡ [])
            left
            (seal_event-flaws normalize_statement sha256 event_digest ledger_digest raw known seen o
              producer repo (digest_flaws_none normalize_statement sha256 p.statement key k)
              (string_flaws-sorted "evidence_refs" false p.evidence_refs ∙ evidence)
              (string_flaws-sorted "scope_refs" false p.scope_refs ∙ scope)
              (matched_flaws "matched_hypothesis_ids" matched known within h
                (mem-is_empty m.0.id matched
                  (matched-mem m.0.id matches ∙ ground (arith, str_eq_refl m.0.id)))
                (unique-sorted (to_set (map match_id matches))
                  ∙ unique-to_set (map match_id matches)))
              (subset_of_mem matched known within)
              (λ x.
                keys_of-types_of x rows []
                ∙ listed x rows
                ∙ mem-sort_by match_id x matches
                ∙ sym (matched-mem x matches))
              (subst (λ (e : RevisitEvent). mem e.event_id seen ≡ false) (sym left) s)),
        ap (λ (e : RevisitEvent). is_empty_text e.repository_state_hash) (sym left) ∙ repo,
      )
    where
      listed :
          (x : String) (ms : List (HypothesisItem × MatchType))
          → (mem x (map match_id ms) || mem x []) ≡ mem x (map match_id ms)
      listed x ms = ground arith

  -- A valid ledger with one more event that nothing is wrong with.
  record_revisit-valid :
      (l : HypothesisLedger) (e : RevisitEvent)
      → validate_ledger normalize_statement sha256 event_digest ledger_digest l ≡ []
      → is_empty_text e.repository_state_hash ≡ false
      → ((seen : List String)
          → mem e.event_id seen ≡ false
          → event_flaws normalize_statement sha256 event_digest ledger_digest
              (map item_id l.items)
              seen
              e
            ≡ [])
      → validate_ledger normalize_statement sha256 event_digest ledger_digest
          (record_revisit normalize_statement sha256 event_digest ledger_digest l e)
        ≡ []
  unfolding record_revisit validate_ledger
  record_revisit-valid l e h r g =
      let (version, h0) = append-eq-nil (version_flaws l.schema_version) _ h in
      let (_, h1) = append-eq-nil (note (not (is_digest l.ledger_id)) bad_ledger_id) _ h0 in
      let (t, h2) = append-eq-nil (text_flaws "task_id" l.task_id) _ h1 in
      let (_, h3) =
        append-eq-nil (text_flaws "repository_state_hash" l.repository_state_hash) _ h2 in
      let (i, h4) = append-eq-nil (items_flaws normalize_statement sha256 0 [] [] l.items) _ h3 in
      let (v, _) =
        append-eq-nil
          (events_flaws normalize_statement sha256 event_digest ledger_digest 0
            (map item_id l.items) [] l.revisit_events)
          _ h4 in
      elim (Bool-cases (any (λ x. str_eq x.event_id e.event_id) l.revisit_events)) [
        | inl b ↦ rw b h
        | inr b ↦ rw b (
            rw
              (
                version,
                digests _,
                t,
                r,
                i,
                events_flaws-append normalize_statement sha256 event_digest ledger_digest 0
                    (map item_id l.items) [] l.revisit_events e v b refl g,
                str_eq_refl _,
              )
              refl)
      ]

  pub empty_ledger-valid :
      (task_id repository_state_hash : String)
      → is_empty_text task_id ≡ false
      → is_empty_text repository_state_hash ≡ false
      → validate_ledger normalize_statement sha256 event_digest ledger_digest (
          empty_ledger normalize_statement sha256 event_digest ledger_digest task_id
            repository_state_hash)
        ≡ []
  unfolding validate_ledger
  empty_ledger-valid task_id repository_state_hash t r = rw (digests _, t, r, str_eq_refl _) refl

  pub checked-valid :
      (l : HypothesisLedger) (utc_now : String) (p : Proposal) (max_relevant : ℕ)
      (r : ProposalResult) (e : RevisitEvent) (relevant : List HypothesisItem)
      → is_empty_text utc_now ≡ false
      → check_proposal normalize_statement sha256 event_digest ledger_digest is_similar utc_now l p
          max_relevant
        ≡ ok (r, some e, relevant)
      → validate_ledger normalize_statement sha256 event_digest ledger_digest
          (record_revisit normalize_statement sha256 event_digest ledger_digest l e)
        ≡ []
  checked-valid l utc_now p max_relevant r e relevant o h =
      let (valid, fine, key, k, same) =
        check_proposal-eq-ok normalize_statement sha256 event_digest ledger_digest is_similar
          utc_now l p max_relevant (r, some e, relevant) h in
      let matches = matches_of is_similar key p (active_items l.items) in
      let ids = map item_id l.items in
      let nonempty =
        fine_ids normalize_statement sha256 l.items
          (old_items normalize_statement sha256 event_digest ledger_digest l valid).0 in
      let left =
        sym (ap (λ (o : ProposalResult × Option RevisitEvent × List HypothesisItem). o.1) same) in
      let flaws : (seen : List String)
          → mem e.event_id seen ≡ false
          → (event_flaws normalize_statement sha256 event_digest ledger_digest ids seen e ≡ [])
            × (is_empty_text e.repository_state_hash ≡ false) =
        λ seen s.
          answer-event_flaws utc_now key p max_relevant (active_items l.items) matches e ids seen o
            fine k (λ x m. matches_of-mem is_similar key p x l.items m) nonempty left s in
      record_revisit-valid l e valid (flaws [] refl).1 λ seen s. (flaws seen s).0
