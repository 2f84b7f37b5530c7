-- ===== src/Hypotheses/Model.antt =====
-- The documents of scripts/hypothesis_ledger.py and `validate_ledger`. Tests for missing keys, for types
-- and for the words of an enumeration are the typing; each other message is a constructor.
use ai_coding_workflow.Prelude.{
  ℕ, ◌+◌, String, Bool, true, false, not, ◌&&◌, ◌||◌, Option, none, some, List, [], ◌∷◌, ◌++◌, map,
  mem, unique, subset, any, str_eq, is_empty, is_empty_text, is_digest, if◌then◌else◌, note, Dict,
  ◌==◌,
}

pub data ItemStatus : Type 0 where
  rejected reopened : ItemStatus

pub data MatchType : Type 0 where
  explicit exact similar : MatchType

pub data RevisitOutcome : Type 0 where
  rejected_repeat reopen_required possible_repeat : RevisitOutcome

pub record HypothesisItem : Type 0 where
  pub id : String
  pub statement : String
  pub statement_hash : String
  pub status : ItemStatus
  pub reason : String
  pub evidence_refs : List String
  pub reopen_when : Option String
  pub producer : String
  pub repository_state_hash : String
  pub scope_refs : List String
  pub rejected_state_id : String
  pub reopened_reason : Option String
  pub reopened_evidence_refs : List String
  pub reopened_by : Option String

pub record RevisitEvent : Type 0 where
  pub event_id : String
  pub observed_at : String
  pub producer : String
  pub statement : String
  pub statement_hash : String
  pub evidence_refs : List String
  pub repository_state_hash : String
  pub scope_refs : List String
  pub matched_hypothesis_ids : List String
  pub match_types : Dict MatchType
  pub outcome : RevisitOutcome

pub record HypothesisLedger : Type 0 where
  pub schema_version : ℕ
  pub ledger_id : String
  pub task_id : String
  pub revision : ℕ
  pub repository_state_hash : String
  pub items : List HypothesisItem
  pub revisit_events : List RevisitEvent

-- The messages, with the name of the field where several fields share one.
pub data Flaw : Type 0 where
  empty_text empty_string empty_list repeated_string : String → Flaw
  bad_state_id duplicate_id not_hashable wrong_hash duplicate_statement bad_reopen_when : Flaw
  incomplete_reopening early_reopening : Flaw
  wrong_event_id duplicate_event unknown_hypothesis bad_match_types : Flaw
  bad_schema_version bad_ledger_id wrong_ledger_id condition_not_boolean : Flaw
  in_item in_event : ℕ → Flaw → Flaw

-- `value.get("schema_version") != 1`
abbrev pub version_flaws : ℕ → List Flaw
version_flaws n = note (not (n == 1)) bad_schema_version

abbrev pub text_flaws : String → String → List Flaw
text_flaws name s = note (is_empty_text s) (empty_text name)

-- `_string_list`
unfoldable pub string_flaws : String → Bool → List String → List Flaw
string_flaws name nonempty value =
    if any is_empty_text value
    then empty_string name ∷ []
    else if nonempty && is_empty value
    then empty_list name ∷ []
    else note (not (unique value)) (repeated_string name)

abbrev pub is_rejected : ItemStatus → Bool
is_rejected rejected = true
is_rejected reopened = false

-- `not value`, of a text or None
abbrev pub is_missing : Option String → Bool
is_missing none = true
is_missing (some s) = is_empty_text s

abbrev pub is_empty_some : Option String → Bool
is_empty_some none = false
is_empty_some (some s) = is_empty_text s

-- The metadata of a reopening, complete or absent.
unfoldable pub reopening_flaws : ItemStatus → HypothesisItem → List Flaw
reopening_flaws reopened i =
    note
      (is_missing i.reopened_reason
        || is_missing i.reopened_by
        || is_empty i.reopened_evidence_refs)
      incomplete_reopening
reopening_flaws rejected i =
    note
      (not (
        is_missing i.reopened_reason
        && is_missing i.reopened_by
        && is_empty i.reopened_evidence_refs))
      early_reopening

unfoldable pub text_fields : HypothesisItem → List Flaw
text_fields i =
    text_flaws "id" i.id
    ++ (text_flaws "statement" i.statement
        ++ (text_flaws "reason" i.reason
            ++ (text_flaws "producer" i.producer
                ++ (text_flaws "repository_state_hash" i.repository_state_hash
                    ++ (text_flaws "rejected_state_id" i.rejected_state_id
                        ++ note (not (is_digest i.rejected_state_id)) bad_state_id)))))

unfoldable pub other_fields : HypothesisItem → List Flaw
unfolding string_flaws reopening_flaws
other_fields i =
    string_flaws "evidence_refs" true i.evidence_refs
    ++ (string_flaws "scope_refs" false i.scope_refs
        ++ (string_flaws "reopened_evidence_refs" false i.reopened_evidence_refs
            ++ (note (is_empty_some i.reopen_when) bad_reopen_when ++ reopening_flaws i.status i)))

-- `normalize_statement` and sha256, which are Python's.
module _ (normalize_statement sha256 : String → String) where
  -- `statement_hash`, where none is HypothesisLedgerError
  unfoldable pub statement_digest : String → Option String
  statement_digest statement =
      let normalized = normalize_statement statement in
      if is_empty_text normalized then none else some (sha256 normalized)

  unfoldable pub digest_flaws : String → String → List Flaw
  unfolding statement_digest
  digest_flaws statement statement_hash = elim (statement_digest statement) [
    | none ↦ not_hashable ∷ []
    | some expected ↦ note (not (str_eq statement_hash expected)) wrong_hash
  ]

  unfoldable pub item_flaws : List String → List String → HypothesisItem → List Flaw
  unfolding text_fields digest_flaws other_fields
  item_flaws seen_ids seen_hashes i =
      text_fields i
      ++ (note (mem i.id seen_ids) duplicate_id
          ++ (digest_flaws i.statement i.statement_hash
              ++ (note (is_rejected i.status && mem i.statement_hash seen_hashes)
                    duplicate_statement
                  ++ other_fields i)))

  -- The loop over the items, from an index on.
  unfoldable pub items_flaws : ℕ → List String → List String → List HypothesisItem → List Flaw
  unfolding item_flaws
  items_flaws n seen_ids seen_hashes [] = []
  items_flaws n seen_ids seen_hashes (i ∷ is) =
      map (in_item n) (item_flaws seen_ids seen_hashes i)
      ++ items_flaws (n + 1) (i.id ∷ seen_ids)
          (if is_rejected i.status then i.statement_hash ∷ seen_hashes else seen_hashes) is

  abbrev pub event_core : RevisitEvent → RevisitEvent
  event_core e = record {
    event_id = "";
    observed_at = e.observed_at;
    producer = e.producer;
    statement = e.statement;
    statement_hash = e.statement_hash;
    evidence_refs = e.evidence_refs;
    repository_state_hash = e.repository_state_hash;
    scope_refs = e.scope_refs;
    matched_hypothesis_ids = e.matched_hypothesis_ids;
    match_types = e.match_types;
    outcome = e.outcome;
  }

  abbrev pub ledger_core : HypothesisLedger → HypothesisLedger
  ledger_core l = record {
    schema_version = l.schema_version;
    ledger_id = "";
    task_id = l.task_id;
    revision = l.revision;
    repository_state_hash = l.repository_state_hash;
    items = l.items;
    revisit_events = l.revisit_events;
  }

  -- `revisit_event_id_for` and `ledger_id_for`, by the digest of a document without its own id.
  module _ (event_digest : RevisitEvent → String) (ledger_digest : HypothesisLedger → String) where
    abbrev pub revisit_event_id_for : RevisitEvent → String
    revisit_event_id_for e = event_digest (event_core e)

    abbrev pub ledger_id_for : HypothesisLedger → String
    ledger_id_for l = ledger_digest (ledger_core l)

    unfoldable pub event_flaws : List String → List String → RevisitEvent → List Flaw
    unfolding digest_flaws string_flaws
    event_flaws known_ids seen_event_ids e =
        text_flaws "observed_at" e.observed_at
        ++ text_flaws "producer" e.producer
        ++ text_flaws "repository_state_hash" e.repository_state_hash
        ++ note (not (str_eq e.event_id (revisit_event_id_for e))) wrong_event_id
        ++ note (mem e.event_id seen_event_ids) duplicate_event
        ++ digest_flaws e.statement e.statement_hash
        ++ string_flaws "evidence_refs" false e.evidence_refs
        ++ string_flaws "scope_refs" false e.scope_refs
        ++ string_flaws "matched_hypothesis_ids" true e.matched_hypothesis_ids
        ++ note (not (subset e.matched_hypothesis_ids known_ids)) unknown_hypothesis
        ++ note
            (not (
              subset (map (λ p. p.0) e.match_types) e.matched_hypothesis_ids
              && subset e.matched_hypothesis_ids (map (λ p. p.0) e.match_types)
              && subset (map (λ p. p.0) e.match_types) known_ids))
            bad_match_types

    -- The loop over the events, from an index on.
    unfoldable pub events_flaws : ℕ → List String → List String → List RevisitEvent → List Flaw
    unfolding event_flaws
    events_flaws n known_ids seen_event_ids [] = []
    events_flaws n known_ids seen_event_ids (e ∷ es) =
        map (in_event n) (event_flaws known_ids seen_event_ids e)
        ++ events_flaws (n + 1) known_ids (e.event_id ∷ seen_event_ids) es

    unfoldable pub validate_ledger : HypothesisLedger → List Flaw
    unfolding items_flaws events_flaws
    validate_ledger l =
        version_flaws l.schema_version
        ++ (note (not (is_digest l.ledger_id)) bad_ledger_id
            ++ (text_flaws "task_id" l.task_id
                ++ (text_flaws "repository_state_hash" l.repository_state_hash
                    ++ (items_flaws 0 [] [] l.items
                        ++ (events_flaws 0 (map (λ i. i.id) l.items) [] l.revisit_events
                            ++ note (not (str_eq l.ledger_id (ledger_id_for l)))
                                wrong_ledger_id)))))
