-- ===== src/Hypotheses/Examples.antt =====
-- A short life of a ledger of scripts/hypothesis_ledger.py.
use ai_coding_workflow.Prelude.{
  String, ◌≡◌, ◌≢◌, refl, Bool, true, false, not, none, some, [], ◌∷◌, any, is_digest, after_prefix,
  is_hex, sorted, sort_by, insert_by, to_set, str_leb, dict_put, ok,
}
use ai_coding_workflow.Hypotheses.Model.{
  exact, rejected_repeat, RevisitEvent, HypothesisLedger, statement_digest, validate_ledger,
  string_flaws, reopening_flaws, text_fields, other_fields, digest_flaws, item_flaws, items_flaws,
  events_flaws,
}
use ai_coding_workflow.Hypotheses.Operations.{
  RejectInput, ReopenInput, Proposal, repeated, ProposalResult, validate_reject_input,
  validate_reopen_input, validate_proposal, same_metadata, find_equal, rejected_item, find_item,
  change_item, reopened_item, sorted_difference, match_type, matches_of, outcome_of,
}
use ai_coding_workflow.Hypotheses.Ledger.{
  types_of, relevant_items, seal_event, with_items, empty_ledger, add_rejected_item, reopen_item,
  check_proposal,
}
use ai_coding_workflow.Hypotheses.Searching.{is_match}
use ai_coding_workflow.Hypotheses.Blocking.{
  start, added, check_proposal_allows, add_rejected_item_blocks,
}
use ai_coding_workflow.Hypotheses.Reopened.{OneReopened, reopen_item_lem}
use ai_coding_workflow.Hypotheses.Refinement.{Commutes, reopening_step, LedgerStep-Commutes}
use ai_coding_workflow.Hypotheses.Reached.{created, grown, Reached-valid}

-- Python's functions, at their simplest.
abbrev same : String → String
same s = s

abbrev by_statement : RevisitEvent → String
by_statement e = e.statement

abbrev zero_digest : String
zero_digest = "sha256:0000000000000000000000000000000000000000000000000000000000000000"

abbrev ledger_digest : HypothesisLedger → String
ledger_digest l = zero_digest

abbrev never : String → String → Bool
never s t = false

abbrev fresh : HypothesisLedger
fresh = empty_ledger same same by_statement ledger_digest "t1" "r1"

abbrev first : RejectInput
first = record {
  schema_version = 1;
  id = "h1";
  statement = "cache";
  reason = "no effect";
  evidence_refs = "e1" ∷ [];
  reopen_when = none;
  producer = "codex";
  repository_state_hash = "r1";
  scope_refs = [];
}

abbrev second : RejectInput
second = record {
  schema_version = 1;
  id = "h2";
  statement = "locks";
  reason = "no effect";
  evidence_refs = "e2" ∷ [];
  reopen_when = none;
  producer = "codex";
  repository_state_hash = "r1";
  scope_refs = [];
}

abbrev one_item : HypothesisLedger
one_item =
    with_items same same by_statement ledger_digest (rejected_item "cache" zero_digest first ∷ [])
      "r1" fresh

abbrev two_items : HypothesisLedger
two_items =
    with_items same same by_statement ledger_digest
      (rejected_item "cache" zero_digest first ∷ rejected_item "locks" zero_digest second ∷ []) "r1"
      one_item

first_added :
    add_rejected_item same same by_statement ledger_digest fresh first zero_digest ≡ ok one_item
unfolding add_rejected_item validate_ledger validate_reject_input find_equal statement_digest
    items_flaws events_flaws string_flaws sort_by is_digest after_prefix is_hex
first_added = refl

second_added :
    add_rejected_item same same by_statement ledger_digest one_item second zero_digest
    ≡ ok two_items
unfolding add_rejected_item validate_ledger validate_reject_input find_equal statement_digest
    items_flaws events_flaws string_flaws sort_by is_digest after_prefix is_hex item_flaws
    text_fields other_fields digest_flaws reopening_flaws sorted insert_by str_leb same_metadata
second_added = refl

abbrev proposal : Proposal
proposal = record {
  schema_version = 1;
  statement = "cache";
  producer = "claude";
  evidence_refs = [];
  repository_state_hash = "r1";
  scope_refs = [];
  related_hypothesis_ids = [];
}

abbrev event : RevisitEvent
event = seal_event same same by_statement ledger_digest (record {
  event_id = "";
  observed_at = "now";
  producer = "claude";
  statement = "cache";
  statement_hash = "cache";
  evidence_refs = [];
  repository_state_hash = "r1";
  scope_refs = [];
  matched_hypothesis_ids = "h1" ∷ [];
  match_types = ("h1", exact) ∷ [];
  outcome = rejected_repeat;
})

abbrev answered : ProposalResult
answered = record {
  status = repeated rejected_repeat;
  execute_allowed = false;
  matched_hypotheses = ("h1", exact) ∷ [];
  new_evidence_present = false;
  repository_changed = false;
  relevant_rejected_hypotheses = rejected_item "cache" zero_digest first ∷ [];
}

event_left :
    check_proposal same same by_statement ledger_digest never "now" two_items proposal 8
    ≡ ok (answered, some event, rejected_item "cache" zero_digest first ∷ [])
unfolding check_proposal validate_ledger validate_proposal matches_of match_type statement_digest
    items_flaws events_flaws string_flaws sort_by is_digest after_prefix is_hex item_flaws
    text_fields other_fields digest_flaws reopening_flaws sorted insert_by str_leb to_set types_of
    relevant_items outcome_of dict_put
event_left = refl

check_proposal_allows_example :
    (key : String) × (statement_digest same same "cache" ≡ some key)
    × (answered.execute_allowed ≡ not (any (is_match never key proposal) two_items.items))
check_proposal_allows_example =
    check_proposal_allows same same by_statement ledger_digest never "now" two_items proposal 8
      answered (some event) (rejected_item "cache" zero_digest first ∷ []) event_left

add_rejected_item_blocks_example : (answered.execute_allowed ≡ false) × (some event ≢ none)
add_rejected_item_blocks_example =
    add_rejected_item_blocks same same by_statement ledger_digest never "now" fresh one_item
      two_items first zero_digest proposal 8 answered (some event)
      (rejected_item "cache" zero_digest first ∷ []) first_added
      (added start second zero_digest second_added) refl event_left

zero_is_digest : is_digest zero_digest ≡ true
unfolding is_digest after_prefix is_hex
zero_is_digest = refl

Reached-valid_example : validate_ledger same same by_statement ledger_digest two_items ≡ []
Reached-valid_example =
    Reached-valid same same by_statement ledger_digest (λ l. zero_is_digest) never two_items
      (grown (grown (created "t1" "r1" refl refl) first zero_digest zero_is_digest first_added)
        second zero_digest zero_is_digest second_added)

abbrev reopening : ReopenInput
reopening = record {
  schema_version = 1;
  hypothesis_id = "h1";
  producer = "codex";
  reason = "new trace";
  new_evidence_refs = "e1" ∷ "e3" ∷ [];
  condition_met = true;
  repository_state_hash = "r1";
}

abbrev one_reopened : HypothesisLedger
one_reopened =
    with_items same same by_statement ledger_digest
      (reopened_item "new trace" ("e3" ∷ []) "codex" (rejected_item "cache" zero_digest first)
        ∷ rejected_item "locks" zero_digest second
        ∷ [])
      "r1" two_items

first_reopened :
    reopen_item same same by_statement ledger_digest two_items reopening ≡ ok one_reopened
unfolding reopen_item validate_ledger validate_reopen_input statement_digest items_flaws
    events_flaws string_flaws sort_by is_digest after_prefix is_hex item_flaws text_fields
    other_fields digest_flaws reopening_flaws sorted insert_by str_leb to_set find_item change_item
    sorted_difference
first_reopened = refl

reopen_item_lem_example : OneReopened reopening two_items one_reopened
reopen_item_lem_example =
    reopen_item_lem same same by_statement ledger_digest two_items one_reopened reopening
      first_reopened

LedgerStep-Commutes_example :
    Commutes same same by_statement ledger_digest two_items one_reopened
      (reopening_step reopening first_reopened)
LedgerStep-Commutes_example =
    LedgerStep-Commutes same same by_statement ledger_digest two_items one_reopened
      (reopening_step reopening first_reopened)
