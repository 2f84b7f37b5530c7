-- ===== src/Hypotheses/Operations.antt =====
-- The operations of scripts/hypothesis_ledger.py on a ledger.
use ai_coding_workflow.Prelude.{
  ℕ, zero, suc, String, Bool, true, false, not, ◌&&◌, Option, none, some, List, [], ◌∷◌, ◌++◌, mem,
  filter, to_set, str_eq, if◌then◌else◌, note, sorted, Result, ok, err,
}
use ai_coding_workflow.Hypotheses.Model.{
  rejected, reopened, MatchType, explicit, exact, similar, RevisitOutcome, rejected_repeat,
  reopen_required, possible_repeat, HypothesisItem, Flaw, bad_reopen_when, version_flaws,
  text_flaws, string_flaws, is_rejected, is_empty_some,
}

pub record RejectInput : Type 0 where
  pub schema_version : ℕ
  pub id : String
  pub statement : String
  pub reason : String
  pub evidence_refs : List String
  pub reopen_when : Option String
  pub producer : String
  pub repository_state_hash : String
  pub scope_refs : List String

pub record ReopenInput : Type 0 where
  pub schema_version : ℕ
  pub hypothesis_id : String
  pub producer : String
  pub reason : String
  pub new_evidence_refs : List String
  pub condition_met : Bool
  pub repository_state_hash : String

pub record Proposal : Type 0 where
  pub schema_version : ℕ
  pub statement : String
  pub producer : String
  pub evidence_refs : List String
  pub repository_state_hash : String
  pub scope_refs : List String
  pub related_hypothesis_ids : List String

-- HypothesisLedgerError, by its message.
pub data HypothesisError : Type 0 where
  invalid : List Flaw → HypothesisError
  no_letters different_metadata equivalent_exists : HypothesisError
  no_such_hypothesis not_rejected no_new_evidence condition_not_met : HypothesisError
  bad_max_relevant unknown_related : HypothesisError

unfoldable pub validate_reject_input : RejectInput → List Flaw
unfolding string_flaws
validate_reject_input v =
    version_flaws v.schema_version
    ++ (text_flaws "id" v.id
        ++ (text_flaws "statement" v.statement
            ++ (text_flaws "reason" v.reason
                ++ (text_flaws "producer" v.producer
                    ++ (text_flaws "repository_state_hash" v.repository_state_hash
                        ++ (string_flaws "evidence_refs" true v.evidence_refs
                            ++ (string_flaws "scope_refs" false v.scope_refs
                                ++ note (is_empty_some v.reopen_when) bad_reopen_when)))))))

unfoldable pub validate_reopen_input : ReopenInput → List Flaw
unfolding string_flaws
validate_reopen_input v =
    version_flaws v.schema_version
    ++ (text_flaws "hypothesis_id" v.hypothesis_id
        ++ (text_flaws "producer" v.producer
            ++ (text_flaws "reason" v.reason
                ++ (text_flaws "repository_state_hash" v.repository_state_hash
                    ++ string_flaws "new_evidence_refs" true v.new_evidence_refs))))

unfoldable pub validate_proposal : Proposal → List Flaw
unfolding string_flaws
validate_proposal p =
    version_flaws p.schema_version
    ++ (text_flaws "statement" p.statement
        ++ (text_flaws "producer" p.producer
            ++ (text_flaws "repository_state_hash" p.repository_state_hash
                ++ (string_flaws "evidence_refs" false p.evidence_refs
                    ++ (string_flaws "scope_refs" false p.scope_refs
                        ++ string_flaws "related_hypothesis_ids" false p.related_hypothesis_ids)))))

abbrev pub same_texts : List String → List String → Bool
same_texts [] [] = true
same_texts (x ∷ xs) (y ∷ ys) = str_eq x y && same_texts xs ys
same_texts xs ys = false

abbrev pub same_option : Option String → Option String → Bool
same_option none none = true
same_option (some s) (some t) = str_eq s t
same_option s t = false

unfoldable pub same_metadata : String → RejectInput → HypothesisItem → Bool
same_metadata key v i =
    str_eq i.statement_hash key
    && is_rejected i.status
    && str_eq i.reason v.reason
    && same_texts i.evidence_refs (sorted v.evidence_refs)
    && same_option i.reopen_when v.reopen_when
    && str_eq i.producer v.producer
    && str_eq i.repository_state_hash v.repository_state_hash
    && same_texts i.scope_refs (sorted v.scope_refs)

-- An item is a rejection of the statement with the hash.
abbrev pub is_active : String → HypothesisItem → Bool
is_active key i = str_eq i.statement_hash key && is_rejected i.status

-- The loop of `add_rejected_item`: whether the same rejection is there.
unfoldable pub find_equal : String → RejectInput → List HypothesisItem → Result HypothesisError Bool
unfolding same_metadata
find_equal key v [] = ok false
find_equal key v (i ∷ is) =
    let later = find_equal key v is in
    if str_eq i.id v.id
    then (if same_metadata key v i then ok true else err different_metadata)
    else if is_active key i
    then err equivalent_exists
    else later

abbrev pub rejected_item : String → String → RejectInput → HypothesisItem
rejected_item key rejected_state_id v = record {
  id = v.id;
  statement = v.statement;
  statement_hash = key;
  status = rejected;
  reason = v.reason;
  evidence_refs = sorted v.evidence_refs;
  reopen_when = v.reopen_when;
  producer = v.producer;
  repository_state_hash = v.repository_state_hash;
  scope_refs = sorted v.scope_refs;
  rejected_state_id = rejected_state_id;
  reopened_reason = none;
  reopened_evidence_refs = [];
  reopened_by = none;
}

-- `next((row for row in items if row["id"] == id), None)`
unfoldable pub find_item : String → List HypothesisItem → Option HypothesisItem
find_item id [] = none
find_item id (i ∷ is) = let rest = find_item id is in if str_eq i.id id then some i else rest

-- A change of the first item with the id.
unfoldable pub change_item :
    String → (HypothesisItem → HypothesisItem) → List HypothesisItem → List HypothesisItem
change_item id f [] = []
change_item id f (i ∷ is) =
    let rest = change_item id f is in if str_eq i.id id then f i ∷ is else i ∷ rest

abbrev pub reopened_item : String → List String → String → HypothesisItem → HypothesisItem
reopened_item reason new_evidence producer i = record {
  id = i.id;
  statement = i.statement;
  statement_hash = i.statement_hash;
  status = reopened;
  reason = i.reason;
  evidence_refs = i.evidence_refs;
  reopen_when = i.reopen_when;
  producer = i.producer;
  repository_state_hash = i.repository_state_hash;
  scope_refs = i.scope_refs;
  rejected_state_id = i.rejected_state_id;
  reopened_reason = some reason;
  reopened_evidence_refs = new_evidence;
  reopened_by = some producer;
}

-- `sorted(set(xs) - set(ys))`
unfoldable pub sorted_difference : List String → List String → List String
sorted_difference xs ys = sorted (filter (λ x. not (mem x ys)) (to_set xs))

abbrev pub item_id : HypothesisItem → String
item_id i = i.id

-- How `check_proposal` matches an active item; `is_similar` is the test of the similarity of two
-- statements against the threshold.
unfoldable pub match_type :
    (String → String → Bool) → String → Proposal → HypothesisItem → Option MatchType
match_type is_similar key p i =
    if mem i.id p.related_hypothesis_ids
    then some explicit
    else if str_eq i.statement_hash key
    then some exact
    else if is_similar i.statement p.statement
    then some similar
    else none

unfoldable pub matches_of :
    (String → String → Bool)
    → String
    → Proposal
    → List HypothesisItem
    → List (HypothesisItem × MatchType)
unfolding match_type
matches_of is_similar key p [] = []
matches_of is_similar key p (i ∷ is) =
    let rest = matches_of is_similar key p is in
    elim (match_type is_similar key p i) [ none ↦ rest | some m ↦ (i, m) ∷ rest ]

abbrev pub is_strong : MatchType → Bool
is_strong similar = false
is_strong m = true

pub data ProposalStatus : Type 0 where
  novel : ProposalStatus
  repeated : RevisitOutcome → ProposalStatus

-- `new_evidence_present` and `repository_changed` stand only in the result of a repeat; the rounded
-- similarity of a match is left out.
pub record ProposalResult : Type 0 where
  pub status : ProposalStatus
  pub execute_allowed : Bool
  pub matched_hypotheses : List (String × MatchType)
  pub new_evidence_present : Bool
  pub repository_changed : Bool
  pub relevant_rejected_hypotheses : List HypothesisItem

abbrev pub take : ℕ → List HypothesisItem → List HypothesisItem
take zero is = []
take (suc n) [] = []
take (suc n) (i ∷ is) = i ∷ take n is

unfoldable pub outcome_of : Bool → Bool → Bool → RevisitOutcome
outcome_of strong has_new_evidence repository_changed =
    if strong && not has_new_evidence && not repository_changed
    then rejected_repeat
    else if strong
    then reopen_required
    else possible_repeat
