-- ===== src/Attempt/Classify.antt =====
-- `classify` of scripts/classify-claude-attempt.py. Whether TRANSPORT_RE and APPROVAL_RE match the
-- error text are inputs; the identity of the attempt, which is passed through, is left out.
use ai_coding_workflow.Prelude.{
  ℕ, ◌-◌, String, Bool, true, false, not, ◌&&◌, ◌||◌, Option, none, some, [], ◌∷◌, mem, str_eq, ltb,
  ◌==◌, if◌then◌else◌,
}

-- The keyword arguments. A negative number of changes counts as no change.
pub record Attempt : Type 0 where
  pub exit_code : ℕ
  pub outcome : String
  pub semantic_error : Bool
  pub diff_changes : ℕ
  pub valid_report : Bool
  pub progress : String
  pub direction : String
  pub transport_text : Bool
  pub approval_text : Bool
  pub blocker_kind : String
  pub advisor_used : Bool
  pub delegation_mode : String
  pub retry_ordinal : ℕ
  pub task_mode : String
  pub report_consistency : String

pub data FailureClass : Type 0 where
  evidence_error direction_deviation report_mismatch_failure none_found recoverable_evidence :
      FailureClass
  approval_blocker model_no_progress transient_transport acknowledgement_only unclassified :
      FailureClass

pub data RecommendedAction : Type 0 where
  repair_runtime interrupt_and_narrow narrow_and_redispatch review_evidence preserve_and_rerun :
      RecommendedAction
  retry_same_worktree fallback_local inspect_evidence reroute : RecommendedAction

pub data Rejection : Type 0 where
  no_useful_evidence not_on_plan not_semantic transport_failure blocked_by_approval already_used :
      Rejection

pub data Interaction : Type 0 where
  useful_progress established not_established : Interaction

pub record Verdict : Type 0 where
  pub interaction_state : Interaction
  pub failure_class : FailureClass
  pub counts_toward_takeover : Bool
  pub recommended_action : RecommendedAction
  pub same_worktree_retry_eligible : Bool
  pub retry_budget_remaining : ℕ
  pub advisor_continuation_eligible : Bool
  pub advisor_rejection_reason : Option Rejection
  pub economic_stop_loss : Bool
  pub takeover_authorized : Bool

unfoldable pub report_mismatch : Attempt → Bool
report_mismatch a = mem a.report_consistency ("contradictory" ∷ "error" ∷ "role-mismatch" ∷ [])

unfoldable pub useful : Attempt → Bool
useful a =
    ltb 0 a.diff_changes
    || (a.valid_report
        && not (report_mismatch a)
        && (ltb 0 a.diff_changes
            || mem a.task_mode ("checker-test" ∷ "control-plane" ∷ "solution-planning" ∷ [])))
    || str_eq a.progress "useful"

unfoldable pub interacted : Attempt → Bool
interacted a = useful a || a.valid_report || mem a.progress ("acknowledgement" ∷ "blocker" ∷ [])

unfoldable pub transport : Attempt → Bool
transport a =
    not (str_eq a.outcome "execution_timeout")
    && (a.transport_text
        || mem a.outcome
            ("api_error" ∷ "api_error_without_diff" ∷ "network_error" ∷ "timeout" ∷ []))

unfoldable pub approval : Attempt → Bool
approval a = a.approval_text || str_eq a.outcome "approval_blocked"

-- `failure, action, counts`
pub record Account : Type 0 where
  pub failure : FailureClass
  pub action : RecommendedAction
  pub counts : Bool

abbrev pub account : FailureClass → RecommendedAction → Bool → Account
account f a c = record { failure = f; action = a; counts = c }

-- The cascade of tests.
unfoldable pub judge : Attempt → Account
judge a =
    if str_eq a.outcome "runtime_evidence_error"
    then account evidence_error repair_runtime false
    else if str_eq a.direction "off-plan"
    then account direction_deviation interrupt_and_narrow true
    else if report_mismatch a && a.diff_changes == 0
    then account report_mismatch_failure narrow_and_redispatch true
    else if useful a
    then account
        (if mem a.outcome ("success" ∷ "passed" ∷ []) then none_found else recoverable_evidence)
        review_evidence false
    else if approval a
    then account approval_blocker preserve_and_rerun false
    else if str_eq a.outcome "execution_timeout"
        && not (useful a)
        && not (str_eq a.progress "blocker")
    then account model_no_progress narrow_and_redispatch true
    else if transport a && not (interacted a)
    then account transient_transport
        (if ltb a.retry_ordinal 1 then retry_same_worktree else fallback_local) false
    else if str_eq a.progress "acknowledgement"
    then account acknowledgement_only narrow_and_redispatch true
    else if a.exit_code == 0 && not a.semantic_error
    then account model_no_progress narrow_and_redispatch true
    else account unclassified inspect_evidence false

-- `failure in {"direction-deviation", "acknowledgement-only", "model-no-progress"}`
abbrev pub is_stop_loss : FailureClass → Bool
is_stop_loss direction_deviation = true
is_stop_loss acknowledgement_only = true
is_stop_loss model_no_progress = true
is_stop_loss _ = false

abbrev pub is_transient : FailureClass → Bool
is_transient transient_transport = true
is_transient _ = false

unfoldable pub stop_loss : Attempt → Bool
stop_loss a =
    str_eq a.delegation_mode "canary" && (judge a).counts && is_stop_loss (judge a).failure

unfoldable pub rejection_reason : Attempt → Option Rejection
rejection_reason a =
    if not (useful a)
    then some no_useful_evidence
    else if not (str_eq a.direction "on-plan")
    then some not_on_plan
    else if not (str_eq a.blocker_kind "semantic")
    then some not_semantic
    else if transport a
    then some transport_failure
    else if approval a
    then some blocked_by_approval
    else if a.advisor_used
    then some already_used
    else none

abbrev pub is_none : Option Rejection → Bool
is_none none = true
is_none (some r) = false

unfoldable pub classify : Attempt → Verdict
classify a = record {
  interaction_state =
      if useful a then useful_progress else if interacted a then established else not_established;
  failure_class = (judge a).failure;
  counts_toward_takeover = (judge a).counts;
  recommended_action = if stop_loss a then reroute else (judge a).action;
  same_worktree_retry_eligible = is_transient (judge a).failure && ltb a.retry_ordinal 1;
  retry_budget_remaining = 1 - a.retry_ordinal;
  advisor_continuation_eligible = is_none (rejection_reason a);
  advisor_rejection_reason = rejection_reason a;
  economic_stop_loss = stop_loss a;
  takeover_authorized = false;
}
