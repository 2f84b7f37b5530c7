-- ===== src/Monitor/Lifecycle.antt =====
-- `evidence_state` and `lifecycle_state` of scripts/claude-monitor-decision.py. A text holds a word of
-- one line exactly when one of the parts that newlines join holds it.
use Prim.Native.Char.{code}
use ai_coding_workflow.Prelude.{
  str_eq, ℕ, String, Bool, true, false, not, ◌&&◌, ◌||◌, [], ◌∷◌, any, is_blank, is_empty_text, ltb,
  ◌==◌, if◌then◌else◌,
}
use ai_coding_workflow.OwnerLease.Selection.{mentions}

unfoldable pub has_prefix : String → String → Bool
has_prefix String.[] s = true
has_prefix (String.◌∷◌ p ps) String.[] = false
has_prefix (String.◌∷◌ p ps) (String.◌∷◌ c s) = code p == code c && has_prefix ps s

-- `word in text`
unfoldable pub contains : String → String → Bool
unfolding has_prefix
contains word String.[] = has_prefix word ""
contains word (String.◌∷◌ c s) = has_prefix word (String.◌∷◌ c s) || contains word s

pub data Evidence : Type 0 where
  diff_and_report diff_only report_only seeded_only result_only no_report : Evidence

unfoldable pub is_valid_report : String → Bool
is_valid_report text =
    not (is_blank text)
    && not (contains "AI-CODING-WORKFLOW:DISPATCH-SEEDED-REPORT" text)
    && not (contains "AI-CODING-WORKFLOW:DISPATCH-FALLBACK-REPORT" text)

unfoldable pub evidence_state : ℕ → ℕ → String → Evidence
evidence_state changes result_size text =
    if ltb 0 changes && is_valid_report text
    then diff_and_report
    else if ltb 0 changes
    then diff_only
    else if is_valid_report text
    then report_only
    else if contains "AI-CODING-WORKFLOW:DISPATCH-SEEDED-REPORT" text
    then seeded_only
    else if ltb 0 result_size
    then result_only
    else no_report

pub data LifecycleState : Type 0 where
  terminal preflight_blocked running finalizing stopped_without_receipt not_started : LifecycleState

pub data Startup : Type 0 where
  completed capability_blocked transport_blocked approval_blocked started never_started : Startup

-- `token in text` for the joined and lowered text
unfoldable pub says : String → String → String → Bool
says progress status token = mentions token progress || mentions token status

unfoldable pub lifecycle_state : Bool → Bool → Bool → String → String → LifecycleState × Startup
lifecycle_state is_terminal is_running overall_running progress status =
    if is_terminal
    then (terminal, completed)
    else if says progress status "capability"
        && (says progress status "blocked" || says progress status "mismatch")
    then (preflight_blocked, capability_blocked)
    else if any (says progress status)
        ("needs_host_execution" ∷ "transport failure" ∷ "network is restricted" ∷ [])
    then (preflight_blocked, transport_blocked)
    else if any (says progress status)
        ("approval blocked" ∷ "permission denied" ∷ "read-only file system" ∷ [])
    then (preflight_blocked, approval_blocked)
    else if is_running
    then (running, started)
    else if overall_running
    then (finalizing, started)
    else if not (is_empty_text progress) || not (is_empty_text status)
    then (stopped_without_receipt, started)
    else (not_started, never_started)

-- `labels.get(value, value)`
unfoldable pub evidence_label : String → String
evidence_label value =
    if str_eq value "diff-plus-valid-report"
    then "diff + valid report"
    else if str_eq value "diff-without-report"
    then "diff without report"
    else if str_eq value "acknowledgement-only"
    then "acknowledgement only"
    else if str_eq value "seeded-report-only"
    then "seeded report only"
    else if str_eq value "valid-report-without-diff"
    then "valid report without diff"
    else if str_eq value "no-valid-report"
    then "no valid report"
    else value
