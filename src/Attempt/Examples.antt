-- ===== src/Attempt/Examples.antt =====
-- Runs of scripts/classify-claude-attempt.py.
use ai_coding_workflow.Prelude.{◌≡◌, ◌↔◌, ◌⊎◌, refl, true, false}
use ai_coding_workflow.Attempt.Classify.{
  Attempt, classify, judge, useful, interacted, transport, approval, report_mismatch,
}
use ai_coding_workflow.Attempt.Accounting.{
  retry_only_untouched, useful_seldom_counts, advisor_eligible_iff,
}

-- a connection that was reset before anything was said
abbrev reset : Attempt
reset = record {
  exit_code = 1;
  outcome = "api_error";
  semantic_error = false;
  diff_changes = 0;
  valid_report = false;
  progress = "none";
  direction = "unknown";
  transport_text = true;
  approval_text = false;
  blocker_kind = "none";
  advisor_used = false;
  delegation_mode = "canary";
  retry_ordinal = 0;
  task_mode = "unknown";
  report_consistency = "not-run";
}

-- changes that went off the plan
abbrev astray : Attempt
astray = record reset { diff_changes = 3; direction = "off-plan" }

retry_only_untouched_example :
    (reset.retry_ordinal ≡ 0)
    × (transport reset ≡ true)
    × (interacted reset ≡ false)
    × ((classify reset).counts_toward_takeover ≡ false)
    × ((classify reset).economic_stop_loss ≡ false)
unfolding classify judge useful interacted transport approval report_mismatch
retry_only_untouched_example = retry_only_untouched reset refl

useful_seldom_counts_example :
    (astray.direction ≡ "off-plan") ⊎ ((report_mismatch astray ≡ true) × (astray.diff_changes ≡ 0))
unfolding classify judge useful report_mismatch
useful_seldom_counts_example = useful_seldom_counts astray refl refl

advisor_eligible_iff_example : ((classify astray).advisor_continuation_eligible ≡ true) ↔ (
    (useful astray ≡ true)
    × (astray.direction ≡ "on-plan")
    × (astray.blocker_kind ≡ "semantic")
    × (transport astray ≡ false)
    × (approval astray ≡ false)
    × (astray.advisor_used ≡ false))
advisor_eligible_iff_example = advisor_eligible_iff astray
