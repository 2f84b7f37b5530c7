-- ===== src/Attempt/Accounting.antt =====
-- What the verdicts of scripts/classify-claude-attempt.py promise.
use ai_coding_workflow.Prelude.{
  ◌≡◌, ◌↔◌, refl, Bool, not, ◌&&◌, true, false, str_eq, str_eq_iff, mem, [], ◌∷◌, ltb, ◌==◌, arith,
  ◌⊎◌, if◌then◌else◌,
}
use ai_coding_workflow.Attempt.Classify.{
  Attempt, Account, account, evidence_error, repair_runtime, direction_deviation,
  interrupt_and_narrow, report_mismatch_failure, narrow_and_redispatch, approval_blocker,
  preserve_and_rerun, model_no_progress, transient_transport, retry_same_worktree, fallback_local,
  acknowledgement_only, unclassified, inspect_evidence, review_evidence, none_found,
  recoverable_evidence, is_stop_loss, useful, interacted, transport, approval, report_mismatch,
  judge, classify, rejection_reason, is_transient, stop_loss,
}

-- What an account of a transient failure says of its attempt.
abbrev IsUntouched : Attempt → Account → Type 0
IsUntouched a x =
    is_transient x.failure ≡ true
    → (transport a ≡ true)
      × (interacted a ≡ false)
      × (x.counts ≡ false)
      × (is_stop_loss x.failure ≡ false)

-- One step down the cascade of tests.
IsUntouched-step :
    (a : Attempt) (c : Bool) (x y : Account)
    → (c ≡ true → IsUntouched a x)
    → IsUntouched a y
    → IsUntouched a (if c then x else y)
IsUntouched-step a true x y f g = f refl
IsUntouched-step a false x y f g = g

success-IsUntouched :
    (a : Attempt) (b : Bool)
    → IsUntouched a (account (if b then none_found else recoverable_evidence) review_evidence false)
success-IsUntouched a true h = cc
success-IsUntouched a false h = cc

acknowledged-IsUntouched :
    (a : Attempt)
    → IsUntouched a (
        if str_eq a.progress "acknowledgement"
        then account acknowledgement_only narrow_and_redispatch true
        else if a.exit_code == 0 && not a.semantic_error
        then account model_no_progress narrow_and_redispatch true
        else account unclassified inspect_evidence false)
acknowledged-IsUntouched a =
    IsUntouched-step a (str_eq a.progress "acknowledgement")
      (account acknowledgement_only narrow_and_redispatch true) _ (λ e h. cc)
      (IsUntouched-step a (a.exit_code == 0 && not a.semantic_error)
        (account model_no_progress narrow_and_redispatch true)
        (account unclassified inspect_evidence false) (λ e h. cc) (λ h. cc))

transient-IsUntouched : (a : Attempt) → IsUntouched a (judge a)
unfolding judge
transient-IsUntouched a =
    IsUntouched-step a (str_eq a.outcome "runtime_evidence_error")
      (account evidence_error repair_runtime false) _ (λ e h. cc)
      (IsUntouched-step a (str_eq a.direction "off-plan")
        (account direction_deviation interrupt_and_narrow true) _ (λ e h. cc)
        (IsUntouched-step a (report_mismatch a && a.diff_changes == 0)
          (account report_mismatch_failure narrow_and_redispatch true) _ (λ e h. cc)
          (IsUntouched-step a (useful a) _ _
            (λ e. success-IsUntouched a (mem a.outcome ("success" ∷ "passed" ∷ [])))
            (IsUntouched-step a (approval a) (account approval_blocker preserve_and_rerun false) _
              (λ e h. cc)
              (IsUntouched-step a
                (str_eq a.outcome "execution_timeout"
                  && not (useful a)
                  && not (str_eq a.progress "blocker"))
                (account model_no_progress narrow_and_redispatch true) _ (λ e h. cc)
                (IsUntouched-step a (transport a && not (interacted a))
                  (account transient_transport
                    (if ltb a.retry_ordinal 1 then retry_same_worktree else fallback_local) false)
                  _ (λ e h. (ground arith, ground arith, refl, refl))
                  (acknowledged-IsUntouched a)))))))

no_stop_loss : (a : Attempt) → is_stop_loss (judge a).failure ≡ false → stop_loss a ≡ false
unfolding stop_loss
no_stop_loss a h = ground arith

-- A retry in the same worktree is offered only for a first attempt that failed in transport without
-- any interaction, and such an attempt does not count toward a takeover and is not rerouted.
pub retry_only_untouched :
    (a : Attempt)
    → (classify a).same_worktree_retry_eligible ≡ true
    → (a.retry_ordinal ≡ 0)
      × (transport a ≡ true)
      × (interacted a ≡ false)
      × ((classify a).counts_toward_takeover ≡ false)
      × ((classify a).economic_stop_loss ≡ false)
unfolding classify
retry_only_untouched a h =
    let transient : is_transient (judge a).failure ≡ true = ground arith in
    let first : a.retry_ordinal ≡ 0 = ground arith in
    let (t, i, c, s) = transient-IsUntouched a transient in (first, t, i, c, no_stop_loss a s)

-- An attempt with useful evidence counts toward a takeover only when it went off the plan, or when it
-- changed nothing and its report is contradicted.
pub useful_seldom_counts :
    (a : Attempt)
    → useful a ≡ true
    → (classify a).counts_toward_takeover ≡ true
    → (a.direction ≡ "off-plan") ⊎ ((report_mismatch a ≡ true) × (a.diff_changes ≡ 0))
unfolding classify judge
useful_seldom_counts a u h = ground (arith, str_eq_iff a.direction "off-plan")

-- A continuation by the advisor is offered exactly to an attempt on the plan with useful evidence and
-- a semantic blocker, without a transport failure or a blocked approval, whose advisor is unused.
pub advisor_eligible_iff :
    (a : Attempt)
    → ((classify a).advisor_continuation_eligible ≡ true) ↔ (
        (useful a ≡ true)
        × (a.direction ≡ "on-plan")
        × (a.blocker_kind ≡ "semantic")
        × (transport a ≡ false)
        × (approval a ≡ false)
        × (a.advisor_used ≡ false))
unfolding classify rejection_reason
advisor_eligible_iff a =
    let on = str_eq_iff a.direction "on-plan" in
    let semantic = str_eq_iff a.blocker_kind "semantic" in
    (
      (λ h. (ground arith, ground arith, ground arith, ground arith, ground arith, ground arith)),
      λ h. ground arith,
    )
