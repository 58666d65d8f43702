-- ===== src/Workflow/Stages.antt =====
-- The rules of `Sound` and `Ending` carried over to the `try` block of `run`.
use pr_reliability_platform.Prelude.{ℕ, ◌≡◌, Bool, true, false, Option, none, some, All}
use pr_reliability_platform.Workflow.Types.{
  ReviewWorkflowInput, ReviewWorkflowResult, ApprovalSignal, queued, in_progress, StageResult,
}
use pr_reliability_platform.Workflow.Machine.{Turn, Workflow, interrupted}
use pr_reliability_platform.Workflow.Coroutine.{
  Exit, done, activity_error, runtime_error, continue_as_new, or_runtime, Coroutine, after, or_rest,
}
use pr_reliability_platform.Workflow.Activities.{honor_interrupt}
use pr_reliability_platform.Workflow.Invariant.{
  Inv, SignalOk, Unit-Steady, Anything, Honored, StageDone, Reviewed,
}
use pr_reliability_platform.Workflow.Sound.{Holds, after-Holds, update_check-Holds, stage-Holds}
use pr_reliability_platform.Workflow.Ending.{honor_interrupt-Holds}
use pr_reliability_platform.Workflow.Run.{queue_check, verify, analyze, review}

module _ (r : ReviewWorkflowInput) (Q : ApprovalSignal → Type 0) (env : ℕ → Turn)
    (elapsed_ms : ℕ → ℕ → ℕ) (sent : (n : ℕ) → All (All (SignalOk r Q)) (env n).batches) where
  -- After a stage: an interrupt ends the run, and without one the stage's result is there.
  guarded-Holds :
      (o : Option StageResult) (k : StageResult → Coroutine (Option ReviewWorkflowResult))
      (w : Workflow)
      → Inv r Q w
      → StageDone o w
      → ((a : StageResult) (w' : Workflow) → Inv r Q w' → Holds r Q (Reviewed r) Anything (k a w'))
      → Holds r Q
          (Reviewed r)
          Anything
          (after (honor_interrupt env elapsed_ms w) (or_rest (λ w'. after (or_runtime o w') k)))
  guarded-Holds o k w h d next =
      after-Holds r Q (Honored r w) Anything (Reviewed r) _ _
        (honor_interrupt-Holds r Q env elapsed_ms sent w h) (after_honor o d)
    where
      rest :
          (o : Option StageResult) (w' : Workflow)
          → StageDone o w
          → Inv r Q w'
          → interrupted w ≡ false
          → Holds r Q (Reviewed r) Anything (after (or_runtime o w') k)
      rest none w' d i e = cc
      rest (some a) w' d i e = next a w' i

      after_honor :
          (o : Option StageResult)
          → StageDone o w
          → (early : Option ReviewWorkflowResult) (w' : Workflow) → Inv r Q w'
          → Honored r w early w'
          → Holds r Q (Reviewed r) Anything (or_rest (λ w'. after (or_runtime o w') k) early w')
      after_honor o d none w' i p = rest o w' d i p.1
      after_honor o d (some result) w' i p = (i, p)

  verify-Holds :
      (a : StageResult) (w : Workflow)
      → Inv r Q w
      → Holds r Q (Reviewed r) Anything (verify env elapsed_ms a w)
  unfolding verify
  verify-Holds a w h =
      after-Holds r Q (StageDone) Anything (Reviewed r) _ _
        (stage-Holds r Q env elapsed_ms sent _ _ _ _ (record {
          input_kept = h.input_kept;
          approval_ok = h.approval_ok;
          supersession_newer = h.supersession_newer;
          calls_justified = h.calls_justified;
        }))
        (λ o w1 h1 d1. ended w1 _ (honor_interrupt-Holds r Q env elapsed_ms sent w1 h1))
    where
      ended :
          (w1 : Workflow) (x : Exit (Option ReviewWorkflowResult) × Workflow)
          → Holds r Q (Honored r w1) Anything x
          → Holds r Q (Reviewed r) Anything x
      ended w1 (done none, w') p = (p.0, tt)
      ended w1 (done (some result), w') p = p
      ended w1 (activity_error, w') p = p
      ended w1 (runtime_error, w') p = p
      ended w1 (continue_as_new n, w') p = p

  analyze-Holds :
      (a : StageResult) (w : Workflow)
      → Inv r Q w
      → Holds r Q (Reviewed r) Anything (analyze env elapsed_ms a w)
  unfolding analyze
  analyze-Holds a w h =
      after-Holds r Q (StageDone) Anything (Reviewed r) _ _
        (stage-Holds r Q env elapsed_ms sent _ _ _ w h)
        (λ o w1 h1 d1. guarded-Holds o _ w1 h1 d1 verify-Holds)

  queue_check-Holds :
      (b : Bool) (w : Workflow)
      → Inv r Q w
      → Holds r Q (λ (u : Unit {0}) w'. Unit {0}) Anything (queue_check env elapsed_ms b w)
  unfolding queue_check
  queue_check-Holds false w h = (h, tt)
  queue_check-Holds true w h =
      after-Holds r Q (λ (u : Unit {0}) w'. Unit {0}) Anything (λ u w'. Unit) _ _
        (update_check-Holds r Q env elapsed_ms sent (λ w. Unit) queued none w Unit-Steady tt h)
        (λ u w1 h1 d1.
          update_check-Holds r Q env elapsed_ms sent (λ w. Unit) in_progress none w1 Unit-Steady tt
            h1)

  pub review-Holds :
      (w : Workflow) → Inv r Q w → Holds r Q (Reviewed r) Anything (review env elapsed_ms w)
  unfolding review
  review-Holds w h =
      after-Holds r Q (λ (u : Unit {0}) w'. Unit {0}) Anything (Reviewed r) _ _
        (queue_check-Holds w.checks_enabled w h)
        (λ u w1 h1 d1.
          after-Holds r Q (StageDone) Anything (Reviewed r) _ _
            (stage-Holds r Q env elapsed_ms sent _ _ _ w1 h1)
            (λ o w2 h2 d2. guarded-Holds o _ w2 h2 d2 analyze-Holds))
