-- ===== src/Workflow/Run.antt =====
-- `PullRequestReviewWorkflow.run` and `status`, and a whole execution.
use pr_reliability_platform.Prelude.{
  ℕ, Bool, true, false, Option, none, some, List, codes, is_some, nonempty, leb, not, ◌||◌,
  if◌then◌else◌,
}
use pr_reliability_platform.Workflow.Types.{
  published, rejected, timed_out, failed, queued, in_progress, ReviewWorkflowInput, ApprovalSignal,
  SupersedeSignal, ReviewWorkflowStatus, ReviewWorkflowResult, StageResult,
}
use pr_reliability_platform.Workflow.Machine.{
  Turn, Signal, Workflow, init, matches_input, deliver, wait_condition, signalled, resume,
}
use pr_reliability_platform.Workflow.Coroutine.{
  Exit, done, Coroutine, pure, gets, modify, ◌>>=◌, ◌>>◌, try_except, return_or, or_runtime,
  required_input,
}
use pr_reliability_platform.Workflow.Activities.{
  stage, publish, update_check, finish_approval_wait, finish, honor_interrupt,
}

-- A supersession that is not newer than the input is dropped.
abbrev pub newer_only : ReviewWorkflowInput → Option SupersedeSignal → Option SupersedeSignal
newer_only request none = none
newer_only request (some s) = if leb s.next_run.generation request.generation then none else some s

-- An approval of another run or commit is dropped.
abbrev pub matching_only : ReviewWorkflowInput → Option ApprovalSignal → Option ApprovalSignal
matching_only request none = none
matching_only request (some a) = if matches_input (some request) a then some a else none

-- The assignments at the head of `run`; `patched` is `workflow.patched("github-check-runs-v1")`.
unfoldable pub begin_run : Bool → ReviewWorkflowInput → Workflow → Workflow
begin_run patched request w = record w {
  input = some request;
  started_at = some w.clock;
  supersession = newer_only request w.supersession;
  approval = matching_only request w.approval;
  checks_enabled = patched;
}

abbrev pub begin_waiting : Workflow → Workflow
begin_waiting w = record w {
  state = codes "awaiting_approval";
  approval_wait_started_at = some w.clock;
}

module _ (env : ℕ → Turn) (elapsed_ms : ℕ → ℕ → ℕ) where
  unfoldable pub queue_check : Bool → Coroutine (Unit {0})
  queue_check false = pure tt
  queue_check true = do
    update_check env elapsed_ms queued none
    update_check env elapsed_ms in_progress none

  -- The rest of the `try` block once the analysis is there.
  unfoldable pub verify : StageResult → Coroutine (Option ReviewWorkflowResult)
  verify analysis = do
    modify (λ w. record w { usage = analysis.usage })
    stage env elapsed_ms (codes "verify") (codes "verifying") (some analysis.output_ref)
    honor_interrupt env elapsed_ms

  unfoldable pub analyze : StageResult → Coroutine (Option ReviewWorkflowResult)
  analyze context = do
    analysis ← stage env elapsed_ms (codes "analyze") (codes "analyzing") (some context.output_ref)
    return_or (honor_interrupt env elapsed_ms) (or_runtime analysis >>= verify)

  -- The `try` block of `run`.
  unfoldable pub review : Coroutine (Option ReviewWorkflowResult)
  review = do
    queue_check (← gets (λ w. w.checks_enabled))
    context ← stage env elapsed_ms (codes "select_context") (codes "selecting_context") none
    return_or (honor_interrupt env elapsed_ms) (or_runtime context >>= analyze)

  -- The wait for a signal, up to the timer of `approval_timeout_seconds`.
  unfoldable pub wait_for_signal : Coroutine Bool
  wait_for_signal w =
      let t = env w.awaits in
      let (woke, w') = wait_condition signalled t.batches (begin_waiting w) in
      (done woke, resume t w')

  unfoldable pub report_publish : Bool → Coroutine ReviewWorkflowResult
  report_publish true = finish env elapsed_ms published none
  report_publish false = finish env elapsed_ms failed (some (codes "publish activity failed"))

  unfoldable pub publish_approved : ApprovalSignal → Coroutine ReviewWorkflowResult
  publish_approved approval = do
    modify (λ w. record w { state = codes "publishing" })
    sent ← try_except (publish env elapsed_ms approval >> pure true) (pure false)
    report_publish sent

  -- What `run` does with the approval that woke it.
  unfoldable pub decide : ApprovalSignal → Coroutine ReviewWorkflowResult
  decide approval =
      if not approval.approved
      then finish env elapsed_ms rejected (some (codes "human rejected findings"))
      else if not (nonempty approval.finding_ids)
          || (not (nonempty approval.approval_ids) || not (is_some approval.comment_body_ref))
      then finish env elapsed_ms rejected (some (codes "approval payload is incomplete"))
      else publish_approved approval

  unfoldable pub or_else :
      Option ReviewWorkflowResult → Coroutine ReviewWorkflowResult → Coroutine ReviewWorkflowResult
  or_else (some result) rest = pure result
  or_else none rest = rest

  unfoldable pub woken : Bool → Coroutine ReviewWorkflowResult
  woken false = finish env elapsed_ms timed_out (some (codes "approval timeout"))
  woken true = do
    early ← honor_interrupt env elapsed_ms
    or_else early (gets (λ w. w.approval) >>= or_runtime >>= decide)

  unfoldable pub await_approval : Coroutine ReviewWorkflowResult
  await_approval = do
    woke ← wait_for_signal
    modify (finish_approval_wait env elapsed_ms)
    woken woke

  unfoldable pub fail_review : Coroutine (Option ReviewWorkflowResult)
  fail_review = do
    result ← finish env elapsed_ms failed (some (codes "review activity failed"))
    pure (some result)

  -- `run`
  unfoldable pub run : Bool → ReviewWorkflowInput → Coroutine ReviewWorkflowResult
  run patched request = do
    modify (begin_run patched request)
    early ← try_except review fail_review
    or_else early await_approval

  -- An execution: `__init__` at the time `now`, the signals that arrive with the start, and `run`.
  unfoldable pub execution :
      ℕ → List Signal → Bool → ReviewWorkflowInput → Exit ReviewWorkflowResult × Workflow
  unfolding run
  execution now early patched request = run patched request (deliver early (init now))

-- The query `status`.
unfoldable pub status : Coroutine ReviewWorkflowStatus
status = do
  request ← required_input
  w ← gets (λ w. w)
  pure (record {
    run_id = request.run_id;
    generation = request.generation;
    head_sha = request.head_sha;
    state = w.state;
    cancellation_reason = w.cancel_reason;
  })
