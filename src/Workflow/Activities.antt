-- ===== src/Workflow/Activities.antt =====
-- The methods of workflows/pull_request_review.py that await activities: the stages, the publish, the
-- check runs, the terminal record and the interrupts; the activity options and the keys.
use pr_reliability_platform.Prelude.{
  ℕ, Bool, true, false, Option, none, some, [], ◌∷◌, ◌++◌, Text, codes, is_some, max, if◌then◌else◌,
  text_eq, ◌*◌,
}
use pr_reliability_platform.Workflow.Types.{
  WorkflowOutcome, published, rejected, cancelled, timed_out, failed, outcome_value, CheckRunStatus,
  completed, status_value, CheckRunConclusion, success, failure, action_required,
  conclusion_cancelled, conclusion_timed_out, ReviewWorkflowInput, ApprovalSignal, SupersedeSignal,
  ReviewWorkflowResult, StageResult, PublishRequest, TerminalRequest,
}
use pr_reliability_platform.Workflow.Machine.{
  ActivityOptions, Activity, Turn, Workflow, deliver_all, wait_condition, interrupted, resume,
}
use pr_reliability_platform.Workflow.Coroutine.{
  Coroutine, done, activity_error, pure, gets, modify, continue_with, ◌>>=◌, ◌>>◌, try_except,
  or_runtime, required_input,
}

unfoldable pub check_conclusion : WorkflowOutcome → CheckRunConclusion
check_conclusion published = success
check_conclusion rejected = action_required
check_conclusion cancelled = conclusion_cancelled
check_conclusion timed_out = conclusion_timed_out
check_conclusion failed = failure

abbrev pub verification_activity_timeout_seconds : ℕ
verification_activity_timeout_seconds = 2 * 60 * 60

abbrev pub max_activity_attempts : ℕ
max_activity_attempts = 3

-- `_key`
unfoldable pub key : ReviewWorkflowInput → Text → Text
key r step = r.run_id ++ (codes ":" ++ (r.head_sha ++ (codes ":" ++ step)))

unfoldable pub activity_options : ReviewWorkflowInput → Text → ActivityOptions
activity_options r name = record {
  activity_id = key r name;
  schedule_to_start_timeout = r.activity_timeout_seconds;
  start_to_close_timeout =
      if text_eq name (codes "verify")
      then max r.activity_timeout_seconds verification_activity_timeout_seconds
      else r.activity_timeout_seconds;
  maximum_attempts = max_activity_attempts;
}

abbrev pub schedule : Activity → ActivityOptions → Workflow → Workflow
schedule a o w = record w { calls = w.calls ++ (a, o) ∷ [] }

abbrev pub or_empty : Option Text → Text
or_empty none = []
or_empty (some t) = t

-- The request that `_publish` builds.
abbrev pub publish_request : ReviewWorkflowInput → ApprovalSignal → PublishRequest
publish_request request approval = record {
  owner_id = request.owner_id;
  run_id = request.run_id;
  repository_id = request.repository_id;
  pull_request_number = request.pull_request_number;
  head_sha = request.head_sha;
  finding_ids = approval.finding_ids;
  approval_ids = approval.approval_ids;
  comment_body_ref = or_empty approval.comment_body_ref;
  idempotency_key = key request (codes "publish");
}

-- `_finish_approval_wait` and `_run_duration_ms` go by `elapsed_ms`, which stands for
-- `max(0, int((later - earlier).total_seconds() * 1_000))` in Python's floats.
module _ (env : ℕ → Turn) (elapsed_ms : ℕ → ℕ → ℕ) where
  -- `await workflow.execute_activity(...)`: it waits for the end of the activity, whatever signals
  -- come in.
  unfoldable pub execute_activity : Activity → ActivityOptions → Coroutine (Unit {0})
  execute_activity a o w =
      let t = env w.awaits in
      let w' = resume t (deliver_all t.batches (schedule a o w)) in
      (if t.fails then activity_error else done tt, w')

  -- The part of `_wait_for_activity_or_interrupt` after an interrupt: 100 ms of grace, the
  -- cancellation, and a wait for the end of the activity, whose result is dropped.
  unfoldable pub drain : Bool → Workflow → Workflow
  drain true w = w
  drain false w =
      let grace = env w.awaits in
      let w1 = resume grace (deliver_all grace.batches w) in
      let last = env w1.awaits in
      if grace.settled then w1 else resume last (deliver_all last.batches w1)

  -- `_wait_for_activity_or_interrupt`: `none` is `(False, None)`.
  unfoldable pub wait_for_activity_or_interrupt : Coroutine (Option StageResult)
  unfolding drain
  wait_for_activity_or_interrupt w =
      let t = env w.awaits in
      let (hit, w1) = wait_condition interrupted t.batches w in
      let w' = resume t w1 in
      if hit
      then (done none, drain t.settled w')
      else (if t.fails then activity_error else done (some t.result), w')

  -- `_stage`
  unfoldable pub stage : Text → Text → Option Text → Coroutine (Option StageResult)
  stage activity_name state input_ref = do
    request ← required_input
    modify (λ w. record w { state = state })
    modify (
        schedule
          (Activity.stage activity_name (record {
            owner_id = request.owner_id;
            run_id = request.run_id;
            head_sha = request.head_sha;
            idempotency_key = key request activity_name;
            input_ref = input_ref;
            base_sha = some request.base_sha;
          }))
          (activity_options request activity_name))
    wait_for_activity_or_interrupt

  -- `_publish`
  unfoldable pub publish : ApprovalSignal → Coroutine (Unit {0})
  publish approval = do
    request ← required_input
    execute_activity (Activity.publish (publish_request request approval))
        (activity_options request (codes "publish"))

  -- `_update_check`
  unfoldable pub update_check : CheckRunStatus → Option CheckRunConclusion → Coroutine (Unit {0})
  update_check status conclusion = do
    request ← required_input
    execute_activity
        (Activity.update_check (record {
          owner_id = request.owner_id;
          run_id = request.run_id;
          generation = request.generation;
          repository_id = request.repository_id;
          pull_request_number = request.pull_request_number;
          head_sha = request.head_sha;
          status = status;
          conclusion = conclusion;
        }))
        (activity_options request (codes "check:" ++ status_value status))

  abbrev pub duration_since : Option ℕ → ℕ → Option ℕ
  duration_since none now = none
  duration_since (some t) now = some (elapsed_ms t now)

  -- `_finish_approval_wait`
  unfoldable pub finish_approval_wait : Workflow → Workflow
  finish_approval_wait w =
      if is_some w.approval_wait_started_at
      then record w {
        approval_wait_ms = duration_since w.approval_wait_started_at w.clock;
        approval_wait_started_at = none;
      }
      else w

  -- The request of `_record_terminal`.
  abbrev pub terminal_request :
      ReviewWorkflowInput → WorkflowOutcome → Option Text → Workflow → TerminalRequest
  terminal_request request outcome reason w = record {
    owner_id = request.owner_id;
    run_id = request.run_id;
    head_sha = request.head_sha;
    outcome = outcome;
    reason = reason;
    idempotency_key = key request (codes "terminal:" ++ outcome_value outcome);
    run_duration_ms = duration_since w.started_at w.clock;
    approval_wait_ms = w.approval_wait_ms;
    usage = w.usage;
  }

  unfoldable pub finalize_metrics : Coroutine (Unit {0})
  finalize_metrics = do
    request ← required_input
    execute_activity
        (Activity.stage (codes "finalize_metrics") (record {
          owner_id = request.owner_id;
          run_id = request.run_id;
          head_sha = request.head_sha;
          idempotency_key = key request (codes "finalize_metrics");
          input_ref = none;
          base_sha = none;
        }))
        (activity_options request (codes "finalize_metrics"))

  unfoldable pub complete_check : WorkflowOutcome → Bool → Coroutine (Unit {0})
  complete_check outcome false = pure tt
  complete_check outcome true =
      try_except (update_check completed (some (check_conclusion outcome))) (pure tt)

  -- `_record_terminal`
  unfoldable pub record_terminal : WorkflowOutcome → Option Text → Coroutine (Unit {0})
  record_terminal outcome reason = do
    request ← required_input
    w ← gets (λ w. w)
    execute_activity (Activity.record_terminal (terminal_request request outcome reason w))
        (activity_options request (codes "record_terminal"))
    enabled ← gets (λ w. w.checks_enabled)
    complete_check outcome enabled
    try_except finalize_metrics (pure tt)

  -- `_finish`
  unfoldable pub continue_or_return :
      ReviewWorkflowResult → Option SupersedeSignal → Coroutine ReviewWorkflowResult
  continue_or_return result none = pure result
  continue_or_return result (some s) = continue_with s.next_run

  unfoldable pub finish : WorkflowOutcome → Option Text → Coroutine ReviewWorkflowResult
  unfolding continue_or_return
  finish outcome reason = do
    record_terminal outcome reason
    modify (λ w. record w { state = outcome_value outcome })
    request ← required_input
    supersession ← gets (λ w. w.supersession)
    continue_or_return
        (record {
          run_id = request.run_id;
          head_sha = request.head_sha;
          outcome = outcome;
          reason = reason;
        })
        supersession

  -- `_honor_interrupt`; the signal is read again after the await.
  unfoldable pub honor :
      Option SupersedeSignal → Option Text → Coroutine (Option ReviewWorkflowResult)
  honor (some s) reason = do
    record_terminal cancelled (some (codes "superseded by " ++ s.next_run.run_id))
    latest ← gets (λ w. w.supersession)
    s' ← or_runtime latest
    continue_with s'.next_run
  honor none (some reason) = do result ← finish cancelled (some reason); pure (some result)
  honor none none = pure none

  unfoldable pub honor_interrupt : Coroutine (Option ReviewWorkflowResult)
  honor_interrupt w = honor w.supersession w.cancel_reason w
