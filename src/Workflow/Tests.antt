-- ===== src/Workflow/Tests.antt =====
-- Executions of the workflow on concrete input.
use pr_reliability_platform.Prelude.{
  ℕ, ◌≡◌, refl, true, false, Option, none, some, List, [], ◌∷◌, codes, text_eq, ◌==◌, if◌then◌else◌,
  OnSome, ◌≢◌, ◌<◌, All, ◌-◌, Text, ◌≤◌,
}
use pr_reliability_platform.Workflow.Types.{
  ReviewWorkflowInput, ReviewWorkflowResult, ApprovalSignal, WorkflowOutcome, published,
}
use pr_reliability_platform.Workflow.Machine.{
  Turn, Signal, approve, cancel, supersede, init, deliver, deliver_all, handle, on_approve,
  on_cancel, on_supersede, wait_condition, pending_generation,
}
use pr_reliability_platform.Workflow.Coroutine.{
  done, runtime_error, continue_as_new, required_input,
}
use pr_reliability_platform.Workflow.Activities.{
  key, activity_options, execute_activity, drain, wait_for_activity_or_interrupt, stage, publish,
  finish_approval_wait, finalize_metrics, complete_check, record_terminal, finish, honor,
  honor_interrupt,
}
use pr_reliability_platform.Workflow.Run.{
  begin_run, queue_check, verify, analyze, review, wait_for_signal, report_publish,
  publish_approved, decide, or_else, woken, await_approval, execution,
}
use pr_reliability_platform.Workflow.Invariant.{Justified, Returned, Recorded}
use pr_reliability_platform.Workflow.Safety.{
  Sent, publish_needs_approval, result_recorded, continue_is_newer, execution-ne-runtime_error,
}
use pr_reliability_platform.Workflow.Signals.{
  newest, deliver_keeps_newest, deliver_cancel_reason, key-injective, verify_timeout,
}

abbrev request : ReviewWorkflowInput
request = record {
  owner_id = codes "O";
  run_id = codes "R1";
  generation = 1;
  repository_id = codes "P";
  pull_request_id = codes "Q";
  pull_request_number = 7;
  base_sha = codes "b";
  head_sha = codes "h";
  token_budget = 1000;
  cost_budget_usd_micros = 0;
  traceparent = none;
  approval_timeout_seconds = 86400;
  activity_timeout_seconds = 300;
}

abbrev next_request : ReviewWorkflowInput
next_request = record request { run_id = codes "R2"; generation = 2; head_sha = codes "i" }

abbrev approval : ApprovalSignal
approval = record {
  run_id = codes "R1";
  head_sha = codes "h";
  approved = true;
  finding_ids = codes "F" ∷ [];
  approval_ids = codes "A" ∷ [];
  comment_body_ref = some (codes "body");
}

abbrev quiet : ℕ → Turn
quiet n = record {
  batches = [];
  settled = false;
  fails = false;
  result = record { output_ref = codes "out"; usage = none };
  now = n;
}

-- The n-th await is met by this batch, and no other by any signal.
abbrev signals_at : ℕ → List Signal → ℕ → Turn
signals_at k ss n = if n == k then record (quiet n) { batches = ss ∷ [] } else quiet n

abbrev elapsed : ℕ → ℕ → ℕ
elapsed a b = b - a

-- The approval comes in at the fourth await, after the three stages.
abbrev approving : ℕ → Turn
approving = signals_at 3 (approve approval ∷ [])

-- A newer commit comes in while the analysis runs.
abbrev superseding : ℕ → Turn
superseding = signals_at 1 (supersede (record { next_run = next_request }) ∷ [])

abbrev result_of : WorkflowOutcome → Option Text → ReviewWorkflowResult
result_of o reason = record {
  run_id = codes "R1";
  head_sha = codes "h";
  outcome = o;
  reason = reason;
}

approved_is_published :
    execution approving elapsed 0 [] false request
    ≡ (done (result_of published none), (execution approving elapsed 0 [] false request).1)
unfolding execution begin_run review queue_check stage required_input key activity_options text_eq
    wait_for_activity_or_interrupt wait_condition deliver handle on_approve on_cancel on_supersede
    drain honor_interrupt honor init analyze verify await_approval wait_for_signal
    finish_approval_wait woken or_else decide publish_approved publish execute_activity deliver_all
    report_publish finish record_terminal complete_check finalize_metrics
approved_is_published = refl

superseded_is_continued :
    execution superseding elapsed 0 [] false request
    ≡ (continue_as_new next_request, (execution superseding elapsed 0 [] false request).1)
unfolding execution begin_run review queue_check stage required_input key activity_options text_eq
    wait_for_activity_or_interrupt wait_condition deliver handle on_approve on_cancel on_supersede
    drain honor_interrupt honor init analyze verify await_approval wait_for_signal
    finish_approval_wait woken or_else decide publish_approved publish execute_activity deliver_all
    report_publish finish record_terminal complete_check finalize_metrics
superseded_is_continued = refl

publish_needs_approval_example :
    All
      (Justified request (Sent approving []))
      (execution approving elapsed 0 [] false request).1.calls
publish_needs_approval_example = publish_needs_approval approving elapsed 0 [] false request

result_recorded_example :
    Returned request (result_of published none) (execution approving elapsed 0 [] false request).1
result_recorded_example =
    result_recorded approving elapsed 0 [] false request (result_of published none)
      (execution approving elapsed 0 [] false request).1 approved_is_published

continue_is_newer_example :
    (1 < next_request.generation)
    × ((o : WorkflowOutcome) × Recorded request o
          (execution superseding elapsed 0 [] false request).1)
continue_is_newer_example =
    continue_is_newer superseding elapsed 0 [] false request next_request
      (execution superseding elapsed 0 [] false request).1 superseded_is_continued

execution-ne-runtime_error_example :
    execution superseding elapsed 0 [] true request
    ≢ (runtime_error, (execution superseding elapsed 0 [] true request).1)
execution-ne-runtime_error_example =
    execution-ne-runtime_error superseding elapsed 0 [] true request
      (execution superseding elapsed 0 [] true request).1

deliver_keeps_newest_example :
    pending_generation
      (deliver (supersede (record { next_run = next_request }) ∷ []) (init 0)).supersession
    ≡ newest 0 0 2
unfolding init
deliver_keeps_newest_example =
    deliver_keeps_newest (supersede (record { next_run = next_request }) ∷ []) (init 0)

deliver_cancel_reason_example :
    OnSome (λ t. t ≢ []) (deliver (cancel (codes "  ") ∷ []) (init 0)).cancel_reason
unfolding init
deliver_cancel_reason_example = deliver_cancel_reason (cancel (codes "  ") ∷ []) (init 0) tt

key-injective_example :
    (request.run_id ≡ request.run_id)
    × (request.head_sha ≡ request.head_sha)
    × (codes "publish" ≡ codes "publish")
key-injective_example =
    key-injective request request (codes "publish") (codes "publish") refl refl refl

verify_timeout_example :
    ((activity_options request (codes "analyze")).activity_id ≡ key request (codes "analyze"))
    × (300 ≤ (activity_options request (codes "analyze")).start_to_close_timeout)
    × (7200 ≤ (activity_options request (codes "verify")).start_to_close_timeout)
verify_timeout_example = verify_timeout request (codes "analyze")
