-- ===== src/Workflow/Types.antt =====
-- The values of workflows/types.py. A `str` is a `Text`, a missing value is `none`.
use pr_reliability_platform.Prelude.{ℕ, Bool, Option, List, Text, codes}

pub data WorkflowOutcome : Type 0 where
  published rejected cancelled timed_out failed : WorkflowOutcome

-- `outcome.value`
abbrev pub outcome_value : WorkflowOutcome → Text
outcome_value published = codes "published"
outcome_value rejected = codes "rejected"
outcome_value cancelled = codes "cancelled"
outcome_value timed_out = codes "timed_out"
outcome_value failed = codes "failed"

pub data CheckRunStatus : Type 0 where
  queued in_progress completed : CheckRunStatus

-- `status.value`
abbrev pub status_value : CheckRunStatus → Text
status_value queued = codes "queued"
status_value in_progress = codes "in_progress"
status_value completed = codes "completed"

pub data CheckRunConclusion : Type 0 where
  success failure action_required conclusion_cancelled conclusion_timed_out : CheckRunConclusion

pub record ReviewWorkflowInput : Type 0 where
  pub owner_id : Text
  pub run_id : Text
  pub generation : ℕ
  pub repository_id : Text
  pub pull_request_id : Text
  pub pull_request_number : ℕ
  pub base_sha : Text
  pub head_sha : Text
  pub token_budget : ℕ
  pub cost_budget_usd_micros : ℕ
  pub traceparent : Option Text
  pub approval_timeout_seconds : ℕ
  pub activity_timeout_seconds : ℕ

pub record ApprovalSignal : Type 0 where
  pub run_id : Text
  pub head_sha : Text
  pub approved : Bool
  pub finding_ids : List Text
  pub approval_ids : List Text
  pub comment_body_ref : Option Text

pub record SupersedeSignal : Type 0 where
  pub next_run : ReviewWorkflowInput

pub record ReviewWorkflowStatus : Type 0 where
  pub run_id : Text
  pub generation : ℕ
  pub head_sha : Text
  pub state : Text
  pub cancellation_reason : Option Text

pub record ReviewWorkflowResult : Type 0 where
  pub run_id : Text
  pub head_sha : Text
  pub outcome : WorkflowOutcome
  pub reason : Option Text

pub record StageRequest : Type 0 where
  pub owner_id : Text
  pub run_id : Text
  pub head_sha : Text
  pub idempotency_key : Text
  pub input_ref : Option Text
  pub base_sha : Option Text

-- `__post_init__` refuses values below 0.
pub record ModelUsage : Type 0 where
  pub input_tokens : Option ℕ
  pub output_tokens : Option ℕ
  pub cost_usd_micros : Option ℕ
  pub total_tokens : Option ℕ

pub record StageResult : Type 0 where
  pub output_ref : Text
  pub usage : Option ModelUsage

pub record PublishRequest : Type 0 where
  pub owner_id : Text
  pub run_id : Text
  pub repository_id : Text
  pub pull_request_number : ℕ
  pub head_sha : Text
  pub finding_ids : List Text
  pub approval_ids : List Text
  pub comment_body_ref : Text
  pub idempotency_key : Text

pub record TerminalRequest : Type 0 where
  pub owner_id : Text
  pub run_id : Text
  pub head_sha : Text
  pub outcome : WorkflowOutcome
  pub reason : Option Text
  pub idempotency_key : Text
  pub run_duration_ms : Option ℕ
  pub approval_wait_ms : Option ℕ
  pub usage : Option ModelUsage

pub record CheckRunRequest : Type 0 where
  pub owner_id : Text
  pub run_id : Text
  pub generation : ℕ
  pub repository_id : Text
  pub pull_request_number : ℕ
  pub head_sha : Text
  pub status : CheckRunStatus
  pub conclusion : Option CheckRunConclusion
