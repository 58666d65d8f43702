-- ===== src/Starts/Tables.antt =====
-- The rows that dispatch_next_command of workers/src/pr_reliability_workers/dispatch.py reads. A pull
-- request names its repository by the public id, which is unique as the internal id is.
use pr_reliability_platform.Prelude.{ℕ, Bool, Option, List, Text, text_eq, ◌==◌, ◌&&◌}
use pr_reliability_platform.Approvals.Tables.{RunState}

pub record Run : Type 0 where
  pub id : ℕ
  pub owner_id : Text
  pub public_id : Text
  pub pull_request_id : ℕ
  pub generation : ℕ
  pub base_branch : Option Text
  pub base_sha : Text
  pub head_sha : Text
  pub token_budget : ℕ
  pub cost_budget_usd_micros : ℕ
  pub state : RunState

pub record PullRequest : Type 0 where
  pub id : ℕ
  pub owner_id : Text
  pub public_id : Text
  pub github_number : ℕ
  pub repository_id : Text

-- `StartRunCommand`
pub record StartRunCommand : Type 0 where
  pub public_id : Text
  pub owner_id : Text
  pub run_id : Text
  pub head_sha : Text
  pub generation : ℕ
  pub repository_id : Text
  pub pull_request_id : Text
  pub pull_request_number : ℕ
  pub base_sha : Text
  pub token_budget : ℕ
  pub cost_budget_usd_micros : ℕ
  pub traceparent : Option Text

-- `event_type` with `event_data`.
pub data EventData : Type 0 where
  command_created : StartRunCommand → EventData
  command_dispatched : (command_id status : Text) (workflow_id reason : Option Text) → EventData

pub record RunEvent : Type 0 where
  pub owner_id : Text
  pub run_id : ℕ
  pub event_key : Text
  pub event_data : EventData

pub record Database : Type 0 where
  pub runs : List Run
  pub pull_requests : List PullRequest
  pub events : List RunEvent
  pub policy : pr_reliability_platform.Repositories.Tables.Database

abbrev pub is_run : Text → ℕ → Run → Bool
is_run owner_id id r = text_eq r.owner_id owner_id && r.id == id

abbrev pub is_pull_request : Text → ℕ → PullRequest → Bool
is_pull_request owner_id id p = text_eq p.owner_id owner_id && p.id == id

abbrev pub has_key : ℕ → Text → RunEvent → Bool
has_key run_id event_key e = e.run_id == run_id && text_eq e.event_key event_key
