-- ===== src/Webhooks/Tables.antt =====
-- The tables that webhooks/github.py and webhooks/checks.py of the API read and write. The runs and
-- their events are those of the dispatcher. A pull request names its repository by the public id,
-- which is unique as the internal id is. The ids of new rows count up. Times are microseconds.
use pr_reliability_platform.Prelude.{
  ℕ, Bool, true, false, Option, List, [], ◌∷◌, Text, max, ◌+◌, ◌==◌, if◌then◌else◌,
}
use pr_reliability_platform.Starts.Tables.{Run, RunEvent}

-- `PullRequestAction`
pub data PullRequestAction : Type 0 where
  opened reopened synchronize closed : PullRequestAction

pub data PullRequestState : Type 0 where
  open_state closed_state : PullRequestState

pub record PullRequest : Type 0 where
  pub id : ℕ
  pub owner_id : Text
  pub public_id : Text
  pub repository_id : Text
  pub github_number : ℕ
  pub base_sha : Text
  pub head_sha : Text
  pub state : PullRequestState
  pub github_updated_at : Option ℕ
  pub github_delivery_received_at : Option ℕ
  pub github_delivery_id : Option Text

-- `github_webhook_deliveries`
pub record WebhookDelivery : Type 0 where
  pub owner_id : Text
  pub delivery_id : Text
  pub action : PullRequestAction
  pub repository_github_id : ℕ
  pub pull_request_number : ℕ
  pub head_sha : Text
  pub before_sha : Option Text
  pub after_sha : Option Text
  pub pull_request_updated_at : ℕ
  pub received_at : ℕ
  pub command_public_id : Option Text

-- `github_check_rerun_deliveries`
pub record RerunDelivery : Type 0 where
  pub owner_id : Text
  pub delivery_id : Text
  pub repository_github_id : ℕ
  pub check_run_remote_id : ℕ
  pub action : Text
  pub head_sha : Text
  pub received_at : ℕ
  pub command_public_id : Option Text

-- `github_check_runs`
pub record CheckRun : Type 0 where
  pub owner_id : Text
  pub pull_request_id : ℕ
  pub current_run_id : ℕ
  pub head_sha : Text
  pub external_id : Text
  pub remote_id : Option ℕ
  pub is_completed : Bool

pub record Database : Type 0 where
  pub policy : pr_reliability_platform.Repositories.Tables.Database
  pub pull_requests : List PullRequest
  pub runs : List Run
  pub events : List RunEvent
  pub deliveries : List WebhookDelivery
  pub rerun_deliveries : List RerunDelivery
  pub check_runs : List CheckRun
  pub next_pull_request_id : ℕ
  pub next_run_id : ℕ

-- `id_factory()` so many times; one counter serves all the tables.
abbrev pub draw : ℕ → Database → Database
draw n d = record d { policy = record d.policy { drawn = d.policy.drawn + n } }

abbrev pub is_open : PullRequestState → Bool
is_open open_state = true
is_open closed_state = false

abbrev pub is_synchronize : PullRequestAction → Bool
is_synchronize synchronize = true
is_synchronize _ = false

abbrev pub is_closed : PullRequestAction → Bool
is_closed closed = true
is_closed _ = false

abbrev pub is_reopened : PullRequestAction → Bool
is_reopened reopened = true
is_reopened _ = false

-- `COALESCE(MAX(generation), 0)` of the runs of a pull request.
unfoldable pub latest_generation : ℕ → List Run → ℕ
latest_generation pull_request_id [] = 0
latest_generation pull_request_id (r ∷ runs) =
    if r.pull_request_id == pull_request_id
    then max r.generation (latest_generation pull_request_id runs)
    else latest_generation pull_request_id runs
