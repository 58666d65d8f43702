-- ===== src/Webhooks/Runs.antt =====
-- webhooks/github.py and webhooks/checks.py: the rows of a new run and of its command, which
-- `_create_run` and `_create_rerun` insert.
use pr_reliability_platform.Prelude.{
  ℕ, suc, ◌+◌, Bool, Option, none, some, [], ◌∷◌, ◌++◌, Text, text_eq, any, not, ◌==◌, ◌&&◌,
  if◌then◌else◌,
}
use pr_reliability_platform.Approvals.Tables.{queued}
use pr_reliability_platform.Repositories.Store.{RepositoryPolicy}
use pr_reliability_platform.Starts.Tables.{Run, RunEvent, StartRunCommand, command_created}
use pr_reliability_platform.Webhooks.Tables.{Database, latest_generation, draw}

-- What a new run is for.
pub record NewRun : Type 0 where
  pub owner_id : Text
  pub pull_request_id : ℕ
  pub pull_request_public_id : Text
  pub pull_request_number : ℕ
  pub repository_public_id : Text
  pub base_branch : Option Text
  pub base_sha : Text
  pub head_sha : Text
  pub traceparent : Option Text

abbrev pub next_generation : NewRun → Database → ℕ
next_generation n d = latest_generation n.pull_request_id d.runs + 1

module _ (id_factory : ℕ → Text) (policy : RepositoryPolicy) (n : NewRun) where
  abbrev pub run_row : Database → Run
  run_row d = record {
    id = d.next_run_id;
    owner_id = n.owner_id;
    public_id = id_factory d.policy.drawn;
    pull_request_id = n.pull_request_id;
    generation = next_generation n d;
    base_branch = n.base_branch;
    base_sha = n.base_sha;
    head_sha = n.head_sha;
    token_budget = policy.token_budget;
    cost_budget_usd_micros = policy.cost_budget_usd_micros;
    state = queued;
  }

  abbrev pub command_row : Database → StartRunCommand
  command_row d = record {
    public_id = id_factory (d.policy.drawn + 1);
    owner_id = n.owner_id;
    run_id = id_factory d.policy.drawn;
    head_sha = n.head_sha;
    generation = next_generation n d;
    repository_id = n.repository_public_id;
    pull_request_id = n.pull_request_public_id;
    pull_request_number = n.pull_request_number;
    base_sha = n.base_sha;
    token_budget = policy.token_budget;
    cost_budget_usd_micros = policy.cost_budget_usd_micros;
    traceparent = n.traceparent;
  }

  abbrev pub command_event : Database → RunEvent
  command_event d = record {
    owner_id = n.owner_id;
    run_id = d.next_run_id;
    event_key = id_factory (d.policy.drawn + 1);
    event_data = command_created (command_row d);
  }

  -- The run and its command; ULIDs are drawn for the run, the command and the event.
  unfoldable pub insert_run : Database → Database
  insert_run d = record (draw 3 d) {
    runs = d.runs ++ run_row d ∷ [];
    events = d.events ++ command_event d ∷ [];
    next_run_id = suc d.next_run_id;
  }

  abbrev pub is_reviewed : Run → Bool
  is_reviewed r = r.pull_request_id == n.pull_request_id && text_eq r.head_sha n.head_sha

  abbrev pub is_same_generation : Database → Run → Bool
  is_same_generation d r = is_reviewed r && r.generation == next_generation n d

  -- `_create_run`: the id of the command, unless the commit has a run or the insert conflicts.
  unfoldable pub create_run : Bool → Database → Option Text × Database
  create_run force_new d =
      if not force_new && any is_reviewed d.runs
      then (none, draw 1 d)
      else if any (is_same_generation d) d.runs
      then (none, draw 1 d)
      else (some (id_factory (d.policy.drawn + 1)), insert_run d)
