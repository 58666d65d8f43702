-- ===== src/Starts/Dispatch.antt =====
-- workers/src/pr_reliability_workers/dispatch.py, `dispatch_next_command` and `dispatch_start_run`.
use pr_reliability_platform.Prelude.{
  ℕ, Bool, true, false, Option, none, some, List, [], ◌∷◌, ◌++◌, Text, codes, text_eq, ◌==◌, ◌&&◌,
  ◌||◌, not, ltb, any, find, if◌then◌else◌, ◌>>=◌, update_where,
}
use pr_reliability_platform.Approvals.Tables.{
  RunState, queued, published, rejected, failed, cancelled, state_eq,
}
use pr_reliability_platform.Approvals.Dispatch.{workflow_id, dispatched_key}
use pr_reliability_platform.Workflow.Types.{ReviewWorkflowInput, SupersedeSignal}
use pr_reliability_platform.Repositories.Tables.{Repository}
use pr_reliability_platform.Repositories.Store.{
  RepositoryPolicy, admitted_policy, lock_installation,
}
use pr_reliability_platform.Starts.Tables.{
  Run, PullRequest, StartRunCommand, EventData, command_created, command_dispatched, RunEvent,
  Database, is_run, is_pull_request, has_key,
}

-- What happened: nothing was pending, the command was handled, the command is not of the tables,
-- or the workflow was not started in time. In the last two cases the transaction is rolled back.
pub data Outcome : Type 0 where
  nothing_pending handled identity_mismatch not_started : Outcome

-- A start of a workflow, or the signal to the one that runs: its id, its input, and the signal.
pub record Start : Type 0 where
  pub id : Text
  pub request : ReviewWorkflowInput
  pub signal : SupersedeSignal

pub record Dispatched : Type 0 where
  pub outcome : Outcome
  pub starts : List Start
  pub database : Database

-- The row that the query finds.
pub record Pending : Type 0 where
  pub event : RunEvent
  pub command : StartRunCommand
  pub run : Run
  pub pull_request : PullRequest
  pub repository : Repository

abbrev pub command_of : EventData → Option StartRunCommand
command_of (command_created command) = some command
command_of (command_dispatched _ _ _ _) = none

abbrev pub is_received : Database → RunEvent → Bool
is_received d e = any (has_key e.run_id (dispatched_key e.event_key)) d.events

abbrev pub is_named : Text → Text → Repository → Bool
is_named owner_id public_id r = text_eq r.owner_id owner_id && text_eq r.public_id public_id

-- The pull request of a command that has no receipt.
abbrev pub waits_for : Database → RunEvent → Option ℕ
waits_for d e = do
  command ← command_of e.event_data
  run ← find (is_run e.owner_id e.run_id) d.runs
  if is_received d e then none else some run.pull_request_id

-- `earlier` are the pull requests for which an earlier command has no receipt.
unfoldable pub pending_of : Database → List ℕ → RunEvent → Option Pending
pending_of d earlier e = do
  command ← command_of e.event_data
  run ← find (is_run e.owner_id e.run_id) d.runs
  pull_request ← find (is_pull_request run.owner_id run.pull_request_id) d.pull_requests
  repository ←
      find (is_named pull_request.owner_id pull_request.repository_id) d.policy.repositories
  if is_received d e || any (λ n. n == run.pull_request_id) earlier
      then none
      else some (record {
        event = e;
        command = command;
        run = run;
        pull_request = pull_request;
        repository = repository;
      })

abbrev pub or_else : Option Pending → Option Pending → Option Pending
or_else none rest = rest
or_else (some p) rest = some p

abbrev pub and_also : Option ℕ → List ℕ → List ℕ
and_also none ns = ns
and_also (some n) ns = n ∷ ns

-- The first pending command whose rows are not `locked` by another transaction.
unfoldable pub next_pending : (RunEvent → Bool) → Database → List ℕ → List RunEvent → Option Pending
next_pending locked d earlier [] = none
next_pending locked d earlier (e ∷ es) =
    let rest = next_pending locked d (and_also (waits_for d e) earlier) es in
    if locked e then rest else or_else (pending_of d earlier e) rest

-- `command_identity == persisted_identity`
abbrev pub same_identity : Pending → Bool
same_identity p =
    text_eq p.command.public_id p.event.event_key
    && (text_eq p.command.owner_id p.event.owner_id
        && (text_eq p.command.run_id p.run.public_id
            && (p.command.generation == p.run.generation
                && (text_eq p.command.repository_id p.repository.public_id
                    && (text_eq p.command.pull_request_id p.pull_request.public_id
                        && (p.command.pull_request_number == p.pull_request.github_number
                            && (text_eq p.command.base_sha p.run.base_sha
                                && (text_eq p.command.head_sha p.run.head_sha
                                    && (p.command.token_budget == p.run.token_budget
                                        && p.command.cost_budget_usd_micros
                                          == p.run.cost_budget_usd_micros)))))))))

-- `run_state in _TERMINAL_RUN_STATES`
abbrev pub is_terminal : RunState → Bool
is_terminal published = true
is_terminal rejected = true
is_terminal failed = true
is_terminal cancelled = true
is_terminal _ = false

abbrev pub state_value : RunState → Text
state_value published = codes "published"
state_value rejected = codes "rejected"
state_value failed = codes "failed"
state_value _ = codes "cancelled"

-- `_insert_receipt`
unfoldable pub insert_receipt : Pending → Text → Option Text → Option Text → Database → Database
insert_receipt p status workflow reason d =
    if any (has_key p.run.id (dispatched_key p.command.public_id)) d.events then d else record d {
      events =
          d.events
          ++ record {
            owner_id = p.command.owner_id;
            run_id = p.run.id;
            event_key = dispatched_key p.command.public_id;
            event_data = command_dispatched p.command.public_id status workflow reason;
          }
            ∷ [];
    }

-- `dispatch_start_run`: the defaults of the two timeouts are those of the class.
abbrev pub review_input : StartRunCommand → ReviewWorkflowInput
review_input c = record {
  owner_id = c.owner_id;
  run_id = c.run_id;
  generation = c.generation;
  repository_id = c.repository_id;
  pull_request_id = c.pull_request_id;
  pull_request_number = c.pull_request_number;
  base_sha = c.base_sha;
  head_sha = c.head_sha;
  token_budget = c.token_budget;
  cost_budget_usd_micros = c.cost_budget_usd_micros;
  traceparent = c.traceparent;
  approval_timeout_seconds = 86_400;
  activity_timeout_seconds = 300;
}

abbrev pub dispatch_start_run : StartRunCommand → Start
dispatch_start_run c = record {
  id = workflow_id c.owner_id c.pull_request_id;
  request = review_input c;
  signal = record { next_run = review_input c };
}

-- The policy that admits the run's repository, and the tables with the installation's row.
abbrev pub lock_policy : Text → Option ℕ → Database → Database
lock_policy owner_id none d = d
lock_policy owner_id (some installation_id) d = record d {
  policy = lock_installation owner_id installation_id d.policy;
}

abbrev pub policy_for : Pending → Option ℕ → Database → Option RepositoryPolicy
policy_for p none d = none
policy_for p (some installation_id) d =
    admitted_policy d.policy p.event.owner_id installation_id p.repository.github_repository_id
      p.run.base_branch

abbrev pub is_blocked : Run → Option RepositoryPolicy → Bool
is_blocked run none = true
is_blocked run (some policy) =
    ltb policy.token_budget run.token_budget
    || ltb policy.cost_budget_usd_micros run.cost_budget_usd_micros

abbrev pub cancel_run : Pending → Database → Database
cancel_run p d = record d {
  runs =
      update_where (λ r. is_run p.event.owner_id p.run.id r && state_eq r.state queued)
        (λ r. record r { state = cancelled }) d.runs;
}

module _ (starts_in_time : Start → Bool) (locked : RunEvent → Bool) where
  unfoldable pub start_pending : Pending → Database → Database → Dispatched
  start_pending p before d =
      let start = dispatch_start_run p.command in
      if starts_in_time start
      then record {
        outcome = handled;
        starts = start ∷ [];
        database = insert_receipt p (codes "accepted") (some start.id) none d;
      }
      else record { outcome = not_started; starts = start ∷ []; database = before }

  unfoldable pub dispatch_pending : Pending → Database → Dispatched
  dispatch_pending p d =
      let d1 = lock_policy p.event.owner_id p.repository.installation_id d in
      let started = start_pending p d d1 in
      if not (same_identity p)
      then record { outcome = identity_mismatch; starts = []; database = d }
      else if is_terminal p.run.state
      then record {
        outcome = handled;
        starts = [];
        database =
            insert_receipt p (codes "skipped") none
              (some (codes "run already " ++ state_value p.run.state)) d;
      }
      else if is_blocked p.run (policy_for p p.repository.installation_id d1)
      then record {
        outcome = handled;
        starts = [];
        database =
            insert_receipt p (codes "skipped") none (some (codes "repository policy blocks review"))
              (cancel_run p d1);
      }
      else started

  abbrev pub dispatch_found : Option Pending → Database → Dispatched
  dispatch_found none d = record { outcome = nothing_pending; starts = []; database = d }
  dispatch_found (some p) d = dispatch_pending p d

  unfoldable pub dispatch_next_command : Database → Dispatched
  dispatch_next_command d = dispatch_found (next_pending locked d [] d.events) d
