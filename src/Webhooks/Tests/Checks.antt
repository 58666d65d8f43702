-- ===== src/Webhooks/Tests/Checks.antt =====
-- A check that is requested again, and a delivery that is late, on tables with a run.
use pr_reliability_platform.Prelude.{
  true, false, none, some, [], ◌∷◌, Text, codes, ◌≡◌, refl, arith, text_eq, contains, map, any,
}
use pr_reliability_platform.Repositories.Tables.{access_active, Repository}
use pr_reliability_platform.Repositories.Store.{
  lock_installation, admitted_row, admitted_policy, RepositoryPolicy,
}
use pr_reliability_platform.Starts.Tables.{Run}
use pr_reliability_platform.Approvals.Tables.{published}
use pr_reliability_platform.Webhooks.Receive.{is_delivery}
use pr_reliability_platform.Webhooks.Tables.{open_state, Database, latest_generation}
use pr_reliability_platform.Webhooks.Runs.{NewRun, command_event, insert_run}
use pr_reliability_platform.Webhooks.Receive.{Response, accepted}
use pr_reliability_platform.Webhooks.Checks.{
  CheckRunPayload, receive_check_rerun, rerun_check, locked_rerun_target, external_id_groups,
}
use pr_reliability_platform.Webhooks.Staleness.{IsIgnored, receive-stale}
use pr_reliability_platform.Webhooks.Reruns.{IsRerun, receive-IsRerun}
use pr_reliability_platform.Starts.Dispatch.{pending_of, same_identity, is_terminal}
use pr_reliability_platform.Webhooks.Handover.{seen, added, pending_row, insert_run-pending_of}
use pr_reliability_platform.Webhooks.Tests.{ids, owner, settings, tables, old_push, receive}

abbrev sha : Text
sha = codes "0123456789abcdef0123456789abcdef01234567"

abbrev external_id : Text
external_id =
    codes "pr-reliability:01ARZ3NDEKTSV4RRFFQ69G5FAV:0123456789abcdef0123456789abcdef01234567"

abbrev checked : Database
checked = record tables {
  pull_requests =
      record {
        id = 1;
        owner_id = owner;
        public_id = codes "01ARZ3NDEKTSV4RRFFQ69G5FAV";
        repository_id = codes "r1";
        github_number = 4;
        base_sha = codes "b0";
        head_sha = sha;
        state = open_state;
        github_updated_at = some 10;
        github_delivery_received_at = some 11;
        github_delivery_id = some (codes "d1");
      }
      ∷ [];
  runs =
      record {
        id = 1;
        owner_id = owner;
        public_id = codes "run1";
        pull_request_id = 1;
        generation = 1;
        base_branch = some (codes "main");
        base_sha = codes "b0";
        head_sha = sha;
        token_budget = 100;
        cost_budget_usd_micros = 200;
        state = published;
      }
      ∷ [];
  check_runs =
      record {
        owner_id = owner;
        pull_request_id = 1;
        current_run_id = 1;
        head_sha = sha;
        external_id = external_id;
        remote_id = some 77;
        is_completed = true;
      }
      ∷ [];
  next_run_id = 2;
}

abbrev rerun : CheckRunPayload
rerun = record {
  action = codes "rerequested";
  requested_action = none;
  installation_id = 7;
  repository_id = 1;
  check_run_id = 77;
  name = codes "PR Reliability review";
  head_sha = sha;
  external_id = external_id;
  app_id = 9;
}

abbrev rerun_again : Response × Database
rerun_again = receive_check_rerun settings ids none (codes "d9") 5_001 rerun checked

rerun-response :
    (rerun_again.0 ≡ accepted false (some (ids 2)))
    × (map (λ (r : Run). r.generation) rerun_again.1.runs ≡ 1 ∷ (2 ∷ []))
unfolding receive_check_rerun rerun_check locked_rerun_target external_id_groups lock_installation
    admitted_policy admitted_row insert_run latest_generation text_eq contains
rerun-response = (refl, refl)

receive-stale_example :
    IsIgnored settings ids none
      (codes "d0")
      5_001
      old_push
      checked
      (receive (codes "d0") old_push checked)
    × (any
          (is_delivery settings ids none (codes "d0") 5_001 old_push)
          (receive (codes "d0") old_push checked).1.deliveries
        ≡ true)
unfolding lock_installation text_eq
receive-stale_example =
    receive-stale settings ids none (codes "d0") 5_001 old_push checked _ _ 10 refl refl refl
      (omega arith)

receive-IsRerun_example : IsRerun settings ids none (codes "d9") 5_001 rerun checked rerun_again
receive-IsRerun_example = receive-IsRerun settings ids none (codes "d9") 5_001 rerun checked

abbrev rerun_for : NewRun
rerun_for = record {
  owner_id = owner;
  pull_request_id = 1;
  pull_request_public_id = codes "01ARZ3NDEKTSV4RRFFQ69G5FAV";
  pull_request_number = 4;
  repository_public_id = codes "r1";
  base_branch = some (codes "main");
  base_sha = codes "b0";
  head_sha = sha;
  traceparent = none;
}

abbrev limits : RepositoryPolicy
limits = record {
  enabled = true;
  enabled_branches = [];
  token_budget = 100;
  cost_budget_usd_micros = 200;
  verification_profile = codes "default";
}

abbrev seen_pull_request : pr_reliability_platform.Starts.Tables.PullRequest
seen_pull_request = record {
  id = 1;
  owner_id = owner;
  public_id = codes "01ARZ3NDEKTSV4RRFFQ69G5FAV";
  github_number = 4;
  repository_id = codes "r1";
}

abbrev listed_repository : Repository
listed_repository = record {
  public_id = codes "r1";
  owner_id = owner;
  github_repository_id = 1;
  full_name = codes "o/a";
  installation_id = some 7;
  access_state = access_active;
  default_branch = some (codes "main");
  enabled = true;
  enabled_branches = [];
  token_budget = 100;
  cost_budget_usd_micros = 200;
  verification_profile = codes "default";
  last_sync_at = some 5_000;
  last_webhook_at = none;
}

insert_run-pending_of_example :
    (pending_of
        (seen (added ids limits rerun_for checked))
        []
        (command_event ids limits rerun_for checked)
      ≡ some (pending_row ids limits rerun_for checked seen_pull_request listed_repository))
    × (same_identity (pending_row ids limits rerun_for checked seen_pull_request listed_repository)
        ≡ true)
    × (is_terminal
          (pending_row ids limits rerun_for checked seen_pull_request listed_repository).run.state
        ≡ false)
unfolding text_eq
insert_run-pending_of_example =
    insert_run-pending_of ids limits rerun_for checked seen_pull_request listed_repository [] refl
      refl refl refl refl refl refl refl
