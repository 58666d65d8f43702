-- ===== src/Webhooks/Tests.antt =====
-- Requests to the webhook endpoint on small tables, and the theorems at concrete inputs.
mod Checks
use pr_reliability_platform.Prelude.{
  ℕ, true, false, Option, none, some, [], ◌∷◌, Text, codes, ◌≡◌, refl, arith, text_eq, contains,
  text_lt, map,
}
use pr_reliability_platform.Repositories.Tables.{active, access_active, Repository}
use pr_reliability_platform.Repositories.Store.{
  lock_installation, admitted_row, admitted_policy, RepositoryPolicy,
}
use pr_reliability_platform.Starts.Tables.{Run}
use pr_reliability_platform.Approvals.Tables.{published}
use pr_reliability_platform.Webhooks.Tables.{
  PullRequestAction, opened, synchronize, open_state, Database, draw, latest_generation,
  PullRequest,
}
use pr_reliability_platform.Webhooks.Runs.{NewRun, command_event, insert_run, create_run}
use pr_reliability_platform.Webhooks.PullRequests.{
  PullRequestPayload, upsert_pull_request, resolve_head_sha, deepest, next_links, links_after,
  greatest_sha, validate_synchronize_chain,
}
use pr_reliability_platform.Webhooks.Receive.{
  Response, accepted, refused, GithubWebhookSettings, receive_pull_request, receive_new,
}
use pr_reliability_platform.Webhooks.Checks.{
  CheckRunPayload, receive_check_rerun, rerun_check, locked_rerun_target, external_id_groups,
}
use pr_reliability_platform.Webhooks.Route.{
  Payload, pull_request, receive_github_webhook, valid_signature,
}
use pr_reliability_platform.Webhooks.Numbering.{receive-IsNumbered}
use pr_reliability_platform.Webhooks.Generations.{IsNumbered}
use pr_reliability_platform.Webhooks.Starting.{IsStarted, receive-IsStarted}
use pr_reliability_platform.Webhooks.Duplicates.{receive_pull_request_again}
use pr_reliability_platform.Webhooks.Staleness.{
  IsForward, IsIgnored, receive-IsForward, receive-stale,
}
use pr_reliability_platform.Webhooks.Reruns.{IsRerun, receive-IsRerun}
use pr_reliability_platform.Starts.Dispatch.{pending_of, same_identity, is_terminal}
use pr_reliability_platform.Webhooks.Handover.{seen, added, pending_row, insert_run-pending_of}
use pr_reliability_platform.Webhooks.Authentic.{IsAuthentic, receive-IsAuthentic}

abbrev ids : ℕ → Text
ids n = n ∷ []

abbrev owner : Text
owner = codes "01OWNER"

abbrev settings : GithubWebhookSettings
settings = record {
  owner_id = owner;
  installation_id = 7;
  webhook_secret = codes "secret";
  app_id = some 9;
}

abbrev tables : Database
tables = record {
  policy = record {
    installations =
        record {
          owner_id = owner;
          installation_id = 7;
          state = active;
          revision = 1;
          last_sync_at = some 5_000;
          last_webhook_at = none;
        }
        ∷ [];
    repositories =
        record {
          public_id = codes "r1";
          owner_id = owner;
          github_repository_id = 1;
          full_name = codes "o/a";
          installation_id = some 7;
          access_state = access_active;
          default_branch = some (codes "main");
          enabled = true;
          enabled_branches = [];
          token_budget = 100;
          cost_budget_usd_micros = 200;
          verification_profile = codes "default";
          last_sync_at = some 5_000;
          last_webhook_at = none;
        }
        ∷ [];
    events = [];
    now = 5_000;
    drawn = 0;
  };
  pull_requests = [];
  runs = [];
  events = [];
  deliveries = [];
  rerun_deliveries = [];
  check_runs = [];
  next_pull_request_id = 1;
  next_run_id = 1;
}

-- A delivery of pull request 4 on branch main.
abbrev payload_of : PullRequestAction → ℕ → Text → Option Text → Option Text → PullRequestPayload
payload_of action updated_at head before after = record {
  action = action;
  before = before;
  after = after;
  installation_id = 7;
  repository_id = 1;
  full_name = codes "o/b";
  number = 4;
  updated_at = updated_at;
  base_sha = codes "b0";
  base_ref = some (codes "main");
  head_sha = head;
}

abbrev opening : PullRequestPayload
opening = payload_of opened 10 (codes "c1") none none

abbrev push : PullRequestPayload
push = payload_of synchronize 20 (codes "c2") (some (codes "c1")) (some (codes "c2"))

abbrev second_push : PullRequestPayload
second_push = payload_of synchronize 20 (codes "c3") (some (codes "c2")) (some (codes "c3"))

abbrev old_push : PullRequestPayload
old_push = payload_of synchronize 5 (codes "c0") (some (codes "b0")) (some (codes "c0"))

abbrev receive : Text → PullRequestPayload → Database → Response × Database
receive delivery_id payload d = receive_pull_request settings ids none delivery_id 5_001 payload d

abbrev first : Response × Database
first = receive (codes "d1") opening tables

-- The second push arrives before the first.
abbrev reordered : Response × Database
reordered = receive (codes "d2") push (receive (codes "d3") second_push first.1).1

first-response : first.0 ≡ accepted false (some (ids 3))
unfolding receive_pull_request receive_new lock_installation admitted_policy admitted_row
    upsert_pull_request resolve_head_sha create_run insert_run latest_generation text_eq contains
first-response = refl

reordered-response :
    (reordered.0 ≡ accepted false none)
    × (map (λ (p : PullRequest). p.head_sha) reordered.1.pull_requests ≡ codes "c3" ∷ [])
    × (map (λ (r : Run). r.generation) reordered.1.runs ≡ 1 ∷ (2 ∷ []))
unfolding receive_pull_request receive_new lock_installation admitted_policy admitted_row
    upsert_pull_request resolve_head_sha deepest next_links links_after greatest_sha create_run
    insert_run latest_generation text_eq contains text_lt
reordered-response = (refl, refl, refl)

-- A digest of 64 digits, and a reader that finds the opening in each body.
abbrev digest : Text → Text → Text
digest secret body = codes "0123456789abcdef0123456789abcdef0123456789abcdef0123456789abcdef"

abbrev signature : Text
signature = codes "sha256=0123456789abcdef0123456789abcdef0123456789abcdef0123456789abcdef"

abbrev read : Text → Text → Option Payload
read event body = some (pull_request opening)

abbrev request : Text → Response × Database
request signed =
    receive_github_webhook digest read settings ids none (codes "{}") signed (codes "d1")
      (codes "pull_request") 5_001 tables

request-responses :
    ((request signature).0 ≡ accepted false (some (ids 3)))
    × ((request (codes "sha256=00")).0 ≡ refused 401)
unfolding receive_github_webhook valid_signature validate_synchronize_chain receive_pull_request
    receive_new lock_installation admitted_policy admitted_row upsert_pull_request resolve_head_sha
    create_run insert_run latest_generation text_eq contains
request-responses = (refl, refl)

receive-IsAuthentic_example :
    IsAuthentic digest read settings ids none
      (codes "{}")
      signature
      (codes "pull_request")
      tables
      (request signature)
receive-IsAuthentic_example =
    receive-IsAuthentic digest read settings ids none (codes "{}") signature (codes "pull_request")
      (codes "d1") 5_001 tables

receive-IsNumbered_example : IsNumbered (request signature).1.runs
receive-IsNumbered_example =
    receive-IsNumbered settings ids none (codes "d1") 5_001 digest read (codes "{}") signature
      (codes "pull_request") tables tt

receive-IsStarted_example :
    IsStarted settings ids none (codes "d2") 5_001 push first.1 (receive (codes "d2") push first.1)
receive-IsStarted_example = receive-IsStarted settings ids none (codes "d2") 5_001 push first.1

receive_pull_request_again_example :
    receive (codes "d1") push first.1 ≡ (accepted true none, draw 1 first.1)
receive_pull_request_again_example =
    receive_pull_request_again settings ids none (codes "d1") 5_001 opening tables push 5_001 none

receive-IsForward_example :
    IsForward first.1.pull_requests (receive (codes "d2") push first.1).1.pull_requests
receive-IsForward_example = receive-IsForward settings ids none (codes "d2") 5_001 push first.1
