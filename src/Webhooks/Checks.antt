-- ===== src/Webhooks/Checks.antt =====
-- webhooks/checks.py: a request to run a check again, in one transaction.
use pr_reliability_platform.Prelude.{
  ℕ, ◌+◌, Bool, true, false, Option, none, some, List, [], ◌∷◌, ◌++◌, Text, codes, text_eq, any,
  find, update_where, not, leb, ◌==◌, ◌&&◌, ◌||◌, if◌then◌else◌, all, length, take, drop, ◌>>=◌,
}
use pr_reliability_platform.Repositories.Tables.{Repository, equals}
use pr_reliability_platform.Repositories.Store.{
  RepositoryPolicy, lock_installation, admitted_policy,
}
use pr_reliability_platform.Starts.Tables.{Run, is_run}
use pr_reliability_platform.Webhooks.Tables.{
  PullRequest, RerunDelivery, CheckRun, Database, draw, is_open, latest_generation,
}
use pr_reliability_platform.Webhooks.Runs.{NewRun, insert_run}
use pr_reliability_platform.Webhooks.Receive.{Response, accepted, refused, GithubWebhookSettings}

-- `CheckRunPayload`
pub record CheckRunPayload : Type 0 where
  pub action : Text
  pub requested_action : Option Text
  pub installation_id : ℕ
  pub repository_id : ℕ
  pub check_run_id : ℕ
  pub name : Text
  pub head_sha : Text
  pub external_id : Text
  pub app_id : ℕ

abbrev pub is_rerun : Option Text → Bool
is_rerun none = false
is_rerun (some identifier) = text_eq identifier (codes "rerun")

-- `require_supported_action`
unfoldable pub require_supported_action : CheckRunPayload → Bool
require_supported_action payload =
    not
      (text_eq payload.action (codes "requested_action") && not (is_rerun payload.requested_action))

-- `[0-9a-f]`
abbrev pub is_hex : ℕ → Bool
is_hex c = leb 48 c && leb c 57 || leb 97 c && leb c 102

-- `[0-9A-HJKMNP-TV-Z]`
abbrev pub is_crockford : ℕ → Bool
is_crockford c =
    leb 48 c && leb c 57
    || (leb 65 c && leb c 72
        || (c == 74
            || (c == 75
                || (c == 77 || (c == 78 || (leb 80 c && leb c 84 || leb 86 c && leb c 90))))))

-- `[0-7][0-9A-HJKMNP-TV-Z]{25}`
abbrev pub is_ulid : Text → Bool
is_ulid [] = false
is_ulid (c ∷ s) = leb 48 c && leb c 55 && (length s == 25 && all is_crockford s)

abbrev pub is_sha : Text → Bool
is_sha s = length s == 40 && all is_hex s

abbrev pub external_id_prefix : Text
external_id_prefix = codes "pr-reliability:"

-- The groups of the pattern of an external id, where it matches.
unfoldable pub external_id_groups : Text → Option (Text × Text)
external_id_groups s =
    let rest = drop 15 s in
    if text_eq (take 15 s) external_id_prefix
      && (is_ulid (take 26 rest)
          && (text_eq (take 1 (drop 26 rest)) (codes ":") && is_sha (drop 27 rest)))
    then some (take 26 rest, drop 27 rest)
    else none

pub record Target : Type 0 where
  pub current : Run
  pub pull_request : PullRequest
  pub repository : Repository

module _ (settings : GithubWebhookSettings) (id_factory : ℕ → Text) (traceparent : Option Text)
    (delivery_id : Text) (received_at : ℕ) (payload : CheckRunPayload) where
  abbrev pub is_check_run : CheckRun → Bool
  is_check_run c =
      text_eq c.owner_id settings.owner_id
      && (equals c.remote_id payload.check_run_id
          && (text_eq c.external_id payload.external_id
              && (text_eq c.head_sha payload.head_sha && c.is_completed)))

  abbrev pub is_checked : Text → CheckRun → PullRequest → Bool
  is_checked public_id c p =
      p.id == c.pull_request_id && (text_eq p.owner_id c.owner_id && text_eq p.public_id public_id)

  abbrev pub is_checked_repository : CheckRun → PullRequest → Repository → Bool
  is_checked_repository c p r =
      text_eq r.public_id p.repository_id
      && (text_eq r.owner_id c.owner_id && r.github_repository_id == payload.repository_id)

  -- The row of the join for a row of `github_check_runs`.
  abbrev pub target_of : Text → Database → CheckRun → Option Target
  target_of public_id d c =
      if is_check_run c
      then find (is_run c.owner_id c.current_run_id) d.runs >>= (λ current.
        find (is_checked public_id c) d.pull_requests >>= (λ p.
          find (is_checked_repository c p) d.policy.repositories
          >>= (λ r. some (record { current = current; pull_request = p; repository = r }))))
      else none

  abbrev pub or_target : Option Target → Option Target → Option Target
  or_target none rest = rest
  or_target (some t) rest = some t

  abbrev pub first_target : Text → Database → List CheckRun → Option Target
  first_target public_id d [] = none
  first_target public_id d (c ∷ cs) =
      or_target (target_of public_id d c) (first_target public_id d cs)

  -- `_locked_rerun_target`
  unfoldable pub locked_rerun_target : Text → Database → Option Target
  locked_rerun_target public_id d = first_target public_id d d.check_runs

  abbrev pub rerun_of : Target → NewRun
  rerun_of t = record {
    owner_id = settings.owner_id;
    pull_request_id = t.pull_request.id;
    pull_request_public_id = t.pull_request.public_id;
    pull_request_number = t.pull_request.github_number;
    repository_public_id = t.repository.public_id;
    base_branch = t.current.base_branch;
    base_sha = t.pull_request.base_sha;
    head_sha = payload.head_sha;
    traceparent = traceparent;
  }

  abbrev pub is_latest : Target → Database → Bool
  is_latest t d =
      is_open t.pull_request.state
      && (text_eq t.pull_request.head_sha payload.head_sha
          && t.current.generation == latest_generation t.pull_request.id d.runs)

  abbrev pub create_rerun : Option RepositoryPolicy → Target → Database → Option Text × Database
  create_rerun none t d = (none, d)
  create_rerun (some policy) t d =
      if is_latest t d
      then (some (id_factory (d.policy.drawn + 1)), insert_run id_factory policy (rerun_of t) d)
      else (none, d)

  abbrev pub rerun_target : Option Target → Database → Option Text × Database
  rerun_target none d = (none, d)
  rerun_target (some t) d =
      create_rerun
        (admitted_policy d.policy settings.owner_id settings.installation_id payload.repository_id
          t.current.base_branch)
        t d

  abbrev pub is_rerun_delivery : RerunDelivery → Bool
  is_rerun_delivery e = text_eq e.owner_id settings.owner_id && text_eq e.delivery_id delivery_id

  abbrev pub rerun_row : RerunDelivery
  rerun_row = record {
    owner_id = settings.owner_id;
    delivery_id = delivery_id;
    repository_github_id = payload.repository_id;
    check_run_remote_id = payload.check_run_id;
    action = payload.action;
    head_sha = payload.head_sha;
    received_at = received_at;
    command_public_id = none;
  }

  abbrev pub close_rerun : Option Text × Database → Response × Database
  close_rerun (command_id, d) = (
    accepted false command_id,
    record d {
      rerun_deliveries =
          update_where is_rerun_delivery (λ e. record e { command_public_id = command_id })
            d.rerun_deliveries;
    },
  )

  -- The transaction on the tables, for the pull request that the external id names.
  unfoldable pub rerun_check : Text → Database → Response × Database
  rerun_check public_id d =
      let d0 = draw 1 (record d {
        policy = lock_installation settings.owner_id settings.installation_id d.policy;
      }) in
      let d1 = record d0 { rerun_deliveries = d0.rerun_deliveries ++ rerun_row ∷ [] } in
      if any is_rerun_delivery d0.rerun_deliveries
      then (accepted true none, d0)
      else close_rerun (rerun_target (locked_rerun_target public_id d1) d1)

  abbrev pub rerun_named : Option (Text × Text) → Database → Response × Database
  rerun_named none d = (refused 422, d)
  rerun_named (some (public_id, sha)) d =
      if text_eq sha payload.head_sha then rerun_check public_id d else (refused 422, d)

  abbrev pub is_rerun_action : Text → Bool
  is_rerun_action action =
      text_eq action (codes "rerequested") || text_eq action (codes "requested_action")

  abbrev pub rerun_for_app : Option ℕ → Database → Response × Database
  rerun_for_app none d = (refused 503, d)
  rerun_for_app (some app_id) d =
      if not (payload.app_id == app_id)
        || not (text_eq payload.name (codes "PR Reliability review"))
      then (accepted false none, d)
      else if not (is_rerun_action payload.action)
      then (accepted false none, d)
      else rerun_named (external_id_groups payload.external_id) d

  -- `receive_check_rerun`
  unfoldable pub receive_check_rerun : Database → Response × Database
  receive_check_rerun d = rerun_for_app settings.app_id d
