-- ===== src/Webhooks/Receive.antt =====
-- webhooks/github.py: what one pull request delivery does, in one transaction. The advisory lock on
-- the installation puts these transactions in order.
use pr_reliability_platform.Prelude.{
  ℕ, Bool, true, false, Option, none, some, List, [], ◌∷◌, ◌++◌, Text, text_eq, any, find,
  update_where, ◌==◌, ◌&&◌, if◌then◌else◌,
}
use pr_reliability_platform.Repositories.Tables.{Repository, equals}
use pr_reliability_platform.Repositories.Store.{
  RepositoryPolicy, lock_installation, admitted_policy,
}
use pr_reliability_platform.Webhooks.Tables.{
  PullRequest, WebhookDelivery, Database, draw, is_closed, is_reopened,
}
use pr_reliability_platform.Webhooks.Runs.{NewRun, create_run}
use pr_reliability_platform.Webhooks.PullRequests.{
  PullRequestPayload, resolve_head_sha, upsert_pull_request,
}

-- The answer of a handler, or the status of an `HTTPException`.
pub data Response : Type 0 where
  accepted : (duplicate : Bool) (command_id : Option Text) → Response
  refused : ℕ → Response

-- `GithubWebhookSettings`
pub record GithubWebhookSettings : Type 0 where
  pub owner_id : Text
  pub installation_id : ℕ
  pub webhook_secret : Text
  pub app_id : Option ℕ

module _ (settings : GithubWebhookSettings) (id_factory : ℕ → Text) (traceparent : Option Text)
    (delivery_id : Text) (received_at : ℕ) (payload : PullRequestPayload) where
  abbrev pub is_delivery : WebhookDelivery → Bool
  is_delivery e = text_eq e.owner_id settings.owner_id && text_eq e.delivery_id delivery_id

  abbrev pub delivery_row : WebhookDelivery
  delivery_row = record {
    owner_id = settings.owner_id;
    delivery_id = delivery_id;
    action = payload.action;
    repository_github_id = payload.repository_id;
    pull_request_number = payload.number;
    head_sha = payload.head_sha;
    before_sha = payload.before;
    after_sha = payload.after;
    pull_request_updated_at = payload.updated_at;
    received_at = received_at;
    command_public_id = none;
  }

  abbrev pub with_deliveries : List WebhookDelivery → Database → Database
  with_deliveries deliveries d = record d { deliveries = deliveries }

  abbrev pub with_repositories : List Repository → Database → Database
  with_repositories repositories d = record d {
    policy = record d.policy { repositories = repositories };
  }

  -- The repository of the delivery.
  abbrev pub is_known : Repository → Bool
  is_known r =
      text_eq r.owner_id settings.owner_id
      && (equals r.installation_id settings.installation_id
          && r.github_repository_id == payload.repository_id)

  abbrev pub note_webhook : Database → Database
  note_webhook d =
      with_repositories
        (update_where is_known (λ r. record r { last_webhook_at = some d.policy.now })
          d.policy.repositories)
        d

  -- `_update_repository_name`
  abbrev pub update_repository_name : Text → Database → Database
  update_repository_name public_id d =
      with_repositories
        (update_where (λ r. text_eq r.public_id public_id)
          (λ r. record r { full_name = payload.full_name }) d.policy.repositories)
        d

  abbrev pub new_run : Repository → PullRequest → Text → NewRun
  new_run repository p head = record {
    owner_id = settings.owner_id;
    pull_request_id = p.id;
    pull_request_public_id = p.public_id;
    pull_request_number = payload.number;
    repository_public_id = repository.public_id;
    base_branch = payload.base_ref;
    base_sha = payload.base_sha;
    head_sha = head;
    traceparent = traceparent;
  }

  -- The run, where the policy admits the delivery and it is not one of a closed pull request.
  abbrev pub start_run : Option RepositoryPolicy → NewRun → Database → Option Text × Database
  start_run none n d = (none, d)
  start_run (some policy) n d =
      if is_closed payload.action
      then (none, d)
      else create_run id_factory policy n (is_reopened payload.action) d

  -- The UPDATE of the delivery with the command.
  abbrev pub close_delivery : Option Text × Database → Response × Database
  close_delivery (command_id, d) = (
    accepted false command_id,
    with_deliveries
        (update_where is_delivery (λ e. record e { command_public_id = command_id }) d.deliveries)
        d,
  )

  -- What follows `_upsert_pull_request`.
  abbrev pub after_upsert :
      Option RepositoryPolicy
      → Repository
      → Text
      → PullRequest × Bool × Database
      → Response × Database
  after_upsert policy repository head (p, current_delivery, d) = close_delivery (
      if current_delivery
      then start_run policy (new_run repository p head)
          (update_repository_name repository.public_id d)
      else (none, d))

  abbrev pub receive_for :
      Option RepositoryPolicy → Option Repository → Database → Response × Database
  receive_for policy none d = (accepted false none, d)
  receive_for policy (some repository) d =
      let head = resolve_head_sha settings.owner_id payload d.deliveries in
      after_upsert policy repository head (
        upsert_pull_request settings.owner_id payload id_factory repository.public_id head
          received_at delivery_id d)

  -- A delivery that is not a duplicate.
  unfoldable pub receive_new : Database → Response × Database
  receive_new d =
      let d1 = note_webhook (with_deliveries (d.deliveries ++ delivery_row ∷ []) d) in
      receive_for
        (admitted_policy d1.policy settings.owner_id settings.installation_id payload.repository_id
          payload.base_ref)
        (find is_known d1.policy.repositories) d1

  abbrev pub locked : Database → Database
  locked d = record d {
    policy = lock_installation settings.owner_id settings.installation_id d.policy;
  }

  -- The branch of `receive_github_webhook` for the event `pull_request`.
  unfoldable pub receive_pull_request : Database → Response × Database
  receive_pull_request d =
      let d0 = draw 1 (locked d) in
      if any is_delivery d0.deliveries then (accepted true none, d0) else receive_new d0
