-- ===== src/Webhooks/Route.antt =====
-- webhooks/github.py: `receive_github_webhook`, from the raw request to the handler of its event. The
-- secrets are not zero and the installation is positive by `GithubWebhookSettings`.
use pr_reliability_platform.Prelude.{
  ℕ, Bool, Option, none, some, Text, codes, text_eq, contains, not, all, length, take, drop, ◌++◌,
  ◌∷◌, [], List, ◌==◌, ◌&&◌, if◌then◌else◌, ◌>>=◌, leb,
}
use pr_reliability_platform.Repositories.Lifecycle.{Delivery, receive_lifecycle}
use pr_reliability_platform.Webhooks.Tables.{Database}
use pr_reliability_platform.Webhooks.PullRequests.{PullRequestPayload, validate_synchronize_chain}
use pr_reliability_platform.Webhooks.Checks.{
  CheckRunPayload, require_supported_action, is_hex, receive_check_rerun,
}
use pr_reliability_platform.Webhooks.Receive.{
  Response, accepted, refused, GithubWebhookSettings, receive_pull_request,
}

-- The payloads of the four events; the last two have one handler.
pub data Payload : Type 0 where
  pull_request : PullRequestPayload → Payload
  check_run : CheckRunPayload → Payload
  lifecycle : (installation_id : ℕ) → Delivery → Payload

abbrev pub supported_events : List Text
supported_events =
    codes "pull_request"
    ∷ (codes "check_run" ∷ (codes "installation" ∷ (codes "installation_repositories" ∷ [])))

-- The validators of the models, after their fields are read.
abbrev pub validated : Payload → Option Payload
validated (pull_request p) = if validate_synchronize_chain p then some (pull_request p) else none
validated (check_run p) = if require_supported_action p then some (check_run p) else none
validated (lifecycle i p) = some (lifecycle i p)

abbrev pub installation_of : Payload → ℕ
installation_of (pull_request p) = p.installation_id
installation_of (check_run p) = p.installation_id
installation_of (lifecycle i p) = i

-- `hexdigest` is that of HMAC-SHA256 with the secret, `read` the JSON of the body read by the fields
-- of the model that the event names.
module _ (hexdigest : Text → Text → Text) (read : Text → Text → Option Payload)
    (settings : GithubWebhookSettings) (id_factory : ℕ → Text) (traceparent : Option Text) where
  -- The bounds on `X-GitHub-Delivery`, which FastAPI tests before it calls the handler.
  abbrev pub is_identifier : Text → Bool
  is_identifier delivery_id = leb 1 (length delivery_id) && leb (length delivery_id) 128

  -- `_valid_signature`
  unfoldable pub valid_signature : Text → Text → Bool
  valid_signature body supplied =
      text_eq (take 7 supplied) (codes "sha256=")
      && (length (drop 7 supplied) == 64
          && (all is_hex (drop 7 supplied)
              && text_eq (codes "sha256=" ++ hexdigest settings.webhook_secret body) supplied))

  abbrev pub lifecycle_response :
      Database → Bool × pr_reliability_platform.Repositories.Tables.Database → Response × Database
  lifecycle_response d (duplicate, policy) = (accepted duplicate none, record d { policy = policy })

  -- The handler of the event, in its transaction.
  abbrev pub handle : Text → Text → ℕ → Payload → Database → Response × Database
  handle event delivery_id received_at (pull_request p) d =
      receive_pull_request settings id_factory traceparent delivery_id received_at p d
  handle event delivery_id received_at (check_run p) d =
      receive_check_rerun settings id_factory traceparent delivery_id received_at p d
  handle event delivery_id received_at (lifecycle i p) d =
      lifecycle_response d
        (receive_lifecycle settings.owner_id settings.installation_id event delivery_id p d.policy)

  abbrev pub handle_authorized : Text → Text → ℕ → Option Payload → Database → Response × Database
  handle_authorized event delivery_id received_at none d = (refused 422, d)
  handle_authorized event delivery_id received_at (some payload) d =
      if installation_of payload == settings.installation_id
      then handle event delivery_id received_at payload d
      else (refused 403, d)

  -- `receive_github_webhook`
  unfoldable pub receive_github_webhook :
      Text → Text → Text → Text → ℕ → Database → Response × Database
  receive_github_webhook body signature delivery_id event received_at d =
      if not (is_identifier delivery_id)
      then (refused 422, d)
      else if not (valid_signature body signature)
      then (refused 401, d)
      else if not (contains supported_events event)
      then (refused 422, d)
      else handle_authorized event delivery_id received_at (read event body >>= validated) d
