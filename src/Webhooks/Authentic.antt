-- ===== src/Webhooks/Authentic.antt =====
-- webhooks/github.py: what a request to the endpoint must have to change a table.
use pr_reliability_platform.Prelude.{
  ℕ, true, Option, none, some, Text, ◌≡◌, refl, if_lem, not-false, not, contains, ==_iff, ◌==◌,
  ◌>>=◌,
}
use pr_reliability_platform.Webhooks.Tables.{Database}
use pr_reliability_platform.Webhooks.PullRequests.{PullRequestPayload}
use pr_reliability_platform.Webhooks.Checks.{CheckRunPayload}
use pr_reliability_platform.Webhooks.Receive.{Response, accepted, refused, GithubWebhookSettings}
use pr_reliability_platform.Webhooks.Route.{
  Payload, pull_request, check_run, lifecycle, supported_events, validated, installation_of,
  valid_signature, is_identifier, handle, handle_authorized, receive_github_webhook,
}
use pr_reliability_platform.Webhooks.Starting.{IsStarted, receive-IsStarted}
use pr_reliability_platform.Webhooks.Reruns.{IsRerun, receive-IsRerun}

-- A refused request leaves the tables as they are.
abbrev pub IsRefusal : Database → Response × Database → Type 0
IsRefusal d (refused status, d') = d' ≡ d
IsRefusal d (accepted duplicate c, d') = Unit

module _ (hexdigest : Text → Text → Text) (read : Text → Text → Option Payload)
    (settings : GithubWebhookSettings) (id_factory : ℕ → Text) (traceparent : Option Text) where
  abbrev pub IsAuthentic : Text → Text → Text → Database → Response × Database → Type 0
  IsAuthentic body signature event d (refused status, d') = d' ≡ d
  IsAuthentic body signature event d (accepted duplicate c, d') =
      (valid_signature hexdigest read settings id_factory traceparent body signature ≡ true)
      × (contains supported_events event ≡ true)
      × ((payload : Payload) × ((read event body >>= validated) ≡ some payload)
          × (installation_of payload ≡ settings.installation_id))

  started-IsRefusal :
      (delivery_id : Text) (received_at : ℕ) (p : PullRequestPayload) (d : Database)
      (r : Response × Database)
      → IsStarted settings id_factory traceparent delivery_id received_at p d r
      → IsRefusal d r
  started-IsRefusal delivery_id received_at p d (refused status, d') h = absurd h
  started-IsRefusal delivery_id received_at p d (accepted duplicate c, d') h = tt

  rerun-IsRefusal :
      (delivery_id : Text) (received_at : ℕ) (p : CheckRunPayload) (d : Database)
      (r : Response × Database)
      → IsRerun settings id_factory traceparent delivery_id received_at p d r
      → IsRefusal d r
  rerun-IsRefusal delivery_id received_at p d (refused status, d') h = h
  rerun-IsRefusal delivery_id received_at p d (accepted duplicate c, d') h = tt

  handle-IsRefusal :
      (event delivery_id : Text) (received_at : ℕ) (payload : Payload) (d : Database)
      → IsRefusal d (
          handle hexdigest read settings id_factory traceparent event delivery_id received_at
            payload d)
  handle-IsRefusal event delivery_id received_at (pull_request p) d =
      started-IsRefusal delivery_id received_at p d _
        (receive-IsStarted settings id_factory traceparent delivery_id received_at p d)
  handle-IsRefusal event delivery_id received_at (check_run p) d =
      rerun-IsRefusal delivery_id received_at p d _
        (receive-IsRerun settings id_factory traceparent delivery_id received_at p d)
  handle-IsRefusal event delivery_id received_at (lifecycle i p) d = tt

  authentic :
      (body signature event : Text) (d : Database)
      → valid_signature hexdigest read settings id_factory traceparent body signature ≡ true
      → contains supported_events event ≡ true
      → (payload : Payload) → (read event body >>= validated) ≡ some payload
      → installation_of payload ≡ settings.installation_id
      → (r : Response × Database) → IsRefusal d r
      → IsAuthentic body signature event d r
  authentic body signature event d v c payload e i (refused status, d') h = h
  authentic body signature event d v c payload e i (accepted duplicate command, d') h =
      (v, c, (payload, e, i))

  handle_authorized-IsAuthentic :
      (body signature event delivery_id : Text) (received_at : ℕ) (d : Database)
      → valid_signature hexdigest read settings id_factory traceparent body signature ≡ true
      → contains supported_events event ≡ true
      → (o : Option Payload) → (read event body >>= validated) ≡ o
      → IsAuthentic body signature event d (
          handle_authorized hexdigest read settings id_factory traceparent event delivery_id
            received_at o d)
  handle_authorized-IsAuthentic body signature event delivery_id received_at d v c none e = refl
  handle_authorized-IsAuthentic body signature event delivery_id received_at d v c (some payload)
        e =
      if_lem (IsAuthentic body signature event d)
        (installation_of payload == settings.installation_id) _ _
        (λ i.
          authentic body signature event d v c payload e
            ((==_iff (installation_of payload) settings.installation_id).0 i) _
            (handle-IsRefusal event delivery_id received_at payload d))
        (λ _. refl)

  -- A request that is refused changes no table, whatever the status is. A request that is accepted has
  -- the signature of its body, one of the four events, and a payload that is valid for that event and
  -- is of the installation of the settings.
  pub receive-IsAuthentic :
      (body signature event delivery_id : Text) (received_at : ℕ) (d : Database)
      → IsAuthentic body signature event d (
          receive_github_webhook hexdigest read settings id_factory traceparent body signature
            delivery_id event received_at d)
  unfolding receive_github_webhook
  receive-IsAuthentic body signature event delivery_id received_at d =
      if_lem (IsAuthentic body signature event d)
        (not (is_identifier hexdigest read settings id_factory traceparent delivery_id)) _ _
        (λ _. refl)
        (λ _.
          if_lem (IsAuthentic body signature event d)
            (not (valid_signature hexdigest read settings id_factory traceparent body signature)) _
            _ (λ _. refl)
            (λ v.
              if_lem (IsAuthentic body signature event d) (not (contains supported_events event)) _
                _ (λ _. refl)
                (λ c.
                  handle_authorized-IsAuthentic body signature event delivery_id received_at d
                    (not-false _ v) (not-false _ c) (read event body >>= validated) refl)))
