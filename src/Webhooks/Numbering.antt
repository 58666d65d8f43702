-- ===== src/Webhooks/Numbering.antt =====
-- webhooks/github.py and webhooks/checks.py: the generations of the runs of a pull request.
use mathlib.Core.Path.{subst}
use pr_reliability_platform.Prelude.{
  ℕ, Bool, Option, none, some, [], ◌∷◌, ◌++◌, Text, ◌≡◌, refl, if_lem, any, find, not, ◌==◌, ◌>>=◌,
  sym, ◌||◌, text_eq, codes, contains,
}
use pr_reliability_platform.Repositories.Store.{
  RepositoryPolicy, admitted_policy, lock_installation,
}
use pr_reliability_platform.Repositories.Tables.{Repository}
use pr_reliability_platform.Webhooks.Receive.{
  Response, GithubWebhookSettings, start_run, close_delivery, receive_for, receive_new,
  receive_pull_request, is_delivery,
}
use pr_reliability_platform.Webhooks.Checks.{
  CheckRunPayload, Target, create_rerun, rerun_target, close_rerun, locked_rerun_target, rerun_row,
  rerun_named, rerun_check, rerun_for_app, receive_check_rerun, external_id_groups, is_latest,
  is_rerun_delivery, is_rerun_action,
}
use pr_reliability_platform.Webhooks.PullRequests.{
  is_pull_request, PullRequestPayload, upsert_pull_request, resolve_head_sha, upsert_row,
  is_superseded,
}
use pr_reliability_platform.Webhooks.Route.{
  Payload, pull_request, check_run, lifecycle, handle, handle_authorized, receive_github_webhook,
  validated, installation_of, valid_signature, is_identifier, supported_events,
}
use pr_reliability_platform.Webhooks.Tables.{PullRequest, Database, is_reopened, is_closed, draw}
use pr_reliability_platform.Webhooks.Runs.{NewRun}
use pr_reliability_platform.Webhooks.Generations.{
  IsNumbered, IsNumberedIn, numbered, insert_run-IsNumbered, create_run-IsNumbered,
}

module _ (settings : GithubWebhookSettings) (id_factory : ℕ → Text) (traceparent : Option Text)
    (delivery_id : Text) (received_at : ℕ) (hexdigest : Text → Text → Text)
    (read : Text → Text → Option Payload) where
  module _ (payload : PullRequestPayload) where
    close_delivery-IsNumbered :
        (r : Option Text × Database)
        → IsNumberedIn r
        → IsNumberedIn
            (close_delivery settings id_factory traceparent delivery_id received_at payload r)
    unfolding IsNumberedIn
    close_delivery-IsNumbered r h = h

    start_run-IsNumbered :
        (policy : Option RepositoryPolicy) (n : NewRun) (d : Database)
        → IsNumbered d.runs
        → IsNumberedIn
            (start_run settings id_factory traceparent delivery_id received_at payload policy n d)
    start_run-IsNumbered none n d h = numbered _ h
    start_run-IsNumbered (some policy) n d h =
        if_lem (λ (r : Option Text × Database). IsNumberedIn r) (is_closed payload.action) _ _
          (λ _. numbered _ h)
          (λ _. create_run-IsNumbered id_factory policy n (is_reopened payload.action) d h)

    upsert_row-runs :
        (repository head : Text) (p : Option PullRequest) (d : Database)
        → (upsert_row settings.owner_id payload id_factory repository head received_at delivery_id p
            d).2.runs
          ≡ d.runs
    upsert_row-runs repository head none d = refl
    upsert_row-runs repository head (some p) d =
        if_lem (λ (r : PullRequest × Bool × Database). r.2.runs ≡ d.runs)
          (is_superseded settings.owner_id payload head p) _ _ (λ _. refl) (λ _. refl)

    receive_for-IsNumbered :
        (policy : Option RepositoryPolicy) (repository : Option Repository) (d : Database)
        → IsNumbered d.runs
        → IsNumberedIn (
            receive_for settings id_factory traceparent delivery_id received_at payload policy
              repository d)
    unfolding upsert_pull_request
    receive_for-IsNumbered policy none d h = numbered _ h
    receive_for-IsNumbered policy (some repository) d h =
        let head = resolve_head_sha settings.owner_id payload d.deliveries in
        let p =
          find (is_pull_request settings.owner_id payload repository.public_id) d.pull_requests in
        let upserted =
          upsert_row settings.owner_id payload id_factory repository.public_id head received_at
            delivery_id p d in
        let k = subst IsNumbered (sym (upsert_row-runs repository.public_id head p d)) h in
        close_delivery-IsNumbered _ (
          if_lem (λ (r : Option Text × Database). IsNumberedIn r) upserted.1 _ _
            (λ _. start_run-IsNumbered policy _ _ k) (λ _. numbered _ k))

    receive_pull_request-IsNumbered :
        (d : Database)
        → IsNumbered d.runs
        → IsNumberedIn
            (receive_pull_request settings id_factory traceparent delivery_id received_at payload d)
    unfolding receive_pull_request receive_new
    receive_pull_request-IsNumbered d h =
        if_lem (λ (r : Response × Database). IsNumberedIn r)
          (any (is_delivery settings id_factory traceparent delivery_id received_at payload)
            d.deliveries)
          _ _ (λ _. numbered _ h) (λ _. receive_for-IsNumbered _ _ _ h)

  module _ (payload : CheckRunPayload) where
    close_rerun-IsNumbered :
        (r : Option Text × Database)
        → IsNumberedIn r
        → IsNumberedIn
            (close_rerun settings id_factory traceparent delivery_id received_at payload r)
    unfolding IsNumberedIn
    close_rerun-IsNumbered r h = h

    create_rerun-IsNumbered :
        (policy : Option RepositoryPolicy) (t : Target) (d : Database)
        → IsNumbered d.runs
        → IsNumberedIn (
            create_rerun settings id_factory traceparent delivery_id received_at payload policy t d)
    create_rerun-IsNumbered none t d h = numbered _ h
    create_rerun-IsNumbered (some policy) t d h =
        if_lem (λ (r : Option Text × Database). IsNumberedIn r)
          (is_latest settings id_factory traceparent delivery_id received_at payload t d) _ _
          (λ _. numbered _ (insert_run-IsNumbered id_factory policy _ d h)) (λ _. numbered _ h)

    rerun_target-IsNumbered :
        (t : Option Target) (d : Database)
        → IsNumbered d.runs
        → IsNumberedIn
            (rerun_target settings id_factory traceparent delivery_id received_at payload t d)
    rerun_target-IsNumbered none d h = numbered _ h
    rerun_target-IsNumbered (some t) d h =
        create_rerun-IsNumbered
          (admitted_policy d.policy settings.owner_id settings.installation_id payload.repository_id
            t.current.base_branch)
          t d h

    rerun_named-IsNumbered :
        (groups : Option (Text × Text)) (d : Database)
        → IsNumbered d.runs
        → IsNumberedIn
            (rerun_named settings id_factory traceparent delivery_id received_at payload groups d)
    unfolding rerun_check
    rerun_named-IsNumbered none d h = numbered _ h
    rerun_named-IsNumbered (some (public_id, sha)) d h =
        let d0 = draw 1 (record d {
          policy = lock_installation settings.owner_id settings.installation_id d.policy;
        }) in
        let d1 = record d0 {
          rerun_deliveries =
              d0.rerun_deliveries
              ++ rerun_row settings id_factory traceparent delivery_id received_at payload ∷ [];
        } in
        if_lem (λ (r : Response × Database). IsNumberedIn r) (text_eq sha payload.head_sha) _ _
          (λ _.
            if_lem (λ (r : Response × Database). IsNumberedIn r)
              (any
                (is_rerun_delivery settings id_factory traceparent delivery_id received_at payload)
                d.rerun_deliveries)
              _ _ (λ _. numbered _ h)
              (λ _. close_rerun-IsNumbered _ (
                rerun_target-IsNumbered
                  (locked_rerun_target settings id_factory traceparent delivery_id received_at
                    payload public_id d1)
                  d1 h)))
          (λ _. numbered _ h)

    rerun_for_app-IsNumbered :
        (app_id : Option ℕ) (d : Database)
        → IsNumbered d.runs
        → IsNumberedIn
            (rerun_for_app settings id_factory traceparent delivery_id received_at payload app_id d)
    rerun_for_app-IsNumbered none d h = numbered _ h
    rerun_for_app-IsNumbered (some app_id) d h =
        if_lem (λ (r : Response × Database). IsNumberedIn r)
          (not (payload.app_id == app_id)
            || not (text_eq payload.name (codes "PR Reliability review")))
          _ _ (λ _. numbered _ h)
          (λ _.
            if_lem (λ (r : Response × Database). IsNumberedIn r)
              (not (
                is_rerun_action settings id_factory traceparent delivery_id received_at payload
                  payload.action))
              _ _ (λ _. numbered _ h)
              (λ _. rerun_named-IsNumbered (external_id_groups payload.external_id) d h))

  handle-IsNumbered :
      (event : Text) (payload : Payload) (d : Database)
      → IsNumbered d.runs
      → IsNumberedIn (
          handle hexdigest read settings id_factory traceparent event delivery_id received_at
            payload d)
  unfolding receive_check_rerun
  handle-IsNumbered event (pull_request p) d h = receive_pull_request-IsNumbered p d h
  handle-IsNumbered event (check_run p) d h = rerun_for_app-IsNumbered p settings.app_id d h
  handle-IsNumbered event (lifecycle i p) d h = numbered _ h

  handle_authorized-IsNumbered :
      (event : Text) (payload : Option Payload) (d : Database)
      → IsNumbered d.runs
      → IsNumberedIn (
          handle_authorized hexdigest read settings id_factory traceparent event delivery_id
            received_at payload d)
  handle_authorized-IsNumbered event none d h = numbered _ h
  handle_authorized-IsNumbered event (some payload) d h =
      if_lem (λ (r : Response × Database). IsNumberedIn r)
        (installation_of payload == settings.installation_id) _ _
        (λ _. handle-IsNumbered event payload d h) (λ _. numbered _ h)

  -- Whatever requests the endpoint answers, each run of a pull request keeps a greater generation than
  -- the runs of that pull request that are before it in the table, also the run that a request adds.
  pub receive-IsNumbered :
      (body signature event : Text) (d : Database)
      → IsNumbered d.runs
      → IsNumbered
          (receive_github_webhook hexdigest read settings id_factory traceparent body signature
            delivery_id event received_at d).1.runs
  unfolding receive_github_webhook IsNumberedIn
  receive-IsNumbered body signature event d h =
      if_lem (λ (r : Response × Database). IsNumberedIn r)
        (not (is_identifier hexdigest read settings id_factory traceparent delivery_id)) _ _
        (λ _. h)
        (λ _.
          if_lem (λ (r : Response × Database). IsNumberedIn r)
            (not (valid_signature hexdigest read settings id_factory traceparent body signature)) _
            _ (λ _. h)
            (λ _.
              if_lem (λ (r : Response × Database). IsNumberedIn r)
                (not (contains supported_events event)) _ _ (λ _. h)
                (λ _. handle_authorized-IsNumbered event (read event body >>= validated) d h)))
