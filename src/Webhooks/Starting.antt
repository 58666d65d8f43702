-- ===== src/Webhooks/Starting.antt =====
-- webhooks/github.py and webhooks/checks.py: what a run that a request adds rests on.
use mathlib.Core.Path.{subst, ◌∙◌, ap}
use pr_reliability_platform.Prelude.{
  ℕ, Bool, true, false, Option, none, some, [], ◌∷◌, ◌++◌, Text, ◌≡◌, refl, if_lem, any, find, not,
  ◌&&◌,
}
use pr_reliability_platform.Repositories.Tables.{Repository}
use pr_reliability_platform.Repositories.Store.{RepositoryPolicy, admitted_policy}
use pr_reliability_platform.Webhooks.Tables.{PullRequest, Database, draw, is_closed, is_reopened}
use pr_reliability_platform.Webhooks.Runs.{
  NewRun, insert_run, create_run, run_row, command_row, command_event, is_reviewed,
  is_same_generation,
}
use pr_reliability_platform.Webhooks.PullRequests.{
  PullRequestPayload, upsert_pull_request, upsert_row, resolve_head_sha, is_superseded,
  is_pull_request,
}
use pr_reliability_platform.Webhooks.Receive.{
  Response, accepted, refused, GithubWebhookSettings, start_run, close_delivery, receive_for,
  receive_new, receive_pull_request, is_delivery, is_known, delivery_row, with_deliveries,
  note_webhook, locked, new_run,
}

-- The tables have one run and one command more.
abbrev pub IsAdded : (ℕ → Text) → RepositoryPolicy → NewRun → Database → Text → Database → Type 0
IsAdded id_factory policy n d c d' =
    (d0 : Database) × (d0.runs ≡ d.runs)
    × (d'.runs ≡ d.runs ++ run_row id_factory policy n d0 ∷ [])
    × (d'.events ≡ d.events ++ command_event id_factory policy n d0 ∷ [])
    × (c ≡ (command_row id_factory policy n d0).public_id)

module _ (settings : GithubWebhookSettings) (id_factory : ℕ → Text) (traceparent : Option Text)
    (delivery_id : Text) (received_at : ℕ) (payload : PullRequestPayload) where
  -- The tables with the delivery.
  abbrev pub received : Database → Database
  received d =
      let d0 = draw 1 (locked settings id_factory traceparent delivery_id received_at payload d) in
      note_webhook settings id_factory traceparent delivery_id received_at payload (
        with_deliveries settings id_factory traceparent delivery_id received_at payload
          (d0.deliveries
            ++ delivery_row settings id_factory traceparent delivery_id received_at payload ∷ [])
          d0)

  abbrev pub head_of : Database → Text
  head_of d = resolve_head_sha settings.owner_id payload (received d).deliveries

  abbrev pub upserted : Repository → Database → PullRequest × Bool × Database
  upserted repository d =
      upsert_pull_request settings.owner_id payload id_factory repository.public_id (head_of d)
        received_at delivery_id (received d)

  -- The policy admits the delivery, which is the newest of a pull request that it does not close, and
  -- which is reopened or has no run for the commit.
  abbrev pub IsDue : Database → RepositoryPolicy → Repository → NewRun → Type 0
  IsDue d policy repository n =
      (admitted_policy (received d).policy settings.owner_id settings.installation_id
          payload.repository_id payload.base_ref
        ≡ some policy)
      × (find (is_known settings id_factory traceparent delivery_id received_at payload)
            (received d).policy.repositories
          ≡ some repository)
      × ((upserted repository d).1 ≡ true)
      × (is_closed payload.action ≡ false)
      × (n
          ≡ new_run settings id_factory traceparent delivery_id received_at payload repository
              (upserted repository d).0 (head_of d))

  abbrev pub IsUnreviewed : Database → RepositoryPolicy → NewRun → Type 0
  IsUnreviewed d policy n =
      not (is_reopened payload.action) && any (is_reviewed id_factory policy n) d.runs ≡ false

  abbrev pub IsStarted : Database → Response × Database → Type 0
  IsStarted d (refused status, d') = ⊥
  IsStarted d (accepted duplicate none, d') = (d'.runs ≡ d.runs) × (d'.events ≡ d.events)
  IsStarted d (accepted duplicate (some c), d') =
      (policy : RepositoryPolicy) × (repository : Repository) × (n : NewRun) × IsDue d policy
        repository n
      × IsUnreviewed d policy n
      × IsAdded id_factory policy n d c d'

  abbrev IsCreated : RepositoryPolicy → NewRun → Database → Option Text × Database → Type 0
  IsCreated policy n d (none, d') = (d'.runs ≡ d.runs) × (d'.events ≡ d.events)
  IsCreated policy n d (some c, d') = IsUnreviewed d policy n × IsAdded id_factory policy n d c d'

  create_run-IsCreated :
      (policy : RepositoryPolicy) (n : NewRun) (d : Database)
      → IsCreated policy n d (create_run id_factory policy n (is_reopened payload.action) d)
  unfolding create_run insert_run
  create_run-IsCreated policy n d =
      if_lem (IsCreated policy n d)
        (not (is_reopened payload.action) && any (is_reviewed id_factory policy n) d.runs) _ _
        (λ h. (refl, refl))
        (λ h.
          if_lem (IsCreated policy n d) (any (is_same_generation id_factory policy n d) d.runs) _ _
            (λ k. (refl, refl)) (λ k. (h, (d, refl, refl, refl, refl))))

  abbrev IsOutcome : Database → Option Text × Database → Type 0
  IsOutcome d (none, d') = (d'.runs ≡ d.runs) × (d'.events ≡ d.events)
  IsOutcome d (some c, d') =
      (policy : RepositoryPolicy) × (repository : Repository) × (n : NewRun) × IsDue d policy
        repository n
      × IsUnreviewed d policy n
      × IsAdded id_factory policy n d c d'

  close_delivery-IsStarted :
      (d : Database) (r : Option Text × Database)
      → IsOutcome d r
      → IsStarted d
          (close_delivery settings id_factory traceparent delivery_id received_at payload r)
  close_delivery-IsStarted d (none, d') h = h
  close_delivery-IsStarted d (some c, d') h = h

  upsert_row-frame :
      (repository head : Text) (p : Option PullRequest) (d : Database)
      → (((upsert_row settings.owner_id payload id_factory repository head received_at delivery_id p
              d).2.runs
            ≡ d.runs)
          × ((upsert_row settings.owner_id payload id_factory repository head received_at
                delivery_id p d).2.events
              ≡ d.events))
  upsert_row-frame repository head none d = (refl, refl)
  upsert_row-frame repository head (some p) d =
      if_lem (λ (r : PullRequest × Bool × Database). (r.2.runs ≡ d.runs) × (r.2.events ≡ d.events))
        (is_superseded settings.owner_id payload head p) _ _ (λ _. (refl, refl)) (λ _. (refl, refl))

  upserted-frame :
      (repository : Repository) (d : Database)
      → (((upserted repository d).2.runs ≡ d.runs) × ((upserted repository d).2.events ≡ d.events))
  unfolding upsert_pull_request
  upserted-frame repository d =
      upsert_row-frame repository.public_id (head_of d)
        (find (is_pull_request settings.owner_id payload repository.public_id)
          (received d).pull_requests)
        (received d)

  created-IsOutcome :
      (policy : RepositoryPolicy) (repository : Repository) (n : NewRun) (d d2 : Database)
      → IsDue d policy repository n
      → d2.runs ≡ d.runs
      → d2.events ≡ d.events
      → (r : Option Text × Database) → IsCreated policy n d2 r
      → IsOutcome d r
  created-IsOutcome policy repository n d d2 h e f (none, d') c = (c.0 ∙ e, c.1 ∙ f)
  created-IsOutcome policy repository n d d2 h e f (some x, d') c =
      let (u, (d0, a0, a1, a2, a3)) = c in
      (
        policy,
        repository,
        n,
        h,
        subst
            (λ runs.
              not (is_reopened payload.action) && any (is_reviewed id_factory policy n) runs
              ≡ false)
            e u,
        (
          d0,
          a0 ∙ e,
          a1 ∙ ap (λ runs. runs ++ run_row id_factory policy n d0 ∷ []) e,
          a2 ∙ ap (λ events. events ++ command_event id_factory policy n d0 ∷ []) f,
          a3,
        ),
      )

  start_run-IsOutcome :
      (policy : Option RepositoryPolicy) (repository : Repository) (d d2 : Database)
      → admitted_policy
          (received d).policy
          settings.owner_id
          settings.installation_id
          payload.repository_id
          payload.base_ref
        ≡ policy
      → find
          (is_known settings id_factory traceparent delivery_id received_at payload)
          (received d).policy.repositories
        ≡ some repository
      → (upserted repository d).1 ≡ true
      → d2.runs ≡ d.runs
      → d2.events ≡ d.events
      → IsOutcome d (
          start_run settings id_factory traceparent delivery_id received_at payload policy
            (new_run settings id_factory traceparent delivery_id received_at payload repository
              (upserted repository d).0
              (head_of d))
            d2)
  start_run-IsOutcome none repository d d2 h k u e f = (e, f)
  start_run-IsOutcome (some policy) repository d d2 h k u e f =
      let n =
        new_run settings id_factory traceparent delivery_id received_at payload repository
          (upserted repository d).0 (head_of d) in
      if_lem (IsOutcome d) (is_closed payload.action) _ _ (λ _. (e, f))
        (λ c.
          created-IsOutcome policy repository n d d2 (h, k, u, c, refl) e f _
            (create_run-IsCreated policy n d2))

  receive_for-IsStarted :
      (policy : Option RepositoryPolicy) (repository : Option Repository) (d : Database)
      → admitted_policy
          (received d).policy
          settings.owner_id
          settings.installation_id
          payload.repository_id
          payload.base_ref
        ≡ policy
      → find
          (is_known settings id_factory traceparent delivery_id received_at payload)
          (received d).policy.repositories
        ≡ repository
      → IsStarted d (
          receive_for settings id_factory traceparent delivery_id received_at payload policy
            repository
            (received d))
  receive_for-IsStarted policy none d h k = (refl, refl)
  receive_for-IsStarted policy (some repository) d h k =
      let frame = upserted-frame repository d in
      close_delivery-IsStarted d _ (
        if_lem (IsOutcome d) (upserted repository d).1 _ _
          (λ u. start_run-IsOutcome policy repository d _ h k u frame.0 frame.1) (λ _. frame))

  -- A pull request delivery adds no run and no command, or it answers with the id of the one command
  -- that it adds, with one run. Then the policy admits the repository and the branch, the delivery is
  -- the newest of its pull request and does not close it, the commit has no run yet or the pull
  -- request is reopened, and the run and the command have the budgets of that policy and are for the
  -- commit that the chain of deliveries resolves to.
  pub receive-IsStarted :
      (d : Database)
      → IsStarted d
          (receive_pull_request settings id_factory traceparent delivery_id received_at payload d)
  unfolding receive_pull_request receive_new
  receive-IsStarted d =
      if_lem (IsStarted d)
        (any (is_delivery settings id_factory traceparent delivery_id received_at payload)
          d.deliveries)
        _ _ (λ _. (refl, refl)) (λ _. receive_for-IsStarted _ _ d refl refl)
