-- ===== src/Webhooks/Staleness.antt =====
-- webhooks/github.py: deliveries that come out of order.
use mathlib.Core.Path.{subst, sym}
use pr_reliability_platform.Prelude.{
  ℕ, ◌≤◌, ◌<◌, Bool, true, false, Option, none, some, List, [], ◌∷◌, ◌++◌, Text, ◌≡◌, refl, arith,
  if_lem, any, find, not, ◌&&◌, update_where, and_right, ◌||◌,
}
use pr_reliability_platform.Repositories.Tables.{Repository}
use pr_reliability_platform.Repositories.Store.{RepositoryPolicy}
use pr_reliability_platform.Webhooks.Tables.{PullRequest, Database, is_closed, is_reopened}
use pr_reliability_platform.Webhooks.Runs.{
  NewRun, insert_run, create_run, is_reviewed, is_same_generation,
}
use pr_reliability_platform.Webhooks.PullRequests.{
  PullRequestPayload, upsert_pull_request, upsert_row, updated_row, resolve_head_sha, is_superseded,
  is_pull_request, is_older, is_same_time,
}
use pr_reliability_platform.Webhooks.Receive.{
  Response, accepted, GithubWebhookSettings, start_run, receive_for, receive_new,
  receive_pull_request, is_delivery, is_known,
}
use pr_reliability_platform.Webhooks.Starting.{received}
use pr_reliability_platform.Webhooks.Duplicates.{receive-recorded}

abbrev pub IsAfter : Option ℕ → Option ℕ → Type 0
IsAfter none after = Unit
IsAfter (some t) none = ⊥
IsAfter (some t) (some u) = t ≤ u

-- The same pull request at the same time or later.
abbrev pub IsNewer : PullRequest → PullRequest → Type 0
IsNewer p q =
    (q.id ≡ p.id)
    × (q.public_id ≡ p.public_id)
    × (q.repository_id ≡ p.repository_id)
    × (q.github_number ≡ p.github_number)
    × IsAfter p.github_updated_at q.github_updated_at

abbrev pub IsForward : List PullRequest → List PullRequest → Type 0
IsForward [] after = Unit
IsForward (p ∷ before) [] = ⊥
IsForward (p ∷ before) (q ∷ after) = IsNewer p q × IsForward before after

IsAfter-refl : (t : Option ℕ) → IsAfter t t
IsAfter-refl none = tt
IsAfter-refl (some t) = omega arith

IsForward-refl : (ps : List PullRequest) → IsForward ps ps
IsForward-refl [] = tt
IsForward-refl (p ∷ ps) =
    ((refl, refl, refl, refl, IsAfter-refl p.github_updated_at), IsForward-refl ps)

IsForward-append : (ps qs : List PullRequest) → IsForward ps (ps ++ qs)
IsForward-append [] qs = tt
IsForward-append (p ∷ ps) qs =
    ((refl, refl, refl, refl, IsAfter-refl p.github_updated_at), IsForward-append ps qs)

module _ (owner_id : Text) (payload : PullRequestPayload) where
  older-IsAfter :
      (t : Option ℕ) (a s b : Bool)
      → is_older owner_id payload t
          || (is_same_time owner_id payload t && a || s && (is_same_time owner_id payload t && b))
        ≡ true
      → IsAfter t (some payload.updated_at)
  older-IsAfter none a s b h = tt
  older-IsAfter (some t) a s b h = ground arith

  later-false :
      (t : ℕ) (a s b : Bool)
      → payload.updated_at < t
      → is_older owner_id payload (some t)
          || (is_same_time owner_id payload (some t) && a
              || s && (is_same_time owner_id payload (some t) && b))
        ≡ false
  later-false t a s b h = ground arith

  is_superseded-IsAfter :
      (head : Text) (p : PullRequest)
      → is_superseded owner_id payload head p ≡ true
      → IsAfter p.github_updated_at (some payload.updated_at)
  is_superseded-IsAfter head p h = older-IsAfter p.github_updated_at _ _ _ h

  updated-IsForward :
      (repository head : Text) (received_at : ℕ) (delivery_id : Text) (ps : List PullRequest)
      → IsForward ps (
          update_where
            (λ q.
              is_pull_request owner_id payload repository q
              && is_superseded owner_id payload head q)
            (updated_row owner_id payload head received_at delivery_id)
            ps)
  updated-IsForward repository head received_at delivery_id [] = tt
  updated-IsForward repository head received_at delivery_id (p ∷ ps) = (
    if_lem (IsNewer p)
        (is_pull_request owner_id payload repository p && is_superseded owner_id payload head p) _ _
        (λ h. (refl, refl, refl, refl, is_superseded-IsAfter head p (and_right _ _ h)))
        (λ h. (refl, refl, refl, refl, IsAfter-refl p.github_updated_at)),
    updated-IsForward repository head received_at delivery_id ps,
  )

  stale-is_superseded :
      (head : Text) (p : PullRequest) (t : ℕ)
      → p.github_updated_at ≡ some t
      → payload.updated_at < t
      → is_superseded owner_id payload head p ≡ false
  stale-is_superseded head p t e h = simp e (later-false t _ _ _ h)

module _ (settings : GithubWebhookSettings) (id_factory : ℕ → Text) (traceparent : Option Text)
    (delivery_id : Text) (received_at : ℕ) (payload : PullRequestPayload) where
  create_run-pull_requests :
      (policy : RepositoryPolicy) (n : NewRun) (force_new : Bool) (d : Database)
      → (create_run id_factory policy n force_new d).1.pull_requests ≡ d.pull_requests
  unfolding create_run insert_run
  create_run-pull_requests policy n force_new d =
      if_lem (λ (r : Option Text × Database). r.1.pull_requests ≡ d.pull_requests)
        (not force_new && any (is_reviewed id_factory policy n) d.runs) _ _ (λ _. refl)
        (λ _.
          if_lem (λ (r : Option Text × Database). r.1.pull_requests ≡ d.pull_requests)
            (any (is_same_generation id_factory policy n d) d.runs) _ _ (λ _. refl) (λ _. refl))

  start_run-pull_requests :
      (policy : Option RepositoryPolicy) (n : NewRun) (d : Database)
      → (start_run settings id_factory traceparent delivery_id received_at payload policy n
          d).1.pull_requests
        ≡ d.pull_requests
  start_run-pull_requests none n d = refl
  start_run-pull_requests (some policy) n d =
      if_lem (λ (r : Option Text × Database). r.1.pull_requests ≡ d.pull_requests)
        (is_closed payload.action) _ _ (λ _. refl)
        (λ _. create_run-pull_requests policy n (is_reopened payload.action) d)

  upsert_row-IsForward :
      (repository head : Text) (p : Option PullRequest) (d : Database)
      → IsForward d.pull_requests
          (upsert_row settings.owner_id payload id_factory repository head received_at delivery_id p
            d).2.pull_requests
  upsert_row-IsForward repository head none d = IsForward-append d.pull_requests _
  upsert_row-IsForward repository head (some p) d =
      if_lem (λ (r : PullRequest × Bool × Database). IsForward d.pull_requests r.2.pull_requests)
        (is_superseded settings.owner_id payload head p) _ _
        (λ _.
          updated-IsForward settings.owner_id payload repository head received_at delivery_id
            d.pull_requests)
        (λ _. IsForward-refl d.pull_requests)

  receive_for-IsForward :
      (policy : Option RepositoryPolicy) (repository : Option Repository) (d : Database)
      → IsForward d.pull_requests
          (receive_for settings id_factory traceparent delivery_id received_at payload policy
            repository d).1.pull_requests
  unfolding upsert_pull_request
  receive_for-IsForward policy none d = IsForward-refl d.pull_requests
  receive_for-IsForward policy (some repository) d =
      let head = resolve_head_sha settings.owner_id payload d.deliveries in
      let p =
        find (is_pull_request settings.owner_id payload repository.public_id) d.pull_requests in
      let u =
        upsert_row settings.owner_id payload id_factory repository.public_id head received_at
          delivery_id p d in
      subst (IsForward d.pull_requests)
        (sym (
          if_lem (λ (r : Option Text × Database). r.1.pull_requests ≡ u.2.pull_requests) u.1 _ _
            (λ _. start_run-pull_requests policy _ _) (λ _. refl)))
        (upsert_row-IsForward repository.public_id head p d)

  -- After a pull request delivery, each pull request of the tables is still in its place, with its
  -- ids, its number and its repository, and with a GitHub time that is not before the one that it had.
  pub receive-IsForward :
      (d : Database)
      → IsForward d.pull_requests
          (receive_pull_request settings id_factory traceparent delivery_id received_at payload
            d).1.pull_requests
  unfolding receive_pull_request receive_new
  receive-IsForward d =
      if_lem (λ (r : Response × Database). IsForward d.pull_requests r.1.pull_requests)
        (any (is_delivery settings id_factory traceparent delivery_id received_at payload)
          d.deliveries)
        _ _ (λ _. IsForward-refl d.pull_requests) (λ _. receive_for-IsForward _ _ _)

  -- The answer has no command, and no pull request, run or event is added or changed.
  abbrev pub IsIgnored : Database → Response × Database → Type 0
  IsIgnored d (accepted duplicate none, d') =
      (d'.pull_requests ≡ d.pull_requests) × (d'.runs ≡ d.runs) × (d'.events ≡ d.events)
  IsIgnored d (_, d') = ⊥

  receive_for-IsIgnored :
      (policy : Option RepositoryPolicy) (repository : Repository) (p : PullRequest) (t : ℕ)
      (d : Database)
      → find (is_pull_request settings.owner_id payload repository.public_id) d.pull_requests
        ≡ some p
      → p.github_updated_at ≡ some t
      → payload.updated_at < t
      → IsIgnored d (
          receive_for settings id_factory traceparent delivery_id received_at payload policy
            (some repository)
            d)
  unfolding upsert_pull_request
  receive_for-IsIgnored policy repository p t d h k l =
      let head = resolve_head_sha settings.owner_id payload d.deliveries in
      simp (h, stale-is_superseded settings.owner_id payload head p t k l) (refl, refl, refl)

  receive-IsIgnored :
      (d : Database) (repository : Repository) (p : PullRequest) (t : ℕ)
      → find
          (is_known settings id_factory traceparent delivery_id received_at payload)
          (received settings id_factory traceparent delivery_id received_at payload
            d).policy.repositories
        ≡ some repository
      → find (is_pull_request settings.owner_id payload repository.public_id) d.pull_requests
        ≡ some p
      → p.github_updated_at ≡ some t
      → payload.updated_at < t
      → IsIgnored d
          (receive_pull_request settings id_factory traceparent delivery_id received_at payload d)
  unfolding receive_pull_request receive_new
  receive-IsIgnored d repository p t k h e l =
      if_lem (IsIgnored d)
        (any (is_delivery settings id_factory traceparent delivery_id received_at payload)
          d.deliveries)
        _ _ (λ _. (refl, refl, refl)) (λ _. simp k (receive_for-IsIgnored _ repository p t _ h e l))

  -- A delivery for a known repository that is older than what the tables have of its pull request is
  -- recorded, but adds no run and no command and leaves the pull request as it is.
  pub receive-stale :
      (d : Database) (repository : Repository) (p : PullRequest) (t : ℕ)
      → find
          (is_known settings id_factory traceparent delivery_id received_at payload)
          (received settings id_factory traceparent delivery_id received_at payload
            d).policy.repositories
        ≡ some repository
      → find (is_pull_request settings.owner_id payload repository.public_id) d.pull_requests
        ≡ some p
      → p.github_updated_at ≡ some t
      → payload.updated_at < t
      → IsIgnored d
          (receive_pull_request settings id_factory traceparent delivery_id received_at payload d)
        × (any
              (is_delivery settings id_factory traceparent delivery_id received_at payload)
              (receive_pull_request settings id_factory traceparent delivery_id received_at payload
                d).1.deliveries
            ≡ true)
  receive-stale d repository p t k h e l = (
    receive-IsIgnored d repository p t k h e l,
    receive-recorded settings id_factory traceparent delivery_id received_at payload d,
  )
