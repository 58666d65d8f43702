-- ===== src/Webhooks/Duplicates.antt =====
-- webhooks/github.py: a pull request delivery that arrives again.
use pr_reliability_platform.Prelude.{
  ℕ, Bool, true, Option, none, some, Text, text_eq_refl, ◌≡◌, if_lem, any, find, not, ◌&&◌,
  any-append, or_true, any-update_where, ◌∙◌, Bool-cases, inl, inr,
}
use pr_reliability_platform.Repositories.Tables.{Repository}
use pr_reliability_platform.Repositories.Store.{RepositoryPolicy}
use pr_reliability_platform.Repositories.Ordering.{has_row-lock, lock-has_row, has_row}
use pr_reliability_platform.Webhooks.Tables.{PullRequest, Database, draw, is_closed, is_reopened}
use pr_reliability_platform.Webhooks.Runs.{
  NewRun, insert_run, create_run, is_reviewed, is_same_generation,
}
use pr_reliability_platform.Webhooks.PullRequests.{
  PullRequestPayload, upsert_pull_request, upsert_row, resolve_head_sha, is_superseded,
  is_pull_request,
}
use pr_reliability_platform.Webhooks.Receive.{
  Response, accepted, GithubWebhookSettings, start_run, close_delivery, receive_for, receive_new,
  receive_pull_request, is_delivery, delivery_row,
}

module _ (settings : GithubWebhookSettings) (id_factory : ℕ → Text) (traceparent : Option Text)
    (delivery_id : Text) (received_at : ℕ) (payload : PullRequestPayload) where
  -- The tables have the installation and the delivery.
  unfoldable IsReceived : {A : Type 0} → A × Database → Type 0
  IsReceived r =
      (has_row settings.owner_id settings.installation_id r.1.policy ≡ true)
      × (any (is_delivery settings id_factory traceparent delivery_id received_at payload)
            r.1.deliveries
          ≡ true)

  abbrev IsKept : Database → Type 0
  IsKept d =
      (has_row settings.owner_id settings.installation_id d.policy ≡ true)
      × (any (is_delivery settings id_factory traceparent delivery_id received_at payload)
            d.deliveries
          ≡ true)

  kept : {A : Type 0} (x : A) (d : Database) → IsKept d → IsReceived (x, d)
  unfolding IsReceived
  kept x d h = h

  close_delivery-IsReceived :
      (r : Option Text × Database)
      → IsReceived r
      → IsReceived
          (close_delivery settings id_factory traceparent delivery_id received_at payload r)
  unfolding IsReceived
  close_delivery-IsReceived (c, d) h = (
    h.0,
    any-update_where (is_delivery settings id_factory traceparent delivery_id received_at payload)
          (is_delivery settings id_factory traceparent delivery_id received_at payload)
          (is_delivery settings id_factory traceparent delivery_id received_at payload)
          (λ e. record e { command_public_id = c }) d.deliveries
          (λ e.
            elim (Bool-cases
              (is_delivery settings id_factory traceparent delivery_id received_at payload e)) [
                | inl k ↦ simp k
                | inr k ↦ simp k
              ])
        ∙ h.1,
  )

  create_run-IsReceived :
      (policy : RepositoryPolicy) (n : NewRun) (force_new : Bool) (d : Database)
      → IsKept d
      → IsReceived (create_run id_factory policy n force_new d)
  unfolding create_run insert_run
  create_run-IsReceived policy n force_new d h =
      if_lem (λ (r : Option Text × Database). IsReceived r)
        (not force_new && any (is_reviewed id_factory policy n) d.runs) _ _ (λ _. kept _ _ h)
        (λ _.
          if_lem (λ (r : Option Text × Database). IsReceived r)
            (any (is_same_generation id_factory policy n d) d.runs) _ _ (λ _. kept _ _ h)
            (λ _. kept _ _ h))

  start_run-IsReceived :
      (policy : Option RepositoryPolicy) (n : NewRun) (d : Database)
      → IsKept d
      → IsReceived
          (start_run settings id_factory traceparent delivery_id received_at payload policy n d)
  start_run-IsReceived none n d h = kept _ _ h
  start_run-IsReceived (some policy) n d h =
      if_lem (λ (r : Option Text × Database). IsReceived r) (is_closed payload.action) _ _
        (λ _. kept _ _ h) (λ _. create_run-IsReceived policy n (is_reopened payload.action) d h)

  upsert_row-IsKept :
      (repository head : Text) (p : Option PullRequest) (d : Database)
      → IsKept d
      → IsKept
          (upsert_row settings.owner_id payload id_factory repository head received_at delivery_id p
            d).2
  upsert_row-IsKept repository head none d h = h
  upsert_row-IsKept repository head (some p) d h =
      if_lem (λ (r : PullRequest × Bool × Database). IsKept r.2)
        (is_superseded settings.owner_id payload head p) _ _ (λ _. h) (λ _. h)

  receive_for-IsReceived :
      (policy : Option RepositoryPolicy) (repository : Option Repository) (d : Database)
      → IsKept d
      → IsReceived (
          receive_for settings id_factory traceparent delivery_id received_at payload policy
            repository d)
  unfolding upsert_pull_request
  receive_for-IsReceived policy none d h = kept _ _ h
  receive_for-IsReceived policy (some repository) d h =
      let head = resolve_head_sha settings.owner_id payload d.deliveries in
      let p =
        find (is_pull_request settings.owner_id payload repository.public_id) d.pull_requests in
      let upserted =
        upsert_row settings.owner_id payload id_factory repository.public_id head received_at
          delivery_id p d in
      let k = upsert_row-IsKept repository.public_id head p d h in
      close_delivery-IsReceived _ (
        if_lem (λ (r : Option Text × Database). IsReceived r) upserted.1 _ _
          (λ _. start_run-IsReceived policy _ _ k) (λ _. kept _ _ k))

  delivery_row-is_delivery :
      is_delivery settings id_factory traceparent delivery_id received_at payload
        (delivery_row settings id_factory traceparent delivery_id received_at payload)
      ≡ true
  delivery_row-is_delivery = simp (text_eq_refl settings.owner_id, text_eq_refl delivery_id)

  receive_pull_request-IsReceived :
      (d : Database)
      → IsReceived
          (receive_pull_request settings id_factory traceparent delivery_id received_at payload d)
  unfolding receive_pull_request receive_new
  receive_pull_request-IsReceived d =
      let row = has_row-lock settings.owner_id settings.installation_id d.policy in
      if_lem (λ (r : Response × Database). IsReceived r)
        (any (is_delivery settings id_factory traceparent delivery_id received_at payload)
          d.deliveries)
        _ _ (λ h. kept _ _ (row, h))
        (λ h. receive_for-IsReceived _ _ _ (
          row,
          any-append (is_delivery settings id_factory traceparent delivery_id received_at payload)
                d.deliveries _
              ∙ simp (delivery_row-is_delivery, or_true),
        ))

  IsReceived-IsKept : {A : Type 0} (r : A × Database) → IsReceived r → IsKept r.1
  unfolding IsReceived
  IsReceived-IsKept r h = h

  receive-kept :
      (d : Database) (again : PullRequestPayload) (at : ℕ) (trace : Option Text)
      → IsKept d
      → receive_pull_request settings id_factory trace delivery_id at again d
        ≡ (accepted true none, draw 1 d)
  unfolding receive_pull_request
  receive-kept d again at trace h =
      simp (lock-has_row settings.owner_id settings.installation_id d.policy h.0, h.1)

  -- The delivery is in the tables when it is answered.
  pub receive-recorded :
      (d : Database)
      → any
          (is_delivery settings id_factory traceparent delivery_id received_at payload)
          (receive_pull_request settings id_factory traceparent delivery_id received_at payload
            d).1.deliveries
        ≡ true
  receive-recorded d = (IsReceived-IsKept _ (receive_pull_request-IsReceived d)).1

  -- A pull request delivery with the id of one that was answered before is answered as a duplicate
  -- without a command and changes no table, whatever its payload, its time and the trace of the
  -- request are: only one ULID more is drawn.
  pub receive_pull_request_again :
      (d : Database) (again : PullRequestPayload) (at : ℕ) (trace : Option Text)
      → let d1 =
          (receive_pull_request settings id_factory traceparent delivery_id received_at payload
            d).1 in
        receive_pull_request settings id_factory trace delivery_id at again d1
        ≡ (accepted true none, draw 1 d1)
  receive_pull_request_again d again at trace =
      receive-kept _ again at trace (IsReceived-IsKept _ (receive_pull_request-IsReceived d))
