-- ===== src/Webhooks/Reruns.antt =====
-- webhooks/checks.py: what the run of a check that is requested again rests on.
use mathlib.Core.Path.{subst, sym, ap, ◌∙◌}
use pr_reliability_platform.Prelude.{
  ℕ, true, Option, none, some, List, [], ◌∷◌, ◌++◌, Text, codes, text_eq, text_eq→eq, ◌≡◌, refl,
  if_lem, any, find, find-holds, not, ◌==◌, ==_iff, ◌||◌, and_right, OnSome, OnSome-map, and_left,
  OnSome->>=, Any, inl, inr,
}
use pr_reliability_platform.Repositories.Store.{
  RepositoryPolicy, admitted_policy, lock_installation,
}
use pr_reliability_platform.Starts.Tables.{is_run}
use pr_reliability_platform.Webhooks.Tables.{
  PullRequest, CheckRun, Database, draw, is_open, latest_generation,
}
use pr_reliability_platform.Webhooks.Runs.{insert_run}
use pr_reliability_platform.Webhooks.Receive.{Response, accepted, refused, GithubWebhookSettings}
use pr_reliability_platform.Webhooks.Checks.{
  CheckRunPayload, Target, is_check_run, is_checked, is_checked_repository, target_of, or_target,
  first_target, locked_rerun_target, rerun_of, is_latest, create_rerun, rerun_target,
  is_rerun_delivery, rerun_row, close_rerun, rerun_check, rerun_named, is_rerun_action,
  rerun_for_app, receive_check_rerun, external_id_groups,
}
use pr_reliability_platform.Webhooks.Starting.{IsAdded}

module _ (settings : GithubWebhookSettings) (id_factory : ℕ → Text) (traceparent : Option Text)
    (delivery_id : Text) (received_at : ℕ) (payload : CheckRunPayload) where
  -- The target is the join of the rows of the tables for a completed check of the payload's commit: the
  -- run that the check is on, the pull request of the check with this public id, and its repository.
  abbrev pub IsCheckOf : Text → Database → Target → CheckRun → Type 0
  IsCheckOf public_id d t c =
      (is_check_run settings id_factory traceparent delivery_id received_at payload c ≡ true)
      × (find (is_run c.owner_id c.current_run_id) d.runs ≡ some t.current)
      × (find
            (is_checked settings id_factory traceparent delivery_id received_at payload public_id c)
            d.pull_requests
          ≡ some t.pull_request)
      × (find
            (is_checked_repository settings id_factory traceparent delivery_id received_at payload c
              t.pull_request)
            d.policy.repositories
          ≡ some t.repository)

  -- The tables with the policy locked and the delivery.
  abbrev pub received : Database → Database
  received d =
      let d0 = draw 1 (record d {
        policy = lock_installation settings.owner_id settings.installation_id d.policy;
      }) in
      record d0 {
        rerun_deliveries =
            d0.rerun_deliveries
            ++ rerun_row settings id_factory traceparent delivery_id received_at payload ∷ [];
      }

  -- The target is of the pull request that the external id names, of the run of a completed check, and
  -- that run is the newest of an open pull request whose head is the commit of the payload.
  abbrev pub IsRerunnable : Database → RepositoryPolicy → Target → Type 0
  IsRerunnable d policy t =
      (external_id_groups payload.external_id ≡ some (t.pull_request.public_id, payload.head_sha))
      × Any (IsCheckOf t.pull_request.public_id (received d) t) d.check_runs
      × (admitted_policy (received d).policy settings.owner_id settings.installation_id
            payload.repository_id t.current.base_branch
          ≡ some policy)
      × (is_open t.pull_request.state ≡ true)
      × (t.pull_request.head_sha ≡ payload.head_sha)
      × (t.current.generation ≡ latest_generation t.pull_request.id d.runs)

  abbrev pub IsRerun : Database → Response × Database → Type 0
  IsRerun d (refused status, d') = d' ≡ d
  IsRerun d (accepted duplicate none, d') = (d'.runs ≡ d.runs) × (d'.events ≡ d.events)
  IsRerun d (accepted duplicate (some c), d') =
      (policy : RepositoryPolicy) × (t : Target) × IsRerunnable d policy t
      × IsAdded id_factory policy
          (rerun_of settings id_factory traceparent delivery_id received_at payload t) d c d'

  abbrev IsOutcome : Database → Option Text × Database → Type 0
  IsOutcome d (none, d') = (d'.runs ≡ d.runs) × (d'.events ≡ d.events)
  IsOutcome d (some c, d') =
      (policy : RepositoryPolicy) × (t : Target) × IsRerunnable d policy t
      × IsAdded id_factory policy
          (rerun_of settings id_factory traceparent delivery_id received_at payload t) d c d'

  close_rerun-IsRerun :
      (d : Database) (r : Option Text × Database)
      → IsOutcome d r
      → IsRerun d (close_rerun settings id_factory traceparent delivery_id received_at payload r)
  close_rerun-IsRerun d (none, d') h = h
  close_rerun-IsRerun d (some c, d') h = h

  abbrev IsFound : Text → Database → Target → CheckRun → Type 0
  IsFound public_id d t c = IsCheckOf public_id d t c × (t.pull_request.public_id ≡ public_id)

  or_target_lem :
      (P : Target → Type 0) (a b : Option Target)
      → OnSome P a
      → OnSome P b
      → OnSome P (or_target settings id_factory traceparent delivery_id received_at payload a b)
  or_target_lem P none b h k = k
  or_target_lem P (some t) b h k = h

  is_checked-public_id :
      (public_id : Text) (c : CheckRun) (p : PullRequest)
      → is_checked settings id_factory traceparent delivery_id received_at payload public_id c p
        ≡ true
      → p.public_id ≡ public_id
  is_checked-public_id public_id c p h =
      text_eq→eq p.public_id public_id (and_right _ _ (and_right _ _ h))

  target_of-IsFound :
      (public_id : Text) (d : Database) (c : CheckRun)
      → OnSome
          (λ t. IsFound public_id d t c)
          (target_of settings id_factory traceparent delivery_id received_at payload public_id d c)
  target_of-IsFound public_id d c =
      let P = λ (t : Target). IsFound public_id d t c in
      if_lem (OnSome P)
        (is_check_run settings id_factory traceparent delivery_id received_at payload c) _ _
        (λ k. OnSome->>= P (find (is_run c.owner_id c.current_run_id) d.runs) _ (λ current e.
          OnSome->>= P
            (find
              (is_checked settings id_factory traceparent delivery_id received_at payload public_id
                c)
              d.pull_requests)
            _
            (λ p f.
              OnSome->>= P
                (find
                  (is_checked_repository settings id_factory traceparent delivery_id received_at
                    payload c p)
                  d.policy.repositories)
                _
                (λ r g. (
                  (k, e, f, g),
                  is_checked-public_id public_id c p (find-holds _ d.pull_requests p f),
                )))))
        (λ _. tt)

  first_target-IsFound :
      (public_id : Text) (d : Database) (cs : List CheckRun)
      → OnSome
          (λ t. Any (IsFound public_id d t) cs)
          (first_target settings id_factory traceparent delivery_id received_at payload public_id d
            cs)
  first_target-IsFound public_id d [] = tt
  first_target-IsFound public_id d (c ∷ cs) =
      let first =
        target_of settings id_factory traceparent delivery_id received_at payload public_id d c in
      let rest =
        first_target settings id_factory traceparent delivery_id received_at payload public_id d
          cs in
      let P = λ (t : Target). Any (IsFound public_id d t) (c ∷ cs) in
      or_target_lem P first rest
        (OnSome-map (λ t. IsFound public_id d t c) P (λ t h. inl h) first
          (target_of-IsFound public_id d c))
        (OnSome-map (λ t. Any (IsFound public_id d t) cs) P (λ t h. inr h) rest
          (first_target-IsFound public_id d cs))

  found_id :
      (public_id : Text) (d : Database) (t : Target) (cs : List CheckRun)
      → Any (IsFound public_id d t) cs
      → t.pull_request.public_id ≡ public_id
  found_id public_id d t [] h = absurd h
  found_id public_id d t (c ∷ cs) (inl h) = h.1
  found_id public_id d t (c ∷ cs) (inr h) = found_id public_id d t cs h

  found_check :
      (public_id : Text) (d : Database) (t : Target) (cs : List CheckRun)
      → Any (IsFound public_id d t) cs
      → Any (IsCheckOf public_id d t) cs
  found_check public_id d t [] h = absurd h
  found_check public_id d t (c ∷ cs) (inl h) = inl h.0
  found_check public_id d t (c ∷ cs) (inr h) = inr (found_check public_id d t cs h)

  is_latest-parts :
      (t : Target) (d : Database)
      → is_latest settings id_factory traceparent delivery_id received_at payload t d ≡ true
      → ((is_open t.pull_request.state ≡ true)
          × (t.pull_request.head_sha ≡ payload.head_sha)
          × (t.current.generation ≡ latest_generation t.pull_request.id d.runs))
  is_latest-parts t d h =
      let k = and_right (is_open t.pull_request.state) _ h in
      (
        and_left _ _ h,
        text_eq→eq t.pull_request.head_sha payload.head_sha (and_left _ _ k),
        (==_iff t.current.generation (latest_generation t.pull_request.id d.runs)).0
            (and_right _ _ k),
      )

  create_rerun-IsOutcome :
      (public_id : Text) (t : Target) (policy : Option RepositoryPolicy) (d : Database)
      → external_id_groups payload.external_id ≡ some (public_id, payload.head_sha)
      → Any (IsFound public_id (received d) t) d.check_runs
      → admitted_policy
          (received d).policy
          settings.owner_id
          settings.installation_id
          payload.repository_id
          t.current.base_branch
        ≡ policy
      → IsOutcome d (
          create_rerun settings id_factory traceparent delivery_id received_at payload policy t
            (received d))
  unfolding insert_run
  create_rerun-IsOutcome public_id t none d e h k = (refl, refl)
  create_rerun-IsOutcome public_id t (some policy) d e h k =
      if_lem (IsOutcome d)
        (is_latest settings id_factory traceparent delivery_id received_at payload t (received d)) _
        _
        (λ l.
          let same = found_id public_id (received d) t d.check_runs h in
          let latest = is_latest-parts t (received d) l in
          (
            policy,
            t,
            (
              e ∙ ap (λ id. some (id, payload.head_sha)) (sym same),
              subst (λ id. Any (IsCheckOf id (received d) t) d.check_runs) (sym same)
                  (found_check public_id (received d) t d.check_runs h),
              k,
              latest.0,
              latest.1,
              latest.2,
            ),
            (received d, refl, refl, refl, refl),
          ))
        (λ _. (refl, refl))

  rerun_target-IsOutcome :
      (public_id : Text) (t : Option Target) (d : Database)
      → external_id_groups payload.external_id ≡ some (public_id, payload.head_sha)
      → OnSome (λ t. Any (IsFound public_id (received d) t) d.check_runs) t
      → IsOutcome d (
          rerun_target settings id_factory traceparent delivery_id received_at payload t
            (received d))
  rerun_target-IsOutcome public_id none d e h = (refl, refl)
  rerun_target-IsOutcome public_id (some t) d e h = create_rerun-IsOutcome public_id t _ d e h refl

  rerun_check-IsRerun :
      (public_id : Text) (d : Database)
      → external_id_groups payload.external_id ≡ some (public_id, payload.head_sha)
      → IsRerun d
          (rerun_check settings id_factory traceparent delivery_id received_at payload public_id d)
  unfolding rerun_check locked_rerun_target
  rerun_check-IsRerun public_id d e =
      if_lem (IsRerun d)
        (any (is_rerun_delivery settings id_factory traceparent delivery_id received_at payload)
          d.rerun_deliveries)
        _ _ (λ _. (refl, refl))
        (λ _. close_rerun-IsRerun d _ (
          rerun_target-IsOutcome public_id
            (first_target settings id_factory traceparent delivery_id received_at payload public_id
              (received d) d.check_runs)
            d e (first_target-IsFound public_id (received d) d.check_runs)))

  rerun_named-IsRerun :
      (groups : Option (Text × Text)) (d : Database)
      → external_id_groups payload.external_id ≡ groups
      → IsRerun d
          (rerun_named settings id_factory traceparent delivery_id received_at payload groups d)
  rerun_named-IsRerun none d e = refl
  rerun_named-IsRerun (some (public_id, sha)) d e =
      if_lem (IsRerun d) (text_eq sha payload.head_sha) _ _
        (λ h.
          rerun_check-IsRerun public_id d
            (e ∙ ap (λ s. some (public_id, s)) (text_eq→eq sha payload.head_sha h)))
        (λ _. refl)

  rerun_for_app-IsRerun :
      (app_id : Option ℕ) (d : Database)
      → IsRerun d
          (rerun_for_app settings id_factory traceparent delivery_id received_at payload app_id d)
  rerun_for_app-IsRerun none d = refl
  rerun_for_app-IsRerun (some app_id) d =
      if_lem (IsRerun d)
        (not (payload.app_id == app_id)
          || not (text_eq payload.name (codes "PR Reliability review")))
        _ _ (λ _. (refl, refl))
        (λ _.
          if_lem (IsRerun d)
            (not (
              is_rerun_action settings id_factory traceparent delivery_id received_at payload
                payload.action))
            _ _ (λ _. (refl, refl))
            (λ _. rerun_named-IsRerun (external_id_groups payload.external_id) d refl))

  -- A request to run a check again that is refused changes no table. One that is accepted adds no run
  -- and no command, or it answers with the id of the one command that it adds, with one run. Then the
  -- external id names the pull request and the commit; a completed check for that commit is in the
  -- tables; the pull request of the check, as it is in the tables, is open with that head; the run of
  -- the check, as it is in the tables, has the latest generation of the pull request; and the run and
  -- the command are for them, with the budgets of the policy that admits them.
  pub receive-IsRerun :
      (d : Database)
      → IsRerun d
          (receive_check_rerun settings id_factory traceparent delivery_id received_at payload d)
  unfolding receive_check_rerun
  receive-IsRerun d = rerun_for_app-IsRerun settings.app_id d
