-- ===== src/Starts/Admission.antt =====
-- dispatch.py: which runs are started.
use pr_reliability_platform.Prelude.{
  ℕ, Bool, true, false, Option, none, some, [], text_eq, not, ◌≤◌, ◌≡◌, refl, All, All-map, if_lem,
  not-false, arith,
}
use pr_reliability_platform.Starts.Tables.{Database, RunEvent}
use pr_reliability_platform.Starts.Dispatch.{
  Pending, Start, Dispatched, next_pending, dispatch_next_command, dispatch_pending, start_pending,
  is_terminal, lock_policy, policy_for, is_blocked, same_identity, dispatch_start_run,
  dispatch_found,
}
use pr_reliability_platform.Repositories.Store.{
  RepositoryPolicy, admitted_policy, lock_installation,
}

-- A start that the command, the row of its run and the policy allow.
abbrev pub IsAdmitted : Database → Pending → Start → Type 0
IsAdmitted d p s =
    (s ≡ dispatch_start_run p.command)
    × (text_eq s.request.run_id p.run.public_id ≡ true)
    × (text_eq s.request.head_sha p.run.head_sha ≡ true)
    × (s.request.generation ≡ p.run.generation)
    × (is_terminal p.run.state ≡ false)
    × ((installation_id : ℕ) × (policy : RepositoryPolicy) × (p.repository.installation_id
          ≡ some installation_id)
        × (admitted_policy (lock_installation p.event.owner_id installation_id d.policy)
              p.event.owner_id installation_id p.repository.github_repository_id p.run.base_branch
            ≡ some policy)
        × (s.request.token_budget ≤ policy.token_budget)
        × (s.request.cost_budget_usd_micros ≤ policy.cost_budget_usd_micros))

abbrev IsWithin : Pending → RepositoryPolicy → Type 0
IsWithin p policy =
    (p.command.token_budget ≤ policy.token_budget)
    × (p.command.cost_budget_usd_micros ≤ policy.cost_budget_usd_micros)

blocked-IsWithin :
    (p : Pending) (policy : RepositoryPolicy)
    → same_identity p ≡ true
    → is_blocked p.run (some policy) ≡ false
    → IsWithin p policy
blocked-IsWithin p policy i h = (ground arith, ground arith)

unblocked :
    (p : Pending) (d : Database) (o : Option ℕ)
    → p.repository.installation_id ≡ o
    → (q : Option RepositoryPolicy) → policy_for p o (lock_policy p.event.owner_id o d) ≡ q
    → is_blocked p.run q ≡ false
    → (installation_id : ℕ) × (policy : RepositoryPolicy) × (p.repository.installation_id
        ≡ some installation_id)
      × (admitted_policy
            (lock_installation p.event.owner_id installation_id d.policy)
            p.event.owner_id
            installation_id
            p.repository.github_repository_id
            p.run.base_branch
          ≡ some policy)
      × (is_blocked p.run (some policy) ≡ false)
unblocked p d none e none q h = ground arith
unblocked p d none e (some policy) q h = ground arith
unblocked p d (some i) e none q h = ground arith
unblocked p d (some i) e (some policy) q h = (i, policy, e, q, h)

identity-run_id :
    (p : Pending) → same_identity p ≡ true → text_eq p.command.run_id p.run.public_id ≡ true
identity-run_id p h = ground arith

identity-head_sha :
    (p : Pending) → same_identity p ≡ true → text_eq p.command.head_sha p.run.head_sha ≡ true
identity-head_sha p h = ground arith

identity-generation :
    (p : Pending) → same_identity p ≡ true → p.command.generation ≡ p.run.generation
identity-generation p h = ground arith

module _ (starts_in_time : Start → Bool) (locked : RunEvent → Bool) (d : Database) where
  abbrev AllAdmitted : Pending → Dispatched → Type 0
  AllAdmitted p r = All (IsAdmitted d p) r.starts

  start_pending-IsAdmitted :
      (p : Pending) (e : Database)
      → IsAdmitted d p (dispatch_start_run p.command)
      → AllAdmitted p (start_pending starts_in_time locked p d e)
  unfolding start_pending
  start_pending-IsAdmitted p e h =
      if_lem (AllAdmitted p) (starts_in_time (dispatch_start_run p.command)) _ _ (λ k. (h, tt))
        (λ k. (h, tt))

  command-IsAdmitted :
      (p : Pending)
      → same_identity p ≡ true
      → is_terminal p.run.state ≡ false
      → is_blocked p.run (
          policy_for p p.repository.installation_id
            (lock_policy p.event.owner_id p.repository.installation_id d))
        ≡ false
      → IsAdmitted d p (dispatch_start_run p.command)
  command-IsAdmitted p i t b =
      let (installation_id, policy, e, q, h) =
        unblocked p d p.repository.installation_id refl _ refl b in
      let within = blocked-IsWithin p policy i h in
      (
        refl,
        identity-run_id p i,
        identity-head_sha p i,
        identity-generation p i,
        t,
        (installation_id, policy, e, q, within.0, within.1),
      )

  dispatch_pending-IsAdmitted :
      (p : Pending) → AllAdmitted p (dispatch_pending starts_in_time locked p d)
  unfolding dispatch_pending
  dispatch_pending-IsAdmitted p =
      if_lem (AllAdmitted p) (not (same_identity p)) _ _ (λ e. tt)
        (λ i.
          if_lem (AllAdmitted p) (is_terminal p.run.state) _ _ (λ e. tt)
            (λ t.
              if_lem (AllAdmitted p)
                (is_blocked p.run (
                  policy_for p p.repository.installation_id
                    (lock_policy p.event.owner_id p.repository.installation_id d)))
                _ _ (λ e. tt)
                (λ b. start_pending-IsAdmitted p _ (command-IsAdmitted p (not-false _ i) t b))))

  dispatch_found-IsAdmitted :
      (o : Option Pending)
      → All
          (λ s. (p : Pending) × (o ≡ some p) × IsAdmitted d p s)
          (dispatch_found starts_in_time locked o d).starts
  dispatch_found-IsAdmitted none = tt
  dispatch_found-IsAdmitted (some p) =
      All-map (IsAdmitted d p) (λ s. (q : Pending) × (some p ≡ some q) × IsAdmitted d q s)
        (dispatch_pending starts_in_time locked p d).starts (λ s h. (p, refl, h))
        (dispatch_pending-IsAdmitted p)

-- Each start that the dispatcher sends is that of the pending command, for its run's id, commit and
-- generation. The run is not at its end, the repository's installation is known, the repository
-- policy admits the run's base branch, and the two budgets are within those of the policy.
pub dispatch_next_command-IsAdmitted :
    (starts_in_time : Start → Bool) (locked : RunEvent → Bool) (d : Database)
    → All
        (λ s. (p : Pending) × (next_pending locked d [] d.events ≡ some p) × IsAdmitted d p s)
        (dispatch_next_command starts_in_time locked d).starts
unfolding dispatch_next_command
dispatch_next_command-IsAdmitted starts_in_time locked d =
    dispatch_found-IsAdmitted starts_in_time locked d (next_pending locked d [] d.events)
