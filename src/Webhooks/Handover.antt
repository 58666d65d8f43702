-- ===== src/Webhooks/Handover.antt =====
-- The command that the webhook handlers write, as dispatch_next_command of dispatch.py reads it.
use pr_reliability_platform.Prelude.{
  ℕ, true, false, none, some, List, [], ◌∷◌, Text, text_eq, text_eq_refl, ==_refl, find,
  find-append, any, any-append, and_false, ◌++◌, ◌+◌, ◌∙◌, map, ◌≡◌, refl, ◌==◌,
}
use pr_reliability_platform.Repositories.Tables.{Repository}
use pr_reliability_platform.Repositories.Store.{RepositoryPolicy}
use pr_reliability_platform.Starts.Tables.{Run, is_run, has_key}
use pr_reliability_platform.Approvals.Dispatch.{dispatched_key}
use pr_reliability_platform.Starts.Dispatch.{
  Pending, pending_of, same_identity, is_terminal, is_received, is_named,
}
use pr_reliability_platform.Webhooks.Tables.{PullRequest, Database}
use pr_reliability_platform.Webhooks.Runs.{NewRun, insert_run, run_row, command_row, command_event}

abbrev pub seen_row : PullRequest → pr_reliability_platform.Starts.Tables.PullRequest
seen_row p = record {
  id = p.id;
  owner_id = p.owner_id;
  public_id = p.public_id;
  github_number = p.github_number;
  repository_id = p.repository_id;
}

-- The tables as the dispatcher reads them.
abbrev pub seen : Database → pr_reliability_platform.Starts.Tables.Database
seen d = record {
  runs = d.runs;
  pull_requests = map seen_row d.pull_requests;
  events = d.events;
  policy = d.policy;
}

dispatched_key-ne : (key : Text) → text_eq key (dispatched_key key) ≡ false
unfolding text_eq
dispatched_key-ne [] = refl
dispatched_key-ne (c ∷ s) = simp (==_refl c, dispatched_key-ne s)

module _ (id_factory : ℕ → Text) (policy : RepositoryPolicy) (n : NewRun) (d : Database) where
  abbrev pub added : Database
  added = insert_run id_factory policy n d

  -- What the dispatcher makes of the rows.
  abbrev pub pending_row : pr_reliability_platform.Starts.Tables.PullRequest → Repository → Pending
  pending_row p r = record {
    event = command_event id_factory policy n d;
    command = command_row id_factory policy n d;
    run = run_row id_factory policy n d;
    pull_request = p;
    repository = r;
  }

  run_found :
      find (is_run n.owner_id d.next_run_id) d.runs ≡ none
      → find (is_run n.owner_id d.next_run_id) (d.runs ++ run_row id_factory policy n d ∷ [])
        ≡ some (run_row id_factory policy n d)
  run_found h =
      find-append (is_run n.owner_id d.next_run_id) d.runs (run_row id_factory policy n d) h
        (simp (text_eq_refl n.owner_id, ==_refl d.next_run_id))

  not_received :
      is_received (seen d) (command_event id_factory policy n d) ≡ false
      → any
          (has_key d.next_run_id (dispatched_key (id_factory (d.policy.drawn + 1))))
          (d.events ++ command_event id_factory policy n d ∷ [])
        ≡ false
  not_received h =
      let key = id_factory (d.policy.drawn + 1) in
      any-append (has_key d.next_run_id (dispatched_key key)) d.events
        (command_event id_factory policy n d ∷ [])
      ∙ simp (h, dispatched_key-ne key, and_false)

  -- The dispatcher finds a command that was just written pending, with the identity of its run, and the
  -- run is not at its end: for a run whose id is new, whose pull request and repository are in the
  -- tables with the public ids and the number that it has, and whose command has no receipt
  -- and no earlier command of its pull request waits.
  pub insert_run-pending_of :
      (p : pr_reliability_platform.Starts.Tables.PullRequest) (r : Repository) (earlier : List ℕ)
      → find (is_run n.owner_id d.next_run_id) d.runs ≡ none
      → find
          (pr_reliability_platform.Starts.Tables.is_pull_request n.owner_id n.pull_request_id)
          (seen d).pull_requests
        ≡ some p
      → find (is_named p.owner_id p.repository_id) d.policy.repositories ≡ some r
      → p.public_id ≡ n.pull_request_public_id
      → p.github_number ≡ n.pull_request_number
      → r.public_id ≡ n.repository_public_id
      → is_received (seen d) (command_event id_factory policy n d) ≡ false
      → any (λ id. id == n.pull_request_id) earlier ≡ false
      → (pending_of (seen added) earlier (command_event id_factory policy n d)
          ≡ some (pending_row p r))
        × (same_identity (pending_row p r) ≡ true)
        × (is_terminal (pending_row p r).run.state ≡ false)
  unfolding insert_run pending_of
  insert_run-pending_of p r earlier h k l e f g i j =
      (simp (run_found h, k, l, not_received i, j), simp (e, f, g, text_eq_refl, ==_refl), refl)
