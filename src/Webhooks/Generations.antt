-- ===== src/Webhooks/Generations.antt =====
-- webhooks/github.py and webhooks/checks.py: the generation of a new run.
use pr_reliability_platform.Prelude.{
  ℕ, ◌<◌, ◌≤◌, Bool, Option, List, [], ◌∷◌, ◌++◌, Text, ◌≡◌, arith, All, All-append, if_lem, any,
  not, ◌&&◌, sym, All-map, ==_iff,
}
use pr_reliability_platform.Starts.Tables.{Run}
use pr_reliability_platform.Repositories.Store.{RepositoryPolicy}
use pr_reliability_platform.Webhooks.Tables.{Database, latest_generation}
use pr_reliability_platform.Webhooks.Runs.{
  NewRun, insert_run, create_run, run_row, is_reviewed, is_same_generation,
}

-- Each run has a greater generation than the runs of its pull request before it.
abbrev pub IsNumbered : List Run → Type 0
IsNumbered [] = Unit
IsNumbered (r ∷ runs) =
    All (λ s. s.pull_request_id ≡ r.pull_request_id → r.generation < s.generation) runs
    × IsNumbered runs

-- No run of the pull request has a generation above this one.
abbrev pub IsBound : ℕ → ℕ → Run → Type 0
IsBound id n r = r.pull_request_id ≡ id → r.generation ≤ n

module _ (id : ℕ) (r : Run) (runs : List Run) where
  latest_generation_mono : latest_generation id runs ≤ latest_generation id (r ∷ runs)
  unfolding latest_generation
  latest_generation_mono = ground arith

  latest_generation-head : IsBound id (latest_generation id (r ∷ runs)) r
  unfolding latest_generation
  latest_generation-head e = ground (arith, ==_iff r.pull_request_id id)

latest_generation-IsBound :
    (id : ℕ) (runs : List Run) → All (IsBound id (latest_generation id runs)) runs
latest_generation-IsBound id [] = tt
latest_generation-IsBound id (r ∷ runs) = (
  latest_generation-head id r runs,
  All-map (IsBound id (latest_generation id runs)) (IsBound id (latest_generation id (r ∷ runs)))
      runs (λ s k h. omega (arith, k h, latest_generation_mono id r runs))
      (latest_generation-IsBound id runs),
)

IsNumbered-append :
    (runs : List Run) (s : Run) (n : ℕ)
    → n < s.generation
    → All (IsBound s.pull_request_id n) runs
    → IsNumbered runs
    → IsNumbered (runs ++ s ∷ [])
IsNumbered-append [] s n h k l = (tt, tt)
IsNumbered-append (r ∷ runs) s n h k l = (
  All-append (λ t. t.pull_request_id ≡ r.pull_request_id → r.generation < t.generation) runs
      (s ∷ []) l.0 ((λ e. ground (arith, k.0 (sym e))), tt),
  IsNumbered-append runs s n h k.1 l.1,
)

-- The property of the tables that a step leaves.
unfoldable pub IsNumberedIn : {A : Type 0} → A × Database → Type 0
IsNumberedIn r = IsNumbered r.1.runs

pub numbered : {A : Type 0} (r : A × Database) → IsNumbered r.1.runs → IsNumberedIn r
unfolding IsNumberedIn
numbered r h = h

module _ (id_factory : ℕ → Text) (policy : RepositoryPolicy) (n : NewRun) where
  pub insert_run-IsNumbered :
      (d : Database) → IsNumbered d.runs → IsNumbered (insert_run id_factory policy n d).runs
  unfolding insert_run
  insert_run-IsNumbered d h =
      IsNumbered-append d.runs (run_row id_factory policy n d)
        (latest_generation n.pull_request_id d.runs) (omega arith)
        (latest_generation-IsBound n.pull_request_id d.runs) h

  pub create_run-IsNumbered :
      (force_new : Bool) (d : Database)
      → IsNumbered d.runs
      → IsNumberedIn (create_run id_factory policy n force_new d)
  unfolding create_run
  create_run-IsNumbered force_new d h =
      if_lem (λ (r : Option Text × Database). IsNumberedIn r)
        (not force_new && any (is_reviewed id_factory policy n) d.runs) _ _ (λ _. numbered _ h)
        (λ _.
          if_lem (λ (r : Option Text × Database). IsNumberedIn r)
            (any (is_same_generation id_factory policy n d) d.runs) _ _ (λ _. numbered _ h)
            (λ _. numbered _ (insert_run-IsNumbered d h)))
