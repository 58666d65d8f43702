-- ===== src/Context/Total.antt =====
-- `select_context` as a whole: it returns on every well-formed input, within the budget, with
-- faithful files and with every changed path accounted for.
use pr_reliability_platform.Prelude.{
  ℕ, ◌≤◌, Bool, true, Option, List, Text, contains, All, Any, ◌⊎◌, ◌≡◌,
}
use pr_reliability_platform.Context.Dependencies.{Node}
use pr_reliability_platform.Context.Paths.{Repository, paths}
use pr_reliability_platform.Context.Selector.{
  SelectionSource, changed, Progress, Partition, SelectedContext, partition, include_all, place,
  place,
}
use pr_reliability_platform.Context.Include.{Faithful, Kept}

abbrev pub Present : Repository → Text → Type 0
Present repository p = contains (paths repository) p ≡ true

module _ (dumps : Text → Text → Bool → Text → Text) (matches : Text → Text → Bool)
    (parse : Text → Text → Option (List Node)) (token_counter : Text → ℕ) where
  abbrev parted : SelectionSource → Repository → List Text → List Text → Partition
  parted = partition dumps matches parse token_counter

  module _ (token_budget : ℕ) (repository : Repository) where
    abbrev Keeps : Progress → Type 0
    Keeps = Kept dumps matches parse token_counter token_budget repository

    abbrev all_included : SelectionSource → List Text → Progress → Option Progress
    all_included = include_all dumps matches parse token_counter token_budget repository

  abbrev Placed : SelectionSource → Partition → Text → Type 0
  Placed source p x =
      Any (λ y. y ≡ x) p.eligible ⊎ Any (λ e. (e.path ≡ x) × (e.source ≡ source)) p.refused

  -- The path was selected as a changed file, or excluded as one.
  abbrev pub Covered : SelectedContext → Text → Type 0
  Covered c x =
      Any (λ f. (f.path ≡ x) × (f.source ≡ changed)) c.files
      ⊎ Any (λ e. (e.path ≡ x) × (e.source ≡ changed)) c.excluded

  -- What a selection from this repository guarantees.
  pub record Sound (repository : Repository) (token_budget : ℕ) (wanted : List Text)
      (c : SelectedContext) : Type 0 where
    pub within : c.total_tokens ≤ token_budget
    pub counted : c.total_tokens ≡ token_counter c.rendered
    pub faithful : All (Faithful repository) c.files
    pub covered : All (Covered c) wanted
