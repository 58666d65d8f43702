-- ===== src/Context/Selector.antt =====
-- `select_context` of context/selector.py with the records of context/models.py.
--
-- `dumps` is `json.dumps(record, ensure_ascii=True, separators=(",", ":"))` of the record of
-- `_render_file`, `matches` is `fnmatch.fnmatchcase`, `parse` is `ast.parse` with `ast.walk` and
-- `token_counter` is the argument of that name.
use pr_reliability_platform.Prelude.{
  ℕ, ◌+◌, ◌-◌, ◌/◌, Bool, true, false, Option, none, some, List, [], ◌∷◌, ◌++◌, map, Text, codes,
  contains, sorted_set, join, nonempty, any, leb, ltb, not, take, length, if◌then◌else◌, ◌>>=◌,
}
use pr_reliability_platform.Context.Dependencies.{
  Node, DependencyResolution, direct_python_dependencies,
}
use pr_reliability_platform.Context.Paths.{
  Repository, lookup, paths, normalize_repository, normalize_all,
}
use pr_reliability_platform.Context.Prefix.{largest}

pub data SelectionSource : Type 0 where
  changed direct_dependency : SelectionSource

-- `source.value`
abbrev pub source_value : SelectionSource → Text
source_value changed = codes "changed"
source_value direct_dependency = codes "direct_dependency"

pub record SelectedFile : Type 0 where
  pub path : Text
  pub content : Text
  pub source : SelectionSource
  pub original_tokens : ℕ
  pub included_tokens : ℕ
  pub truncated : Bool

pub data Reason : Type 0 where
  missing excluded_pattern ambiguous_dependency budget_exhausted : Reason

pub record ExcludedFile : Type 0 where
  pub path : Text
  pub source : SelectionSource
  pub reason : Reason

pub record SelectedContext : Type 0 where
  pub files : List SelectedFile
  pub excluded : List ExcludedFile
  pub rendered : Text
  pub total_tokens : ℕ
  pub token_budget : ℕ

-- `len(text.encode("utf-8"))`
unfoldable pub utf8_length : Text → ℕ
utf8_length [] = 0
utf8_length (c ∷ s) =
    (if ltb c 0x80 then 1 else if ltb c 0x800 then 2 else if ltb c 0x10000 then 3 else 4)
    + utf8_length s

unfoldable pub estimate_tokens : Text → ℕ
unfolding utf8_length
estimate_tokens text = if nonempty text then (utf8_length text + 2) / 3 else 0

-- `paths.difference_update(removed)`
unfoldable pub difference : List Text → List Text → List Text
difference [] removed = []
difference (p ∷ ps) removed =
    let rest = difference ps removed in if contains removed p then rest else p ∷ rest

-- What the loop over the ordered files has built.
pub record Progress : Type 0 where
  pub selected : List SelectedFile
  pub exclusions : List ExcludedFile
  pub rendered_parts : List Text

-- The paths that are eligible, in order, and the exclusions of the others.
pub record Partition : Type 0 where
  pub eligible : List Text
  pub refused : List ExcludedFile

module _ (dumps : Text → Text → Bool → Text → Text) (matches : Text → Text → Bool)
    (parse : Text → Text → Option (List Node)) (token_counter : Text → ℕ) where
  -- `_render_file`
  unfoldable pub render_file : Text → SelectionSource → Text → Bool → Text
  render_file path source content truncated =
      dumps path (source_value source) truncated content ++ codes "\n"

  -- `_ineligible_reason`
  unfoldable pub ineligible_reason : Text → Repository → List Text → Option Reason
  ineligible_reason path repository patterns =
      if not (contains (paths repository) path)
      then some missing
      else if any (λ pattern. matches path pattern) patterns
      then some excluded_pattern
      else none

  -- The loops that fill `eligible_changed` and `eligible_dependencies`.
  unfoldable pub place : SelectionSource → Text → Option Reason → Partition → Partition
  place source path none p = record p { eligible = path ∷ p.eligible }
  place source path (some reason) p = record p {
    refused = record { path = path; source = source; reason = reason } ∷ p.refused;
  }

  unfoldable pub partition : SelectionSource → Repository → List Text → List Text → Partition
  unfolding place
  partition source repository patterns [] = record { eligible = []; refused = [] }
  partition source repository patterns (path ∷ rest) =
      place source path (ineligible_reason path repository patterns)
        (partition source repository patterns rest)

  -- `repository[path]`, of an eligible path; a `KeyError` would be `none`.
  unfoldable pub resolve_all : Repository → List Text → Option DependencyResolution
  resolve_all repository [] = some (record { dependencies = []; ambiguous = [] })
  resolve_all repository (path ∷ rest) = do
    content ← lookup path repository
    r ← resolve_all repository rest
    let resolution = direct_python_dependencies parse path content (paths repository)
    some (record {
      dependencies = resolution.dependencies ++ r.dependencies;
      ambiguous = resolution.ambiguous ++ r.ambiguous;
    })

  -- `_largest_prefix`; `none` is a search that does not end.
  unfoldable pub largest_prefix : Text → Text → SelectionSource → Text → ℕ → Option Text
  largest_prefix before path source content token_budget = do
    length_of_prefix ←
        largest
          (λ middle.
            leb (token_counter (before ++ render_file path source (take middle content) true))
              token_budget)
          (length content)
    some (take length_of_prefix content)

  -- `original_tokens`
  abbrev pub tokens_of : Text → SelectionSource → Text → Progress → ℕ
  tokens_of path source content p =
      let before = join p.rendered_parts in
      token_counter (before ++ render_file path source content false) - token_counter before

  -- The file is selected whole.
  abbrev pub include_whole : Text → SelectionSource → Text → Progress → Progress
  include_whole path source content p =
      let original_tokens = tokens_of path source content p in
      record p {
        rendered_parts = p.rendered_parts ++ render_file path source content false ∷ [];
        selected =
            p.selected
            ++ record {
              path = path;
              content = content;
              source = source;
              original_tokens = original_tokens;
              included_tokens = original_tokens;
              truncated = false;
            }
              ∷ [];
      }

  -- A prefix of the file is selected, or the file is excluded if there is none.
  abbrev pub include_prefix : Text → SelectionSource → Text → Progress → Text → Progress
  include_prefix path source content p prefix =
      let before = join p.rendered_parts in
      let partial = render_file path source prefix true in
      let partial_total = token_counter (before ++ partial) in
      if not (nonempty prefix)
      then record p {
        exclusions =
            p.exclusions ++ record { path = path; source = source; reason = budget_exhausted } ∷ [];
      }
      else record p {
        rendered_parts = p.rendered_parts ++ partial ∷ [];
        selected =
            p.selected
            ++ record {
              path = path;
              content = prefix;
              source = source;
              original_tokens = tokens_of path source content p;
              included_tokens = partial_total - token_counter before;
              truncated = true;
            }
              ∷ [];
      }

  -- One round of the loop, on a file whose content is known.
  unfoldable pub include : ℕ → Text → SelectionSource → Text → Progress → Option Progress
  include token_budget path source content p =
      let before = join p.rendered_parts in
      let complete_total = token_counter (before ++ render_file path source content false) in
      if leb complete_total token_budget
      then some (include_whole path source content p)
      else largest_prefix before path source content token_budget
        >>= (λ prefix. some (include_prefix path source content p prefix))

  unfoldable pub include_all :
      ℕ → Repository → SelectionSource → List Text → Progress → Option Progress
  include_all token_budget repository source [] p = some p
  include_all token_budget repository source (path ∷ rest) p = do
    content ← lookup path repository
    q ← include token_budget path source content p
    include_all token_budget repository source rest q

  -- `SelectedContext(...)`, whose `__post_init__` raises a `ValueError` over the budget.
  unfoldable pub finish_selection : ℕ → Progress → Option SelectedContext
  finish_selection token_budget p =
      let rendered = join p.rendered_parts in
      let total_tokens = token_counter rendered in
      if ltb token_budget total_tokens
      then none
      else some (record {
        files = p.selected;
        excluded = p.exclusions;
        rendered = rendered;
        total_tokens = total_tokens;
        token_budget = token_budget;
      })

  abbrev pub ambiguous_exclusions : List Text → List ExcludedFile
  ambiguous_exclusions =
      map
        (λ path. record { path = path; source = direct_dependency; reason = ambiguous_dependency })

  abbrev pub start_of : Partition → DependencyResolution → Partition → Progress
  start_of first r second = record {
    selected = [];
    exclusions =
        first.refused
        ++ (ambiguous_exclusions (sorted_set (difference r.ambiguous first.eligible))
            ++ second.refused);
    rendered_parts = [];
  }

  -- The part of `select_context` after the paths are normalized.
  unfoldable pub select_normalized : Repository → List Text → ℕ → List Text → Option SelectedContext
  select_normalized repository changed_paths token_budget patterns = do
    let first = partition changed repository patterns changed_paths
    r ← resolve_all repository first.eligible
    let second =
        partition direct_dependency repository patterns
          (sorted_set (difference r.dependencies first.eligible))
    p ← include_all token_budget repository changed first.eligible (start_of first r second)
    q ← include_all token_budget repository direct_dependency second.eligible p
    finish_selection token_budget q

  -- `select_context`; `none` stands for the exceptions.
  unfoldable pub select_context : Repository → List Text → ℕ → List Text → Option SelectedContext
  select_context files changed_paths token_budget excluded_patterns =
      if ltb token_budget 1 then none else do
        repository ← normalize_repository files
        normalized ← normalize_all changed_paths
        select_normalized repository (sorted_set normalized) token_budget excluded_patterns
