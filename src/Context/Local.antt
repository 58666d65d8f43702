-- ===== src/Context/Local.antt =====
-- context/python_dependencies.py: what the dependencies of a file are.
use mathlib.Core.Path.{subst, sym}
use pr_reliability_platform.Prelude.{
  ℕ, Bool, true, Option, none, some, List, [], ◌∷◌, Text, codes, text_eq, text_eq_refl, contains,
  find-holds, filter, not, ◌==◌, ◌||◌, map, ◌≡◌, refl, All, All-append, All-Any, Any, inl, inr,
  if_lem, or_true,
}
use pr_reliability_platform.Context.Closest.{sorted-All}
use pr_reliability_platform.Context.Dependencies.{
  DependencyResolution, Node, import_names, import_from, Ranked, rank, parts, parent, has_rank,
  candidates, choose, is_match, to_relative, resolve_absolute, resolve_path, as_posix, strip_dots,
  suffixes, Found, and_then, of_option, found_of, resolve_modules, resolve_paths, resolve_named,
  resolve_from_import, resolve_node, resolve_nodes, resolve_tree, direct_python_dependencies,
  has_suffix,
}

module _ {A : Type 0} where
  All-filter : (P : A → Type 0) (test : A → Bool) (xs : List A) → All P xs → All P (filter test xs)
  All-filter P test [] h = tt
  All-filter P test (x ∷ xs) h =
      if_lem (All P) (test x) _ _ (λ _. (h.0, All-filter P test xs h.1))
        (λ _. All-filter P test xs h.1)

  -- What a filter leaves passes its test.
  All-passed :
      (P : A → Type 0) (test : A → Bool) (xs : List A)
      → All P xs
      → All (λ x. P x × (test x ≡ true)) (filter test xs)
  All-passed P test [] h = tt
  All-passed P test (x ∷ xs) h =
      if_lem (All (λ y. P y × (test y ≡ true))) (test x) _ _
        (λ e. ((h.0, e), All-passed P test xs h.1)) (λ _. All-passed P test xs h.1)

contains-Any : (x : Text) (xs : List Text) → Any (λ y. y ≡ x) xs → contains xs x ≡ true
unfolding contains
contains-Any x [] m = absurd m
contains-Any x (y ∷ xs) (inl e) =
    subst (λ z. text_eq x z || contains xs x ≡ true) (sym e) (simp (text_eq_refl x))
contains-Any x (y ∷ xs) (inr m) = simp (contains-Any x xs m, or_true)

module _ (repository_paths : List Text) where
  -- A path of the repository.
  abbrev pub IsPath : Text → Type 0
  IsPath t = contains repository_paths t ≡ true

  IsPath-All : All IsPath repository_paths
  IsPath-All = All-Any IsPath repository_paths (λ x m. contains-Any x repository_paths m)

  abbrev IsRanked : Ranked → Type 0
  IsRanked r = IsPath r.candidate

  rank-IsRanked :
      (directory : List Text) (xs : List Text)
      → All IsPath xs
      → All IsRanked (map (rank directory) xs)
  unfolding rank
  rank-IsRanked directory [] h = tt
  rank-IsRanked directory (x ∷ xs) h = (h.0, rank-IsRanked directory xs h.1)

  candidates-IsPath : (rs : List Ranked) → All IsRanked rs → All IsPath (candidates rs)
  candidates-IsPath [] h = tt
  candidates-IsPath (r ∷ rs) h = (h.0, candidates-IsPath rs h.1)

  abbrev AreFound : Found → Type 0
  AreFound (targets, tied) = All IsPath targets × All IsPath tied

  choose-AreFound : (rs : List Ranked) → All IsRanked rs → AreFound (found_of (choose rs))
  unfolding choose
  choose-AreFound [] h = (tt, tt)
  choose-AreFound (r ∷ []) h = ((h.0, tt), tt)
  choose-AreFound (r ∷ (s ∷ rs)) h =
      if_lem (λ (c : Option Text × List Text). AreFound (found_of c)) (has_rank r s) _ _
        (λ _. (
          tt,
          candidates-IsPath (filter (has_rank r) (r ∷ (s ∷ rs)))
              (All-filter IsRanked (has_rank r) (r ∷ (s ∷ rs)) h),
        ))
        (λ _. ((h.0, tt), tt))

  resolve_absolute-AreFound :
      (path name : Text) → AreFound (found_of (resolve_absolute path name repository_paths))
  unfolding resolve_absolute
  resolve_absolute-AreFound path name = choose-AreFound _ (
      sorted-All IsRanked _ (
        rank-IsRanked (parent (parts path)) _
          (All-filter IsPath (is_match (to_relative name)) repository_paths IsPath-All)))

  and_then-AreFound : (a b : Found) → AreFound a → AreFound b → AreFound (and_then a b)
  and_then-AreFound (t, u) (t', u') h k =
      (All-append IsPath t t' h.0 k.0, All-append IsPath u u' h.1 k.1)

  resolve_modules-AreFound :
      (path : Text) (ms : List Text) → AreFound (resolve_modules path ms repository_paths)
  unfolding resolve_modules
  resolve_modules-AreFound path [] = (tt, tt)
  resolve_modules-AreFound path (m ∷ ms) =
      and_then-AreFound _ _ (resolve_absolute-AreFound path m) (resolve_modules-AreFound path ms)

  of_option-IsPath :
      (o : Option Text) → ((t : Text) → o ≡ some t → IsPath t) → All IsPath (of_option o)
  of_option-IsPath none h = tt
  of_option-IsPath (some t) h = (h t refl, tt)

  resolve_paths-IsPath : (ps : List (List Text)) → All IsPath (resolve_paths ps repository_paths)
  unfolding resolve_paths resolve_path
  resolve_paths-IsPath [] = tt
  resolve_paths-IsPath (p ∷ ps) =
      All-append IsPath _ _
        (of_option-IsPath _
          (λ t e. find-holds (contains repository_paths) (suffixes (strip_dots (as_posix p))) t e))
        (resolve_paths-IsPath ps)

  resolve_named-AreFound :
      (path : Text) (module_name : Option Text) (aliases : List Text)
      → AreFound (resolve_named path module_name aliases repository_paths)
  resolve_named-AreFound path none aliases = (tt, tt)
  resolve_named-AreFound path (some m) aliases = resolve_modules-AreFound path _

  resolve_from_import-AreFound :
      (path : Text) (level : ℕ) (module_name : Option Text) (names : List Text)
      → AreFound (resolve_from_import path level module_name names repository_paths)
  unfolding resolve_from_import
  resolve_from_import-AreFound path level module_name names =
      if_lem AreFound (level == 0) _ _ (λ _. resolve_named-AreFound path module_name _)
        (λ _. (resolve_paths-IsPath _, tt))

  resolve_node-AreFound : (path : Text) (n : Node) → AreFound (resolve_node path n repository_paths)
  resolve_node-AreFound path (import_names names) = resolve_modules-AreFound path names
  resolve_node-AreFound path (import_from level module_name names) =
      resolve_from_import-AreFound path level module_name names

  resolve_nodes-AreFound :
      (path : Text) (ns : List Node) → AreFound (resolve_nodes path ns repository_paths)
  unfolding resolve_nodes
  resolve_nodes-AreFound path [] = (tt, tt)
  resolve_nodes-AreFound path (n ∷ ns) =
      and_then-AreFound _ _ (resolve_node-AreFound path n) (resolve_nodes-AreFound path ns)

  -- The dependencies are other paths of the repository, and the ambiguous candidates paths that are
  -- no dependency.
  abbrev pub IsLocal : Text → DependencyResolution → Type 0
  IsLocal path r =
      All (λ t. IsPath t × (not (text_eq t path) ≡ true)) r.dependencies
      × All (λ t. IsPath t × (not (contains r.dependencies t) ≡ true)) r.ambiguous

  resolve_tree-IsLocal :
      (path : Text) (tree : Option (List Node))
      → IsLocal path (resolve_tree path tree repository_paths)
  resolve_tree-IsLocal path none = (tt, tt)
  resolve_tree-IsLocal path (some nodes) =
      let h = resolve_nodes-AreFound path nodes in
      (All-passed IsPath (λ t. not (text_eq t path)) _ h.0, All-passed IsPath _ _ h.1)

  -- Whatever a file imports, its dependencies are paths of the repository other than its own, and the
  -- candidates that are reported as ambiguous are paths of the repository that are not among them.
  pub direct_python_dependencies-IsLocal :
      (parse : Text → Text → Option (List Node)) (path content : Text)
      → IsLocal path (direct_python_dependencies parse path content repository_paths)
  unfolding direct_python_dependencies
  direct_python_dependencies-IsLocal parse path content =
      if_lem (IsLocal path) (not (has_suffix path (codes ".py"))) _ _ (λ _. (tt, tt))
        (λ _. resolve_tree-IsLocal path (parse content path))
