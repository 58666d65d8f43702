-- ===== src/Context/Tests.antt =====
-- Selections from a small repository, with the length of a text for its tokens.
use pr_reliability_platform.Prelude.{
  ℕ, suc, ◌≤◌, Bool, true, false, Option, none, some, List, [], ◌∷◌, ◌++◌, Text, codes, length, ◌≡◌,
  refl, arith, text_eq, contains, split, ends_with, sorted_set, join, leb, ◌⊎◌, text_lt,
}
use pr_reliability_platform.Context.Dependencies.{
  Node, import_names, direct_python_dependencies, resolve_nodes, resolve_modules, resolve_absolute,
  choose, sorted, insert_ranked, rank, parent, parts,
}
use pr_reliability_platform.Context.Paths.{
  Repository, lookup, to_posix, is_unsafe, normalize_path, normalize_repository, normalize_all,
  IsNormal, normalize_path-IsNormal,
}
use pr_reliability_platform.Context.Prefix.{largest, largest_lem, largest_is_longest}
use pr_reliability_platform.Context.Selector.{
  SelectedContext, SelectedFile, render_file, ineligible_reason, partition, resolve_all,
  largest_prefix, include, include_all, finish_selection, select_normalized, select_context,
  difference,
}
use pr_reliability_platform.Context.Dependencies.{
  resolve_from_import, resolve_paths, resolve_path, base_of, ancestor, as_posix, strip_dots,
}
use pr_reliability_platform.Context.Closest.{IsChoice, ranked, resolve_absolute-IsChoice}
use pr_reliability_platform.Context.Local.{IsLocal, direct_python_dependencies-IsLocal}

abbrev dumps : Text → Text → Bool → Text → Text
dumps path source truncated content = path ++ content

abbrev matches : Text → Text → Bool
matches path pattern = text_eq path pattern

-- Each file imports the module lib.
abbrev parse : Text → Text → Option (List Node)
parse content path = some (import_names (codes "lib" ∷ []) ∷ [])

abbrev files : Repository
files = (codes "a\\b.py", codes "hello") ∷ (codes "lib.py", codes "world") ∷ []

abbrev repository : Repository
repository = (codes "a/b.py", codes "hello") ∷ (codes "lib.py", codes "world") ∷ []

-- A path that climbs out of the repository is refused.
climbing_is_refused : normalize_path (codes "a/../../b") ≡ none
unfolding normalize_path to_posix is_unsafe split ends_with text_eq
climbing_is_refused = refl

-- The second file is cut to what the budget of 21 leaves.
abbrev texts_of : List SelectedFile → List (Text × Bool)
texts_of [] = []
texts_of (f ∷ fs) = (f.content, f.truncated) ∷ texts_of fs

abbrev texts : Option SelectedContext → List (Text × Bool)
texts none = []
texts (some c) = texts_of c.files

cut_to_budget :
    texts
      (select_context dumps matches parse length files (codes "a/b.py" ∷ codes "gone" ∷ []) 21 [])
    ≡ (codes "hello", false) ∷ (codes "wo", true) ∷ []
unfolding select_context normalize_repository normalize_all normalize_path to_posix is_unsafe
    contains split ends_with text_eq lookup sorted_set select_normalized partition ineligible_reason
    resolve_all difference include_all include join render_file largest_prefix largest
    finish_selection text_lt direct_python_dependencies resolve_nodes resolve_modules
    resolve_absolute choose sorted insert_ranked rank parent parts
cut_to_budget = refl

normalize_path-IsNormal_example : IsNormal (codes "a\\b") (normalize_path (codes "a\\b"))
normalize_path-IsNormal_example = normalize_path-IsNormal (codes "a\\b")

largest_lem_example :
    (n : ℕ) × (largest (λ n. leb n 3) 9 ≡ some n)
    × (n ≤ 9)
    × ((n ≡ 0) ⊎ (leb n 3 ≡ true))
    × ((n ≡ 9) ⊎ (leb (suc n) 3 ≡ false))
largest_lem_example = largest_lem (λ n. leb n 3) 9

leb_down : (m n : ℕ) → m ≤ n → leb n 3 ≡ true → leb m 3 ≡ true
leb_down m n h e = ground arith

largest_is_longest_example : (m : ℕ) × (largest (λ n. leb n 3) 9 ≡ some m) × (3 ≤ m)
largest_is_longest_example = largest_is_longest (λ n. leb n 3) 9 leb_down 3 (omega arith) refl

abbrev packages : List Text
packages =
    codes "a/x.py" ∷ (codes "a/lib.py" ∷ (codes "b/lib.py" ∷ (codes "c/lib/__init__.py" ∷ [])))

-- The nearest file of the module is taken from a/x.py; from d/x.py two files tie.
imports_of_lib :
    (resolve_absolute (codes "a/x.py") (codes "lib") packages ≡ (some (codes "a/lib.py"), []))
    × (resolve_absolute (codes "d/x.py") (codes "lib") packages
        ≡ (none, codes "a/lib.py" ∷ (codes "b/lib.py" ∷ [])))
unfolding resolve_absolute choose sorted insert_ranked rank parent parts split text_eq text_lt
imports_of_lib = (refl, refl)

-- `from ..lib import *` in a/x/y.py.
relative_import :
    resolve_from_import (codes "a/x/y.py") 2 (some (codes "lib")) [] packages
    ≡ (codes "a/lib.py" ∷ [], [])
unfolding resolve_from_import resolve_paths resolve_path base_of ancestor as_posix strip_dots parent
    parts split text_eq contains
relative_import = refl

resolve_absolute-IsChoice_example :
    IsChoice
      (ranked (codes "a/x.py") (codes "lib") packages)
      (resolve_absolute (codes "a/x.py") (codes "lib") packages)
resolve_absolute-IsChoice_example =
    resolve_absolute-IsChoice (codes "a/x.py") (codes "lib") packages

direct_python_dependencies-IsLocal_example :
    IsLocal packages
      (codes "a/x.py")
      (direct_python_dependencies parse (codes "a/x.py") (codes "import lib") packages)
direct_python_dependencies-IsLocal_example =
    direct_python_dependencies-IsLocal packages parse (codes "a/x.py") (codes "import lib")
