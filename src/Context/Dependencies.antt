-- ===== src/Context/Dependencies.antt =====
-- context/python_dependencies.py. The syntax tree of a file is its import statements in the order of
-- `ast.walk`; sets are lists; a path is relative, as the paths of a normalized repository are.
use pr_reliability_platform.Prelude.{
  ℕ, zero, suc, ◌+◌, ◌-◌, ◌*◌, Bool, Option, none, some, List, [], ◌∷◌, ◌++◌, Text, codes, text_eq,
  text_lt, contains, split, length, drop, find, filter, any, not, nonempty, ltb, leb, ◌==◌, ◌&&◌,
  ◌||◌, if◌then◌else◌, map,
}
use mathlib.Core.List.{reverse}

pub record DependencyResolution : Type 0 where
  pub dependencies : List Text
  pub ambiguous : List Text

pub data Node : Type 0 where
  import_names : List Text → Node
  import_from : (level : ℕ) (module_name : Option Text) (names : List Text) → Node

-- `text.endswith(suffix)`
abbrev pub has_suffix : Text → Text → Bool
has_suffix text suffix =
    leb (length suffix) (length text) && text_eq (drop (length text - length suffix) text) suffix

-- The parts of `PurePosixPath(path)`.
abbrev pub is_part : Text → Bool
is_part part = nonempty part && not (text_eq part (codes "."))

unfoldable pub parts : Text → List Text
parts path = filter is_part (split b'/' path)

-- `.parent` of a path of these parts.
unfoldable pub parent : List Text → List Text
parent [] = []
parent (p ∷ []) = []
parent (p ∷ (q ∷ ps)) = p ∷ parent (q ∷ ps)

unfoldable pub ancestor : ℕ → List Text → List Text
ancestor zero ps = ps
ancestor (suc n) ps = ancestor n (parent ps)

abbrev pub join_slash : Text → List Text → Text
join_slash p [] = p
join_slash p (q ∷ ps) = p ++ b'/' ∷ join_slash q ps

-- `.as_posix()`
unfoldable pub as_posix : List Text → Text
as_posix [] = codes "."
as_posix (p ∷ ps) = join_slash p ps

-- `.strip("./")`
abbrev pub lstrip_dots : Text → Text
lstrip_dots [] = []
lstrip_dots (c ∷ s) = let rest = lstrip_dots s in if c == b'.' || c == b'/' then rest else c ∷ s

unfoldable pub strip_dots : Text → Text
strip_dots s = reverse (lstrip_dots (reverse (lstrip_dots s)))

-- `module.replace(".", "/")`
abbrev pub to_relative : Text → Text
to_relative [] = []
to_relative (c ∷ s) = (if c == b'.' then b'/' else c) ∷ to_relative s

abbrev pub suffixes : Text → List Text
suffixes base = (base ++ codes ".py") ∷ ((base ++ codes "/__init__.py") ∷ [])

-- `_resolve_path`
unfoldable pub resolve_path : List Text → List Text → Option Text
resolve_path path repository_paths =
    find (contains repository_paths) (suffixes (strip_dots (as_posix path)))

-- `rank` with the candidate: the shared parts, the more the better, then the distance.
pub record Ranked : Type 0 where
  pub shared : ℕ
  pub distance : ℕ
  pub candidate : Text

abbrev pub shared_parts : List Text → List Text → ℕ
shared_parts [] _ = 0
shared_parts (p ∷ ps) [] = 0
shared_parts (p ∷ ps) (q ∷ qs) =
    let rest = shared_parts ps qs in if not (text_eq p q) then 0 else suc rest

unfoldable pub rank : List Text → Text → Ranked
rank current_directory candidate =
    let candidate_directory = parent (parts candidate) in
    let shared = shared_parts current_directory candidate_directory in
    record {
      shared = shared;
      distance = length current_directory + length candidate_directory - 2 * shared;
      candidate = candidate;
    }

abbrev pub has_rank : Ranked → Ranked → Bool
has_rank best r = r.shared == best.shared && r.distance == best.distance

-- The order of `(rank(candidate), candidate)`.
abbrev pub is_before : Ranked → Ranked → Bool
is_before a b =
    ltb b.shared a.shared
    || a.shared == b.shared
      && (ltb a.distance b.distance || a.distance == b.distance && text_lt a.candidate b.candidate)

unfoldable pub insert_ranked : Ranked → List Ranked → List Ranked
insert_ranked r [] = r ∷ []
insert_ranked r (s ∷ rs) =
    let rest = insert_ranked r rs in if is_before s r then s ∷ rest else r ∷ (s ∷ rs)

unfoldable pub sorted : List Ranked → List Ranked
sorted [] = []
sorted (r ∷ rs) = insert_ranked r (sorted rs)

abbrev pub candidates : List Ranked → List Text
candidates rs = map (λ (r : Ranked). r.candidate) rs

-- The target, unless two candidates have the best rank, and the candidates that tie.
unfoldable pub choose : List Ranked → Option Text × List Text
choose [] = (none, [])
choose (r ∷ []) = (some r.candidate, [])
choose (r ∷ (s ∷ rs)) =
    if has_rank r s
    then (none, candidates (filter (has_rank r) (r ∷ (s ∷ rs))))
    else (some r.candidate, [])

abbrev pub is_match : Text → Text → Bool
is_match relative path =
    any (λ suffix. text_eq path suffix || has_suffix path (b'/' ∷ suffix)) (suffixes relative)

-- `_resolve_absolute`
unfoldable pub resolve_absolute : Text → Text → List Text → Option Text × List Text
resolve_absolute current_path module_name repository_paths = choose (
    sorted (
      map (rank (parent (parts current_path)))
        (filter (is_match (to_relative module_name)) repository_paths)))

-- Sets that a loop adds to: the dependencies, and the ambiguous candidates.
abbrev pub Found : Type 0
Found = List Text × List Text

abbrev pub and_then : Found → Found → Found
and_then (targets, tied) (targets', tied') = (targets ++ targets', tied ++ tied')

abbrev pub of_option : Option Text → List Text
of_option none = []
of_option (some target) = target ∷ []

abbrev pub found_of : Option Text × List Text → Found
found_of (target, tied) = (of_option target, tied)

unfoldable pub resolve_modules : Text → List Text → List Text → Found
resolve_modules path [] repository_paths = ([], [])
resolve_modules path (m ∷ ms) repository_paths =
    and_then (found_of (resolve_absolute path m repository_paths))
      (resolve_modules path ms repository_paths)

unfoldable pub resolve_paths : List (List Text) → List Text → List Text
resolve_paths [] repository_paths = []
resolve_paths (p ∷ ps) repository_paths =
    of_option (resolve_path p repository_paths) ++ resolve_paths ps repository_paths

abbrev pub text_of : Option Text → Text
text_of none = []
text_of (some t) = t

-- The base of a relative import.
unfoldable pub base_of : Text → ℕ → Option Text → List Text
base_of current_path level module_name =
    ancestor level (parts current_path) ++ filter is_part (split b'.' (text_of module_name))

abbrev pub resolve_named : Text → Option Text → List Text → List Text → Found
resolve_named current_path none aliases repository_paths = ([], [])
resolve_named current_path (some m) aliases repository_paths =
    resolve_modules current_path (m ∷ map (λ (name : Text). m ++ b'.' ∷ name) aliases)
      repository_paths

-- `_resolve_from_import`; its order of the aliases does not matter for the sets.
unfoldable pub resolve_from_import : Text → ℕ → Option Text → List Text → List Text → Found
resolve_from_import current_path level module_name names repository_paths =
    let aliases = filter (λ name. not (text_eq name (codes "*"))) names in
    let base = base_of current_path level module_name in
    if level == 0 then resolve_named current_path module_name aliases repository_paths else (
      resolve_paths (base ∷ map (λ (name : Text). base ++ name ∷ []) aliases) repository_paths,
      [],
    )

abbrev pub resolve_node : Text → Node → List Text → Found
resolve_node path (import_names names) repository_paths =
    resolve_modules path names repository_paths
resolve_node path (import_from level module_name names) repository_paths =
    resolve_from_import path level module_name names repository_paths

unfoldable pub resolve_nodes : Text → List Node → List Text → Found
resolve_nodes path [] repository_paths = ([], [])
resolve_nodes path (n ∷ ns) repository_paths =
    and_then (resolve_node path n repository_paths) (resolve_nodes path ns repository_paths)

-- `discard` and `difference_update`
abbrev pub discard_path : Text → Found → DependencyResolution
discard_path path (targets, tied) =
    let dependencies = filter (λ t. not (text_eq t path)) targets in
    record {
      dependencies = dependencies;
      ambiguous = filter (λ t. not (contains dependencies t)) tied;
    }

abbrev pub resolve_tree : Text → Option (List Node) → List Text → DependencyResolution
resolve_tree path none repository_paths = record { dependencies = []; ambiguous = [] }
resolve_tree path (some nodes) repository_paths =
    discard_path path (resolve_nodes path nodes repository_paths)

-- `parse` is `ast.parse` with `ast.walk`, and `none` where it raises.
module _ (parse : Text → Text → Option (List Node)) where
  unfoldable pub direct_python_dependencies : Text → Text → List Text → DependencyResolution
  direct_python_dependencies path content repository_paths =
      if not (has_suffix path (codes ".py"))
      then record { dependencies = []; ambiguous = [] }
      else resolve_tree path (parse content path) repository_paths
