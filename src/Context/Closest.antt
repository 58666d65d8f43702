-- ===== src/Context/Closest.antt =====
-- context/python_dependencies.py: the candidate that `_resolve_absolute` takes.
use mathlib.Core.Path.{subst, sym}
use pr_reliability_platform.Prelude.{
  ◌≤◌, ◌<◌, true, false, Option, none, some, List, length, [], ◌∷◌, Text, filter, map, ◌≡◌, refl,
  arith, All, All-map, All-Any, Any, ◌⊎◌, inl, inr, if_lem,
}
use pr_reliability_platform.Context.Dependencies.{
  Ranked, rank, parts, parent, has_rank, is_before, insert_ranked, sorted, candidates, choose,
  is_match, to_relative, resolve_absolute,
}

-- More shared parts, or as many and a distance that is not greater.
abbrev pub IsNear : Ranked → Ranked → Type 0
IsNear r s = (s.shared < r.shared) ⊎ ((r.shared ≡ s.shared) × (r.distance ≤ s.distance))

-- More shared parts, or as many and a smaller distance.
abbrev pub IsNearer : Ranked → Ranked → Type 0
IsNearer r s = (s.shared < r.shared) ⊎ ((r.shared ≡ s.shared) × (r.distance < s.distance))

IsNear-trans : (a b c : Ranked) → IsNear a b → IsNear b c → IsNear a c
IsNear-trans a b c h k = ground arith

IsNearer-trans : (a b c : Ranked) → IsNearer a b → IsNear b c → IsNearer a c
IsNearer-trans a b c h k = ground arith

is_before-IsNear : (a b : Ranked) → is_before a b ≡ true → IsNear a b
is_before-IsNear a b h = ground arith

not_before-IsNear : (a b : Ranked) → is_before b a ≡ false → IsNear a b
not_before-IsNear a b h = ground arith

nearer : (a b : Ranked) → IsNear a b → has_rank a b ≡ false → IsNearer a b
nearer a b h k = ground arith

module _ (P : Ranked → Type 0) where
  insert_ranked-All : (r : Ranked) (rs : List Ranked) → P r → All P rs → All P (insert_ranked r rs)
  unfolding insert_ranked
  insert_ranked-All r [] h k = (h, tt)
  insert_ranked-All r (s ∷ rs) h k =
      if_lem (All P) (is_before s r) _ _ (λ _. (k.0, insert_ranked-All r rs h k.1)) (λ _. (h, k))

  pub sorted-All : (rs : List Ranked) → All P rs → All P (sorted rs)
  unfolding sorted
  sorted-All [] h = tt
  sorted-All (r ∷ rs) h = insert_ranked-All r (sorted rs) h.0 (sorted-All rs h.1)

  inserted-All : (r : Ranked) (rs : List Ranked) → All P (insert_ranked r rs) → P r × All P rs
  unfolding insert_ranked
  inserted-All r [] h = h
  inserted-All r (s ∷ rs) h =
      if_lem (λ l. All P l → P r × All P (s ∷ rs)) (is_before s r) _ _
        (λ _ k. let (p, q) = inserted-All r rs k.1 in (p, (k.0, q))) (λ _ k. k) h

  All-sorted : (rs : List Ranked) → All P (sorted rs) → All P rs
  unfolding sorted
  All-sorted [] h = tt
  All-sorted (r ∷ rs) h = let (p, q) = inserted-All r (sorted rs) h in (p, All-sorted rs q)

-- Each candidate is at least as near as those after it.
abbrev IsSorted : List Ranked → Type 0
IsSorted [] = Unit
IsSorted (r ∷ rs) = All (IsNear r) rs × IsSorted rs

insert_ranked-IsSorted :
    (r : Ranked) (rs : List Ranked) → IsSorted rs → IsSorted (insert_ranked r rs)
unfolding insert_ranked
insert_ranked-IsSorted r [] h = (tt, tt)
insert_ranked-IsSorted r (s ∷ rs) h =
    if_lem IsSorted (is_before s r) _ _
      (λ e. (
        insert_ranked-All (IsNear s) r rs (is_before-IsNear s r e) h.0,
        insert_ranked-IsSorted r rs h.1,
      ))
      (λ e.
        let near = not_before-IsNear r s e in
        ((near, All-map (IsNear s) (IsNear r) rs (λ t k. IsNear-trans r s t near k) h.0), h))

sorted-IsSorted : (rs : List Ranked) → IsSorted (sorted rs)
unfolding sorted
sorted-IsSorted [] = tt
sorted-IsSorted (r ∷ rs) = insert_ranked-IsSorted r (sorted rs) (sorted-IsSorted rs)

-- The target is one of the candidates and is nearer than all the others. Without a target there is no
-- candidate, or some candidate is as near as all, and the ones reported, two at least, are candidates of its rank.
abbrev pub IsChoice : List Ranked → Option Text × List Text → Type 0
IsChoice rs (some target, tied) =
    (r : Ranked) × Any (λ s. s ≡ r) rs
    × (r.candidate ≡ target)
    × All (λ s. (s ≡ r) ⊎ IsNearer r s) rs
    × (tied ≡ [])
IsChoice rs (none, tied) =
    ((rs ≡ []) × (tied ≡ []))
    ⊎ ((r : Ranked) × All (IsNear r) rs
        × (1 < length tied)
        × All (λ t. Any (λ s. (s.candidate ≡ t) × (has_rank r s ≡ true)) rs) tied)

-- The rank of the candidates that are reported.
tied-All :
    (r : Ranked) (rs : List Ranked)
    → All
        (λ t. Any (λ s. (s.candidate ≡ t) × (has_rank r s ≡ true)) rs)
        (candidates (filter (has_rank r) rs))
tied-All r [] = tt
tied-All r (s ∷ rs) =
    let Q =
      λ (xs : List Ranked) (t : Text). Any (λ s. (s.candidate ≡ t) × (has_rank r s ≡ true)) xs in
    let rest = All-map (Q rs) (Q (s ∷ rs)) _ (λ t m. inr m) (tied-All r rs) in
    if_lem (λ (xs : List Ranked). All (Q (s ∷ rs)) (candidates xs)) (has_rank r s) _ _
      (λ e. (inl (refl, e), rest)) (λ _. rest)

has_rank_refl : (r : Ranked) → has_rank r r ≡ true
has_rank_refl r = ground arith

tied-length :
    (r s : Ranked) (rs : List Ranked)
    → has_rank r s ≡ true
    → 1 < length (candidates (filter (has_rank r) (r ∷ (s ∷ rs))))
tied-length r s rs e = simp (has_rank_refl r, e) (omega arith)

choose-IsChoice : (rs : List Ranked) → IsSorted rs → IsChoice rs (choose rs)
unfolding choose
choose-IsChoice [] h = inl (refl, refl)
choose-IsChoice (r ∷ []) h = (r, inl refl, refl, (inl refl, tt), refl)
choose-IsChoice (r ∷ (s ∷ rs)) h =
    if_lem (IsChoice (r ∷ (s ∷ rs))) (has_rank r s) _ _
      (λ e.
        inr (r, ((inr (refl, omega arith)), h.0), tied-length r s rs e, tied-All r (r ∷ (s ∷ rs))))
      (λ e.
        let near = nearer r s h.0.0 e in
        (
          r,
          inl refl,
          refl,
          (
            inl refl,
            (
              inr near,
              All-map (IsNear s) (λ t. (t ≡ r) ⊎ IsNearer r t) rs
                  (λ t k. inr (IsNearer-trans r s t near k)) h.1.0,
            ),
          ),
          refl,
        ))

Any-same :
    (Q : Ranked → Type 0) (x : Ranked) (ys : List Ranked) → Q x → Any (λ s. s ≡ x) ys → Any Q ys
Any-same Q x [] q m = absurd m
Any-same Q x (y ∷ ys) q (inl e) = inl (subst Q (sym e) q)
Any-same Q x (y ∷ ys) q (inr m) = inr (Any-same Q x ys q m)

Any-members :
    (Q : Ranked → Type 0) (xs ys : List Ranked)
    → All (λ x. Any (λ s. s ≡ x) ys) xs
    → Any Q xs
    → Any Q ys
Any-members Q [] ys h m = absurd m
Any-members Q (x ∷ xs) ys h (inl q) = Any-same Q x ys q h.0
Any-members Q (x ∷ xs) ys h (inr m) = Any-members Q xs ys h.1 m

Any-sorted : (Q : Ranked → Type 0) (rs : List Ranked) → Any Q (sorted rs) → Any Q rs
Any-sorted Q rs m =
    let members = λ (x : Ranked). Any (λ s. s ≡ x) rs in
    Any-members Q (sorted rs) rs (sorted-All members rs (All-Any members rs (λ x k. k))) m

empty : (rs : List Ranked) → All (λ r. ⊥) rs → rs ≡ []
empty [] h = refl
empty (r ∷ rs) h = absurd h.0

sorted-IsChoice :
    (rs : List Ranked) (o : Option Text × List Text) → IsChoice (sorted rs) o → IsChoice rs o
sorted-IsChoice rs (some target, tied) (r, m, e, h, k) =
    (r, Any-sorted (λ s. s ≡ r) rs m, e, All-sorted (λ s. (s ≡ r) ⊎ IsNearer r s) rs h, k)
sorted-IsChoice rs (none, tied) (inl (e, k)) =
    inl (empty rs (All-sorted (λ r. ⊥) rs (subst (All (λ r. ⊥)) (sym e) tt)), k)
sorted-IsChoice rs (none, tied) (inr (r, h, l, k)) = inr (
  r,
  All-sorted (IsNear r) rs h,
  l,
  All-map (λ t. Any (λ s. (s.candidate ≡ t) × (has_rank r s ≡ true)) (sorted rs))
      (λ t. Any (λ s. (s.candidate ≡ t) × (has_rank r s ≡ true)) rs) tied
      (λ t m. Any-sorted (λ s. (s.candidate ≡ t) × (has_rank r s ≡ true)) rs m) k,
)

-- The candidates of an absolute import, with their ranks.
abbrev pub ranked : Text → Text → List Text → List Ranked
ranked current_path module_name repository_paths =
    map (rank (parent (parts current_path)))
      (filter (is_match (to_relative module_name)) repository_paths)

-- An absolute import resolves to a file of the module that is nearer to the importing file than every
-- other file of the module: it shares more leading directories, or as many with a shorter way. It
-- resolves to none only if no file matches, or if some file is as near as all and two files at least
-- have its rank; and those that are reported are candidates of that rank.
pub resolve_absolute-IsChoice :
    (current_path module_name : Text) (repository_paths : List Text)
    → IsChoice
        (ranked current_path module_name repository_paths)
        (resolve_absolute current_path module_name repository_paths)
unfolding resolve_absolute
resolve_absolute-IsChoice current_path module_name repository_paths =
    let rs = ranked current_path module_name repository_paths in
    sorted-IsChoice rs (choose (sorted rs)) (choose-IsChoice (sorted rs) (sorted-IsSorted rs))
