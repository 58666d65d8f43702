-- ===== src/Prelude/Strings.antt =====
-- Python's `str` as its code points: equality, `strip`, the tests for a prefix and a suffix.
use Prim.Native.Nat.{ℕ}
use Prim.Native.Char.{code}
use Prim.Native.String.{String}
use mathlib.Core.Path.{subst, sym, ◌≡◌, refl}
use mathlib.Core.Logic.{◌↔◌, ◌≢◌, ◌⊎◌, inl, inr}
use mathlib.Core.Bool.{Bool, true, false, ◌&&◌, ◌||◌}
use mathlib.Core.List.{List, [], ◌∷◌, ◌++◌, reverse}
use native.Mathlib.Omega.{arith}
use pr_reliability_platform.Prelude.Lists.{Any}
use pr_reliability_platform.Prelude.Tests.{◌==◌, leb, if◌then◌else◌, ltb, Bool-cases}

abbrev pub Text : Type 0
Text = List ℕ

-- A literal.
abbrev pub codes : String → Text
codes String.[] = []
codes (String.◌∷◌ c s) = code c ∷ codes s

unfoldable pub text_eq : Text → Text → Bool
text_eq [] [] = true
text_eq (a ∷ s) (b ∷ t) = a == b && text_eq s t
text_eq _ _ = false

pub text_eq→eq : (s t : Text) → text_eq s t ≡ true → s ≡ t
unfolding text_eq
text_eq→eq [] [] h = refl
text_eq→eq [] (b ∷ t) h = cc
text_eq→eq (a ∷ s) [] h = cc
text_eq→eq (a ∷ s) (b ∷ t) h = ground (arith, text_eq→eq s t)

pub text_eq_refl : (s : Text) → text_eq s s ≡ true
unfolding text_eq
text_eq_refl [] = refl
text_eq_refl (a ∷ s) = ground (arith, text_eq_refl s)

pub text_eq_iff : (s t : Text) → (text_eq s t ≡ true) ↔ (s ≡ t)
text_eq_iff s t = (text_eq→eq s t, λ e. rw e (text_eq_refl t))

-- The code points that `str.strip` removes.
abbrev pub is_space : ℕ → Bool
is_space c =
    leb 9 c && leb c 13
    || (leb 28 c && leb c 32
        || (c == 0x85
            || (c == 0xa0
                || (c == 0x1680
                    || (leb 0x2000 c && leb c 0x200a
                        || (c == 0x2028
                            || (c == 0x2029 || (c == 0x202f || (c == 0x205f || c == 0x3000)))))))))

unfoldable pub lstrip : Text → Text
lstrip [] = []
lstrip (c ∷ s) = let rest = lstrip s in if is_space c then rest else c ∷ s

unfoldable pub strip : Text → Text
unfolding lstrip
strip s = reverse (lstrip (reverse (lstrip s)))

-- `s in xs`
unfoldable pub contains : List Text → Text → Bool
contains [] s = false
contains (x ∷ xs) s = text_eq s x || contains xs s

-- Python's order of strings, by code points.
unfoldable pub text_lt : Text → Text → Bool
text_lt [] [] = false
text_lt [] (b ∷ t) = true
text_lt (a ∷ s) [] = false
text_lt (a ∷ s) (b ∷ t) = ltb a b || a == b && text_lt s t

-- `sorted(set(xs))`: ascending, each item once.
unfoldable pub insert_sorted : Text → List Text → List Text
insert_sorted s [] = s ∷ []
insert_sorted s (x ∷ xs) =
    let rest = insert_sorted s xs in
    if text_eq s x then x ∷ xs else if text_lt s x then s ∷ (x ∷ xs) else x ∷ rest

unfoldable pub sorted_set : List Text → List Text
unfolding insert_sorted
sorted_set [] = []
sorted_set (x ∷ xs) = insert_sorted x (sorted_set xs)

-- `"".join(parts)`
unfoldable pub join : List Text → Text
join [] = []
join (s ∷ parts) = s ++ join parts

-- `text.split(separator)` at one code point.
unfoldable pub cons_to_head : ℕ → List Text → List Text
cons_to_head c [] = (c ∷ []) ∷ []
cons_to_head c (s ∷ ss) = (c ∷ s) ∷ ss

unfoldable pub split : ℕ → Text → List Text
unfolding cons_to_head
split sep [] = [] ∷ []
split sep (c ∷ s) = let rest = split sep s in if c == sep then [] ∷ rest else cons_to_head c rest

unfoldable pub ends_with : Text → ℕ → Bool
ends_with [] c = false
ends_with (x ∷ []) c = x == c
ends_with (x ∷ (y ∷ s)) c = ends_with (y ∷ s) c

pub text_eq-false : (s t : Text) → s ≢ t → text_eq s t ≡ false
text_eq-false s t h = elim (Bool-cases (text_eq s t)) [
  | inl e ↦ absurd (h (text_eq→eq s t e))
  | inr e ↦ e
]

right_map : {A B C : Type 0} → (B → C) → A ⊎ B → A ⊎ C
right_map f (inl a) = inl a
right_map f (inr b) = inr (f b)

insert_sorted_self : (s : Text) (xs : List Text) → Any (λ y. y ≡ s) (insert_sorted s xs)
unfolding insert_sorted
insert_sorted_self s [] = inl refl
insert_sorted_self s (x ∷ xs) = elim (Bool-cases (text_eq s x)) [
  | inl e ↦ rw e (inl (sym (text_eq→eq s x e)))
  | inr e ↦ elim (Bool-cases (text_lt s x)) [
    | inl f ↦ rw (e, f) (inl refl)
    | inr f ↦ rw (e, f) (inr (insert_sorted_self s xs))
  ]
]

insert_sorted_mem :
    (s x : Text) (xs : List Text) → Any (λ y. y ≡ x) xs → Any (λ y. y ≡ x) (insert_sorted s xs)
unfolding insert_sorted
insert_sorted_mem s x [] m = absurd m
insert_sorted_mem s x (z ∷ xs) m = elim (Bool-cases (text_eq s z)) [
  | inl e ↦ rw e m
  | inr e ↦ elim (Bool-cases (text_lt s z)) [
    | inl f ↦ rw (e, f) (inr m)
    | inr f ↦ rw (e, f) (right_map (insert_sorted_mem s x xs) m)
  ]
]

-- Sorting loses nothing.
pub sorted_set_mem :
    (x : Text) (xs : List Text) → Any (λ y. y ≡ x) xs → Any (λ y. y ≡ x) (sorted_set xs)
unfolding sorted_set
sorted_set_mem x [] m = absurd m
sorted_set_mem x (y ∷ xs) (inl e) =
    subst (λ z. Any (λ y. y ≡ z) (insert_sorted y (sorted_set xs))) e
      (insert_sorted_self y (sorted_set xs))
sorted_set_mem x (y ∷ xs) (inr m) = insert_sorted_mem y x (sorted_set xs) (sorted_set_mem x xs m)
