-- ===== src/Prelude/Lists.antt =====
-- Lists measured and cut by native numbers, and predicates on their items.
use pr_reliability_platform.Prelude.Tests.{if◌then◌else◌, is_some, Bool-cases}
use Prim.Native.Nat.{ℕ, zero, suc, ◌+◌, min}
use mathlib.Core.Path.{subst, sym, ◌≡◌, refl, ap, ◌∙◌}
use mathlib.Core.Logic.{◌⊎◌, inl, inr}
use mathlib.Core.Option.{Option, none, some}
use mathlib.Core.Bool.{Bool, true, false, ◌&&◌, ◌||◌}
use mathlib.Core.List.{List, [], ◌∷◌, ◌++◌}
use native.Mathlib.Omega.{arith}

module _ {ℓ} {A : Type ℓ} where
  abbrev pub length : List A → ℕ
  length [] = 0
  length (x ∷ xs) = suc (length xs)

  abbrev pub take : ℕ → List A → List A
  take zero xs = []
  take (suc n) [] = []
  take (suc n) (x ∷ xs) = x ∷ take n xs

  abbrev pub drop : ℕ → List A → List A
  drop zero xs = xs
  drop (suc n) [] = []
  drop (suc n) (x ∷ xs) = drop n xs

  -- Python's `any` and `all` over a generator.
  abbrev pub any : (A → Bool) → List A → Bool
  any p [] = false
  any p (x ∷ xs) = p x || any p xs

  abbrev pub all : (A → Bool) → List A → Bool
  all p [] = true
  all p (x ∷ xs) = p x && all p xs

  -- Python's truth of a sequence.
  abbrev pub nonempty : List A → Bool
  nonempty [] = false
  nonempty (x ∷ xs) = true

  pub length-append : (xs ys : List A) → length (xs ++ ys) ≡ length xs + length ys
  length-append [] ys = omega arith
  length-append (x ∷ xs) ys = omega (arith, length-append xs ys)

  pub take-append-drop : (n : ℕ) (xs : List A) → take n xs ++ drop n xs ≡ xs
  take-append-drop zero xs = refl
  take-append-drop (suc n) [] = refl
  take-append-drop (suc n) (x ∷ xs) = ap (λ ys. x ∷ ys) (take-append-drop n xs)

  pub length-take : (n : ℕ) (xs : List A) → length (take n xs) ≡ min n (length xs)
  length-take zero xs = omega arith
  length-take (suc n) [] = omega arith
  length-take (suc n) (x ∷ xs) = omega (arith, length-take n xs)

module _ {A : Type 0} where
  abbrev pub All : (A → Type 0) → List A → Type 0
  All P [] = Unit
  All P (x ∷ xs) = P x × All P xs

  -- Some item has the property; the item's place is kept.
  abbrev pub Any : (A → Type 0) → List A → Type 0
  Any P [] = ⊥
  Any P (x ∷ xs) = P x ⊎ Any P xs

  pub All-append : (P : A → Type 0) (xs ys : List A) → All P xs → All P ys → All P (xs ++ ys)
  All-append P [] ys h k = k
  All-append P (x ∷ xs) ys h k = (h.0, All-append P xs ys h.1 k)

  pub Any-append_left : (P : A → Type 0) (xs ys : List A) → Any P xs → Any P (xs ++ ys)
  Any-append_left P [] ys h = absurd h
  Any-append_left P (x ∷ xs) ys (inl h) = inl h
  Any-append_left P (x ∷ xs) ys (inr h) = inr (Any-append_left P xs ys h)

  pub Any-append_right : (P : A → Type 0) (xs ys : List A) → Any P ys → Any P (xs ++ ys)
  Any-append_right P [] ys h = h
  Any-append_right P (x ∷ xs) ys h = inr (Any-append_right P xs ys h)

  -- A property of every member holds of all the items.
  pub All-Any : (P : A → Type 0) (xs : List A) → ((x : A) → Any (λ y. y ≡ x) xs → P x) → All P xs
  All-Any P [] k = tt
  All-Any P (x ∷ xs) k = (k x (inl refl), All-Any P xs (λ y m. k y (inr m)))

module _ {A : Type 0} where
  pub All-Any_nested :
      (P : A → Type 0) (xss : List (List A))
      → ((x : A) → Any (λ ys. Any (λ y. y ≡ x) ys) xss → P x)
      → All (All P) xss
  All-Any_nested P [] k = tt
  All-Any_nested P (xs ∷ xss) k =
      (All-Any P xs (λ y m. k y (inl m)), All-Any_nested P xss (λ y m. k y (inr m)))

module _ {A : Type 0} where
  pub All-map : (P R : A → Type 0) (xs : List A) → ((x : A) → P x → R x) → All P xs → All R xs
  All-map P R [] f h = tt
  All-map P R (x ∷ xs) f h = (f x h.0, All-map P R xs f h.1)

  pub All_at : (P : A → Type 0) (xs : List A) (x : A) → All P xs → Any (λ y. y ≡ x) xs → P x
  All_at P [] x h m = absurd m
  All_at P (y ∷ xs) x h (inl e) = subst P e h.0
  All_at P (y ∷ xs) x h (inr m) = All_at P xs x h.1 m

pub any_rest : (a b : Bool) → a ≡ false → a || b ≡ true → b ≡ true
any_rest a b h k = ground arith

pub rest_false : (a b : Bool) → a ≡ false → a || b ≡ false → b ≡ false
rest_false a b h k = ground arith

pub find_rest {ℓ} :
    {A : Type ℓ} (b : Bool) (x : A) (o : Option A)
    → b ≡ false
    → (if b then some x else o) ≡ none
    → o ≡ none
find_rest b x o e h = ground arith

pub found {ℓ} :
    {A : Type ℓ} (b : Bool) (x : A) (o : Option A) (a : A)
    → b ≡ true
    → (if b then some x else o) ≡ some a
    → x ≡ a
found b x o a e h = ground arith

pub skipped {ℓ} :
    {A : Type ℓ} (b : Bool) (x : A) (o : Option A) (a : A)
    → b ≡ false
    → (if b then some x else o) ≡ some a
    → o ≡ some a
skipped b x o a e h = ground arith

pub or_true : (a : Bool) → a || true ≡ true
or_true true = refl
or_true false = refl

-- Tables as lists of rows: `UPDATE … WHERE`, `SELECT … LIMIT 1`, and the rows that a test selects.
module _ {ℓ} {A : Type ℓ} where
  abbrev pub update_where : (A → Bool) → (A → A) → List A → List A
  update_where test f [] = []
  update_where test f (x ∷ xs) = (if test x then f x else x) ∷ update_where test f xs

  abbrev pub find : (A → Bool) → List A → Option A
  find test [] = none
  find test (x ∷ xs) = if test x then some x else find test xs

  abbrev pub filter : (A → Bool) → List A → List A
  filter test [] = []
  filter test (x ∷ xs) = let rest = filter test xs in if test x then x ∷ rest else rest

  pub any-update_where :
      (p q : A → Bool) (test : A → Bool) (f : A → A) (xs : List A)
      → ((x : A) → p (if test x then f x else x) ≡ q x)
      → any p (update_where test f xs) ≡ any q xs
  any-update_where p q test f [] h = refl
  any-update_where p q test f (x ∷ xs) h = rw (h x, any-update_where p q test f xs h)

  pub is_some-find : (p : A → Bool) (xs : List A) → is_some (find p xs) ≡ any p xs
  is_some-find p [] = refl
  is_some-find p (x ∷ xs) = elim (Bool-cases (p x)) [
    | inl e ↦ simp e
    | inr e ↦ simp (e, is_some-find p xs)
  ]

  pub any-append : (p : A → Bool) (xs ys : List A) → any p (xs ++ ys) ≡ any p xs || any p ys
  any-append p [] ys = refl
  any-append p (x ∷ xs) ys = elim (Bool-cases (p x)) [
    | inl e ↦ simp e
    | inr e ↦ simp (e, any-append p xs ys)
  ]

  pub any-and : (c : Bool) (p : A → Bool) (xs : List A) → any (λ x. c && p x) xs ≡ c && any p xs
  any-and true p xs = refl
  any-and false p [] = refl
  any-and false p (x ∷ xs) = any-and false p xs

  -- An update that makes every selected row pass, and leaves the test of the others as it was.
  pub any-update_where_hit :
      (p test : A → Bool) (f : A → A) (xs : List A)
      → ((x : A) → test x ≡ true → p (f x) ≡ true)
      → any test xs ≡ true
      → any p (update_where test f xs) ≡ true
  any-update_where_hit p test f [] h k = ground arith
  any-update_where_hit p test f (x ∷ xs) h k = elim (Bool-cases (test x)) [
    | inl e ↦ simp (e, h x e)
    | inr e ↦
        simp (e, any-update_where_hit p test f xs h (any_rest (test x) (any test xs) e k), or_true)
  ]

  -- An update that keeps a test keeps what is seen of the first row that passes it.
  pub find-update_where {κ} :
      {B : Type κ} (view : Option A → B) (p test : A → Bool) (f : A → A) (xs : List A)
      → ((x : A) → p (if test x then f x else x) ≡ p x)
      → ((x : A) → view (some (if test x then f x else x)) ≡ view (some x))
      → view (find p (update_where test f xs)) ≡ view (find p xs)
  find-update_where view p test f [] h k = refl
  find-update_where view p test f (x ∷ xs) h k = elim (Bool-cases (p x)) [
    | inl e ↦ simp (h x, e, k x)
    | inr e ↦ simp (h x, e, find-update_where view p test f xs h k)
  ]

  pub find-none :
      (p test : A → Bool) (f : A → A) (xs : List A)
      → ((x : A) → p (if test x then f x else x) ≡ false)
      → find p (update_where test f xs) ≡ none
  find-none p test f [] h = refl
  find-none p test f (x ∷ xs) h = simp (h x, find-none p test f xs h)

  pub any-false :
      (p q : A → Bool) (xs : List A)
      → ((x : A) → p x ≡ false → q x ≡ false)
      → any p xs ≡ false
      → any q xs ≡ false
  any-false p q [] h k = refl
  any-false p q (x ∷ xs) h k = elim (Bool-cases (p x)) [
    | inl e ↦ ground arith
    | inr e ↦ simp (h x e, any-false p q xs h (rest_false (p x) (any p xs) e k))
  ]

  pub find-append :
      (p : A → Bool) (xs : List A) (a : A)
      → find p xs ≡ none
      → p a ≡ true
      → find p (xs ++ a ∷ []) ≡ some a
  find-append p [] a h k = simp k
  find-append p (x ∷ xs) a h k = elim (Bool-cases (p x)) [
    | inl e ↦ ground arith
    | inr e ↦ simp (e, find-append p xs a (find_rest (p x) x (find p xs) e h) k)
  ]

  pub find-update_where-some :
      (p test : A → Bool) (f : A → A) (xs : List A) (a : A)
      → ((x : A) → p (if test x then f x else x) ≡ p x)
      → find p xs ≡ some a
      → find p (update_where test f xs) ≡ some (if test a then f a else a)
  find-update_where-some p test f [] a h e = ground arith
  find-update_where-some p test f (x ∷ xs) a h e = elim (Bool-cases (p x)) [
    | inl k ↦
        simp (h x, k) (ap (λ y. some (if test y then f y else y)) (found (p x) x (find p xs) a k e))
    | inr k ↦
        simp (h x, k, find-update_where-some p test f xs a h (skipped (p x) x (find p xs) a k e))
  ]

module _ {A : Type 0} where
  pub Any-find :
      (p : A → Bool) (xs : List A) (a : A)
      → find p xs ≡ some a
      → Any (λ y. (p y ≡ true) × (y ≡ a)) xs
  Any-find p [] a h = ground arith
  Any-find p (x ∷ xs) a h = elim (Bool-cases (p x)) [
    | inl e ↦ inl (e, found (p x) x (find p xs) a e h)
    | inr e ↦ inr (Any-find p xs a (skipped (p x) x (find p xs) a e h))
  ]

  pub find-holds : (p : A → Bool) (xs : List A) (a : A) → find p xs ≡ some a → p a ≡ true
  find-holds p [] a h = ground arith
  find-holds p (x ∷ xs) a h = elim (Bool-cases (p x)) [
    | inl e ↦ ap p (sym (found (p x) x (find p xs) a e h)) ∙ e
    | inr e ↦ find-holds p xs a (skipped (p x) x (find p xs) a e h)
  ]

  -- A test that the first row of another test passes is passed by some row.
  pub any-find :
      (p q : A → Bool) (xs : List A) (a : A) → find p xs ≡ some a → q a ≡ true → any q xs ≡ true
  any-find p q [] a h k = ground arith
  any-find p q (x ∷ xs) a h k = elim (Bool-cases (p x)) [
    | inl e ↦ simp (ap q (found (p x) x (find p xs) a e h) ∙ k)
    | inr e ↦ simp (any-find p q xs a (skipped (p x) x (find p xs) a e h) k, or_true)
  ]
