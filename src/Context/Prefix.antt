-- ===== src/Context/Prefix.antt =====
-- `_largest_prefix` of context/selector.py: a binary search for the longest prefix that fits. `fits`
-- is the test on the rendering of the first `middle` code points.
use native.Mathlib.Decide.{dec_le}
use pr_reliability_platform.Prelude.{
  ℕ, zero, suc, ◌+◌, ◌-◌, ◌/◌, ◌≤◌, ◌<◌, Bool, true, false, ◌≡◌, ltb, if◌then◌else◌, arith, ◌⊎◌,
  inl, inr, Option, none, some, if_lem, false-true, refl,
}

-- `while low < high`, with fuel; `none` is a search that used it up.
unfoldable pub bisect : (ℕ → Bool) → ℕ → ℕ → ℕ → Option ℕ
bisect fits zero low high = none
bisect fits (suc fuel) low high =
    let middle = (low + high + 1) / 2 in
    let upper = bisect fits fuel middle high in
    let lower = bisect fits fuel low (middle - 1) in
    let next = if fits middle then upper else lower in if ltb low high then next else some low

unfoldable pub largest : (ℕ → Bool) → ℕ → Option ℕ
unfolding bisect
largest fits size = bisect fits (suc size) 0 size

-- `low` is 0 or fits, and `high` is the size or the next one does not fit.
record Between (fits : ℕ → Bool) (size low high : ℕ) : Type 0 where
  ordered : low ≤ high
  inside : high ≤ size
  low_fits : (low ≡ 0) ⊎ (fits low ≡ true)
  high_tight : (high ≡ size) ⊎ (fits (suc high) ≡ false)

module _ (fits : ℕ → Bool) (size low high : ℕ) (h : Between fits size low high) where
  closed : ltb low high ≡ false → Between fits size low low
  closed e =
      let same : low ≡ high = ground arith in
      record {
        ordered = omega arith;
        inside = omega arith;
        low_fits = h.low_fits;
        high_tight = rw same h.high_tight;
      }

  raise :
      ltb low high ≡ true
      → fits ((low + high + 1) / 2) ≡ true
      → Between fits size ((low + high + 1) / 2) high
  raise e f = record {
    ordered = ground arith;
    inside = h.inside;
    low_fits = inr f;
    high_tight = h.high_tight;
  }

  lower_bound :
      ltb low high ≡ true
      → fits ((low + high + 1) / 2) ≡ false
      → Between fits size low ((low + high + 1) / 2 - 1)
  lower_bound e f =
      let back : suc ((low + high + 1) / 2 - 1) ≡ (low + high + 1) / 2 = ground arith in
      record {
        ordered = ground arith;
        inside = ground arith;
        low_fits = h.low_fits;
        high_tight = inr (rw back f);
      }

-- The search ends, where the bounds meet.
abbrev Ends : (ℕ → Bool) → ℕ → Option ℕ → Type 0
Ends fits size o = (n : ℕ) × (o ≡ some n) × Between fits size n n

bisect-Ends :
    (fits : ℕ → Bool) (size fuel low high : ℕ)
    → high - low < fuel
    → Between fits size low high
    → Ends fits size (bisect fits fuel low high)
unfolding bisect
bisect-Ends fits size zero low high m h = absurd (omega arith)
bisect-Ends fits size (suc fuel) low high m h =
    let middle = (low + high + 1) / 2 in
    if_lem (Ends fits size) (ltb low high) _ _
      (λ e.
        if_lem (Ends fits size) (fits middle) _ _
          (λ f.
            bisect-Ends fits size fuel middle high (ground arith) (raise fits size low high h e f))
          (λ f.
            bisect-Ends fits size fuel low (middle - 1) (ground arith)
              (lower_bound fits size low high h e f)))
      (λ e. (low, refl, closed fits size low high h e))

-- The search ends: its fuel is enough, and it gives the length of a prefix that fits (or 0), within
-- the text, such that a prefix longer by one does not fit or the text ends there.
pub largest_lem :
    (fits : ℕ → Bool) (size : ℕ)
    → (n : ℕ) × (largest fits size ≡ some n)
      × (n ≤ size)
      × ((n ≡ 0) ⊎ (fits n ≡ true))
      × ((n ≡ size) ⊎ (fits (suc n) ≡ false))
unfolding largest
largest_lem fits size =
    let (n, e, b) = bisect-Ends fits size (suc size) 0 size (omega arith) (record {
      ordered = omega arith;
      inside = omega arith;
      low_fits = inl refl;
      high_tight = inl refl;
    }) in
    (n, e, b.inside, b.low_fits, b.high_tight)

longest :
    (fits : ℕ → Bool) (size m : ℕ)
    → ((m n : ℕ) → m ≤ n → fits n ≡ true → fits m ≡ true)
    → (m ≡ size) ⊎ (fits (suc m) ≡ false)
    → (n : ℕ) → n ≤ size
    → fits n ≡ true
    → n ≤ m
longest fits size m down tight n le f = elim (dec_le n m) [
  | yes h ↦ h
  | no h ↦ elim tight [
    | inl e ↦ omega arith
    | inr e ↦ absurd (false-true e (down (suc m) n (omega arith) f))
  ]
]

-- If a shorter prefix fits whenever a longer one does, the search ends, and every prefix that fits is
-- at most as long as the one that it finds.
pub largest_is_longest :
    (fits : ℕ → Bool) (size : ℕ)
    → ((m n : ℕ) → m ≤ n → fits n ≡ true → fits m ≡ true)
    → (n : ℕ) → n ≤ size
    → fits n ≡ true
    → (m : ℕ) × (largest fits size ≡ some m) × (n ≤ m)
largest_is_longest fits size down n le f =
    let (m, e, inside, low, tight) = largest_lem fits size in
    (m, e, longest fits size m down tight n le f)
