-- ===== src/Identifiers.antt =====
-- identifiers.py of the API: public identifiers. `dispatch.py` of the workers has the same function.
-- The clock and the random bits are arguments.
mod Tests
use mathlib.Core.Path.{subst}
use pr_reliability_platform.Prelude.{
  ℕ, zero, suc, ◌+◌, ◌*◌, ◌/◌, ◌%◌, ◌<◌, Bool, true, false, List, [], ◌∷◌, Text, codes, length, all,
  leb, ltb, ◌==◌, ==_iff, ◌&&◌, if◌then◌else◌, ◌≡◌, refl, sym, ap, ◌∙◌, arith, not, ◌-◌, Bool-cases,
  text_lt, inl, ==_refl, or_true, and_left, inr, and_right,
}
use pr_reliability_platform.Webhooks.Checks.{is_ulid, is_crockford}

abbrev pub alphabet : Text
alphabet = codes "0123456789ABCDEFGHJKMNPQRSTVWXYZ"

abbrev pub char_at : Text → ℕ → ℕ
char_at [] i = 0
char_at (c ∷ s) i = let rest = char_at s (i - 1) in if i == 0 then c else rest

-- `alphabet[i]`
unfoldable pub digit : ℕ → ℕ
digit i = char_at alphabet i

-- The loop, with the rounds that are left and what is encoded.
unfoldable pub encode : ℕ → ℕ → Text → Text
encode zero value encoded = encoded
encode (suc rounds) value encoded = encode rounds (value / 32) (digit (value % 32) ∷ encoded)

-- `milliseconds << 80 | entropy`, for at most 80 bits of entropy.
abbrev pub ulid_value : ℕ → ℕ → ℕ
ulid_value milliseconds entropy = milliseconds * 1208925819614629174706176 + entropy

unfoldable pub new_ulid : ℕ → ℕ → Text
new_ulid milliseconds entropy = encode 26 (ulid_value milliseconds entropy) []

-- The value of a digit is its place in the alphabet.
abbrev pub place_of : Text → ℕ → ℕ
place_of [] c = 0
place_of (d ∷ s) c = let rest = place_of s c in if d == c then 0 else suc rest

-- The number that digits stand for, after those of `value`.
unfoldable pub decode : ℕ → Text → ℕ
decode value [] = value
decode value (c ∷ s) = decode (value * 32 + place_of alphabet c) s

-- The number of texts of so many digits.
abbrev pub capacity : ℕ → ℕ
capacity zero = 1
capacity (suc n) = 32 * capacity n

abbrev all_below : ℕ → (ℕ → Bool) → Bool
all_below zero p = true
all_below (suc n) p = p n && all_below n p

all_below_at : (n : ℕ) (p : ℕ → Bool) (i : ℕ) → all_below n p ≡ true → i < n → p i ≡ true
all_below_at zero p i h k = absurd (omega (arith, k))
all_below_at (suc n) p i h k = elim (Bool-cases (i == n)) [
  | inl e ↦ ap p ((==_iff i n).0 e) ∙ and_left _ _ h
  | inr e ↦ all_below_at n p i (and_right _ _ h) (ground (arith, ==_iff i n))
]

place_of-digit : (i : ℕ) → i < 32 → place_of alphabet (digit i) ≡ i
unfolding digit
place_of-digit i h =
    (==_iff (place_of alphabet (digit i)) i).0
      (all_below_at 32 (λ i. place_of alphabet (digit i) == i) i refl h)

digit-is_crockford : (i : ℕ) → i < 32 → is_crockford (digit i) ≡ true
unfolding digit
digit-is_crockford i h = all_below_at 32 (λ i. is_crockford (digit i)) i refl h

decode-encode :
    (n value : ℕ) (encoded : Text)
    → value < capacity n
    → decode 0 (encode n value encoded) ≡ decode value encoded
unfolding encode decode
decode-encode zero value encoded h = ap (λ v. decode v encoded) (omega (arith, h))
decode-encode (suc n) value encoded h =
    decode-encode n (value / 32) (digit (value % 32) ∷ encoded) (omega (arith, h))
    ∙ ap (λ v. decode v encoded) (omega (arith, place_of-digit (value % 32) (omega arith)))

-- A ULID stands for the time with the random bits, for 50 bits of time and 80 of entropy.
pub decode-new_ulid :
    (milliseconds entropy : ℕ)
    → milliseconds < 1125899906842624
    → entropy < 1208925819614629174706176
    → decode 0 (new_ulid milliseconds entropy) ≡ ulid_value milliseconds entropy
unfolding new_ulid decode
decode-new_ulid milliseconds entropy h k =
    decode-encode 26 (ulid_value milliseconds entropy) [] (omega (arith, h, k))

length-encode :
    (n value : ℕ) (encoded : Text) → length (encode n value encoded) ≡ n + length encoded
unfolding encode
length-encode zero value encoded = omega arith
length-encode (suc n) value encoded =
    omega (arith, length-encode n (value / 32) (digit (value % 32) ∷ encoded))

encode-is_crockford :
    (n value : ℕ) (encoded : Text)
    → all is_crockford encoded ≡ true
    → all is_crockford (encode n value encoded) ≡ true
unfolding encode
encode-is_crockford zero value encoded h = h
encode-is_crockford (suc n) value encoded h =
    encode-is_crockford n (value / 32) (digit (value % 32) ∷ encoded)
      (simp (digit-is_crockford (value % 32) (omega arith), h))

abbrev starts_low : Text → Bool
starts_low [] = false
starts_low (c ∷ s) = leb 48 c && leb c 55

encode-starts_low :
    (n value : ℕ) (encoded : Text)
    → value < 8 * capacity n
    → starts_low (encode (suc n) value encoded) ≡ true
unfolding encode digit
encode-starts_low zero value encoded h =
    all_below_at 8 (λ i. starts_low (digit (i % 32) ∷ [])) value refl (omega (arith, h))
encode-starts_low (suc n) value encoded h =
    encode-starts_low n (value / 32) (digit (value % 32) ∷ encoded) (omega (arith, h))

is_ulid-parts :
    (s : Text) → length s ≡ 26 → all is_crockford s ≡ true → starts_low s ≡ true → is_ulid s ≡ true
is_ulid-parts [] h k l = ground arith
is_ulid-parts (c ∷ s) h k l = ground (arith, ==_iff (length s) 25)

-- A ULID has the form that the external ids of checks are matched against, for 48 bits of time and 80
-- of entropy.
pub new_ulid-is_ulid :
    (milliseconds entropy : ℕ)
    → milliseconds < 281474976710656
    → entropy < 1208925819614629174706176
    → is_ulid (new_ulid milliseconds entropy) ≡ true
unfolding new_ulid
new_ulid-is_ulid milliseconds entropy h k =
    let value = ulid_value milliseconds entropy in
    is_ulid-parts (encode 26 value []) (length-encode 26 value [])
      (encode-is_crockford 26 value [] refl) (encode-starts_low 25 value [] (omega (arith, h, k)))

digit-increasing : (i j : ℕ) → i < j → j < 32 → ltb (digit i) (digit j) ≡ true
unfolding digit
digit-increasing i j h k =
    all_below_at j (λ i. ltb (digit i) (digit j)) i
      (all_below_at 32 (λ j. all_below j (λ i. ltb (digit i) (digit j))) j refl k) h

-- What is encoded before two texts in order leaves them in order.
encode_before :
    (n value : ℕ) (s t : Text)
    → text_lt s t ≡ true
    → text_lt (encode n value s) (encode n value t) ≡ true
unfolding encode text_lt
encode_before zero value s t h = h
encode_before (suc n) value s t h =
    encode_before n (value / 32) (digit (value % 32) ∷ s) (digit (value % 32) ∷ t)
      (simp (==_refl (digit (value % 32)), h, or_true))

encode-increasing :
    (n value value' : ℕ) (s t : Text)
    → value < value'
    → value' < capacity n
    → text_lt (encode n value s) (encode n value' t) ≡ true
unfolding encode text_lt
encode-increasing zero value value' s t h k = absurd (omega (arith, h, k))
encode-increasing (suc n) value value' s t h k = elim (Bool-cases (value / 32 == value' / 32)) [
  | inl e ↦
      subst
        (λ q.
          text_lt (encode n (value / 32) (digit (value % 32) ∷ s))
            (encode n q (digit (value' % 32) ∷ t))
          ≡ true)
        ((==_iff (value / 32) (value' / 32)).0 e)
        (encode_before n (value / 32) (digit (value % 32) ∷ s) (digit (value' % 32) ∷ t) (
          simp (
            digit-increasing (value % 32) (value' % 32)
              (ground (arith, ==_iff (value / 32) (value' / 32), e)) (omega arith))))
  | inr e ↦
      encode-increasing n (value / 32) (value' / 32) (digit (value % 32) ∷ s)
        (digit (value' % 32) ∷ t) (ground (arith, ==_iff (value / 32) (value' / 32)))
        (omega (arith, k))
]

-- ULIDs of a later time come after those of an earlier one in the order of texts, whatever the random
-- bits are, for 50 bits of time and 80 of entropy.
pub new_ulid-increasing :
    (milliseconds later entropy entropy' : ℕ)
    → milliseconds < later
    → later < 1125899906842624
    → entropy < 1208925819614629174706176
    → entropy' < 1208925819614629174706176
    → text_lt (new_ulid milliseconds entropy) (new_ulid later entropy') ≡ true
unfolding new_ulid
new_ulid-increasing milliseconds later entropy entropy' h k l m =
    encode-increasing 26 (ulid_value milliseconds entropy) (ulid_value later entropy') [] []
      (omega (arith, h, l)) (omega (arith, k, m))
