-- ===== src/Context/Paths.antt =====
-- `_normalize_path` and `_normalize_repository` of context/selector.py. A `ValueError` is `none`;
-- the type tests are those of the model.
use mathlib.Core.Path.{subst}
use pr_reliability_platform.Prelude.{
  ℕ, Bool, false, Option, none, some, List, [], ◌∷◌, ◌++◌, Text, codes, text_eq, contains, split,
  ends_with, any, nonempty, not, ◌==◌, ◌||◌, if◌then◌else◌, ◌≡◌, refl, arith, ◌>>=◌, text_eq-false,
  Any, Bool-cases, false-true, cons_to_head, ◌≢◌, All, true, later_false, if_lem, inr, first_false,
  ap, inl, ==_iff, sym, ◌∙◌, text_eq_refl,
}

abbrev pub slash : ℕ
slash = b'/'

-- `path.replace("\\", "/")`
unfoldable pub to_posix : Text → Text
to_posix [] = []
to_posix (c ∷ s) = (if c == 0x5c then slash else c) ∷ to_posix s

-- `part in {"", ".", ".."}`
abbrev pub is_dots : Text → Bool
is_dots part = text_eq part [] || (text_eq part (codes ".") || text_eq part (codes ".."))

abbrev pub starts_with_slash : Text → Bool
starts_with_slash [] = false
starts_with_slash (c ∷ s) = c == slash

-- `len(parts[0]) == 2 and parts[0][1] == ":"`
abbrev pub is_drive : List Text → Bool
is_drive ((a ∷ (b ∷ [])) ∷ parts) = b == b':'
is_drive _ = false

unfoldable pub is_unsafe : Text → Bool
is_unsafe normalized =
    not (nonempty normalized)
    || (starts_with_slash normalized
        || (ends_with normalized slash
            || (any is_dots (split slash normalized) || is_drive (split slash normalized))))

unfoldable pub normalize_path : Text → Option Text
normalize_path path = if is_unsafe (to_posix path) then none else some (to_posix path)

abbrev pub Repository : Type 0
Repository = List (Text × Text)

unfoldable pub lookup : Text → Repository → Option Text
lookup p [] = none
lookup p ((q, content) ∷ files) = if text_eq p q then some content else lookup p files

abbrev pub paths : Repository → List Text
paths [] = []
paths ((q, content) ∷ files) = q ∷ paths files

-- The loop body: `normalized` is the dictionary so far, in insertion order.
unfoldable pub add_file : Text → Text → Repository → Option Repository
add_file raw_path content normalized = do
  path ← normalize_path raw_path
  if contains (paths normalized) path then none else some (normalized ++ (path, content) ∷ [])

unfoldable pub normalize_from : Repository → Repository → Option Repository
unfolding add_file
normalize_from normalized [] = some normalized
normalize_from normalized ((raw_path, content) ∷ files) = do
  normalized' ← add_file raw_path content normalized
  normalize_from normalized' files

unfoldable pub normalize_repository : Repository → Option Repository
unfolding normalize_from
normalize_repository files = normalize_from [] files

unfoldable pub normalize_all : List Text → Option (List Text)
normalize_all [] = some []
normalize_all (p ∷ ps) = do q ← normalize_path p; qs ← normalize_all ps; some (q ∷ qs)

to_posix_idempotent : (s : Text) → to_posix (to_posix s) ≡ to_posix s
unfolding to_posix
to_posix_idempotent [] = refl
to_posix_idempotent (c ∷ s) = ground (arith, to_posix_idempotent s)

to_posix-no_backslash : (s : Text) → any (λ c. c == 0x5c) (to_posix s) ≡ false
unfolding to_posix
to_posix-no_backslash [] = refl
to_posix-no_backslash (c ∷ s) = ground (arith, to_posix-no_backslash s)

-- A name of a file or a directory.
abbrev pub IsName : Text → Type 0
IsName part = (part ≢ []) × (part ≢ codes ".") × (part ≢ codes "..")

-- No drive letter.
abbrev pub HasNoDrive : List Text → Type 0
HasNoDrive parts = (c : ℕ) (rest : List Text) → parts ≢ (c ∷ b':' ∷ []) ∷ rest

-- A path of names between slashes, which goes down from its root.
abbrev pub IsSafe : Text → Type 0
IsSafe path = All IsName (split slash path) × HasNoDrive (split slash path)

ne_text : (s t : Text) → text_eq s t ≡ false → s ≢ t
ne_text s t h e = false-true h (ap (text_eq s) (sym e) ∙ text_eq_refl s)

is_dots-IsName : (part : Text) → is_dots part ≡ false → IsName part
is_dots-IsName part h =
    let k = later_false _ _ h in
    (
      ne_text part [] (first_false _ _ h),
      ne_text part (codes ".") (first_false _ _ k),
      ne_text part (codes "..") (later_false _ _ k),
    )

any-is_dots : (ps : List Text) → any is_dots ps ≡ false → All IsName ps
any-is_dots [] h = tt
any-is_dots (p ∷ ps) h = (is_dots-IsName p (first_false _ _ h), any-is_dots ps (later_false _ _ h))

IsName-is_dots : (part : Text) → IsName part → is_dots part ≡ false
IsName-is_dots part (a, b, c) =
    simp
      (text_eq-false part [] a, text_eq-false part (codes ".") b, text_eq-false part (codes "..") c)

All-is_dots : (ps : List Text) → All IsName ps → any is_dots ps ≡ false
All-is_dots [] h = refl
All-is_dots (p ∷ ps) h = simp (IsName-is_dots p h.0, All-is_dots ps h.1)

is_drive-HasNoDrive : (ps : List Text) → is_drive ps ≡ false → HasNoDrive ps
is_drive-HasNoDrive ps h c rest e = false-true h (ap is_drive e)

HasNoDrive-is_drive : (ps : List Text) → HasNoDrive ps → is_drive ps ≡ false
HasNoDrive-is_drive [] h = refl
HasNoDrive-is_drive ([] ∷ ps) h = refl
HasNoDrive-is_drive ((a ∷ []) ∷ ps) h = refl
HasNoDrive-is_drive ((a ∷ (b ∷ [])) ∷ ps) h = elim (Bool-cases (b == b':')) [
  | inl e ↦ absurd (h a ps (ap (λ c. (a ∷ (c ∷ [])) ∷ ps) ((==_iff b b':').0 e)))
  | inr e ↦ e
]
HasNoDrive-is_drive ((a ∷ (b ∷ (c ∷ s))) ∷ ps) h = refl

first_name : (c : ℕ) (s : Text) → All IsName (split slash (c ∷ s)) → (c == slash) ≡ false
unfolding split
first_name c s =
    if_lem (λ ps. All IsName ps → (c == slash) ≡ false) (c == slash) _ _
      (λ e h. absurd (h.0.0 refl)) (λ e h. e)

-- The parts after the first.
abbrev later_parts : List Text → List Text
later_parts [] = []
later_parts (p ∷ ps) = ps

later_parts-cons_to_head :
    (c : ℕ) (ps : List Text) → later_parts (cons_to_head c ps) ≡ later_parts ps
unfolding cons_to_head
later_parts-cons_to_head c [] = refl
later_parts-cons_to_head c (p ∷ ps) = refl

Any-later_parts : (ps : List Text) → Any (λ p. p ≡ []) (later_parts ps) → Any (λ p. p ≡ []) ps
Any-later_parts [] m = m
Any-later_parts (p ∷ ps) m = inr m

-- A path that ends with a slash has an empty part after the first.
ends_with-empty :
    (s : Text) → ends_with s slash ≡ true → Any (λ p. p ≡ []) (later_parts (split slash s))
unfolding ends_with split
ends_with-empty [] h = ground arith
ends_with-empty (x ∷ []) h = rw h (inl refl)
ends_with-empty (x ∷ (y ∷ s)) h =
    let rest = split slash (y ∷ s) in
    if_lem (λ ps. Any (λ p. p ≡ []) (later_parts ps)) (x == slash) _ _
      (λ e. Any-later_parts rest (ends_with-empty (y ∷ s) h))
      (λ e.
        subst (Any (λ p. p ≡ [])) (sym (later_parts-cons_to_head x rest))
          (ends_with-empty (y ∷ s) h))

names-not_empty : (ps : List Text) → All IsName ps → Any (λ p. p ≡ []) ps → ⊥
names-not_empty [] h m = m
names-not_empty (p ∷ ps) h (inl e) = h.0.0 e
names-not_empty (p ∷ ps) h (inr m) = names-not_empty ps h.1 m

IsSafe-ends_with : (s : Text) → All IsName (split slash s) → ends_with s slash ≡ false
IsSafe-ends_with s h = elim (Bool-cases (ends_with s slash)) [
  | inl e ↦
      absurd
        (names-not_empty (split slash s) h (Any-later_parts (split slash s) (ends_with-empty s e)))
  | inr e ↦ e
]

IsSafe-is_unsafe : (s : Text) → IsSafe s → is_unsafe s ≡ false
unfolding is_unsafe
IsSafe-is_unsafe [] h = absurd (unfold split in h.0.0.0 refl)
IsSafe-is_unsafe (c ∷ s) h = simp (
  first_name c s h.0,
  IsSafe-ends_with (c ∷ s) h.0,
  All-is_dots (split slash (c ∷ s)) h.0,
  HasNoDrive-is_drive (split slash (c ∷ s)) h.1,
)

is_unsafe-IsSafe : (s : Text) → is_unsafe s ≡ false → IsSafe s
unfolding is_unsafe
is_unsafe-IsSafe s h =
    let parted =
      later_false (ends_with s slash) _
        (later_false (starts_with_slash s) _ (later_false (not (nonempty s)) _ h)) in
    (
      any-is_dots (split slash s) (first_false _ _ parted),
      is_drive-HasNoDrive (split slash s) (later_false _ _ parted),
    )

-- The outcome for a path: it is refused, or accepted as a text that is in order.
abbrev pub IsNormal : Text → Option Text → Type 0
IsNormal path none = IsSafe (to_posix path) → ⊥
IsNormal path (some normalized) =
    (normalized ≡ to_posix path)
    × IsSafe normalized
    × (any (λ c. c == 0x5c) normalized ≡ false)
    × (normalize_path normalized ≡ some normalized)

-- A path is accepted just when its parts between slashes, of either kind, are names, which are not
-- empty, `.` or `..`, and it has no drive letter. The accepted text is the path with its backslashes
-- turned into slashes; it has no backslash, and it is accepted again as it is.
pub normalize_path-IsNormal : (path : Text) → IsNormal path (normalize_path path)
unfolding normalize_path
normalize_path-IsNormal path =
    if_lem (IsNormal path) (is_unsafe (to_posix path)) _ _
      (λ e h. false-true (IsSafe-is_unsafe (to_posix path) h) e)
      (λ e. (
        refl,
        is_unsafe-IsSafe (to_posix path) e,
        to_posix-no_backslash path,
        simp (to_posix_idempotent path, e),
      ))
