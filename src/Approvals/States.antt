-- ===== src/Approvals/States.antt =====
-- The state machine of a run, packages/contracts/src/pr_reliability_contracts/runs.py.
use pr_reliability_platform.Prelude.{
  ℕ, ◌+◌, ◌≤◌, ◌<◌, Bool, true, false, List, [], ◌∷◌, any, length, ◌==◌, ◌≡◌, refl, ◌⊎◌, inl, inr,
  arith, Bool-cases, ◌-◌, not, ◌||◌,
}
use pr_reliability_platform.Approvals.Tables.{
  RunState, queued, selecting_context, analyzing, verifying, awaiting_approval, published, rejected,
  failed, cancelled, allowed_transitions, number, state_eq,
}

unfoldable pub can_transition : RunState → RunState → Bool
can_transition current target = any (state_eq target) (allowed_transitions current)

-- The states that a run takes one after the other, by transitions that are allowed.
abbrev pub IsPath : RunState → List RunState → RunState → Type 0
IsPath s [] u = state_eq s u ≡ true
IsPath s (t ∷ ts) u = (can_transition s t ≡ true) × IsPath t ts u

-- The transitions that are left, at most.
abbrev pub left : RunState → ℕ
left queued = 5
left selecting_context = 4
left analyzing = 3
left verifying = 2
left awaiting_approval = 1
left _ = 0

left-number : (t : RunState) → left t ≡ 5 - number t
left-number queued = omega arith
left-number selecting_context = omega arith
left-number analyzing = omega arith
left-number verifying = omega arith
left-number awaiting_approval = omega arith
left-number published = omega arith
left-number rejected = omega arith
left-number failed = omega arith
left-number cancelled = omega arith

transition-left : (s t : RunState) → can_transition s t ≡ true → left t < left s
unfolding can_transition
transition-left queued t h = let k = left-number t in ground arith
transition-left selecting_context t h = let k = left-number t in ground arith
transition-left analyzing t h = let k = left-number t in ground arith
transition-left verifying t h = let k = left-number t in ground arith
transition-left awaiting_approval t h = let k = left-number t in ground arith
transition-left published t h = let k = left-number t in ground arith
transition-left rejected t h = let k = left-number t in ground arith
transition-left failed t h = let k = left-number t in ground arith
transition-left cancelled t h = let k = left-number t in ground arith

length-IsPath : (s u : RunState) (ts : List RunState) → IsPath s ts u → length ts ≤ left s
length-IsPath s u [] h = omega arith
length-IsPath s u (t ∷ ts) h = omega (arith, transition-left s t h.0, length-IsPath t u ts h.1)

-- Some state of the path awaits approval.
abbrev pub waits : List RunState → Bool
waits ts = any (λ t. state_eq t awaiting_approval) ts

-- Before the approval, the next state is the one that follows, or the path ends badly.
transition-number :
    (s t : RunState)
    → number s < 4
    → can_transition s t ≡ true
    → (number t ≡ number s + 1) ⊎ (6 ≤ number t)
unfolding can_transition
transition-number queued t k h = ground arith
transition-number selecting_context t k h = ground arith
transition-number analyzing t k h = ground arith
transition-number verifying t k h = ground arith
transition-number awaiting_approval t k h = ground arith
transition-number published t k h = ground arith
transition-number rejected t k h = ground arith
transition-number failed t k h = ground arith
transition-number cancelled t k h = ground arith

terminal-transition : (s t : RunState) → 5 < number s → can_transition s t ≡ true → ⊥
unfolding can_transition
terminal-transition queued t k h = ground arith
terminal-transition selecting_context t k h = ground arith
terminal-transition analyzing t k h = ground arith
terminal-transition verifying t k h = ground arith
terminal-transition awaiting_approval t k h = ground arith
terminal-transition published t k h = ground arith
terminal-transition rejected t k h = ground arith
terminal-transition failed t k h = ground arith
terminal-transition cancelled t k h = ground arith

terminal-IsPath : (s : RunState) (ts : List RunState) → 5 < number s → IsPath s ts published → ⊥
terminal-IsPath s [] k h = ground arith
terminal-IsPath s (t ∷ ts) k h = terminal-transition s t k h.0

next_below : (m n : ℕ) → m < 4 → n ≡ m + 1 → (n == 4) ≡ false → n < 4
next_below m n k e w = ground arith

waits-IsPath :
    (s : RunState) (ts : List RunState) → number s < 4 → IsPath s ts published → waits ts ≡ true
waits-IsPath s [] k h = ground arith
waits-IsPath s (t ∷ ts) k h = elim (transition-number s t k h.0) [
  | inl e ↦ elim (Bool-cases (state_eq t awaiting_approval)) [
    | inl w ↦ simp w
    | inr w ↦ simp (w, waits-IsPath t ts (next_below (number s) (number t) k e w) h.1)
  ]
  | inr e ↦ absurd (terminal-IsPath t ts e h.1)
]

waits_or_unpublished :
    (u : RunState) (ts : List RunState)
    → IsPath queued ts u
    → not (state_eq u published) || waits ts ≡ true
waits_or_unpublished published ts h = waits-IsPath queued ts (omega arith) h
waits_or_unpublished queued ts h = refl
waits_or_unpublished selecting_context ts h = refl
waits_or_unpublished analyzing ts h = refl
waits_or_unpublished verifying ts h = refl
waits_or_unpublished awaiting_approval ts h = refl
waits_or_unpublished rejected ts h = refl
waits_or_unpublished failed ts h = refl
waits_or_unpublished cancelled ts h = refl

-- From the queue, a run takes five transitions at most, whatever state it comes to; and if that state
-- is published, the run awaited approval on the way.
pub published-IsPath :
    (u : RunState) (ts : List RunState)
    → IsPath queued ts u
    → (length ts ≤ 5) × (not (state_eq u published) || waits ts ≡ true)
published-IsPath u ts h = (length-IsPath queued u ts h, waits_or_unpublished u ts h)
