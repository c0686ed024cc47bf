-- ===== src/Difficulty/Loop.antt =====
-- The sums of the retarget loop of crates/nightfall-consensus/src/difficulty.rs.
use native.Mathlib.Nat.{mul-le-mul_right}
use nightfall.Common.{ℕ, zero, suc, ◌+◌, ◌*◌, ◌^◌, ◌≤◌, ◌<◌, ◌≡◌, List, [], ◌∷◌, arith, length}
use nightfall.Common.Int.{ℤ, pos, ◌+ℤ◌, ◌≤ℤ◌, scale, scale_parts, int_laws}
use nightfall.Difficulty.{solvetime, lwma_loop}

-- The difficulties of a list of headers, added up.
unfoldable pub total_difficulty : List (ℕ × ℕ) → ℕ
total_difficulty [] = 0
total_difficulty ((t, d) ∷ rest) = d + total_difficulty rest

-- The weights of `n` rounds from round `i` on.
unfoldable pub weights : ℕ → ℕ → ℕ
weights i zero = 0
weights i (suc n) = i + weights (i + 1) n

-- Every block came at least (at most) a target after the one before it, in the range of i64.
abbrev pub IsSlow : ℕ → List (ℕ × ℕ) → Type 0
IsSlow prev [] = Unit
IsSlow prev ((t, d) ∷ rest) = (prev + 15 ≤ t) × (t < 2 ^ 63) × IsSlow t rest

abbrev pub IsFast : ℕ → List (ℕ × ℕ) → Type 0
IsFast prev [] = Unit
IsFast prev ((t, d) ∷ rest) = (prev ≤ t) × (t ≤ prev + 15) × (t < 2 ^ 63) × IsFast t rest

pub lwma_loop-total :
    (i p : ℕ) (rest : List (ℕ × ℕ)) (w : ℤ) (s : ℕ)
    → (lwma_loop i p rest w s).1 ≡ s + total_difficulty rest
unfolding lwma_loop total_difficulty
lwma_loop-total i p [] w s = omega arith
lwma_loop-total i p ((t, d) ∷ rest) w s = omega (arith, lwma_loop-total (i + 1) t rest _ (s + d))

solvetime_slow : (p t : ℕ) → p + 15 ≤ t → t < 2 ^ 63 → pos 15 ≤ℤ solvetime p t
unfolding solvetime
solvetime_slow p t h k = ground arith

solvetime_fast : (p t : ℕ) → p ≤ t → t ≤ p + 15 → t < 2 ^ 63 → solvetime p t ≤ℤ pos 15
unfolding solvetime
solvetime_fast p t h k l = ground arith

scale_mono : (a b : ℤ) (k : ℕ) → a ≤ℤ b → scale a k ≤ℤ scale b k
scale_mono a b k h = omega (arith, scale_parts a k, scale_parts b k, mul-le-mul_right k h)

pub lwma_loop-slow :
    (i p : ℕ) (rest : List (ℕ × ℕ)) (w : ℤ) (s : ℕ)
    → IsSlow p rest
    → w +ℤ pos (15 * weights i (length rest)) ≤ℤ (lwma_loop i p rest w s).0
unfolding lwma_loop weights
lwma_loop-slow i p [] w s h = omega int_laws
lwma_loop-slow i p ((t, d) ∷ rest) w s h = omega (
  int_laws,
  lwma_loop-slow (i + 1) t rest (w +ℤ scale (solvetime p t) i) (s + d) h.2,
  scale_mono (pos 15) (solvetime p t) i (solvetime_slow p t h.0 h.1),
  scale_parts (pos 15) i,
)

pub lwma_loop-fast :
    (i p : ℕ) (rest : List (ℕ × ℕ)) (w : ℤ) (s : ℕ)
    → IsFast p rest
    → (lwma_loop i p rest w s).0 ≤ℤ w +ℤ pos (15 * weights i (length rest))
unfolding lwma_loop weights
lwma_loop-fast i p [] w s h = omega int_laws
lwma_loop-fast i p ((t, d) ∷ rest) w s h = omega (
  int_laws,
  lwma_loop-fast (i + 1) t rest (w +ℤ scale (solvetime p t) i) (s + d) h.3,
  scale_mono (solvetime p t) (pos 15) i (solvetime_fast p t h.0 h.1 h.2),
  scale_parts (pos 15) i,
)
