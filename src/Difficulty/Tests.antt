-- ===== src/Difficulty/Tests.antt =====
-- A chain of a hundred headers, 15 seconds apart.
use nightfall.Common.{ℕ, zero, suc, ◌+◌, ◌*◌, ◌^◌, ◌<◌, ◌≡◌, List, [], ◌∷◌, arith, All, some}
use nightfall.Difficulty.{next_difficulty}
use nightfall.Difficulty.Bounds.{Within}
use nightfall.Difficulty.Loop.{IsSlow, IsFast}
use nightfall.Difficulty.Steering.{IsHeader, Paced, window_average, next_difficulty_bounds}

-- `n` headers from the time `t` on.
abbrev steady : ℕ → ℕ → List (ℕ × ℕ)
steady zero t = []
steady (suc n) t = (t, 1_000) ∷ steady n (t + 15)

abbrev steady_chain : List (ℕ × ℕ)
steady_chain = steady 100 0

steady-IsHeader : (n t : ℕ) → All IsHeader (steady n t)
steady-IsHeader zero t = tt
steady-IsHeader (suc n) t = ((omega arith, omega arith), steady-IsHeader n (t + 15))

steady-IsSlow : (n t : ℕ) → t + 15 * n < 2 ^ 63 → Paced IsSlow (steady (suc n) t)
steady-IsSlow zero t h = tt
steady-IsSlow (suc n) t h = (omega arith, omega arith, steady-IsSlow n (t + 15) (omega arith))

steady-IsFast : (n t : ℕ) → t + 15 * n < 2 ^ 63 → Paced IsFast (steady (suc n) t)
steady-IsFast zero t h = tt
steady-IsFast (suc n) t h =
    (omega arith, omega arith, omega arith, steady-IsFast n (t + 15) (omega arith))

next_difficulty_bounds_example :
    (d : ℕ) × (next_difficulty steady_chain 1 1 ≡ some d) × Within (window_average steady_chain) 1 d
next_difficulty_bounds_example =
    next_difficulty_bounds steady_chain 1 1 (omega arith) (steady-IsHeader 100 0)
