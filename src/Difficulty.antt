-- ===== src/Difficulty.antt =====
-- crates/nightfall-consensus/src/difficulty.rs: the LWMA-1 retarget and the median-time-past rule.
--
-- Timestamps and difficulties are u64 values. A timestamp is cast to i64 by its bit pattern and the
-- subtraction wraps, as in a release build. The other i64 terms stay within 90 rounds of at most
-- 90 * 90, so they are exact. `clamp` panics on an empty range, and `none` is that panic.
mod Loop
mod Bounds
pub mod Steering
pub mod Median
mod Tests
use nightfall.Common.{
  ℕ, zero, suc, ◌+◌, ◌-◌, ◌*◌, ◌/◌, ◌%◌, ◌^◌, min, max, Option, none, some, List, [], ◌∷◌, ltb, leb,
  ◌==◌, if◌then◌else◌, length, drop, get_elem?, Bool,
}
use nightfall.Common.Int.{ℤ, pos, negsuc, pos_part, neg_part, ◌+ℤ◌, ◌-ℤ◌, scale, ltb_ℤ}
use nightfall.Common.Words.{u64_mod, as_i64, saturating_mul128}
use nightfall.Types.{difficulty_window, target_block_time_secs, mtp_window}

-- The value of an i64 expression that may have wrapped.
unfoldable pub wrap_i64 : ℤ → ℤ
wrap_i64 z = as_i64 ((pos_part z + u64_mod - neg_part z) % u64_mod)

-- Solve times are clamped to -5 and 6 targets.
unfoldable pub clamp_solvetime : ℤ → ℤ
clamp_solvetime z =
    if ltb_ℤ z (negsuc 74) then negsuc 74 else if ltb_ℤ (pos 90) z then pos 90 else z

unfoldable pub solvetime : ℕ → ℕ → ℤ
unfolding wrap_i64 clamp_solvetime ◌-ℤ◌
solvetime prev_ts this_ts = clamp_solvetime (wrap_i64 (as_i64 this_ts -ℤ as_i64 prev_ts))

-- The loop over the window: the weighted solve time and the sum of the difficulties.
unfoldable pub lwma_loop : ℕ → ℕ → List (ℕ × ℕ) → ℤ → ℕ → ℤ × ℕ
lwma_loop i prev_ts [] weighted_solvetime difficulty_sum = (weighted_solvetime, difficulty_sum)
lwma_loop i prev_ts ((this_ts, d) ∷ rest) weighted_solvetime difficulty_sum =
    lwma_loop (i + 1) this_ts rest (weighted_solvetime +ℤ scale (solvetime prev_ts this_ts) i)
      (difficulty_sum + d)

-- `k`, the weighted solve time of a perfectly paced chain.
abbrev pub paced : ℕ
paced = difficulty_window * (difficulty_window + 1) * target_block_time_secs / 2

-- `u128::checked_div` with the default of the source.
div_or : ℕ → ℕ → ℕ → ℕ
div_or a b default = if b == 0 then default else a / b

-- `Ord::clamp`.
clamp : ℕ → ℕ → ℕ → Option ℕ
clamp x lower upper = if ltb upper lower then none else some (min (max x lower) upper)

-- The denominator: floored at a tenth of `k`, and at least one.
unfoldable pub floored : ℤ → ℕ
floored w =
    let w' = if ltb_ℤ w (pos (paced / 10)) then pos (paced / 10) else w in max (pos_part w') 1

-- From the two sums to the next difficulty.
unfoldable pub retarget : ℤ → ℕ → ℕ → Option ℕ
unfolding floored div_or clamp
retarget weighted_solvetime difficulty_sum min_difficulty =
    let avg_difficulty = difficulty_sum / difficulty_window in
    let next =
      div_or (saturating_mul128 avg_difficulty paced) (floored weighted_solvetime) avg_difficulty in
    let upper = saturating_mul128 avg_difficulty 2 in
    let lower = max (avg_difficulty / 2) 1 in
    elim (clamp next lower upper) [
      | none ↦ none
      | some clamped ↦ some (max (min clamped (u64_mod - 1)) min_difficulty)
    ]

over_window : List (ℕ × ℕ) → ℕ → Option ℕ
over_window [] min_difficulty = none
over_window ((prev_ts, d) ∷ rest) min_difficulty =
    let (weighted, sum) = lwma_loop 1 prev_ts rest (pos 0) 0 in retarget weighted sum min_difficulty

unfoldable pub next_difficulty : List (ℕ × ℕ) → ℕ → ℕ → Option ℕ
unfolding over_window
next_difficulty history initial min_difficulty =
    if ltb (length history) (difficulty_window + 1)
    then some (max initial min_difficulty)
    else over_window (drop (length history - (difficulty_window + 1)) history) min_difficulty

-- `sort_unstable` on numbers: their order is the same by any method.
insert_sorted : ℕ → List ℕ → List ℕ
insert_sorted x [] = x ∷ []
insert_sorted x (y ∷ ys) = if leb x y then x ∷ y ∷ ys else y ∷ insert_sorted x ys

unfoldable pub sort : List ℕ → List ℕ
unfolding insert_sorted
sort [] = []
sort (x ∷ xs) = insert_sorted x (sort xs)

-- `none` is an index out of range.
unfoldable pub median_time_past : List ℕ → Option ℕ
median_time_past [] = some 0
median_time_past (t ∷ ts) =
    let window = sort (drop (length (t ∷ ts) - min mtp_window (length (t ∷ ts))) (t ∷ ts)) in
    get_elem? window (length window / 2)
