-- ===== src/Difficulty/Steering.antt =====
-- What the retarget of crates/nightfall-consensus/src/difficulty.rs guarantees of a chain's headers.
use native.Mathlib.Nat.{zero-add}
use nightfall.Common.{
  ℕ, zero, suc, ◌+◌, ◌-◌, ◌*◌, ◌/◌, ◌^◌, ◌≤◌, ◌<◌, ◌≡◌, ◌∙◌, subst, refl, List, [], ◌∷◌, arith,
  length, min, max, false, some, drop, All, All-drop, ltb,
}
use nightfall.Common.Int.{pos, ◌≤ℤ◌, int_laws}
use nightfall.Common.Words.{u64_mod}
use nightfall.Difficulty.{next_difficulty, retarget, over_window, lwma_loop, floored}
use nightfall.Difficulty.Loop.{
  total_difficulty, weights, IsSlow, IsFast, lwma_loop-total, lwma_loop-slow, lwma_loop-fast,
}
use nightfall.Difficulty.Bounds.{
  moved, Within, moved-Within, floored_pos, floored_slow, floored_fast, retarget-moved,
  quotient_slow, quotient_fast,
}

-- A header's difficulty is a positive u64.
abbrev pub IsHeader : ℕ × ℕ → Type 0
IsHeader (t, d) = (1 ≤ d) × (d < 2 ^ 64)

total_range :
    (rest : List (ℕ × ℕ))
    → All IsHeader rest
    → (length rest ≤ total_difficulty rest) × (total_difficulty rest ≤ length rest * 2 ^ 64)
unfolding total_difficulty
total_range [] h = omega arith
total_range ((t, d) ∷ rest) h = let ih = total_range rest h.1 in omega (arith, h.0)

-- The window: the header before it and the 90 headers in it.
window_split :
    (n : ℕ) (xs : List (ℕ × ℕ))
    → n < length xs
    → (x : ℕ × ℕ) × (rest : List (ℕ × ℕ)) × (drop n xs ≡ x ∷ rest)
      × (drop (suc n) xs ≡ rest)
      × (length rest + n + 1 ≡ length xs)
window_split n [] h = absurd (omega arith)
window_split zero (x ∷ xs) h = (x, xs, refl, refl, omega arith)
window_split (suc n) (x ∷ xs) h =
    let (y, rest, e, f, g) = window_split n xs (omega arith) in (y, rest, e, f, omega (arith, g))

over_window_open :
    (p d : ℕ) (rest : List (ℕ × ℕ)) (floor : ℕ)
    → over_window ((p, d) ∷ rest) floor
      ≡ retarget (lwma_loop 1 p rest (pos 0) 0).0 (lwma_loop 1 p rest (pos 0) 0).1 floor
unfolding over_window
over_window_open p d rest floor = refl

over_window_lem :
    (p d : ℕ) (rest : List (ℕ × ℕ)) (floor : ℕ)
    → All IsHeader rest
    → length rest ≡ 90
    → over_window ((p, d) ∷ rest) floor
      ≡ some (
          moved
            (total_difficulty rest / 90 * 61_425 / floored (lwma_loop 1 p rest (pos 0) 0).0)
            (total_difficulty rest / 90)
            floor)
over_window_lem p d rest floor h n =
    let range = total_range rest h in
    over_window_open p d rest floor
    ∙ rw (lwma_loop-total 1 p rest (pos 0) 0, zero-add)
        (retarget-moved (lwma_loop 1 p rest (pos 0) 0).0 (total_difficulty rest) floor
          (omega (arith, range, n)) (omega (arith, range, n)))

-- The average difficulty of the last 90 headers.
abbrev pub window_average : List (ℕ × ℕ) → ℕ
window_average history = total_difficulty (drop (length history - 90) history) / 90

-- The solve times of the last 90 headers, each measured from the header before it.
abbrev pub Paced : (ℕ → List (ℕ × ℕ) → Type 0) → List (ℕ × ℕ) → Type 0
Paced P [] = ⊥
Paced P ((prev, d) ∷ rest) = P prev rest

next_difficulty_long :
    (history : List (ℕ × ℕ)) (initial floor : ℕ)
    → 91 ≤ length history
    → next_difficulty history initial floor ≡ over_window (drop (length history - 91) history) floor
unfolding next_difficulty
next_difficulty_long history initial floor h =
    rw (let e : ltb (length history) 91 ≡ false = ground arith in e)

window_sum :
    (history : List (ℕ × ℕ)) (rest : List (ℕ × ℕ))
    → 91 ≤ length history
    → drop (suc (length history - 91)) history ≡ rest
    → (total_difficulty rest / 90 ≡ window_average history)
      × (All IsHeader history → All IsHeader rest)
window_sum history rest long e =
    let n : suc (length history - 91) ≡ length history - 90 = omega arith in
    (
      rw (← e, n),
      λ h. subst (All IsHeader) e (All-drop IsHeader (suc (length history - 91)) history h),
    )

moved_slow : (next avg floor : ℕ) → 1 ≤ avg → next ≤ avg → moved next avg floor ≤ max avg floor
moved_slow next avg floor p h = omega arith

moved_fast : (next avg floor : ℕ) → avg ≤ next → min avg (u64_mod - 1) ≤ moved next avg floor
moved_fast next avg floor h = omega arith

-- 90 rounds from weight 1 add up to half of 90 * 91.
weights_90 : weights 1 90 ≡ 4_095
unfolding weights
weights_90 = refl

loop_slow :
    (p : ℕ) (rest : List (ℕ × ℕ))
    → length rest ≡ 90
    → IsSlow p rest
    → pos 61_425 ≤ℤ (lwma_loop 1 p rest (pos 0) 0).0
loop_slow p rest n h = omega (int_laws, weights_90, rw n at (lwma_loop-slow 1 p rest (pos 0) 0 h))

loop_fast :
    (p : ℕ) (rest : List (ℕ × ℕ))
    → length rest ≡ 90
    → IsFast p rest
    → (lwma_loop 1 p rest (pos 0) 0).0 ≤ℤ pos 61_425
loop_fast p rest n h = omega (int_laws, weights_90, rw n at (lwma_loop-fast 1 p rest (pos 0) 0 h))

module _ (history : List (ℕ × ℕ)) (initial floor : ℕ) (long : 91 ≤ length history)
    (headers : All IsHeader history) where
  -- The next difficulty exists, and is the clamped quotient of the window.
  next_difficulty_lem :
      (x : ℕ × ℕ) × (rest : List (ℕ × ℕ)) × (drop (length history - 91) history ≡ x ∷ rest)
      × (length rest ≡ 90)
      × (next_difficulty history initial floor
          ≡ some (
              moved
                (window_average history * 61_425 / floored (lwma_loop 1 x.0 rest (pos 0) 0).0)
                (window_average history)
                floor))
      × (1 ≤ window_average history)
  next_difficulty_lem =
      let (x, rest, e, f, g) = window_split (length history - 91) history (omega arith) in
      let n : length rest ≡ 90 = omega (arith, g) in
      let (avg, all) = window_sum history rest long f in
      (
        x,
        rest,
        e,
        n,
        next_difficulty_long history initial floor long
            ∙ rw (e, ← avg) (over_window_lem x.0 x.1 rest floor (all headers) n),
        rw (← avg) (let range = total_range rest (all headers) in omega (arith, range, n)),
      )

  -- With 91 headers or more, each of a positive 64-bit difficulty, the next difficulty exists: no
  -- clamp panics, whatever the timestamps say. It is at least the network's floor, at least half the
  -- window's average or the largest u64, and at most twice the average unless the floor is higher.
  pub next_difficulty_bounds :
      (d : ℕ) × (next_difficulty history initial floor ≡ some d)
      × Within (window_average history) floor d
  next_difficulty_bounds =
      let (x, rest, e, n, h, p) = next_difficulty_lem in (_, h, moved-Within _ _ _)

  -- With 91 headers or more, each of a positive 64-bit difficulty: if every block of the window came
  -- the target time or more after the one before it, with timestamps below 2^63, the next difficulty
  -- exists and does not rise above the window's average, but for the floor.
  pub next_difficulty_slow :
      Paced IsSlow (drop (length history - 91) history)
      → (d : ℕ) × (next_difficulty history initial floor ≡ some d)
        × (d ≤ max (window_average history) floor)
  next_difficulty_slow slow =
      let (x, rest, e, n, h, p) = next_difficulty_lem in
      let t = subst (Paced IsSlow) e slow in
      (_, h, moved_slow _ _ floor p (quotient_slow _ _ (floored_slow _ (loop_slow x.0 rest n t))))

  -- With 91 headers or more, each of a positive 64-bit difficulty: if no block of the window came
  -- before the previous one or more than the target time after it, with timestamps below 2^63, the
  -- next difficulty exists and does not fall below the window's average, cut off at the largest u64.
  pub next_difficulty_fast :
      Paced IsFast (drop (length history - 91) history)
      → (d : ℕ) × (next_difficulty history initial floor ≡ some d)
        × (min (window_average history) (u64_mod - 1) ≤ d)
  next_difficulty_fast fast =
      let (x, rest, e, n, h, p) = next_difficulty_lem in
      let t = subst (Paced IsFast) e fast in
      let f = floored_fast _ (loop_fast x.0 rest n t) in
      (_, h, moved_fast _ _ floor (quotient_fast _ _ (floored_pos _) f))
