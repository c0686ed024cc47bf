-- ===== src/Difficulty/Bounds.antt =====
-- The arithmetic of one retarget of crates/nightfall-consensus/src/difficulty.rs.
use native.Mathlib.Nat.{mul-le-mul_left, mul-le-mul_right, div-le_of_le-mul, le-div_iff_mul-le}
use nightfall.Common.{ℕ, ◌-◌, ◌*◌, ◌/◌, ◌^◌, ◌≤◌, ◌<◌, ◌≡◌, ◌∙◌, refl, arith, min, max, none, some}
use nightfall.Common.Int.{ℤ, pos, ◌≤ℤ◌}
use nightfall.Common.Words.{u64_mod, saturating_mul128}
use nightfall.Difficulty.{retarget, floored, clamp, div_or}

-- The clamps around a quotient: twice and half the average, the width of a u64, the floor.
abbrev pub moved : ℕ → ℕ → ℕ → ℕ
moved next avg floor = max (min (min (max next (max (avg / 2) 1)) (2 * avg)) (u64_mod - 1)) floor

pub floored_pos : (w : ℤ) → 1 ≤ floored w
unfolding floored
floored_pos w = omega arith

retarget_lem :
    (w : ℤ) (sum floor : ℕ)
    → retarget w sum floor
      ≡ elim (clamp
          (div_or (saturating_mul128 (sum / 90) 61_425) (floored w) (sum / 90))
          (max (sum / 90 / 2) 1)
          (saturating_mul128 (sum / 90) 2)) [
            | none ↦ none
            | some clamped ↦ some (max (min clamped (u64_mod - 1)) floor)
          ]
unfolding retarget
retarget_lem w sum floor = refl

clamp_lem :
    (x lower upper : ℕ) → lower ≤ upper → clamp x lower upper ≡ some (min (max x lower) upper)
unfolding clamp
clamp_lem x lower upper h = ground arith

div_or_lem : (a b default : ℕ) → 1 ≤ b → div_or a b default ≡ a / b
unfolding div_or
div_or_lem a b default h = ground arith

retarget_by :
    (w : ℤ) (sum floor : ℕ)
    → saturating_mul128 (sum / 90) 61_425 ≡ sum / 90 * 61_425
    → saturating_mul128 (sum / 90) 2 ≡ 2 * (sum / 90)
    → 1 ≤ floored w
    → max (sum / 90 / 2) 1 ≤ 2 * (sum / 90)
    → retarget w sum floor ≡ some (moved (sum / 90 * 61_425 / floored w) (sum / 90) floor)
retarget_by w sum floor e f p l =
    retarget_lem w sum floor
    ∙ rw (e, f, div_or_lem (sum / 90 * 61_425) (floored w) (sum / 90) p, clamp_lem _ _ _ l)

pub retarget-moved :
    (w : ℤ) (sum floor : ℕ)
    → 90 ≤ sum
    → sum < 2 ^ 71
    → retarget w sum floor ≡ some (moved (sum / 90 * 61_425 / floored w) (sum / 90) floor)
retarget-moved w sum floor h k =
    retarget_by w sum floor (omega arith) (omega arith) (floored_pos w) (omega arith)

-- Where the next difficulty may lie, against the average of the window.
abbrev pub Within : ℕ → ℕ → ℕ → Type 0
Within avg floor d = (floor ≤ d) × (min (avg / 2) (u64_mod - 1) ≤ d) × (d ≤ max (2 * avg) floor)

pub moved-Within : (next avg floor : ℕ) → Within avg floor (moved next avg floor)
moved-Within next avg floor = omega arith

pub floored_slow : (w : ℤ) → pos 61_425 ≤ℤ w → 61_425 ≤ floored w
unfolding floored
floored_slow w h = ground arith

pub floored_fast : (w : ℤ) → w ≤ℤ pos 61_425 → floored w ≤ 61_425
unfolding floored
floored_fast w h = ground arith

pub quotient_slow : (avg f : ℕ) → 61_425 ≤ f → avg * 61_425 / f ≤ avg
quotient_slow avg f h = div-le_of_le-mul f (grind (arith, mul-le-mul_right avg h))

pub quotient_fast : (avg f : ℕ) → 1 ≤ f → f ≤ 61_425 → avg ≤ avg * 61_425 / f
quotient_fast avg f p h = (le-div_iff_mul-le p).1 (grind (arith, mul-le-mul_left avg h))
