-- ===== src/Common/Digits.antt =====
-- Decimal numerals: reading a `u64` from digits and printing one.
use Prim.Native.Nat.{ℕ, zero, suc, ◌+◌, ◌-◌, ◌*◌, ◌/◌, ◌%◌, ◌^◌, ◌<◌}
use mathlib.Core.Path.{◌≡◌, refl}
use mathlib.Core.Bool.{Bool, true, ◌&&◌}
use mathlib.Core.List.{List, [], ◌∷◌, ◌++◌}
use mathlib.Core.Option.{Option, none, some}
use mathlib.Core.Logic.{inl, inr}
use native.Mathlib.Omega.{arith}
use native.Mathlib.Numerals.{unary_clauses}
use nightfall.Common.Tests.{ltb, leb, if◌then◌else◌, Bool-cases, ltb→lt}
use nightfall.Common.Lists.{length, length-append}
use nightfall.Common.Words.{u64_mod}

unfoldable pub is_digit : ℕ → Bool
is_digit ch = leb 48 ch && leb ch 57

unfoldable pub all_digits : List ℕ → Bool
all_digits [] = true
all_digits (ch ∷ rest) = is_digit ch && all_digits rest

-- The number that digits spell, after those already read.
unfoldable pub number : ℕ → List ℕ → ℕ
number acc [] = acc
number acc (ch ∷ rest) = number (acc * 10 + (ch - 48)) rest

-- `str::parse::<u64>` of a text of digits, one at least: it fails only on overflow.
unfoldable pub read_u64 : List ℕ → Option ℕ
read_u64 digits = let n = number 0 digits in if ltb n u64_mod then some n else none

unfoldable pub show_fuel : ℕ → ℕ → List ℕ
show_fuel zero n = []
show_fuel (suc fuel) n =
    let above = show_fuel fuel (n / 10) in (if ltb n 10 then [] else above) ++ (48 + n % 10) ∷ []

-- `{}` of a u64: at most twenty digits.
unfoldable pub show : ℕ → List ℕ
show n = show_fuel 20 n

-- `{:0w}` of a number below 10 to the `w`.
unfoldable pub show_padded : ℕ → ℕ → List ℕ
show_padded zero n = []
show_padded (suc w) n = show_padded w (n / 10) ++ (48 + n % 10) ∷ []

pub all_digits-append :
    (as_ bs : List ℕ) → all_digits (as_ ++ bs) ≡ (all_digits as_ && all_digits bs)
unfolding all_digits
all_digits-append [] bs = refl
all_digits-append (a ∷ as_) bs = ground (arith, all_digits-append as_ bs)

pub number-append :
    (acc : ℕ) (as_ bs : List ℕ) → number acc (as_ ++ bs) ≡ number (number acc as_) bs
unfolding number
number-append acc [] bs = refl
number-append acc (a ∷ as_) bs = number-append (acc * 10 + (a - 48)) as_ bs

pub show_fuel-digits : (fuel n : ℕ) → all_digits (show_fuel fuel n) ≡ true
unfolding show_fuel all_digits is_digit
show_fuel-digits zero n = refl
show_fuel-digits (suc fuel) n = ground (
  arith,
  all_digits-append (show_fuel fuel (n / 10)) ((48 + n % 10) ∷ []),
  show_fuel-digits fuel (n / 10),
)

pub number-show_fuel : (fuel n : ℕ) → n < 10 ^ fuel → number 0 (show_fuel fuel n) ≡ n
unfolding show_fuel number
number-show_fuel zero n h = omega (arith, h)
number-show_fuel (suc fuel) n h =
    let small : n / 10 < 10 ^ fuel = omega (arith, simp unary_clauses at h) in
    let last = number-append 0 (show_fuel fuel (n / 10)) ((48 + n % 10) ∷ []) in
    let before = number-show_fuel fuel (n / 10) small in
    elim (Bool-cases (ltb n 10)) [
      | inl e ↦ rw e (omega (arith, ltb→lt n 10 e))
      | inr e ↦ rw e (rw last (rw before (omega arith)))
    ]

pub show_padded-digits : (w n : ℕ) → all_digits (show_padded w n) ≡ true
unfolding show_padded all_digits is_digit
show_padded-digits zero n = refl
show_padded-digits (suc w) n = ground (
  arith,
  all_digits-append (show_padded w (n / 10)) ((48 + n % 10) ∷ []),
  show_padded-digits w (n / 10),
)

pub length-show_padded : (w n : ℕ) → length (show_padded w n) ≡ w
unfolding show_padded
length-show_padded zero n = refl
length-show_padded (suc w) n = omega (
  arith,
  length-append (show_padded w (n / 10)) ((48 + n % 10) ∷ []),
  length-show_padded w (n / 10),
)

pub number-show_padded :
    (w n acc : ℕ) → n < 10 ^ w → number acc (show_padded w n) ≡ acc * 10 ^ w + n
unfolding show_padded number
number-show_padded zero n acc h = omega (arith, h)
number-show_padded (suc w) n acc h =
    let small : n / 10 < 10 ^ w = omega (arith, simp unary_clauses at h) in
    rw (number-append acc (show_padded w (n / 10)) ((48 + n % 10) ∷ []))
      (rw (number-show_padded w (n / 10) acc small) (simp unary_clauses (omega arith)))
