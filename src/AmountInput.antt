-- ===== src/AmountInput.antt =====
-- crates/nightfall-wallet/src/amount_input.rs: an amount typed by a person, as darks.
--
-- A text is the list of its code points; what is not ASCII is no digit and no point.
pub mod Exact
pub mod Printed
mod Tests
use nightfall.Common.{
  ℕ, zero, suc, Bool, true, false, not, ◌&&◌, ◌||◌, none, some, Option, List, [], ◌∷◌, map, ltb,
  ◌==◌, if◌then◌else◌, length,
}
use nightfall.Common.Result.{Result, ok, err, ◌>>=◌, ◌>>◌, require, ok_or}
use nightfall.Common.Text.{trim}
use nightfall.Common.Digits.{all_digits, number, read_u64}
use nightfall.Common.Words.{checked_add, checked_mul}
use nightfall.Types.{darks_per_night, max_supply_darks}

abbrev pub decimals : ℕ
decimals = 8

pub data AmountError : Type 0 where
  no_text negative signed not_digits two_points too_precise zero_amount too_large : AmountError

-- A comma is a decimal point.
unfoldable pub pointed : ℕ → ℕ
pointed ch = if ch == b',' then b'.' else ch

unfoldable pub normalised : List ℕ → List ℕ
normalised text = map pointed (trim text)

-- `split_once('.')`, and the whole text with nothing behind it where there is no point.
unfoldable pub split_point : List ℕ → List ℕ × List ℕ
split_point [] = ([], [])
split_point (ch ∷ rest) =
    let (whole, frac) = split_point rest in if ch == b'.' then ([], rest) else (ch ∷ whole, frac)

unfoldable pub has_point : List ℕ → Bool
has_point [] = false
has_point (ch ∷ rest) = ch == b'.' || has_point rest

starts_with : ℕ → List ℕ → Bool
starts_with c [] = false
starts_with c (ch ∷ rest) = ch == c

unfoldable pub is_empty : List ℕ → Bool
is_empty [] = true
is_empty (ch ∷ rest) = false

-- Zeros are pushed until there are enough digits.
unfoldable pub pad : ℕ → List ℕ → List ℕ
pad zero digits = digits
pad (suc n) [] = b'0' ∷ pad n []
pad (suc n) (d ∷ ds) = d ∷ pad n ds

unfoldable pub whole_night : List ℕ → Option ℕ
whole_night [] = some 0
whole_night (d ∷ ds) = read_u64 (d ∷ ds)

-- `whole.checked_mul(DARKS_PER_NIGHT).and_then(|d| d.checked_add(frac))`.
in_darks : Option ℕ → ℕ → Option ℕ
in_darks none frac = none
in_darks (some darks) frac = checked_add darks frac

unfoldable pub of_parts : List ℕ → List ℕ → Result AmountError ℕ
unfolding in_darks
of_parts whole frac = do
  require (not (has_point frac)) two_points
  require (not (is_empty whole && is_empty frac)) not_digits
  require (all_digits whole && all_digits frac) not_digits
  require (not (ltb decimals (length frac))) too_precise
  night ← ok_or (whole_night whole) too_large
  darks ←
      ok_or (in_darks (checked_mul night darks_per_night) (number 0 (pad decimals frac))) too_large
  require (not (darks == 0)) zero_amount
  require (not (ltb max_supply_darks darks)) too_large
  ok darks

unfoldable pub parse_night : List ℕ → Result AmountError ℕ
unfolding starts_with
parse_night text =
    if is_empty (normalised text)
    then err no_text
    else if starts_with b'-' (normalised text)
    then err negative
    else if starts_with b'+' (normalised text)
    then err signed
    else let (whole, frac) = split_point (normalised text) in of_parts whole frac
