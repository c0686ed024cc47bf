-- ===== src/AmountInput/Printed.antt =====
-- A printed amount is read back (crates/nightfall-wallet/src/amount_input.rs and `decimal_string` in
-- crates/nightfall-types/src/lib.rs).
use nightfall.Common.{
  ℕ, ◌+◌, ◌*◌, ◌/◌, ◌%◌, ◌^◌, ◌≤◌, ◌<◌, ◌≡◌, ◌∙◌, ap, refl, true, false, List, [], ◌∷◌, ◌++◌, arith,
  map, length, inl,
}
use nightfall.Common.Result.{ok}
use nightfall.Common.Text.{is_whitespace, has_space, trim_solid}
use nightfall.Common.Digits.{
  all_digits, is_digit, number, show, show_padded, show_fuel-digits, show_padded-digits,
  number-show_fuel, number-show_padded, length-show_padded,
}
use nightfall.Types.{decimal_string}
use nightfall.AmountInput.{pointed, normalised, parse_night}
use nightfall.AmountInput.Exact.{value, parse_night_iff}

digit_solid : (ch : ℕ) → is_digit ch ≡ true → (is_whitespace ch ≡ false) × (pointed ch ≡ ch)
unfolding is_digit is_whitespace pointed
digit_solid ch h = ground (arith, h)

digits_solid : (ds : List ℕ) → all_digits ds ≡ true → (has_space ds ≡ false) × (map pointed ds ≡ ds)
unfolding all_digits
digits_solid [] h = (refl, refl)
digits_solid (d ∷ ds) h =
    ground (arith, h, digit_solid d (ground (arith, h)), digits_solid ds (ground (arith, h)))

joined_solid :
    (whole frac : List ℕ)
    → all_digits whole ≡ true
    → all_digits frac ≡ true
    → (has_space (whole ++ b'.' ∷ frac) ≡ false)
      × (map pointed (whole ++ b'.' ∷ frac) ≡ whole ++ b'.' ∷ frac)
unfolding all_digits pointed is_whitespace
joined_solid [] frac h k = ground (arith, digits_solid frac k)
joined_solid (d ∷ ds) frac h k =
    ground (arith, h, digit_solid d (ground (arith, h)), joined_solid ds frac (ground (arith, h)) k)

exact_value :
    (darks : ℕ) (whole frac : List ℕ)
    → number 0 whole ≡ darks / 100_000_000
    → number 0 frac ≡ 0 * 10 ^ 8 + darks % 100_000_000
    → length frac ≡ 8
    → darks ≡ value whole frac
exact_value darks whole frac nw nf len = rw len (rw nw (rw nf (omega arith)))

-- An amount of more than none and at most the supply, printed with eight decimals, is read back as
-- itself.
pub parse-decimal_string :
    (darks : ℕ)
    → 0 < darks
    → darks ≤ 9_000_000_000_000_000
    → parse_night (decimal_string darks) ≡ ok darks
unfolding decimal_string normalised show
parse-decimal_string darks pos_ most =
    let whole = show (darks / 100_000_000) in
    let frac = show_padded 8 (darks % 100_000_000) in
    let dw = show_fuel-digits 20 (darks / 100_000_000) in
    let df = show_padded-digits 8 (darks % 100_000_000) in
    let (solid, same) = joined_solid whole frac dw df in
    let len = length-show_padded 8 (darks % 100_000_000) in
    let nw = number-show_fuel 20 (darks / 100_000_000) (omega (arith, most)) in
    let nf = number-show_padded 8 (darks % 100_000_000) 0 (omega arith) in
    (parse_night_iff (decimal_string darks) darks).1 (
      whole,
      frac,
      inl (ap (map pointed) (trim_solid (whole ++ b'.' ∷ frac) solid) ∙ same),
      (
        dw,
        df,
        omega (arith, len),
        omega (arith, len),
        exact_value darks whole frac nw nf len,
        pos_,
        most,
      ),
    )
