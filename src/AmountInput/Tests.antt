-- ===== src/AmountInput/Tests.antt =====
-- The properties of typed amounts, on "1,5" with white space around it and on 12.5 printed.
use nightfall.Common.{ℕ, ◌≡◌, ◌↔◌, refl, List, [], arith}
use nightfall.Common.Result.{ok, err}
use nightfall.Common.Text.{codes}
use nightfall.AmountInput.{normalised, parse_night, too_precise, two_points}
use nightfall.AmountInput.Exact.{AreWritten, AreParts, parse_night_iff}
use nightfall.AmountInput.Printed.{parse-decimal_string}

one_and_a_half : parse_night (codes " 1,5 ") ≡ ok 150_000_000
unfolding parse_night nightfall.AmountInput.is_empty normalised nightfall.Common.Text.trim
    nightfall.Common.Text.trim_end nightfall.Common.Text.trim_start
    nightfall.Common.Text.is_whitespace nightfall.AmountInput.pointed nightfall.AmountInput.of_parts
    nightfall.AmountInput.has_point nightfall.AmountInput.split_point
    nightfall.Common.Digits.all_digits nightfall.Common.Digits.is_digit
    nightfall.AmountInput.whole_night nightfall.Common.Digits.read_u64
    nightfall.Common.Digits.number nightfall.AmountInput.pad nightfall.AmountInput.in_darks
    nightfall.AmountInput.starts_with
one_and_a_half = refl

ninth_place : parse_night (codes "0.123456789") ≡ err too_precise
unfolding parse_night nightfall.AmountInput.is_empty normalised nightfall.Common.Text.trim
    nightfall.Common.Text.trim_end nightfall.Common.Text.trim_start
    nightfall.Common.Text.is_whitespace nightfall.AmountInput.pointed nightfall.AmountInput.of_parts
    nightfall.AmountInput.has_point nightfall.AmountInput.split_point
    nightfall.Common.Digits.all_digits nightfall.Common.Digits.is_digit
ninth_place = refl

parse_night_example : (parse_night (codes " 1,5 ") ≡ ok 150_000_000) ↔ (
    (whole : List ℕ) × (frac : List ℕ) × AreWritten (normalised (codes " 1,5 ")) whole frac
    × AreParts whole frac 150_000_000)
parse_night_example = parse_night_iff (codes " 1,5 ") 150_000_000

parse-decimal_string_example : parse_night (codes "12.50000000") ≡ ok 1_250_000_000
unfolding nightfall.Types.decimal_string nightfall.Common.Digits.show
    nightfall.Common.Digits.show_fuel nightfall.Common.Digits.show_padded
parse-decimal_string_example = parse-decimal_string 1_250_000_000 (omega arith) (omega arith)
