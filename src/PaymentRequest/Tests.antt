-- ===== src/PaymentRequest/Tests.antt =====
-- The properties of payment requests, on a memo with spaces and a number of three digits.
use nightfall.Common.{ℕ, ◌≡◌, ◌↔◌, ◌<◌, ◌^◌, refl, Bool, true, none, some, List, [], ◌∷◌, arith}
use nightfall.Common.Result.{ok}
use nightfall.Common.Text.{codes}
use nightfall.Common.Digits.{show}
use nightfall.PaymentRequest.{parse_u64, decode_component, encode_component}
use nightfall.PaymentRequest.Component.{decode-encode_component}
use nightfall.PaymentRequest.Spelling.{parse_u64_iff}

any_text : List ℕ → Bool
any_text bytes = true

parse_u64_example : (parse_u64 (codes "105") ≡ some 105) ↔ (codes "105" ≡ show 105) × (105 < 2 ^ 64)
parse_u64_example = parse_u64_iff (codes "105") 105

second_spelling : parse_u64 (codes "0105") ≡ none
unfolding parse_u64 nightfall.Common.Digits.all_digits nightfall.Common.Digits.is_digit
second_spelling = refl

decode-encode_component_example :
    decode_component any_text (codes "two%20coffees%21") ≡ ok (codes "two coffees!")
unfolding any_text encode_component decode_component nightfall.PaymentRequest.is_unreserved
    nightfall.PaymentRequest.hex_char
decode-encode_component_example =
    decode-encode_component any_text (codes "two coffees!") (omega arith) refl

-- A plus in an escape is taken for its first digit.
plus_in_escape : decode_component any_text (codes "%+5") ≡ ok (5 ∷ [])
unfolding decode_component nightfall.PaymentRequest.decode_bytes nightfall.PaymentRequest.emit
    nightfall.PaymentRequest.onward nightfall.PaymentRequest.from_hex
    nightfall.PaymentRequest.hex_digit any_text
plus_in_escape = refl
