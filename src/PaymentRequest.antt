-- ===== src/PaymentRequest.antt =====
-- crates/nightfall-wallet/src/payment_request.rs: the parts of a payment request's line: numbers
-- and percent-encoded text.
--
-- A text is the list of its bytes. `is_utf8` stands for `String::from_utf8`, which tells whether
-- bytes are a text.
pub mod Spelling
pub mod Component
mod Tests
use nightfall.Common.{
  ℕ, ◌+◌, ◌-◌, ◌*◌, ◌/◌, ◌%◌, Bool, true, false, not, ◌&&◌, ◌||◌, none, some, Option, List, [], ◌∷◌,
  ◌++◌, ltb, leb, ◌==◌, if◌then◌else◌, length,
}
use nightfall.Common.Result.{Result, ok, err, ◌>>=◌, ◌>>◌, require, ok_or}
use nightfall.Common.Digits.{all_digits, read_u64, show, show_padded}
use nightfall.Common.Text.{codes}
use nightfall.Types.{NetworkId, mainnet, testnet, devnet, max_supply_darks, darks_per_night}

pub data RequestError : Type 0 where
  too_long not_a_request bad_address missing_network : RequestError
  unknown_network : List ℕ → RequestError
  wrong_network : NetworkId → NetworkId → RequestError
  bad_amount amount_too_large memo_too_long invoice_too_long bad_expiry : RequestError
  unknown_parameter repeated_parameter : List ℕ → RequestError
  bad_encoding : RequestError

unfoldable pub same_network : NetworkId → NetworkId → Bool
same_network mainnet mainnet = true
same_network testnet testnet = true
same_network devnet devnet = true
same_network mainnet testnet = false
same_network mainnet devnet = false
same_network testnet mainnet = false
same_network testnet devnet = false
same_network devnet mainnet = false
same_network devnet testnet = false

-- `require_network` and `is_expired`, on the fields of a request that they read.
unfoldable pub require_network : NetworkId → NetworkId → Result RequestError (Unit {0})
require_network asked wallet = require (same_network asked wallet) (wrong_network asked wallet)

unfoldable pub is_expired : Option ℕ → ℕ → Bool
is_expired none now_unix = false
is_expired (some deadline) now_unix = ltb deadline now_unix

unfoldable pub amount_text : Option ℕ → List ℕ
amount_text none = codes "any amount " ++ (0xE2 ∷ 0x80 ∷ 0x94 ∷ codes " you choose")
amount_text (some darks) =
    show (darks / darks_per_night)
    ++ (b'.' ∷ (show_padded 8 (darks % darks_per_night) ++ codes " NIGHT"))

starts_with_zero : List ℕ → Bool
starts_with_zero [] = false
starts_with_zero (ch ∷ rest) = ch == b'0'

unfoldable pub parse_u64 : List ℕ → Option ℕ
unfolding starts_with_zero
parse_u64 value =
    if length value == 0 || not (all_digits value)
    then none
    else if ltb 1 (length value) && starts_with_zero value
    then none
    else read_u64 value

unfoldable pub parse_darks : List ℕ → Result RequestError ℕ
parse_darks value = do
  darks ← ok_or (parse_u64 value) bad_amount
  require (not (ltb max_supply_darks darks)) amount_too_large
  ok darks

unfoldable pub hex_digit : ℕ → Option ℕ
hex_digit ch =
    if leb b'0' ch && leb ch b'9'
    then some (ch - b'0')
    else if leb b'a' ch && leb ch b'f'
    then some (ch - b'a' + 10)
    else if leb b'A' ch && leb ch b'F'
    then some (ch - b'A' + 10)
    else none

joined : Option ℕ → Option ℕ → Option ℕ
joined none low = none
joined (some high) none = none
joined (some high) (some low) = some (high * 16 + low)

-- `u8::from_str_radix(text, 16)` of two bytes: a plus may stand in the place of the first digit.
unfoldable pub from_hex : ℕ → ℕ → Option ℕ
unfolding joined
from_hex a b = if a == b'+' then hex_digit b else joined (hex_digit a) (hex_digit b)

-- Where the loop of `decode_component` stands: outside an escape, behind its `%`, and behind the
-- first byte after that.
pub data Place : Type 0 where
  outside behind_percent : Place
  behind_first : ℕ → Place

unfoldable pub onward : Place → ℕ → Place
onward outside ch = if ch == b'%' then behind_percent else outside
onward behind_percent ch = behind_first ch
onward (behind_first a) ch = outside

push : Option ℕ → Result RequestError (List ℕ) → Result RequestError (List ℕ)
push none rest = err bad_encoding
push (some byte) rest = rest >>= λ bytes. ok (byte ∷ bytes)

unfoldable pub emit : Place → ℕ → Result RequestError (List ℕ) → Result RequestError (List ℕ)
unfolding push
emit outside ch rest = if ch == b'%' then rest else push (some ch) rest
emit behind_percent ch rest = rest
emit (behind_first a) ch rest = push (from_hex a ch) rest

unfoldable pub decode_bytes : Place → List ℕ → Result RequestError (List ℕ)
decode_bytes outside [] = ok []
decode_bytes behind_percent [] = err bad_encoding
decode_bytes (behind_first a) [] = err bad_encoding
decode_bytes outside (ch ∷ rest) = emit outside ch (decode_bytes (onward outside ch) rest)
decode_bytes behind_percent (ch ∷ rest) =
    emit behind_percent ch (decode_bytes (onward behind_percent ch) rest)
decode_bytes (behind_first a) (ch ∷ rest) =
    emit (behind_first a) ch (decode_bytes (onward (behind_first a) ch) rest)

unfoldable pub decode_component : (List ℕ → Bool) → List ℕ → Result RequestError (List ℕ)
decode_component is_utf8 raw = do
  out ← decode_bytes outside raw
  require (is_utf8 out) bad_encoding
  ok out

unfoldable pub is_unreserved : ℕ → Bool
is_unreserved b =
    leb b'0' b && leb b b'9'
    || leb b'A' b && leb b b'Z'
    || leb b'a' b && leb b b'z'
    || b == b'-'
    || b == b'.'
    || b == b'_'
    || b == b'~'

unfoldable pub hex_char : ℕ → ℕ
hex_char n = if ltb n 10 then b'0' + n else b'A' + (n - 10)

unfoldable pub encode_component : List ℕ → List ℕ
encode_component [] = []
encode_component (b ∷ bs) =
    let rest = encode_component bs in
    if is_unreserved b then b ∷ rest else b'%' ∷ hex_char (b / 16) ∷ hex_char (b % 16) ∷ rest
