-- ===== src/PaymentRequest/Component.antt =====
-- Percent-encoded text is read back (crates/nightfall-wallet/src/payment_request.rs).
use nightfall.Common.{
  ℕ, ◌/◌, ◌%◌, ◌<◌, ◌≡◌, refl, Bool, true, false, some, List, [], ◌∷◌, arith, All, inl, inr,
  Bool-cases, ◌==◌,
}
use nightfall.Common.Result.{ok}
use nightfall.PaymentRequest.{
  hex_digit, from_hex, outside, onward, push, emit, decode_bytes, decode_component, is_unreserved,
  hex_char, encode_component, joined,
}

hex_back : (b : ℕ) → b < 256 → from_hex (hex_char (b / 16)) (hex_char (b % 16)) ≡ some b
unfolding from_hex hex_char hex_digit joined
hex_back b h = ground arith

safe_byte : (b : ℕ) → is_unreserved b ≡ true → (b == b'%') ≡ false
unfolding is_unreserved
safe_byte b h = ground arith

encoded_back :
    (s : List ℕ) → All (λ b. b < 256) s → decode_bytes outside (encode_component s) ≡ ok s
unfolding encode_component decode_bytes onward emit push
encoded_back [] h = refl
encoded_back (b ∷ bs) h = elim (Bool-cases (is_unreserved b)) [
  | inl e ↦ rw e (rw (safe_byte b e) (rw (encoded_back bs h.1) refl))
  | inr e ↦ rw e (rw (encoded_back bs h.1) (rw (hex_back b h.0) refl))
]

-- The encoding of a text is decoded to that text, whatever its bytes.
pub decode-encode_component :
    (is_utf8 : List ℕ → Bool) (s : List ℕ)
    → All (λ b. b < 256) s
    → is_utf8 s ≡ true
    → decode_component is_utf8 (encode_component s) ≡ ok s
unfolding decode_component
decode-encode_component is_utf8 s h u = ground (arith, encoded_back s h, u)
