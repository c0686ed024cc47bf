-- ===== src/Crypto/Toy.antt =====
-- A concrete set of primitives, for the tests: points are integers, both generators are 1, and the
-- hash adds its bytes up. Encodings that leave the remainder 2 by 3 are no points.
use nightfall.Common.{
  ℕ, ◌+◌, ◌*◌, ◌/◌, ◌%◌, ◌≡◌, ◌↔◌, Bool, true, none, some, Option, List, [], ◌∷◌, arith, ◌==◌,
  if◌then◌else◌, leb, length,
}
use nightfall.Common.Int
use nightfall.Common.Int.{ℤ, pos, negsuc, pos_part, neg_part, ◌+ℤ◌, int_laws, scale_parts, sub_ℕ}
use nightfall.Crypto.{Primitives}

abbrev pub toy_neg : ℤ → ℤ
toy_neg z = sub_ℕ (neg_part z) (pos_part z)

abbrev pub toy_eq : ℤ → ℤ → Bool
toy_eq a b = pos_part a + neg_part b == pos_part b + neg_part a

abbrev pub toy_compress : ℤ → ℕ
toy_compress (pos n) = 3 * n
toy_compress (negsuc n) = 3 * n + 1

abbrev pub toy_decompress : ℕ → Option ℤ
toy_decompress m =
    if m % 3 == 0 then some (pos (m / 3)) else if m % 3 == 1 then some (negsuc (m / 3)) else none

abbrev pub byte_sum : List ℕ → ℕ
byte_sum [] = 0
byte_sum (b ∷ bytes) = b + byte_sum bytes

pub toy_add_assoc : (p q r : ℤ) → p +ℤ q +ℤ r ≡ p +ℤ (q +ℤ r)
toy_add_assoc p q r = omega int_laws

pub toy_add_comm : (p q : ℤ) → p +ℤ q ≡ q +ℤ p
toy_add_comm p q = omega int_laws

pub toy_add_identity : (p : ℤ) → p +ℤ pos 0 ≡ p
toy_add_identity p = omega int_laws

pub toy_add_neg : (p : ℤ) → p +ℤ toy_neg p ≡ pos 0
unfolding ◌+ℤ◌
toy_add_neg p = ground arith

pub toy_eq_iff : (p q : ℤ) → (toy_eq p q ≡ true) ↔ (p ≡ q)
toy_eq_iff p q = ground arith

pub toy_decompress-compress : (p : ℤ) → toy_decompress (toy_compress p) ≡ some p
toy_decompress-compress (pos n) = ground arith
toy_decompress-compress (negsuc n) = ground arith

pub toy_scale-add : (p : ℤ) (a b : ℕ) → Int.scale p (a + b) ≡ Int.scale p a +ℤ Int.scale p b
toy_scale-add p a b = omega (int_laws, scale_parts p (a + b), scale_parts p a, scale_parts p b)

pub toy_scale_zero : (p : ℤ) → Int.scale p 0 ≡ pos 0
toy_scale_zero p = omega (int_laws, scale_parts p 0)

abbrev pub toy : Primitives
toy = record {
  Point = ℤ;
  identity = pos 0;
  add = ◌+ℤ◌;
  neg = toy_neg;
  point_eq = toy_eq;
  decompress = toy_decompress;
  compress = toy_compress;
  Scalar = ℕ;
  scalar_zero = 0;
  scalar_add = λ a b. a + b;
  scalar_from = λ n. n;
  from_canonical_bytes = λ n. some n;
  to_bytes = λ n. n;
  from_wide = λ a b. 0;
  scale = Int.scale;
  base = pos 1;
  base_blinding = pos 1;
  blake3 = byte_sum;
  argon2id = λ memory iterations lanes password salt. byte_sum password;
  genesis_json = λ g. [];
  range_proof_verifies = λ label ctx proof commit. leb 1 (length proof);
  add_assoc = toy_add_assoc;
  add_comm = toy_add_comm;
  add_identity = toy_add_identity;
  add_neg = toy_add_neg;
  point_eq_iff = toy_eq_iff;
  decompress-compress = toy_decompress-compress;
  scale-add = toy_scale-add;
  scale_zero = toy_scale_zero;
}
