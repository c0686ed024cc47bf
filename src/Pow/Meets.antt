-- ===== src/Pow/Meets.antt =====
-- What the limb-wise test of crates/nightfall-crypto/src/pow.rs decides.
use native.Mathlib.Nat.{mod-eq_of_lt}
use nightfall.Common.{
  ℕ, ◌+◌, ◌*◌, ◌/◌, ◌%◌, ◌^◌, ◌<◌, ◌≡◌, ◌↔◌, ap, if◌then◌else◌, refl, true, arith, ◌==◌,
}
use nightfall.Common.Words.{u64_mod, u128_mod}
use nightfall.Pow.{limbs, carry_out, meets_difficulty}

no_overflow : (l d c : ℕ) → l < u64_mod → d < u64_mod → c < u64_mod → l * d + c < u128_mod
no_overflow l d c hl hd hc = grind arith

-- One round of the loop cannot overflow 128 bits, so its carry is the exact quotient.
carry_step :
    (d l c : ℕ)
    → d < u64_mod
    → l < u64_mod
    → c < u64_mod
    → ((l * d + c) % u128_mod / u64_mod ≡ (l * d + c) / u64_mod) × ((l * d + c) / u64_mod < u64_mod)
carry_step d l c hd hl hc =
    let small : l * d + c < u128_mod = no_overflow l d c hl hd hc in
    (ap (λ t. t / u64_mod) (mod-eq_of_lt small), omega arith)

-- The four carries name the spill of the whole product.
spill :
    (x0 x1 x2 x3 : ℕ)
    → ((x3 + (x2 + (x1 + (x0 + 0) / u64_mod) / u64_mod) / u64_mod) / u64_mod ≡ 0)
      ↔ (x0 + u64_mod * (x1 + u64_mod * (x2 + u64_mod * x3)) < 2 ^ 256)
spill x0 x1 x2 x3 = (omega arith, omega arith)

module _ (d n : ℕ) (hd : d < u64_mod) where
  carry_out_four :
      carry_out d 0 (limbs 4 n)
      ≡ (n / u64_mod / u64_mod / u64_mod % u64_mod * d
          + (n / u64_mod / u64_mod % u64_mod * d
              + (n / u64_mod % u64_mod * d + (n % u64_mod * d + 0) / u64_mod) / u64_mod)
            / u64_mod)
        / u64_mod
  unfolding carry_out limbs
  carry_out_four =
      let s0 = carry_step d (n % u64_mod) 0 hd (omega arith) (omega arith) in
      let s1 = carry_step d (n / u64_mod % u64_mod) _ hd (omega arith) s0.1 in
      let s2 = carry_step d (n / u64_mod / u64_mod % u64_mod) _ hd (omega arith) s1.1 in
      let s3 = carry_step d (n / u64_mod / u64_mod / u64_mod % u64_mod) _ hd (omega arith) s2.1 in
      rw (s0.0, s1.0, s2.0, s3.0)

  product_by_limbs :
      n < 2 ^ 256
      → n % u64_mod * d
          + u64_mod
            * (n / u64_mod % u64_mod * d
                + u64_mod
                  * (n / u64_mod / u64_mod % u64_mod * d
                      + u64_mod * (n / u64_mod / u64_mod / u64_mod % u64_mod * d)))
        ≡ n * d
  product_by_limbs h =
      let e : n % u64_mod
            + u64_mod
              * (n / u64_mod % u64_mod
                  + u64_mod
                    * (n / u64_mod / u64_mod % u64_mod
                        + u64_mod * (n / u64_mod / u64_mod / u64_mod % u64_mod)))
          ≡ n =
        omega arith in
      omega (arith, ap (λ (t : ℕ). t * d) e)

meets_difficulty_lem :
    (hash d : ℕ)
    → meets_difficulty hash d ≡ (if d == 0 then true else carry_out d 0 (limbs 4 hash) == 0)
unfolding meets_difficulty
meets_difficulty_lem hash d = refl

carry_out_zero :
    (hash d : ℕ)
    → d < u64_mod
    → hash < 2 ^ 256
    → (carry_out d 0 (limbs 4 hash) ≡ 0) ↔ (hash * d < 2 ^ 256)
carry_out_zero hash d hd h = rw (carry_out_four d hash hd) (
    rw (product_by_limbs d hash hd h) at (
      spill (hash % u64_mod * d) (hash / u64_mod % u64_mod * d)
        (hash / u64_mod / u64_mod % u64_mod * d)
        (hash / u64_mod / u64_mod / u64_mod % u64_mod * d)))

-- For a 256-bit hash and a 64-bit difficulty: the hash meets the difficulty exactly when their
-- product fits 256 bits, that is, when the hash is below 2^256 divided by the difficulty.
pub meets_difficulty_iff :
    (hash difficulty : ℕ)
    → hash < 2 ^ 256
    → difficulty < 2 ^ 64
    → (meets_difficulty hash difficulty ≡ true) ↔ (hash * difficulty < 2 ^ 256)
meets_difficulty_iff hash d h hd =
    let z = carry_out_zero hash d hd h in
    rw (meets_difficulty_lem hash d) (ground (arith, z.0), ground (arith, z.1))
