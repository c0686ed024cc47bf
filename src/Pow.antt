-- ===== src/Pow.antt =====
-- crates/nightfall-crypto/src/pow.rs: the test of a hash against a difficulty, and the work of a
-- block. A hash is its 256-bit number.
pub mod Meets
pub mod Nighthash
mod Tests
use nightfall.Common.{
  ℕ, zero, suc, ◌+◌, ◌*◌, ◌/◌, ◌%◌, ◌^◌, Bool, true, List, [], ◌∷◌, ◌==◌, if◌then◌else◌, max,
}
use nightfall.Common.Words.{u64_mod, u128_mod}

-- The 64-bit limbs of a number, the least significant first.
limbs : ℕ → ℕ → List ℕ
limbs zero n = []
limbs (suc k) n = (n % u64_mod) ∷ limbs k (n / u64_mod)

-- The carry loop: what spills past the last limb of the product.
carry_out : ℕ → ℕ → List ℕ → ℕ
carry_out difficulty carry [] = carry
carry_out difficulty carry (limb ∷ rest) =
    carry_out difficulty ((limb * difficulty + carry) % u128_mod / u64_mod) rest

unfoldable pub meets_difficulty : ℕ → ℕ → Bool
unfolding limbs carry_out
meets_difficulty hash difficulty =
    if difficulty == 0 then true else carry_out difficulty 0 (limbs 4 hash) == 0

unfoldable pub block_work : ℕ → ℕ
block_work difficulty = max difficulty 1
