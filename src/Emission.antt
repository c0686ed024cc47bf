-- ===== src/Emission.antt =====
-- `EmissionSchedule` of crates/nightfall-consensus/src/lib.rs: the block reward by height.
pub mod Cap
mod Tests
use nightfall.Common.{ℕ, ◌-◌, ◌*◌, ◌/◌, ◌^◌, min, leb, ◌==◌, ◌||◌, if◌then◌else◌}
use nightfall.Types.{
  darks_per_night, max_supply_darks, halving_interval_blocks, initial_block_reward_night,
}

pub record EmissionSchedule : Type 0 where
  pub initial_reward_darks : ℕ
  pub halving_interval : ℕ
  pub max_supply_darks : ℕ

unfoldable pub locked_mainnet : EmissionSchedule
locked_mainnet = record {
  initial_reward_darks = initial_block_reward_night * darks_per_night;
  halving_interval = halving_interval_blocks;
  max_supply_darks = max_supply_darks;
}

-- `>>` by a shift below the word's width is a division by the power of two.
unfoldable pub theoretical_reward_at : EmissionSchedule → ℕ → ℕ
theoretical_reward_at e height =
    if (e.initial_reward_darks == 0) || (e.halving_interval == 0)
    then 0
    else if leb 64 (height / e.halving_interval)
    then 0
    else e.initial_reward_darks / 2 ^ (height / e.halving_interval)

unfoldable pub reward_at : EmissionSchedule → ℕ → ℕ → ℕ
reward_at e height total_minted_darks =
    if leb e.max_supply_darks total_minted_darks
    then 0
    else min (theoretical_reward_at e height) (e.max_supply_darks - total_minted_darks)
