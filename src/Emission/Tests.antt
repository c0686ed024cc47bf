-- ===== src/Emission/Tests.antt =====
-- The rewards of the mainnet schedule at heights around a halving.
use nightfall.Common.{◌≤◌, ◌≡◌}
use nightfall.Emission.{locked_mainnet, theoretical_reward_at, reward_at}
use nightfall.Emission.Cap.{minted_below, schedule_meets_cap}

schedule_meets_cap_example :
    (reward_at locked_mainnet 2 (minted_below locked_mainnet 2)
      ≡ theoretical_reward_at locked_mainnet 2)
    × (minted_below locked_mainnet 2 ≤ 9_000_000_000_000_000)
schedule_meets_cap_example = schedule_meets_cap 2
