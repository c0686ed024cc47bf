-- ===== src/Types/Tests.antt =====
-- A genesis with nothing handed out, and two amounts.
use nightfall.Common.{[]}
use nightfall.Types.{GenesisConfig, mainnet}

abbrev fair_genesis : GenesisConfig
fair_genesis = record {
  network = mainnet;
  chain_name = "nightfall-mainnet";
  coin_name = "NIGHTFALLCOIN";
  ticker = "NIGHT";
  allocations = [];
  protocol_version = 1;
  max_supply_night = 90_000_000;
  initial_reward_night = 6;
  halving_interval = 7_500_000;
}
