-- ===== src/Types.antt =====
-- crates/nightfall-types/src/lib.rs: the protocol constants, the parameters of each network, amounts
-- of coin, the 32-byte hash, and the fair-launch genesis.
--
-- A `u64`, `u32` or `u16` is a number. `[u8; 32]` is the number that its bytes spell with the most
-- significant first, so the order of arrays is the order of numbers.
pub mod Laws
mod Tests
use Prim.Native.String.{String}
use text.Mathlib.Text.{◌==◌ as str_eq}
use nightfall.Common.{
  ℕ, ◌+◌, ◌*◌, ◌/◌, ◌%◌, ◌^◌, zero, suc, Option, none, some, List, [], ◌∷◌, ◌++◌, Bool, ◌||◌, not,
  true, false, ◌==◌, leb, if◌then◌else◌, max, length,
}
use nightfall.Common.Digits.{show, show_padded}
use nightfall.Common.Text.{codes}
use nightfall.Common.Words.{checked_add, checked_sub, checked_mul, saturating_add}

abbrev pub protocol_version : ℕ
protocol_version = 8

abbrev pub darks_per_night : ℕ
darks_per_night = 100_000_000

abbrev pub max_supply_night : ℕ
max_supply_night = 90_000_000

abbrev pub max_supply_darks : ℕ
max_supply_darks = max_supply_night * darks_per_night

abbrev pub initial_block_reward_night : ℕ
initial_block_reward_night = 6

abbrev pub halving_interval_blocks : ℕ
halving_interval_blocks = 7_500_000

abbrev pub target_block_time_secs : ℕ
target_block_time_secs = 15

abbrev pub difficulty_window : ℕ
difficulty_window = 90

abbrev pub network_floor : ℕ
network_floor = 2_000

abbrev pub binding_fork_height_mainnet : ℕ
binding_fork_height_mainnet = 500_000

abbrev pub max_future_drift_secs : ℕ
max_future_drift_secs = 120

abbrev pub mtp_window : ℕ
mtp_window = 11

-- The pinned block: its height and its hash.
abbrev pub checkpoints : List (ℕ × ℕ)
checkpoints = (25_000, 0x71c8b97b1e8a20f9f29d9e873110e41223b0c96aa9ce773feaee78c97bdd247e) ∷ []

find_pin : ℕ → List (ℕ × ℕ) → Option ℕ
find_pin height [] = none
find_pin height ((h, hash) ∷ pins) = if h == height then some hash else find_pin height pins

unfoldable pub checkpoint_at : ℕ → Option ℕ
unfolding find_pin
checkpoint_at height = find_pin height checkpoints

highest_pin : List (ℕ × ℕ) → ℕ
highest_pin [] = 0
highest_pin ((h, hash) ∷ pins) = max h (highest_pin pins)

unfoldable pub highest_checkpoint_height : ℕ
unfolding highest_pin
highest_checkpoint_height = highest_pin checkpoints

pub data NetworkId : Type 0 where
  mainnet testnet devnet : NetworkId

pub record PowParams : Type 0 where
  pub memory_kib : ℕ
  pub iterations : ℕ
  pub lanes : ℕ

unfoldable pub memory_bytes : PowParams → ℕ
memory_bytes p = p.memory_kib * 1024

unfoldable pub initial_difficulty : NetworkId → ℕ
initial_difficulty mainnet = 5_000
initial_difficulty testnet = 30_000
initial_difficulty devnet = 60

unfoldable pub min_difficulty : NetworkId → ℕ
min_difficulty mainnet = network_floor
min_difficulty testnet = 1_000
min_difficulty devnet = 1

unfoldable pub proof_context : NetworkId → List ℕ
proof_context mainnet = codes "nightfall:mainnet:v8"
proof_context testnet = codes "nightfall:testnet:v8"
proof_context devnet = codes "nightfall:devnet:v8"

unfoldable pub pow_params : NetworkId → PowParams
pow_params mainnet = record { memory_kib = 32 * 1024; iterations = 1; lanes = 1 }
pow_params testnet = record { memory_kib = 8 * 1024; iterations = 1; lanes = 1 }
pow_params devnet = record { memory_kib = 1024; iterations = 1; lanes = 1 }

unfoldable pub binding_fork_height : NetworkId → ℕ
binding_fork_height mainnet = binding_fork_height_mainnet
binding_fork_height testnet = 0
binding_fork_height devnet = 20

-- `Amount` wraps a count of darks, so the count stands for it. `from_night`:
unfoldable pub from_night : ℕ → Option ℕ
from_night whole = checked_mul whole darks_per_night

-- `Amount::checked_add` and `Amount::checked_sub`.
unfoldable pub amount_checked_add : ℕ → ℕ → Option ℕ
amount_checked_add a b = checked_add a b

unfoldable pub amount_checked_sub : ℕ → ℕ → Option ℕ
amount_checked_sub a b = checked_sub a b

-- The leading zeros of a byte, `u8::leading_zeros`.
byte_leading_zeros : ℕ → ℕ
byte_leading_zeros b =
    if leb 128 b
    then 0
    else if leb 64 b
    then 1
    else if leb 32 b
    then 2
    else if leb 16 b
    then 3
    else if leb 8 b
    then 4
    else if leb 4 b
    then 5
    else if leb 2 b
    then 6
    else if leb 1 b
    then 7
    else 8

-- `Hash256::leading_zero_bits`, over the bytes with the most significant first.
unfoldable pub leading_zero_bits : List ℕ → ℕ
unfolding byte_leading_zeros
leading_zero_bits [] = 0
leading_zero_bits (b ∷ bytes) = if b == 0 then 8 + leading_zero_bits bytes else byte_leading_zeros b

-- `Height::next`.
unfoldable pub next : ℕ → ℕ
next h = saturating_add h 1

pub record GenesisAllocation : Type 0 where
  pub label : String
  pub amount : ℕ

pub record GenesisConfig : Type 0 where
  pub network : NetworkId
  pub chain_name : String
  pub coin_name : String
  pub ticker : String
  pub allocations : List GenesisAllocation
  pub protocol_version : ℕ
  pub max_supply_night : ℕ
  pub initial_reward_night : ℕ
  pub halving_interval : ℕ

unfoldable pub fair_launch : NetworkId → GenesisConfig
fair_launch network = record {
  network = network;
  chain_name = "nightfall";
  coin_name = "NIGHTFALLCOIN";
  ticker = "NIGHT";
  allocations = [];
  protocol_version = protocol_version;
  max_supply_night = max_supply_night;
  initial_reward_night = initial_block_reward_night;
  halving_interval = halving_interval_blocks;
}

-- The errors that `assert_fair` raises.
pub data TypesError : Type 0 where
  premine_forbidden : ℕ → TypesError
  identity_mismatch supply_mismatch : TypesError

unfoldable pub is_empty {ℓ} : {A : Type ℓ} → List A → Bool
is_empty [] = true
is_empty (x ∷ xs) = false

-- `Ok(())` is `none`.
unfoldable pub assert_fair : GenesisConfig → Option TypesError
unfolding is_empty
assert_fair g =
    if not (is_empty g.allocations)
    then some (premine_forbidden (length g.allocations))
    else if not (str_eq g.coin_name "NIGHTFALLCOIN") || not (str_eq g.ticker "NIGHT")
    then some identity_mismatch
    else if not (g.max_supply_night == max_supply_night)
    then some supply_mismatch
    else none

-- `Amount::decimal_string`: the whole coins, a point, and eight decimals.
unfoldable pub decimal_string : ℕ → List ℕ
decimal_string darks =
    show (darks / darks_per_night) ++ b'.' ∷ show_padded 8 (darks % darks_per_night)
