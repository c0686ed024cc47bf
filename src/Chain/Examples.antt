-- ===== src/Chain/Examples.antt =====
-- A devnet chain of two blocks, each of a coinbase alone, over the toy primitives.
use nightfall.Common.{ℕ, none, some, [], ◌∷◌, true}
use nightfall.Common.Int.{ℤ, pos}
use nightfall.Crypto.Kernel
use nightfall.Crypto.Output
use nightfall.Body.{BlockBody}
use nightfall.Utxo.{UtxoEntry}
use nightfall.Ledger.{LedgerState, StateUndo}
use nightfall.Ledger.Examples.{output_of, kernel_of}
use nightfall.Types.{devnet}
use nightfall.Chain.{Chain, Block, CompactHeader, TipUndo}
use nightfall.Chain.Suffix.{SuffixTrial, SuffixReorg}

abbrev entry_at : ℕ → UtxoEntry
entry_at height = record { output_pk = 3; height = height; is_coinbase = true }

abbrev coinbase_body : ℕ → ℕ → ℕ → BlockBody
coinbase_body commit excess height = record {
  inputs = [];
  outputs = output_of Output.coinbase commit ∷ [];
  kernels = kernel_of Kernel.coinbase 0 600_000_000 height excess ∷ [];
  stealth_offset = none;
  kernel_offset = none;
}

abbrev pub first_block : Block
first_block = record {
  header = record {
    version = 8;
    height = 0;
    prev_hash = 2008;
    utxo_root = 2838;
    kernel_sum = 3;
    body_root = 2804;
    timestamp_unix = 100;
    difficulty = 60;
    nonce = 0;
    reward_darks = 600_000_000;
  };
  body = coinbase_body 1_800_000_003 3 0;
}

abbrev pub second_block : Block
second_block = record {
  header = record {
    version = 8;
    height = 1;
    prev_hash = 1947;
    utxo_root = 2032;
    kernel_sum = 9;
    body_root = 2811;
    timestamp_unix = 115;
    difficulty = 60;
    nonce = 0;
    reward_darks = 600_000_000;
  };
  body = coinbase_body 1_800_000_006 6 1;
}

abbrev first_header : CompactHeader
first_header = record {
  height = 0;
  hash = 1947;
  prev_hash = 2008;
  timestamp_unix = 100;
  difficulty = 60;
}

abbrev second_header : CompactHeader
second_header = record {
  height = 1;
  hash = 1874;
  prev_hash = 1947;
  timestamp_unix = 115;
  difficulty = 60;
}

abbrev undo_of : StateUndo → TipUndo
undo_of state = record { work = 60; state = state }

abbrev no_blocks : LedgerState ℤ
no_blocks = record {
  height = 0;
  utxos = record { entries = []; sum = pos 0; malformed = 0; summed = 0 };
  kernels = record { sum = 0; count = 0 };
  supply = record { total_minted_darks = 0; total_burned_darks = 0 };
  tx_count = 0;
  coinbase_maturity = 10;
  binding_height = 20;
}

abbrev after_first : LedgerState ℤ
after_first = record {
  height = 0;
  utxos = record {
    entries = (1_800_000_003, entry_at 0) ∷ [];
    sum = pos 600_000_001;
    malformed = 0;
    summed = 1;
  };
  kernels = record { sum = 3; count = 1 };
  supply = record { total_minted_darks = 600_000_000; total_burned_darks = 0 };
  tx_count = 1;
  coinbase_maturity = 10;
  binding_height = 20;
}

abbrev after_second : LedgerState ℤ
after_second = record {
  height = 1;
  utxos = record {
    entries = (1_800_000_003, entry_at 0) ∷ (1_800_000_006, entry_at 1) ∷ [];
    sum = pos 1_200_000_003;
    malformed = 0;
    summed = 2;
  };
  kernels = record { sum = 9; count = 2 };
  supply = record { total_minted_darks = 1_200_000_000; total_burned_darks = 0 };
  tx_count = 2;
  coinbase_maturity = 10;
  binding_height = 20;
}

abbrev first_undo : StateUndo
first_undo = record {
  spent = [];
  created = 1_800_000_003 ∷ [];
  kernels = no_blocks.kernels;
  supply = no_blocks.supply;
  tx_count = 0;
  height = 0;
}

abbrev second_undo : StateUndo
second_undo = record {
  spent = [];
  created = 1_800_000_006 ∷ [];
  kernels = after_first.kernels;
  supply = after_first.supply;
  tx_count = 1;
  height = 0;
}

abbrev pub fresh_chain : Chain ℤ
fresh_chain = record {
  network = devnet;
  genesis = record {
    network = devnet;
    chain_name = "nightfall";
    coin_name = "NIGHTFALLCOIN";
    ticker = "NIGHT";
    allocations = [];
    protocol_version = 8;
    max_supply_night = 90_000_000;
    initial_reward_night = 6;
    halving_interval = 7_500_000;
  };
  genesis_hash = 2008;
  emission = record {
    initial_reward_darks = 600_000_000;
    halving_interval = 7_500_000;
    max_supply_darks = 9_000_000_000_000_000;
  };
  ledger = no_blocks;
  blocks = [];
  headers = [];
  first_height = 0;
  horizon = none;
  horizon_work = 0;
  total_work = 0;
  undos = [];
}

abbrev pub one_block : Chain ℤ
one_block = record fresh_chain {
  ledger = after_first;
  blocks = first_block ∷ [];
  headers = first_header ∷ [];
  total_work = 60;
  undos = undo_of first_undo ∷ [];
}

abbrev pub two_blocks : Chain ℤ
two_blocks = record fresh_chain {
  ledger = after_second;
  blocks = first_block ∷ second_block ∷ [];
  headers = first_header ∷ second_header ∷ [];
  total_work = 120;
  undos = undo_of first_undo ∷ undo_of second_undo ∷ [];
}

abbrev pub trial_at_tip : SuffixTrial ℤ
trial_at_tip = record {
  trial = record one_block { blocks = []; undos = [] };
  based_on = 1947;
  rewind = 0;
  our_work = 60;
}

abbrev pub longer : SuffixReorg ℤ
longer = record {
  ledger = after_second;
  headers = two_blocks.headers;
  suffix = second_block ∷ [];
  undos = undo_of second_undo ∷ [];
  total_work = 120;
  rewind = 0;
  based_on = 1947;
}

abbrev pub pruned : Chain ℤ
pruned = record two_blocks {
  blocks = second_block ∷ [];
  first_height = 1;
  horizon = some after_first;
  horizon_work = 60;
}
