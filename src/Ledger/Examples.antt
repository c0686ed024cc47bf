-- ===== src/Ledger/Examples.antt =====
-- A ledger of one entry, a block that spends it, and a first block, over the toy primitives.
use nightfall.Common.{ℕ, ◌≡◌, refl, none, [], ◌∷◌, true, false}
use nightfall.Common.Result.{ok, err}
use nightfall.Common.Int.{ℤ, pos, ◌+ℤ◌}
use nightfall.Crypto.Schnorr.{SchnorrSig}
use nightfall.Crypto.Kernel.{TxKernel}
use nightfall.Crypto.Kernel
use nightfall.Crypto.Output.{Output}
use nightfall.Crypto.Output
use nightfall.Crypto.Toy.{toy}
use nightfall.Body.{BlockBody, default_body}
use nightfall.Utxo.{UtxoEntry}
use nightfall.Utxo.Running.{IsSummed}
use nightfall.Utxo.Walk.{points, flaws}
use nightfall.Ledger.{LedgerState, StateUndo, empty_block}
use nightfall.Ledger.Apply.{Staged, effective, validate, commit, apply_block, settle}
use nightfall.Common.Words.{le_bytes, be_bytes}
use nightfall.Common.SortedMap
use nightfall.Common.Int
use nightfall.Crypto.Schnorr.{verify, challenge}
use nightfall.Crypto.Kernel.{
  verify_signature, kernel_id, signing_message, check_kernel_shape, expected_excess,
}
use nightfall.Crypto.Output.{verify_sender_sig, sig_message, output_point, commitment_bytes}
use nightfall.Crypto.Hashing.{hash_multi, frame, frame_part, frame_parts}
use nightfall.Crypto.Commit.{point, from_point, sum, sum_from, commit_public_value, verify_range}
use nightfall.Crypto.Group.{minus}
use nightfall.Tx.{
  coinbase_count, fee_fold, reward_fold, any_binding, any, has_binding, kernel_bound,
  offset_point_h, decode_offset, verify_input_signature, input_message,
}
use nightfall.Body.{
  canonicalise, sort_by, insert_by, exceeds_size_limits, has_any_binding, total_fee, total_reward,
  coinbase_kernels, kernel_excess_sum,
}
use nightfall.Body.Equality.{sig_eq, input_eq, output_eq, kernel_eq}
use nightfall.Body.Order.{is_canonical}
use nightfall.Utxo.{
  get, contains, insert, remove, commitment_sum, sub_all, add_all, sum_after, is_mature,
  would_exceed_cap, circulating,
}
use nightfall.Utxo.Walk.{flaw, contrib}
use nightfall.Utxo.Supply.{add_kernel, add_offset, supply_equation_holds, verify_supply_invariant}
use nightfall.Ledger.{
  capture_spent, capture_undo, binding_active, verify_supply, insert_each, remove_each,
}
use nightfall.Ledger.Checks.{
  check_structure, check_coinbase, check_kernels, check_outputs, check_inputs, check_balance,
  check_opening, project_kernels, project_supply, nonempty, find_coinbase, coinbase_outputs,
  coinbase_due,
}
use nightfall.Ledger.Apply.{project, members, created_entries}
use nightfall.Types.{mainnet, binding_fork_height, binding_fork_height_mainnet}
use nightfall.Utxo.{new, default_maturity, coinbase_maturity}
use nightfall.Utxo.Supply.{default_kernels}
use nightfall.Crypto.Commit.{identity_commitment}
use nightfall.Ledger.{for_network, genesis}
use nightfall.Tx.{Transaction, has_full_binding, all, checked_fee_sum, checked_fee_fold}
use nightfall.Tx.Checks.{
  verify_stateless_rules, check_shape, check_binding, verify_value_balance, distinct_inputs,
  shaped_outputs, shaped_kernels, proven_outputs, signed_kernels,
}
use nightfall.Ledger.Admission.{check_tx_acceptable, absent_outputs}

abbrev pub null_sig : SchnorrSig
null_sig = record { r = 0; s = 0 }

abbrev pub old_entry : UtxoEntry
old_entry = record { output_pk = 0; height = 0; is_coinbase = false }

abbrev pub before : LedgerState ℤ
before = record {
  height = 0;
  utxos = record { entries = (21, old_entry) ∷ []; sum = pos 7; malformed = 0; summed = 1 };
  kernels = record { sum = 9; count = 1 };
  supply = record { total_minted_darks = 4; total_burned_darks = 0 };
  tx_count = 1;
  coinbase_maturity = 10;
  binding_height = 100;
}

abbrev pub output_of : Output.OutputFeature → ℕ → Output
output_of feature commit = record {
  features = feature;
  commit = commit;
  range_proof = 1 ∷ [];
  ephemeral_pk = 0;
  output_pk = 3;
  view_tag = 0;
  payload = [];
  sender_sig = null_sig;
}

abbrev pub kernel_of : Kernel.KernelFeature → ℕ → ℕ → ℕ → ℕ → TxKernel
kernel_of feature fee reward lock excess = record {
  feature = feature;
  fee_darks = fee;
  reward_darks = reward;
  lock_height = lock;
  excess = excess;
  excess_sig = null_sig;
  stealth_excess = none;
  stealth_sig = none;
}

-- It spends 4 with blinding 3 and pays a fee of 1, beside a coinbase of 5.
abbrev pub spending : BlockBody
spending = record {
  inputs = record { commit = 21; sig = null_sig; input_key = none; key_sig = none } ∷ [];
  outputs = output_of Output.coinbase 18 ∷ output_of Output.plain 24 ∷ [];
  kernels = kernel_of Kernel.coinbase 0 5 1 3 ∷ kernel_of Kernel.plain 1 0 0 6 ∷ [];
  stealth_offset = none;
  kernel_offset = none;
}

abbrev pub spending_undo : StateUndo
spending_undo = record {
  spent = (21, old_entry) ∷ [];
  created = 18 ∷ 24 ∷ [];
  kernels = before.kernels;
  supply = before.supply;
  tx_count = 1;
  height = 0;
}

abbrev pub spending_staged : Staged
spending_staged = record {
  spent = (21, tt) ∷ [];
  kernels = record { sum = 18; count = 3 };
  supply = record { total_minted_darks = 9; total_burned_darks = 1 };
  undo = spending_undo;
}

abbrev pub after : LedgerState ℤ
after = record {
  height = 1;
  utxos = record {
    entries =
        (18, record { output_pk = 3; height = 1; is_coinbase = true })
        ∷ (24, record { output_pk = 3; height = 1; is_coinbase = false })
        ∷ [];
    sum = pos 14;
    malformed = 0;
    summed = 2;
  };
  kernels = record { sum = 18; count = 3 };
  supply = record { total_minted_darks = 9; total_burned_darks = 1 };
  tx_count = 3;
  coinbase_maturity = 10;
  binding_height = 100;
}

pub before-IsSummed : IsSummed toy before.utxos
unfolding points flaws flaw contrib point ◌+ℤ◌
before-IsSummed = record { sorted = (tt, tt); counted = refl; flawed = refl; total = refl }

pub spending_valid : validate toy before spending 1 5 [] ≡ ok spending_staged
unfolding validate effective check_structure check_coinbase check_kernels check_outputs check_inputs
    check_balance check_opening project_kernels project_supply project nonempty find_coinbase
    coinbase_outputs coinbase_due is_canonical canonicalise sort_by insert_by sig_eq input_eq
    output_eq kernel_eq Output.byte Output.is_coinbase Kernel.is_coinbase exceeds_size_limits
    has_any_binding total_fee total_reward coinbase_kernels kernel_excess_sum coinbase_count
    fee_fold reward_fold any_binding any has_binding kernel_bound offset_point_h decode_offset
    verify_input_signature input_message verify_sender_sig sig_message output_point commitment_bytes
    verify_signature kernel_id signing_message check_kernel_shape expected_excess verify challenge
    hash_multi frame frame_part frame_parts le_bytes be_bytes point from_point sum sum_from
    commit_public_value verify_range minus SortedMap.lookup SortedMap.insert SortedMap.remove get
    contains insert remove commitment_sum sub_all add_all sum_after is_mature would_exceed_cap
    circulating add_kernel add_offset supply_equation_holds capture_spent capture_undo
    binding_active members ◌+ℤ◌ Int.scale
spending_valid = refl

pub spending_applies : apply_block toy before spending 1 5 [] ≡ (after, ok tt)
unfolding apply_block validate effective check_structure check_coinbase check_kernels check_outputs
    check_inputs check_balance check_opening project_kernels project_supply project nonempty
    find_coinbase coinbase_outputs coinbase_due is_canonical canonicalise sort_by insert_by sig_eq
    input_eq output_eq kernel_eq Output.byte Output.is_coinbase Kernel.is_coinbase
    exceeds_size_limits has_any_binding total_fee total_reward coinbase_kernels kernel_excess_sum
    coinbase_count fee_fold reward_fold any_binding any has_binding kernel_bound offset_point_h
    decode_offset verify_input_signature input_message verify_sender_sig sig_message output_point
    commitment_bytes verify_signature kernel_id signing_message check_kernel_shape expected_excess
    verify challenge hash_multi frame frame_part frame_parts le_bytes be_bytes point from_point sum
    sum_from commit_public_value verify_range minus SortedMap.lookup SortedMap.insert
    SortedMap.remove get contains insert remove commitment_sum sub_all add_all sum_after is_mature
    would_exceed_cap circulating add_kernel add_offset supply_equation_holds capture_spent
    capture_undo binding_active members ◌+ℤ◌ Int.scale settle commit verify_supply
    verify_supply_invariant insert_each remove_each created_entries
spending_applies = refl

pub empty_refused : apply_block toy before default_body 1 5 [] ≡ (before, err empty_block)
unfolding apply_block validate check_structure nonempty effective binding_active has_any_binding
    any_binding any
empty_refused = refl

-- A first block on mainnet's genesis, which pays a coinbase of 5.
abbrev pub first_block : BlockBody
first_block = record {
  inputs = [];
  outputs = output_of Output.coinbase 18 ∷ [];
  kernels = kernel_of Kernel.coinbase 0 5 1 3 ∷ [];
  stealth_offset = none;
  kernel_offset = none;
}

abbrev pub first_state : LedgerState ℤ
first_state = record {
  height = 1;
  utxos = record {
    entries = (18, record { output_pk = 3; height = 1; is_coinbase = true }) ∷ [];
    sum = pos 6;
    malformed = 0;
    summed = 1;
  };
  kernels = record { sum = 3; count = 1 };
  supply = record { total_minted_darks = 5; total_burned_darks = 0 };
  tx_count = 1;
  coinbase_maturity = default_maturity;
  binding_height = binding_fork_height_mainnet;
}

pub first_applies :
    apply_block toy (for_network toy mainnet) first_block 1 5 [] ≡ (first_state, ok tt)
unfolding apply_block validate effective check_structure check_coinbase check_kernels check_outputs
    check_inputs check_balance check_opening project_kernels project_supply project nonempty
    find_coinbase coinbase_outputs coinbase_due is_canonical canonicalise sort_by insert_by sig_eq
    input_eq output_eq kernel_eq Output.byte Output.is_coinbase Kernel.is_coinbase
    exceeds_size_limits has_any_binding total_fee total_reward coinbase_kernels kernel_excess_sum
    coinbase_count fee_fold reward_fold any_binding any has_binding kernel_bound offset_point_h
    decode_offset verify_input_signature input_message verify_sender_sig sig_message output_point
    commitment_bytes verify_signature kernel_id signing_message check_kernel_shape expected_excess
    verify challenge hash_multi frame frame_part frame_parts le_bytes be_bytes point from_point sum
    sum_from commit_public_value verify_range minus SortedMap.lookup SortedMap.insert
    SortedMap.remove get contains insert remove commitment_sum sub_all add_all sum_after is_mature
    would_exceed_cap circulating add_kernel add_offset supply_equation_holds capture_spent
    capture_undo binding_active members ◌+ℤ◌ Int.scale settle commit verify_supply
    verify_supply_invariant insert_each remove_each created_entries for_network genesis new
    default_kernels identity_commitment coinbase_maturity binding_fork_height
first_applies = refl

-- The same spend as a transaction, locked for a thousand blocks: it is admitted all the same.
abbrev pub locked_tx : Transaction
locked_tx = record {
  version = 2;
  inputs = spending.inputs;
  outputs = output_of Output.plain 24 ∷ [];
  kernels = kernel_of Kernel.plain 1 0 1_000 6 ∷ [];
  stealth_offset = none;
  kernel_offset = none;
}

pub locked_admitted : check_tx_acceptable toy before locked_tx 1 [] ≡ ok tt
unfolding validate effective check_structure check_coinbase check_kernels check_outputs check_inputs
    check_balance check_opening project_kernels project_supply project nonempty find_coinbase
    coinbase_outputs coinbase_due is_canonical canonicalise sort_by insert_by sig_eq input_eq
    output_eq kernel_eq Output.byte Output.is_coinbase Kernel.is_coinbase exceeds_size_limits
    has_any_binding total_fee total_reward coinbase_kernels kernel_excess_sum coinbase_count
    fee_fold reward_fold any_binding any has_binding kernel_bound offset_point_h decode_offset
    verify_input_signature input_message verify_sender_sig sig_message output_point commitment_bytes
    verify_signature kernel_id signing_message check_kernel_shape expected_excess verify challenge
    hash_multi frame frame_part frame_parts le_bytes be_bytes point from_point sum sum_from
    commit_public_value verify_range minus SortedMap.lookup SortedMap.insert SortedMap.remove get
    contains insert remove commitment_sum sub_all add_all sum_after is_mature would_exceed_cap
    circulating add_kernel add_offset supply_equation_holds capture_spent capture_undo
    binding_active members ◌+ℤ◌ Int.scale check_tx_acceptable absent_outputs verify_stateless_rules
    check_shape check_binding verify_value_balance distinct_inputs shaped_outputs shaped_kernels
    proven_outputs signed_kernels has_full_binding all checked_fee_sum checked_fee_fold
locked_admitted = refl
