-- ===== src/Chain/Mining.antt =====
-- A template on a testnet's genesis, where binding is active, over the toy primitives.
use nightfall.Common.{ℕ, ◌≡◌, ◌+◌, ◌*◌, refl, Bool, none, some, [], ◌∷◌, true, ltb, arith}
use nightfall.Common.Result.{Result, ok}
use nightfall.Common.Int.{ℤ}
use nightfall.Crypto.Toy.{toy}
use nightfall.Crypto.Kernel
use nightfall.Crypto.Output
use nightfall.Ledger.Examples.{output_of, kernel_of, null_sig}
use nightfall.Types.{testnet}
use nightfall.Chain.{Chain, median_time_past}
use nightfall.Tx.{Transaction, TxError}
use nightfall.Chain.Template.{BlockTemplate}
use nightfall.Chain.Sealed.{Mined}
use nightfall.Chain.Examples.{fresh_chain}
use nightfall.Body.{
  aggregate, body_hash, canonicalise, coinbase_kernels, exceeds_size_limits, has_any_binding,
  insert_by, kernel_excess_sum, sort_by, strip_body, total_fee, total_reward,
}
use nightfall.Body.Equality.{input_eq, kernel_eq, output_eq, sig_eq}
use nightfall.Body.Order.{is_canonical}
use nightfall.Chain.{
  binding_active_at, difficulty_history, hash, header_hash, next_height, pow_hash, pow_is_valid,
  pow_preimage, proof_ctx, tip_hash, tip_height,
}
use nightfall.Chain.Apply.{check_pin}
use nightfall.Chain.Template.{
  build_template, checked_fees, dry_run, for_height, seal, template_fees, wrapped_fees,
}
use nightfall.Common.Int.{scale, ◌+ℤ◌, ◌-ℤ◌}
use nightfall.Common.SortedMap.{lookup}
use nightfall.Common.Words.{be_bytes, le_bytes}
use nightfall.Crypto.Binding.{
  input_bind_message, input_key_coefficient, kernel_stealth_message, scalar_from_bytes,
  verified_stealth_excess, verify_key_binding,
}
use nightfall.Crypto.Commit.{
  commit_public_value, from_point, identity_commitment, point, sum, sum_from, verify_range,
}
use nightfall.Crypto.Group.{minus}
use nightfall.Crypto.Hashing.{frame, frame_part, frame_parts, hash_multi}
use nightfall.Crypto.Kernel.{
  check_kernel_shape, expected_excess, kernel_id, signing_message, strip_kernel, verify_signature,
}
use nightfall.Crypto.Output.{byte, commitment_bytes, output_point, sig_message, verify_sender_sig}
use nightfall.Crypto.Schnorr.{challenge, verify}
use nightfall.Difficulty.{clamp_solvetime, floored, lwma_loop, retarget, solvetime, sort, wrap_i64}
use nightfall.Emission.{reward_at, theoretical_reward_at}
use nightfall.Ledger.{
  binding_active, capture_spent, capture_undo, for_network, genesis, insert_each, remove_each,
  rewind, verify_supply,
}
use nightfall.Ledger.Apply.{
  apply_block, commit, created_entries, effective, members, project, settle, validate,
}
use nightfall.Ledger.Checks.{
  check_balance, check_coinbase, check_inputs, check_kernels, check_opening, check_outputs,
  check_structure, coinbase_due, coinbase_outputs, find_coinbase, find_coinbase_output, nonempty,
  project_kernels, project_supply,
}
use nightfall.Ledger.Roots.{kernel_sum, utxo_root}
use nightfall.Pow.{meets_difficulty}
use nightfall.Pow.Nighthash.{nighthash, salt_for}
use nightfall.Tx.{
  add_offsets, any, any_binding, checked_fee_fold, checked_fee_sum, coinbase_count, decode_offset,
  fee_fold, has_binding, input_message, kernel_bound, key_balance, offset_point_h, reward_fold,
  strip_input, strip_tx, verify_input_key, verify_input_signature,
}
use nightfall.Types.{
  binding_fork_height, checkpoint_at, initial_difficulty, min_difficulty, next, pow_params,
  proof_context,
}
use nightfall.Utxo.{
  add_all, circulating, coinbase_maturity, commitment_sum, commitment_sum_by_walking, contains, get,
  is_mature, new, sub_all, sum_after, walk, would_exceed_cap,
}
use nightfall.Utxo.Root.{climb, leaf, next_level, node, root, root_of}
use nightfall.Utxo.Supply.{
  add_kernel, add_offset, default_kernels, supply_equation_holds, verify_supply_invariant,
}

abbrev pub coinbase_tx : ℕ → ℕ → Result TxError Transaction
coinbase_tx darks height = ok (record {
  version = 2;
  inputs = [];
  outputs = output_of Output.coinbase (3 * (darks + 1)) ∷ [];
  kernels =
      record (kernel_of Kernel.coinbase 0 darks height 3) {
        stealth_excess = some 0;
        stealth_sig = some null_sig;
      }
      ∷ [];
  stealth_offset = none;
  kernel_offset = none;
})

abbrev pub testnet_chain : Chain ℤ
testnet_chain = record fresh_chain { network = testnet; ledger = for_network toy testnet }

abbrev pub template : BlockTemplate
template = record {
  header = record {
    version = 8;
    height = 0;
    prev_hash = 2008;
    utxo_root = 2838;
    kernel_sum = 3;
    body_root = 3565;
    timestamp_unix = 100;
    difficulty = 30_000;
    nonce = 0;
    reward_darks = 600_000_000;
  };
  body = record {
    inputs = [];
    outputs = output_of Output.coinbase 1_800_000_003 ∷ [];
    kernels =
        record (kernel_of Kernel.coinbase 0 600_000_000 0 3) {
          stealth_excess = some 0;
          stealth_sig = some null_sig;
        }
        ∷ [];
    stealth_offset = none;
    kernel_offset = none;
  };
  built_on = 2008;
}

pub template_built : build_template toy coinbase_tx testnet_chain [] 100 ≡ ok template
unfolding input_eq kernel_eq output_eq sig_eq is_canonical aggregate body_hash canonicalise
    coinbase_kernels exceeds_size_limits has_any_binding insert_by kernel_excess_sum sort_by
    strip_body total_fee total_reward build_template checked_fees dry_run for_height template_fees
    wrapped_fees binding_active_at difficulty_history hash header_hash
    nightfall.Chain.median_time_past nightfall.Chain.next_difficulty next_height pow_preimage
    proof_ctx tip_hash tip_height scale ◌+ℤ◌ ◌-ℤ◌ nightfall.Common.SortedMap.insert lookup
    nightfall.Common.SortedMap.remove be_bytes le_bytes input_bind_message input_key_coefficient
    kernel_stealth_message scalar_from_bytes verified_stealth_excess verify_key_binding
    commit_public_value from_point identity_commitment point sum sum_from verify_range minus frame
    frame_part frame_parts hash_multi check_kernel_shape expected_excess
    nightfall.Crypto.Kernel.is_coinbase kernel_id signing_message strip_kernel verify_signature byte
    commitment_bytes nightfall.Crypto.Output.is_coinbase output_point sig_message verify_sender_sig
    challenge verify clamp_solvetime floored lwma_loop nightfall.Difficulty.median_time_past
    nightfall.Difficulty.next_difficulty retarget solvetime sort wrap_i64 reward_at
    theoretical_reward_at apply_block commit created_entries effective members project settle
    validate check_balance check_coinbase check_inputs check_kernels check_opening check_outputs
    check_structure coinbase_due coinbase_outputs find_coinbase find_coinbase_output nonempty
    project_kernels project_supply kernel_sum utxo_root binding_active capture_spent capture_undo
    for_network genesis insert_each remove_each rewind verify_supply add_offsets any any_binding
    checked_fee_fold checked_fee_sum coinbase_count decode_offset fee_fold has_binding input_message
    kernel_bound key_balance offset_point_h reward_fold strip_input strip_tx verify_input_key
    verify_input_signature binding_fork_height initial_difficulty min_difficulty next proof_context
    climb leaf next_level node root root_of add_kernel add_offset default_kernels
    supply_equation_holds verify_supply_invariant add_all circulating coinbase_maturity
    commitment_sum commitment_sum_by_walking contains get nightfall.Utxo.insert is_mature new
    nightfall.Utxo.remove sub_all sum_after walk would_exceed_cap
template_built = refl

pub binds : binding_active_at toy testnet_chain (next_height toy testnet_chain) ≡ true
unfolding binding_active_at next_height tip_height scale ◌+ℤ◌ ◌-ℤ◌ binding_fork_height next
binds = refl

pub pays :
    ltb 0 (
      reward_at testnet_chain.emission
        (next_height toy testnet_chain)
        testnet_chain.ledger.supply.total_minted_darks)
    ≡ true
unfolding next_height tip_height scale ◌+ℤ◌ ◌-ℤ◌ identity_commitment reward_at theoretical_reward_at
    for_network genesis binding_fork_height next default_kernels new
pays = refl

pub no_median : median_time_past toy testnet_chain ≡ some 0
unfolding nightfall.Chain.median_time_past scale ◌+ℤ◌ ◌-ℤ◌ nightfall.Difficulty.median_time_past
    sort
no_median = refl

pin_met : check_pin toy (seal template 7) ≡ ok tt
unfolding check_pin seal hash header_hash pow_preimage scale ◌+ℤ◌ ◌-ℤ◌ be_bytes le_bytes frame
    frame_part frame_parts hash_multi checkpoint_at
pin_met = refl

work_met : pow_is_valid toy (seal template 7) (pow_params testnet) ≡ true
unfolding seal pow_hash pow_is_valid pow_preimage scale ◌+ℤ◌ ◌-ℤ◌ be_bytes le_bytes frame frame_part
    frame_parts hash_multi nighthash salt_for meets_difficulty pow_params
work_met = refl

pub clock_and_nonce : Mined toy testnet_chain template 7 120 0
clock_and_nonce = record {
  in_time = omega arith;
  median_below = omega arith;
  unpinned = pin_met;
  worked = work_met;
}
