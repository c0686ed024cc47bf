-- ===== src/Chain/Runs.antt =====
-- What the calls on the example chain answer.
use nightfall.Common.{◌≡◌, refl, Option, none, some, [], ◌∷◌, true, false, arith}
use nightfall.Common.Result.{ok, err}
use nightfall.Crypto.Toy.{toy}
use nightfall.Types.{devnet}
use nightfall.Chain.{bad_height}
use nightfall.Chain.Examples.{
  first_block, second_block, fresh_chain, one_block, two_blocks, trial_at_tip, longer, pruned,
}
use nightfall.Body.{
  body_hash, canonicalise, coinbase_kernels, exceeds_size_limits, has_any_binding, insert_by,
  kernel_excess_sum, sort_by, strip_body, total_fee, total_reward,
}
use nightfall.Body.Equality.{input_eq, kernel_eq, output_eq, sig_eq}
use nightfall.Body.Order.{is_canonical}
use nightfall.Chain.{
  binding_active_at, block_count, difficulty_history, from_block, hash, hash_chain, header_hash,
  new_fair, next_height, pow_hash, pow_is_valid, pow_preimage, proof_ctx, tip_hash, tip_height,
  work,
}
use nightfall.Chain.Apply.{
  apply_block_from_own_disk, apply_block_inner, check_block, check_links, check_pin, check_time,
  check_version, check_work, commit_block, extend, judge_ledger, settle_roots, stripped_block,
  subsidy_of, trim,
}
use nightfall.Chain.Rebuild.{
  apply_checked, assume_valid_to, check_tip_roots, is_mainnet, rebuild_from_blocks_trusted_prefix,
  rebuild_from_pruned_base, replay, replay_one,
}
use nightfall.Chain.Reorg.{
  adopt_reorg, check_start, does_not_connect, evaluate_reorg_at, horizon_work_of, ingest,
  maybe_reorg_to, rebuild_candidate, reorg_common_prefix, start_of, try_ingest_blocks,
}
use nightfall.Chain.Suffix.{apply_each, declared_work, finish_suffix, splice_suffix}
use nightfall.Chain.Window.{advance_horizon, horizon_start, prune_keep, pruned_base}
use nightfall.Common.Int.{scale, ◌+ℤ◌, ◌-ℤ◌}
use nightfall.Common.SortedMap.{lookup}
use nightfall.Common.Words.{be_bytes, le_bytes}
use nightfall.Crypto.Binding.{
  input_bind_message, input_key_coefficient, kernel_stealth_message, scalar_from_bytes,
  verified_stealth_excess, verify_key_binding,
}
use nightfall.Crypto.Commit.{
  commit_public_value, from_point, identity_commitment, point, sum, sum_from, verify_range,
}
use nightfall.Crypto.Group.{minus}
use nightfall.Crypto.Hashing.{
  frame, frame_part, frame_parts, genesis_commitment, hash_domain, hash_multi,
}
use nightfall.Crypto.Kernel.{
  check_kernel_shape, expected_excess, kernel_id, signing_message, strip_kernel, verify_signature,
}
use nightfall.Crypto.Output.{byte, commitment_bytes, output_point, sig_message, verify_sender_sig}
use nightfall.Crypto.Schnorr.{challenge, verify}
use nightfall.Difficulty.{clamp_solvetime, floored, lwma_loop, retarget, solvetime, sort, wrap_i64}
use nightfall.Emission.{locked_mainnet, reward_at, theoretical_reward_at}
use nightfall.Ledger.{
  binding_active, capture_spent, capture_undo, for_network, genesis, insert_each, remove_each,
  rewind, verify_supply, with_binding_height,
}
use nightfall.Ledger.Apply.{commit, created_entries, effective, members, project, settle, validate}
use nightfall.Ledger.Checks.{
  check_balance, check_coinbase, check_inputs, check_kernels, check_opening, check_outputs,
  check_structure, coinbase_due, coinbase_outputs, find_coinbase, find_coinbase_output, nonempty,
  project_kernels, project_supply,
}
use nightfall.Ledger.Replay.{apply_block_state_only, collect_inputs, fold_offset}
use nightfall.Ledger.Roots.{kernel_sum, utxo_root}
use nightfall.Pow.{block_work, meets_difficulty}
use nightfall.Pow.Nighthash.{nighthash, salt_for}
use nightfall.Tx.{
  any, any_binding, checked_fee_fold, checked_fee_sum, coinbase_count, decode_offset, fee_fold,
  has_binding, input_message, kernel_bound, key_balance, offset_point_h, reward_fold, strip_input,
  verify_input_key, verify_input_signature,
}
use nightfall.Types.{
  assert_fair, binding_fork_height, checkpoint_at, fair_launch, highest_checkpoint_height,
  initial_difficulty, is_empty, min_difficulty, next, pow_params, proof_context,
}
use nightfall.Utxo.{
  add_all, circulating, coinbase_maturity, commitment_sum, commitment_sum_by_walking, contains, get,
  is_mature, new, sub_all, sum_after, walk, would_exceed_cap,
}
use nightfall.Utxo.Root.{climb, leaf, next_level, node, root, root_of}
use nightfall.Utxo.Supply.{
  add_kernel, add_offset, default_kernels, supply_equation_holds, verify_supply_invariant,
}
use nightfall.Chain.Apply.{apply_block}

pub fresh_made : new_fair toy devnet ≡ ok fresh_chain
unfolding new_fair le_bytes identity_commitment frame frame_part frame_parts genesis_commitment
    hash_domain hash_multi locked_mainnet for_network genesis assert_fair binding_fork_height
    fair_launch default_kernels new coinbase_maturity
fresh_made = refl

pub first_accepted : apply_block toy fresh_chain first_block 120 ≡ (one_block, ok tt)
unfolding input_eq kernel_eq output_eq sig_eq is_canonical body_hash canonicalise coinbase_kernels
    exceeds_size_limits has_any_binding insert_by kernel_excess_sum sort_by strip_body total_fee
    total_reward nightfall.Chain.Apply.apply_block apply_block_inner check_block check_links
    check_pin check_time check_version check_work commit_block extend judge_ledger settle_roots
    stripped_block subsidy_of trim binding_active_at block_count difficulty_history from_block hash
    header_hash nightfall.Chain.median_time_past nightfall.Chain.next_difficulty next_height
    pow_hash pow_is_valid pow_preimage proof_ctx tip_hash tip_height work scale ◌+ℤ◌ ◌-ℤ◌
    nightfall.Common.SortedMap.insert lookup nightfall.Common.SortedMap.remove be_bytes le_bytes
    input_bind_message input_key_coefficient kernel_stealth_message scalar_from_bytes
    verified_stealth_excess verify_key_binding commit_public_value from_point point sum sum_from
    verify_range minus frame frame_part frame_parts hash_multi check_kernel_shape expected_excess
    nightfall.Crypto.Kernel.is_coinbase kernel_id signing_message strip_kernel verify_signature byte
    commitment_bytes nightfall.Crypto.Output.is_coinbase output_point sig_message verify_sender_sig
    challenge verify clamp_solvetime floored lwma_loop nightfall.Difficulty.median_time_past
    nightfall.Difficulty.next_difficulty retarget solvetime sort wrap_i64 reward_at
    theoretical_reward_at nightfall.Ledger.Apply.apply_block commit created_entries effective
    members project settle validate check_balance check_coinbase check_inputs check_kernels
    check_opening check_outputs check_structure coinbase_due coinbase_outputs find_coinbase
    find_coinbase_output nonempty project_kernels project_supply kernel_sum utxo_root binding_active
    capture_spent capture_undo insert_each remove_each rewind verify_supply nighthash salt_for
    block_work meets_difficulty any any_binding checked_fee_fold checked_fee_sum coinbase_count
    decode_offset fee_fold has_binding input_message kernel_bound key_balance offset_point_h
    reward_fold strip_input verify_input_key verify_input_signature binding_fork_height
    checkpoint_at initial_difficulty min_difficulty next pow_params proof_context climb leaf
    next_level node root root_of add_kernel add_offset supply_equation_holds verify_supply_invariant
    add_all circulating commitment_sum commitment_sum_by_walking contains get nightfall.Utxo.insert
    is_mature nightfall.Utxo.remove sub_all sum_after walk would_exceed_cap coinbase_maturity
first_accepted = refl

pub second_accepted : apply_block toy one_block second_block 120 ≡ (two_blocks, ok tt)
unfolding input_eq kernel_eq output_eq sig_eq is_canonical body_hash canonicalise coinbase_kernels
    exceeds_size_limits has_any_binding insert_by kernel_excess_sum sort_by strip_body total_fee
    total_reward nightfall.Chain.Apply.apply_block apply_block_inner check_block check_links
    check_pin check_time check_version check_work commit_block extend judge_ledger settle_roots
    stripped_block subsidy_of trim binding_active_at block_count difficulty_history from_block hash
    header_hash nightfall.Chain.median_time_past nightfall.Chain.next_difficulty next_height
    pow_hash pow_is_valid pow_preimage proof_ctx tip_hash tip_height work scale ◌+ℤ◌ ◌-ℤ◌
    nightfall.Common.SortedMap.insert lookup nightfall.Common.SortedMap.remove be_bytes le_bytes
    input_bind_message input_key_coefficient kernel_stealth_message scalar_from_bytes
    verified_stealth_excess verify_key_binding commit_public_value from_point point sum sum_from
    verify_range minus frame frame_part frame_parts hash_multi check_kernel_shape expected_excess
    nightfall.Crypto.Kernel.is_coinbase kernel_id signing_message strip_kernel verify_signature byte
    commitment_bytes nightfall.Crypto.Output.is_coinbase output_point sig_message verify_sender_sig
    challenge verify clamp_solvetime floored lwma_loop nightfall.Difficulty.median_time_past
    nightfall.Difficulty.next_difficulty retarget solvetime sort wrap_i64 reward_at
    theoretical_reward_at nightfall.Ledger.Apply.apply_block commit created_entries effective
    members project settle validate check_balance check_coinbase check_inputs check_kernels
    check_opening check_outputs check_structure coinbase_due coinbase_outputs find_coinbase
    find_coinbase_output nonempty project_kernels project_supply kernel_sum utxo_root binding_active
    capture_spent capture_undo insert_each remove_each rewind verify_supply nighthash salt_for
    block_work meets_difficulty any any_binding checked_fee_fold checked_fee_sum coinbase_count
    decode_offset fee_fold has_binding input_message kernel_bound key_balance offset_point_h
    reward_fold strip_input verify_input_key verify_input_signature binding_fork_height
    checkpoint_at initial_difficulty min_difficulty next pow_params proof_context climb leaf
    next_level node root root_of add_kernel add_offset supply_equation_holds verify_supply_invariant
    add_all circulating commitment_sum commitment_sum_by_walking contains get nightfall.Utxo.insert
    is_mature nightfall.Utxo.remove sub_all sum_after walk would_exceed_cap coinbase_maturity
second_accepted = refl

pub suffix_applied : apply_each toy one_block (second_block ∷ []) 120 ≡ ok two_blocks
unfolding apply_each
suffix_applied = ground (arith, second_accepted)

pub first_again_refused :
    apply_block_inner toy one_block first_block 120 true ≡ (one_block, err bad_height)
unfolding exceeds_size_limits strip_body apply_block_inner check_block check_links check_version
    stripped_block binding_active_at next_height tip_height binding_fork_height next
first_again_refused = refl

pub first_still_refused : apply_block toy two_blocks first_block 120 ≡ (two_blocks, err bad_height)
unfolding exceeds_size_limits strip_body apply_block_inner check_block check_links check_version
    stripped_block binding_active_at next_height tip_height binding_fork_height next
    nightfall.Chain.Apply.apply_block
first_still_refused = refl

pub second_ingested :
    try_ingest_blocks toy one_block (second_block ∷ first_block ∷ []) 120 ≡ (two_blocks, ok 1)
unfolding try_ingest_blocks ingest does_not_connect
second_ingested = ground (arith, second_accepted, first_still_refused)

pub suffix_finished : finish_suffix toy trial_at_tip (second_block ∷ []) 120 ≡ ok (some longer)
unfolding input_eq kernel_eq output_eq sig_eq is_canonical body_hash canonicalise coinbase_kernels
    exceeds_size_limits has_any_binding insert_by kernel_excess_sum sort_by strip_body total_fee
    total_reward nightfall.Chain.Apply.apply_block apply_block_inner check_block check_links
    check_pin check_time check_version check_work commit_block extend judge_ledger settle_roots
    stripped_block subsidy_of trim apply_each declared_work finish_suffix binding_active_at
    block_count difficulty_history from_block hash header_hash nightfall.Chain.median_time_past
    nightfall.Chain.next_difficulty next_height pow_hash pow_is_valid pow_preimage proof_ctx
    tip_hash tip_height work scale ◌+ℤ◌ ◌-ℤ◌ nightfall.Common.SortedMap.insert lookup
    nightfall.Common.SortedMap.remove be_bytes le_bytes input_bind_message input_key_coefficient
    kernel_stealth_message scalar_from_bytes verified_stealth_excess verify_key_binding
    commit_public_value from_point point sum sum_from verify_range minus frame frame_part
    frame_parts hash_multi check_kernel_shape expected_excess nightfall.Crypto.Kernel.is_coinbase
    kernel_id signing_message strip_kernel verify_signature byte commitment_bytes
    nightfall.Crypto.Output.is_coinbase output_point sig_message verify_sender_sig challenge verify
    clamp_solvetime floored lwma_loop nightfall.Difficulty.median_time_past
    nightfall.Difficulty.next_difficulty retarget solvetime sort wrap_i64 reward_at
    theoretical_reward_at nightfall.Ledger.Apply.apply_block commit created_entries effective
    members project settle validate check_balance check_coinbase check_inputs check_kernels
    check_opening check_outputs check_structure coinbase_due coinbase_outputs find_coinbase
    find_coinbase_output nonempty project_kernels project_supply kernel_sum utxo_root binding_active
    capture_spent capture_undo insert_each remove_each rewind verify_supply nighthash salt_for
    block_work meets_difficulty any any_binding checked_fee_fold checked_fee_sum coinbase_count
    decode_offset fee_fold has_binding input_message kernel_bound key_balance offset_point_h
    reward_fold strip_input verify_input_key verify_input_signature binding_fork_height
    checkpoint_at initial_difficulty min_difficulty next pow_params proof_context climb leaf
    next_level node root root_of add_kernel add_offset supply_equation_holds verify_supply_invariant
    add_all circulating commitment_sum commitment_sum_by_walking contains get nightfall.Utxo.insert
    is_mature nightfall.Utxo.remove sub_all sum_after walk would_exceed_cap coinbase_maturity
suffix_finished = refl

pub suffix_spliced : splice_suffix toy one_block longer ≡ (two_blocks, true)
unfolding trim splice_suffix hash header_hash pow_preimage tip_hash scale ◌+ℤ◌ ◌-ℤ◌ be_bytes
    le_bytes frame frame_part frame_parts hash_multi
suffix_spliced = refl

pub longer_adopted :
    maybe_reorg_to toy false one_block (first_block ∷ second_block ∷ []) 120 ≡ (two_blocks, ok true)
unfolding input_eq kernel_eq output_eq sig_eq is_canonical body_hash canonicalise coinbase_kernels
    exceeds_size_limits has_any_binding insert_by kernel_excess_sum sort_by strip_body total_fee
    total_reward nightfall.Chain.Apply.apply_block apply_block_from_own_disk apply_block_inner
    check_block check_links check_pin check_time check_version check_work commit_block extend
    judge_ledger settle_roots stripped_block subsidy_of trim apply_checked assume_valid_to
    check_tip_roots is_mainnet rebuild_from_blocks_trusted_prefix rebuild_from_pruned_base replay
    replay_one adopt_reorg check_start evaluate_reorg_at horizon_work_of maybe_reorg_to
    rebuild_candidate reorg_common_prefix start_of declared_work pruned_base binding_active_at
    block_count difficulty_history from_block hash hash_chain header_hash
    nightfall.Chain.median_time_past new_fair nightfall.Chain.next_difficulty next_height pow_hash
    pow_is_valid pow_preimage proof_ctx tip_hash tip_height work scale ◌+ℤ◌ ◌-ℤ◌
    nightfall.Common.SortedMap.insert lookup nightfall.Common.SortedMap.remove be_bytes le_bytes
    input_bind_message input_key_coefficient kernel_stealth_message scalar_from_bytes
    verified_stealth_excess verify_key_binding commit_public_value from_point identity_commitment
    point sum sum_from verify_range minus frame frame_part frame_parts genesis_commitment
    hash_domain hash_multi check_kernel_shape expected_excess nightfall.Crypto.Kernel.is_coinbase
    kernel_id signing_message strip_kernel verify_signature byte commitment_bytes
    nightfall.Crypto.Output.is_coinbase output_point sig_message verify_sender_sig challenge verify
    clamp_solvetime floored lwma_loop nightfall.Difficulty.median_time_past
    nightfall.Difficulty.next_difficulty retarget solvetime sort wrap_i64 locked_mainnet reward_at
    theoretical_reward_at nightfall.Ledger.Apply.apply_block commit created_entries effective
    members project settle validate check_balance check_coinbase check_inputs check_kernels
    check_opening check_outputs check_structure coinbase_due coinbase_outputs find_coinbase
    find_coinbase_output nonempty project_kernels project_supply apply_block_state_only
    collect_inputs fold_offset kernel_sum utxo_root binding_active capture_spent capture_undo
    for_network genesis insert_each remove_each rewind verify_supply with_binding_height nighthash
    salt_for block_work meets_difficulty any any_binding checked_fee_fold checked_fee_sum
    coinbase_count decode_offset fee_fold has_binding input_message kernel_bound key_balance
    offset_point_h reward_fold strip_input verify_input_key verify_input_signature assert_fair
    binding_fork_height checkpoint_at fair_launch highest_checkpoint_height initial_difficulty
    is_empty min_difficulty next pow_params proof_context climb leaf next_level node root root_of
    add_kernel add_offset default_kernels supply_equation_holds verify_supply_invariant add_all
    circulating commitment_sum commitment_sum_by_walking contains get nightfall.Utxo.insert
    is_mature new nightfall.Utxo.remove sub_all sum_after walk would_exceed_cap coinbase_maturity
longer_adopted = refl

pub one_pruned : prune_keep toy two_blocks 1 ≡ (pruned, ok 1)
unfolding coinbase_kernels total_fee advance_horizon horizon_start prune_keep work ◌+ℤ◌
    nightfall.Common.SortedMap.insert lookup from_point identity_commitment point
    nightfall.Crypto.Kernel.is_coinbase nightfall.Crypto.Output.is_coinbase reward_at
    theoretical_reward_at created_entries members project_kernels project_supply
    apply_block_state_only collect_inputs binding_active for_network genesis insert_each remove_each
    block_work coinbase_count fee_fold binding_fork_height add_kernel default_kernels
    nightfall.Utxo.insert new would_exceed_cap coinbase_maturity
one_pruned = refl
