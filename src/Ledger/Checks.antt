-- ===== src/Ledger/Checks.antt =====
-- The checks of `LedgerState::apply_block` (crates/nightfall-ledger/src/lib.rs), in its order.
use nightfall.Common.{
  ℕ, ◌+◌, Bool, true, false, not, ◌&&◌, ◌||◌, none, some, Option, List, [], ◌∷◌, map, ltb, ◌==◌,
  if◌then◌else◌, is_some,
}
use nightfall.Common.Result.{Result, ok, err, ◌>>=◌, ◌>>◌, require, ok_or, map_err}
use nightfall.Common.SortedMap
use nightfall.Common.Words.{checked_add}
use nightfall.Crypto.{Primitives}
use nightfall.Crypto.Commit.{point, commit_public_value, verify_range}
use nightfall.Crypto.Group.{minus}
use nightfall.Crypto.Kernel.{TxKernel, verify_signature, check_kernel_shape, expected_excess}
use nightfall.Crypto.Kernel
use nightfall.Crypto.Output.{Output, output_point, verify_sender_sig}
use nightfall.Crypto.Output
use nightfall.Tx.{
  Input, verify_input_signature, verify_input_key, key_balance, offset_point_h, checked_fee_sum,
}
use nightfall.Body.{
  BlockBody, total_fee, total_reward, coinbase_kernels, exceeds_size_limits, kernel_excess_sum,
}
use nightfall.Body.Order.{is_canonical}
use nightfall.Utxo.{
  UtxoSet, KernelAccumulator, SupplyState, get, contains, is_mature, would_exceed_cap,
}
use nightfall.Utxo.Supply.{add_kernel}
use nightfall.Ledger.{
  LedgerState, LedgerError, empty_block, missing_coinbase, wrong_reward, supply_cap_exceeded,
  unknown_input, double_spend_within_block, duplicate_commitment, immature_coinbase_spend,
  kernel_locked, malformed_kernel_excess, non_canonical_order, block_too_large, malformed_output,
  bad_range_proof, bad_kernel, bad_kernel_signature, bad_output_signature, bad_input_signature,
  unbalanced_block, coinbase_height_mismatch, bad_coinbase_output_count, arithmetic_overflow,
  bad_input_key_signature, bad_coinbase_opening, fee_out_of_range,
}
use nightfall.Ledger

unfoldable pub nonempty {ℓ} : {A : Type ℓ} → List A → Bool
nonempty [] = false
nonempty (x ∷ xs) = true

unfoldable pub find_coinbase : List TxKernel → Option TxKernel
find_coinbase [] = none
find_coinbase (k ∷ ks) = if Kernel.is_coinbase k.feature then some k else find_coinbase ks

unfoldable pub find_coinbase_output : List Output → Option Output
find_coinbase_output [] = none
find_coinbase_output (o ∷ os) =
    if Output.is_coinbase o.features then some o else find_coinbase_output os

unfoldable pub coinbase_outputs : List Output → ℕ
coinbase_outputs [] = 0
coinbase_outputs (o ∷ os) = (if Output.is_coinbase o.features then 1 else 0) + coinbase_outputs os

-- What the coinbase is due: the subsidy, or the fees once there is none.
unfoldable pub coinbase_due : ℕ → ℕ → ℕ
coinbase_due subsidy fees = if ltb 0 subsidy then subsidy else fees

-- The supply counters after the block.
unfoldable pub project_supply : SupplyState → ℕ → ℕ → Result LedgerError SupplyState
project_supply s subsidy fees =
    if ltb 0 subsidy
    then (do
      minted ← ok_or (checked_add s.total_minted_darks subsidy) arithmetic_overflow
      burned ← ok_or (checked_add s.total_burned_darks fees) arithmetic_overflow
      ok (record { total_minted_darks = minted; total_burned_darks = burned }))
    else ok s

module _ (c : Primitives) where
  open c use {Point, add, point_eq}

  unfoldable pub check_structure : BlockBody → Result LedgerError (Unit {0})
  unfolding nonempty
  check_structure body = do
    require (nonempty body.outputs) empty_block
    require (nonempty body.kernels) missing_coinbase
    require (is_canonical c body) non_canonical_order
    require (not (exceeds_size_limits body)) block_too_large

  -- The coinbase kernel: there is one, it claims what is due, and it is pinned to the height.
  unfoldable pub check_coinbase :
      LedgerState Point → BlockBody → ℕ → ℕ → Bool → Result LedgerError TxKernel
  unfolding find_coinbase
  check_coinbase s body height expected_reward binding = do
    require (coinbase_kernels body == 1) missing_coinbase
    coinbase ← ok_or (find_coinbase body.kernels) missing_coinbase
    let due = coinbase_due expected_reward (total_fee body)
    require (coinbase.reward_darks == due) (wrong_reward coinbase.reward_darks due)
    require (coinbase.lock_height == height) (coinbase_height_mismatch coinbase.lock_height height)
    require (not (would_exceed_cap s.supply expected_reward)) supply_cap_exceeded
    require (not binding || is_some (checked_fee_sum body.kernels)) fee_out_of_range
    ok coinbase

  unfoldable pub check_kernels : ℕ → List TxKernel → Result LedgerError (Unit {0})
  check_kernels height [] = ok tt
  check_kernels height (k ∷ kernels) =
      let rest = check_kernels height kernels in
      (do
        require (not (is_some (check_kernel_shape c k))) bad_kernel
        require (verify_signature c k) bad_kernel_signature
        require (Kernel.is_coinbase k.feature || not (ltb height k.lock_height))
            (kernel_locked k.lock_height)
        rest)

  -- `created_ids` is the set of commitments so far.
  unfoldable pub check_outputs :
      UtxoSet Point → List ℕ → List (ℕ × Unit {0}) → List Output → Result LedgerError (Unit {0})
  check_outputs utxos ctx created_ids [] = ok tt
  check_outputs utxos ctx created_ids (out ∷ outputs) =
      let rest = check_outputs utxos ctx (SortedMap.insert out.commit tt created_ids) outputs in
      (do
        require (is_some (point c out.commit) && is_some (output_point c out)) malformed_output
        require (verify_range c out.range_proof out.commit ctx) bad_range_proof
        require (verify_sender_sig c out) bad_output_signature
        require (not (is_some (SortedMap.lookup out.commit created_ids)))
            (duplicate_commitment out.commit)
        require (not (contains c utxos out.commit)) (duplicate_commitment out.commit)
        rest)

  -- The result is the set of spent commitments.
  unfoldable pub check_inputs :
      LedgerState Point
      → ℕ
      → Bool
      → List (ℕ × Unit {0})
      → List Input
      → Result LedgerError (List (ℕ × Unit {0}))
  check_inputs s height binding spent [] = ok spent
  check_inputs s height binding spent (i ∷ inputs) =
      let rest = check_inputs s height binding (SortedMap.insert i.commit tt spent) inputs in
      (do
        require (not (is_some (SortedMap.lookup i.commit spent))) double_spend_within_block
        entry ← ok_or (get c s.utxos i.commit) (unknown_input i.commit)
        require (is_mature entry height s.coinbase_maturity)
            (immature_coinbase_spend entry.height height)
        require (verify_input_signature c i entry.output_pk) bad_input_signature
        require (not binding || verify_input_key c i entry.output_pk) bad_input_key_signature
        rest)

  -- The balance of keys and of values; the result is the kernel offset's point.
  unfoldable pub check_balance : BlockBody → Bool → Result LedgerError Point
  check_balance body binding = do
    if binding
        then map_err Ledger.binding
            (key_balance c body.inputs body.outputs body.kernels body.stealth_offset)
        else ok tt
    expected ←
        ok_or
          (expected_excess c (map (λ i. i.commit) body.inputs) (map (λ o. o.commit) body.outputs)
            (total_fee body) (total_reward body))
          malformed_output
    sum ← ok_or (kernel_excess_sum c body) malformed_kernel_excess
    offset ← map_err Ledger.binding (offset_point_h c body.kernel_offset)
    kernel_sum ← ok_or (point c sum) malformed_kernel_excess
    require (point_eq expected (add kernel_sum offset)) unbalanced_block
    ok offset

  -- One flagged output, which opens to the coinbase amount once the binding rules hold.
  unfoldable pub check_opening : BlockBody → TxKernel → Bool → Result LedgerError (Unit {0})
  unfolding coinbase_outputs find_coinbase_output
  check_opening body coinbase binding = do
    let count = coinbase_outputs body.outputs
    require (count == 1) (bad_coinbase_output_count count)
    if binding
        then (do
          out ← ok_or (find_coinbase_output body.outputs) malformed_output
          flagged ← ok_or (point c out.commit) malformed_output
          excess ← ok_or (point c coinbase.excess) bad_coinbase_opening
          require (point_eq (minus c flagged (commit_public_value c coinbase.reward_darks)) excess)
              bad_coinbase_opening)
        else ok tt

  unfoldable pub project_kernels :
      KernelAccumulator → List TxKernel → Result LedgerError KernelAccumulator
  project_kernels acc [] = ok acc
  project_kernels acc (k ∷ kernels) = elim (add_kernel c acc k.excess) [
    | none ↦ err malformed_kernel_excess
    | some acc' ↦ project_kernels acc' kernels
  ]
