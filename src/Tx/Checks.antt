-- ===== src/Tx/Checks.antt =====
-- `check_shape` and `verify_stateless_rules` of crates/nightfall-ledger/src/tx.rs.
use nightfall.Common.{
  ℕ, Bool, not, ◌&&◌, ◌||◌, List, [], ◌∷◌, map, ltb, ◌==◌, if◌then◌else◌, is_some, length,
}
use nightfall.Common.Result.{Result, ok, err, ◌>>=◌, ◌>>◌, require, ok_or}
use nightfall.Common.SortedMap
use nightfall.Crypto.{Primitives}
use nightfall.Crypto.Commit.{point, sum, verify_range}
use nightfall.Crypto.Kernel.{TxKernel, check_kernel_shape, expected_excess, verify_signature}
use nightfall.Crypto.Binding.{verified_stealth_excess}
use nightfall.Crypto.Output.{Output, is_coinbase, output_point, verify_sender_sig}
use nightfall.Tx.{
  Input, Transaction, TxError, missing_binding, bad_stealth_excess, fee_out_of_range,
  kernel_offset_before_fork, coinbase_output_in_transaction, too_many_inputs, too_many_outputs,
  no_outputs, bad_kernel_count, duplicate_input, duplicate_output, malformed_commitment,
  malformed_output_key, multiple_coinbase_kernels, coinbase_with_inputs, bad_kernel,
  bad_range_proof, bad_kernel_signature, unbalanced_transaction, bad_output_signature, any,
  coinbase_count, fee_fold, reward_fold, checked_fee_sum, has_full_binding, offset_point_h,
  key_balance,
}

abbrev pub max_inputs : ℕ
max_inputs = 512

abbrev pub max_outputs : ℕ
max_outputs = 512

abbrev pub max_kernels : ℕ
max_kernels = 64

unfoldable pub distinct_inputs : List (ℕ × Unit {0}) → List Input → Result TxError (Unit {0})
distinct_inputs seen [] = ok tt
distinct_inputs seen (i ∷ inputs) =
    let rest = distinct_inputs (SortedMap.insert i.commit tt seen) inputs in
    if is_some (SortedMap.lookup i.commit seen) then err duplicate_input else rest

module _ (c : Primitives) where
  open c use {Point, add, point_eq}

  unfoldable pub shaped_outputs : List (ℕ × Unit {0}) → List Output → Result TxError (Unit {0})
  shaped_outputs seen [] = ok tt
  shaped_outputs seen (o ∷ outputs) =
      let rest = shaped_outputs (SortedMap.insert o.commit tt seen) outputs in
      (do
        require (not (is_some (SortedMap.lookup o.commit seen))) duplicate_output
        require (is_some (point c o.commit)) malformed_commitment
        require (is_some (output_point c o)) malformed_output_key
        rest)

  unfoldable pub shaped_kernels : List TxKernel → Result TxError (Unit {0})
  shaped_kernels [] = ok tt
  shaped_kernels (k ∷ kernels) =
      let rest = shaped_kernels kernels in
      if is_some (check_kernel_shape c k) then err bad_kernel else rest

  unfoldable pub check_shape : Transaction → Result TxError (Unit {0})
  check_shape tx = do
    require (not (ltb max_inputs (length tx.inputs))) too_many_inputs
    require (not (ltb max_outputs (length tx.outputs))) too_many_outputs
    require (not (length tx.kernels == 0 || ltb max_kernels (length tx.kernels))) bad_kernel_count
    require (not (length tx.outputs == 0)) no_outputs
    distinct_inputs [] tx.inputs
    shaped_outputs [] tx.outputs
    let coinbase_kernels = coinbase_count tx.kernels
    require (not (ltb 1 coinbase_kernels)) multiple_coinbase_kernels
    require (not (coinbase_kernels == 1 && not (length tx.inputs == 0))) coinbase_with_inputs
    require (not (coinbase_kernels == 0 && any (λ o. is_coinbase o.features) tx.outputs))
        coinbase_output_in_transaction
    shaped_kernels tx.kernels

  unfoldable pub proven_outputs : List ℕ → List Output → Result TxError (Unit {0})
  proven_outputs ctx [] = ok tt
  proven_outputs ctx (o ∷ outputs) =
      let rest = proven_outputs ctx outputs in
      (do
        require (verify_range c o.range_proof o.commit ctx) bad_range_proof
        require (verify_sender_sig c o) bad_output_signature
        rest)

  unfoldable pub signed_kernels : List TxKernel → Result TxError (Unit {0})
  signed_kernels [] = ok tt
  signed_kernels (k ∷ kernels) =
      let rest = signed_kernels kernels in
      if verify_signature c k then rest else err bad_kernel_signature

  unfoldable pub verify_value_balance : Transaction → List ℕ → Result TxError (Unit {0})
  verify_value_balance tx ctx = do
    proven_outputs ctx tx.outputs
    signed_kernels tx.kernels
    expected ←
        ok_or
          (expected_excess c (map (λ i. i.commit) tx.inputs) (map (λ o. o.commit) tx.outputs)
            (fee_fold 0 tx.kernels) (reward_fold 0 tx.kernels))
          malformed_commitment
    excesses ← ok_or (sum c (map (λ k. k.excess) tx.kernels)) malformed_commitment
    offset ← offset_point_h c tx.kernel_offset
    require (point_eq expected (add excesses offset)) unbalanced_transaction

  unfoldable pub stealth_kernels : List TxKernel → Result TxError (Unit {0})
  stealth_kernels [] = ok tt
  stealth_kernels (k ∷ kernels) =
      let rest = stealth_kernels kernels in
      if is_some (verified_stealth_excess c k) then rest else err bad_stealth_excess

  unfoldable pub check_binding : Transaction → Bool → Result TxError (Unit {0})
  check_binding tx binding =
      if binding || has_full_binding tx
      then (do
        stealth_kernels tx.kernels
        key_balance c tx.inputs tx.outputs tx.kernels tx.stealth_offset)
      else ok tt

  unfoldable pub verify_stateless_rules : Transaction → List ℕ → Bool → Result TxError (Unit {0})
  verify_stateless_rules tx ctx binding = do
    check_shape tx
    require (is_some (checked_fee_sum tx.kernels)) fee_out_of_range
    require (not (not binding && is_some tx.kernel_offset)) kernel_offset_before_fork
    require (not (binding && not (has_full_binding tx))) missing_binding
    check_binding tx binding
    verify_value_balance tx ctx
