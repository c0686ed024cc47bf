-- ===== src/Ledger/Replay.antt =====
-- `LedgerState::apply_block_state_only` of crates/nightfall-ledger/src/lib.rs: a block from the
-- node's own disk, without proofs.
use nightfall.Common.{ℕ, ◌+◌, not, ◌||◌, List, [], ◌∷◌, if◌then◌else◌, length, ◌==◌, is_some}
use nightfall.Common.Result.{Result, ok, ◌>>=◌, ◌>>◌, require, ok_or, map_err}
use nightfall.Common.SortedMap
use nightfall.Crypto.{Primitives}
use nightfall.Tx.{Input, offset_point_h}
use nightfall.Body.{BlockBody, total_fee, coinbase_kernels}
use nightfall.Utxo.{UtxoSet, KernelAccumulator, contains, would_exceed_cap}
use nightfall.Utxo.Supply.{add_offset}
use nightfall.Ledger.{
  LedgerState, LedgerError, empty_block, missing_coinbase, supply_cap_exceeded, unknown_input,
  double_spend_within_block, malformed_kernel_excess, binding_active, remove_each, insert_each,
}
use nightfall.Ledger
use nightfall.Ledger.Checks.{project_kernels, project_supply}
use nightfall.Ledger.Apply.{members, created_entries}

module _ (c : Primitives) where
  open c use {Point}

  unfoldable pub collect_inputs :
      UtxoSet Point → List (ℕ × Unit {0}) → List Input → Result LedgerError (List (ℕ × Unit {0}))
  collect_inputs utxos spent [] = ok spent
  collect_inputs utxos spent (i ∷ inputs) =
      let rest = collect_inputs utxos (SortedMap.insert i.commit tt spent) inputs in
      (do
        require (not (is_some (SortedMap.lookup i.commit spent))) double_spend_within_block
        require (contains c utxos i.commit) (unknown_input i.commit)
        rest)

  unfoldable pub fold_offset :
      LedgerState Point → BlockBody → ℕ → KernelAccumulator → Result LedgerError KernelAccumulator
  fold_offset s body height summed =
      if binding_active c s height
      then (do
        offset ← map_err Ledger.binding (offset_point_h c body.kernel_offset)
        ok_or (add_offset c summed offset) malformed_kernel_excess)
      else ok summed

  unfoldable pub apply_block_state_only :
      LedgerState Point → BlockBody → ℕ → ℕ → Result LedgerError (LedgerState Point)
  unfolding fold_offset
  apply_block_state_only s body height expected_reward = do
    require (not (length body.outputs == 0 || length body.kernels == 0)) empty_block
    require (coinbase_kernels body == 1) missing_coinbase
    require (not (would_exceed_cap s.supply expected_reward)) supply_cap_exceeded
    spent ← collect_inputs s.utxos [] body.inputs
    summed ← project_kernels c s.kernels body.kernels
    kernels ← fold_offset s body height summed
    supply ← project_supply s.supply expected_reward (total_fee body)
    ok (record s {
      height = height;
      utxos =
          insert_each c (remove_each c s.utxos (members spent))
            (created_entries height body.outputs);
      kernels = kernels;
      supply = supply;
      tx_count = s.tx_count + length body.kernels;
    })
