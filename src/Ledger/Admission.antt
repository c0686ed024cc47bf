-- ===== src/Ledger/Admission.antt =====
-- `LedgerState::check_tx_acceptable` of crates/nightfall-ledger/src/lib.rs: what a transaction needs
-- to enter the mempool.
use nightfall.Common.{ℕ, not, ◌||◌, List, [], ◌∷◌, if◌then◌else◌}
use nightfall.Common.Result.{Result, ok, err, ◌>>=◌, ◌>>◌, require, map_err}
use nightfall.Crypto.{Primitives}
use nightfall.Crypto.Kernel
use nightfall.Crypto.Output.{Output}
use nightfall.Tx.{Transaction, any, has_full_binding}
use nightfall.Tx.Checks.{verify_stateless_rules}
use nightfall.Utxo.{UtxoSet, contains}
use nightfall.Ledger.{
  LedgerState, LedgerError, coinbase_in_mempool, duplicate_commitment, binding_active,
}
use nightfall.Ledger
use nightfall.Ledger.Checks.{check_inputs}

module _ (c : Primitives) where
  open c use {Point}

  unfoldable pub absent_outputs : UtxoSet Point → List Output → Result LedgerError (Unit {0})
  absent_outputs utxos [] = ok tt
  absent_outputs utxos (out ∷ outputs) =
      let rest = absent_outputs utxos outputs in
      if contains c utxos out.commit then err (duplicate_commitment out.commit) else rest

  -- The loop over the inputs is that of `apply_block`, but for when it checks the input keys.
  unfoldable pub check_tx_acceptable :
      LedgerState Point → Transaction → ℕ → List ℕ → Result LedgerError (Unit {0})
  check_tx_acceptable s tx next_height ctx = do
    require (not (any (λ k. Kernel.is_coinbase k.feature) tx.kernels)) coinbase_in_mempool
    let binding = binding_active c s next_height
    map_err Ledger.tx (verify_stateless_rules c tx ctx binding)
    spent ← check_inputs c s next_height (binding || has_full_binding tx) [] tx.inputs
    absent_outputs s.utxos tx.outputs
    require (not (any (λ k. Kernel.is_coinbase k.feature) tx.kernels)) coinbase_in_mempool
