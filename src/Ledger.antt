-- ===== src/Ledger.antt =====
-- `LedgerState` of crates/nightfall-ledger/src/lib.rs: the state, its undo record, and its errors.
--
-- A method on `&mut self` returns the new state beside its result.
pub mod Checks
pub mod Roots
pub mod Apply
pub mod Replay
pub mod Batch
pub mod Facts
pub mod Accept
pub mod Spends
pub mod Mint
pub mod Rewind
pub mod Undone
pub mod Atomic
pub mod Agreement
pub mod History
pub mod Admission
pub mod Admitted
pub mod Locks
pub mod Examples
mod Tests
use nightfall.Common.{
  ℕ, Bool, true, false, none, some, Option, List, [], ◌∷◌, map, leb, is_some, if◌then◌else◌,
}
use nightfall.Common.Result.{Result, ok, err, ◌>>=◌, ok_or}
use nightfall.Common.SortedMap
use nightfall.Types.{NetworkId, mainnet, binding_fork_height}
use nightfall.Crypto.{Primitives}
use nightfall.Crypto.Commit.{Commitment}
use nightfall.Tx.{Input, TxError}
use nightfall.Body.{BlockBody}
use nightfall.Utxo.{
  UtxoEntry, UtxoSet, KernelAccumulator, SupplyState, SupplyError, new, get, insert, remove,
  coinbase_maturity, default_maturity,
}
use nightfall.Utxo.Supply.{default_kernels, verify_supply_invariant}

pub record LedgerState (Point : Type 0) : Type 0 where
  pub height : ℕ
  pub utxos : UtxoSet Point
  pub kernels : KernelAccumulator
  pub supply : SupplyState
  pub tx_count : ℕ
  pub coinbase_maturity : ℕ
  pub binding_height : ℕ

-- Where the source's error carries a commitment in hex, the commitment stands here. The index of a
-- `Tx` error is always 0 and is left out.
pub data LedgerError : Type 0 where
  empty_block missing_coinbase coinbase_in_mempool : LedgerError
  wrong_reward : ℕ → ℕ → LedgerError
  supply_cap_exceeded : LedgerError
  unknown_input : Commitment → LedgerError
  double_spend_within_block : LedgerError
  duplicate_commitment : Commitment → LedgerError
  immature_coinbase_spend : ℕ → ℕ → LedgerError
  kernel_locked : ℕ → LedgerError
  malformed_kernel_excess non_canonical_order block_too_large malformed_output : LedgerError
  bad_range_proof bad_kernel bad_kernel_signature bad_output_signature : LedgerError
  bad_input_signature unbalanced_block : LedgerError
  coinbase_height_mismatch : ℕ → ℕ → LedgerError
  bad_coinbase_output_count : ℕ → LedgerError
  arithmetic_overflow : LedgerError
  tx : TxError → LedgerError
  supply : SupplyError → LedgerError
  binding : TxError → LedgerError
  bad_input_key_signature bad_coinbase_opening fee_out_of_range : LedgerError

pub record StateUndo : Type 0 where
  pub spent : List (Commitment × UtxoEntry)
  pub created : List Commitment
  pub kernels : KernelAccumulator
  pub supply : SupplyState
  pub tx_count : ℕ
  pub height : ℕ

module _ (c : Primitives) where
  open c use {Point}

  unfoldable pub genesis : LedgerState Point
  genesis = record {
    height = 0;
    utxos = new c;
    kernels = default_kernels c;
    supply = record { total_minted_darks = 0; total_burned_darks = 0 };
    tx_count = 0;
    coinbase_maturity = default_maturity;
    binding_height = 0;
  }

  unfoldable pub for_network : NetworkId → LedgerState Point
  for_network network = record genesis {
    coinbase_maturity = coinbase_maturity network;
    binding_height = binding_fork_height network;
  }

  unfoldable pub with_binding_height : LedgerState Point → ℕ → LedgerState Point
  with_binding_height s height = record s { binding_height = height }

  unfoldable pub binding_active : LedgerState Point → ℕ → Bool
  binding_active s height = leb s.binding_height height

  unfoldable pub verify_supply : LedgerState Point → Result SupplyError (Unit {0})
  verify_supply s = verify_supply_invariant c s.utxos s.kernels s.supply

  -- The loop of `capture_undo`: `seen` is the set of inputs so far.
  unfoldable pub capture_spent :
      UtxoSet Point
      → List (ℕ × Unit {0})
      → List Input
      → Result LedgerError (List (Commitment × UtxoEntry))
  capture_spent utxos seen [] = ok []
  capture_spent utxos seen (i ∷ inputs) =
      let rest = capture_spent utxos (SortedMap.insert i.commit tt seen) inputs in
      if is_some (SortedMap.lookup i.commit seen)
      then err double_spend_within_block
      else elim (get c utxos i.commit) [
        | none ↦ err (unknown_input i.commit)
        | some entry ↦ elim rest [ err e ↦ err e | ok spent ↦ ok ((i.commit, entry) ∷ spent) ]
      ]

  unfoldable pub capture_undo : LedgerState Point → BlockBody → Result LedgerError StateUndo
  capture_undo s body = do
    spent ← capture_spent s.utxos [] body.inputs
    ok (record {
      spent = spent;
      created = map (λ out. out.commit) body.outputs;
      kernels = s.kernels;
      supply = s.supply;
      tx_count = s.tx_count;
      height = s.height;
    })

  -- The loops of `rewind` and of the commit.
  unfoldable pub remove_each : UtxoSet Point → List Commitment → UtxoSet Point
  remove_each utxos [] = utxos
  remove_each utxos (commit ∷ list) = remove_each (remove c utxos commit).0 list

  unfoldable pub insert_each : UtxoSet Point → List (Commitment × UtxoEntry) → UtxoSet Point
  insert_each utxos [] = utxos
  insert_each utxos ((commit, entry) ∷ list) = insert_each (insert c utxos commit entry).0 list

  unfoldable pub rewind : LedgerState Point → StateUndo → LedgerState Point
  rewind s undo = record s {
    utxos = insert_each (remove_each s.utxos undo.created) undo.spent;
    kernels = undo.kernels;
    supply = undo.supply;
    tx_count = undo.tx_count;
    height = undo.height;
  }
