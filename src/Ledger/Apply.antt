-- ===== src/Ledger/Apply.antt =====
-- `LedgerState::apply_block` of crates/nightfall-ledger/src/lib.rs: every check, then the commit.
use nightfall.Common.{ℕ, ◌+◌, not, ◌&&◌, List, [], ◌∷◌, map, if◌then◌else◌, length}
use nightfall.Common.Result.{Result, ok, err, ◌>>=◌, ◌>>◌, ok_or, map_err}
use nightfall.Crypto.{Primitives}
use nightfall.Crypto.Commit.{Commitment}
use nightfall.Crypto.Output.{Output}
use nightfall.Crypto.Output
use nightfall.Body.{BlockBody, total_fee, has_any_binding, strip_body}
use nightfall.Utxo.{UtxoEntry, KernelAccumulator, SupplyState, sum_after, malformed_utxo}
use nightfall.Utxo.Supply.{add_offset, supply_equation_holds}
use nightfall.Ledger.{
  LedgerState, LedgerError, StateUndo, malformed_kernel_excess, binding_active, verify_supply,
  capture_undo, rewind, remove_each, insert_each,
}
use nightfall.Ledger
use nightfall.Ledger.Checks.{
  check_structure, check_coinbase, check_kernels, check_outputs, check_inputs, check_balance,
  check_opening, project_kernels, project_supply,
}

-- The keys of a set, in order.
unfoldable pub members : List (ℕ × Unit {0}) → List ℕ
members [] = []
members ((k, u) ∷ set) = k ∷ members set

-- The entries that the outputs of a block become.
unfoldable pub created_entries : ℕ → List Output → List (Commitment × UtxoEntry)
created_entries height [] = []
created_entries height (out ∷ outputs) =
    (
      out.commit,
      record {
        output_pk = out.output_pk;
        height = height;
        is_coinbase = Output.is_coinbase out.features;
      },
    )
    ∷ created_entries height outputs

-- What the checks leave for the commit.
pub record Staged : Type 0 where
  pub spent : List (ℕ × Unit {0})
  pub kernels : KernelAccumulator
  pub supply : SupplyState
  pub undo : StateUndo

module _ (c : Primitives) where
  open c use {Point}

  -- Below the fork the binding fields are taken off before anything else.
  unfoldable pub effective : LedgerState Point → BlockBody → ℕ → BlockBody
  effective s body height =
      if not (binding_active c s height) && has_any_binding body then strip_body body else body

  -- The projection: kernels, counters, the sum of the set, and the supply equation on them.
  unfoldable pub project :
      LedgerState Point → BlockBody → ℕ → List (ℕ × Unit {0}) → Point → Result LedgerError Staged
  project s body expected_reward spent offset = do
    summed ← project_kernels c s.kernels body.kernels
    kernels ← ok_or (add_offset c summed offset) malformed_kernel_excess
    supply ← project_supply s.supply expected_reward (total_fee body)
    projected ←
        ok_or (sum_after c s.utxos (members spent) (map (λ out. out.commit) body.outputs))
          (Ledger.supply malformed_utxo)
    map_err Ledger.supply (supply_equation_holds c projected kernels supply)
    undo ← capture_undo c s body
    ok (record { spent = spent; kernels = kernels; supply = supply; undo = undo })

  -- Stage 1, on the body that counts.
  unfoldable pub validate :
      LedgerState Point → BlockBody → ℕ → ℕ → List ℕ → Result LedgerError Staged
  validate s body height expected_reward ctx = do
    let binding = binding_active c s height
    check_structure c body
    coinbase ← check_coinbase c s body height expected_reward binding
    check_kernels c height body.kernels
    check_outputs c s.utxos ctx [] body.outputs
    spent ← check_inputs c s height binding [] body.inputs
    offset ← check_balance c body binding
    check_opening c body coinbase binding
    project s body expected_reward spent offset

  -- Stage 2.
  unfoldable pub commit : LedgerState Point → BlockBody → ℕ → Staged → LedgerState Point
  commit s body height staged = record s {
    height = height;
    utxos =
        insert_each c (remove_each c s.utxos (members staged.spent))
          (created_entries height body.outputs);
    kernels = staged.kernels;
    supply = staged.supply;
    tx_count = s.tx_count + length body.kernels;
  }

  -- The last check, on the set that was written: roll back rather than publish a mismatch.
  unfoldable pub settle :
      LedgerState Point → StateUndo → LedgerState Point × Result LedgerError (Unit {0})
  settle s undo = elim (verify_supply c s) [
    | ok _ ↦ (s, ok tt)
    | err e ↦ (rewind c s undo, err (Ledger.supply e))
  ]

  unfoldable pub apply_block :
      LedgerState Point
      → BlockBody
      → ℕ
      → ℕ
      → List ℕ
      → LedgerState Point × Result LedgerError (Unit {0})
  apply_block s body height expected_reward ctx =
      let b = effective s body height in
      elim (validate s b height expected_reward ctx) [
        | err e ↦ (s, err e)
        | ok staged ↦ settle (commit s b height staged) staged.undo
      ]
