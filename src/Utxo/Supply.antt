-- ===== src/Utxo/Supply.antt =====
-- `KernelAccumulator` and the supply equation of crates/nightfall-ledger/src/utxo.rs.
use nightfall.Common.{◌+◌, not, none, some, Option, ltb, if◌then◌else◌}
use nightfall.Common.Result.{Result, ◌>>=◌, ◌>>◌, ok_or, require}
use nightfall.Types.{max_supply_darks}
use nightfall.Crypto.{Primitives}
use nightfall.Crypto.Commit.{
  Commitment, point, from_point, identity_commitment, commit_public_value,
}
use nightfall.Crypto.Group.{minus}
use nightfall.Utxo.{
  UtxoSet, KernelAccumulator, SupplyState, SupplyError, malformed_utxo, malformed_kernel_sum,
  invariant_violated, cap_exceeded, circulating, commitment_sum,
}

module _ (c : Primitives) where
  open c use {Point, identity, add, point_eq}

  unfoldable pub default_kernels : KernelAccumulator
  default_kernels = record { sum = identity_commitment c; count = 0 }

  -- `KernelAccumulator::add`.
  unfoldable pub add_kernel : KernelAccumulator → Commitment → Option KernelAccumulator
  add_kernel ks excess = elim (point c ks.sum) [
    | none ↦ none
    | some acc ↦ elim (point c excess) [
      | none ↦ none
      | some e ↦ some (record { sum = from_point c (add acc e); count = ks.count + 1 })
    ]
  ]

  unfoldable pub add_offset : KernelAccumulator → Point → Option KernelAccumulator
  add_offset ks offset = if point_eq offset identity then some ks else elim (point c ks.sum) [
    | none ↦ none
    | some acc ↦ some (record ks { sum = from_point c (add acc offset) })
  ]

  unfoldable pub supply_equation_holds :
      Point → KernelAccumulator → SupplyState → Result SupplyError (Unit {0})
  supply_equation_holds utxo_sum kernels supply = do
    kernel_sum ← ok_or (point c kernels.sum) malformed_kernel_sum
    require (point_eq (minus c utxo_sum kernel_sum) (commit_public_value c (circulating supply)))
        invariant_violated
    require (not (ltb max_supply_darks supply.total_minted_darks)) cap_exceeded

  unfoldable pub verify_supply_invariant :
      UtxoSet Point → KernelAccumulator → SupplyState → Result SupplyError (Unit {0})
  verify_supply_invariant utxos kernels supply = do
    utxo_sum ← ok_or (commitment_sum c utxos) malformed_utxo
    supply_equation_holds utxo_sum kernels supply
