-- ===== src/Ledger/Roots.antt =====
-- `utxo_root` and `kernel_sum` of crates/nightfall-ledger/src/lib.rs.
use nightfall.Common.{ℕ, none, some}
use nightfall.Crypto.{Primitives}
use nightfall.Crypto.Commit.{Commitment}
use nightfall.Utxo.Root.{root}
use nightfall.Ledger.{LedgerState}

module _ (c : Primitives) where
  open c use {Point}

  -- The fuel of `root` covers every set, so the case of none does not come up.
  unfoldable pub utxo_root : LedgerState Point → ℕ
  utxo_root s = elim (root c s.utxos) [ some r ↦ r | none ↦ 0 ]

  unfoldable pub kernel_sum : LedgerState Point → Commitment
  kernel_sum s = s.kernels.sum
