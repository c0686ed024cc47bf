-- ===== src/Ledger/Locks.antt =====
-- The kernels of a block that crates/nightfall-ledger/src/lib.rs accepts.
use nightfall.Common.{ℕ, ◌≡◌, ◌≤◌, true, false, List, [], ◌∷◌, none, arith, All}
use nightfall.Common.Result.{ok}
use nightfall.Crypto.{Primitives}
use nightfall.Crypto.Kernel.{TxKernel, check_kernel_shape, verify_signature}
use nightfall.Crypto.Kernel
use nightfall.Body.{BlockBody}
use nightfall.Utxo.Running.{IsSummed}
use nightfall.Ledger.{LedgerState}
use nightfall.Ledger.Checks.{check_kernels}
use nightfall.Ledger.Apply.{Staged, effective, validate, apply_block}
use nightfall.Ledger.Atomic.{accepted_staged}

-- A kernel of a block at a height: well shaped, signed, and unlocked unless it is the coinbase.
abbrev pub IsUnlocked : (c : Primitives) → ℕ → TxKernel → Type 0
IsUnlocked c height k =
    (check_kernel_shape c k ≡ none)
    × (verify_signature c k ≡ true)
    × (Kernel.is_coinbase k.feature ≡ false → k.lock_height ≤ height)

module _ (c : Primitives) where
  open c use {Point}

  kernel_step :
      (height : ℕ) (k : TxKernel) (kernels : List TxKernel)
      → check_kernels c height (k ∷ kernels) ≡ ok tt
      → IsUnlocked c height k × (check_kernels c height kernels ≡ ok tt)
  unfolding check_kernels
  kernel_step height k kernels h = ground arith

  kernels-IsUnlocked :
      (height : ℕ) (kernels : List TxKernel)
      → check_kernels c height kernels ≡ ok tt
      → All (IsUnlocked c height) kernels
  kernels-IsUnlocked height [] h = tt
  kernels-IsUnlocked height (k ∷ kernels) h =
      let (here, rest) = kernel_step height k kernels h in
      (here, kernels-IsUnlocked height kernels rest)

  kernels_checked :
      (s : LedgerState Point) (body : BlockBody) (height reward : ℕ) (ctx : List ℕ)
      (staged : Staged)
      → validate c s body height reward ctx ≡ ok staged
      → check_kernels c height body.kernels ≡ ok tt
  unfolding validate
  kernels_checked s body height reward ctx staged h = ground arith

  -- Every kernel of a block that is accepted is well shaped and signed, and none but the coinbase is
  -- locked beyond the height of the block.
  -- It is stated for a state whose set has its running values kept up.
  pub accepted_kernels :
      (s after : LedgerState Point) (body : BlockBody) (height reward : ℕ) (ctx : List ℕ)
      → IsSummed c s.utxos
      → apply_block c s body height reward ctx ≡ (after, ok tt)
      → All (IsUnlocked c height) (effective c s body height).kernels
  accepted_kernels s after body height reward ctx sum h =
      let (staged, valid, at) = accepted_staged c s after body height reward ctx sum h in
      kernels-IsUnlocked height _
        (kernels_checked s (effective c s body height) height reward ctx staged valid)
