-- ===== src/Ledger/Mint.antt =====
-- The supply counters and the coinbase of a block that crates/nightfall-ledger/src/lib.rs accepts.
use nightfall.Common.{ℕ, ◌+◌, ◌≡◌, ◌≤◌, Bool, List, arith, if◌then◌else◌, ltb, some}
use nightfall.Common.Result.{ok}
use nightfall.Types.{max_supply_darks}
use nightfall.Crypto.{Primitives}
use nightfall.Crypto.Kernel.{TxKernel}
use nightfall.Body.{BlockBody, total_fee, coinbase_kernels}
use nightfall.Utxo.{KernelAccumulator, SupplyState}
use nightfall.Utxo.Running.{IsSummed}
use nightfall.Utxo.Supply.{supply_equation_holds}
use nightfall.Ledger.{LedgerState}
use nightfall.Ledger.Checks.{coinbase_due, check_coinbase, find_coinbase, project_supply}
use nightfall.Ledger.Apply.{effective, commit, apply_block}
use nightfall.Ledger.Facts.{validate_facts, project_facts}
use nightfall.Ledger.Atomic.{accepted_staged}

-- The counters of a block: the subsidy is minted and the fees are burned, and nothing moves once
-- there is no subsidy.
project_supply_lem :
    (a b : SupplyState) (reward fees : ℕ)
    → project_supply a reward fees ≡ ok b
    → (b.total_minted_darks ≡ a.total_minted_darks + reward)
      × (b.total_burned_darks ≡ a.total_burned_darks + (if ltb 0 reward then fees else 0))
unfolding project_supply
project_supply_lem a b reward fees h = ground arith

module _ (c : Primitives) where
  open c use {Point}

  capped :
      (p : Point) (kernels : KernelAccumulator) (b : SupplyState)
      → supply_equation_holds c p kernels b ≡ ok tt
      → b.total_minted_darks ≤ max_supply_darks
  unfolding supply_equation_holds
  capped p kernels b h = ground arith

  -- A block that is accepted mints exactly the subsidy it was given, and burns exactly its fees while
  -- there is a subsidy; the total minted stays within the cap.
  -- It is stated for a state whose set has its running values kept up.
  pub accepted_supply :
      (s after : LedgerState Point) (body : BlockBody) (height reward : ℕ) (ctx : List ℕ)
      → IsSummed c s.utxos
      → apply_block c s body height reward ctx ≡ (after, ok tt)
      → (after.supply.total_minted_darks ≡ s.supply.total_minted_darks + reward)
        × (after.supply.total_burned_darks
            ≡ s.supply.total_burned_darks
              + (if ltb 0 reward then total_fee (effective c s body height) else 0))
        × (after.supply.total_minted_darks ≤ max_supply_darks)
  unfolding commit
  accepted_supply s after body height reward ctx sum h =
      let (staged, valid, at) = accepted_staged c s after body height reward ctx sum h in
      let b = effective c s body height in
      let (coinbase, e0, outs, spent, ins, offset, e1, e2, proj) =
        validate_facts c s b height reward ctx staged valid in
      let (projected, e3, e4, e5, e6, undo) = project_facts c s b reward spent offset staged proj in
      let (minted, burned) = project_supply_lem s.supply staged.supply reward (total_fee b) e4 in
      rw at (minted, burned, capped projected staged.kernels staged.supply e6)

  coinbase_facts :
      (s : LedgerState Point) (body : BlockBody) (height reward : ℕ) (binding : Bool)
      (coinbase : TxKernel)
      → check_coinbase c s body height reward binding ≡ ok coinbase
      → (coinbase_kernels body ≡ 1)
        × (find_coinbase body.kernels ≡ some coinbase)
        × (coinbase.reward_darks ≡ coinbase_due reward (total_fee body))
        × (coinbase.lock_height ≡ height)
  unfolding check_coinbase
  coinbase_facts s body height reward binding coinbase h = ground arith

  -- A block that is accepted has exactly one coinbase kernel, which claims the subsidy, or the fees
  -- where there is none, and is locked to the height of the block.
  -- It is stated for a state whose set has its running values kept up.
  pub accepted_coinbase :
      (s after : LedgerState Point) (body : BlockBody) (height reward : ℕ) (ctx : List ℕ)
      → IsSummed c s.utxos
      → apply_block c s body height reward ctx ≡ (after, ok tt)
      → (coinbase_kernels (effective c s body height) ≡ 1)
        × (coinbase : TxKernel) × (find_coinbase (effective c s body height).kernels
            ≡ some coinbase)
        × (coinbase.reward_darks ≡ coinbase_due reward (total_fee (effective c s body height)))
        × (coinbase.lock_height ≡ height)
  accepted_coinbase s after body height reward ctx sum h =
      let (staged, valid, at) = accepted_staged c s after body height reward ctx sum h in
      let b = effective c s body height in
      let (coinbase, e0, outs, spent, ins, offset, e1, e2, proj) =
        validate_facts c s b height reward ctx staged valid in
      let (one, found, due, locked) = coinbase_facts s b height reward _ coinbase e0 in
      (one, coinbase, found, due, locked)
