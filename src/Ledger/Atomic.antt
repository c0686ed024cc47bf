-- ===== src/Ledger/Atomic.antt =====
-- What `apply_block` of crates/nightfall-ledger/src/lib.rs does as a whole: all or nothing.
use nightfall.Common.{ℕ, ◌≡◌, List, arith, inl, inr}
use nightfall.Common.Result.{ok, err, Result-cases}
use nightfall.Crypto.{Primitives}
use nightfall.Body.{BlockBody}
use nightfall.Utxo.Running.{IsSummed}
use nightfall.Ledger.{LedgerState, LedgerError, verify_supply}
use nightfall.Ledger.Apply.{Staged, effective, validate, commit, apply_block}
use nightfall.Ledger.Accept.{commit_sums, settle-commit}

module _ (c : Primitives) where
  open c use {Point}

  -- `apply_block` returns what its checks return, and the state it leaves is the committed one or
  -- the one it was given. The running values of the set have to be kept up.
  pub apply_block_lem :
      (s : LedgerState Point) (body : BlockBody) (height reward : ℕ) (ctx : List ℕ)
      → IsSummed c s.utxos
      → apply_block c s body height reward ctx
        ≡ elim (validate c s (effective c s body height) height reward ctx) [
          | err e ↦ (s, err e)
          | ok staged ↦ (commit c s (effective c s body height) height staged, ok tt)
        ]
  unfolding apply_block
  apply_block_lem s body height reward ctx sum =
      elim (Result-cases (validate c s (effective c s body height) height reward ctx)) [
        | inl (staged, h) ↦
            rw (h, apply_block)
              (settle-commit c s (effective c s body height) height reward ctx staged sum h)
        | inr (e, h) ↦ rw (h, apply_block)
      ]

  -- A block that `apply_block` refuses leaves the state as it was.
  -- It is stated for a state whose set has its running values kept up.
  pub apply_block_refused :
      (s after : LedgerState Point) (body : BlockBody) (height reward : ℕ) (ctx : List ℕ)
      (e : LedgerError)
      → IsSummed c s.utxos
      → apply_block c s body height reward ctx ≡ (after, err e)
      → after ≡ s
  apply_block_refused s after body height reward ctx e sum h =
      ground (arith, apply_block_lem s body height reward ctx sum)

  -- A block that `apply_block` accepts passed every check, and the state it leaves is the committed
  -- one.
  pub accepted_staged :
      (s after : LedgerState Point) (body : BlockBody) (height reward : ℕ) (ctx : List ℕ)
      → IsSummed c s.utxos
      → apply_block c s body height reward ctx ≡ (after, ok tt)
      → (staged : Staged) × (validate c s (effective c s body height) height reward ctx ≡ ok staged)
        × (after ≡ commit c s (effective c s body height) height staged)
  accepted_staged s after body height reward ctx sum h =
      ground (arith, apply_block_lem s body height reward ctx sum)

  -- After a block that was accepted the running values of the set are still kept up, and the supply
  -- equation holds of the state. It is stated for a state whose set has its running values kept up.
  pub accepted_verifies :
      (s after : LedgerState Point) (body : BlockBody) (height reward : ℕ) (ctx : List ℕ)
      → IsSummed c s.utxos
      → apply_block c s body height reward ctx ≡ (after, ok tt)
      → IsSummed c after.utxos × (verify_supply c after ≡ ok tt)
  accepted_verifies s after body height reward ctx sum h =
      let (staged, valid, at) = accepted_staged s after body height reward ctx sum h in
      rw at (commit_sums c s (effective c s body height) height reward ctx staged sum valid)
