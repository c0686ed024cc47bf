-- ===== src/Chain/Refused.antt =====
-- What a refused block leaves of the chain (crates/nightfall-consensus/src/lib.rs).
use nightfall.Common.{ℕ, ◌≡◌, Bool, refl, arith, inl, inr}
use nightfall.Common.Result.{Result, ok, err, Result-cases}
use nightfall.Crypto.{Primitives}
use nightfall.Utxo.Running.{IsSummed}
use nightfall.Ledger.{LedgerState, LedgerError, StateUndo, capture_undo, rewind}
use nightfall.Ledger.Apply
use nightfall.Ledger.Atomic.{apply_block_refused}
use nightfall.Ledger.Undone.{rewind-apply_block}
use nightfall.Chain.{Chain, Block, ConsensusError, proof_ctx}
use nightfall.Chain.Apply.{
  stripped_block, subsidy_of, settle_roots, judge_ledger, commit_block, apply_block_inner,
}

module _ (c : Primitives) where
  open c use {Point}

  settle_roots_refused :
      (ch chain : Chain Point) (after : LedgerState Point) (block : Block) (undo : StateUndo)
      (e : ConsensusError)
      → rewind c after undo ≡ ch.ledger
      → settle_roots c ch after block undo ≡ (chain, err e)
      → chain ≡ ch
  unfolding settle_roots
  settle_roots_refused ch chain after block undo e back h = ground arith

  judged :
      (ch chain : Chain Point) (block : Block) (undo : StateUndo) (e : ConsensusError)
      (p : LedgerState Point × Result LedgerError (Unit {0}))
      → IsSummed c ch.ledger.utxos
      → capture_undo c ch.ledger block.body ≡ ok undo
      → Apply.apply_block c ch.ledger block.body block.header.height
          (subsidy_of c ch block)
          (proof_ctx c ch)
        ≡ p
      → judge_ledger c ch block undo p ≡ (chain, err e)
      → chain ≡ ch
  unfolding judge_ledger
  judged ch chain block undo e (after, err l) sum captured applied h =
      let same = apply_block_refused c ch.ledger after block.body _ _ _ l sum applied in
      ground (arith, same)
  judged ch chain block undo e (after, ok u) sum captured applied h =
      settle_roots_refused ch chain after block undo e
        (rewind-apply_block c ch.ledger after block.body _ _ _ undo sum applied captured) h

  commit_block_refused :
      (ch chain : Chain Point) (block : Block) (e : ConsensusError)
      → IsSummed c ch.ledger.utxos
      → commit_block c ch block ≡ (chain, err e)
      → chain ≡ ch
  unfolding commit_block
  commit_block_refused ch chain block e sum h =
      elim (Result-cases (capture_undo c ch.ledger block.body)) [
        | inl (undo, q) ↦ judged ch chain block undo e _ sum q refl (ground arith)
        | inr (l, q) ↦ ground arith
      ]

  -- A block that is refused, for whatever reason and after however many steps, leaves the chain as
  -- it was: blocks, headers, ledger, work and undo window. It is stated for a chain whose set has its
  -- running values kept up.
  pub apply_block_inner_refused :
      (ch chain : Chain Point) (block : Block) (now_unix : ℕ) (verify_pow : Bool)
      (e : ConsensusError)
      → IsSummed c ch.ledger.utxos
      → apply_block_inner c ch block now_unix verify_pow ≡ (chain, err e)
      → chain ≡ ch
  unfolding apply_block_inner
  apply_block_inner_refused ch chain block now_unix verify_pow e sum h =
      ground (arith, commit_block_refused ch chain (stripped_block c ch block) e sum)
