-- ===== src/Ledger/Undone.antt =====
-- `capture_undo` before and `rewind` after an accepted block (crates/nightfall-ledger/src/lib.rs), as
-- the chain uses them.
use nightfall.Common.{ℕ, ◌≡◌, refl, List, [], ◌∷◌, map, arith}
use nightfall.Common.Result.{ok}
use nightfall.Common.SortedMap
use nightfall.Crypto.{Primitives}
use nightfall.Tx.{Input, strip_input}
use nightfall.Body.{BlockBody, strip_body}
use nightfall.Utxo.{UtxoSet}
use nightfall.Utxo.Running.{IsSummed}
use nightfall.Ledger.{LedgerState, StateUndo, capture_spent, capture_undo, rewind}
use nightfall.Ledger.Apply.{effective, apply_block}
use nightfall.Ledger.Facts.{validate_facts, project_facts}
use nightfall.Ledger.Rewind.{rewind-commit}
use nightfall.Ledger.Atomic.{accepted_staged}

module _ (c : Primitives) where
  open c use {Point}

  capture_spent-strip :
      (utxos : UtxoSet Point) (seen : List (ℕ × Unit {0})) (inputs : List Input)
      → capture_spent c utxos seen (map strip_input inputs) ≡ capture_spent c utxos seen inputs
  unfolding capture_spent strip_input
  capture_spent-strip utxos seen [] = refl
  capture_spent-strip utxos seen (i ∷ inputs) =
      ground (arith, capture_spent-strip utxos (SortedMap.insert i.commit tt seen) inputs)

  capture_undo-strip :
      (s : LedgerState Point) (body : BlockBody)
      → capture_undo c s (strip_body body) ≡ capture_undo c s body
  unfolding capture_undo strip_body
  capture_undo-strip s body = rw (capture_spent-strip s.utxos [] body.inputs)

  -- Taking the binding fields off changes nothing that an undo record holds.
  pub capture_undo-effective :
      (s : LedgerState Point) (body : BlockBody) (height : ℕ)
      → capture_undo c s (effective c s body height) ≡ capture_undo c s body
  unfolding effective
  capture_undo-effective s body height = ground (arith, capture_undo-strip s body)

  -- Rewinding an accepted block with the record that was captured before it gives the state back.
  pub rewind-apply_block :
      (s after : LedgerState Point) (body : BlockBody) (height reward : ℕ) (ctx : List ℕ)
      (undo : StateUndo)
      → IsSummed c s.utxos
      → apply_block c s body height reward ctx ≡ (after, ok tt)
      → capture_undo c s body ≡ ok undo
      → rewind c after undo ≡ s
  rewind-apply_block s after body height reward ctx undo sum h captured =
      let (staged, valid, at) = accepted_staged c s after body height reward ctx sum h in
      let b = effective c s body height in
      let (coinbase, e0, outs, spent, ins, offset, e1, e2, proj) =
        validate_facts c s b height reward ctx staged valid in
      let (projected, e3, e4, e5, e6, kept) = project_facts c s b reward spent offset staged proj in
      let same : undo ≡ staged.undo =
        ground (arith, kept, captured, capture_undo-effective s body height) in
      rw (at, same) (rewind-commit c s b height reward ctx staged sum valid)
