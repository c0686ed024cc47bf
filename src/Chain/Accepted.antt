-- ===== src/Chain/Accepted.antt =====
-- What an accepted block adds to the chain (crates/nightfall-consensus/src/lib.rs).
use nightfall.Common.{ℕ, ◌≡◌, refl, Bool, List, [], arith, inl, inr}
use nightfall.Common.Result.{Result, ok, err, Result-cases}
use nightfall.Crypto.{Primitives}
use nightfall.Body.{BlockBody}
use nightfall.Utxo.Running.{IsSummed}
use nightfall.Ledger.{LedgerState, LedgerError, StateUndo, capture_undo, remove_each, insert_each}
use nightfall.Ledger.Apply
use nightfall.Ledger.Apply.{members, created_entries}
use nightfall.Ledger.Batch.{remove_each-IsSummed, insert_each-IsSummed}
use nightfall.Ledger.Replay.{collect_inputs, apply_block_state_only}
use nightfall.Ledger.Atomic.{accepted_verifies}
use nightfall.Ledger.Roots.{utxo_root, kernel_sum}
use nightfall.Chain.{Chain, Block, ConsensusError, proof_ctx}
use nightfall.Chain.Apply.{
  stripped_block, subsidy_of, check_block, check_links, extend, settle_roots, judge_ledger,
  commit_block, apply_block_inner, apply_block_from_own_disk,
}
use nightfall.Chain.Refused.{apply_block_inner_refused}
use nightfall.Chain.Shape.{IsChain, extend-IsChain}

module _ (c : Primitives) where
  open c use {Point}

  -- A block as it stands on a chain: it passed the checks, the ledger took it, and the roots it names
  -- are those of the ledger after it.
  pub record Stands (ch : Chain Point) (block : Block) (now_unix : ℕ) (verify_pow : Bool)
      (chain : Chain Point) : Type 0 where
    pub undo : StateUndo
    pub after : LedgerState Point
    pub checked : check_block c ch block now_unix verify_pow ≡ ok tt
    pub captured : capture_undo c ch.ledger block.body ≡ ok undo
    pub applied :
        Apply.apply_block c ch.ledger block.body block.header.height
          (subsidy_of c ch block)
          (proof_ctx c ch)
        ≡ (after, ok tt)
    pub rooted : utxo_root c after ≡ block.header.utxo_root
    pub summed : kernel_sum c after ≡ block.header.kernel_sum
    pub extended : chain ≡ extend c ch after block undo

  settle_facts :
      (ch chain : Chain Point) (after : LedgerState Point) (block : Block) (undo : StateUndo)
      → settle_roots c ch after block undo ≡ (chain, ok tt)
      → (utxo_root c after ≡ block.header.utxo_root)
        × (kernel_sum c after ≡ block.header.kernel_sum)
        × (chain ≡ extend c ch after block undo)
  unfolding settle_roots
  settle_facts ch chain after block undo h = ground arith

  judged_facts :
      (ch chain : Chain Point) (block : Block) (undo : StateUndo)
      (p : LedgerState Point × Result LedgerError (Unit {0}))
      → judge_ledger c ch block undo p ≡ (chain, ok tt)
      → (p ≡ (p.0, ok tt)) × (settle_roots c ch p.0 block undo ≡ (chain, ok tt))
  unfolding judge_ledger
  judged_facts ch chain block undo (after, err e) h = absurd (ground arith)
  judged_facts ch chain block undo (after, ok u) h = (refl, h)

  commit_facts :
      (ch chain : Chain Point) (block : Block)
      → commit_block c ch block ≡ (chain, ok tt)
      → (undo : StateUndo) × (capture_undo c ch.ledger block.body ≡ ok undo)
        × (judge_ledger c ch block undo (
              Apply.apply_block c ch.ledger block.body block.header.height
                (subsidy_of c ch block)
                (proof_ctx c ch))
            ≡ (chain, ok tt))
  unfolding commit_block
  commit_facts ch chain block h = ground arith

  inner_facts :
      (ch chain : Chain Point) (block : Block) (now_unix : ℕ) (verify_pow : Bool)
      → apply_block_inner c ch block now_unix verify_pow ≡ (chain, ok tt)
      → (check_block c ch (stripped_block c ch block) now_unix verify_pow ≡ ok tt)
        × (commit_block c ch (stripped_block c ch block) ≡ (chain, ok tt))
  unfolding apply_block_inner
  inner_facts ch chain block now_unix verify_pow h = ground arith

  pub taken_facts :
      (ch chain : Chain Point) (block : Block) (now_unix : ℕ) (verify_pow : Bool)
      → apply_block_inner c ch block now_unix verify_pow ≡ (chain, ok tt)
      → Stands ch (stripped_block c ch block) now_unix verify_pow chain
  taken_facts ch chain block now_unix verify_pow h =
      let (checks, committed) = inner_facts ch chain block now_unix verify_pow h in
      let b = stripped_block c ch block in
      let (undo, captured, judged) = commit_facts ch chain b committed in
      let (applied, settled) = judged_facts ch chain b undo _ judged in
      let (rooted, summed, extended) = settle_facts ch chain _ b undo settled in
      record {
        undo = undo;
        after = _;
        checked = checks;
        captured = captured;
        applied = applied;
        rooted = rooted;
        summed = summed;
        extended = extended;
      }

  checked_links :
      (ch : Chain Point) (block : Block) (now_unix : ℕ) (verify_pow : Bool)
      → check_block c ch block now_unix verify_pow ≡ ok tt
      → check_links c ch block ≡ ok tt
  unfolding check_block
  checked_links ch block now_unix verify_pow h = ground arith

  -- A chain stays well formed whatever block it is given, accepted or refused, with proof of work
  -- checked or not.
  pub apply_block_inner-IsChain :
      (base : ℕ) (ch chain : Chain Point) (block : Block) (now_unix : ℕ) (verify_pow : Bool)
      (result : Result ConsensusError (Unit {0}))
      → IsChain c base ch
      → apply_block_inner c ch block now_unix verify_pow ≡ (chain, result)
      → IsChain c base chain
  apply_block_inner-IsChain base ch chain block now_unix verify_pow (err e) w h =
      rw (apply_block_inner_refused c ch chain block now_unix verify_pow e w.summed h) w
  apply_block_inner-IsChain base ch chain block now_unix verify_pow (ok tt) w h =
      let s = taken_facts ch chain block now_unix verify_pow h in
      let kept = accepted_verifies c ch.ledger s.after _ _ _ _ w.summed s.applied in
      rw s.extended (
        extend-IsChain c base ch s.after (stripped_block c ch block) s.undo w kept.0
          (checked_links ch (stripped_block c ch block) now_unix verify_pow s.checked))

  state_only_utxos :
      (s after : LedgerState Point) (body : BlockBody) (height reward : ℕ)
      → apply_block_state_only c s body height reward ≡ ok after
      → (spent : List (ℕ × Unit {0})) × (collect_inputs c s.utxos [] body.inputs ≡ ok spent)
        × (after.utxos
            ≡ insert_each c
                (remove_each c s.utxos (members spent))
                (created_entries height body.outputs))
  unfolding apply_block_state_only
  state_only_utxos s after body height reward h = ground arith

  own_disk_facts :
      (ch chain : Chain Point) (block : Block)
      → apply_block_from_own_disk c ch block ≡ ok chain
      → (check_links c ch (stripped_block c ch block) ≡ ok tt)
        × (undo : StateUndo) × (capture_undo c ch.ledger (stripped_block c ch block).body ≡ ok undo)
        × (after : LedgerState Point) × (apply_block_state_only c ch.ledger
              (stripped_block c ch block).body
              (stripped_block c ch block).header.height
              (subsidy_of c ch (stripped_block c ch block))
            ≡ ok after)
        × (chain ≡ extend c ch after (stripped_block c ch block) undo)
  unfolding apply_block_from_own_disk
  own_disk_facts ch chain block h =
      let b = stripped_block c ch block in
      elim (Result-cases (capture_undo c ch.ledger b.body)) [
        | inl (undo, q) ↦
            elim (Result-cases
              (apply_block_state_only c ch.ledger b.body b.header.height (subsidy_of c ch b))) [
                | inl (after, r) ↦ (ground arith, undo, q, after, r, ground arith)
                | inr (e, r) ↦ absurd (ground arith)
              ]
        | inr (e, q) ↦ absurd (ground arith)
      ]

  state_only-IsSummed :
      (s after : LedgerState Point) (body : BlockBody) (height reward : ℕ)
      → IsSummed c s.utxos
      → apply_block_state_only c s body height reward ≡ ok after
      → IsSummed c after.utxos
  state_only-IsSummed s after body height reward sum h =
      let (spent, found, e) = state_only_utxos s after body height reward h in
      rw e (
        insert_each-IsSummed c _ (created_entries height body.outputs)
          (remove_each-IsSummed c s.utxos (members spent) sum))

  -- The same for a block that is replayed from the node's own disk.
  pub own_disk-IsChain :
      (base : ℕ) (ch chain : Chain Point) (block : Block)
      → IsChain c base ch
      → apply_block_from_own_disk c ch block ≡ ok chain
      → IsChain c base chain
  own_disk-IsChain base ch chain block w h =
      let (links, undo, captured, after, applied, extended) = own_disk_facts ch chain block h in
      rw extended (
        extend-IsChain c base ch after (stripped_block c ch block) undo w
          (state_only-IsSummed ch.ledger after _ _ _ w.summed applied) links)
