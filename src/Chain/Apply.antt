-- ===== src/Chain/Apply.antt =====
-- `Chain::apply_block`, `apply_block_locally_trusted` and `apply_block_from_own_disk` of
-- crates/nightfall-consensus/src/lib.rs.
use nightfall.Common.{
  ℕ, Bool, true, false, not, ◌&&◌, ◌||◌, none, some, List, [], ◌∷◌, ◌++◌, leb, ltb, ◌==◌, length,
  if◌then◌else◌,
}
use nightfall.Common.Result.{Result, ok, err, ◌>>=◌, ◌>>◌, require, ok_or, map_err}
use nightfall.Common.Words.{saturating_add, saturating_add128}
use nightfall.Types.{protocol_version, checkpoint_at, max_future_drift_secs, pow_params}
use nightfall.Emission.{reward_at}
use nightfall.Crypto.{Primitives}
use nightfall.Body.{strip_body, exceeds_size_limits, total_fee, body_hash}
use nightfall.Ledger.{LedgerState, LedgerError, StateUndo, capture_undo, rewind, block_too_large}
use nightfall.Ledger.Apply
use nightfall.Ledger.Checks.{coinbase_due}
use nightfall.Ledger.Replay.{apply_block_state_only}
use nightfall.Ledger.Roots.{utxo_root, kernel_sum}
use nightfall.Chain.{
  Chain, Block, TipUndo, ConsensusError, bad_version, bad_tx_count, bad_height, bad_prev,
  checkpoint_mismatch, timestamp_too_far_ahead, timestamp_before_median, bad_difficulty, bad_pow,
  bad_reward, bad_tx_root, bad_utxo_root, bad_kernel_sum, panicked, max_reorg_depth, hash, work,
  from_block, binding_active_at, proof_ctx, next_height, tip_hash, block_count, next_difficulty,
  median_time_past, pow_is_valid,
}

-- The loop of `remember_undo`: the oldest go until the window fits.
unfoldable pub trim : List TipUndo → List TipUndo
trim [] = []
trim (u ∷ undos) =
    let rest = trim undos in if ltb max_reorg_depth (length (u ∷ undos)) then rest else u ∷ undos

module _ (c : Primitives) where
  open c use {Point}

  -- Below the fork the binding fields are taken off.
  unfoldable pub stripped_block : Chain Point → Block → Block
  stripped_block ch block =
      if not (binding_active_at c ch block.header.height)
      then record block { body = strip_body block.body }
      else block

  -- The subsidy of a block on this tip.
  unfoldable pub subsidy_of : Chain Point → Block → ℕ
  subsidy_of ch block =
      reward_at ch.emission block.header.height ch.ledger.supply.total_minted_darks

  unfoldable pub check_links : Chain Point → Block → Result ConsensusError (Unit {0})
  check_links ch block = do
    require (block.header.height == next_height c ch) bad_height
    require (block.header.prev_hash == tip_hash c ch) bad_prev

  unfoldable pub check_pin : Block → Result ConsensusError (Unit {0})
  check_pin block = elim (checkpoint_at block.header.height) [
    | none ↦ ok tt
    | some pinned ↦
        require (hash c block == pinned)
          (checkpoint_mismatch block.header.height pinned (hash c block))
  ]

  unfoldable pub check_version : Block → Result ConsensusError (Unit {0})
  check_version block =
      require (block.header.version == protocol_version)
        (bad_version block.header.version protocol_version)

  unfoldable pub check_time : Chain Point → Block → ℕ → Bool → Result ConsensusError (Unit {0})
  check_time ch block now_unix verify_pow = do
    require
        (not (
          verify_pow
          && ltb (saturating_add now_unix max_future_drift_secs) block.header.timestamp_unix))
        timestamp_too_far_ahead
    median ← ok_or (median_time_past c ch) panicked
    require (not (ltb 0 (block_count c ch) && leb block.header.timestamp_unix median))
        timestamp_before_median

  unfoldable pub check_work : Chain Point → Block → Bool → Result ConsensusError (Unit {0})
  check_work ch block verify_pow = do
    expected ← ok_or (next_difficulty c ch) panicked
    require (block.header.difficulty == expected) (bad_difficulty block.header.difficulty expected)
    require (not verify_pow || pow_is_valid c block (pow_params ch.network)) bad_pow

  -- Everything before the ledger is asked.
  unfoldable pub check_block : Chain Point → Block → ℕ → Bool → Result ConsensusError (Unit {0})
  check_block ch block now_unix verify_pow = do
    check_version block
    require (not (length block.body.outputs == 0 || length block.body.kernels == 0)) bad_tx_count
    require (not (exceeds_size_limits block.body)) (ConsensusError.ledger block_too_large)
    check_links ch block
    check_pin block
    check_time ch block now_unix verify_pow
    check_work ch block verify_pow
    require (block.header.reward_darks == coinbase_due (subsidy_of ch block) (total_fee block.body))
        bad_reward
    require (body_hash c block.body == block.header.body_root) bad_tx_root

  -- `push_block` and `remember_undo`, with the work and the ledger of the block.
  unfoldable pub extend : Chain Point → LedgerState Point → Block → StateUndo → Chain Point
  extend ch ledger block undo = record ch {
    ledger = ledger;
    total_work = saturating_add128 ch.total_work (work block);
    headers = ch.headers ++ from_block c block ∷ [];
    blocks = ch.blocks ++ block ∷ [];
    undos = trim (ch.undos ++ record { work = work block; state = undo } ∷ []);
  }

  -- The roots decide last, on the ledger that was written.
  unfoldable pub settle_roots :
      Chain Point
      → LedgerState Point
      → Block
      → StateUndo
      → Chain Point × Result ConsensusError (Unit {0})
  settle_roots ch after block undo =
      if not (utxo_root c after == block.header.utxo_root)
      then (record ch { ledger = rewind c after undo }, err bad_utxo_root)
      else if not (kernel_sum c after == block.header.kernel_sum)
      then (record ch { ledger = rewind c after undo }, err bad_kernel_sum)
      else (extend ch after block undo, ok tt)

  -- After the ledger's verdict: its refusal stands, and otherwise the roots are compared.
  unfoldable pub judge_ledger :
      Chain Point
      → Block
      → StateUndo
      → LedgerState Point × Result LedgerError (Unit {0})
      → Chain Point × Result ConsensusError (Unit {0})
  judge_ledger ch block undo (after, err e) =
      (record ch { ledger = after }, err (ConsensusError.ledger e))
  judge_ledger ch block undo (after, ok u) = settle_roots ch after block undo

  unfoldable pub commit_block : Chain Point → Block → Chain Point × Result ConsensusError (Unit {0})
  commit_block ch block = elim (capture_undo c ch.ledger block.body) [
    | err e ↦ (ch, err (ConsensusError.ledger e))
    | ok undo ↦ judge_ledger ch block undo (
        Apply.apply_block c ch.ledger block.body block.header.height (subsidy_of ch block)
          (proof_ctx c ch))
  ]

  unfoldable pub apply_block_inner :
      Chain Point → Block → ℕ → Bool → Chain Point × Result ConsensusError (Unit {0})
  apply_block_inner ch block now_unix verify_pow =
      let b = stripped_block ch block in
      elim (check_block ch b now_unix verify_pow) [ err e ↦ (ch, err e) | ok _ ↦ commit_block ch b ]

  unfoldable pub apply_block :
      Chain Point → Block → ℕ → Chain Point × Result ConsensusError (Unit {0})
  apply_block ch block now_unix = apply_block_inner ch block now_unix true

  unfoldable pub apply_block_locally_trusted :
      Chain Point → Block → ℕ → Chain Point × Result ConsensusError (Unit {0})
  apply_block_locally_trusted ch block now_unix = apply_block_inner ch block now_unix false

  -- Every failure comes before the first change, so the new chain is all that is returned.
  unfoldable pub apply_block_from_own_disk :
      Chain Point → Block → Result ConsensusError (Chain Point)
  apply_block_from_own_disk ch block = do
    let b = stripped_block ch block
    check_version b
    check_links ch b
    check_pin b
    undo ← map_err ConsensusError.ledger (capture_undo c ch.ledger b.body)
    after ←
        map_err ConsensusError.ledger
          (apply_block_state_only c ch.ledger b.body b.header.height (subsidy_of ch b))
    ok (extend ch after b undo)
