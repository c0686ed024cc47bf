-- ===== src/Chain/Rebuild.antt =====
-- Rebuilding a chain from its blocks (crates/nightfall-consensus/src/lib.rs): a trusted prefix is
-- replayed as the node's own, and the rest is validated.
use nightfall.Common.{
  ℕ, suc, ◌+◌, Bool, true, false, not, ◌&&◌, none, some, List, [], ◌∷◌, leb, ltb, ◌==◌, length, max,
  last?, if◌then◌else◌,
}
use nightfall.Common.Result.{Result, ok, err, ◌>>=◌, ◌>>◌, require}
use nightfall.Types.{
  NetworkId, mainnet, testnet, devnet, highest_checkpoint_height, binding_fork_height,
}
use nightfall.Crypto.{Primitives}
use nightfall.Ledger.{with_binding_height}
use nightfall.Ledger.Roots.{utxo_root, kernel_sum}
use nightfall.Chain.{
  Chain, Block, PrunedBase, ConsensusError, bad_utxo_root, bad_kernel_sum, new_fair, block_count,
}
use nightfall.Chain.Apply.{apply_block, apply_block_from_own_disk}

unfoldable pub is_mainnet : NetworkId → Bool
is_mainnet mainnet = true
is_mainnet testnet = false
is_mainnet devnet = false

-- How many leading blocks the pin vouches for. `no_assume_valid` is the environment variable
-- `NIGHTFALL_NO_ASSUME_VALID`.
unfoldable pub assume_valid_to : Bool → NetworkId → List Block → ℕ
assume_valid_to no_assume_valid network blocks =
    if is_mainnet network
      && (ltb 0 highest_checkpoint_height
          && (ltb highest_checkpoint_height (length blocks) && not no_assume_valid))
    then highest_checkpoint_height + 1
    else 0

module _ (c : Primitives) where
  open c use {Point}

  unfoldable pub check_tip_roots : Chain Point → Result ConsensusError (Unit {0})
  check_tip_roots ch = elim (last? ch.blocks) [
    | none ↦ ok tt
    | some tip ↦ (do
      require (utxo_root c ch.ledger == tip.header.utxo_root) bad_utxo_root
      require (kernel_sum c ch.ledger == tip.header.kernel_sum) bad_kernel_sum)
  ]

  -- `chain.apply_block(b, now_unix)?`.
  unfoldable pub apply_checked : Chain Point → Block → ℕ → Result ConsensusError (Chain Point)
  apply_checked ch block now_unix =
      let (after, result) = apply_block c ch block now_unix in
      elim result [ err e ↦ err e | ok _ ↦ ok after ]

  -- One block of the loop, at index `i`.
  unfoldable pub replay_one : Chain Point → Block → ℕ → ℕ → ℕ → Result ConsensusError (Chain Point)
  replay_one ch block i trusted_prefix now_unix =
      if ltb i trusted_prefix then apply_block_from_own_disk c ch block else (do
        if (i == trusted_prefix) && ltb 0 trusted_prefix then check_tip_roots ch else ok tt
        apply_checked ch block now_unix)

  unfoldable pub replay : Chain Point → List Block → ℕ → ℕ → ℕ → Result ConsensusError (Chain Point)
  replay ch [] i trusted_prefix now_unix = ok ch
  replay ch (b ∷ blocks) i trusted_prefix now_unix =
      elim (replay_one ch b i trusted_prefix now_unix) [
        | err e ↦ err e
        | ok after ↦ replay after blocks (suc i) trusted_prefix now_unix
      ]

  unfoldable pub rebuild_from_blocks_trusted_prefix :
      Bool → NetworkId → List Block → ℕ → ℕ → Result ConsensusError (Chain Point)
  rebuild_from_blocks_trusted_prefix no_assume_valid network blocks trusted_prefix now_unix = do
    let trusted = max trusted_prefix (assume_valid_to no_assume_valid network blocks)
    fresh ← new_fair c network
    ch ← replay fresh blocks 0 trusted now_unix
    if ltb 0 trusted && leb (block_count c ch) trusted then check_tip_roots ch else ok tt
    ok ch

  unfoldable pub rebuild_from_blocks :
      Bool → NetworkId → List Block → ℕ → Result ConsensusError (Chain Point)
  rebuild_from_blocks no_assume_valid network blocks now_unix =
      rebuild_from_blocks_trusted_prefix no_assume_valid network blocks 0 now_unix

  unfoldable pub rebuild_from_pruned_base :
      NetworkId → PrunedBase Point → List Block → ℕ → ℕ → Result ConsensusError (Chain Point)
  rebuild_from_pruned_base network base blocks trusted_prefix now_unix = do
    fresh ← new_fair c network
    let horizon = with_binding_height c base.horizon (binding_fork_height network)
    let start = record fresh {
      ledger = horizon;
      horizon = some horizon;
      horizon_work = base.horizon_work;
      first_height = base.first_height;
      headers = base.headers;
      total_work = base.horizon_work;
    }
    ch ← replay start blocks 0 trusted_prefix now_unix
    if ltb 0 trusted_prefix && leb (length ch.blocks) trusted_prefix
        then check_tip_roots ch
        else ok tt
    ok ch
