-- ===== src/Chain.antt =====
-- crates/nightfall-consensus/src/lib.rs: blocks, headers and the chain that a node keeps.
--
-- A method on `&mut self` returns the new chain beside its result. Heights are u64 and `Height::next`
-- saturates; works are u128 sums of u64 terms.
pub mod Apply
pub mod Window
pub mod Suffix
pub mod Rebuild
pub mod Reorg
pub mod Refused
pub mod Shape
pub mod Linked
pub mod Accepted
pub mod Undo
pub mod Trial
pub mod Template
pub mod Built
pub mod Sealed
mod Mining
pub mod Examples
mod Runs
mod Tests
pub mod Heavier
pub mod Ingest
pub mod Pruned
pub mod Rebuilt
use nightfall.Common.{
  ℕ, ◌+◌, ◌-◌, Bool, true, false, not, ◌&&◌, none, some, Option, List, [], ◌∷◌, ◌++◌, map, leb, ltb,
  ◌==◌, length, take, drop, get_elem?, last?, min, if◌then◌else◌,
}
use nightfall.Common.Result.{Result, ok, err}
use nightfall.Common.Words.{le_bytes, be_bytes}
use nightfall.Types.{
  NetworkId, GenesisConfig, TypesError, PowParams, assert_fair, fair_launch, proof_context,
  pow_params, binding_fork_height, next,
}
use nightfall.Types
use nightfall.Emission.{EmissionSchedule, locked_mainnet}
use nightfall.Pow.{block_work, meets_difficulty}
use nightfall.Pow.Nighthash.{nighthash}
use nightfall.Difficulty
use nightfall.Crypto.{Primitives}
use nightfall.Crypto.Domain
use nightfall.Crypto.Commit.{Commitment}
use nightfall.Crypto.Hashing.{hash_multi, genesis_commitment}
use nightfall.Tx.{TxError}
use nightfall.Body.{BlockBody}
use nightfall.Ledger.{LedgerState, LedgerError, StateUndo, for_network}

abbrev pub max_reorg_depth : ℕ
max_reorg_depth = 500

pub record BlockHeader : Type 0 where
  pub version : ℕ
  pub height : ℕ
  pub prev_hash : ℕ
  pub utxo_root : ℕ
  pub kernel_sum : Commitment
  pub body_root : ℕ
  pub timestamp_unix : ℕ
  pub difficulty : ℕ
  pub nonce : ℕ
  pub reward_darks : ℕ

pub record Block : Type 0 where
  pub header : BlockHeader
  pub body : BlockBody

pub record CompactHeader : Type 0 where
  pub height : ℕ
  pub hash : ℕ
  pub prev_hash : ℕ
  pub timestamp_unix : ℕ
  pub difficulty : ℕ

pub record PrunedBase (Point : Type 0) : Type 0 where
  pub first_height : ℕ
  pub horizon : LedgerState Point
  pub horizon_work : ℕ
  pub headers : List CompactHeader

pub record TipUndo : Type 0 where
  pub work : ℕ
  pub state : StateUndo

pub record Chain (Point : Type 0) : Type 0 where
  pub network : NetworkId
  pub genesis : GenesisConfig
  pub genesis_hash : ℕ
  pub emission : EmissionSchedule
  pub ledger : LedgerState Point
  pub blocks : List Block
  pub headers : List CompactHeader
  pub first_height : ℕ
  pub horizon : Option (LedgerState Point)
  pub horizon_work : ℕ
  pub total_work : ℕ
  pub undos : List TipUndo

-- Where the source keeps the text of an error, the error stands here. `panicked` is no error of the
-- source: it stands for a panic in the retarget or in the median time.
pub data ConsensusError : Type 0 where
  unfair_genesis : TypesError → ConsensusError
  ledger : LedgerError → ConsensusError
  tx : TxError → ConsensusError
  fee_out_of_range bad_tx_count bad_pow bad_prev bad_height bad_reward : ConsensusError
  bad_version : ℕ → ℕ → ConsensusError
  checkpoint_mismatch : ℕ → ℕ → ℕ → ConsensusError
  bad_difficulty : ℕ → ℕ → ConsensusError
  bad_tx_root bad_utxo_root bad_kernel_sum timestamp_too_far_ahead : ConsensusError
  timestamp_before_median reorg_too_deep mining_aborted panicked : ConsensusError

unfoldable pub work : Block → ℕ
work b = block_work b.header.difficulty

-- `CompactHeader::work`.
unfoldable pub header_work : CompactHeader → ℕ
header_work h = block_work h.difficulty

module _ (c : Primitives) where
  open c use {Point, genesis_json}

  unfoldable pub pow_preimage : BlockHeader → List ℕ
  pow_preimage h = be_bytes 32 (
      hash_multi c Domain.block (
        le_bytes 4 h.version
        ∷ le_bytes 8 h.height
        ∷ be_bytes 32 h.prev_hash
        ∷ be_bytes 32 h.utxo_root
        ∷ be_bytes 32 h.kernel_sum
        ∷ be_bytes 32 h.body_root
        ∷ le_bytes 8 h.timestamp_unix
        ∷ le_bytes 8 h.difficulty
        ∷ le_bytes 8 h.reward_darks
        ∷ []))

  unfoldable pub pow_hash : BlockHeader → PowParams → ℕ
  pow_hash h params = nighthash c (pow_preimage h) h.nonce params

  -- `BlockHeader::hash`, which is `Block::hash`.
  unfoldable pub header_hash : BlockHeader → ℕ
  header_hash h = hash_multi c Domain.block (pow_preimage h ∷ le_bytes 8 h.nonce ∷ [])

  unfoldable pub hash : Block → ℕ
  hash b = header_hash b.header

  unfoldable pub pow_is_valid : Block → PowParams → Bool
  pow_is_valid b params = meets_difficulty (pow_hash b.header params) b.header.difficulty

  unfoldable pub from_block : Block → CompactHeader
  from_block b = record {
    height = b.header.height;
    hash = hash b;
    prev_hash = b.header.prev_hash;
    timestamp_unix = b.header.timestamp_unix;
    difficulty = b.header.difficulty;
  }

  unfoldable pub new_fair : NetworkId → Result ConsensusError (Chain Point)
  new_fair network =
      let genesis = fair_launch network in
      elim (assert_fair genesis) [
        | some e ↦ err (unfair_genesis e)
        | none ↦ ok (record {
          network = network;
          genesis = genesis;
          genesis_hash = genesis_commitment c (genesis_json genesis);
          emission = locked_mainnet;
          ledger = for_network c network;
          blocks = [];
          headers = [];
          first_height = 0;
          horizon = none;
          horizon_work = 0;
          total_work = 0;
          undos = [];
        })
      ]

  unfoldable pub proof_ctx : Chain Point → List ℕ
  proof_ctx ch = proof_context ch.network

  unfoldable pub binding_active_at : Chain Point → ℕ → Bool
  binding_active_at ch height = leb (binding_fork_height ch.network) height

  unfoldable pub tip_height : Chain Point → Option ℕ
  tip_height ch = elim (last? ch.headers) [
    | some h ↦ some h.height
    | none ↦ elim (last? ch.blocks) [ some b ↦ some b.header.height | none ↦ none ]
  ]

  unfoldable pub next_height : Chain Point → ℕ
  next_height ch = elim (tip_height ch) [ some h ↦ next h | none ↦ ch.first_height ]

  unfoldable pub block_count : Chain Point → ℕ
  block_count ch =
      if not (length ch.headers == 0) then length ch.headers else ch.first_height + length ch.blocks

  unfoldable pub tip_hash : Chain Point → ℕ
  tip_hash ch = elim (last? ch.headers) [
    | some h ↦ h.hash
    | none ↦ elim (last? ch.blocks) [ some b ↦ hash b | none ↦ ch.genesis_hash ]
  ]

  unfoldable pub hash_chain : Chain Point → List ℕ
  hash_chain ch =
      if not (length ch.headers == 0) then map (λ h. h.hash) ch.headers else map hash ch.blocks

  unfoldable pub difficulty_history : Chain Point → List (ℕ × ℕ)
  difficulty_history ch =
      if not (length ch.headers == 0)
      then map (λ h. (h.timestamp_unix, h.difficulty)) ch.headers
      else map (λ b. (b.header.timestamp_unix, b.header.difficulty)) ch.blocks

  -- The difficulty that the next block has to bear; `none` is a panic in the retarget.
  unfoldable pub next_difficulty : Chain Point → Option ℕ
  next_difficulty ch =
      Difficulty.next_difficulty (difficulty_history ch) (Types.initial_difficulty ch.network)
        (Types.min_difficulty ch.network)

  unfoldable pub median_time_past : Chain Point → Option ℕ
  median_time_past ch = Difficulty.median_time_past (
      if not (length ch.headers == 0)
      then map (λ h. h.timestamp_unix) ch.headers
      else map (λ b. b.header.timestamp_unix) ch.blocks)
