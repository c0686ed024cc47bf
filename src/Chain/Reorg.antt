-- ===== src/Chain/Reorg.antt =====
-- Fork choice by cumulative work (crates/nightfall-consensus/src/lib.rs): deciding on a candidate,
-- adopting it, and taking in blocks on the tip.
use nightfall.Common.{
  ℕ, suc, ◌+◌, ◌-◌, Bool, true, false, not, none, some, Option, List, [], ◌∷◌, leb, ltb, ◌==◌,
  length, drop, if◌then◌else◌, ◌||◌,
}
use nightfall.Common.Result.{Result, ok, err, ◌>>=◌, ◌>>◌, require, map_err}
use nightfall.Types.{NetworkId}
use nightfall.Crypto.{Primitives}
use nightfall.Ledger.{verify_supply}
use nightfall.Ledger
use nightfall.Chain.{
  Chain, Block, PrunedBase, ConsensusError, bad_height, bad_prev, reorg_too_deep, max_reorg_depth,
  hash, hash_chain,
}
use nightfall.Chain.Apply.{apply_block}
use nightfall.Chain.Window.{pruned_base}
use nightfall.Chain.Suffix.{declared_work}
use nightfall.Chain.Rebuild.{rebuild_from_blocks_trusted_prefix, rebuild_from_pruned_base}

-- The errors at which `try_ingest_blocks` stops without one of its own.
unfoldable pub does_not_connect : ConsensusError → Bool
does_not_connect e = elim e [ bad_prev ↦ true | bad_height ↦ true | _ ↦ false ]

unfoldable pub horizon_work_of : {P : Type 0} → Option (PrunedBase P) → ℕ
horizon_work_of none = 0
horizon_work_of (some base) = base.horizon_work

unfoldable pub start_of : {P : Type 0} → Option (PrunedBase P) → ℕ
start_of none = 0
start_of (some base) = base.first_height

module _ (c : Primitives) where
  open c use {Point}

  -- How many leading blocks have the hashes in hand.
  unfoldable pub reorg_common_prefix : List ℕ → List Block → ℕ
  reorg_common_prefix our_hashes [] = 0
  reorg_common_prefix [] (b ∷ candidate) = 0
  reorg_common_prefix (h ∷ our_hashes) (b ∷ candidate) =
      let rest = reorg_common_prefix our_hashes candidate in if hash c b == h then suc rest else 0

  unfoldable pub reorg_rewind : List ℕ → List Block → ℕ
  reorg_rewind our_hashes candidate = length our_hashes - reorg_common_prefix our_hashes candidate

  unfoldable pub check_start :
      Option (PrunedBase Point) → List Block → Result ConsensusError (Unit {0})
  check_start base [] = ok tt
  check_start base (b ∷ blocks) = require (b.header.height == start_of base) bad_height

  unfoldable pub rebuild_candidate :
      Bool
      → NetworkId
      → List ℕ
      → Option (PrunedBase Point)
      → List Block
      → ℕ
      → Result ConsensusError (Chain Point)
  rebuild_candidate no_assume_valid network our_hashes base blocks now_unix =
      let start = start_of base in
      let window_common = reorg_common_prefix (drop start our_hashes) blocks in
      elim base [
        | some b ↦ rebuild_from_pruned_base c network b blocks window_common now_unix
        | none ↦
            rebuild_from_blocks_trusted_prefix c no_assume_valid network blocks
              (start + window_common) now_unix
      ]

  unfoldable pub evaluate_reorg_at :
      Bool
      → NetworkId
      → ℕ
      → List ℕ
      → Option (PrunedBase Point)
      → List Block
      → ℕ
      → Result ConsensusError (Option (Chain Point))
  evaluate_reorg_at no_assume_valid network our_work our_hashes base blocks now_unix =
      if length blocks == 0 then ok none else (do
        check_start base blocks
        if leb (horizon_work_of base + declared_work blocks) our_work then ok none else (do
          let start = start_of base
          require (not (ltb (length our_hashes) start)) reorg_too_deep
          let common = start + reorg_common_prefix (drop start our_hashes) blocks
          require (not (ltb max_reorg_depth (length our_hashes - common))) reorg_too_deep
          candidate ← rebuild_candidate no_assume_valid network our_hashes base blocks now_unix
          map_err (λ e. ConsensusError.ledger (Ledger.supply e)) (verify_supply c candidate.ledger)
          ok (if ltb our_work candidate.total_work then some candidate else none)))

  unfoldable pub adopt_reorg : Chain Point → Chain Point → Chain Point × Bool
  adopt_reorg ch candidate =
      if ltb ch.total_work candidate.total_work then (candidate, true) else (ch, false)

  unfoldable pub maybe_reorg_to :
      Bool → Chain Point → List Block → ℕ → Chain Point × Result ConsensusError Bool
  maybe_reorg_to no_assume_valid ch blocks now_unix =
      elim (evaluate_reorg_at no_assume_valid ch.network ch.total_work (hash_chain c ch)
        (pruned_base c ch) blocks now_unix) [
          | err e ↦ (ch, err e)
          | ok none ↦ (ch, ok false)
          | ok (some candidate) ↦
              let (after, adopted) = adopt_reorg ch candidate in (after, ok adopted)
        ]

  -- The loop of `try_ingest_blocks`, with the number of blocks applied so far.
  unfoldable pub ingest : Chain Point → List Block → ℕ → ℕ → Chain Point × Result ConsensusError ℕ
  ingest ch [] now_unix applied = (ch, ok applied)
  ingest ch (b ∷ blocks) now_unix applied =
      let (after, result) = apply_block c ch b now_unix in
      elim result [
        | ok _ ↦ ingest after blocks now_unix (suc applied)
        | err e ↦ (after, if does_not_connect e || ltb 0 applied then ok applied else err e)
      ]

  unfoldable pub try_ingest_blocks :
      Chain Point → List Block → ℕ → Chain Point × Result ConsensusError ℕ
  try_ingest_blocks ch blocks now_unix = ingest ch blocks now_unix 0
