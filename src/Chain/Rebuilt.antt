-- ===== src/Chain/Rebuilt.antt =====
-- A chain rebuilt from its blocks is well formed (crates/nightfall-consensus/src/lib.rs).
use nightfall.Common.{
  ℕ, suc, ◌≡◌, sym, refl, Bool, List, [], ◌∷◌, ltb, arith, inl, inr, max, Bool-cases,
}
use nightfall.Common.Result.{ok, Result-cases}
use nightfall.Types.{NetworkId}
use nightfall.Crypto.{Primitives}
use nightfall.Chain.{Chain, Block, new_fair}
use nightfall.Chain.Apply.{apply_block}
use nightfall.Chain.Accepted.{own_disk-IsChain}
use nightfall.Chain.Linked.{headers_work}
use nightfall.Chain.Shape.{IsChain}
use nightfall.Chain.Ingest.{apply_block-IsChain}
use nightfall.Chain.Rebuild.{
  apply_checked, replay_one, replay, rebuild_from_blocks_trusted_prefix, assume_valid_to,
}
use nightfall.Ledger.{for_network}
use nightfall.Ledger.History.{for_network-IsSummed}

module _ (c : Primitives) where
  open c use {Point}

  fresh_fields :
      (network : NetworkId) (ch : Chain Point)
      → new_fair c network ≡ ok ch
      → (ch.ledger ≡ for_network c network)
        × (ch.headers ≡ [])
        × (ch.blocks ≡ [])
        × (ch.first_height ≡ 0)
        × (ch.total_work ≡ 0)
        × (ch.undos ≡ [])
  unfolding new_fair
  fresh_fields network ch h = ground arith

  pub fresh-IsChain :
      (network : NetworkId) (ch : Chain Point) → new_fair c network ≡ ok ch → IsChain c 0 ch
  unfolding headers_work
  fresh-IsChain network ch h =
      let (ledger, headers, blocks, first, worked, undos) = fresh_fields network ch h in
      record {
        summed = rw ledger (for_network-IsSummed c network);
        linked = rw headers tt;
        aligned = ground (arith, headers, blocks);
        counted = rw (headers, blocks) refl;
        started = omega (arith, first);
        worked = rw (headers, worked) refl;
        bounded = rw undos (omega arith);
      }

  checked_facts :
      (ch chain : Chain Point) (block : Block) (now_unix : ℕ)
      → apply_checked c ch block now_unix ≡ ok chain
      → (apply_block c ch block now_unix).0 ≡ chain
  unfolding apply_checked
  checked_facts ch chain block now_unix h =
      elim (Result-cases (apply_block c ch block now_unix).1) [
        | inl (u, q) ↦ ground (arith, q)
        | inr (e, q) ↦ absurd (ground (arith, q))
      ]

  replay_one-IsChain :
      (base : ℕ) (ch chain : Chain Point) (block : Block) (i trusted_prefix now_unix : ℕ)
      → IsChain c base ch
      → replay_one c ch block i trusted_prefix now_unix ≡ ok chain
      → IsChain c base chain
  unfolding replay_one
  replay_one-IsChain base ch chain block i trusted_prefix now_unix w h =
      elim (Bool-cases (ltb i trusted_prefix)) [
        | inl t ↦ own_disk-IsChain c base ch chain block w (ground (arith, t))
        | inr f ↦
            let e : apply_checked c ch block now_unix ≡ ok chain = ground (arith, f) in
            rw (sym (checked_facts ch chain block now_unix e))
              (apply_block-IsChain c base ch block now_unix w)
      ]

  replay-IsChain :
      (base : ℕ) (blocks : List Block) (ch chain : Chain Point) (i trusted_prefix now_unix : ℕ)
      → IsChain c base ch
      → replay c ch blocks i trusted_prefix now_unix ≡ ok chain
      → IsChain c base chain
  unfolding replay
  replay-IsChain base [] ch chain i trusted_prefix now_unix w h =
      let e : ch ≡ chain = ground arith in rw (sym e) w
  replay-IsChain base (b ∷ blocks) ch chain i trusted_prefix now_unix w h =
      elim (Result-cases (replay_one c ch b i trusted_prefix now_unix)) [
        | inl (mid, q) ↦
            replay-IsChain base blocks mid chain (suc i) trusted_prefix now_unix
              (replay_one-IsChain base ch mid b i trusted_prefix now_unix w q) (ground (arith, q))
        | inr (e, q) ↦ absurd (ground (arith, q))
      ]

  -- A rebuilt chain is well formed, however long the prefix of blocks that are replayed on trust.
  pub rebuild_from_blocks-IsChain :
      (no_assume_valid : Bool) (network : NetworkId) (blocks : List Block)
      (trusted_prefix now_unix : ℕ) (chain : Chain Point)
      → rebuild_from_blocks_trusted_prefix c no_assume_valid network blocks trusted_prefix now_unix
        ≡ ok chain
      → IsChain c 0 chain
  unfolding rebuild_from_blocks_trusted_prefix
  rebuild_from_blocks-IsChain no_assume_valid network blocks trusted_prefix now_unix chain h =
      let trusted = max trusted_prefix (assume_valid_to no_assume_valid network blocks) in
      elim (Result-cases (new_fair c network)) [
        | inl (fresh, e) ↦
            let run : replay c fresh blocks 0 trusted now_unix ≡ ok chain = ground (arith, e) in
            replay-IsChain 0 blocks fresh chain 0 trusted now_unix (fresh-IsChain network fresh e)
              run
        | inr (x, e) ↦ absurd (ground (arith, e))
      ]
