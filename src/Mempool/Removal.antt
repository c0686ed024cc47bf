-- ===== src/Mempool/Removal.antt =====
-- What leaves a mempool (crates/nightfall-consensus/src/lib.rs).
use nightfall.Common.{
  ℕ, ◌-◌, ◌+◌, ◌<◌, ◌≡◌, refl, true, false, none, some, List, [], ◌∷◌, arith, inl, inr,
  Option-cases, if◌then◌else◌,
}
use nightfall.Common.SortedMap.{lookup, kept, lookup-retain, lookup-remove, remove}
use nightfall.Crypto.{Primitives}
use nightfall.Crypto.Commit.{Commitment}
use nightfall.Tx.{Transaction}
use nightfall.Chain.{Block}
use nightfall.Mempool.{
  Mempool, holds, input_set, output_set, touches, expire, young, max_age_secs, drop_each, outlives,
  remove_included, first_seen,
}
use nightfall.Mempool.Pool.{IsPool, spends, touches_clear, retain-IsPool, retained}
use nightfall.Mempool.Put.{remove-IsPool}

module _ (c : Primitives) where
  outlives_facts :
      (block : Block) (tx : Transaction)
      → outlives block tx ≡ true
      → (touches (input_set block.body.inputs) (input_set tx.inputs) ≡ false)
        × (touches (output_set block.body.outputs) (output_set tx.outputs) ≡ false)
  unfolding outlives
  outlives_facts block tx h = (ground arith, ground arith)

  -- After a block, a pool is still well formed, and no transaction of it spends an input of the block
  -- or makes an output of the block.  One that does neither is still there.
  pub remove_included_lem :
      (pool : Mempool) (block : Block)
      → IsPool c pool
      → IsPool c (remove_included pool block)
        × ((id : ℕ) (tx : Transaction) (k : Commitment)
            → lookup id (remove_included pool block).txs ≡ some tx
            → (lookup id pool.txs ≡ some tx)
              × (holds (input_set block.body.inputs) k ≡ true → spends tx k ≡ false)
              × (holds (output_set block.body.outputs) k ≡ true
                  → holds (output_set tx.outputs) k ≡ false))
        × ((id : ℕ) (tx : Transaction)
            → lookup id pool.txs ≡ some tx
            → outlives block tx ≡ true
            → lookup id (remove_included pool block).txs ≡ some tx)
  unfolding remove_included spends kept
  remove_included_lem pool block w = (
    retain-IsPool c (λ id tx. outlives block tx) pool w,
    λ id tx k h.
        let (before, clear) = retained c (λ id tx. outlives block tx) id pool.txs tx w.sorted h in
        let (inputs, outputs) = outlives_facts block tx clear in
        (
          before,
          λ s. touches_clear (input_set block.body.inputs) (input_set tx.inputs) k inputs s,
          λ s. touches_clear (output_set block.body.outputs) (output_set tx.outputs) k outputs s,
        ),
    λ id tx h l.
        ground (arith, h, l, lookup-retain (λ id tx. outlives block tx) id pool.txs w.sorted),
  )

  -- A sweep keeps a pool well formed, and what stays was first seen within the last six hours.
  pub expire_lem :
      (pool : Mempool) (now_unix : ℕ)
      → IsPool c pool
      → IsPool c (expire pool now_unix).0
        × ((id : ℕ) (tx : Transaction)
            → (lookup id (expire pool now_unix).0.txs ≡ some tx)
            → (at : ℕ) × (first_seen pool id ≡ some at)
              × (now_unix < at + max_age_secs)
              × (lookup id pool.txs ≡ some tx))
  unfolding expire young first_seen
  expire_lem pool now_unix w =
      let cutoff = now_unix - max_age_secs in
      (
        retain-IsPool c (λ id tx. young pool.seen cutoff id) pool w,
        λ id tx h.
            let (before, fresh) =
              retained c (λ id tx. young pool.seen cutoff id) id pool.txs tx w.sorted h in
            elim (Option-cases (lookup id pool.seen)) [
              | inl e ↦ absurd (ground (arith, w.timed id, e, before))
              | inr (at, e) ↦ (at, e, ground (arith, fresh, e), before)
            ],
      )

  -- Dropping ids keeps a pool well formed and takes out just those.
  pub dropped :
      (ids : List ℕ) (pool : Mempool)
      → IsPool c pool
      → IsPool c (drop_each pool ids)
        × ((id : ℕ)
            → lookup id (drop_each pool ids).txs
              ≡ (if holds ids id then none else lookup id pool.txs))
  unfolding drop_each holds
  dropped [] pool w = (w, λ id. refl)
  dropped (i ∷ ids) pool w =
      let (ended, rest) =
        dropped ids (record { txs = remove i pool.txs; seen = remove i pool.seen })
          (remove-IsPool c pool i w) in
      (ended, λ id. ground (arith, rest id, lookup-remove i id pool.txs w.sorted))
