-- ===== src/Mempool/Life.antt =====
-- The pools that a node's calls reach (crates/nightfall-consensus/src/lib.rs): transactions come in,
-- blocks and sweeps and the ledger's refusals take them out.
use nightfall.Common.{ℕ, ◌≡◌, refl, List, arith}
use nightfall.Common.SortedMap.{lookup}
use nightfall.Crypto.{Primitives}
use nightfall.Tx.{Transaction}
use nightfall.Chain.{Block}
use nightfall.Mempool.{
  Mempool, InsertOutcome, default_pool, insert_checked, expire, remove_included, drop_ids,
}
use nightfall.Mempool.Pool.{IsPool}
use nightfall.Mempool.Insert.{insert_checked-IsPool}
use nightfall.Mempool.Removal.{expire_lem, remove_included_lem, dropped}

module _ (c : Primitives) where
  -- In any order, at any time.
  pub data Reachable : Mempool → Type 0 where
    start : Reachable default_pool
    offered :
        {pool after : Mempool} {outcome : InsertOutcome}
        → Reachable pool
        → (tx : Transaction) (now_unix : ℕ) → insert_checked c pool tx now_unix ≡ (after, outcome)
        → Reachable after
    swept : {pool : Mempool} → Reachable pool → (now_unix : ℕ) → Reachable (expire pool now_unix).0
    mined :
        {pool : Mempool} → Reachable pool → (block : Block) → Reachable (remove_included pool block)
    refused : {pool : Mempool} → Reachable pool → (ids : List ℕ) → Reachable (drop_ids pool ids).0

  default-IsPool : IsPool c default_pool
  unfolding lookup
  default-IsPool = record {
    sorted = tt;
    sorted_seen = tt;
    timed = λ id. refl;
    keyed = λ id tx h. absurd (ground (arith, h));
    apart = λ i j a b k h l p q. absurd (ground (arith, h));
    bounded = omega arith;
  }

  -- Whatever is offered to a pool and taken out of it, in whatever order, it holds its transactions
  -- under their ids, no two that spend the same input, at most ten thousand of them, and one time for
  -- each.
  pub Reachable-IsPool : (pool : Mempool) → Reachable pool → IsPool c pool
  unfolding drop_ids
  Reachable-IsPool _ start = default-IsPool
  Reachable-IsPool _ (offered {pool} {after} {outcome} r tx now_unix h) =
      (insert_checked-IsPool c pool after tx now_unix outcome (Reachable-IsPool pool r) h).0
  Reachable-IsPool _ (swept {pool} r now_unix) =
      (expire_lem c pool now_unix (Reachable-IsPool pool r)).0
  Reachable-IsPool _ (mined {pool} r block) =
      (remove_included_lem c pool block (Reachable-IsPool pool r)).0
  Reachable-IsPool _ (refused {pool} r ids) = (dropped c ids pool (Reachable-IsPool pool r)).0
