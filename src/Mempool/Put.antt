-- ===== src/Mempool/Put.antt =====
-- Adding one transaction to a mempool and removing one (crates/nightfall-consensus/src/lib.rs).
use nightfall.Common.{
  ℕ, ◌<◌, ◌≡◌, ◌∙◌, sym, true, false, none, some, List, length, arith, ◌==◌, inl, inr, ◌⊎◌,
  Bool-cases,
}
use nightfall.Common.SortedMap
use nightfall.Common.SortedMap.{
  IsSorted, lookup, retain, kept, lookup-retain, retain-IsSorted, length-retain, insert-IsSorted,
  remove-IsSorted, lookup-insert, lookup-remove, length-insert, length-remove, remove,
}
use nightfall.Crypto.{Primitives}
use nightfall.Crypto.Commit.{Commitment}
use nightfall.Tx.{Transaction}
use nightfall.Tx.Ids.{txid}
use nightfall.Mempool.{Mempool, max_entries}
use nightfall.Mempool.Pool.{IsPool, spends}

unfoldable pub Clear : Mempool → Transaction → Type 0
Clear pool tx =
    (j : ℕ) (b : Transaction) (k : Commitment)
    → lookup j pool.txs ≡ some b
    → spends tx k ≡ true
    → spends b k ≡ true
    → ⊥

module _ (c : Primitives) where
  -- What was found under a key after a removal was there before, under a key that was left.
  pub left_over :
      (id j : ℕ) (m : List (ℕ × Transaction)) (b : Transaction)
      → IsSorted m
      → lookup j (remove id m) ≡ some b
      → (lookup j m ≡ some b) × ((id == j) ≡ false)
  left_over id j m b s h = ground (arith, lookup-remove id j m s)

  pub remove-IsPool :
      (pool : Mempool) (id : ℕ)
      → IsPool c pool
      → IsPool c (record { txs = remove id pool.txs; seen = remove id pool.seen })
  remove-IsPool pool id w = record {
    sorted = remove-IsSorted id pool.txs w.sorted;
    sorted_seen = remove-IsSorted id pool.seen w.sorted_seen;
    timed = λ j. ground (
      arith,
      w.timed j,
      lookup-remove id j pool.txs w.sorted,
      lookup-remove id j pool.seen w.sorted_seen,
    );
    keyed = λ j tx h. w.keyed j tx (left_over id j pool.txs tx w.sorted h).0;
    apart = λ i j a b k h l.
        w.apart i j a b k (left_over id i pool.txs a w.sorted h).0
          (left_over id j pool.txs b w.sorted l).0;
    bounded = ground (arith, length-remove id pool.txs, w.bounded);
  }

  -- What is found after an insertion is the new one or an old one.
  found_after :
      (id j : ℕ) (tx b : Transaction) (m : List (ℕ × Transaction))
      → lookup j (SortedMap.insert id tx m) ≡ some b
      → ((j ≡ id) × (b ≡ tx)) ⊎ (lookup j m ≡ some b)
  found_after id j tx b m h = elim (Bool-cases (id == j)) [
    | inl t ↦ inl (ground (arith, t), ground (arith, lookup-insert id j tx m, t))
    | inr e ↦ inr (ground (arith, lookup-insert id j tx m, e))
  ]

  pub put-IsPool :
      (pool : Mempool) (tx : Transaction) (at : ℕ)
      → IsPool c pool
      → lookup (txid c tx) pool.txs ≡ none
      → Clear pool tx
      → length pool.txs < max_entries
      → IsPool c (record {
        txs = SortedMap.insert (txid c tx) tx pool.txs;
        seen = SortedMap.insert (txid c tx) at pool.seen;
      })
  unfolding Clear
  put-IsPool pool tx at w absent clear room = record {
    sorted = insert-IsSorted (txid c tx) tx pool.txs w.sorted;
    sorted_seen = insert-IsSorted (txid c tx) at pool.seen w.sorted_seen;
    timed = λ j. ground (
      arith,
      w.timed j,
      lookup-insert (txid c tx) j tx pool.txs,
      lookup-insert (txid c tx) j at pool.seen,
    );
    keyed = λ j b h. elim (found_after (txid c tx) j tx b pool.txs h) [
      | inl (e, f) ↦ rw f e
      | inr l ↦ w.keyed j b l
    ];
    apart = λ i j a b k h l p q. elim (found_after (txid c tx) i tx a pool.txs h) [
      | inl (e, f) ↦ elim (found_after (txid c tx) j tx b pool.txs l) [
        | inl (e', f') ↦ e ∙ sym e'
        | inr l' ↦ absurd (clear j b k l' (rw (sym f) p) q)
      ]
      | inr h' ↦ elim (found_after (txid c tx) j tx b pool.txs l) [
        | inl (e', f') ↦ absurd (clear i a k h' (rw (sym f') q) p)
        | inr l' ↦ w.apart i j a b k h' l' p q
      ]
    ];
    bounded = ground (arith, length-insert (txid c tx) tx pool.txs w.sorted, absent);
  }
