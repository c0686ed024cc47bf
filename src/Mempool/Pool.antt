-- ===== src/Mempool/Pool.antt =====
-- The well-formed pools of crates/nightfall-consensus/src/lib.rs.
use nightfall.Common.{
  ℕ, ◌≤◌, ◌≡◌, ◌∙◌, sym, refl, Bool, true, false, none, some, Option, List, [], ◌∷◌, length,
  is_some, arith, inl, inr, Option-cases, Bool-cases,
}
use nightfall.Common.SortedMap.{
  IsSorted, lookup, retain, kept, lookup-retain, retain-IsSorted, length-retain,
}
use nightfall.Crypto.{Primitives}
use nightfall.Crypto.Commit.{Commitment}
use nightfall.Tx.{Transaction}
use nightfall.Tx.Ids.{txid}
use nightfall.Mempool.{Mempool, holds, input_set, touches, live, max_entries}

-- The two commitment lists have a member in common exactly when one touches the other.
pub touches_found :
    (set ks : List Commitment) (k : Commitment)
    → holds set k ≡ true
    → holds ks k ≡ true
    → touches set ks ≡ true
unfolding touches holds
touches_found set [] k h e = absurd (ground arith)
touches_found set (j ∷ js) k h e = ground (arith, touches_found set js k h)

pub touches_clear :
    (set ks : List Commitment) (k : Commitment)
    → touches set ks ≡ false
    → holds set k ≡ true
    → holds ks k ≡ false
unfolding touches holds
touches_clear set [] k h e = refl
touches_clear set (j ∷ js) k h e = ground (arith, touches_clear set js k)

-- A transaction that spends a commitment.
unfoldable pub spends : Transaction → Commitment → Bool
spends tx k = holds (input_set tx.inputs) k

module _ (c : Primitives) where
  -- A pool holds its transactions under their ids, no two that spend the same input, at most
  -- `max_entries` of them, and one time for each.
  pub record IsPool (pool : Mempool) : Type 0 where
    pub sorted : IsSorted pool.txs
    pub sorted_seen : IsSorted pool.seen
    pub timed : (id : ℕ) → is_some (lookup id pool.seen) ≡ is_some (lookup id pool.txs)
    pub keyed : (id : ℕ) (tx : Transaction) → lookup id pool.txs ≡ some tx → id ≡ txid c tx
    pub apart :
        (i j : ℕ) (a b : Transaction) (k : Commitment)
        → lookup i pool.txs ≡ some a
        → lookup j pool.txs ≡ some b
        → spends a k ≡ true
        → spends b k ≡ true
        → i ≡ j
    pub bounded : length pool.txs ≤ max_entries

  kept_facts :
      (f : ℕ → Transaction → Bool) (k : ℕ) (o : Option Transaction) (tx : Transaction)
      → kept f k o ≡ some tx
      → (o ≡ some tx) × (f k tx ≡ true)
  unfolding kept
  kept_facts f k none tx h = absurd (ground arith)
  kept_facts f k (some v) tx h = elim (Bool-cases (f k v)) [
    | inl t ↦ let e : some v ≡ some tx = ground (arith, t) in (e, ground (arith, t, e))
    | inr e ↦ absurd (ground (arith, e))
  ]

  pub retained :
      (f : ℕ → Transaction → Bool) (id : ℕ) (m : List (ℕ × Transaction)) (tx : Transaction)
      → IsSorted m
      → lookup id (retain f m) ≡ some tx
      → (lookup id m ≡ some tx) × (f id tx ≡ true)
  retained f id m tx s h = kept_facts f id (lookup id m) tx (sym (lookup-retain f id m s) ∙ h)

  still_timed :
      (f : ℕ → Transaction → Bool) (pool : Mempool) (id : ℕ)
      → IsPool pool
      → is_some (lookup id (live (retain f pool.txs) pool.seen))
        ≡ is_some (lookup id (retain f pool.txs))
  unfolding live kept
  still_timed f pool id w = elim (Option-cases (lookup id pool.seen)) [
    | inl e ↦ ground (
      arith,
      e,
      w.timed id,
      lookup-retain f id pool.txs w.sorted,
      lookup-retain (λ k at. is_some (lookup k (retain f pool.txs))) id pool.seen w.sorted_seen,
    )
    | inr (t, e) ↦ ground (
      arith,
      e,
      lookup-retain (λ k at. is_some (lookup k (retain f pool.txs))) id pool.seen w.sorted_seen,
    )
  ]

  -- Keeping some of the transactions, with the times of the ids that are left.
  pub retain-IsPool :
      (f : ℕ → Transaction → Bool) (pool : Mempool)
      → IsPool pool
      → IsPool (record { txs = retain f pool.txs; seen = live (retain f pool.txs) pool.seen })
  unfolding live
  retain-IsPool f pool w = record {
    sorted = retain-IsSorted f pool.txs w.sorted;
    sorted_seen = retain-IsSorted _ pool.seen w.sorted_seen;
    timed = λ id. still_timed f pool id w;
    keyed = λ id tx h. w.keyed id tx (retained f id pool.txs tx w.sorted h).0;
    apart = λ i j a b k h l.
        w.apart i j a b k (retained f i pool.txs a w.sorted h).0
          (retained f j pool.txs b w.sorted l).0;
    bounded = omega (arith, length-retain f pool.txs, w.bounded);
  }
