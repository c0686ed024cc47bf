-- ===== src/Mempool/Conflict.antt =====
-- The transactions of a mempool that spend the inputs of another
-- (crates/nightfall-consensus/src/lib.rs).
use nightfall.Common.{
  ℕ, ◌≡◌, ◌∙◌, ap, sym, true, some, List, [], ◌∷◌, arith, ◌==◌, inl, inr, Bool-cases,
}
use nightfall.Common.SortedMap.{lookup, kept, lookup-retain, remove}
use nightfall.Crypto.{Primitives}
use nightfall.Crypto.Commit.{Commitment}
use nightfall.Tx.{Transaction}
use nightfall.Mempool.{Mempool, holds, input_set, touches, conflicts}
use nightfall.Mempool.Pool.{IsPool, spends, touches_found, retained}
use nightfall.Mempool.Put.{left_over, Clear}

unfoldable pub Conflicting : Transaction → Mempool → Type 0
Conflicting tx pool =
    (id : ℕ) × (held : Transaction) × (k : Commitment) × (lookup id pool.txs ≡ some held)
    × (spends tx k ≡ true)
    × (spends held k ≡ true)

module _ (c : Primitives) where
  touched :
      (set ks : List Commitment) (h : touches set ks ≡ true)
      → (k : Commitment) × (holds set k ≡ true) × (holds ks k ≡ true)
  unfolding touches holds
  touched set [] h = absurd (ground arith)
  touched set (j ∷ js) h = elim (Bool-cases (holds set j)) [
    | inl t ↦ (j, t, ground arith)
    | inr e ↦ let (k, p, q) = touched set js (ground (arith, e)) in (k, p, ground (arith, q))
  ]

  kept_touched :
      (pool : Mempool) (tx b : Transaction) (j : ℕ) (k : Commitment)
      → IsPool c pool
      → lookup j pool.txs ≡ some b
      → spends tx k ≡ true
      → spends b k ≡ true
      → lookup j (conflicts pool tx) ≡ some b
  unfolding conflicts spends kept
  kept_touched pool tx b j k w h p q =
      let t = touches_found (input_set tx.inputs) (input_set b.inputs) k p q in
      ground (
        arith,
        h,
        t,
        lookup-retain (λ id held. touches (input_set tx.inputs) (input_set held.inputs)) j pool.txs
            w.sorted,
      )

  pub in_conflict :
      (pool : Mempool) (tx b : Transaction) (j : ℕ)
      → IsPool c pool
      → lookup j (conflicts pool tx) ≡ some b
      → (lookup j pool.txs ≡ some b) × (k : Commitment) × (spends tx k ≡ true) × (spends b k ≡ true)
  unfolding conflicts spends
  in_conflict pool tx b j w h =
      let (found, t) =
        retained c (λ id held. touches (input_set tx.inputs) (input_set held.inputs)) j pool.txs b
          w.sorted h in
      let (k, p, q) = touched (input_set tx.inputs) (input_set b.inputs) t in (found, k, p, q)

  none_found : (j : ℕ) (b : Transaction) → lookup j [] ≡ some b → ⊥
  unfolding lookup
  none_found j b h = ground (arith, h)

  one_found :
      (id j : ℕ) (held b : Transaction) → lookup j ((id, held) ∷ []) ≡ some b → (id == j) ≡ true
  unfolding lookup
  one_found id j held b h = ground (arith, h)

  pub head_found :
      (id : ℕ) (held : Transaction) (more : List (ℕ × Transaction))
      → lookup id ((id, held) ∷ more) ≡ some held
  unfolding lookup
  head_found id held more = ground arith

  pub conflicting :
      (pool : Mempool) (tx held : Transaction) (id : ℕ) (more : List (ℕ × Transaction))
      → IsPool c pool
      → conflicts pool tx ≡ (id, held) ∷ more
      → Conflicting tx pool
  unfolding Conflicting
  conflicting pool tx held id more w e =
      let (found, k, p, q) =
        in_conflict pool tx held id w (ap (lookup id) e ∙ head_found id held more) in
      (id, held, k, found, p, q)

  pub no_conflict :
      (pool : Mempool) (tx : Transaction) → IsPool c pool → conflicts pool tx ≡ [] → Clear pool tx
  unfolding Clear
  no_conflict pool tx w e j b k h p q =
      none_found j b (ap (lookup j) (sym e) ∙ kept_touched pool tx b j k w h p q)

  pub one_conflict :
      (pool : Mempool) (tx held : Transaction) (id : ℕ)
      → IsPool c pool
      → conflicts pool tx ≡ (id, held) ∷ []
      → Clear (record { txs = remove id pool.txs; seen = remove id pool.seen }) tx
  unfolding Clear
  one_conflict pool tx held id w e j b k h p q =
      let (before, other) = left_over c id j pool.txs b w.sorted h in
      let same =
        one_found id j held b (ap (lookup j) (sym e) ∙ kept_touched pool tx b j k w before p q) in
      absurd (ground (arith, same, other))
