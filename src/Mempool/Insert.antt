-- ===== src/Mempool/Insert.antt =====
-- Taking in a transaction, as the mempool of crates/nightfall-consensus/src/lib.rs does.
use nightfall.Common.{
  ℕ, ◌-◌, ◌<◌, ◌≡◌, ◌∙◌, ap, refl, true, none, some, List, [], ◌∷◌, length, is_some, arith, leb,
  inl, inr, ◌⊎◌, Bool-cases, leb→le, subst,
}
use nightfall.Common.SortedMap
use nightfall.Common.SortedMap.{
  IsSorted, lookup, retain, kept, lookup-retain, retain-IsSorted, length-retain, insert-IsSorted,
  remove-IsSorted, lookup-insert, lookup-remove, length-insert, length-remove, remove,
}
use nightfall.Crypto.{Primitives}
use nightfall.Tx.{Transaction}
use nightfall.Tx.Ids.{txid}
use nightfall.Mempool.{
  Mempool, InsertOutcome, added, known, conflict, full, expire, young, max_entries, max_age_secs,
  conflicts, upgrades, replace, settle_conflicts, take_in, insert_checked,
}
use nightfall.Mempool.Pool.{IsPool, retain-IsPool}
use nightfall.Mempool.Put.{remove-IsPool, put-IsPool, Clear}
use nightfall.Mempool.Conflict.{
  Conflicting, in_conflict, head_found, conflicting, no_conflict, one_conflict,
}

module _ (c : Primitives) where
  abbrev pub Unswept : Mempool → ℕ → Mempool → Type 0
  Unswept pool now_unix after = (after ≡ pool) ⊎ (after ≡ (expire pool now_unix).0)

  -- What an outcome says of the pool that `take_in` leaves.
  abbrev Taken : Mempool → Transaction → Mempool → InsertOutcome → Type 0
  Taken pool tx after added = lookup (txid c tx) after.txs ≡ some tx
  Taken pool tx after known = (after ≡ pool) × (is_some (lookup (txid c tx) pool.txs) ≡ true)
  Taken pool tx after conflict = (after ≡ pool) × Conflicting tx pool
  Taken pool tx after full = ⊥

  put_found :
      (tx : Transaction) (m : List (ℕ × Transaction))
      → lookup (txid c tx) (SortedMap.insert (txid c tx) tx m) ≡ some tx
  put_found tx m = ground (arith, lookup-insert (txid c tx) (txid c tx) tx m)

  Settled : Mempool → Transaction → ℕ → List (ℕ × Transaction) → Type 0
  Settled pool tx now_unix found =
      IsPool c (settle_conflicts c pool tx now_unix found).0
      × Taken pool tx (settle_conflicts c pool tx now_unix found).0
          (settle_conflicts c pool tx now_unix found).1

  settled :
      (pool : Mempool) (tx : Transaction) (now_unix : ℕ) (found : List (ℕ × Transaction))
      → IsPool c pool
      → length pool.txs < max_entries
      → lookup (txid c tx) pool.txs ≡ none
      → conflicts pool tx ≡ found
      → Settled pool tx now_unix found
  unfolding Settled settle_conflicts replace Clear
  settled pool tx now_unix [] w room absent e =
      let unseen : lookup (txid c tx) pool.seen ≡ none =
        ground (arith, w.timed (txid c tx), absent) in
      rw unseen (
        put-IsPool c pool tx now_unix w absent (no_conflict c pool tx w e) room,
        put_found tx pool.txs,
      )
  settled pool tx now_unix ((id, held) ∷ []) w room absent e =
      elim (Bool-cases (upgrades c held tx)) [
        | inl t ↦
            let cleared = remove-IsPool c pool id w in
            let (found, k, p, q) =
              in_conflict c pool tx held id w (ap (lookup id) e ∙ head_found c id held []) in
            let gone : lookup (txid c tx) (remove id pool.txs) ≡ none =
              ground (arith, lookup-remove id (txid c tx) pool.txs w.sorted, absent) in
            let less : length (remove id pool.txs) < max_entries =
              ground (arith, length-remove id pool.txs, room) in
            rw t (
              put-IsPool c (record { txs = remove id pool.txs; seen = remove id pool.seen }) tx _
                  cleared gone (one_conflict c pool tx held id w e) less,
              put_found tx (remove id pool.txs),
            )
        | inr f ↦ rw f (w, (refl, conflicting c pool tx held id [] w e))
      ]
  settled pool tx now_unix ((id, held) ∷ b ∷ more) w room absent e =
      (w, (refl, conflicting c pool tx held id (b ∷ more) w e))

  taken :
      (pool : Mempool) (tx : Transaction) (now_unix : ℕ)
      → IsPool c pool
      → length pool.txs < max_entries
      → IsPool c (take_in c pool tx now_unix).0
        × Taken pool tx (take_in c pool tx now_unix).0 (take_in c pool tx now_unix).1
  unfolding take_in Settled
  taken pool tx now_unix w room = elim (Bool-cases (is_some (lookup (txid c tx) pool.txs))) [
    | inl t ↦ rw t (w, (refl, t))
    | inr f ↦ rw f (settled pool tx now_unix (conflicts pool tx) w room (ground (arith, f)) refl)
  ]

  -- What an outcome says of the pool that is left.
  abbrev pub Outcome : Mempool → Transaction → ℕ → Mempool → InsertOutcome → Type 0
  Outcome pool tx now_unix after added = lookup (txid c tx) after.txs ≡ some tx
  Outcome pool tx now_unix after known =
      Unswept pool now_unix after × (is_some (lookup (txid c tx) after.txs) ≡ true)
  Outcome pool tx now_unix after conflict = Unswept pool now_unix after × Conflicting tx after
  Outcome pool tx now_unix after full =
      (after ≡ (expire pool now_unix).0) × (length after.txs ≡ max_entries)

  told_by :
      (pool mid : Mempool) (tx : Transaction) (now_unix : ℕ) (after : Mempool)
      (outcome : InsertOutcome)
      → Unswept pool now_unix mid
      → Taken mid tx after outcome
      → Outcome pool tx now_unix after outcome
  told_by pool mid tx now_unix after added u t = t
  told_by pool mid tx now_unix after known u (e, t) = rw e (u, t)
  told_by pool mid tx now_unix after conflict u (e, t) = rw e (u, t)
  told_by pool mid tx now_unix after full u t = absurd t

  expire-IsPool :
      (pool : Mempool) (now_unix : ℕ) → IsPool c pool → IsPool c (expire pool now_unix).0
  unfolding expire
  expire-IsPool pool now_unix w =
      retain-IsPool c (λ id tx. young pool.seen (now_unix - max_age_secs) id) pool w

  Inserted : Mempool → Transaction → ℕ → Mempool × InsertOutcome → Type 0
  Inserted pool tx now_unix p = IsPool c p.0 × Outcome pool tx now_unix p.0 p.1

  inserted :
      (pool : Mempool) (tx : Transaction) (now_unix : ℕ)
      → IsPool c pool
      → Inserted pool tx now_unix (insert_checked c pool tx now_unix)
  unfolding insert_checked Inserted
  inserted pool tx now_unix w = elim (Bool-cases (leb max_entries (length pool.txs))) [
    | inr e ↦
        let (ended, t) = taken pool tx now_unix w (ground (arith, e)) in
        rw e (ended, told_by pool pool tx now_unix _ _ (inl refl) t)
    | inl e ↦
        let swept = expire-IsPool pool now_unix w in
        elim (Bool-cases (leb max_entries (length (expire pool now_unix).0.txs))) [
          | inl f ↦ rw (e, f) (swept, (refl, omega (arith, leb→le max_entries _ f, swept.bounded)))
          | inr f ↦
              let (ended, t) =
                taken (expire pool now_unix).0 tx now_unix swept (ground (arith, f)) in
              rw (e, f) (ended, told_by pool _ tx now_unix _ _ (inr refl) t)
        ]
  ]

  -- A pool stays well formed whatever transaction it is given.  What was added is held; a refusal
  -- changes nothing but what the sweep of a full pool drops, and has its reason in the pool.
  pub insert_checked-IsPool :
      (pool after : Mempool) (tx : Transaction) (now_unix : ℕ) (outcome : InsertOutcome)
      → IsPool c pool
      → insert_checked c pool tx now_unix ≡ (after, outcome)
      → IsPool c after × Outcome pool tx now_unix after outcome
  unfolding Inserted
  insert_checked-IsPool pool after tx now_unix outcome w h =
      subst (Inserted pool tx now_unix) h (inserted pool tx now_unix w)
