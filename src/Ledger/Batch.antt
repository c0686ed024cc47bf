-- ===== src/Ledger/Batch.antt =====
-- Removing and inserting lists of entries: the loops of the commit and of `rewind` in
-- crates/nightfall-ledger/src/lib.rs.
use nightfall.Common.{
  ℕ, ◌≡◌, ◌∙◌, ap, sym, refl, Bool, true, false, none, some, List, [], ◌∷◌, arith, ◌==◌,
  if◌then◌else◌, length,
}
use nightfall.Common.SortedMap
use nightfall.Common.SortedMap.{
  IsSorted, lookup-insert, lookup-remove, insert-IsSorted, remove-IsSorted, sorted_ext,
}
use nightfall.Crypto.{Primitives}
use nightfall.Crypto.Commit.{Commitment}
use nightfall.Utxo.{UtxoEntry, UtxoSet, insert, remove}
use nightfall.Utxo.Walk.{points, flaws}
use nightfall.Utxo.Running.{IsSummed, insert-IsSummed, remove-IsSummed}
use nightfall.Ledger.{remove_each, insert_each}

unfoldable pub has : ℕ → List ℕ → Bool
has k [] = false
has k (j ∷ js) = if j == k then true else has k js

unfoldable pub keys : List (Commitment × UtxoEntry) → List ℕ
keys [] = []
keys ((k, e) ∷ kvs) = k ∷ keys kvs

-- Every pair is an entry of a map.
abbrev pub Agree : List (ℕ × UtxoEntry) → List (Commitment × UtxoEntry) → Type 0
Agree m [] = Unit
Agree m ((k, e) ∷ kvs) = (SortedMap.lookup k m ≡ some e) × Agree m kvs

module _ (c : Primitives) where
  open c use {Point}

  entries-remove :
      (u : UtxoSet Point) (k : Commitment) → (remove c u k).0.entries ≡ SortedMap.remove k u.entries
  unfolding remove
  entries-remove u k = ground arith

  pub entries-insert :
      (u : UtxoSet Point) (k : Commitment) (e : UtxoEntry)
      → (insert c u k e).0.entries ≡ SortedMap.insert k e u.entries
  unfolding insert
  entries-insert u k e = ground arith

  pub remove_each-IsSummed :
      (u : UtxoSet Point) (ks : List Commitment) → IsSummed c u → IsSummed c (remove_each c u ks)
  unfolding remove_each
  remove_each-IsSummed u [] h = h
  remove_each-IsSummed u (k ∷ ks) h =
      remove_each-IsSummed (remove c u k).0 ks (remove-IsSummed c u k h)

  pub insert_each-IsSummed :
      (u : UtxoSet Point) (kvs : List (Commitment × UtxoEntry))
      → IsSummed c u
      → IsSummed c (insert_each c u kvs)
  unfolding insert_each
  insert_each-IsSummed u [] h = h
  insert_each-IsSummed u ((k, e) ∷ kvs) h =
      insert_each-IsSummed (insert c u k e).0 kvs (insert-IsSummed c u k e h)

  pub lookup-remove_each :
      (j : ℕ) (u : UtxoSet Point) (ks : List Commitment)
      → IsSummed c u
      → SortedMap.lookup j (remove_each c u ks).entries
        ≡ (if has j ks then none else SortedMap.lookup j u.entries)
  unfolding remove_each has
  lookup-remove_each j u [] h = refl
  lookup-remove_each j u (k ∷ ks) h =
      lookup-remove_each j (remove c u k).0 ks (remove-IsSummed c u k h)
      ∙ rw (entries-remove u k, lookup-remove k j u.entries h.sorted) (ground arith)

  pub lookup-insert_each_absent :
      (j : ℕ) (u : UtxoSet Point) (kvs : List (Commitment × UtxoEntry))
      → has j (keys kvs) ≡ false
      → SortedMap.lookup j (insert_each c u kvs).entries ≡ SortedMap.lookup j u.entries
  unfolding insert_each has keys
  lookup-insert_each_absent j u [] h = refl
  lookup-insert_each_absent j u ((k, e) ∷ kvs) h =
      lookup-insert_each_absent j (insert c u k e).0 kvs (ground arith)
      ∙ rw (entries-insert u k e, lookup-insert k j e u.entries) (ground arith)

  pub lookup-insert_each-Agree :
      (j : ℕ) (m : List (ℕ × UtxoEntry)) (u : UtxoSet Point) (kvs : List (Commitment × UtxoEntry))
      → Agree m kvs
      → SortedMap.lookup j (insert_each c u kvs).entries
        ≡ (if has j (keys kvs) then SortedMap.lookup j m else SortedMap.lookup j u.entries)
  unfolding insert_each has keys
  lookup-insert_each-Agree j m u [] h = refl
  lookup-insert_each-Agree j m u ((k, e) ∷ kvs) h =
      lookup-insert_each-Agree j m (insert c u k e).0 kvs h.1
      ∙ rw (entries-insert u k e, lookup-insert k j e u.entries) (ground (arith, h.0))

  same_set : (u v : UtxoSet Point) → IsSummed c u → IsSummed c v → u.entries ≡ v.entries → u ≡ v
  same_set u v h k e = cc (
    e,
    h.total ∙ ap (points c) e ∙ sym k.total,
    h.flawed ∙ ap (flaws c) e ∙ sym k.flawed,
    h.counted ∙ ap length e ∙ sym k.counted,
  )

  -- Two sets with running values kept up and the same entries are one.
  pub IsSummed-ext :
      (u v : UtxoSet Point)
      → IsSummed c u
      → IsSummed c v
      → ((k : ℕ) → SortedMap.lookup k u.entries ≡ SortedMap.lookup k v.entries)
      → u ≡ v
  IsSummed-ext u v h k e = same_set u v h k (sorted_ext u.entries v.entries h.sorted k.sorted e)
