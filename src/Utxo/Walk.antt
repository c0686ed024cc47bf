-- ===== src/Utxo/Walk.antt =====
-- The sum over the entries of a UTXO map (crates/nightfall-ledger/src/utxo.rs), by entry.
use nightfall.Common.{
  ℕ, ◌+◌, ◌≡◌, ap, sym, refl, none, some, List, [], ◌∷◌, arith, ◌==◌, if◌then◌else◌, Option-cases,
  inl, inr,
}
use nightfall.Common.SortedMap
use nightfall.Common.SortedMap.{IsSorted, lookup-Above}
use nightfall.Crypto.{Primitives}
use nightfall.Crypto.Commit.{point}
use nightfall.Crypto.Group.{add_left_comm, identity_add}
use nightfall.Utxo.{UtxoEntry, walk, rebuild_walk}

module _ (c : Primitives) where
  open c use {Point, identity, add, add_assoc, add_comm, add_identity}

  -- What one commitment adds to the sum, and to the count of malformed ones.
  unfoldable pub contrib : ℕ → Point
  contrib k = elim (point c k) [ none ↦ identity | some p ↦ p ]

  unfoldable pub flaw : ℕ → ℕ
  flaw k = elim (point c k) [ none ↦ 1 | some p ↦ 0 ]

  -- The sum of the points of a map, and how many of its commitments are none.
  unfoldable pub points : List (ℕ × UtxoEntry) → Point
  points [] = identity
  points ((k, e) ∷ m) = add (contrib k) (points m)

  unfoldable pub flaws : List (ℕ × UtxoEntry) → ℕ
  flaws [] = 0
  flaws ((k, e) ∷ m) = flaw k + flaws m

  pub contrib-some : (k : ℕ) {p : Point} → point c k ≡ some p → (contrib k ≡ p) × (flaw k ≡ 0)
  unfolding contrib flaw
  contrib-some k h = (rw (h, contrib), rw (h, flaw))

  pub contrib-none : (k : ℕ) → point c k ≡ none → (contrib k ≡ identity) × (flaw k ≡ 1)
  unfolding contrib flaw
  contrib-none k h = (rw (h, contrib), rw (h, flaw))

  pub walk-points :
      (acc : Point) (m : List (ℕ × UtxoEntry))
      → walk c acc m ≡ (if flaws m == 0 then some (add acc (points m)) else none)
  unfolding walk points flaws
  walk-points acc [] = ap some (sym (add_identity acc))
  walk-points acc ((k, e) ∷ m) = elim (Option-cases (point c k)) [
    | inl h ↦ ground (arith, contrib-none k h)
    | inr (p, h) ↦
        ground (arith, contrib-some k h, walk-points (add acc p) m, add_assoc acc p (points m))
  ]

  pub rebuild_walk-points :
      (acc : Point) (bad : ℕ) (m : List (ℕ × UtxoEntry))
      → rebuild_walk c acc bad m ≡ (add acc (points m), bad + flaws m)
  unfolding rebuild_walk points flaws
  rebuild_walk-points acc bad [] = ground (arith, add_identity acc)
  rebuild_walk-points acc bad ((k, e) ∷ m) = elim (Option-cases (point c k)) [
    | inl h ↦
        ground
          (arith, contrib-none k h, rebuild_walk-points acc (bad + 1) m, identity_add c (points m))
    | inr (p, h) ↦
        ground (
          arith,
          contrib-some k h,
          rebuild_walk-points (add acc p) bad m,
          add_assoc acc p (points m),
        )
  ]

  pub points-insert_fresh :
      (k : ℕ) (v : UtxoEntry) (m : List (ℕ × UtxoEntry))
      → SortedMap.lookup k m ≡ none
      → (points (SortedMap.insert k v m) ≡ add (contrib k) (points m))
        × (flaws (SortedMap.insert k v m) ≡ flaw k + flaws m)
  unfolding points flaws SortedMap.insert SortedMap.lookup
  points-insert_fresh k v [] h = (refl, refl)
  points-insert_fresh k v ((j, w) ∷ m) h =
      ground (arith, points-insert_fresh k v m, add_left_comm c (contrib j) (contrib k) (points m))

  pub points-insert_old :
      (k : ℕ) (v e : UtxoEntry) (m : List (ℕ × UtxoEntry))
      → IsSorted m
      → SortedMap.lookup k m ≡ some e
      → (points (SortedMap.insert k v m) ≡ points m) × (flaws (SortedMap.insert k v m) ≡ flaws m)
  unfolding points flaws SortedMap.insert SortedMap.lookup
  points-insert_old k v e [] s h = absurd (ground (arith, h))
  points-insert_old k v e ((j, w) ∷ m) s h =
      ground (arith, points-insert_old k v e m s.1, lookup-Above k j m)

  pub points-remove :
      (k : ℕ) (e : UtxoEntry) (m : List (ℕ × UtxoEntry))
      → SortedMap.lookup k m ≡ some e
      → (points m ≡ add (contrib k) (points (SortedMap.remove k m)))
        × (flaws m ≡ flaw k + flaws (SortedMap.remove k m))
  unfolding points flaws SortedMap.remove SortedMap.lookup
  points-remove k e [] h = absurd (ground (arith, h))
  points-remove k e ((j, w) ∷ m) h = ground (
    arith,
    points-remove k e m,
    add_left_comm c (contrib j) (contrib k) (points (SortedMap.remove k m)),
  )
