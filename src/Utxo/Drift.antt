-- ===== src/Utxo/Drift.antt =====
-- The running sum of crates/nightfall-ledger/src/utxo.rs over whole histories: sets that were built
-- by the operations, and sets that were read from a file.
use nightfall.Common.{ℕ, ◌≡◌, ◌≢◌, ◌∙◌, sym, refl, some, List, [], ◌∷◌, arith}
use nightfall.Common.SortedMap
use nightfall.Crypto.{Primitives}
use nightfall.Crypto.Commit.{Commitment, point}
use nightfall.Crypto.Group.{minus, identity_add, eq_of_minus}
use nightfall.Utxo.{
  UtxoEntry, UtxoSet, new, insert, remove, commitment_sum, commitment_sum_by_walking, walk,
}
use nightfall.Utxo.Running.{
  IsSummed, new-IsSummed, insert-IsSummed, remove-IsSummed, commitment_sum-walking,
}

-- The two ways in which the set changes.
pub data Change : Type 0 where
  put : Commitment → UtxoEntry → Change
  take_out : Commitment → Change

-- A set as serde reads it: the entries, and the skipped fields at their defaults.
module _ (c : Primitives) where
  open c use {Point, identity, add, neg, add_neg, add_comm, add_identity}

  unfoldable pub loaded : List (ℕ × UtxoEntry) → UtxoSet Point
  loaded entries = record { entries = entries; sum = identity; malformed = 0; summed = 0 }

  unfoldable pub change : Change → UtxoSet Point → UtxoSet Point
  change (put k e) u = (insert c u k e).0
  change (take_out k) u = (remove c u k).0

  unfoldable pub run : List Change → UtxoSet Point → UtxoSet Point
  run [] u = u
  run (x ∷ xs) u = run xs (change x u)

  run-IsSummed : (xs : List Change) (u : UtxoSet Point) → IsSummed c u → IsSummed c (run xs u)
  unfolding run change
  run-IsSummed [] u h = h
  run-IsSummed (put k e ∷ xs) u h = run-IsSummed xs (insert c u k e).0 (insert-IsSummed c u k e h)
  run-IsSummed (take_out k ∷ xs) u h = run-IsSummed xs (remove c u k).0 (remove-IsSummed c u k h)

  -- Whatever is inserted, replaced and removed, and in whatever order, the sum that is carried
  -- along from an empty set is the sum over the map, and it is missing exactly when that is.
  pub running_sum :
      (xs : List Change)
      → commitment_sum c (run xs (new c)) ≡ commitment_sum_by_walking c (run xs (new c))
  running_sum xs =
      commitment_sum-walking c (run xs (new c)) (run-IsSummed xs (new c) (new-IsSummed c))

  loaded_spent :
      (k : Commitment) (e : UtxoEntry) (p : Point)
      → point c k ≡ some p
      → run (take_out k ∷ []) (loaded ((k, e) ∷ []))
        ≡ record { entries = []; sum = minus c identity p; malformed = 0; summed = 0 }
  unfolding run change loaded remove SortedMap.lookup SortedMap.remove
  loaded_spent k e p h = ground arith

  empty_sum :
      (p : Point)
      → let u : UtxoSet Point = record { entries = []; sum = p; malformed = 0; summed = 0 } in
        (commitment_sum c u ≡ some p) × (commitment_sum_by_walking c u ≡ some identity)
  unfolding commitment_sum commitment_sum_by_walking walk
  empty_sum p = (refl, refl)

  -- A set of one entry that was loaded without `rebuild_sum` gives a wrong sum once that entry is
  -- spent: the counter, which stops at 0, again agrees with the number of entries, and the sum in hand
  -- is that of the spent commitment taken from nothing, while the map is empty. It is stated for an
  -- entry whose commitment is a point other than the identity.
  pub loaded_sum_drifts :
      (k : Commitment) (e : UtxoEntry) (p : Point)
      → point c k ≡ some p
      → p ≢ identity
      → let u = run (take_out k ∷ []) (loaded ((k, e) ∷ [])) in
        (commitment_sum c u ≡ some (minus c identity p))
        × (commitment_sum_by_walking c u ≡ some identity)
        × (commitment_sum c u ≢ commitment_sum_by_walking c u)
  loaded_sum_drifts k e p h ne =
      let minus_ne : minus c identity p ≢ identity =
        λ q. ne (sym (identity_add c p) ∙ sym (eq_of_minus c identity p identity q)) in
      let (held, walked) = empty_sum (minus c identity p) in
      rw (loaded_spent k e p h) (held, walked, λ q. minus_ne (cc (held, walked, q)))
