-- ===== src/Utxo/Running.antt =====
-- The running sum of crates/nightfall-ledger/src/utxo.rs against the walk over the map.
use nightfall.Common.{
  ◌+◌, ◌-◌, ◌≡◌, ◌∙◌, ap, sym, refl, none, some, arith, ◌==◌, if◌then◌else◌, Option-cases, inl, inr,
  length, true, false,
}
use nightfall.Common.SortedMap
use nightfall.Common.SortedMap.{
  IsSorted, insert-IsSorted, remove-IsSorted, length-insert, length-remove, remove_absent,
}
use nightfall.Crypto.{Primitives}
use nightfall.Crypto.Commit.{Commitment, point}
use nightfall.Crypto.Group.{identity_add, minus, minus_eq}
use nightfall.Utxo.{
  UtxoEntry, UtxoSet, new, insert, remove, commitment_sum, commitment_sum_by_walking, rebuild_sum,
}
use nightfall.Utxo.Walk.{
  contrib, flaw, points, flaws, contrib-some, contrib-none, walk-points, rebuild_walk-points,
  points-insert_fresh, points-insert_old, points-remove,
}

module _ (c : Primitives) where
  open c use {Point, identity, add, add_comm, add_identity}

  -- The entries are in order, and the three running values account for all of them.
  pub record IsSummed (u : UtxoSet Point) : Type 0 where
    pub sorted : IsSorted u.entries
    pub counted : u.summed ≡ length u.entries
    pub flawed : u.malformed ≡ flaws c u.entries
    pub total : u.sum ≡ points c u.entries

  walking-points :
      (u : UtxoSet Point)
      → commitment_sum_by_walking c u
        ≡ (if flaws c u.entries == 0 then some (points c u.entries) else none)
  unfolding commitment_sum_by_walking
  walking-points u =
      walk-points c identity u.entries
      ∙ ap (λ p. if flaws c u.entries == 0 then some p else none)
          (identity_add c (points c u.entries))

  -- While the running values are kept up, the sum in hand is the sum over the map.
  pub commitment_sum-walking :
      (u : UtxoSet Point) → IsSummed u → commitment_sum c u ≡ commitment_sum_by_walking c u
  unfolding commitment_sum
  commitment_sum-walking u h = rw (walking-points u) (ground (arith, walking-points u))

  pub new-IsSummed : IsSummed (new c)
  unfolding new points flaws
  new-IsSummed = record { sorted = tt; counted = refl; flawed = refl; total = refl }

  -- A fresh insert and a removal in closed form.
  pub insert_fresh :
      (u : UtxoSet Point) (k : Commitment) (e : UtxoEntry)
      → SortedMap.lookup k u.entries ≡ none
      → insert c u k e ≡ (
        record {
          entries = SortedMap.insert k e u.entries;
          sum = add u.sum (contrib c k);
          malformed = u.malformed + flaw c k;
          summed = u.summed + 1;
        },
        true,
      )
  unfolding insert
  insert_fresh u k e fresh = elim (Option-cases (point c k)) [
    | inl q ↦ ground (arith, contrib-none c k q, add_identity u.sum)
    | inr (p, q) ↦ ground (arith, contrib-some c k q)
  ]

  pub insert_old :
      (u : UtxoSet Point) (k : Commitment) (e old : UtxoEntry)
      → SortedMap.lookup k u.entries ≡ some old
      → insert c u k e ≡ (record u { entries = SortedMap.insert k e u.entries }, false)
  unfolding insert
  insert_old u k e old h = ground arith

  minus_identity : (p : Point) → minus c p identity ≡ p
  minus_identity p = minus_eq c p identity p (sym (add_identity p))

  pub remove_present :
      (u : UtxoSet Point) (k : Commitment) (e : UtxoEntry)
      → SortedMap.lookup k u.entries ≡ some e
      → remove c u k ≡ (
        record {
          entries = SortedMap.remove k u.entries;
          sum = minus c u.sum (contrib c k);
          malformed = u.malformed - flaw c k;
          summed = u.summed - 1;
        },
        some e,
      )
  unfolding remove
  remove_present u k e present = elim (Option-cases (point c k)) [
    | inl q ↦ ground (arith, contrib-none c k q, minus_identity u.sum)
    | inr (p, q) ↦ ground (arith, contrib-some c k q)
  ]

  pub remove_missing :
      (u : UtxoSet Point) (k : Commitment)
      → SortedMap.lookup k u.entries ≡ none
      → remove c u k ≡ (u, none)
  unfolding remove
  remove_missing u k h = ground (arith, remove_absent k u.entries h)

  insert-IsSummed_fresh :
      (u : UtxoSet Point) (k : Commitment) (e : UtxoEntry)
      → IsSummed u
      → SortedMap.lookup k u.entries ≡ none
      → IsSummed (insert c u k e).0
  insert-IsSummed_fresh u k e h fresh = rw (insert_fresh u k e fresh) (
      let grown = points-insert_fresh c k e u.entries fresh in
      record {
        sorted = insert-IsSorted k e u.entries h.sorted;
        counted = ground (arith, length-insert k e u.entries h.sorted);
        flawed = omega (arith, grown.1, h.flawed);
        total =
            ap (λ t. add t (contrib c k)) h.total
            ∙ add_comm (points c u.entries) (contrib c k)
            ∙ sym grown.0;
      })

  insert-IsSummed_old :
      (u : UtxoSet Point) (k : Commitment) (e old : UtxoEntry)
      → IsSummed u
      → SortedMap.lookup k u.entries ≡ some old
      → IsSummed (insert c u k e).0
  insert-IsSummed_old u k e old h present = rw (insert_old u k e old present) (
      let same = points-insert_old c k e old u.entries h.sorted present in
      record {
        sorted = insert-IsSorted k e u.entries h.sorted;
        counted = ground (arith, length-insert k e u.entries h.sorted);
        flawed = h.flawed ∙ sym same.1;
        total = h.total ∙ sym same.0;
      })

  pub insert-IsSummed :
      (u : UtxoSet Point) (k : Commitment) (e : UtxoEntry)
      → IsSummed u
      → IsSummed (insert c u k e).0
  insert-IsSummed u k e h = elim (Option-cases (SortedMap.lookup k u.entries)) [
    | inl q ↦ insert-IsSummed_fresh u k e h q
    | inr (old, q) ↦ insert-IsSummed_old u k e old h q
  ]

  remove-IsSummed_present :
      (u : UtxoSet Point) (k : Commitment) (e : UtxoEntry)
      → IsSummed u
      → SortedMap.lookup k u.entries ≡ some e
      → IsSummed (remove c u k).0
  remove-IsSummed_present u k e h present = rw (remove_present u k e present) (
      let shrunk = points-remove c k e u.entries present in
      record {
        sorted = remove-IsSorted k u.entries h.sorted;
        counted = ground (arith, length-remove k u.entries);
        flawed = omega (arith, shrunk.1, h.flawed);
        total = minus_eq c u.sum (contrib c k) _ (h.total ∙ shrunk.0 ∙ add_comm _ _);
      })

  pub remove-IsSummed :
      (u : UtxoSet Point) (k : Commitment) → IsSummed u → IsSummed (remove c u k).0
  remove-IsSummed u k h = elim (Option-cases (SortedMap.lookup k u.entries)) [
    | inl q ↦ rw (remove_missing u k q) h
    | inr (e, q) ↦ remove-IsSummed_present u k e h q
  ]

  -- Rebuilding brings the running values up to date, whatever they were.
  pub rebuild_sum-IsSummed : (u : UtxoSet Point) → IsSorted u.entries → IsSummed (rebuild_sum c u)
  unfolding rebuild_sum
  rebuild_sum-IsSummed u s = rw (rebuild_walk-points c identity 0 u.entries) (record {
    sorted = s;
    counted = refl;
    flawed = omega arith;
    total = identity_add c (points c u.entries);
  })
