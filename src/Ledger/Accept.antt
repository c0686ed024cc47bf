-- ===== src/Ledger/Accept.antt =====
-- The supply equation of crates/nightfall-ledger/src/lib.rs on the projected set and on the set
-- that was written.
use nightfall.Common.{
  ℕ, ◌≡◌, ◌∙◌, ap, sym, true, some, none, List, [], ◌∷◌, arith, is_some, if◌then◌else◌, ◌==◌,
}
use nightfall.Common.Result.{ok}
use nightfall.Common.SortedMap
use nightfall.Common.SortedMap.{
  IsSorted, Above, lookup-Above, lookup-insert, lookup-remove, remove-IsSorted,
}
use nightfall.Crypto.{Primitives}
use nightfall.Crypto.Output.{Output}
use nightfall.Body.{BlockBody}
use nightfall.Utxo.{UtxoEntry, UtxoSet, insert, remove, commitment_sum, sub_all, add_all, sum_after}
use nightfall.Utxo.Running.{IsSummed}
use nightfall.Utxo.Supply.{verify_supply_invariant}
use nightfall.Ledger.{LedgerState, verify_supply, remove_each, insert_each}
use nightfall.Ledger.Checks.{check_outputs}
use nightfall.Ledger.Apply.{Staged, validate, commit, settle, members, created_entries}
use nightfall.Ledger.Batch.{
  has, keys, remove_each-IsSummed, insert_each-IsSummed, lookup-remove_each,
}
use nightfall.Ledger.Facts.{
  Present, input_commits, keys-created_entries, validate_facts, project_facts, check_inputs_facts,
  check_outputs_step,
}

-- Each key is there when its turn to be removed comes.
abbrev pub Removable : List (ℕ × UtxoEntry) → List ℕ → Type 0
Removable m [] = Unit
Removable m (k ∷ ks) = (is_some (SortedMap.lookup k m) ≡ true) × Removable (SortedMap.remove k m) ks

-- No key is there when its turn to be inserted comes.
abbrev pub Insertable : List (ℕ × UtxoEntry) → List (ℕ × UtxoEntry) → Type 0
Insertable m [] = Unit
Insertable m ((k, e) ∷ kvs) =
    (SortedMap.lookup k m ≡ none) × Insertable (SortedMap.insert k e m) kvs

Present-at :
    (j : ℕ) (m : List (ℕ × UtxoEntry)) (ks : List ℕ)
    → Present m ks
    → has j ks ≡ true
    → is_some (SortedMap.lookup j m) ≡ true
unfolding has
Present-at j m [] p h = ground arith
Present-at j m (k ∷ ks) p h = ground (arith, Present-at j m ks, p.0, p.1)

members-Removable :
    (m : List (ℕ × UtxoEntry)) (set : List (ℕ × Unit {0}))
    → IsSorted m
    → IsSorted set
    → ((j : ℕ) → is_some (SortedMap.lookup j set) ≡ true → is_some (SortedMap.lookup j m) ≡ true)
    → Removable m (members set)
unfolding members SortedMap.lookup
members-Removable m [] sm ss sub = tt
members-Removable m ((k, u) ∷ set) sm ss sub = (
  sub k (ground arith),
  members-Removable (SortedMap.remove k m) set (remove-IsSorted k m sm) ss.1
      (λ j h. ground (arith, sub j, lookup-remove k j m sm, lookup-Above k j set)),
)

module _ (c : Primitives) where
  open c use {Point}

  still_free :
      (utxos : UtxoSet Point) (created : List (ℕ × Unit {0})) (k : ℕ) (e : UtxoEntry)
      (m : List (ℕ × UtxoEntry))
      → ((j : ℕ)
          → SortedMap.lookup j created ≡ none
          → SortedMap.lookup j utxos.entries ≡ none
          → SortedMap.lookup j m ≡ none)
      → (j : ℕ) → SortedMap.lookup j (SortedMap.insert k tt created) ≡ none
      → SortedMap.lookup j utxos.entries ≡ none
      → SortedMap.lookup j (SortedMap.insert k e m) ≡ none
  still_free utxos created k e m free j a b =
      ground (arith, free j, lookup-insert k j tt created, lookup-insert k j e m)

  pub created-Insertable :
      (utxos : UtxoSet Point) (ctx : List ℕ) (created : List (ℕ × Unit {0})) (outputs : List Output)
      (height : ℕ) (m : List (ℕ × UtxoEntry))
      → check_outputs c utxos ctx created outputs ≡ ok tt
      → ((j : ℕ)
          → SortedMap.lookup j created ≡ none
          → SortedMap.lookup j utxos.entries ≡ none
          → SortedMap.lookup j m ≡ none)
      → Insertable m (created_entries height outputs)
  unfolding created_entries
  created-Insertable utxos ctx created [] height m h free = tt
  created-Insertable utxos ctx created (o ∷ outputs) height m h free =
      let (new, fresh, rest) = check_outputs_step c utxos ctx created o outputs h in
      (
        free o.commit new fresh,
        created-Insertable utxos ctx (SortedMap.insert o.commit tt created) outputs height _ rest
            (still_free utxos created o.commit _ m free),
      )

  remove_step :
      (u : UtxoSet Point) (k : ℕ) (ks : List ℕ) (p : Point)
      → u.malformed ≡ 0
      → is_some (SortedMap.lookup k u.entries) ≡ true
      → sub_all c u.sum (k ∷ ks) ≡ some p
      → (sub_all c (remove c u k).0.sum ks ≡ some p)
        × ((remove c u k).0.malformed ≡ 0)
        × ((remove c u k).0.entries ≡ SortedMap.remove k u.entries)
  unfolding remove sub_all
  remove_step u k ks p z h e = ground arith

  remove_each_sum :
      (u : UtxoSet Point) (ks : List ℕ) (p : Point)
      → u.malformed ≡ 0
      → Removable u.entries ks
      → sub_all c u.sum ks ≡ some p
      → ((remove_each c u ks).sum ≡ p) × ((remove_each c u ks).malformed ≡ 0)
  unfolding remove_each sub_all
  remove_each_sum u [] p z r h = ground arith
  remove_each_sum u (k ∷ ks) p z r h =
      let (sum, flawed, same) = remove_step u k ks p z r.0 h in
      remove_each_sum (remove c u k).0 ks p flawed (rw same r.1) sum

  insert_step :
      (u : UtxoSet Point) (k : ℕ) (e : UtxoEntry) (ks : List ℕ) (p : Point)
      → u.malformed ≡ 0
      → SortedMap.lookup k u.entries ≡ none
      → add_all c u.sum (k ∷ ks) ≡ some p
      → (add_all c (insert c u k e).0.sum ks ≡ some p)
        × ((insert c u k e).0.malformed ≡ 0)
        × ((insert c u k e).0.entries ≡ SortedMap.insert k e u.entries)
  unfolding insert add_all
  insert_step u k e ks p z h a = ground arith

  insert_each_sum :
      (u : UtxoSet Point) (kvs : List (ℕ × UtxoEntry)) (p : Point)
      → u.malformed ≡ 0
      → Insertable u.entries kvs
      → add_all c u.sum (keys kvs) ≡ some p
      → ((insert_each c u kvs).sum ≡ p) × ((insert_each c u kvs).malformed ≡ 0)
  unfolding insert_each add_all keys
  insert_each_sum u [] p z r h = ground arith
  insert_each_sum u ((k, e) ∷ kvs) p z r h =
      let (sum, flawed, same) = insert_step u k e (keys kvs) p z r.0 h in
      insert_each_sum (insert c u k e).0 kvs p flawed (rw same r.1) sum

  -- The sum of a set whose running values are kept up.
  commitment_sum_held :
      (u : UtxoSet Point)
      → IsSummed c u
      → commitment_sum c u ≡ (if u.malformed == 0 then some u.sum else none)
  unfolding commitment_sum
  commitment_sum_held u h = ground (arith, h.counted)

  sum_after_held :
      (u : UtxoSet Point) (removed added : List ℕ)
      → IsSummed c u
      → sum_after c u removed added ≡ (
          if u.malformed == 0
          then elim (sub_all c u.sum removed) [ none ↦ none | some left ↦ add_all c left added ]
          else none)
  unfolding sum_after
  sum_after_held u removed added sum = rw (commitment_sum_held u sum, sum_after) (ground arith)

  sum_after_parts :
      (u : UtxoSet Point) (removed added : List ℕ) (p : Point)
      → IsSummed c u
      → sum_after c u removed added ≡ some p
      → (u.malformed ≡ 0)
        × (left : Point) × (sub_all c u.sum removed ≡ some left)
        × (add_all c left added ≡ some p)
  sum_after_parts u removed added p sum h = ground (arith, sum_after_held u removed added sum)

  -- The projected sum is the sum of the set that is written.
  written_sum :
      (u : UtxoSet Point) (removed : List ℕ) (entries : List (ℕ × UtxoEntry)) (p : Point)
      → IsSummed c u
      → Removable u.entries removed
      → Insertable (remove_each c u removed).entries entries
      → sum_after c u removed (keys entries) ≡ some p
      → commitment_sum c (insert_each c (remove_each c u removed) entries) ≡ some p
  written_sum u removed entries p sum out in_ h =
      let (z, left, subs, adds) = sum_after_parts u removed (keys entries) p sum h in
      let (at, flawed) = remove_each_sum u removed left z out subs in
      let (at', flawed') =
        insert_each_sum (remove_each c u removed) entries p flawed in_
          (ap (λ t. add_all c t (keys entries)) at ∙ adds) in
      let kept = insert_each-IsSummed c _ entries (remove_each-IsSummed c u removed sum) in
      commitment_sum_held _ kept ∙ ground (arith, at', flawed')

  -- A block that passed every check leaves a set whose running values are kept up, and whose sum
  -- is the projected one.
  pub commit_sums :
      (s : LedgerState Point) (body : BlockBody) (height reward : ℕ) (ctx : List ℕ)
      (staged : Staged)
      → IsSummed c s.utxos
      → validate c s body height reward ctx ≡ ok staged
      → IsSummed c (commit c s body height staged).utxos
        × (verify_supply c (commit c s body height staged) ≡ ok tt)
  unfolding commit verify_supply verify_supply_invariant has SortedMap.lookup
  commit_sums s body height reward ctx staged sum h =
      let (coinbase, e0, outs, spent, ins, offset, e1, e2, proj) =
        validate_facts c s body height reward ctx staged h in
      let (projected, e3, e4, e5, e6, undo) =
        project_facts c s body reward spent offset staged proj in
      let (sorted, present, holds) = check_inputs_facts c s height _ [] body.inputs spent tt ins in
      let out = members-Removable s.utxos.entries spent sum.sorted sorted (λ j q.
        Present-at j s.utxos.entries (input_commits body.inputs) present (sym (holds j) ∙ q)) in
      let in_ =
        created-Insertable s.utxos ctx [] body.outputs height
          (remove_each c s.utxos (members spent)).entries outs
          (λ j _ q. lookup-remove_each c j s.utxos (members spent) sum ∙ ground arith) in
      let e5' =
        written_sum s.utxos (members spent) (created_entries height body.outputs) projected sum out
          in_
          (ap (sum_after c s.utxos (members spent)) (keys-created_entries height body.outputs)
            ∙ e5) in
      rw e3 (
        insert_each-IsSummed c _ (created_entries height body.outputs)
            (remove_each-IsSummed c s.utxos (members spent) sum),
        ground (arith, e5', e6),
      )

  -- The last check of `apply_block` never fires: while the running values of the set are kept up, a
  -- block that passed every check is written and stays, so the roll-back is not taken.
  pub settle-commit :
      (s : LedgerState Point) (body : BlockBody) (height reward : ℕ) (ctx : List ℕ)
      (staged : Staged)
      → IsSummed c s.utxos
      → validate c s body height reward ctx ≡ ok staged
      → settle c (commit c s body height staged) staged.undo
        ≡ (commit c s body height staged, ok tt)
  unfolding settle
  settle-commit s body height reward ctx staged sum h =
      ground (arith, (commit_sums s body height reward ctx staged sum h).1)
