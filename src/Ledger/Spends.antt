-- ===== src/Ledger/Spends.antt =====
-- The UTXO set before and after a block that crates/nightfall-ledger/src/lib.rs accepts.
use nightfall.Common.{
  ℕ, ◌≡◌, ◌∙◌, ap, refl, Bool, true, List, [], ◌∷◌, arith, if◌then◌else◌, Option, some, none,
  is_some,
}
use nightfall.Common.Result.{ok}
use nightfall.Common.SortedMap
use nightfall.Common.SortedMap.{IsSorted, lookup-insert, lookup-remove, remove-IsSorted}
use nightfall.Crypto.{Primitives}
use nightfall.Tx.{Input}
use nightfall.Body.{BlockBody}
use nightfall.Utxo.{UtxoEntry, UtxoSet, insert}
use nightfall.Utxo.Running.{IsSummed}
use nightfall.Ledger.{LedgerState, remove_each, insert_each}
use nightfall.Ledger.Checks.{check_inputs}
use nightfall.Ledger.Apply.{effective, commit, apply_block, members, created_entries}
use nightfall.Ledger.Batch.{has, entries-insert, lookup-remove_each}
use nightfall.Ledger.Facts.{
  Absent, input_commits, output_commits, has-members, validate_facts, project_facts,
  check_inputs_facts, check_inputs_step, check_outputs_facts,
}
use nightfall.Ledger.Accept.{Removable, Insertable, created-Insertable}
use nightfall.Ledger.Atomic.{accepted_staged}

-- The first of two options that holds a value.
unfoldable pub or_else : Option UtxoEntry → Option UtxoEntry → Option UtxoEntry
or_else (some e) other = some e
or_else none other = other

taken :
    (k : ℕ) (m kvs : List (ℕ × UtxoEntry))
    → Insertable m kvs
    → is_some (SortedMap.lookup k m) ≡ true
    → SortedMap.lookup k kvs ≡ none
unfolding SortedMap.lookup
taken k m [] r h = refl
taken k m ((j, e) ∷ kvs) r h =
    ground (arith, r.0, taken k (SortedMap.insert j e m) kvs r.1, lookup-insert j k e m)

module _ (c : Primitives) where
  open c use {Point}

  lookup-insert_each :
      (j : ℕ) (u : UtxoSet Point) (kvs : List (ℕ × UtxoEntry))
      → Insertable u.entries kvs
      → SortedMap.lookup j (insert_each c u kvs).entries
        ≡ or_else (SortedMap.lookup j kvs) (SortedMap.lookup j u.entries)
  unfolding insert_each SortedMap.lookup or_else
  lookup-insert_each j u [] r = refl
  lookup-insert_each j u ((k, e) ∷ kvs) r =
      lookup-insert_each j (insert c u k e).0 kvs (rw (entries-insert c u k e) r.1)
      ∙ ap (or_else (SortedMap.lookup j kvs))
          (ap (SortedMap.lookup j) (entries-insert c u k e) ∙ lookup-insert k j e u.entries)
      ∙ ground
          (arith, taken k (SortedMap.insert k e u.entries) kvs r.1, lookup-insert k k e u.entries)

  still_there :
      (utxos : UtxoSet Point) (spent : List (ℕ × Unit {0})) (k : ℕ) (m : List (ℕ × UtxoEntry))
      → IsSorted m
      → ((j : ℕ)
          → SortedMap.lookup j spent ≡ none
          → is_some (SortedMap.lookup j utxos.entries) ≡ true
          → is_some (SortedMap.lookup j m) ≡ true)
      → (j : ℕ) → SortedMap.lookup j (SortedMap.insert k tt spent) ≡ none
      → is_some (SortedMap.lookup j utxos.entries) ≡ true
      → is_some (SortedMap.lookup j (SortedMap.remove k m)) ≡ true
  still_there utxos spent k m sm there j a b =
      ground (arith, there j, lookup-insert k j tt spent, lookup-remove k j m sm)

  inputs-Removable :
      (s : LedgerState Point) (height : ℕ) (binding : Bool) (spent : List (ℕ × Unit {0}))
      (inputs : List Input) (result : List (ℕ × Unit {0})) (m : List (ℕ × UtxoEntry))
      → IsSorted m
      → check_inputs c s height binding spent inputs ≡ ok result
      → ((j : ℕ)
          → SortedMap.lookup j spent ≡ none
          → is_some (SortedMap.lookup j s.utxos.entries) ≡ true
          → is_some (SortedMap.lookup j m) ≡ true)
      → Removable m (input_commits inputs)
  inputs-Removable s height binding spent [] result m sm h there = tt
  inputs-Removable s height binding spent (i ∷ inputs) result m sm h there =
      let (fresh, present, rest) = check_inputs_step c s height binding spent i inputs result h in
      (
        there i.commit fresh present,
        inputs-Removable s height binding (SortedMap.insert i.commit tt spent) inputs result
            (SortedMap.remove i.commit m) (remove-IsSorted i.commit m sm) rest
            (still_there s.utxos spent i.commit m sm there),
      )

  -- A block that is accepted spends only outputs that are in the set, each once, and creates only
  -- outputs that are not in it. Afterwards the set holds exactly the created entries and what it
  -- held before less the inputs.
  -- It is stated for a state whose set has its running values kept up.
  pub accepted_set :
      (s after : LedgerState Point) (body : BlockBody) (height reward : ℕ) (ctx : List ℕ)
      → IsSummed c s.utxos
      → apply_block c s body height reward ctx ≡ (after, ok tt)
      → Removable s.utxos.entries (input_commits (effective c s body height).inputs)
        × Absent s.utxos.entries (output_commits (effective c s body height).outputs)
        × ((j : ℕ)
            → SortedMap.lookup j after.utxos.entries
              ≡ or_else
                  (SortedMap.lookup j (created_entries height (effective c s body height).outputs))
                  (if has j (input_commits (effective c s body height).inputs)
                    then none
                    else SortedMap.lookup j s.utxos.entries))
  unfolding commit has SortedMap.lookup
  accepted_set s after body height reward ctx sum h =
      let (staged, valid, at) = accepted_staged c s after body height reward ctx sum h in
      let b = effective c s body height in
      let (coinbase, e0, outs, spent, ins, offset, e1, e2, proj) =
        validate_facts c s b height reward ctx staged valid in
      let (projected, e3, e4, e5, e6, undo) = project_facts c s b reward spent offset staged proj in
      let (sorted, present, holds) = check_inputs_facts c s height _ [] b.inputs spent tt ins in
      let in_ =
        created-Insertable c s.utxos ctx [] b.outputs height
          (remove_each c s.utxos (members spent)).entries outs
          (λ j _ q. lookup-remove_each c j s.utxos (members spent) sum ∙ ground arith) in
      (
        inputs-Removable s height _ [] b.inputs spent s.utxos.entries sum.sorted ins (λ _ _ q. q),
        check_outputs_facts c s.utxos ctx [] b.outputs outs,
        λ j.
            rw (at, e3)
              (lookup-insert_each j (remove_each c s.utxos (members spent)) _ in_
                ∙ ap (or_else (SortedMap.lookup j (created_entries height b.outputs))) (
                    lookup-remove_each c j s.utxos (members spent) sum
                    ∙ ap (λ t. if t then none else SortedMap.lookup j s.utxos.entries)
                        (has-members j spent ∙ holds j))),
      )
