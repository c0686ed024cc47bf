-- ===== src/Ledger/Rewind.antt =====
-- `rewind` of crates/nightfall-ledger/src/lib.rs against the commit it undoes.
use nightfall.Common.{ℕ, ◌≡◌, ◌∙◌, ap, sym, refl, true, none, List, [], ◌∷◌, arith}
use nightfall.Common.Result.{ok}
use nightfall.Common.SortedMap
use nightfall.Crypto.{Primitives}
use nightfall.Body.{BlockBody}
use nightfall.Utxo.{UtxoEntry, UtxoSet}
use nightfall.Utxo.Running.{IsSummed}
use nightfall.Ledger.{
  LedgerState, StateUndo, capture_undo, capture_spent, rewind, remove_each, insert_each,
}
use nightfall.Ledger.Apply.{Staged, validate, commit, members, created_entries}
use nightfall.Ledger.Batch.{
  has, keys, Agree, remove_each-IsSummed, insert_each-IsSummed, lookup-remove_each,
  lookup-insert_each_absent, lookup-insert_each-Agree, IsSummed-ext,
}
use nightfall.Ledger.Facts.{
  Absent, output_commits, keys-created_entries, has-members, validate_facts, project_facts,
  check_inputs_facts, check_outputs_facts, capture_spent_facts,
}

Absent-at :
    (j : ℕ) (m : List (ℕ × UtxoEntry)) (ks : List ℕ)
    → Absent m ks
    → has j ks ≡ true
    → SortedMap.lookup j m ≡ none
unfolding has
Absent-at j m [] a h = ground arith
Absent-at j m (k ∷ ks) a h = ground (arith, Absent-at j m ks, a.0, a.1)

module _ (c : Primitives) where
  open c use {Point}

  -- Taking out what was put in, and putting back what was taken out.
  undone :
      (u : UtxoSet Point) (spent created : List ℕ) (entries pairs : List (ℕ × UtxoEntry))
      → IsSummed c u
      → Absent u.entries created
      → keys entries ≡ created
      → Agree u.entries pairs
      → ((j : ℕ) → has j spent ≡ has j (keys pairs))
      → insert_each c (remove_each c (insert_each c (remove_each c u spent) entries) created) pairs
        ≡ u
  undone u spent created entries pairs sum absent names agree same =
      let removed = remove_each-IsSummed c u spent sum in
      let inserted = insert_each-IsSummed c (remove_each c u spent) entries removed in
      let removed' =
        remove_each-IsSummed c (insert_each c (remove_each c u spent) entries) created inserted in
      IsSummed-ext c _ u (insert_each-IsSummed c _ pairs removed') sum (λ j.
        lookup-insert_each-Agree c j u.entries _ pairs agree
        ∙ rw
            (lookup-remove_each c j (insert_each c (remove_each c u spent) entries) created
              inserted)
            (ground (
              arith,
              lookup-insert_each_absent c j (remove_each c u spent) entries,
              lookup-remove_each c j u spent sum,
              same j,
              Absent-at j u.entries created absent,
              ap (has j) names,
            )))

  undo_facts :
      (s : LedgerState Point) (body : BlockBody) (undo : StateUndo)
      → capture_undo c s body ≡ ok undo
      → (capture_spent c s.utxos [] body.inputs ≡ ok undo.spent)
        × (undo.created ≡ output_commits body.outputs)
        × (undo.kernels ≡ s.kernels)
        × (undo.supply ≡ s.supply)
        × (undo.tx_count ≡ s.tx_count)
        × (undo.height ≡ s.height)
  unfolding capture_undo
  undo_facts s body undo h = ground arith

  restored :
      (s : LedgerState Point) (body : BlockBody) (height : ℕ) (staged : Staged)
      → rewind c (commit c s body height staged) staged.undo ≡ record s {
        utxos =
            insert_each c
              (remove_each c
                (insert_each c
                  (remove_each c s.utxos (members staged.spent))
                  (created_entries height body.outputs))
                staged.undo.created)
              staged.undo.spent;
        kernels = staged.undo.kernels;
        supply = staged.undo.supply;
        tx_count = staged.undo.tx_count;
        height = staged.undo.height;
      }
  unfolding rewind commit
  restored s body height staged = refl

  -- Rewinding a state that was just written with the undo record captured before it gives the
  -- state from before, exactly: set, running sum, kernels, counters, transaction count and height.
  -- The running values of the set have to be kept up, and the block has to have passed the checks.
  pub rewind-commit :
      (s : LedgerState Point) (body : BlockBody) (height reward : ℕ) (ctx : List ℕ)
      (staged : Staged)
      → IsSummed c s.utxos
      → validate c s body height reward ctx ≡ ok staged
      → rewind c (commit c s body height staged) staged.undo ≡ s
  unfolding has SortedMap.lookup
  rewind-commit s body height reward ctx staged sum h =
      let (coinbase, e0, outs, spent, ins, offset, e1, e2, proj) =
        validate_facts c s body height reward ctx staged h in
      let (projected, e3, e4, e5, e6, undo) =
        project_facts c s body reward spent offset staged proj in
      let (captured, created, kernels, supply, count, at) = undo_facts s body staged.undo undo in
      let (names, agree) =
        capture_spent_facts c s.utxos [] body.inputs staged.undo.spent captured in
      let (sorted, present, holds) = check_inputs_facts c s height _ [] body.inputs spent tt ins in
      let absent = check_outputs_facts c s.utxos ctx [] body.outputs outs in
      let set =
        undone s.utxos (members staged.spent) (output_commits body.outputs)
          (created_entries height body.outputs) staged.undo.spent sum absent
          (keys-created_entries height body.outputs) agree
          (λ j.
            ap (λ m. has j (members m)) e3
            ∙ has-members j spent
            ∙ holds j
            ∙ sym (ap (has j) names)) in
      restored s body height staged ∙ rw (created, set, kernels, supply, count, at)
