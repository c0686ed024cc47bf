-- ===== src/Ledger/Facts.antt =====
-- What a block that passed the checks of crates/nightfall-ledger/src/lib.rs has shown, step by step.
use nightfall.Common.{
  ℕ, ◌≡◌, refl, sym, ◌||◌, Bool, true, some, none, List, [], ◌∷◌, map, arith, is_some,
}
use nightfall.Common.Result.{ok}
use nightfall.Common.SortedMap
use nightfall.Common.SortedMap.{IsSorted, insert-IsSorted, lookup-insert}
use nightfall.Crypto.{Primitives}
use nightfall.Crypto.Kernel.{TxKernel}
use nightfall.Crypto.Output.{Output}
use nightfall.Tx.{Input}
use nightfall.Body.{BlockBody, total_fee}
use nightfall.Utxo.{UtxoEntry, UtxoSet, sum_after, get, contains}
use nightfall.Utxo.Supply.{supply_equation_holds}
use nightfall.Ledger.{LedgerState, binding_active, capture_undo, capture_spent}
use nightfall.Ledger.Checks.{
  check_coinbase, check_outputs, check_inputs, check_balance, check_opening, project_supply,
}
use nightfall.Ledger.Apply.{Staged, validate, project, members, created_entries}
use nightfall.Ledger.Batch.{has, keys, Agree}

-- The commitments of inputs and of outputs.
abbrev pub input_commits : List Input → List ℕ
input_commits inputs = map (λ i. i.commit) inputs

abbrev pub output_commits : List Output → List ℕ
output_commits outputs = map (λ o. o.commit) outputs

-- Every key is (is not) in a map.
abbrev pub Present : List (ℕ × UtxoEntry) → List ℕ → Type 0
Present m [] = Unit
Present m (k ∷ ks) = (is_some (SortedMap.lookup k m) ≡ true) × Present m ks

abbrev pub Absent {ℓ} : {V : Type ℓ} → List (ℕ × V) → List ℕ → Type ℓ
Absent m [] = Unit
Absent m (k ∷ ks) = (SortedMap.lookup k m ≡ none) × Absent m ks

pub keys-created_entries :
    (height : ℕ) (outputs : List Output)
    → keys (created_entries height outputs) ≡ output_commits outputs
unfolding keys created_entries
keys-created_entries height [] = refl
keys-created_entries height (o ∷ outputs) = rw (keys-created_entries height outputs)

pub has-members :
    (j : ℕ) (set : List (ℕ × Unit {0})) → has j (members set) ≡ is_some (SortedMap.lookup j set)
unfolding has members SortedMap.lookup
has-members j [] = refl
has-members j ((k, u) ∷ set) = ground (arith, has-members j set)

module _ (c : Primitives) where
  open c use {Point}

  pub project_facts :
      (s : LedgerState Point) (body : BlockBody) (reward : ℕ) (spent : List (ℕ × Unit {0}))
      (offset : Point) (staged : Staged)
      → project c s body reward spent offset ≡ ok staged
      → (projected : Point) × (staged.spent ≡ spent)
        × (project_supply s.supply reward (total_fee body) ≡ ok staged.supply)
        × (sum_after c s.utxos (members spent) (output_commits body.outputs) ≡ some projected)
        × (supply_equation_holds c projected staged.kernels staged.supply ≡ ok tt)
        × (capture_undo c s body ≡ ok staged.undo)
  unfolding project
  project_facts s body reward spent offset staged h = ground arith

  pub validate_facts :
      (s : LedgerState Point) (body : BlockBody) (height reward : ℕ) (ctx : List ℕ)
      (staged : Staged)
      → validate c s body height reward ctx ≡ ok staged
      → (coinbase : TxKernel) × (check_coinbase c s body height reward (binding_active c s height)
          ≡ ok coinbase)
        × (check_outputs c s.utxos ctx [] body.outputs ≡ ok tt)
        × (spent : List (ℕ × Unit {0})) × (check_inputs c s height
              (binding_active c s height)
              []
              body.inputs
            ≡ ok spent)
        × (offset : Point) × (check_balance c body (binding_active c s height) ≡ ok offset)
        × (check_opening c body coinbase (binding_active c s height) ≡ ok tt)
        × (project c s body reward spent offset ≡ ok staged)
  unfolding validate
  validate_facts s body height reward ctx staged h = ground arith

  pub check_inputs_step :
      (s : LedgerState Point) (height : ℕ) (binding : Bool) (spent : List (ℕ × Unit {0}))
      (i : Input) (inputs : List Input) (result : List (ℕ × Unit {0}))
      → check_inputs c s height binding spent (i ∷ inputs) ≡ ok result
      → (SortedMap.lookup i.commit spent ≡ none)
        × (is_some (SortedMap.lookup i.commit s.utxos.entries) ≡ true)
        × (check_inputs c s height binding (SortedMap.insert i.commit tt spent) inputs ≡ ok result)
  unfolding check_inputs get
  check_inputs_step s height binding spent i inputs result h = ground arith

  check_inputs_nil :
      (s : LedgerState Point) (height : ℕ) (binding : Bool) (spent result : List (ℕ × Unit {0}))
      → check_inputs c s height binding spent [] ≡ ok result
      → spent ≡ result
  unfolding check_inputs
  check_inputs_nil s height binding spent result h = ground arith

  -- The set of spent commitments is in order and holds the inputs besides what it held before.
  pub check_inputs_facts :
      (s : LedgerState Point) (height : ℕ) (binding : Bool) (spent : List (ℕ × Unit {0}))
      (inputs : List Input) (result : List (ℕ × Unit {0}))
      → IsSorted spent
      → check_inputs c s height binding spent inputs ≡ ok result
      → IsSorted result
        × Present s.utxos.entries (input_commits inputs)
        × ((j : ℕ)
            → is_some (SortedMap.lookup j result)
              ≡ (is_some (SortedMap.lookup j spent) || has j (input_commits inputs)))
  unfolding has
  check_inputs_facts s height binding spent [] result sorted h =
      rw (sym (check_inputs_nil s height binding spent result h)) (sorted, tt, λ j. ground arith)
  check_inputs_facts s height binding spent (i ∷ inputs) result sorted h =
      let (fresh, present, rest) = check_inputs_step s height binding spent i inputs result h in
      let (sorted', all, hold) =
        check_inputs_facts s height binding (SortedMap.insert i.commit tt spent) inputs result
          (insert-IsSorted i.commit tt spent sorted) rest in
      (sorted', (present, all), λ j. ground (arith, hold j, lookup-insert i.commit j tt spent))

  pub check_outputs_step :
      (utxos : UtxoSet Point) (ctx : List ℕ) (created : List (ℕ × Unit {0})) (o : Output)
      (outputs : List Output)
      → check_outputs c utxos ctx created (o ∷ outputs) ≡ ok tt
      → (SortedMap.lookup o.commit created ≡ none)
        × (SortedMap.lookup o.commit utxos.entries ≡ none)
        × (check_outputs c utxos ctx (SortedMap.insert o.commit tt created) outputs ≡ ok tt)
  unfolding check_outputs contains
  check_outputs_step utxos ctx created o outputs h = ground arith

  -- No output is in the set yet, nor among those before it.
  pub check_outputs_facts :
      (utxos : UtxoSet Point) (ctx : List ℕ) (created : List (ℕ × Unit {0})) (outputs : List Output)
      → check_outputs c utxos ctx created outputs ≡ ok tt
      → Absent utxos.entries (output_commits outputs)
  check_outputs_facts utxos ctx created [] h = tt
  check_outputs_facts utxos ctx created (o ∷ outputs) h =
      let (new, fresh, rest) = check_outputs_step utxos ctx created o outputs h in
      (fresh, check_outputs_facts utxos ctx (SortedMap.insert o.commit tt created) outputs rest)

  capture_spent_nil :
      (utxos : UtxoSet Point) (seen : List (ℕ × Unit {0})) (pairs : List (ℕ × UtxoEntry))
      → capture_spent c utxos seen [] ≡ ok pairs
      → [] ≡ pairs
  unfolding capture_spent
  capture_spent_nil utxos seen pairs h = ground arith

  capture_spent_step :
      (utxos : UtxoSet Point) (seen : List (ℕ × Unit {0})) (i : Input) (inputs : List Input)
      (pairs : List (ℕ × UtxoEntry))
      → capture_spent c utxos seen (i ∷ inputs) ≡ ok pairs
      → (rest : List (ℕ × UtxoEntry)) × (capture_spent c utxos
            (SortedMap.insert i.commit tt seen)
            inputs
          ≡ ok rest)
        × (entry : UtxoEntry) × (SortedMap.lookup i.commit utxos.entries ≡ some entry)
        × (pairs ≡ (i.commit, entry) ∷ rest)
  unfolding capture_spent get
  capture_spent_step utxos seen i inputs pairs h = ground arith

  -- The captured pairs are the entries of the inputs.
  pub capture_spent_facts :
      (utxos : UtxoSet Point) (seen : List (ℕ × Unit {0})) (inputs : List Input)
      (pairs : List (ℕ × UtxoEntry))
      → capture_spent c utxos seen inputs ≡ ok pairs
      → (keys pairs ≡ input_commits inputs) × Agree utxos.entries pairs
  unfolding keys
  capture_spent_facts utxos seen [] pairs h =
      rw (sym (capture_spent_nil utxos seen pairs h)) (ground arith, tt)
  capture_spent_facts utxos seen (i ∷ inputs) pairs h =
      let (rest, step, entry, present, shape) = capture_spent_step utxos seen i inputs pairs h in
      let (names, agree) =
        capture_spent_facts utxos (SortedMap.insert i.commit tt seen) inputs rest step in
      rw shape (rw names, (present, agree))
