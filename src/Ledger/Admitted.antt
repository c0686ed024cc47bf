-- ===== src/Ledger/Admitted.antt =====
-- Admission to the mempool against the checks of a block (crates/nightfall-ledger/src/lib.rs).
use nightfall.Common.{ℕ, ◌≡◌, refl, Bool, true, ◌||◌, List, [], ◌∷◌, is_some, arith}
use nightfall.Common.Result.{ok}
use nightfall.Common.SortedMap
use nightfall.Crypto.{Primitives}
use nightfall.Crypto.Output.{Output}
use nightfall.Tx.{Input, Transaction, has_full_binding, checked_fee_sum}
use nightfall.Tx.Checks.{
  shaped_outputs, proven_outputs, check_shape, verify_value_balance, verify_stateless_rules,
}
use nightfall.Utxo.{UtxoSet}
use nightfall.Ledger.{LedgerState, binding_active}
use nightfall.Ledger.Checks.{check_inputs, check_outputs}
use nightfall.Ledger.Admission.{absent_outputs, check_tx_acceptable}

module _ (c : Primitives) where
  open c use {Point}

  -- Input keys are checked on more occasions at admission than in a block.
  check_inputs_relaxed :
      (s : LedgerState Point) (height : ℕ) (binding full : Bool) (spent : List (ℕ × Unit {0}))
      (inputs : List Input) (result : List (ℕ × Unit {0}))
      → check_inputs c s height (binding || full) spent inputs ≡ ok result
      → check_inputs c s height binding spent inputs ≡ ok result
  unfolding check_inputs
  check_inputs_relaxed s height binding full spent [] result h = h
  check_inputs_relaxed s height binding full spent (i ∷ inputs) result h = ground (
    arith,
    check_inputs_relaxed s height binding full (SortedMap.insert i.commit tt spent) inputs result,
  )

  outputs_pass :
      (utxos : UtxoSet Point) (ctx : List ℕ) (seen : List (ℕ × Unit {0})) (outputs : List Output)
      → shaped_outputs c seen outputs ≡ ok tt
      → proven_outputs c ctx outputs ≡ ok tt
      → absent_outputs c utxos outputs ≡ ok tt
      → check_outputs c utxos ctx seen outputs ≡ ok tt
  unfolding shaped_outputs proven_outputs absent_outputs check_outputs
  outputs_pass utxos ctx seen [] h k l = refl
  outputs_pass utxos ctx seen (o ∷ outputs) h k l =
      ground (arith, outputs_pass utxos ctx (SortedMap.insert o.commit tt seen) outputs)

  stateless_facts :
      (tx : Transaction) (ctx : List ℕ) (binding : Bool)
      → verify_stateless_rules c tx ctx binding ≡ ok tt
      → (shaped_outputs c [] tx.outputs ≡ ok tt)
        × (proven_outputs c ctx tx.outputs ≡ ok tt)
        × (is_some (checked_fee_sum tx.kernels) ≡ true)
  unfolding verify_stateless_rules check_shape verify_value_balance
  stateless_facts tx ctx binding h = ground arith

  parts :
      (s : LedgerState Point) (tx : Transaction) (height : ℕ) (ctx : List ℕ)
      → check_tx_acceptable c s tx height ctx ≡ ok tt
      → (verify_stateless_rules c tx ctx (binding_active c s height) ≡ ok tt)
        × (spent : List (ℕ × Unit {0})) × (check_inputs c s height
              (binding_active c s height || has_full_binding tx)
              []
              tx.inputs
            ≡ ok spent)
        × (absent_outputs c s.utxos tx.outputs ≡ ok tt)
  unfolding check_tx_acceptable
  parts s tx height ctx h = ground arith

  -- A transaction that is admitted for a height passes what a block of that height asks of its
  -- inputs and outputs: the inputs exist, are mature, signed and distinct, and the outputs are well
  -- formed, proven, signed, distinct and new. Its fees add up without overflow.
  pub acceptable_passes :
      (s : LedgerState Point) (tx : Transaction) (height : ℕ) (ctx : List ℕ)
      → check_tx_acceptable c s tx height ctx ≡ ok tt
      → (spent : List (ℕ × Unit {0})) × (check_inputs c s height
            (binding_active c s height)
            []
            tx.inputs
          ≡ ok spent)
        × (check_outputs c s.utxos ctx [] tx.outputs ≡ ok tt)
        × (is_some (checked_fee_sum tx.kernels) ≡ true)
  acceptable_passes s tx height ctx h =
      let (stateless, spent, ins, absent) = parts s tx height ctx h in
      let (shaped, proven, fees) = stateless_facts tx ctx _ stateless in
      (
        spent,
        check_inputs_relaxed s height _ (has_full_binding tx) [] tx.inputs spent ins,
        outputs_pass s.utxos ctx [] tx.outputs shaped proven absent,
        fees,
      )
