-- ===== src/Ledger/Tests.antt =====
-- The ledger's properties at the example blocks.
use nightfall.Common.{ℕ, ◌≡◌, ◌+◌, ◌≤◌, ltb, if◌then◌else◌, refl, none, some, [], true}
use nightfall.Common.Result.{ok, err}
use nightfall.Crypto.Kernel.{TxKernel}
use nightfall.Crypto.Toy.{toy}
use nightfall.Body.{default_body}
use nightfall.Ledger.{empty_block}
use nightfall.Ledger.Apply.{effective, validate, commit, apply_block, settle}
use nightfall.Common.SortedMap
use nightfall.Body.{total_fee, coinbase_kernels}
use nightfall.Ledger.{binding_active}
use nightfall.Ledger.Checks.{check_outputs, check_inputs, find_coinbase, coinbase_due}
use nightfall.Ledger.Apply.{created_entries}
use nightfall.Ledger.{rewind}
use nightfall.Types.{max_supply_darks}
use nightfall.Ledger.Replay.{apply_block_state_only}
use nightfall.Ledger.Batch.{has}
use nightfall.Ledger.Facts.{Absent, input_commits, output_commits}
use nightfall.Ledger.Rewind.{rewind-commit}
use nightfall.Ledger.Accept.{Removable, settle-commit}
use nightfall.Ledger.Atomic.{apply_block_lem, apply_block_refused}
use nightfall.Ledger.Mint.{accepted_supply, accepted_coinbase}
use nightfall.Ledger.Spends.{or_else, accepted_set}
use nightfall.Ledger.Agreement.{state_only_agrees}
use nightfall.Types.{mainnet}
use nightfall.Ledger.History.{IsSound, start, offered, Reachable-IsSound}
use nightfall.Common.{All, List, is_some, true, some}
use nightfall.Tx.{checked_fee_sum, checked_fee_fold}
use nightfall.Ledger.{binding_active}
use nightfall.Ledger.Checks.{check_inputs, check_outputs}
use nightfall.Ledger.Locks.{IsUnlocked, accepted_kernels}
use nightfall.Ledger.Admitted.{acceptable_passes}
use nightfall.Ledger.Examples.{locked_tx, locked_admitted}
use nightfall.Ledger.Examples.{
  before, spending, spending_undo, spending_staged, after, before-IsSummed, spending_valid,
  spending_applies, empty_refused, first_block, first_state, first_applies,
}

rewind-commit_example :
    rewind toy (commit toy before spending 1 spending_staged) spending_undo ≡ before
rewind-commit_example =
    rewind-commit toy before spending 1 5 [] spending_staged before-IsSummed spending_valid

settle-commit_example :
    settle toy (commit toy before spending 1 spending_staged) spending_undo
    ≡ (commit toy before spending 1 spending_staged, ok tt)
settle-commit_example =
    settle-commit toy before spending 1 5 [] spending_staged before-IsSummed spending_valid

apply_block_example :
    apply_block toy before spending 1 5 []
    ≡ elim (validate toy before (effective toy before spending 1) 1 5 []) [
      | err e ↦ (before, err e)
      | ok staged ↦ (commit toy before (effective toy before spending 1) 1 staged, ok tt)
    ]
apply_block_example = apply_block_lem toy before spending 1 5 [] before-IsSummed

apply_block_refused_example : before ≡ before
apply_block_refused_example =
    apply_block_refused toy before before default_body 1 5 [] empty_block before-IsSummed
      empty_refused

accepted_supply_example :
    (9 ≡ 4 + 5)
    × (1 ≡ 0 + (if ltb 0 5 then total_fee (effective toy before spending 1) else 0))
    × (9 ≤ max_supply_darks)
accepted_supply_example =
    accepted_supply toy before after spending 1 5 [] before-IsSummed spending_applies

accepted_coinbase_example :
    (coinbase_kernels (effective toy before spending 1) ≡ 1)
    × (coinbase : TxKernel) × (find_coinbase (effective toy before spending 1).kernels
        ≡ some coinbase)
    × (coinbase.reward_darks ≡ coinbase_due 5 (total_fee (effective toy before spending 1)))
    × (coinbase.lock_height ≡ 1)
accepted_coinbase_example =
    accepted_coinbase toy before after spending 1 5 [] before-IsSummed spending_applies

accepted_set_example :
    Removable before.utxos.entries (input_commits (effective toy before spending 1).inputs)
    × Absent before.utxos.entries (output_commits (effective toy before spending 1).outputs)
    × ((j : ℕ)
        → SortedMap.lookup j after.utxos.entries
          ≡ or_else
              (SortedMap.lookup j (created_entries 1 (effective toy before spending 1).outputs))
              (if has j (input_commits (effective toy before spending 1).inputs)
                then none
                else SortedMap.lookup j before.utxos.entries))
accepted_set_example =
    accepted_set toy before after spending 1 5 [] before-IsSummed spending_applies

state_only_agrees_example : apply_block_state_only toy before spending 1 5 ≡ ok after
state_only_agrees_example =
    state_only_agrees toy before after spending 1 5 [] before-IsSummed spending_applies

Reachable-IsSound_example : IsSound toy first_state
Reachable-IsSound_example =
    Reachable-IsSound toy mainnet first_state (offered start first_block 1 5 [] first_applies)

accepted_kernels_example : All (IsUnlocked toy 1) (effective toy before spending 1).kernels
accepted_kernels_example =
    accepted_kernels toy before after spending 1 5 [] before-IsSummed spending_applies

acceptable_passes_example :
    (spent : List (ℕ × Unit {0})) × (check_inputs toy before 1
        (binding_active toy before 1)
        []
        locked_tx.inputs
      ≡ ok spent)
    × (check_outputs toy before.utxos [] [] locked_tx.outputs ≡ ok tt)
    × (is_some (checked_fee_sum locked_tx.kernels) ≡ true)
acceptable_passes_example = acceptable_passes toy before locked_tx 1 [] locked_admitted

one : checked_fee_sum spending.kernels ≡ some 1
unfolding checked_fee_sum checked_fee_fold
one = refl
