-- ===== src/Mempool/Tests.antt =====
-- The mempool's properties, on a pool of one transaction.
use nightfall.Common.{ℕ, ◌+◌, ◌≤◌, ◌≡◌, ◌⊎◌, refl, some, true, false, List, [], ◌∷◌, length}
use nightfall.Common.SortedMap.{lookup}
use nightfall.Crypto.Toy.{toy}
use nightfall.Crypto.Commit.{Commitment}
use nightfall.Ledger.Examples.{locked_tx, spending}
use nightfall.Tx.{Transaction}
use nightfall.Tx.Ids.{txid}
use nightfall.Chain.{Block}
use nightfall.Chain.Examples.{second_block}
use nightfall.Mempool.{
  Mempool, InsertOutcome, added, conflict, default_pool, insert_checked, holds, input_set,
  output_set, touches, outlives, remove_included, select_for_block,
}
use nightfall.Mempool.Pool.{IsPool, spends}
use nightfall.Mempool.Removal.{remove_included_lem}
use nightfall.Mempool.Select.{Among, Free, Falling, spent_by}
use nightfall.Mempool.Best.{held, select_for_block_lem}
use nightfall.Mempool.Life.{start, offered, Reachable-IsPool}

abbrev one_held : Mempool
one_held = record { txs = (1864, locked_tx) ∷ []; seen = (1864, 100) ∷ [] }

-- The same inputs, and no outputs.
abbrev rival : Transaction
rival = record locked_tx { outputs = [] }

-- A block that spends the input.
abbrev spending_block : Block
spending_block = record second_block { body = spending }

first_offered : insert_checked toy default_pool locked_tx 100 ≡ (one_held, added)
unfolding nightfall.Common.SortedMap.insert nightfall.Common.SortedMap.lookup
    nightfall.Common.SortedMap.remove nightfall.Common.SortedMap.retain
    nightfall.Common.Words.be_bytes nightfall.Common.Words.le_bytes nightfall.Crypto.Hashing.frame
    nightfall.Crypto.Hashing.frame_part nightfall.Crypto.Hashing.frame_parts
    nightfall.Crypto.Hashing.hash_multi nightfall.Crypto.Kernel.signing_message
    nightfall.Crypto.Output.byte nightfall.Crypto.Output.commitment_bytes
    nightfall.Mempool.conflicts nightfall.Mempool.expire nightfall.Mempool.holds
    nightfall.Mempool.input_set nightfall.Mempool.insert_checked nightfall.Mempool.live
    nightfall.Mempool.replace nightfall.Mempool.settle_conflicts nightfall.Mempool.take_in
    nightfall.Mempool.touches nightfall.Mempool.upgrades nightfall.Mempool.young
    nightfall.Tx.Ids.legacy_txid nightfall.Tx.Ids.sort_inputs nightfall.Tx.Ids.txid nightfall.Tx.all
    nightfall.Tx.any nightfall.Tx.any_binding nightfall.Tx.has_binding nightfall.Tx.has_full_binding
    nightfall.Tx.kernel_bound
first_offered = refl

rival_offered : insert_checked toy one_held rival 160 ≡ (one_held, conflict)
unfolding nightfall.Common.SortedMap.insert nightfall.Common.SortedMap.lookup
    nightfall.Common.SortedMap.remove nightfall.Common.SortedMap.retain
    nightfall.Common.Words.be_bytes nightfall.Common.Words.le_bytes nightfall.Crypto.Hashing.frame
    nightfall.Crypto.Hashing.frame_part nightfall.Crypto.Hashing.frame_parts
    nightfall.Crypto.Hashing.hash_multi nightfall.Crypto.Kernel.signing_message
    nightfall.Crypto.Output.byte nightfall.Crypto.Output.commitment_bytes
    nightfall.Mempool.conflicts nightfall.Mempool.expire nightfall.Mempool.holds
    nightfall.Mempool.input_set nightfall.Mempool.insert_checked nightfall.Mempool.live
    nightfall.Mempool.replace nightfall.Mempool.settle_conflicts nightfall.Mempool.take_in
    nightfall.Mempool.touches nightfall.Mempool.upgrades nightfall.Mempool.young
    nightfall.Tx.Ids.legacy_txid nightfall.Tx.Ids.sort_inputs nightfall.Tx.Ids.txid nightfall.Tx.all
    nightfall.Tx.any nightfall.Tx.any_binding nightfall.Tx.has_binding nightfall.Tx.has_full_binding
    nightfall.Tx.kernel_bound
rival_offered = refl

Reachable-IsPool_example : IsPool toy one_held
Reachable-IsPool_example = Reachable-IsPool toy one_held (offered start locked_tx 100 first_offered)

one_held-IsPool : IsPool toy one_held
one_held-IsPool = Reachable-IsPool toy one_held (offered start locked_tx 100 first_offered)

remove_included_example :
    IsPool toy (remove_included one_held spending_block)
    × ((id : ℕ) (tx : Transaction) (k : Commitment)
        → lookup id (remove_included one_held spending_block).txs ≡ some tx
        → (lookup id one_held.txs ≡ some tx)
          × (holds (input_set spending_block.body.inputs) k ≡ true → spends tx k ≡ false)
          × (holds (output_set spending_block.body.outputs) k ≡ true
              → holds (output_set tx.outputs) k ≡ false))
    × ((id : ℕ) (tx : Transaction)
        → lookup id one_held.txs ≡ some tx
        → outlives spending_block tx ≡ true
        → lookup id (remove_included one_held spending_block).txs ≡ some tx)
remove_included_example = remove_included_lem toy one_held spending_block one_held-IsPool

select_for_block_example :
    (length (select_for_block toy one_held 1) ≤ 1)
    × Free [] (select_for_block toy one_held 1)
    × Falling (select_for_block toy one_held 1)
    × ((t : Transaction) → Among t (select_for_block toy one_held 1) → Among t (held one_held))
    × ((t : Transaction)
        → Among t (held one_held)
        → Among t (select_for_block toy one_held 1)
          ⊎ ((length (select_for_block toy one_held 1) ≡ 1)
              ⊎ (touches (spent_by (select_for_block toy one_held 1)) (input_set t.inputs) ≡ true)))
select_for_block_example = select_for_block_lem toy one_held 1
