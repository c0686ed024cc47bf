-- ===== src/Chain/Tests.antt =====
-- The chain's properties at the example blocks.
use nightfall.Common.{
  ℕ, ◌+◌, ◌^◌, ◌<◌, ◌≤◌, ◌≡◌, ◌⊎◌, refl, Bool, some, true, false, [], ◌∷◌, arith, take, get_elem?,
}
use nightfall.Common.Result.{Result, ok, err}
use nightfall.Common.Int.{ℤ}
use nightfall.Crypto.Toy.{toy}
use nightfall.Types.{devnet, testnet}
use nightfall.Ledger.{LedgerState, StateUndo, verify_supply}
use nightfall.Ledger.History.{for_network-IsSummed}
use nightfall.Chain.Template.{seal}
use nightfall.Chain.Sealed.{apply_block-seal}
use nightfall.Chain.Mining.{
  coinbase_tx, testnet_chain, template, template_built, binds, pays, no_median, clock_and_nonce,
}
use nightfall.Pow.{block_work}
use nightfall.Chain.{header_work, Chain, Block, ConsensusError, bad_height, tip_hash, hash_chain}
use nightfall.Chain.Apply.{extend, apply_block, apply_block_inner}
use nightfall.Chain.Window.{pruned_base}
use nightfall.Chain.Suffix.{SuffixTrial, apply_each, prepare_suffix_trial}
use nightfall.Chain.Reorg.{rebuild_candidate}
use nightfall.Chain.Linked.{headers_work}
use nightfall.Chain.Shape.{IsChain}
use nightfall.Chain.Refused.{apply_block_inner_refused}
use nightfall.Chain.Accepted.{apply_block_inner-IsChain}
use nightfall.Chain.Trial.{prepare-apply_each}
use nightfall.Chain.Heavier.{splice-finish_suffix, maybe_reorg_to_lem}
use nightfall.Chain.Ingest.{try_ingest_blocks_lem}
use nightfall.Chain.Rebuilt.{fresh-IsChain}
use nightfall.Chain.Examples.{
  fresh_chain, one_block, two_blocks, first_block, second_block, trial_at_tip, longer,
}
use nightfall.Chain.Runs.{
  fresh_made, first_accepted, second_accepted, first_again_refused, suffix_applied, suffix_finished,
  suffix_spliced, longer_adopted, second_ingested,
}

fresh-IsChain_fact : IsChain toy 0 fresh_chain
fresh-IsChain_fact = fresh-IsChain toy devnet fresh_chain fresh_made

first_inner : apply_block_inner toy fresh_chain first_block 120 true ≡ (one_block, ok tt)
unfolding apply_block
first_inner = first_accepted

second_inner : apply_block_inner toy one_block second_block 120 true ≡ (two_blocks, ok tt)
unfolding apply_block
second_inner = second_accepted

one-IsChain : IsChain toy 0 one_block
one-IsChain =
    apply_block_inner-IsChain toy 0 fresh_chain one_block first_block 120 true (ok tt)
      fresh-IsChain_fact first_inner

apply_block_inner_refused_example : one_block ≡ one_block
apply_block_inner_refused_example =
    apply_block_inner_refused toy one_block one_block first_block 120 true bad_height
      one-IsChain.summed first_again_refused

apply_block_inner-IsChain_example : IsChain toy 0 two_blocks
apply_block_inner-IsChain_example =
    apply_block_inner-IsChain toy 0 one_block two_blocks second_block 120 true (ok tt) one-IsChain
      second_inner

two_light : headers_work two_blocks.headers < 2 ^ 128
unfolding headers_work header_work block_work
two_light = omega arith

prepare-apply_each_example :
    (t : SuffixTrial ℤ) × (prepare_suffix_trial toy two_blocks 0 ≡ ok t)
    × (t.trial.ledger ≡ one_block.ledger)
    × (t.trial.headers ≡ one_block.headers)
    × (t.trial.total_work ≡ 60)
    × (t.rewind ≡ 1)
    × (t.our_work ≡ 120)
prepare-apply_each_example =
    prepare-apply_each toy 0 0 one_block two_blocks (second_block ∷ []) 120 one-IsChain refl
      suffix_applied (omega arith) (omega arith) two_light

splice-finish_suffix_example :
    (60 < 120)
    × ((run : Chain ℤ) × (apply_each toy trial_at_tip.trial (second_block ∷ []) 120 ≡ ok run)
        × (two_blocks.ledger ≡ run.ledger)
        × (two_blocks.headers ≡ run.headers)
        × (120 ≡ run.total_work)
        × (tip_hash toy one_block ≡ 1947)
        × (60 < 120)
        × (2 ≤ 500))
splice-finish_suffix_example =
    splice-finish_suffix toy trial_at_tip (second_block ∷ []) 120 longer one_block two_blocks true
      suffix_finished suffix_spliced

maybe_reorg_to_example :
    (two_blocks ≡ one_block)
    ⊎ ((◌≡◌ {A = Result ConsensusError Bool} (ok true) (ok true))
        × (60 < 120)
        × (verify_supply toy two_blocks.ledger ≡ ok tt)
        × (rebuild_candidate toy false devnet
              (hash_chain toy one_block)
              (pruned_base toy one_block)
              (first_block ∷ second_block ∷ [])
              120
            ≡ ok two_blocks))
maybe_reorg_to_example =
    maybe_reorg_to_lem toy false one_block two_blocks (first_block ∷ second_block ∷ []) 120
      (ok true) longer_adopted

try_ingest_blocks_example :
    IsChain toy 0 two_blocks
    × ((k : ℕ) × (1 ≡ 0 + k)
        × (k ≤ 2)
        × (apply_each toy one_block (take k (second_block ∷ first_block ∷ [])) 120 ≡ ok two_blocks)
        × ((k ≡ 2)
            ⊎ ((b : Block) × (get_elem? (second_block ∷ first_block ∷ []) k ≡ some b)
                × (e : ConsensusError) × (apply_block toy two_blocks b 120 ≡ (two_blocks, err e)))))
try_ingest_blocks_example =
    try_ingest_blocks_lem toy 0 one_block two_blocks (second_block ∷ first_block ∷ []) 120 (ok 1)
      one-IsChain second_ingested

apply_block-seal_example :
    (trial : LedgerState ℤ) × (undo : StateUndo) × (apply_block toy testnet_chain
        (seal template 7)
        120
      ≡ (extend toy testnet_chain trial (seal template 7) undo, ok tt))
apply_block-seal_example =
    apply_block-seal toy coinbase_tx testnet_chain [] 100 7 120 0 template
      (for_network-IsSummed toy testnet) template_built binds pays no_median clock_and_nonce
