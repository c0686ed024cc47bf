-- ===== src/Ledger/History.antt =====
-- The states that `apply_block` of crates/nightfall-ledger/src/lib.rs reaches from a network's
-- genesis.
use nightfall.Common.{ℕ, ◌≤◌, ◌≡◌, ◌∙◌, sym, refl, List, arith}
use nightfall.Common.Result.{Result, ok, err}
use nightfall.Types.{NetworkId, max_supply_darks}
use nightfall.Crypto.{Primitives}
use nightfall.Crypto.Commit.{point, identity_commitment, commit_public_value}
use nightfall.Crypto.Group.{minus_eq, add_cancel, identity_add}
use nightfall.Body.{BlockBody}
use nightfall.Utxo.{new, commitment_sum, circulating}
use nightfall.Utxo.Running.{IsSummed, new-IsSummed}
use nightfall.Utxo.Supply.{default_kernels, supply_equation_holds, verify_supply_invariant}
use nightfall.Ledger.{LedgerState, LedgerError, genesis, for_network, verify_supply}
use nightfall.Ledger.Apply.{apply_block}
use nightfall.Ledger.Atomic.{apply_block_refused, accepted_verifies}
use nightfall.Ledger.Mint.{accepted_supply}

module _ (c : Primitives) where
  open c use {
    Point, identity, add, add_identity, base, scale, scalar_from, scale-add, point_eq_iff,
    decompress-compress,
  }

  -- Any block may be offered at any time, with any height, subsidy and context.
  pub data Reachable (network : NetworkId) : LedgerState Point → Type 0 where
    start : Reachable network (for_network c network)
    offered :
        {s after : LedgerState Point} {result : Result LedgerError (Unit {0})}
        → Reachable network s
        → (body : BlockBody) (height reward : ℕ) (ctx : List ℕ)
        → apply_block c s body height reward ctx ≡ (after, result)
        → Reachable network after

  -- No coins commit to nothing.
  no_coins : commit_public_value c 0 ≡ identity
  unfolding commit_public_value
  no_coins =
      add_cancel c _ identity (scale base (scalar_from 0))
        (sym (scale-add base 0 0) ∙ sym (identity_add c _))

  genesis_verifies : (network : NetworkId) → verify_supply c (for_network c network) ≡ ok tt
  unfolding for_network genesis verify_supply verify_supply_invariant supply_equation_holds
      default_kernels identity_commitment point new commitment_sum circulating
  genesis_verifies network = ground (
    arith,
    decompress-compress identity,
    minus_eq c identity identity identity (sym (add_identity identity)),
    no_coins,
    (point_eq_iff identity identity).1 refl,
  )

  -- What holds of every state on the way.
  pub record IsSound (s : LedgerState Point) : Type 0 where
    pub summed : IsSummed c s.utxos
    pub verified : verify_supply c s ≡ ok tt
    pub capped : s.supply.total_minted_darks ≤ max_supply_darks

  pub for_network-IsSummed : (network : NetworkId) → IsSummed c (for_network c network).utxos
  unfolding for_network genesis
  for_network-IsSummed network = new-IsSummed c

  start-IsSound : (network : NetworkId) → IsSound (for_network c network)
  unfolding for_network genesis
  start-IsSound network = record {
    summed = new-IsSummed c;
    verified = genesis_verifies network;
    capped = omega arith;
  }

  offered-IsSound :
      (s after : LedgerState Point) (result : Result LedgerError (Unit {0})) (body : BlockBody)
      (height reward : ℕ) (ctx : List ℕ)
      → IsSound s
      → apply_block c s body height reward ctx ≡ (after, result)
      → IsSound after
  offered-IsSound s after (err e) body height reward ctx sound h =
      rw (apply_block_refused c s after body height reward ctx e sound.summed h) sound
  offered-IsSound s after (ok tt) body height reward ctx sound h =
      let (summed, verified) = accepted_verifies c s after body height reward ctx sound.summed h in
      record {
        summed = summed;
        verified = verified;
        capped = (accepted_supply c s after body height reward ctx sound.summed h).2;
      }

  -- Whatever blocks a ledger is offered from genesis on, in whatever order and whether they are
  -- accepted or refused, the running values of its set are kept up, its supply equation holds, and no
  -- more than the cap was ever minted.
  pub Reachable-IsSound :
      (network : NetworkId) (s : LedgerState Point) → Reachable network s → IsSound s
  Reachable-IsSound network _ start = start-IsSound network
  Reachable-IsSound network _ (offered {s} {after} {result} r body height reward ctx h) =
      offered-IsSound s after result body height reward ctx (Reachable-IsSound network s r) h
