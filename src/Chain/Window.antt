-- ===== src/Chain/Window.antt =====
-- The bodies that a chain of crates/nightfall-consensus/src/lib.rs still holds, its undo window, and
-- pruning.
use nightfall.Common.{
  ℕ, ◌+◌, ◌-◌, none, some, Option, List, [], ◌∷◌, leb, ltb, ◌==◌, length, take, drop, reverse,
  get_elem?, min, max, if◌then◌else◌,
}
use nightfall.Common.Result.{Result, ok, err}
use nightfall.Common.Words.{saturating_add128}
use nightfall.Emission.{EmissionSchedule, reward_at}
use nightfall.Crypto.{Primitives}
use nightfall.Ledger.{LedgerState, for_network}
use nightfall.Ledger.Replay.{apply_block_state_only}
use nightfall.Chain.{Chain, Block, PrunedBase, TipUndo, ConsensusError, work, hash}

unfoldable pub work_sum : List TipUndo → ℕ
work_sum [] = 0
work_sum (u ∷ undos) = u.work + work_sum undos

module _ (c : Primitives) where
  open c use {Point}

  unfoldable pub block_by_height : Chain Point → ℕ → Option Block
  block_by_height ch height =
      if ltb height ch.first_height
      then none
      else elim (get_elem? ch.blocks (height - ch.first_height)) [
        | none ↦ none
        | some b ↦ if b.header.height == height then some b else none
      ]

  unfoldable pub hash_at : Chain Point → ℕ → Option ℕ
  hash_at ch height = elim (get_elem? ch.headers height) [
    | some h ↦ some h.hash
    | none ↦ elim (block_by_height ch height) [ some b ↦ some (hash c b) | none ↦ none ]
  ]

  unfoldable pub blocks_from : Chain Point → ℕ → ℕ → List Block
  blocks_from ch start_height limit =
      if ltb start_height ch.first_height
      then []
      else take limit (drop (start_height - ch.first_height) ch.blocks)

  unfoldable pub bodies_through : Chain Point → ℕ → Option (List Block)
  bodies_through ch height =
      if ch.first_height == 0
      then some (take (min (height + 1) (length ch.blocks)) ch.blocks)
      else if ltb height (ch.first_height - 1)
      then none
      else if height == ch.first_height - 1
      then some []
      else if ltb height ch.first_height
      then none
      else if leb (length ch.blocks) (height - ch.first_height)
      then none
      else some (take (height - ch.first_height + 1) ch.blocks)

  unfoldable pub pruned_base : Chain Point → Option (PrunedBase Point)
  pruned_base ch = if ch.first_height == 0 then none else elim ch.horizon [
    | none ↦ none
    | some horizon ↦ some (record {
      first_height = ch.first_height;
      horizon = horizon;
      horizon_work = ch.horizon_work;
      headers = take ch.first_height ch.headers;
    })
  ]

  unfoldable pub rewound_work : Chain Point → ℕ → Option ℕ
  rewound_work ch rewind =
      if ltb (length ch.undos) rewind
      then none
      else some (work_sum (take rewind (reverse ch.undos)))

  -- The loop of `prune_keep`: the horizon and its work, over the blocks that are dropped. A failure
  -- ends it and leaves what was reached.
  unfoldable pub advance_horizon :
      EmissionSchedule
      → List Block
      → LedgerState Point
      → ℕ
      → (LedgerState Point × ℕ) × Result ConsensusError (Unit {0})
  advance_horizon emission [] horizon horizon_work = ((horizon, horizon_work), ok tt)
  advance_horizon emission (b ∷ blocks) horizon horizon_work =
      elim (apply_block_state_only c horizon b.body b.header.height
        (reward_at emission b.header.height horizon.supply.total_minted_darks)) [
          | err e ↦ ((horizon, horizon_work), err (ConsensusError.ledger e))
          | ok after ↦
              advance_horizon emission blocks after (saturating_add128 horizon_work (work b))
        ]

  -- A chain without a horizon starts from the network's genesis, and its work from 0.
  unfoldable pub horizon_start : Chain Point → LedgerState Point × ℕ
  horizon_start ch = elim ch.horizon [
    | none ↦ (for_network c ch.network, 0)
    | some horizon ↦ (horizon, ch.horizon_work)
  ]

  unfoldable pub prune_keep : Chain Point → ℕ → Chain Point × Result ConsensusError ℕ
  prune_keep ch keep =
      let kept = max keep 1 in
      let drop_n = length ch.blocks - kept in
      if leb (length ch.blocks) kept
      then (ch, ok 0)
      else let (start, start_work) = horizon_start ch in
        let (moved, result) =
          advance_horizon ch.emission (take drop_n ch.blocks) start start_work in
        let ch' : Chain Point = record ch { horizon = some moved.0; horizon_work = moved.1 } in
        elim result [
          | err e ↦ (ch', err e)
          | ok _ ↦ (
            record ch' { blocks = drop drop_n ch.blocks; first_height = ch.first_height + drop_n },
            ok drop_n,
          )
        ]
