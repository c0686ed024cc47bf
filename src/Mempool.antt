-- ===== src/Mempool.antt =====
-- crates/nightfall-consensus/src/lib.rs, `Mempool`: the transactions that wait for a block.
--
-- The two hash maps are kept as lists in ascending order of the transaction id, which no operation
-- can tell: the order decides nothing but the order of `unacceptable_ids`. An id stands for its hex
-- text. The clock is an argument, in u64 seconds. A method on `&mut self` returns the new pool.
pub mod Pool
pub mod Put
pub mod Conflict
pub mod Insert
pub mod Removal
pub mod Select
pub mod Best
pub mod Life
mod Tests
use nightfall.Common.{
  ◌*◌, ℕ, ◌-◌, Bool, true, false, not, ◌&&◌, ◌||◌, none, some, Option, List, [], ◌∷◌, ◌++◌, map,
  leb, ltb, ◌==◌, length, is_some, if◌then◌else◌,
}
use nightfall.Common.SortedMap
use nightfall.Crypto.{Primitives}
use nightfall.Crypto.Commit.{Commitment}
use nightfall.Crypto.Output.{Output}
use nightfall.Tx.{Input, Transaction, any, checked_fee_sum, has_full_binding}
use nightfall.Tx.Ids.{txid, legacy_txid}
use nightfall.Chain.{Block}

abbrev pub max_entries : ℕ
max_entries = 10000

abbrev pub max_age_secs : ℕ
max_age_secs = 6 * 3600

pub data InsertOutcome : Type 0 where
  added known conflict full : InsertOutcome

pub record Mempool : Type 0 where
  pub txs : List (ℕ × Transaction)
  pub seen : List (ℕ × ℕ)

abbrev pub default_pool : Mempool
default_pool = record { txs = []; seen = [] }

-- Membership in a set of commitments.
unfoldable pub holds : List Commitment → Commitment → Bool
holds [] k = false
holds (j ∷ js) k = j == k || holds js k

unfoldable pub input_set : List Input → List Commitment
input_set inputs = map (λ i. i.commit) inputs

unfoldable pub output_set : List Output → List Commitment
output_set outputs = map (λ o. o.commit) outputs

-- `inputs.iter().any(|i| set.contains(&i.commit.0))`.
unfoldable pub touches : List Commitment → List Commitment → Bool
touches set [] = false
touches set (k ∷ ks) = holds set k || touches set ks

unfoldable pub first_seen : Mempool → ℕ → Option ℕ
first_seen pool id = SortedMap.lookup id pool.seen

-- The index of times, less the ids that are not held.
unfoldable pub live : List (ℕ × Transaction) → List (ℕ × ℕ) → List (ℕ × ℕ)
live txs seen = SortedMap.retain (λ id at. is_some (SortedMap.lookup id txs)) seen

unfoldable pub young : List (ℕ × ℕ) → ℕ → ℕ → Bool
young seen cutoff id = elim (SortedMap.lookup id seen) [ none ↦ true | some t ↦ ltb cutoff t ]

unfoldable pub expire : Mempool → ℕ → Mempool × ℕ
expire pool now_unix =
    let txs = SortedMap.retain (λ id tx. young pool.seen (now_unix - max_age_secs) id) pool.txs in
    (record { txs = txs; seen = live txs pool.seen }, length pool.txs - length txs)

-- `drop_ids` counts what it removed.
unfoldable pub drop_each : Mempool → List ℕ → Mempool
drop_each pool [] = pool
drop_each pool (id ∷ ids) =
    drop_each (record { txs = SortedMap.remove id pool.txs; seen = SortedMap.remove id pool.seen })
      ids

unfoldable pub drop_ids : Mempool → List ℕ → Mempool × ℕ
drop_ids pool ids = let after = drop_each pool ids in (after, length pool.txs - length after.txs)

unfoldable pub unacceptable_ids : Mempool → (Transaction → Bool) → List ℕ
unacceptable_ids pool acceptable =
    map (λ e. e.0) (SortedMap.retain (λ id tx. not (acceptable tx)) pool.txs)

-- Kept by a block: nothing of it is spent there and nothing of it stands there.
unfoldable pub outlives : Block → Transaction → Bool
outlives block tx =
    not (touches (input_set block.body.inputs) (input_set tx.inputs))
    && not (touches (output_set block.body.outputs) (output_set tx.outputs))

unfoldable pub remove_included : Mempool → Block → Mempool
remove_included pool block =
    let txs = SortedMap.retain (λ id tx. outlives block tx) pool.txs in
    record { txs = txs; seen = live txs pool.seen }

unfoldable pub fee_of : Transaction → ℕ
fee_of tx = elim (checked_fee_sum tx.kernels) [ none ↦ 0 | some fee ↦ fee ]

-- The loop of `select_for_block`.
unfoldable pub choose : List Transaction → ℕ → List Transaction → List Commitment → List Transaction
choose [] max chosen spent = chosen
choose (tx ∷ candidates) max chosen spent =
    let skip = touches spent (input_set tx.inputs) in
    let rest =
      choose candidates max (if skip then chosen else chosen ++ tx ∷ [])
        (if skip then spent else spent ++ input_set tx.inputs) in
    if leb max (length chosen) then chosen else rest

-- The held transactions that spend an input of this one.
unfoldable pub conflicts : Mempool → Transaction → List (ℕ × Transaction)
conflicts pool tx =
    SortedMap.retain (λ id held. touches (input_set tx.inputs) (input_set held.inputs)) pool.txs

module _ (c : Primitives) where
  -- Before in the order of the candidates: the higher fee, and then the lower id.
  unfoldable pub precedes : Transaction → Transaction → Bool
  precedes a b = ltb (fee_of b) (fee_of a) || (fee_of a == fee_of b && leb (txid c a) (txid c b))

  unfoldable pub insert_candidate : Transaction → List Transaction → List Transaction
  insert_candidate tx [] = tx ∷ []
  insert_candidate tx (t ∷ ts) = if precedes tx t then tx ∷ t ∷ ts else t ∷ insert_candidate tx ts

  unfoldable pub sort_candidates : List Transaction → List Transaction
  sort_candidates [] = []
  sort_candidates (tx ∷ txs) = insert_candidate tx (sort_candidates txs)

  unfoldable pub select_for_block : Mempool → ℕ → List Transaction
  select_for_block pool max = choose (sort_candidates (map (λ e. e.1) pool.txs)) max [] []

  -- The same spend with its binding fields, after a relay dropped them.
  unfoldable pub upgrades : Transaction → Transaction → Bool
  upgrades held tx =
      not (has_full_binding held) && (has_full_binding tx && legacy_txid c held == legacy_txid c tx)

  -- In the place of another, with the time of that one.
  unfoldable pub replace : Mempool → ℕ → Transaction → ℕ → Mempool
  replace pool id tx now_unix =
      let first : ℕ = elim (SortedMap.lookup id pool.seen) [ some t ↦ t | none ↦ now_unix ] in
      record {
        txs = SortedMap.insert (txid c tx) tx (SortedMap.remove id pool.txs);
        seen = SortedMap.insert (txid c tx) first (SortedMap.remove id pool.seen);
      }

  unfoldable pub settle_conflicts :
      Mempool → Transaction → ℕ → List (ℕ × Transaction) → Mempool × InsertOutcome
  settle_conflicts pool tx now_unix [] = (
    record {
      txs = SortedMap.insert (txid c tx) tx pool.txs;
      seen = elim (SortedMap.lookup (txid c tx) pool.seen) [
        | some t ↦ pool.seen
        | none ↦ SortedMap.insert (txid c tx) now_unix pool.seen
      ];
    },
    added,
  )
  settle_conflicts pool tx now_unix ((id, held) ∷ []) =
      if upgrades held tx then (replace pool id tx now_unix, added) else (pool, conflict)
  settle_conflicts pool tx now_unix (a ∷ b ∷ more) = (pool, conflict)

  unfoldable pub take_in : Mempool → Transaction → ℕ → Mempool × InsertOutcome
  take_in pool tx now_unix =
      if is_some (SortedMap.lookup (txid c tx) pool.txs)
      then (pool, known)
      else settle_conflicts pool tx now_unix (conflicts pool tx)

  -- A full pool is swept before it refuses.
  unfoldable pub insert_checked : Mempool → Transaction → ℕ → Mempool × InsertOutcome
  insert_checked pool tx now_unix =
      let swept = (expire pool now_unix).0 in
      if not (leb max_entries (length pool.txs))
      then take_in pool tx now_unix
      else if leb max_entries (length swept.txs)
      then (swept, full)
      else take_in swept tx now_unix

  unfoldable pub insert : Mempool → Transaction → ℕ → Mempool × Bool
  insert pool tx now_unix =
      let (after, outcome) = insert_checked pool tx now_unix in
      (after, elim outcome [ added ↦ true | known ↦ false | conflict ↦ false | full ↦ false ])
