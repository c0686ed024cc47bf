-- ===== src/Utxo.antt =====
-- crates/nightfall-ledger/src/utxo.rs: the UTXO set with its running sum, the kernel accumulator,
-- the supply counters and the supply equation.
--
-- `BTreeMap` is the sorted list of its entries. A point of `sum` belongs to the primitives; the
-- counters are machine words that stay far below their range, and `saturating_sub` is `-`.
pub mod Walk
pub mod Running
pub mod Drift
pub mod Supply
pub mod Root
pub mod RootTotal
pub mod RootBinds
mod Tests
use nightfall.Common.{
  ℕ, zero, suc, ◌+◌, ◌-◌, ◌*◌, ◌≡◌, Bool, true, false, not, none, some, Option, List, [], ◌∷◌, ◌==◌,
  if◌then◌else◌, ltb, leb, is_some, length,
}
use nightfall.Common.Words.{checked_add, saturating_add}
use nightfall.Common.SortedMap
use nightfall.Types.{NetworkId, mainnet, testnet, devnet, max_supply_darks}
use nightfall.Crypto.{Primitives}
use nightfall.Crypto.Group.{minus}
use nightfall.Crypto.Commit.{
  Commitment, point, from_point, identity_commitment, commit_public_value,
}

pub record UtxoEntry : Type 0 where
  pub output_pk : ℕ
  pub height : ℕ
  pub is_coinbase : Bool

abbrev pub default_maturity : ℕ
default_maturity = 1_440

unfoldable pub coinbase_maturity : NetworkId → ℕ
coinbase_maturity mainnet = default_maturity
coinbase_maturity testnet = 60
coinbase_maturity devnet = 10

pub record UtxoSet (Point : Type 0) : Type 0 where
  pub entries : List (ℕ × UtxoEntry)
  pub sum : Point
  pub malformed : ℕ
  pub summed : ℕ

pub record KernelAccumulator : Type 0 where
  pub sum : Commitment
  pub count : ℕ

pub record SupplyState : Type 0 where
  pub total_minted_darks : ℕ
  pub total_burned_darks : ℕ

pub data SupplyError : Type 0 where
  malformed_utxo malformed_kernel_sum invariant_violated cap_exceeded : SupplyError

unfoldable pub circulating : SupplyState → ℕ
circulating s = s.total_minted_darks - s.total_burned_darks

-- `checked_add`, then the comparison; an overflow exceeds.
unfoldable pub would_exceed_cap : SupplyState → ℕ → Bool
would_exceed_cap s additional_mint = elim (checked_add s.total_minted_darks additional_mint) [
  | none ↦ true
  | some t ↦ ltb max_supply_darks t
]

unfoldable pub is_mature : UtxoEntry → ℕ → ℕ → Bool
is_mature entry spend_height maturity =
    if not entry.is_coinbase then true else leb (saturating_add entry.height maturity) spend_height

module _ (c : Primitives) where
  open c use {Point, identity, add, point_eq, decompress, compress}

  unfoldable pub new : UtxoSet Point
  new = record { entries = []; sum = identity; malformed = 0; summed = 0 }

  unfoldable pub get : UtxoSet Point → Commitment → Option UtxoEntry
  get u commit = SortedMap.lookup commit u.entries

  unfoldable pub contains : UtxoSet Point → Commitment → Bool
  contains u commit = is_some (SortedMap.lookup commit u.entries)

  -- A fresh commitment moves the sum; a replaced entry does not. The flag says which it was.
  unfoldable pub insert : UtxoSet Point → Commitment → UtxoEntry → UtxoSet Point × Bool
  insert u commit entry =
      let entries' = SortedMap.insert commit entry u.entries in
      elim (SortedMap.lookup commit u.entries) [
        | some old ↦ (record u { entries = entries' }, false)
        | none ↦ elim (point c commit) [
          | some p ↦
              (record u { entries = entries'; sum = add u.sum p; summed = u.summed + 1 }, true)
          | none ↦ (
            record u { entries = entries'; malformed = u.malformed + 1; summed = u.summed + 1 },
            true,
          )
        ]
      ]

  unfoldable pub remove : UtxoSet Point → Commitment → UtxoSet Point × Option UtxoEntry
  remove u commit =
      let entries' = SortedMap.remove commit u.entries in
      elim (SortedMap.lookup commit u.entries) [
        | none ↦ (record u { entries = entries' }, none)
        | some gone ↦ elim (point c commit) [
          | some p ↦ (
            record u { entries = entries'; sum = minus c u.sum p; summed = u.summed - 1 },
            some gone,
          )
          | none ↦ (
            record u { entries = entries'; malformed = u.malformed - 1; summed = u.summed - 1 },
            some gone,
          )
        ]
      ]

  unfoldable pub walk : Point → List (ℕ × UtxoEntry) → Option Point
  walk acc [] = some acc
  walk acc ((k, e) ∷ entries) = elim (point c k) [ none ↦ none | some p ↦ walk (add acc p) entries ]

  unfoldable pub commitment_sum_by_walking : UtxoSet Point → Option Point
  unfolding walk
  commitment_sum_by_walking u = walk identity u.entries

  unfoldable pub commitment_sum : UtxoSet Point → Option Point
  commitment_sum u =
      if not (u.summed == length u.entries)
      then commitment_sum_by_walking u
      else if ltb 0 u.malformed
      then none
      else some u.sum

  -- The two loops of `sum_after`.
  unfoldable pub sub_all : Point → List Commitment → Option Point
  sub_all acc [] = some acc
  sub_all acc (commit ∷ list) = elim (point c commit) [
    | none ↦ none
    | some p ↦ sub_all (minus c acc p) list
  ]

  unfoldable pub add_all : Point → List Commitment → Option Point
  add_all acc [] = some acc
  add_all acc (commit ∷ list) = elim (point c commit) [
    | none ↦ none
    | some p ↦ add_all (add acc p) list
  ]

  unfoldable pub sum_after : UtxoSet Point → List Commitment → List Commitment → Option Point
  sum_after u removed added = elim (commitment_sum u) [
    | none ↦ none
    | some start ↦ elim (sub_all start removed) [ none ↦ none | some left ↦ add_all left added ]
  ]

  unfoldable pub rebuild_walk : Point → ℕ → List (ℕ × UtxoEntry) → Point × ℕ
  rebuild_walk acc bad [] = (acc, bad)
  rebuild_walk acc bad ((k, e) ∷ entries) = elim (point c k) [
    | some p ↦ rebuild_walk (add acc p) bad entries
    | none ↦ rebuild_walk acc (bad + 1) entries
  ]

  unfoldable pub rebuild_sum : UtxoSet Point → UtxoSet Point
  unfolding rebuild_walk
  rebuild_sum u =
      let (acc, bad) = rebuild_walk identity 0 u.entries in
      record u { sum = acc; malformed = bad; summed = length u.entries }
