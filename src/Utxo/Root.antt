-- ===== src/Utxo/Root.antt =====
-- `UtxoSet::root` of crates/nightfall-ledger/src/utxo.rs: the Merkle root of the set.
use nightfall.Common.{ℕ, zero, suc, Option, none, some, List, [], ◌∷◌, map, length}
use nightfall.Common.Words.{le_bytes, be_bytes}
use nightfall.Crypto.{Primitives}
use nightfall.Crypto.Domain
use nightfall.Crypto.Hashing.{hash_multi}
use nightfall.Utxo.{UtxoEntry, UtxoSet}

module _ (c : Primitives) where
  open c use {Point}

  unfoldable pub leaf : ℕ × UtxoEntry → ℕ
  leaf (commit, e) =
      hash_multi c Domain.merkle_leaf
        (be_bytes 32 commit ∷ be_bytes 32 e.output_pk ∷ le_bytes 8 e.height ∷ [])

  unfoldable pub node : ℕ → ℕ → ℕ
  node left right = hash_multi c Domain.merkle (be_bytes 32 left ∷ be_bytes 32 right ∷ [])

  -- One level up: chunks of two, the last one paired with itself where it is alone.
  unfoldable pub next_level : List ℕ → List ℕ
  next_level [] = []
  next_level (a ∷ []) = node a a ∷ []
  next_level (a ∷ b ∷ level) = node a b ∷ next_level level

  -- The loop while the level has more than one hash; `none` is fuel that ran out.
  unfoldable pub climb : ℕ → List ℕ → Option ℕ
  climb fuel [] = none
  climb fuel (a ∷ []) = some a
  climb zero (a ∷ b ∷ level) = none
  climb (suc fuel) (a ∷ b ∷ level) = climb fuel (next_level (a ∷ b ∷ level))

  -- The empty set has the root zero.
  unfoldable pub root_of : List ℕ → Option ℕ
  root_of [] = some 0
  root_of (a ∷ level) = climb (length level) (a ∷ level)

  unfoldable pub root : UtxoSet Point → Option ℕ
  unfolding root_of
  root u = root_of (map leaf u.entries)
