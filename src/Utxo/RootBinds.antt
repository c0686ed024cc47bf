-- ===== src/Utxo/RootBinds.antt =====
-- What the Merkle root of crates/nightfall-ledger/src/utxo.rs tells of the set.
use nightfall.Common.{ℕ, suc, ◌≡◌, List, [], ◌∷◌, length}
use nightfall.Crypto.{Primitives}
use nightfall.Utxo.{UtxoEntry}
use nightfall.Utxo.Root.{next_level, leaf, node}

-- What a leaf is made of: all of an entry but its coinbase flag.
abbrev pub hashed : ℕ × UtxoEntry → ℕ × ℕ × ℕ
hashed (commit, e) = (commit, e.output_pk, e.height)

module _ (c : Primitives) where
  open c use {Point}

  -- Entries at the same place that have the same leaf are hashed from the same.
  abbrev pub LeavesTell : List (ℕ × UtxoEntry) → List (ℕ × UtxoEntry) → Type 0
  LeavesTell (x ∷ xs) (y ∷ ys) = (leaf c x ≡ leaf c y → hashed x ≡ hashed y) × LeavesTell xs ys
  LeavesTell _ _ = Unit

  -- Pairs at the same place of two levels that have the same node are the same.
  abbrev pub PairsTell : List ℕ → List ℕ → Type 0
  PairsTell (a ∷ b ∷ xs) (d ∷ e ∷ ys) =
      (node c a b ≡ node c d e → (a ≡ d) × (b ≡ e)) × PairsTell xs ys
  PairsTell (a ∷ []) (d ∷ []) = node c a a ≡ node c d d → a ≡ d
  PairsTell _ _ = Unit

  -- The same of every level that the loop goes through.
  abbrev pub LevelsTell : ℕ → List ℕ → List ℕ → Type 0
  LevelsTell (suc fuel) (a ∷ b ∷ xs) (d ∷ e ∷ ys) =
      PairsTell (a ∷ b ∷ xs) (d ∷ e ∷ ys)
      × LevelsTell fuel (next_level c (a ∷ b ∷ xs)) (next_level c (d ∷ e ∷ ys))
  LevelsTell _ _ _ = Unit

  -- The same of the levels that the loop of `root` goes through.
  abbrev pub RootTells : List ℕ → List ℕ → Type 0
  RootTells (a ∷ xs) (d ∷ ys) = LevelsTell (length xs) (a ∷ xs) (d ∷ ys)
  RootTells _ _ = Unit
