-- ===== src/Utxo/RootTotal.antt =====
-- The loop of `UtxoSet::root` of crates/nightfall-ledger/src/utxo.rs ends.
use nightfall.Common.{
  ℕ, zero, suc, ◌+◌, ◌/◌, ◌≡◌, ◌≤◌, refl, some, List, [], ◌∷◌, map, length, arith,
}
use nightfall.Crypto.{Primitives}
use nightfall.Utxo.{UtxoSet}
use nightfall.Utxo.Root.{next_level, climb, root, root_of, leaf, node}

module _ (c : Primitives) where
  open c use {Point}

  -- One level up there are half as many hashes, rounded up.
  pub length-next_level : (level : List ℕ) → length (next_level c level) ≡ (length level + 1) / 2
  unfolding next_level
  length-next_level [] = omega arith
  length-next_level (a ∷ []) = omega arith
  length-next_level (a ∷ b ∷ level) = omega (arith, length-next_level level)

  climb_returns :
      (fuel : ℕ) (level : List ℕ)
      → 1 ≤ length level
      → length level ≤ suc fuel
      → (r : ℕ) × (climb c fuel level ≡ some r)
  unfolding climb next_level
  climb_returns fuel [] h k = absurd (omega arith)
  climb_returns fuel (a ∷ []) h k = (a, refl)
  climb_returns zero (a ∷ b ∷ level) h k = absurd (omega arith)
  climb_returns (suc fuel) (a ∷ b ∷ level) h k =
      climb_returns fuel (node c a b ∷ next_level c level) (omega arith)
        (omega (arith, length-next_level level))

  pub returned : (level : List ℕ) → (r : ℕ) × (root_of c level ≡ some r)
  unfolding root_of
  returned [] = (0, refl)
  returned (a ∷ level) = climb_returns (length level) (a ∷ level) (omega arith) (omega arith)

  -- The root of every set exists: the loop ends within as many rounds as the set has entries. A
  -- round makes of any level one with half as many hashes, rounded up.
  pub root_returns :
      (u : UtxoSet Point) (level : List ℕ)
      → ((r : ℕ) × (root c u ≡ some r)) × (length (next_level c level) ≡ (length level + 1) / 2)
  unfolding root
  root_returns u level = (returned (map (leaf c) u.entries), length-next_level level)
