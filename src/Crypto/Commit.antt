-- ===== src/Crypto/Commit.antt =====
-- crates/nightfall-crypto/src/commit.rs and rangeproof.rs: Pedersen commitments by their 32 bytes.
use nightfall.Common.{ℕ, Bool, none, some, Option, List, [], ◌∷◌}
use nightfall.Common.Text.{codes}
use nightfall.Crypto.{Primitives}

-- `Commitment` wraps its compressed point.
abbrev pub Commitment : Type 0
Commitment = ℕ

module _ (c : Primitives) where
  open c use {
    Point, identity, add, decompress, compress, scale, scalar_from, base, range_proof_verifies,
  }

  -- `Commitment::point`.
  unfoldable pub point : Commitment → Option Point
  point commit = decompress commit

  -- `Commitment::from_point` and `Commitment::identity`.
  unfoldable pub from_point : Point → Commitment
  from_point p = compress p

  unfoldable pub identity_commitment : Commitment
  identity_commitment = compress identity

  -- The loop of `Commitment::sum`.
  unfoldable pub sum_from : Point → List Commitment → Option Point
  sum_from acc [] = some acc
  sum_from acc (commit ∷ list) = elim (point commit) [
    | none ↦ none
    | some p ↦ sum_from (add acc p) list
  ]

  unfoldable pub sum : List Commitment → Option Point
  sum list = sum_from identity list

  unfoldable pub commit_public_value : ℕ → Point
  commit_public_value value = scale base (scalar_from value)

  -- `rangeproofs::verify`.
  unfoldable pub verify_range : List ℕ → Commitment → List ℕ → Bool
  verify_range proof commitment ctx =
      range_proof_verifies (codes "nightfall:rangeproof:v2") ctx proof commitment
