-- ===== src/Crypto.antt =====
-- What the crates curve25519-dalek, bulletproofs, blake3, argon2 and serde_json provide to
-- crates/nightfall-crypto and the crates above it.
--
-- `[u8; 32]` is the number that its bytes spell, and other byte strings are lists of bytes.
pub mod Group
pub mod Domain
pub mod Hashing
pub mod Schnorr
pub mod Commit
pub mod Output
pub mod Kernel
pub mod Binding
pub mod Toy
use nightfall.Types.{GenesisConfig}
use nightfall.Common.{ℕ, ◌+◌, ◌≡◌, ◌↔◌, Bool, true, Option, some, List}

-- The operations, with the documented laws that the code relies on: points form a commutative
-- group, equality of points decides, a compressed point decompresses to itself, a multiple of a point by a
-- sum of two counts is the sum of the multiples, and by the zero scalar it is the identity.
pub record Primitives : Type 1 where
  pub Point : Type 0
  pub identity : Point
  pub add : Point → Point → Point
  pub neg : Point → Point
  pub point_eq : Point → Point → Bool
  -- `CompressedRistretto::decompress` and `RistrettoPoint::compress`.
  pub decompress : ℕ → Option Point
  pub compress : Point → ℕ
  pub Scalar : Type 0
  pub scalar_zero : Scalar
  pub scalar_add : Scalar → Scalar → Scalar
  -- `Scalar::from(u64)`, `from_canonical_bytes`, `to_bytes` and `from_bytes_mod_order_wide`.
  pub scalar_from : ℕ → Scalar
  pub from_canonical_bytes : ℕ → Option Scalar
  pub to_bytes : Scalar → ℕ
  pub from_wide : ℕ → ℕ → Scalar
  pub scale : Point → Scalar → Point
  -- The two generators of `PedersenGens::default()`.
  pub base : Point
  pub base_blinding : Point
  -- `blake3::Hasher` over the bytes it was fed.
  pub blake3 : List ℕ → ℕ
  -- Argon2id, version 0x13: memory in KiB, iterations, lanes, password, salt; 32 bytes out.
  pub argon2id : ℕ → ℕ → ℕ → List ℕ → List ℕ → ℕ
  -- `serde_json::to_vec` of a genesis.
  pub genesis_json : GenesisConfig → List ℕ
  -- `RangeProof::from_bytes` and `verify_single`: label, context, proof, commitment.
  pub range_proof_verifies : List ℕ → List ℕ → List ℕ → ℕ → Bool
  pub add_assoc : (p q r : Point) → add (add p q) r ≡ add p (add q r)
  pub add_comm : (p q : Point) → add p q ≡ add q p
  pub add_identity : (p : Point) → add p identity ≡ p
  pub add_neg : (p : Point) → add p (neg p) ≡ identity
  pub point_eq_iff : (p q : Point) → (point_eq p q ≡ true) ↔ (p ≡ q)
  pub decompress-compress : (p : Point) → decompress (compress p) ≡ some p
  pub scale-add :
      (p : Point) (a b : ℕ)
      → scale p (scalar_from (a + b)) ≡ add (scale p (scalar_from a)) (scale p (scalar_from b))
  pub scale_zero : (p : Point) → scale p scalar_zero ≡ identity
