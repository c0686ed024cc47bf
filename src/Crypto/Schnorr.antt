-- ===== src/Crypto/Schnorr.antt =====
-- crates/nightfall-crypto/src/schnorr.rs: verifying a signature under a generator.
use nightfall.Common.{ℕ, Bool, false, none, some, List, [], ◌∷◌}
use nightfall.Common.Text.{codes}
use nightfall.Common.Words.{be_bytes}
use nightfall.Crypto.{Primitives}
use nightfall.Crypto.Hashing.{hash_multi}

pub record SchnorrSig : Type 0 where
  pub r : ℕ
  pub s : ℕ

abbrev pub schnorr_domain : List ℕ
schnorr_domain = codes "nightfall:schnorr:v2"

module _ (c : Primitives) where
  open c use {
    Point, Scalar, add, point_eq, decompress, compress, from_canonical_bytes, from_wide, scale,
  }

  unfoldable pub challenge : ℕ → ℕ → List ℕ → Scalar
  challenge r p msg =
      from_wide
        (hash_multi c schnorr_domain (be_bytes 32 r ∷ be_bytes 32 p ∷ msg ∷ codes "c0" ∷ []))
        (hash_multi c schnorr_domain (be_bytes 32 r ∷ be_bytes 32 p ∷ msg ∷ codes "c1" ∷ []))

  -- `verify(public, generator, msg, sig)`.
  unfoldable pub verify : Point → Point → List ℕ → SchnorrSig → Bool
  verify public generator msg sig = elim (decompress sig.r) [
    | none ↦ false
    | some r_point ↦ elim (from_canonical_bytes sig.s) [
      | none ↦ false
      | some s ↦
          point_eq (scale generator s)
            (add r_point (scale public (challenge sig.r (compress public) msg)))
    ]
  ]
