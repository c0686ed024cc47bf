-- ===== src/Crypto/Output.antt =====
-- `Output` of crates/nightfall-crypto/src/stealth.rs: an output as it appears on chain.
use nightfall.Common.{ℕ, Bool, true, false, none, some, Option, List, [], ◌∷◌, ◌++◌}
use nightfall.Common.Text.{codes}
use nightfall.Common.Words.{be_bytes}
use nightfall.Crypto.{Primitives}
use nightfall.Crypto.Hashing.{hash_multi}
use nightfall.Crypto.Schnorr.{SchnorrSig, verify}
use nightfall.Crypto.Commit.{Commitment}

pub data OutputFeature : Type 0 where
  plain coinbase : OutputFeature

-- `OutputFeature::byte` and `is_coinbase`.
unfoldable pub byte : OutputFeature → ℕ
byte plain = 0
byte coinbase = 1

unfoldable pub is_coinbase : OutputFeature → Bool
is_coinbase plain = false
is_coinbase coinbase = true

pub record Output : Type 0 where
  pub features : OutputFeature
  pub commit : Commitment
  pub range_proof : List ℕ
  pub ephemeral_pk : ℕ
  pub output_pk : ℕ
  pub view_tag : ℕ
  pub payload : List ℕ
  pub sender_sig : SchnorrSig

unfoldable pub commitment_bytes : Output → List ℕ
unfolding byte
commitment_bytes o =
    byte o.features
    ∷ (be_bytes 32 o.commit
        ++ (be_bytes 32 o.ephemeral_pk
            ++ (be_bytes 32 o.output_pk ++ (o.view_tag ∷ (o.range_proof ++ o.payload)))))

module _ (c : Primitives) where
  open c use {Point, decompress, base}

  unfoldable pub output_point : Output → Option Point
  output_point o = decompress o.output_pk

  unfoldable pub sig_message : Output → List ℕ
  sig_message o =
      be_bytes 32 (hash_multi c (codes "nightfall:output:sig:v2") (commitment_bytes o ∷ []))

  unfoldable pub verify_sender_sig : Output → Bool
  verify_sender_sig o = elim (decompress o.ephemeral_pk) [
    | none ↦ false
    | some ke ↦ verify c ke base (sig_message o) o.sender_sig
  ]
