-- ===== src/Crypto/Binding.antt =====
-- crates/nightfall-crypto/src/binding.rs: the keys that bind inputs, outputs and kernels.
use nightfall.Common.{ℕ, Bool, false, none, some, Option, List, [], ◌∷◌, if◌then◌else◌}
use nightfall.Common.Text.{codes}
use nightfall.Common.Words.{be_bytes}
use nightfall.Crypto.{Primitives}
use nightfall.Crypto.Hashing.{hash_multi}
use nightfall.Crypto.Schnorr.{SchnorrSig, verify}
use nightfall.Crypto.Commit.{Commitment}
use nightfall.Crypto.Kernel.{TxKernel, signing_message}

module _ (c : Primitives) where
  open c use {Point, Scalar, add, decompress, from_wide, from_canonical_bytes, scale, base}

  unfoldable pub input_key_coefficient : ℕ → ℕ → Scalar
  input_key_coefficient input_key output_pk =
      from_wide
        (hash_multi c (codes "nightfall:input:key:coeff:v1")
          (be_bytes 32 input_key ∷ be_bytes 32 output_pk ∷ codes "0" ∷ []))
        (hash_multi c (codes "nightfall:input:key:coeff:v1")
          (be_bytes 32 input_key ∷ be_bytes 32 output_pk ∷ codes "1" ∷ []))

  unfoldable pub input_bind_message : Commitment → ℕ → List ℕ
  input_bind_message commit input_key = be_bytes 32 (
      hash_multi c (codes "nightfall:input:bind:v1")
        (be_bytes 32 commit ∷ be_bytes 32 input_key ∷ []))

  -- `binding::verify_input_key`.
  unfoldable pub verify_key_binding : Commitment → ℕ → ℕ → SchnorrSig → Bool
  verify_key_binding commit input_key output_pk sig = elim (decompress input_key) [
    | none ↦ false
    | some ki ↦ elim (decompress output_pk) [
      | none ↦ false
      | some ko ↦
          verify c (add ki (scale ko (input_key_coefficient input_key output_pk))) base
            (input_bind_message commit input_key) sig
    ]
  ]

  unfoldable pub kernel_stealth_message : List ℕ → ℕ → List ℕ
  kernel_stealth_message kernel_message stealth_excess = be_bytes 32 (
      hash_multi c (codes "nightfall:kernel:stealth:v1")
        (kernel_message ∷ be_bytes 32 stealth_excess ∷ []))

  unfoldable pub scalar_from_bytes : ℕ → Option Scalar
  scalar_from_bytes bytes = from_canonical_bytes bytes

  stealth_check : TxKernel → ℕ → SchnorrSig → Option Point
  stealth_check k x_bytes sig = elim (decompress x_bytes) [
    | none ↦ none
    | some x ↦
        if verify c x base (kernel_stealth_message (signing_message c k) x_bytes) sig
        then some x
        else none
  ]

  -- `TxKernel::verified_stealth_excess` of kernel.rs.
  unfoldable pub verified_stealth_excess : TxKernel → Option Point
  unfolding stealth_check
  verified_stealth_excess k = elim k.stealth_excess [
    | none ↦ none
    | some x_bytes ↦ elim k.stealth_sig [ none ↦ none | some sig ↦ stealth_check k x_bytes sig ]
  ]
