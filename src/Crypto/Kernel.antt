-- ===== src/Crypto/Kernel.antt =====
-- crates/nightfall-crypto/src/kernel.rs: transaction kernels and the balance equation.
use nightfall.Common.{ℕ, Bool, true, false, none, some, Option, List, [], ◌∷◌, ◌==◌, if◌then◌else◌}
use nightfall.Common.Text.{codes}
use nightfall.Common.Words.{be_bytes, le_bytes}
use nightfall.Crypto.{Primitives}
use nightfall.Crypto.Group.{minus}
use nightfall.Crypto.Hashing.{hash_multi}
use nightfall.Crypto.Schnorr.{SchnorrSig, verify}
use nightfall.Crypto.Commit.{Commitment, point, sum, commit_public_value}

pub data KernelFeature : Type 0 where
  plain coinbase : KernelFeature

pub record TxKernel : Type 0 where
  pub feature : KernelFeature
  pub fee_darks : ℕ
  pub reward_darks : ℕ
  pub lock_height : ℕ
  pub excess : Commitment
  pub excess_sig : SchnorrSig
  pub stealth_excess : Option ℕ
  pub stealth_sig : Option SchnorrSig

pub data KernelError : Type 0 where
  reward_on_plain_kernel fee_on_coinbase_kernel malformed_excess : KernelError

-- `feature == KernelFeature::Coinbase`.
unfoldable pub is_coinbase : KernelFeature → Bool
is_coinbase plain = false
is_coinbase coinbase = true

abbrev pub kernel_domain : List ℕ
kernel_domain = codes "nightfall:kernel:v2"

feature_byte : KernelFeature → ℕ
feature_byte plain = 0
feature_byte coinbase = 1

-- `TxKernel::strip_binding`.
unfoldable pub strip_kernel : TxKernel → TxKernel
strip_kernel k = record k { stealth_excess = none; stealth_sig = none }

module _ (c : Primitives) where
  open c use {Point, identity, add, point_eq, decompress, base, base_blinding}

  unfoldable pub signing_message : TxKernel → List ℕ
  unfolding feature_byte
  signing_message k = be_bytes 32 (
      hash_multi c kernel_domain (
        (feature_byte k.feature ∷ [])
        ∷ le_bytes 8 k.fee_darks
        ∷ le_bytes 8 k.reward_darks
        ∷ le_bytes 8 k.lock_height
        ∷ be_bytes 32 k.excess
        ∷ []))

  unfoldable pub verify_signature : TxKernel → Bool
  verify_signature k = elim (point c k.excess) [
    | none ↦ false
    | some excess_point ↦
        if point_eq excess_point identity
        then false
        else verify c excess_point base_blinding (signing_message k) k.excess_sig
  ]

  unfoldable pub kernel_id : TxKernel → ℕ
  kernel_id k = hash_multi c kernel_domain (be_bytes 32 k.excess ∷ be_bytes 32 k.excess_sig.r ∷ [])

  excess_shape : TxKernel → Option KernelError
  excess_shape k = elim (point c k.excess) [ none ↦ some malformed_excess | some _ ↦ none ]

  feature_shape : KernelFeature → TxKernel → Option KernelError
  unfolding excess_shape
  feature_shape plain k =
      if k.reward_darks == 0 then excess_shape k else some reward_on_plain_kernel
  feature_shape coinbase k =
      if k.fee_darks == 0 then excess_shape k else some fee_on_coinbase_kernel

  -- `TxKernel::check_shape`; `Ok(())` is `none`.
  unfoldable pub check_kernel_shape : TxKernel → Option KernelError
  unfolding feature_shape
  check_kernel_shape k = feature_shape k.feature k

  -- Sum of outputs, minus sum of inputs, plus the fee, minus the reward.
  unfoldable pub expected_excess : List Commitment → List Commitment → ℕ → ℕ → Option Point
  expected_excess inputs outputs fee_darks reward_darks = elim (sum c outputs) [
    | none ↦ none
    | some outs ↦ elim (sum c inputs) [
      | none ↦ none
      | some ins ↦ some (
          minus c (add (minus c outs ins) (commit_public_value c fee_darks))
            (commit_public_value c reward_darks))
    ]
  ]
