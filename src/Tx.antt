-- ===== src/Tx.antt =====
-- crates/nightfall-ledger/src/tx.rs: transactions and the checks that need no chain state.
--
-- `Vec` is a list, `BTreeSet<[u8; 32]>` a sorted map to unit. Sums of u64 wrap as in a release
-- build.
pub mod Checks
pub mod Ids
pub mod Fees
use nightfall.Common.{
  ℕ, ◌+◌, Bool, true, false, ◌&&◌, ◌||◌, none, some, Option, List, [], ◌∷◌, map, ltb, if◌then◌else◌,
  is_some,
}
use nightfall.Common.Result.{Result, ok, err, ◌>>=◌}
use nightfall.Common.Words.{wrapping_add, checked_add, be_bytes}
use nightfall.Types.{max_supply_darks}
use nightfall.Crypto.{Primitives}
use nightfall.Crypto.Binding.{scalar_from_bytes, verified_stealth_excess, verify_key_binding}
use nightfall.Crypto.Commit.{Commitment}
use nightfall.Crypto.Domain
use nightfall.Crypto.Group.{minus}
use nightfall.Crypto.Hashing.{hash_multi}
use nightfall.Crypto.Kernel.{TxKernel, is_coinbase, strip_kernel}
use nightfall.Crypto.Output.{Output}
use nightfall.Crypto.Schnorr.{SchnorrSig, verify}

pub record Input : Type 0 where
  pub commit : Commitment
  pub sig : SchnorrSig
  pub input_key : Option ℕ
  pub key_sig : Option SchnorrSig

-- `Input::strip_binding` and `Input::has_binding`.
unfoldable pub strip_input : Input → Input
strip_input i = record i { input_key = none; key_sig = none }

unfoldable pub has_binding : Input → Bool
has_binding i = is_some i.input_key || is_some i.key_sig

pub record Transaction : Type 0 where
  pub version : ℕ
  pub inputs : List Input
  pub outputs : List Output
  pub kernels : List TxKernel
  pub stealth_offset : Option ℕ
  pub kernel_offset : Option ℕ

pub data TxError : Type 0 where
  missing_binding bad_input_key bad_input_key_signature bad_stealth_excess key_imbalance
        bad_offset :
      TxError
  fee_out_of_range kernel_offset_before_fork coinbase_output_in_transaction : TxError
  too_many_inputs too_many_outputs no_outputs bad_kernel_count duplicate_input : TxError
  duplicate_output malformed_commitment malformed_output_key : TxError
  multiple_coinbase_kernels coinbase_with_inputs bad_kernel bad_range_proof : TxError
  bad_kernel_signature unbalanced_transaction bad_input_signature bad_output_signature : TxError

-- `iter().any(..)` and `iter().all(..)`.
unfoldable pub any {ℓ} : {A : Type ℓ} → (A → Bool) → List A → Bool
any p [] = false
any p (x ∷ xs) = p x || any p xs

unfoldable pub all {ℓ} : {A : Type ℓ} → (A → Bool) → List A → Bool
all p [] = true
all p (x ∷ xs) = p x && all p xs

unfoldable pub coinbase_count : List TxKernel → ℕ
coinbase_count [] = 0
coinbase_count (k ∷ ks) = (if is_coinbase k.feature then 1 else 0) + coinbase_count ks

-- The folds of `total_fee` and `total_reward`.
unfoldable pub fee_fold : ℕ → List TxKernel → ℕ
fee_fold acc [] = acc
fee_fold acc (k ∷ ks) = fee_fold (wrapping_add acc k.fee_darks) ks

unfoldable pub reward_fold : ℕ → List TxKernel → ℕ
reward_fold acc [] = acc
reward_fold acc (k ∷ ks) = reward_fold (wrapping_add acc k.reward_darks) ks

-- The `try_fold` of `checked_fee_sum`: every fee at most the whole supply, no overflow.
unfoldable pub checked_fee_fold : ℕ → List TxKernel → Option ℕ
checked_fee_fold acc [] = some acc
checked_fee_fold acc (k ∷ ks) =
    if ltb max_supply_darks k.fee_darks
    then none
    else elim (checked_add acc k.fee_darks) [ none ↦ none | some t ↦ checked_fee_fold t ks ]

unfoldable pub checked_fee_sum : List TxKernel → Option ℕ
checked_fee_sum kernels = checked_fee_fold 0 kernels

unfoldable pub kernel_bound : TxKernel → Bool
kernel_bound k = is_some k.stealth_excess || is_some k.stealth_sig

-- The test that a transaction and a block body share.
unfoldable pub any_binding : Option ℕ → Option ℕ → List Input → List TxKernel → Bool
any_binding stealth_offset kernel_offset inputs kernels =
    is_some stealth_offset
    || is_some kernel_offset
    || any has_binding inputs
    || any kernel_bound kernels

unfoldable pub has_full_binding : Transaction → Bool
has_full_binding tx =
    all (λ i. is_some i.input_key && is_some i.key_sig) tx.inputs
    && all (λ k. is_some k.stealth_excess && is_some k.stealth_sig) tx.kernels

-- `Transaction::strip_binding`.
unfoldable pub strip_tx : Transaction → Transaction
strip_tx tx = record tx {
  inputs = map strip_input tx.inputs;
  kernels = map strip_kernel tx.kernels;
  stealth_offset = none;
  kernel_offset = none;
}

module _ (c : Primitives) where
  open c use {
    Point, Scalar, identity, add, point_eq, decompress, scale, base, base_blinding, scalar_zero,
    scalar_add, to_bytes,
  }

  unfoldable pub input_message : Commitment → List ℕ
  input_message commit = be_bytes 32 (hash_multi c Domain.input (be_bytes 32 commit ∷ []))

  unfoldable pub verify_input_signature : Input → ℕ → Bool
  verify_input_signature i output_pk = elim (decompress output_pk) [
    | none ↦ false
    | some ko ↦ verify c ko base (input_message i.commit) i.sig
  ]

  unfoldable pub verify_input_key : Input → ℕ → Bool
  verify_input_key i output_pk = elim i.input_key [
    | none ↦ false
    | some ki ↦ elim i.key_sig [
      | none ↦ false
      | some sig ↦ verify_key_binding c i.commit ki output_pk sig
    ]
  ]

  unfoldable pub decode_offset : Option ℕ → Result TxError Scalar
  decode_offset none = ok scalar_zero
  decode_offset (some bytes) = elim (scalar_from_bytes c bytes) [
    | none ↦ err bad_offset
    | some s ↦ ok s
  ]

  unfoldable pub offset_point_h : Option ℕ → Result TxError Point
  offset_point_h offset = do s ← decode_offset offset; ok (scale base_blinding s)

  scalar_or_zero : Option ℕ → Scalar
  scalar_or_zero none = scalar_zero
  scalar_or_zero (some bytes) = elim (scalar_from_bytes c bytes) [ none ↦ scalar_zero | some s ↦ s ]

  unfoldable pub add_offsets : Option ℕ → Option ℕ → Option ℕ
  unfolding scalar_or_zero
  add_offsets none none = none
  add_offsets a b = some (to_bytes (scalar_add (scalar_or_zero a) (scalar_or_zero b)))

  -- The three loops of `key_balance`.
  balance_inputs : Point → List Input → Result TxError Point
  balance_inputs lhs [] = ok lhs
  balance_inputs lhs (i ∷ inputs) = elim i.input_key [
    | none ↦ err missing_binding
    | some ki ↦ elim (decompress ki) [
      | none ↦ err bad_input_key
      | some p ↦ balance_inputs (add lhs p) inputs
    ]
  ]

  balance_outputs : Point → List Output → Result TxError Point
  balance_outputs lhs [] = ok lhs
  balance_outputs lhs (o ∷ outputs) = elim (decompress o.ephemeral_pk) [
    | none ↦ err malformed_output_key
    | some p ↦ balance_outputs (minus c lhs p) outputs
  ]

  balance_kernels : Point → List TxKernel → Result TxError Point
  balance_kernels rhs [] = ok rhs
  balance_kernels rhs (k ∷ kernels) = elim (verified_stealth_excess c k) [
    | none ↦ err bad_stealth_excess
    | some x ↦ balance_kernels (add rhs x) kernels
  ]

  unfoldable pub key_balance :
      List Input → List Output → List TxKernel → Option ℕ → Result TxError (Unit {0})
  unfolding balance_inputs balance_outputs balance_kernels
  key_balance inputs outputs kernels stealth_offset = do
    ins ← balance_inputs identity inputs
    lhs ← balance_outputs ins outputs
    s ← decode_offset stealth_offset
    rhs ← balance_kernels (scale base s) kernels
    if point_eq lhs rhs then ok tt else err key_imbalance
