-- ===== src/Body.antt =====
-- crates/nightfall-ledger/src/aggregate.rs: the body of a block, one sorted aggregate.
pub mod Equality
pub mod Order
use nightfall.Common.{
  ℕ, Bool, ◌&&◌, ◌||◌, none, some, Option, List, [], ◌∷◌, ◌++◌, map, ltb, leb, if◌then◌else◌,
  length,
}
use nightfall.Common.Words.{be_bytes}
use nightfall.Crypto.{Primitives}
use nightfall.Crypto.Commit.{Commitment, from_point, sum}
use nightfall.Crypto.Domain
use nightfall.Crypto.Hashing.{hash_multi}
use nightfall.Crypto.Kernel.{TxKernel, kernel_id, signing_message, strip_kernel}
use nightfall.Crypto.Output.{Output, commitment_bytes}
use nightfall.Crypto.Schnorr.{SchnorrSig}
use nightfall.Tx.{
  Input, Transaction, strip_input, any_binding, fee_fold, reward_fold, coinbase_count, add_offsets,
}

-- The limits of crates/nightfall-ledger/src/lib.rs.
abbrev pub max_block_inputs : ℕ
max_block_inputs = 4_096

abbrev pub max_block_outputs : ℕ
max_block_outputs = 4_096

abbrev pub max_block_kernels : ℕ
max_block_kernels = 1_024

pub record BlockBody : Type 0 where
  pub inputs : List Input
  pub outputs : List Output
  pub kernels : List TxKernel
  pub stealth_offset : Option ℕ
  pub kernel_offset : Option ℕ

abbrev pub default_body : BlockBody
default_body = record {
  inputs = [];
  outputs = [];
  kernels = [];
  stealth_offset = none;
  kernel_offset = none;
}

unfoldable pub exceeds_size_limits : BlockBody → Bool
exceeds_size_limits body =
    ltb max_block_inputs (length body.inputs)
    || ltb max_block_outputs (length body.outputs)
    || ltb max_block_kernels (length body.kernels)

-- `BlockBody::strip_binding`.
unfoldable pub strip_body : BlockBody → BlockBody
strip_body body = record body {
  inputs = map strip_input body.inputs;
  kernels = map strip_kernel body.kernels;
  stealth_offset = none;
  kernel_offset = none;
}

unfoldable pub has_any_binding : BlockBody → Bool
has_any_binding body = any_binding body.stealth_offset body.kernel_offset body.inputs body.kernels

unfoldable pub total_fee : BlockBody → ℕ
total_fee body = fee_fold 0 body.kernels

unfoldable pub total_reward : BlockBody → ℕ
total_reward body = reward_fold 0 body.kernels

unfoldable pub coinbase_kernels : BlockBody → ℕ
coinbase_kernels body = coinbase_count body.kernels

-- `sort_by_key`, which keeps the order of equal keys.
module _ {A : Type 0} (key : A → ℕ) where
  unfoldable pub insert_by : A → List A → List A
  insert_by x [] = x ∷ []
  insert_by x (y ∷ ys) = if leb (key x) (key y) then x ∷ y ∷ ys else y ∷ insert_by x ys

  unfoldable pub sort_by : List A → List A
  sort_by [] = []
  sort_by (x ∷ xs) = insert_by x (sort_by xs)

-- The fields of an input that the body hash folds in.
or_zero : Option ℕ → ℕ
or_zero none = 0
or_zero (some n) = n

sig_bytes : SchnorrSig → List ℕ
sig_bytes s = be_bytes 32 s.r ++ be_bytes 32 s.s

sig_or_zero : Option SchnorrSig → List ℕ
unfolding sig_bytes
sig_or_zero none = be_bytes 32 0 ++ be_bytes 32 0
sig_or_zero (some s) = sig_bytes s

input_part : Bool → Input → List ℕ
unfolding sig_bytes sig_or_zero or_zero
input_part bound i =
    be_bytes 32 i.commit
    ++ (sig_bytes i.sig
        ++ (if bound then be_bytes 32 (or_zero i.input_key) ++ sig_or_zero i.key_sig else []))

output_part : Output → List ℕ
unfolding sig_bytes
output_part o = commitment_bytes o ++ sig_bytes o.sender_sig

module _ (c : Primitives) where
  unfoldable pub canonicalise : BlockBody → BlockBody
  canonicalise body = record body {
    inputs = sort_by (λ i. i.commit) body.inputs;
    outputs = sort_by (λ o. o.commit) body.outputs;
    kernels = sort_by (kernel_id c) body.kernels;
  }

  -- The loop of `aggregate`, then the sort.
  merge : BlockBody → List Transaction → BlockBody
  merge body [] = body
  merge body (tx ∷ txs) =
      merge
        (record body {
          inputs = body.inputs ++ tx.inputs;
          outputs = body.outputs ++ tx.outputs;
          kernels = body.kernels ++ tx.kernels;
          stealth_offset = add_offsets c body.stealth_offset tx.stealth_offset;
          kernel_offset = add_offsets c body.kernel_offset tx.kernel_offset;
        })
        txs

  unfoldable pub aggregate : List Transaction → BlockBody
  unfolding merge
  aggregate txs = canonicalise (merge default_body txs)

  kernel_part : Bool → TxKernel → List ℕ
  unfolding sig_bytes sig_or_zero or_zero
  kernel_part bound k =
      signing_message c k
      ++ (sig_bytes k.excess_sig
          ++ (if bound
              then be_bytes 32 (or_zero k.stealth_excess) ++ sig_or_zero k.stealth_sig
              else []))

  -- `BlockBody::hash`.
  unfoldable pub body_hash : BlockBody → ℕ
  unfolding input_part output_part kernel_part or_zero
  body_hash body =
      let bound = has_any_binding body in
      let parts =
        map (input_part bound) body.inputs
        ++ (map output_part body.outputs ++ map (kernel_part bound) body.kernels) in
      if bound
      then hash_multi c Domain.txbody_bound (
          parts
          ++ be_bytes 32 (or_zero body.stealth_offset)
            ∷ be_bytes 32 (or_zero body.kernel_offset)
            ∷ [])
      else hash_multi c Domain.txbody parts

  unfoldable pub kernel_excess_sum : BlockBody → Option Commitment
  kernel_excess_sum body = elim (sum c (map (λ k. k.excess) body.kernels)) [
    | none ↦ none
    | some p ↦ some (from_point c p)
  ]
