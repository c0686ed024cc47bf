-- ===== src/Tx/Ids.antt =====
-- `Transaction::txid` and `legacy_txid` of crates/nightfall-ledger/src/tx.rs.
use nightfall.Common.{ℕ, Option, none, some, List, [], ◌∷◌, ◌++◌, map, leb, if◌then◌else◌}
use nightfall.Common.Words.{be_bytes}
use nightfall.Crypto.{Primitives}
use nightfall.Crypto.Domain
use nightfall.Crypto.Hashing.{hash_multi}
use nightfall.Crypto.Kernel.{TxKernel, signing_message}
use nightfall.Crypto.Output.{commitment_bytes}
use nightfall.Tx.{Input, Transaction, any_binding}

-- `unwrap_or_default` of 32 bytes.
or_default : Option ℕ → List ℕ
or_default none = be_bytes 32 0
or_default (some n) = be_bytes 32 n

-- `sort_unstable_by_key` on commitments; equal keys stay in place.
insert_input : Input → List Input → List Input
insert_input i [] = i ∷ []
insert_input i (j ∷ js) = if leb i.commit j.commit then i ∷ j ∷ js else j ∷ insert_input i js

unfoldable pub sort_inputs : List Input → List Input
unfolding insert_input
sort_inputs [] = []
sort_inputs (i ∷ is) = insert_input i (sort_inputs is)

module _ (c : Primitives) where
  unfoldable pub legacy_txid : Transaction → ℕ
  legacy_txid tx = hash_multi c Domain.tx (
      map (λ i. be_bytes 32 i.commit) (sort_inputs tx.inputs)
      ++ (map commitment_bytes tx.outputs ++ map (signing_message c) tx.kernels))

  bound_kernel : TxKernel → List ℕ
  unfolding or_default
  bound_kernel k = signing_message c k ++ or_default k.stealth_excess

  unfoldable pub txid : Transaction → ℕ
  unfolding or_default bound_kernel
  txid tx =
      if any_binding tx.stealth_offset tx.kernel_offset tx.inputs tx.kernels
      then hash_multi c Domain.tx_bound (
          map (λ i. be_bytes 32 i.commit ++ or_default i.input_key) (sort_inputs tx.inputs)
          ++ (map commitment_bytes tx.outputs
              ++ (map bound_kernel tx.kernels
                  ++ or_default tx.stealth_offset ∷ or_default tx.kernel_offset ∷ [])))
      else legacy_txid tx
