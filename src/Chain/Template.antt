-- ===== src/Chain/Template.antt =====
-- Block templates (crates/nightfall-consensus/src/lib.rs, `build_template`). `build_coinbase` of
-- crates/nightfall-ledger/src/builder.rs draws random keys, so what it returned for an amount and a
-- height is an argument.
use nightfall.Common.{
  ℕ, ◌-◌, Bool, none, some, Option, List, [], ◌∷◌, map, ltb, take, max, if◌then◌else◌,
}
use nightfall.Common.Result.{Result, ok, err, ◌>>=◌, ok_or, map_err}
use nightfall.Common.Words.{checked_add, wrapping_add, saturating_add}
use nightfall.Types.{protocol_version}
use nightfall.Emission.{reward_at}
use nightfall.Crypto.{Primitives}
use nightfall.Tx.{Transaction, TxError, strip_tx, checked_fee_sum, fee_fold}
use nightfall.Body.{BlockBody, aggregate, body_hash}
use nightfall.Ledger.{LedgerState}
use nightfall.Ledger.Apply
use nightfall.Ledger.Roots.{utxo_root, kernel_sum}
use nightfall.Ledger.Admission.{check_tx_acceptable}
use nightfall.Tx.Ids.{txid}
use nightfall.Chain.{
  Chain, Block, BlockHeader, ConsensusError, tx, fee_out_of_range, panicked, next_height,
  next_difficulty, binding_active_at, proof_ctx, tip_hash, median_time_past,
}

abbrev pub max_txs_per_block : ℕ
max_txs_per_block = 512

pub record BlockTemplate : Type 0 where
  pub header : BlockHeader
  pub body : BlockBody
  pub built_on : ℕ

unfoldable pub seal : BlockTemplate → ℕ → Block
seal t nonce = record { header = record t.header { nonce = nonce }; body = t.body }

-- The two folds over the fees.
unfoldable pub checked_fees : ℕ → List Transaction → Option ℕ
checked_fees acc [] = some acc
checked_fees acc (t ∷ txs) = elim (checked_fee_sum t.kernels) [
  | none ↦ none
  | some fee ↦ elim (checked_add acc fee) [ none ↦ none | some s ↦ checked_fees s txs ]
]

unfoldable pub wrapped_fees : ℕ → List Transaction → ℕ
wrapped_fees acc [] = acc
wrapped_fees acc (t ∷ txs) = wrapped_fees (wrapping_add acc (fee_fold 0 t.kernels)) txs

unfoldable pub template_fees : Bool → List Transaction → Result ConsensusError ℕ
template_fees binding txs =
    if binding then ok_or (checked_fees 0 txs) fee_out_of_range else ok (wrapped_fees 0 txs)

-- Below the fork the binding fields are taken off.
unfoldable pub for_height : Bool → Transaction → Transaction
for_height binding t = if binding then t else strip_tx t

module _ (c : Primitives) where
  open c use {Point}

  -- The ledger after the body, on a copy.
  unfoldable pub dry_run :
      Chain Point → BlockBody → ℕ → ℕ → Result ConsensusError (LedgerState Point)
  dry_run ch body height subsidy =
      let (trial, result) = Apply.apply_block c ch.ledger body height subsidy (proof_ctx c ch) in
      elim result [ err e ↦ err (ConsensusError.ledger e) | ok _ ↦ ok trial ]

  unfoldable pub build_template :
      (ℕ → ℕ → Result TxError Transaction)
      → Chain Point
      → List Transaction
      → ℕ
      → Result ConsensusError BlockTemplate
  build_template build_coinbase ch extra_txs timestamp_unix = do
    let height = next_height c ch
    difficulty ← ok_or (next_difficulty c ch) panicked
    let subsidy = reward_at ch.emission height ch.ledger.supply.total_minted_darks
    let binding = binding_active_at c ch height
    let txs = map (for_height binding) (take (max_txs_per_block - 1) extra_txs)
    fees ← template_fees binding txs
    let coinbase_darks = if ltb 0 subsidy then subsidy else fees
    coinbase ← map_err tx (build_coinbase coinbase_darks height)
    let body = aggregate c (for_height binding coinbase ∷ txs)
    trial ← dry_run ch body height subsidy
    mtp ← ok_or (median_time_past c ch) panicked
    ok (record {
      header = record {
        version = protocol_version;
        height = height;
        prev_hash = tip_hash c ch;
        utxo_root = utxo_root c trial;
        kernel_sum = kernel_sum c trial;
        body_root = body_hash c body;
        timestamp_unix = max timestamp_unix (saturating_add mtp 1);
        difficulty = difficulty;
        nonce = 0;
        reward_darks = coinbase_darks;
      };
      body = body;
      built_on = tip_hash c ch;
    })

  -- The candidates that the ledger would take now, and the ids of the others.
  unfoldable pub sift : Chain Point → List Transaction → List Transaction × List ℕ
  sift ch [] = ([], [])
  sift ch (t ∷ txs) =
      let (keep, dropped) = sift ch txs in
      elim (check_tx_acceptable c ch.ledger t (next_height c ch) (proof_ctx c ch)) [
        | ok _ ↦ (t ∷ keep, dropped)
        | err _ ↦ (keep, txid c t ∷ dropped)
      ]

  -- Each attempt has its own coinbase.
  unfoldable pub build_template_filtering :
      (ℕ → ℕ → ℕ → Result TxError Transaction)
      → Chain Point
      → List Transaction
      → ℕ
      → Result ConsensusError (BlockTemplate × List ℕ)
  build_template_filtering build_coinbase ch extra_txs timestamp_unix =
      let (keep, dropped) = sift ch extra_txs in
      elim (build_template (build_coinbase 0) ch extra_txs timestamp_unix) [
        | ok t ↦ ok (t, [])
        | err _ ↦ elim (build_template (build_coinbase 1) ch keep timestamp_unix) [
          | ok t ↦ ok (t, dropped)
          | err _ ↦ elim (build_template (build_coinbase 2) ch [] timestamp_unix) [
            | ok t ↦ ok (t, dropped)
            | err e ↦ err e
          ]
        ]
      ]
