-- ===== src/Chain/Sealed.antt =====
-- A sealed template is a block of the chain it was built on (crates/nightfall-consensus/src/lib.rs).
use nightfall.Common.{
  ℕ, ◌+◌, ◌^◌, ◌<◌, ◌≤◌, ◌≡◌, ◌∙◌, ap, subst, true, false, some, List, ltb, ◌==◌, length, arith,
}
use nightfall.Common.Result.{Result, ok}
use nightfall.Common.Words.{saturating_add}
use nightfall.Types.{max_future_drift_secs, pow_params}
use nightfall.Emission.{reward_at}
use nightfall.Crypto.{Primitives}
use nightfall.Tx.{Transaction, TxError}
use nightfall.Body.{body_hash, exceeds_size_limits, total_fee}
use nightfall.Utxo.Running.{IsSummed}
use nightfall.Ledger.{LedgerState, StateUndo, capture_undo}
use nightfall.Ledger.Apply
use nightfall.Ledger.Apply.{effective, Staged, validate}
use nightfall.Ledger.Checks.{coinbase_due}
use nightfall.Chain.{
  Chain, Block, ConsensusError, next_height, binding_active_at, proof_ctx, median_time_past,
  pow_is_valid,
}
use nightfall.Chain.Apply.{
  stripped_block, subsidy_of, check_links, check_pin, check_version, check_time, check_work,
  check_block, extend, settle_roots, judge_ledger, commit_block, apply_block_inner, apply_block,
}
use nightfall.Chain.Template.{BlockTemplate, seal, build_template}
use nightfall.Chain.Built.{Built, built, ran_facts, judged_body}

module _ (c : Primitives) where
  open c use {Point}

  -- What is left to the sealer and its clock: a time that is not too late, a median time past below
  -- the largest u64, no pin that contradicts the block, and a nonce that meets the difficulty.
  pub record Mined (ch : Chain Point) (t : BlockTemplate) (nonce now_unix mtp : ℕ) : Type 0 where
    pub in_time : t.header.timestamp_unix ≤ saturating_add now_unix max_future_drift_secs
    pub median_below : mtp + 1 < 2 ^ 64
    pub unpinned : check_pin c (seal t nonce) ≡ ok tt
    pub worked : pow_is_valid c (seal t nonce) (pow_params ch.network) ≡ true

  sealed_time :
      (ch : Chain Point) (timestamp_unix now_unix nonce : ℕ) (t : BlockTemplate)
      (b : Built c ch timestamp_unix t)
      → Mined ch t nonce now_unix b.mtp
      → check_time c ch (seal t nonce) now_unix true ≡ ok tt
  unfolding check_time seal
  sealed_time ch timestamp_unix now_unix nonce t b m =
      ground (arith, b.median, b.time, m.in_time, m.median_below)

  sealed_work :
      (ch : Chain Point) (timestamp_unix now_unix nonce : ℕ) (t : BlockTemplate)
      (b : Built c ch timestamp_unix t)
      → Mined ch t nonce now_unix b.mtp
      → check_work c ch (seal t nonce) true ≡ ok tt
  unfolding check_work seal
  sealed_work ch timestamp_unix now_unix nonce t b m = ground (arith, b.difficulty, m.worked)

  sealed_version :
      (ch : Chain Point) (timestamp_unix nonce : ℕ) (t : BlockTemplate)
      → Built c ch timestamp_unix t
      → check_version c (seal t nonce) ≡ ok tt
  unfolding check_version seal
  sealed_version ch timestamp_unix nonce t b = ground (arith, b.version)

  sealed_links :
      (ch : Chain Point) (timestamp_unix nonce : ℕ) (t : BlockTemplate)
      → Built c ch timestamp_unix t
      → check_links c ch (seal t nonce) ≡ ok tt
  unfolding check_links seal
  sealed_links ch timestamp_unix nonce t b = ground (arith, b.height, b.prev)

  sealed_reward :
      (ch : Chain Point) (timestamp_unix nonce : ℕ) (t : BlockTemplate)
      (b : Built c ch timestamp_unix t)
      → ltb 0 (reward_at ch.emission (next_height c ch) ch.ledger.supply.total_minted_darks) ≡ true
      → ((seal t nonce).header.reward_darks
          == coinbase_due (subsidy_of c ch (seal t nonce)) (total_fee (seal t nonce).body))
        ≡ true
  unfolding coinbase_due subsidy_of seal
  sealed_reward ch timestamp_unix nonce t b paid = ground (arith, b.height, paid, b.paid paid)

  sealed_body :
      (ch : Chain Point) (timestamp_unix nonce : ℕ) (t : BlockTemplate)
      → Built c ch timestamp_unix t
      → (body_hash c (seal t nonce).body == (seal t nonce).header.body_root) ≡ true
  unfolding seal
  sealed_body ch timestamp_unix nonce t b = ground (arith, b.body)

  all_checks :
      (ch : Chain Point) (block : Block) (now_unix : ℕ)
      → check_version c block ≡ ok tt
      → (length block.body.outputs == 0) ≡ false
      → (length block.body.kernels == 0) ≡ false
      → exceeds_size_limits block.body ≡ false
      → check_links c ch block ≡ ok tt
      → check_pin c block ≡ ok tt
      → check_time c ch block now_unix true ≡ ok tt
      → check_work c ch block true ≡ ok tt
      → (block.header.reward_darks == coinbase_due (subsidy_of c ch block) (total_fee block.body))
        ≡ true
      → (body_hash c block.body == block.header.body_root) ≡ true
      → check_block c ch block now_unix true ≡ ok tt
  unfolding check_block
  all_checks ch block now_unix version outputs kernels size links pin time work_ reward body =
      ground (arith, version, outputs, kernels, size, links, pin, time, work_, reward, body)

  sealed_checks :
      (ch : Chain Point) (timestamp_unix now_unix nonce : ℕ) (t : BlockTemplate)
      (b : Built c ch timestamp_unix t)
      → IsSummed c ch.ledger.utxos
      → ltb 0 (reward_at ch.emission (next_height c ch) ch.ledger.supply.total_minted_darks) ≡ true
      → Mined ch t nonce now_unix b.mtp
      → check_block c ch (seal t nonce) now_unix true ≡ ok tt
  unfolding seal
  sealed_checks ch timestamp_unix now_unix nonce t b sum paid m =
      let subsidy = reward_at ch.emission (next_height c ch) ch.ledger.supply.total_minted_darks in
      let applied = ran_facts c ch t.body (next_height c ch) subsidy b.trial b.ran in
      let (captured, outputs, kernels, size) =
        judged_body c ch.ledger b.trial t.body (next_height c ch) subsidy (proof_ctx c ch) sum
          applied in
      all_checks ch (seal t nonce) now_unix (sealed_version ch timestamp_unix nonce t b) outputs
        kernels size (sealed_links ch timestamp_unix nonce t b) m.unpinned
        (sealed_time ch timestamp_unix now_unix nonce t b m)
        (sealed_work ch timestamp_unix now_unix nonce t b m)
        (sealed_reward ch timestamp_unix nonce t b paid) (sealed_body ch timestamp_unix nonce t b)

  sealed_roots :
      (ch : Chain Point) (timestamp_unix nonce : ℕ) (t : BlockTemplate)
      (b : Built c ch timestamp_unix t) (undo : StateUndo)
      → settle_roots c ch b.trial (seal t nonce) undo
        ≡ (extend c ch b.trial (seal t nonce) undo, ok tt)
  unfolding settle_roots seal
  sealed_roots ch timestamp_unix nonce t b undo = ground (arith, b.root, b.sum)

  sealed_applies :
      (ch : Chain Point) (timestamp_unix nonce : ℕ) (t : BlockTemplate)
      (b : Built c ch timestamp_unix t)
      → Apply.apply_block c ch.ledger t.body t.header.height
          (subsidy_of c ch (seal t nonce))
          (proof_ctx c ch)
        ≡ (b.trial, ok tt)
  unfolding subsidy_of seal
  sealed_applies ch timestamp_unix nonce t b =
      rw b.height (ran_facts c ch t.body (next_height c ch) _ b.trial b.ran)

  commit_of :
      (ch : Chain Point) (block : Block) (undo : StateUndo) (trial : LedgerState Point)
      (after : Chain Point × Result ConsensusError (Unit {0}))
      → capture_undo c ch.ledger block.body ≡ ok undo
      → Apply.apply_block c ch.ledger block.body block.header.height
          (subsidy_of c ch block)
          (proof_ctx c ch)
        ≡ (trial, ok tt)
      → settle_roots c ch trial block undo ≡ after
      → commit_block c ch block ≡ after
  unfolding commit_block judge_ledger
  commit_of ch block undo trial after captured applied settled =
      rw (captured, commit_block) (ap (judge_ledger c ch block undo) applied ∙ settled)

  inner_of :
      (ch : Chain Point) (block : Block) (now_unix : ℕ)
      (after : Chain Point × Result ConsensusError (Unit {0}))
      → binding_active_at c ch block.header.height ≡ true
      → check_block c ch block now_unix true ≡ ok tt
      → commit_block c ch block ≡ after
      → apply_block c ch block now_unix ≡ after
  unfolding apply_block apply_block_inner stripped_block
  inner_of ch block now_unix after active checks committed =
      ground (arith, active, checks, committed)

  sealed_commit :
      (ch : Chain Point) (timestamp_unix nonce : ℕ) (t : BlockTemplate)
      (b : Built c ch timestamp_unix t)
      → IsSummed c ch.ledger.utxos
      → (undo : StateUndo) × (commit_block c ch (seal t nonce)
          ≡ (extend c ch b.trial (seal t nonce) undo, ok tt))
  unfolding seal
  sealed_commit ch timestamp_unix nonce t b sum =
      let applied = sealed_applies ch timestamp_unix nonce t b in
      let (captured, outputs, kernels, size) =
        judged_body c ch.ledger b.trial t.body t.header.height _ (proof_ctx c ch) sum applied in
      let (undo, e) = captured in
      (
        undo,
        commit_of ch (seal t nonce) undo b.trial _ e applied
            (sealed_roots ch timestamp_unix nonce t b undo),
      )

  -- A template that was built on a chain, sealed with a nonce that meets its difficulty, is accepted
  -- by the chain, which it extends by one block. It is stated for a height at which binding is active
  -- and a subsidy is paid, on a chain whose set has its running values kept up and whose median time
  -- past is below the largest u64, for a time within the drift that is allowed, and for a block that
  -- no pin contradicts.
  pub apply_block-seal :
      (build_coinbase : ℕ → ℕ → Result TxError Transaction) (ch : Chain Point)
      (extra_txs : List Transaction) (timestamp_unix nonce now_unix mtp : ℕ) (t : BlockTemplate)
      → IsSummed c ch.ledger.utxos
      → build_template c build_coinbase ch extra_txs timestamp_unix ≡ ok t
      → binding_active_at c ch (next_height c ch) ≡ true
      → ltb 0 (reward_at ch.emission (next_height c ch) ch.ledger.supply.total_minted_darks) ≡ true
      → median_time_past c ch ≡ some mtp
      → Mined ch t nonce now_unix mtp
      → (trial : LedgerState Point) × (undo : StateUndo) × (apply_block c ch (seal t nonce) now_unix
          ≡ (extend c ch trial (seal t nonce) undo, ok tt))
  unfolding seal
  apply_block-seal build_coinbase ch extra_txs timestamp_unix nonce now_unix mtp t sum made active
        paid median m =
      let b = built c build_coinbase ch extra_txs timestamp_unix t made in
      let same : mtp ≡ b.mtp = ground (arith, median, b.median) in
      let checks =
        sealed_checks ch timestamp_unix now_unix nonce t b sum paid
          (subst (λ k. Mined ch t nonce now_unix k) same m) in
      let (undo, committed) = sealed_commit ch timestamp_unix nonce t b sum in
      let here : binding_active_at c ch (seal t nonce).header.height ≡ true = rw b.height active in
      (b.trial, undo, inner_of ch (seal t nonce) now_unix _ here checks committed)
