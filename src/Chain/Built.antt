-- ===== src/Chain/Built.antt =====
-- What a template takes from its chain, and what the ledger's verdict on it says
-- (crates/nightfall-consensus/src/lib.rs).
use nightfall.Common.{
  length-map, ℕ, ◌-◌, ◌≡◌, ◌∙◌, ap, sym, refl, true, false, some, List, [], ◌∷◌, map, ltb, ◌==◌,
  take, max, if◌then◌else◌, length, arith, inl, inr, Option-cases,
}
use nightfall.Common.Result.{Result, ok, Result-cases}
use nightfall.Common.Words.{saturating_add}
use nightfall.Types.{protocol_version}
use nightfall.Emission.{reward_at}
use nightfall.Crypto.{Primitives}
use nightfall.Tx.{Transaction, TxError, strip_input}
use nightfall.Crypto.Kernel.{strip_kernel}
use nightfall.Body.{BlockBody, aggregate, body_hash, exceeds_size_limits, strip_body}
use nightfall.Utxo.Running.{IsSummed}
use nightfall.Ledger.{LedgerState, StateUndo, capture_undo}
use nightfall.Ledger.Apply
use nightfall.Ledger.Apply.{effective, Staged, validate}
use nightfall.Ledger.Checks.{check_structure, nonempty}
use nightfall.Ledger.Atomic.{accepted_staged}
use nightfall.Ledger.Facts.{validate_facts, project_facts}
use nightfall.Ledger.Undone.{capture_undo-effective}
use nightfall.Ledger.Roots.{utxo_root, kernel_sum}
use nightfall.Chain.{
  Chain, next_height, next_difficulty, binding_active_at, proof_ctx, tip_hash, median_time_past,
}
use nightfall.Chain.Template.{
  BlockTemplate, template_fees, for_height, dry_run, build_template, max_txs_per_block,
}

module _ (c : Primitives) where
  open c use {Point}

  -- What a template takes from the chain.
  pub record Built (ch : Chain Point) (timestamp_unix : ℕ) (t : BlockTemplate) : Type 0 where
    pub mtp : ℕ
    pub trial : LedgerState Point
    pub version : t.header.version ≡ protocol_version
    pub height : t.header.height ≡ next_height c ch
    pub prev : t.header.prev_hash ≡ tip_hash c ch
    pub difficulty : next_difficulty c ch ≡ some t.header.difficulty
    pub median : median_time_past c ch ≡ some mtp
    pub time : t.header.timestamp_unix ≡ max timestamp_unix (saturating_add mtp 1)
    pub root : utxo_root c trial ≡ t.header.utxo_root
    pub sum : kernel_sum c trial ≡ t.header.kernel_sum
    pub body : body_hash c t.body ≡ t.header.body_root
    pub ran :
        dry_run c ch t.body
          (next_height c ch)
          (reward_at ch.emission (next_height c ch) ch.ledger.supply.total_minted_darks)
        ≡ ok trial
    pub paid :
        ltb 0 (reward_at ch.emission (next_height c ch) ch.ledger.supply.total_minted_darks) ≡ true
        → t.header.reward_darks
          ≡ reward_at ch.emission (next_height c ch) ch.ledger.supply.total_minted_darks

  pub built :
      (build_coinbase : ℕ → ℕ → Result TxError Transaction) (ch : Chain Point)
      (extra_txs : List Transaction) (timestamp_unix : ℕ) (t : BlockTemplate)
      → build_template c build_coinbase ch extra_txs timestamp_unix ≡ ok t
      → Built ch timestamp_unix t
  unfolding build_template
  built build_coinbase ch extra_txs timestamp_unix t h =
      let height = next_height c ch in
      let subsidy = reward_at ch.emission height ch.ledger.supply.total_minted_darks in
      let binding = binding_active_at c ch height in
      let txs = map (for_height binding) (take (max_txs_per_block - 1) extra_txs) in
      elim (Option-cases (next_difficulty c ch)) [
        | inl e ↦ absurd (ground (arith, e))
        | inr (d, e) ↦ elim (Result-cases (template_fees binding txs)) [
          | inr (x, f) ↦ absurd (ground (arith, e, f))
          | inl (fees, f) ↦
              let due = if ltb 0 subsidy then subsidy else fees in
              elim (Result-cases (build_coinbase due height)) [
                | inr (x, g) ↦ absurd (ground (arith, e, f, g))
                | inl (coinbase, g) ↦
                    let body = aggregate c (for_height binding coinbase ∷ txs) in
                    elim (Result-cases (dry_run c ch body height subsidy)) [
                      | inr (x, k) ↦ absurd (ground (arith, e, f, g, k))
                      | inl (trial, k) ↦ elim (Option-cases (median_time_past c ch)) [
                        | inl m ↦ absurd (ground (arith, e, f, g, k, m))
                        | inr (mtp, m) ↦
                            let made : BlockTemplate = record {
                              header = record {
                                version = protocol_version;
                                height = height;
                                prev_hash = tip_hash c ch;
                                utxo_root = utxo_root c trial;
                                kernel_sum = kernel_sum c trial;
                                body_root = body_hash c body;
                                timestamp_unix = max timestamp_unix (saturating_add mtp 1);
                                difficulty = d;
                                nonce = 0;
                                reward_darks = due;
                              };
                              body = body;
                              built_on = tip_hash c ch;
                            } in
                            let q : made ≡ t = ground (arith, e, f, g, k, m, h) in
                            rw (sym q) (record {
                              mtp = mtp;
                              trial = trial;
                              version = refl;
                              height = refl;
                              prev = refl;
                              difficulty = e;
                              median = m;
                              time = refl;
                              root = refl;
                              sum = refl;
                              body = refl;
                              ran = k;
                              paid = λ p. ground (arith, p);
                            })
                      ]
                    ]
              ]
        ]
      ]

  nonempty-length : {A : Type 0} (xs : List A) → nonempty xs ≡ true → (length xs == 0) ≡ false
  unfolding nonempty
  nonempty-length [] h = absurd (ground arith)
  nonempty-length (x ∷ xs) h = ground arith

  structure_facts :
      (body : BlockBody)
      → check_structure c body ≡ ok tt
      → ((length body.outputs == 0) ≡ false)
        × ((length body.kernels == 0) ≡ false)
        × (exceeds_size_limits body ≡ false)
  unfolding check_structure
  structure_facts body h =
      let outputs : nonempty body.outputs ≡ true = ground arith in
      let kernels : nonempty body.kernels ≡ true = ground arith in
      (nonempty-length body.outputs outputs, nonempty-length body.kernels kernels, ground arith)

  effective_facts :
      (s : LedgerState Point) (body : BlockBody) (height : ℕ)
      → (length (effective c s body height).outputs ≡ length body.outputs)
        × (length (effective c s body height).kernels ≡ length body.kernels)
        × (exceeds_size_limits (effective c s body height) ≡ exceeds_size_limits body)
  unfolding effective strip_body exceeds_size_limits
  effective_facts s body height =
      let inputs = length-map strip_input body.inputs in
      let kernels = length-map strip_kernel body.kernels in
      (
        ground (arith, inputs, kernels),
        ground (arith, inputs, kernels),
        ground (arith, inputs, kernels),
      )

  validated_structure :
      (s : LedgerState Point) (body : BlockBody) (height reward : ℕ) (ctx : List ℕ)
      (staged : Staged)
      → validate c s body height reward ctx ≡ ok staged
      → check_structure c body ≡ ok tt
  unfolding validate
  validated_structure s body height reward ctx staged h =
      elim (Result-cases (check_structure c body)) [
        | inl (tt, e) ↦ e
        | inr (x, e) ↦ absurd (ground (arith, e))
      ]

  pub ran_facts :
      (ch : Chain Point) (body : BlockBody) (height subsidy : ℕ) (trial : LedgerState Point)
      → dry_run c ch body height subsidy ≡ ok trial
      → Apply.apply_block c ch.ledger body height subsidy (proof_ctx c ch) ≡ (trial, ok tt)
  unfolding dry_run
  ran_facts ch body height subsidy trial h =
      let p = Apply.apply_block c ch.ledger body height subsidy (proof_ctx c ch) in
      elim (Result-cases p.1) [
        | inl (tt, e) ↦ ap (λ t. (p.0, t)) e ∙ ap (λ t. (t, ok tt)) (ground (arith, e))
        | inr (x, e) ↦ absurd (ground (arith, e))
      ]

  -- What the ledger's verdict on the body says of the block.
  pub judged_body :
      (s trial : LedgerState Point) (body : BlockBody) (height subsidy : ℕ) (ctx : List ℕ)
      → IsSummed c s.utxos
      → Apply.apply_block c s body height subsidy ctx ≡ (trial, ok tt)
      → ((undo : StateUndo) × (capture_undo c s body ≡ ok undo))
        × ((length body.outputs == 0) ≡ false)
        × ((length body.kernels == 0) ≡ false)
        × (exceeds_size_limits body ≡ false)
  judged_body s trial body height subsidy ctx sum h =
      let (staged, valid, at) = accepted_staged c s trial body height subsidy ctx sum h in
      let b = effective c s body height in
      let (coinbase, e0, outs, spent, ins, offset, e1, e2, proj) =
        validate_facts c s b height subsidy ctx staged valid in
      let (projected, e3, e4, e5, e6, kept) =
        project_facts c s b subsidy spent offset staged proj in
      let (outputs, kernels, size) =
        structure_facts b (validated_structure s b height subsidy ctx staged valid) in
      let (same_outputs, same_kernels, same_size) = effective_facts s body height in
      (
        (staged.undo, ground (arith, kept, capture_undo-effective c s body height)),
        ground (arith, outputs, same_outputs),
        ground (arith, kernels, same_kernels),
        sym same_size ∙ size,
      )
