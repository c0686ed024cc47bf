-- ===== src/Ledger/Agreement.antt =====
-- `apply_block_state_only` against `apply_block`, both of crates/nightfall-ledger/src/lib.rs.
use nightfall.Common.{
  ℕ, suc, ◌≡◌, ◌∙◌, ap, sym, refl, Bool, true, false, List, [], ◌∷◌, arith, ◌==◌, ◌||◌, Option,
  some, none, map, length, Bool-cases, inl, inr,
}
use nightfall.Common.Result.{ok, err}
use nightfall.Common.SortedMap
use nightfall.Crypto.{Primitives}
use nightfall.Crypto.Kernel.{TxKernel, strip_kernel}
use nightfall.Tx.{
  Input, strip_input, coinbase_count, fee_fold, offset_point_h, decode_offset, any_binding,
}
use nightfall.Body.{BlockBody, total_fee, coinbase_kernels, strip_body, has_any_binding}
use nightfall.Utxo.{UtxoSet, KernelAccumulator, get, contains, would_exceed_cap}
use nightfall.Utxo.Running.{IsSummed}
use nightfall.Utxo.Supply.{add_kernel, add_offset}
use nightfall.Ledger.{LedgerState, binding_active, malformed_kernel_excess}
use nightfall.Ledger.Checks.{
  nonempty, check_structure, check_coinbase, check_inputs, check_balance, project_kernels,
}
use nightfall.Ledger.Apply.{Staged, effective, validate, project, commit, apply_block}
use nightfall.Ledger.Replay.{collect_inputs, fold_offset, apply_block_state_only}
use nightfall.Ledger.Facts.{validate_facts, project_facts}
use nightfall.Ledger.Atomic.{accepted_staged}

coinbase_count-strip :
    (ks : List TxKernel) → coinbase_count (map strip_kernel ks) ≡ coinbase_count ks
unfolding coinbase_count strip_kernel
coinbase_count-strip [] = refl
coinbase_count-strip (k ∷ ks) = ground (arith, coinbase_count-strip ks)

fee_fold-strip :
    (ks : List TxKernel) (acc : ℕ) → fee_fold acc (map strip_kernel ks) ≡ fee_fold acc ks
unfolding fee_fold strip_kernel
fee_fold-strip [] acc = refl
fee_fold-strip (k ∷ ks) acc = fee_fold-strip ks _

length-strip : (ks : List TxKernel) → length (map strip_kernel ks) ≡ length ks
length-strip [] = refl
length-strip (k ∷ ks) = ap suc (length-strip ks)

module _ (c : Primitives) where
  open c use {Point, identity, point_eq_iff, scale_zero}

  collect_inputs-strip :
      (utxos : UtxoSet Point) (spent : List (ℕ × Unit {0})) (inputs : List Input)
      → collect_inputs c utxos spent (map strip_input inputs) ≡ collect_inputs c utxos spent inputs
  unfolding collect_inputs strip_input
  collect_inputs-strip utxos spent [] = refl
  collect_inputs-strip utxos spent (i ∷ inputs) =
      rw (collect_inputs-strip utxos (SortedMap.insert i.commit tt spent) inputs)

  project_kernels-strip :
      (acc : KernelAccumulator) (ks : List TxKernel)
      → project_kernels c acc (map strip_kernel ks) ≡ project_kernels c acc ks
  unfolding project_kernels strip_kernel
  project_kernels-strip acc [] = refl
  project_kernels-strip acc (k ∷ ks) =
      elim (add_kernel c acc k.excess)
        as (λ o.
          elim o [
            | none ↦ err malformed_kernel_excess
            | some a ↦ project_kernels c a (map strip_kernel ks)
          ]
          ≡ elim o [ none ↦ err malformed_kernel_excess | some a ↦ project_kernels c a ks ]) [
            | none ↦ refl
            | some a ↦ project_kernels-strip a ks
          ]

  -- The state-only path takes as inputs what the checks of the full path let through.
  collect_inputs_agrees :
      (s : LedgerState Point) (height : ℕ) (binding : Bool) (spent : List (ℕ × Unit {0}))
      (inputs : List Input) (result : List (ℕ × Unit {0}))
      → check_inputs c s height binding spent inputs ≡ ok result
      → collect_inputs c s.utxos spent inputs ≡ ok result
  unfolding collect_inputs check_inputs contains get
  collect_inputs_agrees s height binding spent [] result h = h
  collect_inputs_agrees s height binding spent (i ∷ inputs) result h = ground (
    arith,
    collect_inputs_agrees s height binding (SortedMap.insert i.commit tt spent) inputs result,
  )

  kernels_facts :
      (s : LedgerState Point) (body : BlockBody) (reward : ℕ) (spent : List (ℕ × Unit {0}))
      (offset : Point) (staged : Staged)
      → project c s body reward spent offset ≡ ok staged
      → (summed : KernelAccumulator) × (project_kernels c s.kernels body.kernels ≡ ok summed)
        × (add_offset c summed offset ≡ some staged.kernels)
  unfolding project
  kernels_facts s body reward spent offset staged h = ground arith

  offset_facts :
      (body : BlockBody) (binding : Bool) (offset : Point)
      → check_balance c body binding ≡ ok offset
      → offset_point_h c body.kernel_offset ≡ ok offset
  unfolding check_balance
  offset_facts body binding offset h = ground arith

  no_offset :
      (o : Option ℕ) (offset : Point)
      → o ≡ none
      → offset_point_h c o ≡ ok offset
      → identity ≡ offset
  unfolding offset_point_h decode_offset
  no_offset o offset q h = ground (arith, scale_zero c.base_blinding)

  unmoved :
      (summed kernels : KernelAccumulator) (offset : Point)
      → identity ≡ offset
      → add_offset c summed offset ≡ some kernels
      → summed ≡ kernels
  unfolding add_offset
  unmoved summed kernels offset q h = ground (arith, (point_eq_iff offset identity).1 (sym q))

  -- Below the fork nothing is folded in, on either path.
  fold_facts :
      (s : LedgerState Point) (body : BlockBody) (height : ℕ) (summed kernels : KernelAccumulator)
      (offset : Point)
      → (binding_active c s height ≡ false → body.kernel_offset ≡ none)
      → offset_point_h c body.kernel_offset ≡ ok offset
      → add_offset c summed offset ≡ some kernels
      → fold_offset c s body height summed ≡ ok kernels
  unfolding fold_offset
  fold_facts s body height summed kernels offset low at h =
      elim (Bool-cases (binding_active c s height)) [
        | inl on ↦ ground arith
        | inr off ↦
            let zero_offset : identity ≡ offset =
              no_offset body.kernel_offset offset (low off) at in
            ground (arith, unmoved summed kernels offset zero_offset h)
      ]

  structure_facts :
      (s : LedgerState Point) (body : BlockBody) (height reward : ℕ) (binding : Bool)
      (coinbase : TxKernel)
      → check_structure c body ≡ ok tt
      → check_coinbase c s body height reward binding ≡ ok coinbase
      → ((length body.outputs == 0 || length body.kernels == 0) ≡ false)
        × ((coinbase_kernels body == 1) ≡ true)
        × (would_exceed_cap s.supply reward ≡ false)
  unfolding check_structure check_coinbase nonempty
  structure_facts s body height reward binding coinbase h k = ground arith

  structured :
      (s : LedgerState Point) (body : BlockBody) (height reward : ℕ) (ctx : List ℕ)
      (staged : Staged)
      → validate c s body height reward ctx ≡ ok staged
      → check_structure c body ≡ ok tt
  unfolding validate
  structured s body height reward ctx staged h = ground arith

  replayed :
      (s : LedgerState Point) (body : BlockBody) (height reward : ℕ) (ctx : List ℕ)
      (staged : Staged)
      → (binding_active c s height ≡ false → body.kernel_offset ≡ none)
      → validate c s body height reward ctx ≡ ok staged
      → apply_block_state_only c s body height reward ≡ ok (commit c s body height staged)
  unfolding apply_block_state_only commit
  replayed s body height reward ctx staged low h =
      let (coinbase, e0, outs, spent, ins, offset, e1, e2, proj) =
        validate_facts c s body height reward ctx staged h in
      let (projected, e3, e4, e5, e6, undo) =
        project_facts c s body reward spent offset staged proj in
      let (summed, e7, e8) = kernels_facts s body reward spent offset staged proj in
      let (shape, one, cap) =
        structure_facts s body height reward _ coinbase
          (structured s body height reward ctx staged h) e0 in
      let collected = collect_inputs_agrees s height _ [] body.inputs spent ins in
      let folded =
        fold_facts s body height summed staged.kernels offset low (offset_facts body _ offset e1)
          e8 in
      ground (arith, collected, folded, shape, one, cap, e3, e4, e7)

  stripped :
      (s : LedgerState Point) (body : BlockBody) (height reward : ℕ)
      → binding_active c s height ≡ false
      → apply_block_state_only c s (strip_body body) height reward
        ≡ apply_block_state_only c s body height reward
  unfolding apply_block_state_only fold_offset strip_body total_fee coinbase_kernels
  stripped s body height reward off =
      rw
        (
          coinbase_count-strip body.kernels,
          fee_fold-strip body.kernels 0,
          length-strip body.kernels,
          collect_inputs-strip s.utxos [] body.inputs,
          project_kernels-strip s.kernels body.kernels,
          off,
        )
        refl

  low_offset :
      (s : LedgerState Point) (body : BlockBody) (height : ℕ)
      → binding_active c s height ≡ false
      → (effective c s body height).kernel_offset ≡ none
  unfolding effective has_any_binding any_binding strip_body
  low_offset s body height off = ground arith

  effective_cases :
      (s : LedgerState Point) (body : BlockBody) (height reward : ℕ)
      → apply_block_state_only c s (effective c s body height) height reward
        ≡ apply_block_state_only c s body height reward
  unfolding effective
  effective_cases s body height reward = ground (arith, stripped s body height reward)

  -- A block that `apply_block` accepts brings `apply_block_state_only` to the same state, binding
  -- fields below the fork or not: a node that restarts from its own disk without the proofs holds
  -- the ledger that full validation would give.
  -- It is stated for a state whose set has its running values kept up.
  pub state_only_agrees :
      (s after : LedgerState Point) (body : BlockBody) (height reward : ℕ) (ctx : List ℕ)
      → IsSummed c s.utxos
      → apply_block c s body height reward ctx ≡ (after, ok tt)
      → apply_block_state_only c s body height reward ≡ ok after
  state_only_agrees s after body height reward ctx sum h =
      let (staged, valid, at) = accepted_staged c s after body height reward ctx sum h in
      sym (effective_cases s body height reward)
      ∙ replayed s (effective c s body height) height reward ctx staged (low_offset s body height)
          valid
      ∙ ap ok (sym at)
