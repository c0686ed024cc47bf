-- ===== src/Chain/Trial.antt =====
-- Stepping back to a fork ancestor and forward again (crates/nightfall-consensus/src/lib.rs).
use nightfall.Common.{
  ℕ, suc, ◌+◌, ◌-◌, ◌^◌, ◌≤◌, ◌<◌, ◌≡◌, ◌∙◌, ap, sym, refl, none, some, List, [], ◌∷◌, ◌++◌, arith,
  length, take, reverse, last?, length-append,
}
use nightfall.Common.Result.{ok}
use nightfall.Types.{NetworkId, mainnet, testnet, devnet, next, assert_fair, fair_launch, is_empty}
use nightfall.Crypto.{Primitives}
use nightfall.Chain.{Chain, Block, CompactHeader, TipUndo, new_fair, tip_height, tip_hash}
use nightfall.Chain.Window.{work_sum, rewound_work}
use nightfall.Chain.Suffix.{SuffixTrial, rewind_all, tip_or_zero, prepare_suffix_trial, apply_each}
use nightfall.Chain.Linked.{Linked, headers_work}
use nightfall.Chain.Shape.{IsChain, length-trim}
use nightfall.Chain.Apply.{trim}
use nightfall.Chain.Undo.{apply_each-Run, take-reverse-trim, take-append}

-- The last header stands at the height that the length gives.
last-height :
    (xs : List CompactHeader) (prev h : ℕ)
    → Linked prev h xs
    → 1 ≤ length xs
    → h + length xs ≤ 2 ^ 64
    → (y : CompactHeader) × (last? xs ≡ some y) × (y.height + 1 ≡ h + length xs)
unfolding next
last-height [] prev h l k m = absurd (omega arith)
last-height (x ∷ []) prev h l k m = (x, refl, omega (arith, l.1))
last-height (x ∷ y ∷ xs) prev h l k m =
    let (z, e, f) = last-height (y ∷ xs) x.hash (next h) l.2 (omega arith) (omega arith) in
    (z, e, omega (arith, f))

headers_work-append_all :
    (xs ys : List CompactHeader) → headers_work (xs ++ ys) ≡ headers_work xs + headers_work ys
unfolding headers_work
headers_work-append_all [] ys = omega arith
headers_work-append_all (x ∷ xs) ys = omega (arith, headers_work-append_all xs ys)

module _ (c : Primitives) where
  open c use {Point}

  new_fair_ok : (network : NetworkId) → (ch : Chain Point) × (new_fair c network ≡ ok ch)
  unfolding new_fair assert_fair fair_launch is_empty
  new_fair_ok mainnet = (_, refl)
  new_fair_ok testnet = (_, refl)
  new_fair_ok devnet = (_, refl)

  tip_known :
      (base : ℕ) (ch : Chain Point)
      → IsChain c base ch
      → 1 ≤ length ch.headers
      → length ch.headers ≤ 2 ^ 64
      → tip_or_zero c ch + 1 ≡ length ch.headers
  unfolding tip_or_zero tip_height
  tip_known base ch w some_ short =
      let (y, e, f) = last-height ch.headers ch.genesis_hash 0 w.linked some_ (omega arith) in
      ground (arith, e, f)

  work_sum-append :
      (us : List TipUndo) (u : TipUndo) → work_sum (us ++ u ∷ []) ≡ work_sum us + u.work
  unfolding work_sum
  work_sum-append [] u = omega arith
  work_sum-append (v ∷ us) u = omega (arith, work_sum-append us u)

  work_sum-reverse : (us : List TipUndo) → work_sum (reverse us) ≡ work_sum us
  unfolding work_sum
  work_sum-reverse [] = refl
  work_sum-reverse (u ∷ us) = omega (arith, work_sum-append (reverse us) u, work_sum-reverse us)

  -- The trial, where nothing stands in its way.
  prepared :
      (ch : Chain Point) (height depth : ℕ)
      → tip_or_zero c ch ≡ height + depth
      → depth ≤ 500
      → depth ≤ length ch.undos
      → height < length ch.headers
      → work_sum (take depth (reverse ch.undos)) ≤ ch.total_work
      → (t : SuffixTrial Point) × (prepare_suffix_trial c ch height ≡ ok t)
        × (t.trial.ledger ≡ rewind_all c ch.ledger (take depth (reverse ch.undos)))
        × (t.trial.headers ≡ take (suc height) ch.headers)
        × (t.trial.total_work + work_sum (take depth (reverse ch.undos)) ≡ ch.total_work)
        × (t.rewind ≡ depth)
        × (t.based_on ≡ tip_hash c ch)
        × (t.our_work ≡ ch.total_work)
  unfolding prepare_suffix_trial rewound_work
  prepared ch height depth tip few held low light =
      let (fresh, e) = new_fair_ok ch.network in
      let d : tip_or_zero c ch - height ≡ depth = omega (arith, tip) in
      let trial : Chain Point = record fresh {
        ledger = rewind_all c ch.ledger (take depth (reverse ch.undos));
        total_work = ch.total_work - work_sum (take depth (reverse ch.undos));
        headers = take (suc height) ch.headers;
        blocks = [];
        undos = [];
        first_height = 0;
        horizon = none;
        horizon_work = 0;
      } in
      let t : SuffixTrial Point = record {
        trial = trial;
        based_on = tip_hash c ch;
        rewind = depth;
        our_work = ch.total_work;
      } in
      (
        t,
        rw (d, prepare_suffix_trial) (ground (arith, e, tip, few, held, low, light)),
        refl,
        refl,
        omega (arith, light),
        refl,
        refl,
        refl,
      )

  -- A run of at most 500 blocks that a well-formed chain takes is undone by the trial for a fork at
  -- the old tip: the ledger, the headers and the work of the trial are those the chain had before
  -- the run. It is stated for a chain with a header, whose headers number at most 2^64 and bear less
  -- than 2^128 work.
  pub prepare-apply_each :
      (base height : ℕ) (ch chain : Chain Point) (blocks : List Block) (now_unix : ℕ)
      → IsChain c base ch
      → length ch.headers ≡ suc height
      → apply_each c ch blocks now_unix ≡ ok chain
      → length blocks ≤ 500
      → length chain.headers ≤ 2 ^ 64
      → headers_work chain.headers < 2 ^ 128
      → (t : SuffixTrial Point) × (prepare_suffix_trial c chain height ≡ ok t)
        × (t.trial.ledger ≡ ch.ledger)
        × (t.trial.headers ≡ ch.headers)
        × (t.trial.total_work ≡ ch.total_work)
        × (t.rewind ≡ length blocks)
        × (t.our_work ≡ chain.total_work)
  prepare-apply_each base height ch chain blocks now_unix w tip h few short light =
      let (ended, r) = apply_each-Run c base ch chain blocks now_unix w h in
      let n = length blocks in
      let size : length chain.headers ≡ suc height + n =
        ap length r.grown ∙ length-append ch.headers r.added ∙ omega (arith, tip, r.counted) in
      let weight : headers_work chain.headers ≡ headers_work ch.headers + work_sum r.records =
        ap headers_work r.grown
        ∙ headers_work-append_all ch.headers r.added
        ∙ omega (arith, r.weighed) in
      let newest : take n (reverse chain.undos) ≡ reverse r.records =
        ap (λ us. take n (reverse us)) r.window
        ∙ ap (λ k. take k (reverse (trim (ch.undos ++ r.records)))) (sym r.recorded)
        ∙ take-reverse-trim ch.undos r.records (omega (arith, r.recorded)) in
      let weighed : work_sum (take n (reverse chain.undos)) ≡ work_sum r.records =
        ap work_sum newest ∙ work_sum-reverse r.records in
      let held : n ≤ length chain.undos = omega (
        arith,
        ap length r.window,
        length-trim (ch.undos ++ r.records),
        length-append ch.undos r.records,
        r.recorded,
      ) in
      let (t, prepared_, ledger, headers, worked, rewound, based, ours) =
        prepared chain height n
          (omega (arith, size, tip_known base chain ended (omega (arith, size)) short)) few held
          (omega (arith, size)) (omega (arith, weight, weighed, light, ended.worked)) in
      (
        t,
        prepared_,
        ledger ∙ ap (rewind_all c chain.ledger) newest ∙ r.back,
        headers
            ∙ ap (take (suc height)) r.grown
            ∙ take-append (suc height) ch.headers r.added (sym tip),
        omega (arith, worked, weight, weighed, light, ended.worked, w.worked),
        rewound,
        ours,
      )
