-- ===== src/Chain/Pruned.antt =====
-- Pruning drops bodies and nothing else (crates/nightfall-consensus/src/lib.rs, `prune_keep`).
use nightfall.Common.{
  ℕ, zero, suc, ◌+◌, ◌-◌, ◌≡◌, ◌∙◌, ap, sym, refl, true, false, List, [], ◌∷◌, leb, arith, inl, inr,
  max, map, drop, take, length, length-drop, leb→le, Bool-cases, Option, some,
}
use nightfall.Common.Result.{Result, ok, err, Result-cases}
use nightfall.Crypto.{Primitives}
use nightfall.Chain.{Chain, Block, ConsensusError, from_block}
use nightfall.Ledger.{LedgerState}
use nightfall.Chain.Window.{advance_horizon, horizon_start, prune_keep}
use nightfall.Chain.Shape.{IsChain}

module _ {A B : Type 0} (f : A → B) where
  map-drop : (n : ℕ) (xs : List A) → map f (drop n xs) ≡ drop n (map f xs)
  map-drop zero xs = refl
  map-drop (suc n) [] = refl
  map-drop (suc n) (x ∷ xs) = map-drop n xs

drop_eq : {A : Type 0} (m n : ℕ) (xs : List A) → m ≡ n → drop m xs ≡ drop n xs
drop_eq m n xs e = ap (λ k. drop k xs) e

drop-nil : {A : Type 0} (n : ℕ) → drop {A = A} n [] ≡ []
drop-nil zero = refl
drop-nil (suc n) = refl

drop-drop : {A : Type 0} (m n : ℕ) (xs : List A) → drop n (drop m xs) ≡ drop (m + n) xs
drop-drop zero n xs = ap (λ k. drop k xs) {x = n} {y = 0 + n} (omega arith)
drop-drop (suc m) zero [] = sym (drop-nil (suc m + 0))
drop-drop (suc m) (suc n) [] = sym (drop-nil (suc m + suc n))
drop-drop (suc m) n (x ∷ xs) =
    drop-drop m n xs ∙ drop_eq (suc (m + n)) (suc m + n) (x ∷ xs) (omega arith)

module _ (c : Primitives) where
  open c use {Point}

  -- What pruning leaves alone.
  pub record Keeps (ch after : Chain Point) : Type 0 where
    pub ledger : after.ledger ≡ ch.ledger
    pub headers : after.headers ≡ ch.headers
    pub undos : after.undos ≡ ch.undos
    pub total_work : after.total_work ≡ ch.total_work
    pub genesis_hash : after.genesis_hash ≡ ch.genesis_hash
    pub network : after.network ≡ ch.network

  abbrev pub Dropped : ℕ → Chain Point → Chain Point → Result ConsensusError ℕ → Type 0
  Dropped keep ch after (err e) =
      (after.blocks ≡ ch.blocks) × (after.first_height ≡ ch.first_height)
  Dropped keep ch after (ok n) =
      (n ≡ length ch.blocks - max keep 1)
      × (after.blocks ≡ drop n ch.blocks)
      × (after.first_height ≡ ch.first_height + n)

  moved : (ch : Chain Point) (keep : ℕ) → (LedgerState Point × ℕ) × Result ConsensusError (Unit {0})
  moved ch keep =
      advance_horizon c ch.emission (take (length ch.blocks - max keep 1) ch.blocks)
        (horizon_start c ch).0 (horizon_start c ch).1

  kept :
      (ch after : Chain Point) (keep : ℕ) (result : Result ConsensusError ℕ)
      → prune_keep c ch keep ≡ (after, result)
      → leb (length ch.blocks) (max keep 1) ≡ true
      → (after ≡ ch) × (result ≡ ok 0)
  unfolding prune_keep
  kept ch after keep result h t = (ground arith, ground arith)

  failed :
      (ch after : Chain Point) (keep : ℕ) (result : Result ConsensusError ℕ) (e : ConsensusError)
      → prune_keep c ch keep ≡ (after, result)
      → leb (length ch.blocks) (max keep 1) ≡ false
      → (moved ch keep).1 ≡ err e
      → (after
          ≡ record ch { horizon = some (moved ch keep).0.0; horizon_work = (moved ch keep).0.1 })
        × (result ≡ err e)
  unfolding prune_keep moved
  failed ch after keep result e h f q = (ground (arith, q), ground (arith, q))

  cut :
      (ch after : Chain Point) (keep : ℕ) (result : Result ConsensusError ℕ) (u : Unit {0})
      → prune_keep c ch keep ≡ (after, result)
      → leb (length ch.blocks) (max keep 1) ≡ false
      → (moved ch keep).1 ≡ ok u
      → (after ≡ record ch {
        horizon = some (moved ch keep).0.0;
        horizon_work = (moved ch keep).0.1;
        blocks = drop (length ch.blocks - max keep 1) ch.blocks;
        first_height = ch.first_height + (length ch.blocks - max keep 1);
      })
        × (result ≡ ok (length ch.blocks - max keep 1))
  unfolding prune_keep moved
  cut ch after keep result u h f q = (ground (arith, q), ground (arith, q))

  untouched :
      (ch : Chain Point) (hz : Option (LedgerState Point)) (hw : ℕ) (bs : List Block) (fh : ℕ)
      → Keeps ch (record ch { horizon = hz; horizon_work = hw; blocks = bs; first_height = fh })
  untouched ch hz hw bs fh = record {
    ledger = refl;
    headers = refl;
    undos = refl;
    total_work = refl;
    genesis_hash = refl;
    network = refl;
  }

  -- Pruning leaves the ledger, the headers, the work and the undo window alone.  It answers how many
  -- bodies it dropped: the oldest ones, down to `keep` and to one at least; a failure drops none.
  pub prune_keep_lem :
      (ch after : Chain Point) (keep : ℕ) (result : Result ConsensusError ℕ)
      → prune_keep c ch keep ≡ (after, result)
      → Keeps ch after × Dropped keep ch after result
  prune_keep_lem ch after keep result h = elim (Bool-cases (leb (length ch.blocks) (max keep 1))) [
    | inl t ↦
        let (e, r) = kept ch after keep result h t in
        rw (e, r)
          (
            untouched ch ch.horizon ch.horizon_work ch.blocks ch.first_height,
            (omega (arith, leb→le (length ch.blocks) (max keep 1) t), refl, omega arith),
          )
    | inr f ↦ elim (Result-cases (moved ch keep).1) [
      | inl (u, q) ↦
          let (e, r) = cut ch after keep result u h f q in
          rw (e, r) (untouched ch _ _ _ _, (refl, refl, refl))
      | inr (x, q) ↦
          let (e, r) = failed ch after keep result x h f q in
          rw (e, r) (untouched ch _ _ ch.blocks ch.first_height, (refl, refl))
    ]
  ]

  -- Pruning keeps the chain well formed, at its new first height.
  pub prune_keep-IsChain :
      (ch after : Chain Point) (keep : ℕ) (result : Result ConsensusError ℕ)
      → IsChain c ch.first_height ch
      → prune_keep c ch keep ≡ (after, result)
      → IsChain c after.first_height after
  prune_keep-IsChain ch after keep (err e) w h =
      let (k, (blocks, first)) = prune_keep_lem ch after keep (err e) h in
      record {
        summed = rw k.ledger w.summed;
        linked = rw (k.headers, k.genesis_hash) w.linked;
        aligned = rw (blocks, k.headers, first) w.aligned;
        counted = rw (blocks, k.headers, first) w.counted;
        started = rw (k.headers, first) w.started;
        worked = rw (k.headers, k.total_work) w.worked;
        bounded = rw k.undos w.bounded;
      }
  prune_keep-IsChain ch after keep (ok n) w h =
      let (k, (size, blocks, first)) = prune_keep_lem ch after keep (ok n) h in
      record {
        summed = rw k.ledger w.summed;
        linked = rw (k.headers, k.genesis_hash) w.linked;
        aligned =
            rw (blocks, k.headers, first)
              (map-drop (from_block c) n ch.blocks
                ∙ ap (drop n) w.aligned
                ∙ drop-drop ch.first_height n ch.headers);
        counted =
            rw (blocks, k.headers, first) (omega (arith, length-drop n ch.blocks, w.counted, size));
        started = rw (k.headers, first) (omega (arith, w.counted, size));
        worked = rw (k.headers, k.total_work) w.worked;
        bounded = rw k.undos w.bounded;
      }
