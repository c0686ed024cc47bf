-- ===== src/Chain/Ingest.antt =====
-- Taking in blocks on the tip, and rebuilding a chain from its blocks
-- (crates/nightfall-consensus/src/lib.rs).
use nightfall.Common.{
  ℕ, suc, ◌+◌, ◌≤◌, ◌≡◌, ◌∙◌, ap, sym, refl, true, false, some, List, [], ◌∷◌, length, ltb, arith,
  get_elem?, inl, inr, ◌⊎◌, take, if◌then◌else◌, ◌||◌, Bool-cases,
}
use nightfall.Common.Result.{Result, ok, err, Result-cases}
use nightfall.Crypto.{Primitives}
use nightfall.Chain.{Chain, Block, ConsensusError}
use nightfall.Chain.Apply.{apply_block, apply_block_inner}
use nightfall.Chain.Refused.{apply_block_inner_refused}
use nightfall.Chain.Accepted.{apply_block_inner-IsChain}
use nightfall.Chain.Shape.{IsChain}
use nightfall.Chain.Suffix.{apply_each}
use nightfall.Chain.Reorg.{does_not_connect, ingest, try_ingest_blocks}

module _ (c : Primitives) where
  open c use {Point}

  pub apply_block-IsChain :
      (base : ℕ) (ch : Chain Point) (b : Block) (now_unix : ℕ)
      → IsChain c base ch
      → IsChain c base (apply_block c ch b now_unix).0
  unfolding apply_block
  apply_block-IsChain base ch b now_unix w =
      apply_block_inner-IsChain c base ch _ b now_unix true _ w refl

  apply_block_refused :
      (base : ℕ) (ch : Chain Point) (b : Block) (now_unix : ℕ) (e : ConsensusError)
      → IsChain c base ch
      → (apply_block c ch b now_unix).1 ≡ err e
      → (apply_block c ch b now_unix).0 ≡ ch
  unfolding apply_block
  apply_block_refused base ch b now_unix e w q =
      apply_block_inner_refused c ch _ b now_unix true e w.summed
        (ap (λ t. ((apply_block_inner c ch b now_unix true).0, t)) q)

  -- What a pass over blocks leaves behind: on success the first `k` of them were taken, all of them
  -- or up to one that is refused; on failure nothing was.
  abbrev pub Ingested :
      Chain Point → List Block → ℕ → ℕ → Chain Point → Result ConsensusError ℕ → Type 0
  Ingested ch blocks now_unix n after (ok m) =
      (k : ℕ) × (m ≡ n + k)
      × (k ≤ length blocks)
      × (apply_each c ch (take k blocks) now_unix ≡ ok after)
      × ((k ≡ length blocks)
          ⊎ ((b : Block) × (get_elem? blocks k ≡ some b)
              × (e : ConsensusError) × (apply_block c after b now_unix ≡ (after, err e))))
  Ingested ch blocks now_unix n after (err e) =
      (after ≡ ch)
      × (n ≡ 0)
      × (b : Block) × (get_elem? blocks 0 ≡ some b)
      × (apply_block c ch b now_unix ≡ (ch, err e))
      × (does_not_connect e ≡ false)

  step :
      (ch : Chain Point) (b : Block) (blocks : List Block) (now_unix n : ℕ) (u : Unit {0})
      → (apply_block c ch b now_unix).1 ≡ ok u
      → ingest c ch (b ∷ blocks) now_unix n
        ≡ ingest c (apply_block c ch b now_unix).0 blocks now_unix (suc n)
  unfolding ingest
  step ch b blocks now_unix n u q = ground (arith, q)

  stop :
      (ch : Chain Point) (b : Block) (blocks : List Block) (now_unix n : ℕ) (e : ConsensusError)
      → (apply_block c ch b now_unix).1 ≡ err e
      → ingest c ch (b ∷ blocks) now_unix n
        ≡ ((apply_block c ch b now_unix).0, if does_not_connect e || ltb 0 n then ok n else err e)
  unfolding ingest
  stop ch b blocks now_unix n e q = ground (arith, q)

  taken_more :
      (ch : Chain Point) (b : Block) (blocks : List Block) (now_unix n : ℕ) (u : Unit {0})
      (after : Chain Point) (result : Result ConsensusError ℕ)
      → (apply_block c ch b now_unix).1 ≡ ok u
      → Ingested (apply_block c ch b now_unix).0 blocks now_unix (suc n) after result
      → Ingested ch (b ∷ blocks) now_unix n after result
  unfolding apply_each
  taken_more ch b blocks now_unix n u after (ok m) q (k, e, low, run, why) = (
    suc k,
    omega (arith, e),
    omega (arith, low),
    ground (arith, q, run),
    elim why [ inl full ↦ inl (ap suc full) | inr found ↦ inr found ],
  )
  taken_more ch b blocks now_unix n u after (err e) q t = absurd (omega (arith, t.1))

  none_left :
      (ch after : Chain Point) (now_unix n : ℕ) (result : Result ConsensusError ℕ)
      → ingest c ch [] now_unix n ≡ (after, result)
      → (ch ≡ after) × (ok n ≡ result)
  unfolding ingest
  none_left ch after now_unix n result h = (ap (λ t. t.0) h, ap (λ t. t.1) h)

  done : (ch : Chain Point) (now_unix n : ℕ) → Ingested ch [] now_unix n ch (ok n)
  unfolding apply_each
  done ch now_unix n = (0, omega arith, omega arith, refl, inl refl)

  refusal :
      (ch : Chain Point) (b : Block) (blocks : List Block) (now_unix n : ℕ) (e : ConsensusError)
      → apply_block c ch b now_unix ≡ (ch, err e)
      → Ingested ch
          (b ∷ blocks)
          now_unix
          n
          ch
          (if does_not_connect e || ltb 0 n then ok n else err e)
  unfolding apply_each
  refusal ch b blocks now_unix n e q = elim (Bool-cases (does_not_connect e || ltb 0 n)) [
    | inl t ↦ rw t (0, omega arith, omega arith, refl, inr (b, refl, e, q))
    | inr f ↦ rw f (refl, ground (arith, f), b, refl, q, ground (arith, f))
  ]

  -- The loop on blocks, with `n` of them applied before it.
  ingested :
      (base : ℕ) (blocks : List Block) (n : ℕ) (ch after : Chain Point) (now_unix : ℕ)
      (result : Result ConsensusError ℕ)
      → IsChain c base ch
      → ingest c ch blocks now_unix n ≡ (after, result)
      → IsChain c base after × Ingested ch blocks now_unix n after result
  ingested base [] n ch after now_unix result w h =
      let (e, f) = none_left ch after now_unix n result h in
      rw (sym e, sym f) (w, done ch now_unix n)
  ingested base (b ∷ blocks) n ch after now_unix result w h =
      let p = apply_block c ch b now_unix in
      let kept = apply_block-IsChain base ch b now_unix w in
      elim (Result-cases p.1) [
        | inl (u, q) ↦
            let (ended, rest) =
              ingested base blocks (suc n) p.0 after now_unix result kept
                (sym (step ch b blocks now_unix n u q) ∙ h) in
            (ended, taken_more ch b blocks now_unix n u after result q rest)
        | inr (e, q) ↦
            let same = apply_block_refused base ch b now_unix e w q in
            let verdict = sym (stop ch b blocks now_unix n e q) ∙ h in
            let stays : ch ≡ after = sym same ∙ ap (λ t. t.0) verdict in
            rw (sym stays, sym (ap (λ t. t.1) verdict))
              (w, refusal ch b blocks now_unix n e (ap (λ t. (t, p.1)) same ∙ ap (λ t. (ch, t)) q))
      ]

  -- A pass over blocks keeps the chain well formed.  It takes the blocks from the first on, until one
  -- is refused.  A failure is the refusal of the first block, and changes nothing.
  pub try_ingest_blocks_lem :
      (base : ℕ) (ch after : Chain Point) (blocks : List Block) (now_unix : ℕ)
      (result : Result ConsensusError ℕ)
      → IsChain c base ch
      → try_ingest_blocks c ch blocks now_unix ≡ (after, result)
      → IsChain c base after × Ingested ch blocks now_unix 0 after result
  unfolding try_ingest_blocks
  try_ingest_blocks_lem base ch after blocks now_unix result w h =
      ingested base blocks 0 ch after now_unix result w h
