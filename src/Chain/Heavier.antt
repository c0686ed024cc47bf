-- ===== src/Chain/Heavier.antt =====
-- Fork choice never gives up work (crates/nightfall-consensus/src/lib.rs).
use nightfall.Common.{
  ℕ, ◌<◌, ◌≤◌, ◌≡◌, ◌∙◌, ap, Bool, true, false, some, Option, List, ◌++◌, length, arith,
  Option-cases, inl, inr, ◌⊎◌, take, ◌-◌, if◌then◌else◌,
}
use nightfall.Common.Result.{Result, ok, Result-cases}
use nightfall.Types.{NetworkId}
use nightfall.Crypto.{Primitives}
use nightfall.Ledger.{verify_supply}
use nightfall.Chain.{Chain, Block, PrunedBase, ConsensusError, tip_hash, hash_chain}
use nightfall.Chain.Window.{pruned_base}
use nightfall.Chain.Shape.{length-trim}
use nightfall.Chain.Suffix.{SuffixTrial, SuffixReorg, apply_each, finish_suffix, splice_suffix}
use nightfall.Chain.Reorg.{rebuild_candidate, evaluate_reorg_at, adopt_reorg, maybe_reorg_to}

module _ (c : Primitives) where
  open c use {Point}

  finished :
      (t : SuffixTrial Point) (suffix : List Block) (now_unix : ℕ) (r : SuffixReorg Point)
      → finish_suffix c t suffix now_unix ≡ ok (some r)
      → (chain : Chain Point) × (apply_each c t.trial suffix now_unix ≡ ok chain)
        × (r.ledger ≡ chain.ledger)
        × (r.headers ≡ chain.headers)
        × (r.suffix ≡ chain.blocks)
        × (r.total_work ≡ chain.total_work)
        × (r.based_on ≡ t.based_on)
        × (r.rewind ≡ t.rewind)
        × (t.our_work < r.total_work)
  unfolding finish_suffix
  finished t suffix now_unix r h = elim (Result-cases (apply_each c t.trial suffix now_unix)) [
    | inl (chain, e) ↦ (
      chain,
      e,
      ground (arith, e),
      ground (arith, e),
      ground (arith, e),
      ground (arith, e),
      ground (arith, e),
      ground (arith, e),
      ground (arith, e),
    )
    | inr (e, q) ↦ absurd (ground (arith, q))
  ]

  spliced :
      (ch after : Chain Point) (r : SuffixReorg Point)
      → splice_suffix c ch r ≡ (after, true)
      → (ch.total_work < r.total_work)
        × (tip_hash c ch ≡ r.based_on)
        × (r.rewind ≤ length ch.blocks)
        × (after.total_work ≡ r.total_work)
        × (after.ledger ≡ r.ledger)
        × (after.headers ≡ r.headers)
        × (after.blocks ≡ take (length ch.blocks - r.rewind) ch.blocks ++ r.suffix)
        × (length after.undos ≤ 500)
  unfolding splice_suffix
  spliced ch after r h = (
    ground arith,
    ground arith,
    ground arith,
    ground arith,
    ground arith,
    ground arith,
    ground arith,
    ground (arith, length-trim (take (length ch.undos - r.rewind) ch.undos ++ r.undos)),
  )

  not_spliced :
      (ch after : Chain Point) (r : SuffixReorg Point)
      → splice_suffix c ch r ≡ (after, false)
      → after ≡ ch
  unfolding splice_suffix
  not_spliced ch after r h = ground arith

  evaluated :
      (no_assume_valid : Bool) (network : NetworkId) (our_work : ℕ) (our_hashes : List ℕ)
      (base : Option (PrunedBase Point)) (blocks : List Block) (now_unix : ℕ)
      (candidate : Chain Point)
      → evaluate_reorg_at c no_assume_valid network our_work our_hashes base blocks now_unix
        ≡ ok (some candidate)
      → (our_work < candidate.total_work)
        × (verify_supply c candidate.ledger ≡ ok tt)
        × (rebuild_candidate c no_assume_valid network our_hashes base blocks now_unix
            ≡ ok candidate)
  unfolding evaluate_reorg_at
  evaluated no_assume_valid network our_work our_hashes base blocks now_unix candidate h =
      elim (Result-cases
        (rebuild_candidate c no_assume_valid network our_hashes base blocks now_unix)) [
          | inl (built, e) ↦ elim (Result-cases (verify_supply c built.ledger)) [
            | inl (u, v) ↦ (ground (arith, e, v), ground (arith, e, v), ground (arith, e, v))
            | inr (x, v) ↦ absurd (ground (arith, e, v))
          ]
          | inr (x, e) ↦ absurd (ground (arith, e))
        ]

  -- A finished suffix is the run of its blocks on the trial, with more work than the chain had when
  -- the trial was made. Spliced, it gives that run's ledger, headers and work to a chain whose tip
  -- is still the one it was prepared on and which has less work; otherwise the chain is unchanged.
  pub splice-finish_suffix :
      (t : SuffixTrial Point) (suffix : List Block) (now_unix : ℕ) (r : SuffixReorg Point)
      (ch after : Chain Point) (adopted : Bool)
      → finish_suffix c t suffix now_unix ≡ ok (some r)
      → splice_suffix c ch r ≡ (after, adopted)
      → (t.our_work < r.total_work)
        × (if adopted
            then ((run : Chain Point) × (apply_each c t.trial suffix now_unix ≡ ok run)
                × (after.ledger ≡ run.ledger)
                × (after.headers ≡ run.headers)
                × (after.total_work ≡ run.total_work)
                × (tip_hash c ch ≡ t.based_on)
                × (ch.total_work < after.total_work)
                × (length after.undos ≤ 500))
            else (after ≡ ch))
  splice-finish_suffix t suffix now_unix r ch after true h k =
      let (run, e, ledger, headers, suffix_, worked, based, rewound, heavier) =
        finished t suffix now_unix r h in
      let (lighter, tip, held, worked', ledger', headers', blocks', bounded) =
        spliced ch after r k in
      (
        heavier,
        (
          run,
          e,
          ledger' ∙ ledger,
          headers' ∙ headers,
          worked' ∙ worked,
          tip ∙ based,
          omega (arith, lighter, worked'),
          bounded,
        ),
      )
  splice-finish_suffix t suffix now_unix r ch after false h k =
      let (run, e, ledger, headers, suffix_, worked, based, rewound, heavier) =
        finished t suffix now_unix r h in
      (heavier, not_spliced ch after r k)

  -- Whatever candidate it is given, the chain moves only when the answer is `true`, and then to the
  -- chain rebuilt from the candidate, which has more work and whose supply verifies.
  pub maybe_reorg_to_lem :
      (no_assume_valid : Bool) (ch after : Chain Point) (blocks : List Block) (now_unix : ℕ)
      (result : Result ConsensusError Bool)
      → maybe_reorg_to c no_assume_valid ch blocks now_unix ≡ (after, result)
      → (after ≡ ch)
        ⊎ ((result ≡ ok true)
            × (ch.total_work < after.total_work)
            × (verify_supply c after.ledger ≡ ok tt)
            × (rebuild_candidate c no_assume_valid ch.network
                  (hash_chain c ch)
                  (pruned_base c ch)
                  blocks
                  now_unix
                ≡ ok after))
  unfolding maybe_reorg_to adopt_reorg
  maybe_reorg_to_lem no_assume_valid ch after blocks now_unix result h =
      let evaluation : Result ConsensusError (Option (Chain Point)) =
        evaluate_reorg_at c no_assume_valid ch.network ch.total_work (hash_chain c ch)
          (pruned_base c ch) blocks now_unix in
      elim (Result-cases evaluation) [
        | inr (e, q) ↦ inl (ground arith)
        | inl (found, q) ↦ elim (Option-cases found) [
          | inl n ↦ inl (ground arith)
          | inr (candidate, n) ↦
              let (heavier, verified, built) =
                evaluated no_assume_valid ch.network ch.total_work (hash_chain c ch)
                  (pruned_base c ch) blocks now_unix candidate (q ∙ ap ok n) in
              let e : after ≡ candidate = ground arith in
              inr (
                ground arith,
                omega (arith, heavier, ap (λ (k : Chain Point). k.total_work) e),
                rw e verified,
                rw e built,
              )
        ]
      ]
