-- ===== src/Chain/Suffix.antt =====
-- The suffix reorganisation of crates/nightfall-consensus/src/lib.rs: a trial chain at the fork
-- ancestor, the new blocks on it, and the splice.
use nightfall.Common.{
  ℕ, suc, ◌+◌, ◌-◌, Bool, not, ◌||◌, none, some, Option, List, [], ◌∷◌, ◌++◌, leb, ltb, ◌==◌,
  length, take, reverse, if◌then◌else◌,
}
use nightfall.Common.Result.{Result, ok, err, ◌>>=◌, ◌>>◌, require, ok_or}
use nightfall.Common.Words.{saturating_add128, checked_sub}
use nightfall.Crypto.{Primitives}
use nightfall.Ledger.{LedgerState, rewind}
use nightfall.Chain.{
  Chain, Block, CompactHeader, TipUndo, ConsensusError, bad_height, reorg_too_deep, max_reorg_depth,
  work, tip_height, tip_hash, new_fair,
}
use nightfall.Chain.Apply.{trim, apply_block}
use nightfall.Chain.Window.{rewound_work}

pub record SuffixTrial (Point : Type 0) : Type 0 where
  pub trial : Chain Point
  pub based_on : ℕ
  pub rewind : ℕ
  pub our_work : ℕ

pub record SuffixReorg (Point : Type 0) : Type 0 where
  pub ledger : LedgerState Point
  pub headers : List CompactHeader
  pub suffix : List Block
  pub undos : List TipUndo
  pub total_work : ℕ
  pub rewind : ℕ
  pub based_on : ℕ

-- The sum of the declared works.
unfoldable pub declared_work : List Block → ℕ
declared_work [] = 0
declared_work (b ∷ blocks) = work b + declared_work blocks

module _ (c : Primitives) where
  open c use {Point}

  unfoldable pub rewind_all : LedgerState Point → List TipUndo → LedgerState Point
  rewind_all ledger [] = ledger
  rewind_all ledger (u ∷ undos) = rewind_all (rewind c ledger u.state) undos

  unfoldable pub tip_or_zero : Chain Point → ℕ
  tip_or_zero ch = elim (tip_height c ch) [ none ↦ 0 | some h ↦ h ]

  unfoldable pub prepare_suffix_trial : Chain Point → ℕ → Result ConsensusError (SuffixTrial Point)
  prepare_suffix_trial ch ancestor_height = do
    let our_tip = tip_or_zero ch
    require (not (ltb our_tip ancestor_height)) bad_height
    let depth = our_tip - ancestor_height
    require (not (ltb max_reorg_depth depth || ltb (length ch.undos) depth)) reorg_too_deep
    require (ltb ancestor_height (length ch.headers)) bad_height
    rewind_work ← ok_or (rewound_work c ch depth) reorg_too_deep
    ancestor_work ← ok_or (checked_sub ch.total_work rewind_work) reorg_too_deep
    fresh ← new_fair c ch.network
    ok (record {
      trial = record fresh {
        ledger = rewind_all ch.ledger (take depth (reverse ch.undos));
        total_work = ancestor_work;
        headers = take (suc ancestor_height) ch.headers;
        blocks = [];
        undos = [];
        first_height = 0;
        horizon = none;
        horizon_work = 0;
      };
      based_on = tip_hash c ch;
      rewind = depth;
      our_work = ch.total_work;
    })

  -- The loop over a suffix: the first failure ends it.
  unfoldable pub apply_each : Chain Point → List Block → ℕ → Result ConsensusError (Chain Point)
  apply_each ch [] now_unix = ok ch
  apply_each ch (b ∷ blocks) now_unix =
      let (after, result) = apply_block c ch b now_unix in
      elim result [ err e ↦ err e | ok _ ↦ apply_each after blocks now_unix ]

  unfoldable pub finish_suffix :
      SuffixTrial Point → List Block → ℕ → Result ConsensusError (Option (SuffixReorg Point))
  finish_suffix t suffix now_unix =
      if length suffix == 0
      then ok none
      else if leb (saturating_add128 t.trial.total_work (declared_work suffix)) t.our_work
      then ok none
      else (do
        chain ← apply_each t.trial suffix now_unix
        if leb chain.total_work t.our_work
            then ok none
            else ok (
                some (record {
                  ledger = chain.ledger;
                  headers = chain.headers;
                  suffix = chain.blocks;
                  undos = chain.undos;
                  total_work = chain.total_work;
                  rewind = t.rewind;
                  based_on = t.based_on;
                })))

  unfoldable pub splice_suffix : Chain Point → SuffixReorg Point → Chain Point × Bool
  splice_suffix ch r =
      if not (tip_hash c ch == r.based_on) || leb r.total_work ch.total_work
      then (ch, Bool.false)
      else if ltb (length ch.blocks) r.rewind || ltb (length ch.undos) r.rewind
      then (ch, Bool.false)
      else (
        record ch {
          blocks = take (length ch.blocks - r.rewind) ch.blocks ++ r.suffix;
          headers = r.headers;
          ledger = r.ledger;
          total_work = r.total_work;
          undos = trim (take (length ch.undos - r.rewind) ch.undos ++ r.undos);
        },
        Bool.true,
      )
