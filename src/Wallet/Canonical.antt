-- ===== src/Wallet/Canonical.antt =====
-- After a rebase the wallet's outputs are those of the chain it was given
-- (crates/nightfall-wallet/src/lib.rs).
use nightfall.Common.{
  ◌≡◌, ◌∙◌, ap, sym, subst, refl, Bool, true, List, [], ◌∷◌, ◌++◌, map, arith, filter, All, inl,
  inr, Bool-cases, Option, ◌==◌, ==_iff,
}
use mathlib.Core.List.{append_assoc}
use nightfall.Common.Result.{ok}
use nightfall.Crypto.{Primitives}
use nightfall.Crypto.Commit.{Commitment}
use nightfall.Crypto.Output.{Output}
use nightfall.Chain.{Block}
use nightfall.Tx.{any}
use nightfall.Wallet.{Hex, WalletFile, OwnedOutput, is_open_send, contains}
use nightfall.Wallet.Gather.{Discovered, Gathered, gather}
use nightfall.Wallet.Reconcile.{on_chain, flag_spent, reconcile_with}
use nightfall.Wallet.Sends.{mark_spent}
use nightfall.Wallet.Scan.{
  scanned, scan_blocks_inner, rebase_on_shorter_chain, scan_if, may_rebase, start_at,
}
use nightfall.Wallet.Held.{
  consumed, held, contains-append, held-map, contains-commits, IsOwn, IsHeld, Knows, gather_spent,
  gather_holds,
}

abbrev pub AgreesWith : List Block → OwnedOutput → Type 0
AgreesWith blocks o =
    (contains (on_chain blocks) o.commit ≡ true) × (o.spent ≡ contains (consumed blocks) o.commit)

held-filter :
    (chain : List Commitment) (os : List OwnedOutput) (k : Commitment)
    → contains chain k ≡ true
    → held os k ≡ true
    → held (filter (λ o. contains chain o.commit) os) k ≡ true
unfolding held any
held-filter chain [] k c h = h
held-filter chain (o ∷ os) k c h = elim (Bool-cases (o.commit == k)) [
  | inl e ↦ let on = ap (contains chain) ((==_iff o.commit k).0 e) ∙ c in ground (arith, on, e)
  | inr e ↦ ground (arith, e, h, held-filter chain os k c)
]

flagged :
    (chain spent : List Commitment) (os : List OwnedOutput)
    → All
        (λ o. (contains chain o.commit ≡ true) × (o.spent ≡ contains spent o.commit))
        (map (flag_spent spent) (filter (λ o. contains chain o.commit) os))
unfolding flag_spent
flagged chain spent [] = tt
flagged chain spent (o ∷ os) = elim (Bool-cases (contains chain o.commit)) [
  | inl e ↦ rw e ((e, refl), flagged chain spent os)
  | inr e ↦ rw e (flagged chain spent os)
]

mark_commit : (spent : List Commitment) (o : OwnedOutput) → (mark_spent spent o).commit ≡ o.commit
unfolding mark_spent
mark_commit spent o = ground arith

AllOn : List Commitment → List Output → Type 0
AllOn chain outs = All (λ out. contains chain out.commit ≡ true) outs

first_on :
    (outs : List Output) (before rest : List Commitment)
    → AllOn (before ++ (map (λ o. o.commit) outs ++ rest)) outs
unfolding AllOn contains any
first_on [] before rest = tt
first_on (out ∷ outs) before rest = (
  ground (
    arith,
    contains-append before (out.commit ∷ (map (λ (o : Output). o.commit) outs ++ rest)) out.commit,
  ),
  subst (λ t. AllOn t outs)
      (append_assoc before (out.commit ∷ []) (map (λ (o : Output). o.commit) outs ++ rest))
      (first_on outs (before ++ out.commit ∷ []) rest),
)

all_on :
    (bs : List Block) (before : List Commitment)
    → All (λ b. AllOn (before ++ on_chain bs) b.body.outputs) bs
unfolding AllOn on_chain
all_on [] before = tt
all_on (b ∷ bs) before = (
  first_on b.body.outputs before (on_chain bs),
  subst (λ t. All (λ (q : Block). AllOn t q.body.outputs) bs)
      (append_assoc before (map (λ (o : Output). o.commit) b.body.outputs) (on_chain bs))
      (all_on bs (before ++ map (λ o. o.commit) b.body.outputs)),
)

-- What is held and on the chain is still held once the wallet is brought back to the chain.
kept_held :
    (chain spent : List Commitment) (os : List OwnedOutput) (k : Commitment)
    → contains chain k ≡ true
    → held os k ≡ true
    → held
        (map (flag_spent spent) (filter (λ o. contains chain o.commit) (map (mark_spent spent) os)))
        k
      ≡ true
unfolding flag_spent
kept_held chain spent os k on h =
    held-map (flag_spent spent) (filter (λ o. contains chain o.commit) (map (mark_spent spent) os))
      k (λ o. refl)
    ∙ held-filter chain (map (mark_spent spent) os) k on
        (held-map (mark_spent spent) os k (mark_commit spent) ∙ h)

module _ (c : Primitives) (x : Hex) (scan : Output → Option (Discovered c.Scalar)) where
  all_kept :
      (chain spent : List Commitment) (os : List OwnedOutput) (outs : List Output)
      → AllOn chain outs
      → All (IsHeld c x scan os) outs
      → All
          (IsHeld c x scan (
            map
              (flag_spent spent)
              (filter (λ o. contains chain o.commit) (map (mark_spent spent) os))))
          outs
  unfolding AllOn
  all_kept chain spent os [] on h = tt
  all_kept chain spent os (out ∷ outs) on h =
      (λ s. kept_held chain spent os out.commit on.0 (h.0 s), all_kept chain spent os outs on.1 h.1)

  blocks_kept :
      (chain spent : List Commitment) (os : List OwnedOutput) (bs : List Block)
      → All (λ b. AllOn chain b.body.outputs) bs
      → All (λ b. All (IsHeld c x scan os) b.body.outputs) bs
      → All
          (λ b.
            All
              (IsHeld c x scan (
                map
                  (flag_spent spent)
                  (filter (λ o. contains chain o.commit) (map (mark_spent spent) os))))
              b.body.outputs)
          bs
  blocks_kept chain spent os [] on h = tt
  blocks_kept chain spent os (b ∷ bs) on h =
      (all_kept chain spent os b.body.outputs on.0 h.0, blocks_kept chain spent os bs on.1 h.1)

  canonical :
      (own : IsOwn c x scan) (blocks : List Block) (db : WalletFile)
      → All (AgreesWith blocks) (scanned c x scan blocks true db).0.outputs
        × All
            (λ b. All (IsHeld c x scan (scanned c x scan blocks true db).0.outputs) b.body.outputs)
            blocks
  unfolding scanned reconcile_with Knows
  canonical own blocks db =
      let known = map (λ (o : OwnedOutput). o.commit) db.outputs in
      let pending = filter is_open_send db.history in
      let begin : Gathered = record {
        outputs = db.outputs;
        new_history = [];
        spent_commits = [];
        confirmed = [];
        highest = start_at c x true blocks db;
        found = 0;
      } in
      let g = gather c x scan known pending blocks begin in
      let spent : g.spent_commits ≡ consumed blocks =
        gather_spent c x scan known pending blocks begin in
      (
        subst
            (λ t.
              All
                (λ o.
                  (contains (on_chain blocks) o.commit ≡ true) × (o.spent ≡ contains t o.commit))
                (map (flag_spent g.spent_commits) (
                  filter (λ o. contains (on_chain blocks) o.commit)
                    (map (mark_spent g.spent_commits) g.outputs))))
            spent
            (flagged (on_chain blocks) g.spent_commits
              (map (mark_spent g.spent_commits) g.outputs)),
        blocks_kept (on_chain blocks) g.spent_commits g.outputs blocks (all_on blocks []) (
            gather_holds c x scan own known pending blocks begin
              (λ k h. sym (contains-commits db.outputs k) ∙ h)),
      )

  -- After a rebase on a chain that it does not refuse, the wallet's outputs are those of the chain:
  -- each was made by a block and counts as spent exactly when a block spends it, and every output
  -- of a block that scanning recognises is held.
  pub rebased_outputs :
      (own : IsOwn c x scan) (persist written : Bool) (blocks : List Block) (db : WalletFile)
      → may_rebase c x blocks db ≡ ok tt
      → All
          (AgreesWith blocks)
          (rebase_on_shorter_chain c x scan persist written blocks db).0.outputs
        × All
            (λ b.
              All
                (IsHeld c x scan
                  (rebase_on_shorter_chain c x scan persist written blocks db).0.outputs)
                b.body.outputs)
            blocks
  unfolding rebase_on_shorter_chain scan_if scan_blocks_inner
  rebased_outputs own persist written blocks db h = rw h (canonical own blocks db)
