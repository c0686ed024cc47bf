-- ===== src/Wallet/Retained.antt =====
-- No scan loses a payment that was sent (crates/nightfall-wallet/src/lib.rs).
use nightfall.Common.{
  ℕ, ◌+◌, ◌≤◌, ◌≡◌, ◌∙◌, refl, Bool, true, false, ◌&&◌, ◌||◌, not, none, List, [], ◌∷◌, ◌++◌, map,
  arith, length, filter, inl, inr, Bool-cases, Option-cases, if◌then◌else◌, Option,
}
use nightfall.Common.Result.{Result, ok, err}
use nightfall.Crypto.{Primitives}
use nightfall.Crypto.Commit.{Commitment}
use nightfall.Crypto.Output.{Output}
use nightfall.Chain.{Block}
use nightfall.Tx.{any}
use nightfall.Wallet.{
  Hex, WalletFile, WalletError, HistoryEntry, OwnedOutput, is_sent, is_open_send, contains,
}
use nightfall.Wallet.Gather.{Discovered, gather}
use nightfall.Wallet.Reconcile.{
  unconfirm, on_chain, covers_canonical_history, keeps_entry, reconcile_with,
}
use nightfall.Wallet.Sends.{mark_spent}
use nightfall.Wallet.Scan.{
  insert_entry, highest_first, promote_first, promote, recorded, append_new, scanned,
  scan_blocks_inner, scan_blocks, rebase_on_shorter_chain, scan_if, check_chain_continuity,
  may_rebase, start_at,
}

-- An entry without what a scan may change: when it was confirmed, and whether it is withheld.
abbrev pub core : HistoryEntry → HistoryEntry
core e = record e { height = none; timestamp = 0; quarantined = false }

-- How many sends of a kind a history holds.
abbrev pub sends : (HistoryEntry → Bool) → List HistoryEntry → ℕ
sends p es = length (filter (λ e. is_sent e.direction && p (core e)) es)

sends-insert :
    (p : HistoryEntry → Bool) (e : HistoryEntry) (es : List HistoryEntry)
    → sends p (insert_entry e es) ≡ sends p (e ∷ es)
unfolding insert_entry
sends-insert p e [] = refl
sends-insert p e (f ∷ fs) = ground (arith, sends-insert p e fs)

sends-sorted :
    (p : HistoryEntry → Bool) (es : List HistoryEntry) → sends p (highest_first es) ≡ sends p es
unfolding highest_first
sends-sorted p [] = refl
sends-sorted p (e ∷ es) = ground (arith, sends-insert p e (highest_first es), sends-sorted p es)

sends-append :
    (p : HistoryEntry → Bool) (es fs : List HistoryEntry)
    → sends p (es ++ fs) ≡ sends p es + sends p fs
sends-append p [] fs = omega arith
sends-append p (e ∷ es) fs = ground (arith, sends-append p es fs)

sends-append_new :
    (p : HistoryEntry → Bool) (new history : List HistoryEntry)
    → sends p history ≤ sends p (append_new new history)
unfolding append_new
sends-append_new p [] history = omega arith
sends-append_new p (e ∷ es) history = elim (Bool-cases (any (recorded e) history)) [
  | inl t ↦ rw t (sends-append_new p es history)
  | inr f ↦
      rw f
        (omega (arith, sends-append p history (e ∷ []), sends-append_new p es (history ++ e ∷ [])))
]

sends-promote_first :
    (p : HistoryEntry → Bool) (id : List ℕ) (height timestamp : ℕ) (es : List HistoryEntry)
    → sends p (promote_first id height timestamp es) ≡ sends p es
unfolding promote_first
sends-promote_first p id height timestamp [] = refl
sends-promote_first p id height timestamp (e ∷ es) =
    ground (arith, sends-promote_first p id height timestamp es)

sends-promote :
    (p : HistoryEntry → Bool) (confirmed : List (List ℕ × (ℕ × ℕ))) (es : List HistoryEntry)
    → sends p (promote confirmed es) ≡ sends p es
unfolding promote
sends-promote p [] es = refl
sends-promote p ((id, (height, timestamp)) ∷ more) es =
    sends-promote p more (promote_first id height timestamp es)
    ∙ sends-promote_first p id height timestamp es

same_core :
    (spent : List Commitment) (e : HistoryEntry)
    → (core (unconfirm spent e) ≡ core e) × ((unconfirm spent e).direction ≡ e.direction)
unfolding unconfirm
same_core spent e = elim (Option-cases e.height) [
  | inl h ↦ ground (arith, h)
  | inr (at, h) ↦ ground (arith, h)
]

sends-unconfirm :
    (p : HistoryEntry → Bool) (spent : List Commitment) (es : List HistoryEntry)
    → sends p (map (unconfirm spent) es) ≡ sends p es
sends-unconfirm p spent [] = refl
sends-unconfirm p spent (e ∷ es) =
    let (a, b) = same_core spent e in rw a (rw b (ground (arith, sends-unconfirm p spent es)))

module _ (x : Hex) where
  sends-keeps :
      (p : HistoryEntry → Bool) (gone : List Commitment) (es : List HistoryEntry)
      → sends p (filter (keeps_entry x gone) es) ≡ sends p es
  unfolding keeps_entry
  sends-keeps p gone [] = refl
  sends-keeps p gone (e ∷ es) = ground (arith, sends-keeps p gone es)

  sends-reconcile :
      (p : HistoryEntry → Bool) (blocks : List Block) (spent : List Commitment) (db : WalletFile)
      → sends p (reconcile_with x blocks spent db).history ≡ sends p db.history
  unfolding reconcile_with
  sends-reconcile p blocks spent db =
      let gone =
        map (λ (o : OwnedOutput). o.commit)
          (filter (λ o. not (contains (on_chain blocks) o.commit)) db.outputs) in
      sends-unconfirm p spent (filter (keeps_entry x gone) db.history)
      ∙ sends-keeps p gone db.history

  either :
      (p : HistoryEntry → Bool) (whole : Bool) (blocks : List Block) (spent : List Commitment)
      (db : WalletFile)
      → sends p (if whole then reconcile_with x blocks spent db else db).history
        ≡ sends p db.history
  either p true blocks spent db = sends-reconcile p blocks spent db
  either p false blocks spent db = refl

module _ (c : Primitives) (x : Hex) (scan : Output → Option (Discovered c.Scalar)) where
  sends-scanned :
      (p : HistoryEntry → Bool) (blocks : List Block) (force : Bool) (db : WalletFile)
      → sends p db.history ≤ sends p (scanned c x scan blocks force db).0.history
  unfolding scanned
  sends-scanned p blocks force db =
      let g =
        gather c x scan (map (λ o. o.commit) db.outputs) (filter is_open_send db.history) blocks
          (record {
            outputs = db.outputs;
            new_history = [];
            spent_commits = [];
            confirmed = [];
            highest = start_at c x force blocks db;
            found = 0;
          }) in
      let marked = record db { outputs = map (mark_spent g.spent_commits) g.outputs } in
      let whole =
        force || covers_canonical_history blocks db.birth_height db.scanned_to marked.outputs in
      let read = if whole then reconcile_with x blocks g.spent_commits marked else marked in
      omega (
        arith,
        either x p whole blocks g.spent_commits marked,
        sends-promote p g.confirmed read.history,
        sends-append_new p g.new_history (promote g.confirmed read.history),
        sends-sorted p (append_new g.new_history (promote g.confirmed read.history)),
      )

  sends-scan_if :
      (p : HistoryEntry → Bool) (persist written : Bool) (blocks : List Block) (force : Bool)
      (db : WalletFile) (r : Result WalletError (Unit {0}))
      → sends p db.history ≤ sends p (scan_if c x scan persist written blocks force db r).0.history
  unfolding scan_if scan_blocks_inner
  sends-scan_if p persist written blocks force db (ok u) = sends-scanned p blocks force db
  sends-scan_if p persist written blocks force db (err e) = omega arith

  -- Neither an ordinary scan nor a rebase on a shorter chain, accepted or refused, loses a payment
  -- that was sent: of every kind of send, told by anything but its height, its time and whether it
  -- is withheld, the history holds at least as many as before.
  pub sends_retained :
      (p : HistoryEntry → Bool) (persist written : Bool) (blocks : List Block) (db : WalletFile)
      → (sends p db.history ≤ sends p (scan_blocks c x scan persist written blocks db).0.history)
        × (sends p db.history
            ≤ sends p (rebase_on_shorter_chain c x scan persist written blocks db).0.history)
  unfolding scan_blocks rebase_on_shorter_chain
  sends_retained p persist written blocks db = (
    sends-scan_if p persist written blocks false db (check_chain_continuity c x blocks db),
    sends-scan_if p persist written blocks true db (may_rebase c x blocks db),
  )
