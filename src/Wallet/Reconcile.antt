-- ===== src/Wallet/Reconcile.antt =====
-- Bringing the wallet back to a chain it has read as a whole (`reconcile_with` in
-- crates/nightfall-wallet/src/lib.rs).
--
-- `BTreeSet` of commitments is a list that is only asked for membership.
use nightfall.Common.{
  ℕ, suc, max, Bool, true, false, not, ◌&&◌, ◌||◌, none, some, Option, List, [], ◌∷◌, ◌++◌, map,
  leb, ◌==◌, if◌then◌else◌, length, filter,
}
use nightfall.Crypto.Commit.{Commitment}
use nightfall.Tx.{all}
use nightfall.Chain.{Block}
use nightfall.Wallet.{Hex, WalletFile, OwnedOutput, HistoryEntry, is_sent, contains, none_left}
use nightfall.Wallet.Coins.{spelled}

unfoldable pub last_height : ℕ → List Block → ℕ
last_height start [] = start
last_height start (b ∷ bs) = last_height b.header.height bs

-- The heights run from `start` without a gap.
unfoldable pub run_on : ℕ → List Block → Bool
run_on start [] = true
run_on start (b ∷ bs) = b.header.height == start && run_on (suc start) bs

unfoldable pub max_height : List OwnedOutput → ℕ
max_height [] = 0
max_height (o ∷ os) = max o.height (max_height os)

-- `covers_canonical_history`.
unfoldable pub covers_canonical_history : List Block → ℕ → ℕ → List OwnedOutput → Bool
covers_canonical_history [] birth_height scanned_to outputs = false
covers_canonical_history (b ∷ bs) birth_height scanned_to outputs =
    let start = b.header.height in
    let last = last_height start (b ∷ bs) in
    (start == 0 || start == birth_height)
    && run_on start (b ∷ bs)
    && leb scanned_to last
    && leb (max_height outputs) last

unfoldable pub on_chain : List Block → List Commitment
on_chain [] = []
on_chain (b ∷ bs) = map (λ o. o.commit) b.body.outputs ++ on_chain bs

unfoldable pub flag_spent : List Commitment → OwnedOutput → OwnedOutput
flag_spent spent o = record o { spent = contains spent o.commit }

-- A send whose inputs are not all consumed any more waits again and is withheld.
unfoldable pub unconfirm : List Commitment → HistoryEntry → HistoryEntry
unconfirm spent e = elim e.height [
  | none ↦ e
  | some h ↦
      if is_sent e.direction
        && not (not (none_left e.spent_commits) && all (contains spent) e.spent_commits)
      then record e { height = none; quarantined = true }
      else e
]

unfoldable pub not_dropped : List Commitment → Option (List ℕ) → Bool
not_dropped dropped none = true
not_dropped dropped (some raw) =
    if length raw == 32 then not (contains dropped (spelled 0 raw)) else true

module _ (x : Hex) where
  -- The history of an output that is gone goes; that of a send stays.
  unfoldable pub keeps_entry : List Commitment → HistoryEntry → Bool
  keeps_entry dropped e = is_sent e.direction || not_dropped dropped (x.decode e.txid)

  unfoldable pub reconcile_with : List Block → List Commitment → WalletFile → WalletFile
  reconcile_with blocks spent db =
      let chain = on_chain blocks in
      let gone = map (λ o. o.commit) (filter (λ o. not (contains chain o.commit)) db.outputs) in
      let left = filter (λ o. contains chain o.commit) db.outputs in
      record db {
        outputs = map (flag_spent spent) left;
        history = map (unconfirm spent) (filter (keeps_entry gone) db.history);
        scanned_to =
            if length left == length db.outputs then db.scanned_to else last_height 0 blocks;
      }
