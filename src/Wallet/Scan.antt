-- ===== src/Wallet/Scan.antt =====
-- Reading blocks into the wallet (`scan_blocks_inner` and its checks in
-- crates/nightfall-wallet/src/lib.rs).
--
-- `scan` stands for `scan_output` with the wallet's view key: what it finds in an output that is ours.
-- `BTreeSet` of commitments is a list that is only asked for membership.
use nightfall.Common.{
  ℕ, Bool, true, false, not, ◌&&◌, ◌||◌, none, some, Option, List, [], ◌∷◌, ◌++◌, map, ltb, leb,
  ◌==◌, if◌then◌else◌, ◌-◌, is_some, filter,
}
use nightfall.Common.Result.{Result, ok, err, ◌>>◌, require}
use nightfall.Common.Text.{same_text}
use nightfall.Common.Words.{u64_mod}
use nightfall.Crypto.{Primitives}
use nightfall.Crypto.Output.{Output}
use nightfall.Tx.{any}
use nightfall.Chain.{Block, hash}
use nightfall.Wallet.{
  Hex, WalletFile, WalletError, HistoryEntry, Direction, received, sent, mined, is_open_send,
  none_left, save, scan_from, has_scanned_history, to_hex, no_anchor_block, history_without_anchor,
  chain_changed, no_blocks, wrong_start, gap_in_chain, not_shorter,
}
use nightfall.Wallet.Reconcile.{covers_canonical_history, reconcile_with, run_on, last_height}
use nightfall.Wallet.Gather.{Discovered, gather}
use nightfall.Wallet.Sends.{mark_spent, saved_count}

height_key : Option ℕ → ℕ
height_key none = u64_mod - 1
height_key (some h) = h

-- `sort_by` with the heights reversed is stable: the higher first, what has none before all, and
-- among equals the earlier.
unfoldable pub insert_entry : HistoryEntry → List HistoryEntry → List HistoryEntry
unfolding height_key
insert_entry e [] = e ∷ []
insert_entry e (f ∷ fs) =
    if leb (height_key f.height) (height_key e.height) then e ∷ f ∷ fs else f ∷ insert_entry e fs

unfoldable pub highest_first : List HistoryEntry → List HistoryEntry
highest_first [] = []
highest_first (e ∷ es) = insert_entry e (highest_first es)

-- The first unconfirmed entry of the transaction gets its height and time.
unfoldable pub promote_first : List ℕ → ℕ → ℕ → List HistoryEntry → List HistoryEntry
promote_first id height timestamp [] = []
promote_first id height timestamp (e ∷ es) =
    if same_text e.txid id && not (is_some e.height)
    then record e { height = some height; timestamp = timestamp } ∷ es
    else e ∷ promote_first id height timestamp es

unfoldable pub promote : List (List ℕ × (ℕ × ℕ)) → List HistoryEntry → List HistoryEntry
promote [] history = history
promote ((id, (height, timestamp)) ∷ more) history =
    promote more (promote_first id height timestamp history)

unfoldable pub same_direction : Direction → Direction → Bool
same_direction received received = true
same_direction sent sent = true
same_direction mined mined = true
same_direction received sent = false
same_direction received mined = false
same_direction sent received = false
same_direction sent mined = false
same_direction mined received = false
same_direction mined sent = false

unfoldable pub recorded : HistoryEntry → HistoryEntry → Bool
recorded e f =
    same_text f.txid e.txid && same_direction f.direction e.direction && f.amount == e.amount

unfoldable pub append_new : List HistoryEntry → List HistoryEntry → List HistoryEntry
append_new [] history = history
append_new (e ∷ es) history =
    append_new es (if any (recorded e) history then history else history ++ e ∷ [])

unfoldable pub first_of_height : ℕ → List Block → Option Block
first_of_height height [] = none
first_of_height height (b ∷ bs) =
    if b.header.height == height then some b else first_of_height height bs

module _ (c : Primitives) (x : Hex) where
  open c use {Scalar, to_bytes}

  unfoldable pub start_at : Bool → List Block → WalletFile → ℕ
  start_at false blocks db = scan_from db
  start_at true [] db = 0
  start_at true (b ∷ bs) db = b.header.height

  tip_text : Option Block → List ℕ → List ℕ
  tip_text none old = old
  tip_text (some b) old = to_hex x (hash c b)

  -- `scan_blocks_inner` before it saves: the wallet it leaves, and how many outputs it found.
  unfoldable pub scanned :
      (Output → Option (Discovered Scalar)) → List Block → Bool → WalletFile → WalletFile × ℕ
  unfolding tip_text
  scanned scan blocks force_canonical db =
      let g =
        gather c x scan (map (λ o. o.commit) db.outputs) (filter is_open_send db.history) blocks
          (record {
            outputs = db.outputs;
            new_history = [];
            spent_commits = [];
            confirmed = [];
            highest = start_at force_canonical blocks db;
            found = 0;
          }) in
      let marked = record db { outputs = map (mark_spent g.spent_commits) g.outputs } in
      let whole =
        force_canonical
        || covers_canonical_history blocks db.birth_height db.scanned_to marked.outputs in
      let read = if whole then reconcile_with x blocks g.spent_commits marked else marked in
      (
        record read {
          history = highest_first (append_new g.new_history (promote g.confirmed read.history));
          scanned_to = g.highest;
          scanned_tip = tip_text (first_of_height g.highest blocks) read.scanned_tip;
        },
        g.found,
      )

  unfoldable pub scan_blocks_inner :
      (Output → Option (Discovered Scalar))
      → Bool
      → Bool
      → List Block
      → Bool
      → WalletFile
      → WalletFile × Result WalletError ℕ
  scan_blocks_inner scan persist written blocks force_canonical db =
      let after = scanned scan blocks force_canonical db in
      (after.0, saved_count after.1 (save persist written))

  unfoldable pub anchor_agrees : Block → WalletFile → Result WalletError (Unit {0})
  anchor_agrees block db =
      if none_left db.scanned_tip
      then require (not (has_scanned_history db)) history_without_anchor
      else require (same_text (to_hex x (hash c block)) db.scanned_tip) chain_changed

  unfoldable pub check_scan_anchor : Block → WalletFile → Result WalletError (Unit {0})
  check_scan_anchor block db = do
    require (block.header.height == db.scanned_to) no_anchor_block
    anchor_agrees block db

  unfoldable pub check_chain_continuity : List Block → WalletFile → Result WalletError (Unit {0})
  check_chain_continuity blocks db =
      if none_left db.scanned_tip
      then require
          (not (has_scanned_history db)
            || covers_canonical_history blocks db.birth_height db.scanned_to db.outputs)
          history_without_anchor
      else elim blocks [
        | [] ↦ ok tt
        | first ∷ rest ↦
            if first.header.height == db.scanned_to then check_scan_anchor first db else ok tt
      ]

  unfoldable pub scan_if :
      (Output → Option (Discovered Scalar))
      → Bool
      → Bool
      → List Block
      → Bool
      → WalletFile
      → Result WalletError (Unit {0})
      → WalletFile × Result WalletError ℕ
  scan_if scan persist written blocks force db (ok u) =
      scan_blocks_inner scan persist written blocks force db
  scan_if scan persist written blocks force db (err e) = (db, err e)

  unfoldable pub scan_blocks :
      (Output → Option (Discovered Scalar))
      → Bool
      → Bool
      → List Block
      → WalletFile
      → WalletFile × Result WalletError ℕ
  scan_blocks scan persist written blocks db =
      scan_if scan persist written blocks false db (check_chain_continuity blocks db)

  unfoldable pub may_rebase : List Block → WalletFile → Result WalletError (Unit {0})
  may_rebase [] db = err no_blocks
  may_rebase (b ∷ bs) db = do
    require (b.header.height == 0 || b.header.height == db.birth_height) wrong_start
    require (run_on b.header.height (b ∷ bs)) gap_in_chain
    require (ltb (last_height b.header.height (b ∷ bs)) db.scanned_to) not_shorter

  unfoldable pub rebase_on_shorter_chain :
      (Output → Option (Discovered Scalar))
      → Bool
      → Bool
      → List Block
      → WalletFile
      → WalletFile × Result WalletError ℕ
  rebase_on_shorter_chain scan persist written blocks db =
      scan_if scan persist written blocks true db (may_rebase blocks db)
