-- ===== src/Wallet/Sends.antt =====
-- Outgoing payments in the wallet's history: recording, withholding, releasing
-- (crates/nightfall-wallet/src/lib.rs).
use nightfall.Common.{
  ℕ, Bool, true, false, not, ◌&&◌, ◌||◌, none, some, Option, List, [], ◌∷◌, map, ltb, ◌==◌,
  if◌then◌else◌, length, filter,
}
use nightfall.Common.Result.{Result, ok, err}
use nightfall.Common.Text.{same_text}
use nightfall.Crypto.{Primitives}
use nightfall.Crypto.Commit.{Commitment}
use nightfall.Tx.{Transaction, any, fee_fold}
use nightfall.Tx.Ids.{txid}
use nightfall.SwapJournal.{has_swap_recovery}
use nightfall.Wallet.{
  Hex, WalletFile, WalletError, OwnedOutput, HistoryEntry, sent, is_sent, is_open_send, contains,
  save, default_file, quarantined, pending_input_commits, to_hex, swap_recovery_exists,
  reservations_exist, in_memory_only, has_reservations,
}
use nightfall.Wallet.Coins.{listed}

unfoldable pub mark_spent : List Commitment → OwnedOutput → OwnedOutput
mark_spent spent o = if contains spent o.commit then record o { spent = true } else o

unfoldable pub with_txid : List ℕ → HistoryEntry → Bool
with_txid id e = same_text e.txid id

module _ (c : Primitives) (x : Hex) where
  -- The entry that `record_send_at` writes, with the transaction's JSON where it has one.
  unfoldable pub sent_entry : Transaction → ℕ → List ℕ → ℕ → Option (List ℕ) → HistoryEntry
  sent_entry tx amount memo timestamp raw = record {
    direction = sent;
    amount = amount;
    fee = fee_fold 0 tx.kernels;
    memo = memo;
    height = none;
    txid = to_hex x (txid c tx);
    timestamp = timestamp;
    spent_commits = map (λ i. i.commit) tx.inputs;
    raw = raw;
    quarantined = false;
    failed = false;
  }

  -- `record_send_at`: what is kept, whether or not it could be saved.
  unfoldable pub record_send_at :
      Bool
      → Bool
      → WalletFile
      → Transaction
      → ℕ
      → List ℕ
      → ℕ
      → Option (List ℕ)
      → WalletFile × Result WalletError (Unit {0})
  record_send_at persist written db tx amount memo timestamp raw = (
    record db {
      outputs = map (mark_spent (map (λ i. i.commit) tx.inputs)) db.outputs;
      history =
          if any (with_txid (to_hex x (txid c tx))) db.history
          then db.history
          else sent_entry tx amount memo timestamp raw ∷ db.history;
    },
    save persist written,
  )

unfoldable pub quarantine : HistoryEntry → HistoryEntry
quarantine e = record e { quarantined = true }

fresh_send : HistoryEntry → Bool
fresh_send e = is_open_send e && not e.quarantined

unfoldable pub saved_count : ℕ → Result WalletError (Unit {0}) → Result WalletError ℕ
saved_count n (ok u) = ok n
saved_count n (err e) = err e

unfoldable pub quarantine_pending_sends :
    Bool → Bool → WalletFile → WalletFile × Result WalletError ℕ
unfolding fresh_send
quarantine_pending_sends persist written db =
    let marked = length (filter fresh_send db.history) in
    (
      record db { history = map (λ e. if fresh_send e then quarantine e else e) db.history },
      saved_count marked (if ltb 0 marked then save persist written else ok tt),
    )

unfoldable pub open_to_sending : HistoryEntry → Bool
open_to_sending e = is_sent e.direction && not e.quarantined

unfoldable pub quarantine_imported_sends :
    Bool → Bool → WalletFile → WalletFile × Result WalletError ℕ
quarantine_imported_sends persist written db =
    let after = record db {
      history = map (λ e. if open_to_sending e then quarantine e else e) db.history;
    } in
    (
      after,
      saved_count (length (quarantined after))
          (if any open_to_sending db.history then save persist written else ok tt),
    )

-- The entries that `resendable` offers, before their JSON is read back.
unfoldable pub may_resend : HistoryEntry → Bool
may_resend e = not e.quarantined && is_open_send e

read_each : (List ℕ → Option Transaction) → List HistoryEntry → List (List ℕ × Transaction)
read_each from_json [] = []
read_each from_json (e ∷ es) =
    let rest = read_each from_json es in
    elim e.raw [
      | none ↦ rest
      | some raw ↦ elim (from_json raw) [ none ↦ rest | some tx ↦ (e.txid, tx) ∷ rest ]
    ]

-- `resendable`, with `serde_json::from_str` of a transaction.
unfoldable pub resendable : (List ℕ → Option Transaction) → WalletFile → List (List ℕ × Transaction)
unfolding read_each
resendable from_json db = read_each from_json (filter may_resend db.history)

unfoldable pub released : List (List ℕ) → HistoryEntry → Bool
released txids e = is_open_send e && listed txids e.txid

unfoldable pub give_up : List (List ℕ) → HistoryEntry → HistoryEntry
give_up txids e = if released txids e then record e { failed = true; quarantined = true } else e

unfoldable pub unspend_output : List Commitment → List Commitment → OwnedOutput → OwnedOutput
unspend_output unspend claimed o =
    if contains unspend o.commit && not (contains claimed o.commit)
    then record o { spent = false }
    else o

count_or_before :
    WalletFile → WalletFile → ℕ → Result WalletError (Unit {0}) → WalletFile × Result WalletError ℕ
count_or_before before after n (ok u) = (after, ok n)
count_or_before before after n (err e) = (before, err e)

unfoldable pub release_sends :
    Bool → Bool → WalletFile → List (List ℕ) → List Commitment → WalletFile × Result WalletError ℕ
unfolding count_or_before
release_sends persist written db txids unspend =
    let removed = length (filter (released txids) db.history) in
    let given_up = record db { history = map (give_up txids) db.history } in
    let after = record given_up {
      outputs = map (unspend_output unspend (pending_input_commits given_up)) db.outputs;
    } in
    if removed == 0 then (db, ok 0) else count_or_before db after removed (save persist written)

-- `reset_scan`.
unfoldable pub reset_scan : Bool → Bool → WalletFile → WalletFile × Result WalletError (Unit {0})
reset_scan persist written db =
    if has_swap_recovery db.swap_journal then (db, err swap_recovery_exists) else (
      record default_file {
        birth_height = db.birth_height;
        scanned_to = db.birth_height;
        invoices = db.invoices;
        air_signed = db.air_signed;
      },
      save persist written,
    )

unfoldable pub await : HistoryEntry → HistoryEntry
await e = record e { height = none; quarantined = true }

-- `begin_light_rescan`.
unfoldable pub begin_light_rescan :
    Bool → Bool → WalletFile → WalletFile × Result WalletError (Unit {0})
begin_light_rescan persist written db =
    if persist
    then (db, err in_memory_only)
    else if has_swap_recovery db.swap_journal || has_reservations db
    then (db, err reservations_exist)
    else (
      record db {
        outputs = [];
        history = map await (filter (λ e. is_sent e.direction) db.history);
        scanned_to = db.birth_height;
        scanned_tip = [];
      },
      save persist written,
    )
