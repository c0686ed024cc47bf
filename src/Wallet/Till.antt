-- ===== src/Wallet/Till.antt =====
-- The till inside the wallet: writing, closing and removing invoices, and where each stands
-- (crates/nightfall-wallet/src/lib.rs).
use nightfall.Common.{
  ℕ, Bool, true, false, not, some, List, [], ◌∷◌, ◌++◌, map, ltb, if◌then◌else◌, length, filter,
}
use nightfall.Common.Result.{Result, ok, err, ◌>>◌, require, map_err}
use nightfall.Common.Text.{same_text, trim}
use nightfall.Tx.{any}
use nightfall.Counter.{Invoice, Incoming, InvoiceStatus, InvoiceError, check, status, max_invoices}
use nightfall.Wallet.{
  WalletFile, WalletError, HistoryEntry, Direction, received, sent, mined, save, none_left,
}

pub data TillError : Type 0 where
  refused : InvoiceError → TillError
  reference_taken till_full no_note no_invoice : TillError
  unsaved : WalletError → TillError

-- What is kept and what is answered once the invoices changed: a failed save does not take the
-- change back.
unfoldable pub keep :
    Bool → Bool → WalletFile → List Invoice → WalletFile × Result TillError (Unit {0})
keep persist written db invoices =
    (record db { invoices = invoices }, map_err unsaved (save persist written))

-- The invoice as `add_invoice` writes it.
unfoldable pub trimmed : Invoice → Invoice
trimmed i = record i { reference = trim i.reference; description = trim i.description }

unfoldable pub bears : List ℕ → Invoice → Bool
bears reference i = same_text i.reference reference

unfoldable pub admitted : List Invoice → Invoice → Result TillError (Unit {0})
admitted invoices i = do
  map_err refused (check i)
  require (not (any (bears i.reference) invoices)) reference_taken
  require (ltb (length invoices) max_invoices) till_full

unfoldable pub keep_if :
    Result TillError (Unit {0})
    → Bool
    → Bool
    → WalletFile
    → List Invoice
    → WalletFile × Result TillError (Unit {0})
keep_if (ok u) persist written db invoices = keep persist written db invoices
keep_if (err e) persist written db invoices = (db, err e)

unfoldable pub add_invoice :
    Bool → Bool → WalletFile → Invoice → WalletFile × Result TillError (Unit {0})
add_invoice persist written db invoice =
    keep_if (admitted db.invoices (trimmed invoice)) persist written db
      (db.invoices ++ trimmed invoice ∷ [])

-- The first invoice of a reference gets its note.
unfoldable pub close_first : List ℕ → List ℕ → List Invoice → List Invoice
close_first reference note [] = []
close_first reference note (i ∷ is) =
    if bears reference i
    then record i { closed_note = some note } ∷ is
    else i ∷ close_first reference note is

unfoldable pub closable : List Invoice → List ℕ → List ℕ → Result TillError (Unit {0})
closable invoices reference note = do
  require (not (none_left note)) no_note
  require (any (bears reference) invoices) no_invoice

unfoldable pub close_invoice :
    Bool → Bool → WalletFile → List ℕ → List ℕ → WalletFile × Result TillError (Unit {0})
close_invoice persist written db reference note =
    keep_if (closable db.invoices (trim reference) (trim note)) persist written db
      (close_first (trim reference) (trim note) db.invoices)

unfoldable pub remove_invoice :
    Bool → Bool → WalletFile → List ℕ → WalletFile × Result TillError (Unit {0})
remove_invoice persist written db reference =
    let left = filter (λ i. not (bears (trim reference) i)) db.invoices in
    keep_if (require (ltb (length left) (length db.invoices)) no_invoice) persist written db left

unfoldable pub is_received : Direction → Bool
is_received received = true
is_received sent = false
is_received mined = false

unfoldable pub as_incoming : HistoryEntry → Incoming
as_incoming e = record {
  amount_darks = e.amount;
  memo = e.memo;
  height = e.height;
  timestamp = e.timestamp;
  reference_id = e.txid;
}

unfoldable pub incoming : WalletFile → List Incoming
incoming db = map as_incoming (filter (λ e. is_received e.direction) db.history)

unfoldable pub till : WalletFile → ℕ → List (Invoice × InvoiceStatus)
till db now_unix = map (λ i. (i, status i (incoming db) now_unix)) db.invoices
