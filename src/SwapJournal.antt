-- ===== src/SwapJournal.antt =====
-- crates/nightfall-wallet/src/swap_journal.rs: the recovery records of swaps inside the wallet.
--
-- A `String` is the list of its bytes. `BTreeSet` of ids is the list of those seen. `persist` is the
-- wallet's flag of that name: whether it writes plaintext files.
pub mod Kept
pub mod Swapped
pub mod Reserved
mod Tests
use nightfall.Common.{
  ℕ, ◌+◌, ◌*◌, ◌/◌, suc, Bool, true, false, not, ◌&&◌, ◌||◌, none, some, Option, List, [], ◌∷◌, map,
  ◌==◌, leb, ltb, if◌then◌else◌, is_some, length, filter, sum_by,
}
use nightfall.Common.Result.{Result, ok, err, ◌>>=◌, ◌>>◌, require, ok_or}
use nightfall.Common.Text.{same_text}
use nightfall.Common.Words.{checked_add}
use nightfall.Tx.{any}

abbrev pub max_record_bytes : ℕ
max_record_bytes = 2 * 1024 * 1024

abbrev pub max_journal_bytes : ℕ
max_journal_bytes = 8 * 1024 * 1024

abbrev pub max_records : ℕ
max_records = 64

abbrev pub max_reserved_records : ℕ
max_reserved_records = max_journal_bytes / max_record_bytes

pub record Record : Type 0 where
  pub id : List ℕ
  pub revision : ℕ
  pub payload : List ℕ

pub record Journal : Type 0 where
  pub v : ℕ
  pub records : List Record

-- `Journal::default`.
abbrev pub default_journal : Journal
default_journal = record { v = 1; records = [] }

unfoldable pub is_id_byte : ℕ → ℕ → Bool
is_id_byte i b =
    if i == 8 || i == 13 || i == 18 || i == 23
    then b == b'-'
    else (leb b'0' b && leb b b'9') || (leb b'a' b && leb b b'f')

are_id_bytes : ℕ → List ℕ → Bool
are_id_bytes i [] = true
are_id_bytes i (b ∷ bs) = is_id_byte i b && are_id_bytes (suc i) bs

unfoldable pub valid_id : List ℕ → Bool
unfolding are_id_bytes
valid_id id = length id == 36 && are_id_bytes 0 id

pub data JournalError : Type 0 where
  plaintext_refused unsupported_format too_many_records invalid_id invalid_record_id : JournalError
  invalid_revision invalid_payload_size size_overflow journal_too_large : JournalError
  stale_checkpoint revision_exhausted capacity_reserved no_record : JournalError

unfoldable pub is_empty : Journal → Bool
is_empty journal = length journal.records == 0

unfoldable pub payload_fits : List ℕ → Bool
payload_fits payload = not (length payload == 0) && leb (length payload) max_record_bytes

-- The loop of `validate`, with the ids seen and the size so far.
unfoldable pub validate_records : List Record → List (List ℕ) → ℕ → Result JournalError ℕ
validate_records [] ids size = ok size
validate_records (r ∷ rs) ids size = do
  require (valid_id r.id && not (any (same_text r.id) ids)) invalid_record_id
  require (ltb 0 r.revision) invalid_revision
  require (payload_fits r.payload) invalid_payload_size
  next ← ok_or (checked_add size (length r.payload)) size_overflow
  validate_records rs (r.id ∷ ids) next

-- `Journal::validate`.
unfoldable pub validate : Journal → Result JournalError (Unit {0})
validate journal = do
  require (journal.v == 1) unsupported_format
  require (leb (length journal.records) max_records) too_many_records
  size ← validate_records journal.records [] 0
  require (leb size max_journal_bytes) journal_too_large

unfoldable pub has_swap_recovery : Journal → Bool
has_swap_recovery journal = not (is_empty journal)

unfoldable pub swap_recovery_ids : Journal → List (List ℕ)
swap_recovery_ids journal = map (λ r. r.id) journal.records

-- `records.iter().find(..)` of an id.
unfoldable pub find_record : List ℕ → List Record → Option Record
find_record id [] = none
find_record id (r ∷ rs) = if same_text r.id id then some r else find_record id rs

unfoldable pub swap_checkpoint : Journal → List ℕ → Option (ℕ × List ℕ)
swap_checkpoint journal id = elim (find_record id journal.records) [
  | none ↦ none
  | some r ↦ some (r.revision, r.payload)
]

-- `records[index] = record` where there is an index, and `push` where there is none.
unfoldable pub put_record : Record → List Record → List Record
put_record new [] = new ∷ []
put_record new (r ∷ rs) = if same_text r.id new.id then new ∷ rs else r ∷ put_record new rs

unfoldable pub current_revision : List ℕ → List Record → ℕ
current_revision id rs = elim (find_record id rs) [ none ↦ 0 | some r ↦ r.revision ]

unfoldable pub other_bytes : List ℕ → List Record → ℕ
other_bytes id rs = sum_by (λ r. length r.payload) (filter (λ r. not (same_text r.id id)) rs)

-- The new journal and revision that `put_swap_checkpoint` leaves, or the refusal.
unfoldable pub put_checked :
    Bool → Journal → List ℕ → ℕ → List ℕ → Result JournalError (Journal × ℕ)
put_checked persist journal id expected_revision payload = do
  require (not persist) plaintext_refused
  require (valid_id id) invalid_id
  require (payload_fits payload) invalid_payload_size
  validate journal
  require (current_revision id journal.records == expected_revision) stale_checkpoint
  revision ← ok_or (checked_add (current_revision id journal.records) 1) revision_exhausted
  require
      (is_some (find_record id journal.records)
        || ltb (length journal.records) max_reserved_records)
      capacity_reserved
  require (leb (other_bytes id journal.records + length payload) max_journal_bytes)
      journal_too_large
  ok (
    record journal {
      records =
          put_record (record { id = id; revision = revision; payload = payload }) journal.records;
    },
    revision,
  )

kept_journal : Journal → Result JournalError (Journal × ℕ) → Journal × Result JournalError ℕ
kept_journal journal (ok (after, revision)) = (after, ok revision)
kept_journal journal (err e) = (journal, err e)

-- `Wallet::put_swap_checkpoint`, on the journal of the wallet.
unfoldable pub put_swap_checkpoint :
    Bool → Journal → List ℕ → ℕ → List ℕ → Journal × Result JournalError ℕ
unfolding kept_journal
put_swap_checkpoint persist journal id expected_revision payload =
    kept_journal journal (put_checked persist journal id expected_revision payload)

-- `records.remove(index)`.
unfoldable pub remove_record : List ℕ → List Record → List Record
remove_record id [] = []
remove_record id (r ∷ rs) = if same_text r.id id then rs else r ∷ remove_record id rs

unfoldable pub retire_checked : Bool → Journal → List ℕ → ℕ → Result JournalError Journal
retire_checked persist journal id expected_revision = do
  require (not persist) plaintext_refused
  require (valid_id id) invalid_id
  held ← ok_or (find_record id journal.records) no_record
  require (held.revision == expected_revision) stale_checkpoint
  ok (record journal { records = remove_record id journal.records })

kept_retired : Journal → Result JournalError Journal → Journal × Result JournalError (Unit {0})
kept_retired journal (ok after) = (after, ok tt)
kept_retired journal (err e) = (journal, err e)

-- `Wallet::retire_swap_checkpoint`.
unfoldable pub retire_swap_checkpoint :
    Bool → Journal → List ℕ → ℕ → Journal × Result JournalError (Unit {0})
unfolding kept_retired
retire_swap_checkpoint persist journal id expected_revision =
    kept_retired journal (retire_checked persist journal id expected_revision)
