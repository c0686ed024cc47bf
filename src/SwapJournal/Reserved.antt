-- ===== src/SwapJournal/Reserved.antt =====
-- The journals that placing and retiring reach, and the storage reserved for their records
-- (crates/nightfall-wallet/src/swap_journal.rs).
use nightfall.Common.{ℕ, ◌*◌, ◌≤◌, ◌≡◌, refl, Bool, List, arith, length, inl, inr}
use nightfall.Common.Result.{ok, Result-cases}
use nightfall.SwapJournal.{
  Journal, JournalError, default_journal, validate, put_checked, put_swap_checkpoint,
  retire_checked, retire_swap_checkpoint, kept_journal, kept_retired, max_record_bytes,
  max_journal_bytes, put_record, remove_record, find_record,
}
use nightfall.SwapJournal.Kept.{length-put, length-remove}
use nightfall.SwapJournal.Swapped.{placed, put_passed, retired, retire_passed}

-- One call on the journal, by whichever writer, with whatever arguments and result.
pub data Step (j : Journal) : Journal → Type 0 where
  put :
      (persist : Bool) (id : List ℕ) (expected : ℕ) (payload : List ℕ) (after : Journal)
      → after ≡ (put_swap_checkpoint persist j id expected payload).0
      → Step j after
  retire :
      (persist : Bool) (id : List ℕ) (expected : ℕ) (after : Journal)
      → after ≡ (retire_swap_checkpoint persist j id expected).0
      → Step j after

pub data Reachable : Journal → Type 0 where
  start : Reachable default_journal
  next : (j after : Journal) → Reachable j → Step j after → Reachable after

IsReserved : Journal → Type 0
IsReserved j = (validate j ≡ ok tt) × (length j.records ≤ 4)

put-IsReserved :
    (persist : Bool) (j : Journal) (id : List ℕ) (expected : ℕ) (payload : List ℕ)
    → IsReserved j
    → IsReserved (put_swap_checkpoint persist j id expected payload).0
unfolding IsReserved put_swap_checkpoint kept_journal
put-IsReserved persist j id expected payload w =
    elim (Result-cases (put_checked persist j id expected payload)) [
      | inl ((after, revision), e) ↦
          let (v, i, f, c, r, room, fits, left) =
            put_passed persist j id expected payload after revision e in
          let (r2, c2, now, others, valid) =
            placed persist j id expected payload after revision e in
          rw (e, kept_journal)
            (
              valid,
              rw left (
                  ground (
                    arith,
                    w,
                    room,
                    length-put j.records
                        (record { id = id; revision = revision; payload = payload }),
                  )),
            )
      | inr (x, e) ↦ rw e w
    ]

retire-IsReserved :
    (persist : Bool) (j : Journal) (id : List ℕ) (expected : ℕ)
    → IsReserved j
    → IsReserved (retire_swap_checkpoint persist j id expected).0
unfolding IsReserved retire_swap_checkpoint kept_retired
retire-IsReserved persist j id expected w =
    elim (Result-cases (retire_checked persist j id expected)) [
      | inl (after, e) ↦
          let (held, found, r, left) = retire_passed persist j id expected after e in
          let (was, gone, others) = retired persist j id expected after e in
          rw (e, kept_retired)
            ((gone w.0).1, rw left (omega (arith, w.1, length-remove j.records id)))
      | inr (x, e) ↦ rw e w
    ]

reachable-IsReserved : (j : Journal) → Reachable j → IsReserved j
unfolding IsReserved validate nightfall.SwapJournal.validate_records
reachable-IsReserved j start = (refl, omega arith)
reachable-IsReserved j (next before after r (put persist id expected payload k e)) =
    rw e (put-IsReserved persist before id expected payload (reachable-IsReserved before r))
reachable-IsReserved j (next before after r (retire persist id expected k e)) =
    rw e (retire-IsReserved persist before id expected (reachable-IsReserved before r))

-- Whatever sequence of placing and retiring starts at the empty journal, the journal passes its own
-- validation, and every record it holds could grow to its largest payload within the journal's
-- size limit.
pub reachable_reserved :
    (j : Journal)
    → Reachable j
    → (validate j ≡ ok tt) × (length j.records * max_record_bytes ≤ max_journal_bytes)
unfolding IsReserved
reachable_reserved j r = let (v, n) = reachable-IsReserved j r in (v, omega (arith, n))
