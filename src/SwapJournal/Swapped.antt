-- ===== src/SwapJournal/Swapped.antt =====
-- What placing and retiring a checkpoint do, and that a stale writer changes nothing
-- (crates/nightfall-wallet/src/swap_journal.rs).
use nightfall.Common.{
  ℕ, suc, ◌+◌, ◌≤◌, ◌<◌, ◌≡◌, ◌↔◌, subst, refl, Bool, true, false, none, some, List, [], arith,
  length, inl, inr, is_some, Option-cases, ◌⊎◌,
}
use nightfall.Common.Result.{Result, ok, err, Result-cases}
use nightfall.Common.Text.{same_text}
use nightfall.SwapJournal.{
  Record, Journal, JournalError, valid_id, payload_fits, validate_records, validate, put_record,
  remove_record, other_bytes, find_record, current_revision, swap_checkpoint, put_checked,
  put_swap_checkpoint, retire_checked, retire_swap_checkpoint, kept_journal, kept_retired,
}
use nightfall.SwapJournal.Kept.{
  AreSound, IsSound, bytes_of, sound_validated, validated_sound, put-AreSound, bytes_of-put,
  length-put, remove-AreSound, bytes_of-remove, length-remove, find-put, find-put_other,
  find-remove, find-remove_other,
}

-- What a journal that passes `validate` holds.
abbrev pub IsSoundJournal : Journal → Type 0
IsSoundJournal j =
    (j.v ≡ 1) × (length j.records ≤ 64) × AreSound [] j.records × (bytes_of j.records ≤ 8_388_608)

pub validate_iff : (j : Journal) → (validate j ≡ ok tt) ↔ IsSoundJournal j
unfolding validate
validate_iff j = (
  λ h. elim (Result-cases (validate_records j.records [] 0)) [
    | inl (total, e) ↦ ground (arith, h, e, validated_sound j.records [] 0 total e)
    | inr (x, e) ↦ absurd (ground (arith, h, e))
  ],
  λ h. ground (arith, h, sound_validated j.records [] 0 h.2 (omega arith)),
)

-- The guards that a placed checkpoint passed, and the journal it left.
pub put_passed :
    (persist : Bool) (j : Journal) (id : List ℕ) (expected : ℕ) (payload : List ℕ) (after : Journal)
    (revision : ℕ)
    → put_checked persist j id expected payload ≡ ok (after, revision)
    → (validate j ≡ ok tt)
      × (valid_id id ≡ true)
      × (payload_fits payload ≡ true)
      × (current_revision id j.records ≡ expected)
      × (revision ≡ expected + 1)
      × ((is_some (find_record id j.records) ≡ true) ⊎ (length j.records < 4))
      × (other_bytes id j.records + length payload ≤ 8_388_608)
      × (after ≡ record j {
        records = put_record (record { id = id; revision = revision; payload = payload }) j.records;
      })
unfolding put_checked
put_passed persist j id expected payload after revision h = elim (Result-cases (validate j)) [
  | inl (u, e) ↦ ground (arith, h, e)
  | inr (x, e) ↦ absurd (ground (arith, h, e))
]

-- What placing leaves, by its result.
abbrev pub Placed : Journal → List ℕ → ℕ → List ℕ → Journal × Result JournalError ℕ → Type 0
Placed j id expected payload (after, ok revision) =
    (revision ≡ expected + 1)
    × (current_revision id j.records ≡ expected)
    × (swap_checkpoint after id ≡ some (revision, payload))
    × ((other : List ℕ)
        → same_text id other ≡ false
        → swap_checkpoint after other ≡ swap_checkpoint j other)
    × (validate after ≡ ok tt)
Placed j id expected payload (after, err e) = after ≡ j

placed_sound :
    (j : Journal) (new : Record)
    → IsSoundJournal j
    → IsSound new
    → (is_some (find_record new.id j.records) ≡ true) ⊎ (length j.records < 4)
    → other_bytes new.id j.records + length new.payload ≤ 8_388_608
    → IsSoundJournal (record j { records = put_record new j.records })
unfolding nightfall.Tx.any
placed_sound j new s n c b = (
  s.0,
  ground (arith, s, c, length-put j.records new),
  put-AreSound j.records [] new s.2 n refl,
  omega (arith, b, bytes_of-put j.records [] new s.2),
)

pub placed :
    (persist : Bool) (j : Journal) (id : List ℕ) (expected : ℕ) (payload : List ℕ) (after : Journal)
    (revision : ℕ)
    → put_checked persist j id expected payload ≡ ok (after, revision)
    → Placed j id expected payload (after, ok revision)
unfolding swap_checkpoint
placed persist j id expected payload after revision h =
    let (v, i, f, c, r, room, fits, left) =
      put_passed persist j id expected payload after revision h in
    let new : Record = record { id = id; revision = revision; payload = payload } in
    rw left (
      r,
      c,
      rw (find-put j.records new, swap_checkpoint) refl,
      (λ other d. rw (find-put_other j.records new other d, swap_checkpoint) refl),
      (validate_iff (record j { records = put_record new j.records })).1
          (placed_sound j new ((validate_iff j).0 v) (i, omega (arith, r), f) room fits),
    )

-- Placing a checkpoint, on every journal: with success the stored revision was the expected one,
-- the id now holds the payload at the next revision, every other id holds what it held, and the
-- journal passes its own validation. With a refusal the journal is as it was.
pub put_swap_checkpoint_lem :
    (persist : Bool) (j : Journal) (id : List ℕ) (expected : ℕ) (payload : List ℕ)
    → Placed j id expected payload (put_swap_checkpoint persist j id expected payload)
unfolding put_swap_checkpoint kept_journal
put_swap_checkpoint_lem persist j id expected payload =
    elim (Result-cases (put_checked persist j id expected payload)) [
      | inl ((after, revision), e) ↦ rw e (placed persist j id expected payload after revision e)
      | inr (x, e) ↦ rw e refl
    ]

-- What retiring leaves, by its result.
abbrev pub Retired : Journal → List ℕ → ℕ → Journal × Result JournalError (Unit {0}) → Type 0
Retired j id expected (after, ok u) =
    ((payload : List ℕ) × (swap_checkpoint j id ≡ some (expected, payload)))
    × (validate j ≡ ok tt → (swap_checkpoint after id ≡ none) × (validate after ≡ ok tt))
    × ((other : List ℕ)
        → same_text id other ≡ false
        → swap_checkpoint after other ≡ swap_checkpoint j other)
Retired j id expected (after, err e) = after ≡ j

retired_sound :
    (j : Journal) (id : List ℕ)
    → IsSoundJournal j
    → IsSoundJournal (record j { records = remove_record id j.records })
retired_sound j id s = (
  s.0,
  omega (arith, s.1, length-remove j.records id),
  remove-AreSound j.records [] id s.2,
  omega (arith, s.3, bytes_of-remove j.records id),
)

pub retire_passed :
    (persist : Bool) (j : Journal) (id : List ℕ) (expected : ℕ) (after : Journal)
    → retire_checked persist j id expected ≡ ok after
    → (held : Record) × (find_record id j.records ≡ some held)
      × (held.revision ≡ expected)
      × (after ≡ record j { records = remove_record id j.records })
unfolding retire_checked
retire_passed persist j id expected after h = elim (Option-cases (find_record id j.records)) [
  | inl e ↦ absurd (ground (arith, h, e))
  | inr (held, e) ↦ (held, e, ground (arith, h, e), ground (arith, h, e))
]

pub retired :
    (persist : Bool) (j : Journal) (id : List ℕ) (expected : ℕ) (after : Journal)
    → retire_checked persist j id expected ≡ ok after
    → Retired j id expected (after, ok tt)
unfolding swap_checkpoint
retired persist j id expected after h =
    let (held, found, r, left) = retire_passed persist j id expected after h in
    rw left (
      (held.payload, ground (arith, found, r)),
      (λ v. (
        rw (find-remove j.records [] id ((validate_iff j).0 v).2, swap_checkpoint) refl,
        (validate_iff (record j { records = remove_record id j.records })).1
            (retired_sound j id ((validate_iff j).0 v)),
      )),
      (λ other d. rw (find-remove_other j.records id other d, swap_checkpoint) refl),
    )

-- Retiring a checkpoint: with success the record was held at the expected revision and every other
-- id holds what it held; where the journal passed its validation, no record bears the id any more
-- and the journal still passes. With a refusal the journal is as it was.
pub retire_swap_checkpoint_lem :
    (persist : Bool) (j : Journal) (id : List ℕ) (expected : ℕ)
    → Retired j id expected (retire_swap_checkpoint persist j id expected)
unfolding retire_swap_checkpoint kept_retired
retire_swap_checkpoint_lem persist j id expected =
    elim (Result-cases (retire_checked persist j id expected)) [
      | inl (after, e) ↦ rw e (retired persist j id expected after e)
      | inr (x, e) ↦ rw e refl
    ]

-- The revision behind a checkpoint that is held.
held_revision :
    (j : Journal) (id : List ℕ) (r : ℕ) (payload : List ℕ)
    → swap_checkpoint j id ≡ some (r, payload)
    → current_revision id j.records ≡ r
unfolding swap_checkpoint current_revision
held_revision j id r payload h = elim (Option-cases (find_record id j.records)) [
  | inl e ↦ absurd (ground (arith, h, e))
  | inr (held, e) ↦ ground (arith, h, e)
]

stale-Placed :
    (j : Journal) (id : List ℕ) (expected : ℕ) (payload : List ℕ)
    (q : Journal × Result JournalError ℕ)
    → Placed j id expected payload q
    → current_revision id j.records ≡ suc expected
    → q.0 ≡ j
stale-Placed j id expected payload (after, ok r) h c = absurd (omega (arith, h.1, c))
stale-Placed j id expected payload (after, err e) h c = h

stale-Retired :
    (j : Journal) (id : List ℕ) (expected : ℕ) (q : Journal × Result JournalError (Unit {0}))
    → Retired j id expected q
    → current_revision id j.records ≡ suc expected
    → q.0 ≡ j
stale-Retired j id expected (after, ok u) h c =
    absurd (omega (arith, held_revision j id expected h.0.0 h.0.1, c))
stale-Retired j id expected (after, err e) h c = h

-- Of two writers that read the same revision only the first is served: after its checkpoint is
-- placed, placing or retiring at that revision leaves the journal as the first left it.
pub second_writer_refused :
    (persist : Bool) (j : Journal) (id : List ℕ) (expected : ℕ) (first second : List ℕ)
    (after : Journal) (revision : ℕ)
    → put_swap_checkpoint persist j id expected first ≡ (after, ok revision)
    → ((put_swap_checkpoint persist after id expected second).0 ≡ after)
      × ((retire_swap_checkpoint persist after id expected).0 ≡ after)
second_writer_refused persist j id expected first second after revision h =
    let (r, c, now, others, valid) =
      subst (λ q. Placed j id expected first q) h
        (put_swap_checkpoint_lem persist j id expected first) in
    let current : current_revision id after.records ≡ suc expected =
      omega (arith, held_revision after id revision first now, r) in
    (
      stale-Placed after id expected second (put_swap_checkpoint persist after id expected second)
          (put_swap_checkpoint_lem persist after id expected second) current,
      stale-Retired after id expected (retire_swap_checkpoint persist after id expected)
          (retire_swap_checkpoint_lem persist after id expected) current,
    )
