-- ===== src/SwapJournal/Tests.antt =====
-- The journal's properties, on one swap's first checkpoint.
use nightfall.Common.{ℕ, ap, sym, refl, ◌≡◌, ◌≤◌, ◌*◌, false, List, [], ◌∷◌, length}
use nightfall.Common.Result.{ok}
use nightfall.Common.Text.{codes}
use nightfall.SwapJournal.{
  Journal, default_journal, max_journal_bytes, max_record_bytes, put_swap_checkpoint,
  retire_swap_checkpoint, validate,
}
use nightfall.SwapJournal.Swapped.{Placed, put_swap_checkpoint_lem, second_writer_refused}
use nightfall.SwapJournal.Reserved.{start, next, put, reachable_reserved}

abbrev swap_id : List ℕ
swap_id = codes "00000000-0000-4000-8000-000000000001"

abbrev one_held : Journal
one_held = record {
  v = 1;
  records = (record { id = swap_id; revision = 1; payload = codes "first" }) ∷ [];
}

first_placed :
    put_swap_checkpoint false default_journal swap_id 0 (codes "first") ≡ (one_held, ok 1)
unfolding put_swap_checkpoint nightfall.SwapJournal.put_checked nightfall.SwapJournal.valid_id
    nightfall.SwapJournal.is_id_byte nightfall.SwapJournal.payload_fits validate
    nightfall.SwapJournal.validate_records nightfall.SwapJournal.current_revision
    nightfall.SwapJournal.find_record nightfall.SwapJournal.other_bytes
    nightfall.SwapJournal.put_record
first_placed = refl

put_swap_checkpoint_example : Placed default_journal swap_id 0 (codes "first") (one_held, ok 1)
unfolding put_swap_checkpoint nightfall.SwapJournal.put_checked nightfall.SwapJournal.valid_id
    nightfall.SwapJournal.is_id_byte nightfall.SwapJournal.payload_fits validate
    nightfall.SwapJournal.validate_records nightfall.SwapJournal.current_revision
    nightfall.SwapJournal.find_record nightfall.SwapJournal.other_bytes
    nightfall.SwapJournal.put_record nightfall.Tx.any
put_swap_checkpoint_example =
    put_swap_checkpoint_lem false default_journal swap_id 0 (codes "first")

second_writer_refused_example :
    ((put_swap_checkpoint false one_held swap_id 0 (codes "second")).0 ≡ one_held)
    × ((retire_swap_checkpoint false one_held swap_id 0).0 ≡ one_held)
second_writer_refused_example =
    second_writer_refused false default_journal swap_id 0 (codes "first") (codes "second") one_held
      1 first_placed

reachable_reserved_example :
    (validate one_held ≡ ok tt) × (length one_held.records * max_record_bytes ≤ max_journal_bytes)
reachable_reserved_example = reachable_reserved one_held (
    next default_journal one_held start
      (put false swap_id 0 (codes "first") one_held (ap (λ q. q.0) (sym first_placed))))
