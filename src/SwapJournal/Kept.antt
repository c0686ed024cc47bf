-- ===== src/SwapJournal/Kept.antt =====
-- What `validate` accepts, and that placing and removing a record keep it
-- (crates/nightfall-wallet/src/swap_journal.rs).
use nightfall.Common.{
  ℕ, suc, ◌+◌, ◌^◌, ap, ◌≤◌, ◌<◌, ◌≡◌, refl, true, false, none, some, List, [], ◌∷◌, arith, length,
  sum_by, inl, inr, Bool-cases, is_some, if◌then◌else◌,
}
use nightfall.Common.Result.{ok}
use nightfall.Common.Text.{same_text, same_text_eq, same_text_sym, same_text_refl}
use nightfall.Tx.{any}
use nightfall.SwapJournal.{
  Record, valid_id, payload_fits, validate_records, put_record, remove_record, other_bytes,
  find_record,
}

abbrev pub bytes_of : List Record → ℕ
bytes_of rs = sum_by (λ r. length r.payload) rs

abbrev pub IsSound : Record → Type 0
IsSound r = (valid_id r.id ≡ true) × (0 < r.revision) × (payload_fits r.payload ≡ true)

-- The records are sound, and no id is among those seen or comes twice.
abbrev pub AreSound : List (List ℕ) → List Record → Type 0
AreSound seen [] = Unit
AreSound seen (r ∷ rs) = IsSound r × (any (same_text r.id) seen ≡ false) × AreSound (r.id ∷ seen) rs

pub sound_validated :
    (rs : List Record) (seen : List (List ℕ)) (size : ℕ)
    → AreSound seen rs
    → size + bytes_of rs < 2 ^ 64
    → validate_records rs seen size ≡ ok (size + bytes_of rs)
unfolding validate_records
sound_validated [] seen size h w = ground arith
sound_validated (r ∷ rs) seen size h w =
    ground (arith, h, sound_validated rs (r.id ∷ seen) (size + length r.payload) h.2 (omega arith))

pub validated_sound :
    (rs : List Record) (seen : List (List ℕ)) (size total : ℕ)
    → validate_records rs seen size ≡ ok total
    → AreSound seen rs × (total ≡ size + bytes_of rs)
unfolding validate_records
validated_sound [] seen size total h = ground arith
validated_sound (r ∷ rs) seen size total h =
    ground (arith, h, validated_sound rs (r.id ∷ seen) (size + length r.payload) total)

pub put-AreSound :
    (rs : List Record) (seen : List (List ℕ)) (new : Record)
    → AreSound seen rs
    → IsSound new
    → any (same_text new.id) seen ≡ false
    → AreSound seen (put_record new rs)
unfolding put_record any
put-AreSound [] seen new h s n = ground arith
put-AreSound (r ∷ rs) seen new h s n = ground (
  arith,
  h,
  s,
  same_text_eq r.id new.id,
  same_text_sym r.id new.id,
  put-AreSound rs (r.id ∷ seen) new h.2 s,
)

-- With the id seen, no record bears it.
others_all :
    (rs : List Record) (seen : List (List ℕ)) (id : List ℕ)
    → AreSound seen rs
    → any (same_text id) seen ≡ true
    → other_bytes id rs ≡ bytes_of rs
unfolding other_bytes any
others_all [] seen id h n = refl
others_all (r ∷ rs) seen id h n = elim (Bool-cases (same_text r.id id)) [
  | inl e ↦ absurd (ground (arith, h, n, ap (λ t. any (same_text t) seen) (same_text_eq r.id id e)))
  | inr e ↦ ground (arith, e, others_all rs (r.id ∷ seen) id h.2 (ground (arith, n)))
]

pub bytes_of-put :
    (rs : List Record) (seen : List (List ℕ)) (new : Record)
    → AreSound seen rs
    → bytes_of (put_record new rs) ≡ other_bytes new.id rs + length new.payload
unfolding other_bytes put_record any
bytes_of-put [] seen new h = omega arith
bytes_of-put (r ∷ rs) seen new h = elim (Bool-cases (same_text r.id new.id)) [
  | inl e ↦ ground (
    arith,
    e,
    same_text_sym r.id new.id,
    others_all rs (r.id ∷ seen) new.id h.2 (ground (arith, e, same_text_sym r.id new.id)),
  )
  | inr e ↦ ground (arith, e, bytes_of-put rs (r.id ∷ seen) new h.2)
]

pub length-put :
    (rs : List Record) (new : Record)
    → length (put_record new rs)
      ≡ (if is_some (find_record new.id rs) then length rs else suc (length rs))
unfolding put_record find_record
length-put [] new = refl
length-put (r ∷ rs) new = ground (arith, length-put rs new)

fewer-AreSound :
    (rs : List Record) (big small : List (List ℕ))
    → ((x : List ℕ) → any (same_text x) big ≡ false → any (same_text x) small ≡ false)
    → AreSound big rs
    → AreSound small rs
unfolding any
fewer-AreSound [] big small f h = tt
fewer-AreSound (r ∷ rs) big small f h = (
  h.0,
  f r.id h.1,
  fewer-AreSound rs (r.id ∷ big) (r.id ∷ small) (λ x n. ground (arith, f x, n)) h.2,
)

pub remove-AreSound :
    (rs : List Record) (seen : List (List ℕ)) (id : List ℕ)
    → AreSound seen rs
    → AreSound seen (remove_record id rs)
unfolding remove_record any
remove-AreSound [] seen id h = tt
remove-AreSound (r ∷ rs) seen id h = ground (
  arith,
  h,
  remove-AreSound rs (r.id ∷ seen) id h.2,
  fewer-AreSound rs (r.id ∷ seen) seen (λ x n. ground (arith, n)) h.2,
)

pub bytes_of-remove :
    (rs : List Record) (id : List ℕ) → bytes_of (remove_record id rs) ≤ bytes_of rs
unfolding remove_record
bytes_of-remove [] id = omega arith
bytes_of-remove (r ∷ rs) id = ground (arith, bytes_of-remove rs id)

pub length-remove : (rs : List Record) (id : List ℕ) → length (remove_record id rs) ≤ length rs
unfolding remove_record
length-remove [] id = omega arith
length-remove (r ∷ rs) id = ground (arith, length-remove rs id)

pub find-put : (rs : List Record) (new : Record) → find_record new.id (put_record new rs) ≡ some new
unfolding find_record put_record
find-put [] new = ground (arith, same_text_refl new.id)
find-put (r ∷ rs) new = ground (arith, same_text_refl new.id, find-put rs new)

different : (a b c : List ℕ) → same_text a b ≡ true → same_text b c ≡ false → same_text a c ≡ false
different a b c p q = rw (same_text_eq a b p) q

pub find-put_other :
    (rs : List Record) (new : Record) (other : List ℕ)
    → same_text new.id other ≡ false
    → find_record other (put_record new rs) ≡ find_record other rs
unfolding find_record put_record
find-put_other [] new other d = ground (arith, d)
find-put_other (r ∷ rs) new other d =
    ground (arith, d, different r.id new.id other, find-put_other rs new other d)

pub find-remove_other :
    (rs : List Record) (id other : List ℕ)
    → same_text id other ≡ false
    → find_record other (remove_record id rs) ≡ find_record other rs
unfolding find_record remove_record
find-remove_other [] id other d = refl
find-remove_other (r ∷ rs) id other d =
    ground (arith, d, different r.id id other, find-remove_other rs id other d)

-- An id that was seen is held by no record.
find_seen :
    (rs : List Record) (seen : List (List ℕ)) (id : List ℕ)
    → AreSound seen rs
    → any (same_text id) seen ≡ true
    → find_record id rs ≡ none
unfolding find_record any
find_seen [] seen id h n = refl
find_seen (r ∷ rs) seen id h n = elim (Bool-cases (same_text r.id id)) [
  | inl e ↦ absurd (ground (arith, h, n, ap (λ t. any (same_text t) seen) (same_text_eq r.id id e)))
  | inr e ↦ ground (arith, e, find_seen rs (r.id ∷ seen) id h.2 (ground (arith, n)))
]

pub find-remove :
    (rs : List Record) (seen : List (List ℕ)) (id : List ℕ)
    → AreSound seen rs
    → find_record id (remove_record id rs) ≡ none
unfolding find_record remove_record any
find-remove [] seen id h = refl
find-remove (r ∷ rs) seen id h = elim (Bool-cases (same_text r.id id)) [
  | inl e ↦
      ground
        (arith, e, find_seen rs (r.id ∷ seen) id h.2 (ground (arith, e, same_text_sym r.id id)))
  | inr e ↦ ground (arith, e, find-remove rs (r.id ∷ seen) id h.2)
]
