-- ===== src/P2p.antt =====
-- crates/nightfall-p2p/src/lib.rs: the bounded buffer that a peer message is written into, and the
-- cut of a `Blocks` answer to what one message holds.
--
-- `serde_json` is a library: writing a value is the chunks it hands to the buffer, an argument.
pub mod Fit
pub mod Cut
mod Tests
use nightfall.Common.{
  ℕ, zero, suc, ◌+◌, ◌-◌, ◌*◌, ◌/◌, Bool, true, false, not, none, some, Option, List, [], ◌∷◌, ◌++◌,
  ltb, ◌==◌, if◌then◌else◌, is_some, length, take,
}
use nightfall.Common.Result.{Result, ok, err, ◌>>=◌}
use nightfall.Common.Words.{checked_add}

abbrev pub max_message_bytes : ℕ
max_message_bytes = 4 * 1024 * 1024

abbrev pub max_wire_payload_bytes : ℕ
max_wire_payload_bytes = max_message_bytes - 1

pub data WireError : Type 0 where
  size_overflow exceeds_limit block_too_large : WireError

pub record BoundedBuffer : Type 0 where
  pub bytes : List ℕ
  pub limit : ℕ

-- `BoundedBuffer::new`.
unfoldable pub new_buffer : ℕ → BoundedBuffer
new_buffer limit = record { bytes = []; limit = limit }

written : BoundedBuffer → List ℕ → Option ℕ → Result WireError BoundedBuffer
written b buf none = err size_overflow
written b buf (some next) =
    if ltb b.limit next then err exceeds_limit else ok (record b { bytes = b.bytes ++ buf })

-- `write`, which takes all of its argument or refuses it.
unfoldable pub write : BoundedBuffer → List ℕ → Result WireError BoundedBuffer
unfolding written
write b buf = written b buf (checked_add (length b.bytes) (length buf))

-- `serde_json::to_writer`: the chunks of a value, one after the other, to the first refusal.
unfoldable pub write_all : BoundedBuffer → List (List ℕ) → Result WireError BoundedBuffer
write_all b [] = ok b
write_all b (chunk ∷ chunks) = write b chunk >>= λ next. write_all next chunks

unfoldable pub encode_wire_line : List (List ℕ) → Result WireError (List ℕ)
encode_wire_line chunks =
    write_all (new_buffer max_wire_payload_bytes) chunks >>= λ out. ok (out.bytes ++ 10 ∷ [])

is_ok : Result WireError BoundedBuffer → Bool
is_ok (ok b) = true
is_ok (err e) = false

unfoldable pub fits_wire : List (List ℕ) → Bool
unfolding is_ok
fits_wire chunks = is_ok (write_all (new_buffer max_wire_payload_bytes) chunks)

-- The binary search of `largest_fitting_prefix`, on fuel.
unfoldable pub search : (ℕ → Bool) → ℕ → ℕ → ℕ → Option ℕ
search fits zero low high = if ltb low high then none else some low
search fits (suc fuel) low high =
    let mid = low + (high - low + 1) / 2 in
    let rest =
      search fits fuel (if fits mid then mid else low) (if fits mid then high else mid - 1) in
    if ltb low high then rest else some low

unfoldable pub largest_fitting_prefix : ℕ → (ℕ → Bool) → Option ℕ
largest_fitting_prefix len fits = search fits len 0 len

module _ {Block : Type 0} (chunks_of : List Block → List (List ℕ)) where
  cut : List Block → Option ℕ → Option (Result WireError (List Block))
  cut blocks none = none
  cut blocks (some keep) =
      if keep == 0 then some (err block_too_large) else some (ok (take keep blocks))

  -- `fit_blocks_response`, with how a list of blocks is serialised as a message.
  unfoldable pub fit_blocks_response : List Block → Option (Result WireError (List Block))
  unfolding cut
  fit_blocks_response [] = some (ok [])
  fit_blocks_response (b ∷ bs) =
      cut (b ∷ bs)
        (largest_fitting_prefix (length (b ∷ bs)) (λ n. fits_wire (chunks_of (take n (b ∷ bs)))))
