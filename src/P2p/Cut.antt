-- ===== src/P2p/Cut.antt =====
-- An answer of blocks is cut to what one message holds (crates/nightfall-p2p/src/lib.rs).
use nightfall.Common.{
  ℕ, zero, suc, ◌≤◌, ◌<◌, ◌≡◌, refl, true, false, none, some, Option, List, [], ◌∷◌, ◌++◌, ◌==◌,
  length, take, arith, inl, inr, length-append, ◌⊎◌,
}
use nightfall.Common.Result.{Result, ok, err, Result-cases}
use nightfall.P2p.{
  BoundedBuffer, WireError, block_too_large, write, written, write_all, new_buffer,
  encode_wire_line, fits_wire, is_ok, max_message_bytes, max_wire_payload_bytes,
  fit_blocks_response, cut,
}
use nightfall.P2p.Fit.{IsMonotone, IsLargest, largest_fitting_prefix_lem}

write_fits :
    (b after : BoundedBuffer) (buf : List ℕ)
    → write b buf ≡ ok after
    → (length after.bytes ≤ after.limit) × (after.limit ≡ b.limit)
unfolding write written
write_fits b after buf h = ground (arith, h, length-append b.bytes buf)

write_all_fits :
    (b after : BoundedBuffer) (chunks : List (List ℕ))
    → length b.bytes ≤ b.limit
    → write_all b chunks ≡ ok after
    → length after.bytes ≤ b.limit
unfolding write_all
write_all_fits b after [] w h = ground (arith, h, w)
write_all_fits b after (chunk ∷ chunks) w h = elim (Result-cases (write b chunk)) [
  | inl (next, e) ↦
      let (fits, same) = write_fits b next chunk e in
      let rest = write_all_fits next after chunks fits (ground (arith, h, e)) in
      omega (arith, rest, same)
  | inr (x, e) ↦ absurd (ground (arith, h, e))
]

-- The line of a value: it exists, and it is no longer than a message may be.
abbrev pub IsLine : List (List ℕ) → Type 0
IsLine chunks =
    (line : List ℕ) × (encode_wire_line chunks ≡ ok line) × (length line ≤ max_message_bytes)

fits_wire-IsLine : (chunks : List (List ℕ)) → fits_wire chunks ≡ true → IsLine chunks
unfolding fits_wire encode_wire_line new_buffer is_ok
fits_wire-IsLine chunks h =
    elim (Result-cases (write_all (new_buffer max_wire_payload_bytes) chunks)) [
      | inl (after, e) ↦ (
        after.bytes ++ 10 ∷ [],
        rw e refl,
        omega (
          arith,
          length-append after.bytes (10 ∷ []),
          write_all_fits (new_buffer max_wire_payload_bytes) after chunks (omega arith) e,
        ),
      )
      | inr (x, e) ↦ absurd (ground (arith, h, e))
    ]

nonzero : (k : ℕ) → (suc k == 0) ≡ false
nonzero k = ground arith

module _ {Block : Type 0} (chunks_of : List Block → List (List ℕ)) where
  -- What the answer to a request for blocks is, by its result.
  abbrev pub IsCut : List Block → Option (Result WireError (List Block)) → Type 0
  IsCut blocks none = ⊥
  IsCut blocks (some (ok kept)) =
      (k : ℕ) × (kept ≡ take k blocks)
      × (k ≤ length blocks)
      × ((length blocks ≡ 0) ⊎ ((0 < k) × IsLine (chunks_of kept)))
      × ((j : ℕ) → k < j → j ≤ length blocks → fits_wire (chunks_of (take j blocks)) ≡ false)
  IsCut blocks (some (err e)) =
      (e ≡ block_too_large)
      × ((j : ℕ) → 0 < j → j ≤ length blocks → fits_wire (chunks_of (take j blocks)) ≡ false)

  cut-IsCut :
      (blocks : List Block) (k : ℕ)
      → IsLargest (λ n. fits_wire (chunks_of (take n blocks))) (length blocks) k
      → IsCut blocks (cut chunks_of blocks (some k))
  unfolding cut
  cut-IsCut blocks zero (le, f, g) = (refl, g)
  cut-IsCut blocks (suc k) (le, f, g) = rw (nonzero k) (
    suc k,
    refl,
    le,
    inr (
      omega arith,
      elim f [
        | inl e ↦ absurd (omega (arith, e))
        | inr t ↦ fits_wire-IsLine (chunks_of (take (suc k) blocks)) t
      ],
    ),
    g,
  )

  -- The answer to a request for blocks, where a longer run of blocks fits a message only if the
  -- shorter ones do. No blocks stay none. Otherwise it is a first part of them, of one block at
  -- least, which is written as a line that is no longer than a message may be, while no longer part
  -- of them fits; or it is refused, and then not one block fits.
  pub fit_blocks_response-IsCut :
      (blocks : List Block)
      → IsMonotone (λ n. fits_wire (chunks_of (take n blocks)))
      → IsCut blocks (fit_blocks_response chunks_of blocks)
  unfolding fit_blocks_response
  fit_blocks_response-IsCut [] m =
      (0, refl, omega arith, inl refl, λ j l w. absurd (omega (arith, l, w)))
  fit_blocks_response-IsCut (b ∷ bs) m =
      let (k, found, largest) =
        largest_fitting_prefix_lem (length (b ∷ bs)) (λ n. fits_wire (chunks_of (take n (b ∷ bs))))
          m in
      rw found (cut-IsCut (b ∷ bs) k largest)
