-- ===== src/Crypto/Hashing.antt =====
-- crates/nightfall-crypto/src/lib.rs: the length-prefixed, domain-separated hash.
use nightfall.Common.{ℕ, List, [], ◌∷◌, ◌++◌, length}
use nightfall.Common.Words.{le_bytes}
use nightfall.Crypto.Domain
use nightfall.Crypto.{Primitives}

-- One part, behind its length.
unfoldable pub frame_part : List ℕ → List ℕ
frame_part p = le_bytes 8 (length p) ++ p

unfoldable pub frame_parts : List (List ℕ) → List ℕ
frame_parts [] = []
frame_parts (p ∷ parts) = frame_part p ++ frame_parts parts

-- The bytes that `hash_multi` feeds to the hasher.
unfoldable pub frame : List ℕ → List (List ℕ) → List ℕ
frame domain parts = frame_part domain ++ le_bytes 8 (length parts) ++ frame_parts parts

module _ (c : Primitives) where
  open c use {blake3}

  unfoldable pub hash_multi : List ℕ → List (List ℕ) → ℕ
  hash_multi domain parts = blake3 (frame domain parts)

  unfoldable pub hash_domain : List ℕ → List ℕ → ℕ
  hash_domain domain bytes = hash_multi domain (bytes ∷ [])

  unfoldable pub genesis_commitment : List ℕ → ℕ
  genesis_commitment canonical_bytes = hash_domain Domain.genesis canonical_bytes
