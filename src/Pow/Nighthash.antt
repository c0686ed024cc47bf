-- ===== src/Pow/Nighthash.antt =====
-- `nighthash` of crates/nightfall-crypto/src/pow.rs: Argon2id over the header and the nonce.
use nightfall.Common.{ℕ, List, [], ◌∷◌, ◌++◌, take}
use nightfall.Common.Text.{codes}
use nightfall.Common.Words.{le_bytes, be_bytes}
use nightfall.Types.{PowParams}
use nightfall.Crypto.{Primitives}
use nightfall.Crypto.Hashing.{hash_multi}

abbrev pub nighthash_salt_domain : List ℕ
nighthash_salt_domain = codes "nightfall:nighthash:salt:v2"

module _ (c : Primitives) where
  open c use {argon2id}

  -- The first 16 bytes of a hash of the header.
  unfoldable pub salt_for : List ℕ → List ℕ
  salt_for header_preimage =
      take 16 (be_bytes 32 (hash_multi c nighthash_salt_domain (header_preimage ∷ [])))

  unfoldable pub nighthash : List ℕ → ℕ → PowParams → ℕ
  nighthash header_preimage nonce params =
      argon2id params.memory_kib params.iterations params.lanes
        (header_preimage ++ le_bytes 8 nonce) (salt_for header_preimage)
