-- ===== src/Crypto/Domain.antt =====
-- `mod domain` of crates/nightfall-crypto/src/lib.rs: the hash domains.
use nightfall.Common.{ℕ, List}
use nightfall.Common.Text.{codes}

abbrev pub block : List ℕ
block = codes "nightfall:block:v2"

abbrev pub genesis : List ℕ
genesis = codes "nightfall:genesis:v2"

abbrev pub tx : List ℕ
tx = codes "nightfall:tx:v2"

abbrev pub tx_bound : List ℕ
tx_bound = codes "nightfall:tx:bound:v1"

abbrev pub txbody : List ℕ
txbody = codes "nightfall:txbody:v2"

abbrev pub txbody_bound : List ℕ
txbody_bound = codes "nightfall:txbody:bound:v1"

abbrev pub merkle : List ℕ
merkle = codes "nightfall:merkle:v2"

abbrev pub merkle_leaf : List ℕ
merkle_leaf = codes "nightfall:merkle:leaf:v2"

abbrev pub input : List ℕ
input = codes "nightfall:input:v2"
