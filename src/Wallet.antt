-- ===== src/Wallet.antt =====
-- crates/nightfall-wallet/src/lib.rs: the wallet's state and what it reads off it.
--
-- A `String` is the list of its characters' code points, `[u8; 32]` the number that its bytes spell.
-- `hex` is a library, given by its two functions. The outcome of writing the wallet's file is an
-- argument of the operations that save.
pub mod Coins
pub mod Funds
pub mod Greedy
pub mod Sends
pub mod Reconcile
pub mod Gather
pub mod Scan
pub mod Retained
pub mod Held
pub mod Canonical
pub mod Till
pub mod Distinct
pub mod Billed
pub mod Selected
mod Tests
use nightfall.Common.{
  ℕ, zero, suc, ◌+◌, ◌-◌, ◌*◌, ◌%◌, ◌^◌, ◌<◌, ◌≡◌, max, Bool, true, false, not, ◌&&◌, ◌||◌, none,
  some, Option, List, [], ◌∷◌, ◌++◌, map, ◌==◌, leb, ltb, if◌then◌else◌, is_some, length, filter,
  sum_by,
}
use nightfall.Common.Result.{Result, ok, err}
use nightfall.Common.Text.{same_text}
use nightfall.Common.Words.{saturating_add, wrapping_add, be_bytes, u64_mod}
use nightfall.Crypto.{Primitives}
use nightfall.Crypto.Commit.{Commitment}
use nightfall.Types.{NetworkId}
use nightfall.Tx.{any, all}
use nightfall.Counter.{Invoice}
use nightfall.SwapJournal.{Journal, default_journal}

-- `hex::encode` and `hex::decode`.
pub record Hex : Type 0 where
  pub encode : List ℕ → List ℕ
  pub decode : List ℕ → Option (List ℕ)
  pub decode-encode : (n : ℕ) → decode (encode (be_bytes 32 n)) ≡ some (be_bytes 32 n)

pub record OwnedOutput : Type 0 where
  pub commit : Commitment
  pub value : ℕ
  pub blind_hex : List ℕ
  pub key_offset_hex : List ℕ
  pub memo : List ℕ
  pub height : ℕ
  pub spent : Bool
  pub is_coinbase : Bool

pub data Direction : Type 0 where
  received sent mined : Direction

unfoldable pub is_sent : Direction → Bool
is_sent sent = true
is_sent received = false
is_sent mined = false

pub record HistoryEntry : Type 0 where
  pub direction : Direction
  pub amount : ℕ
  pub fee : ℕ
  pub memo : List ℕ
  pub height : Option ℕ
  pub txid : List ℕ
  pub timestamp : ℕ
  pub spent_commits : List Commitment
  pub raw : Option (List ℕ)
  pub quarantined : Bool
  pub failed : Bool

unfoldable pub is_pending : HistoryEntry → Bool
is_pending e = not (is_some e.height) && not e.failed

unfoldable pub needs_owner_decision : HistoryEntry → Bool
needs_owner_decision e = e.quarantined && is_pending e

-- A send that no block confirmed and nobody gave up.
unfoldable pub is_open_send : HistoryEntry → Bool
is_open_send e = is_sent e.direction && is_pending e

pub record AirSignature : Type 0 where
  pub intent : List ℕ
  pub raw : List ℕ

pub record WalletFile : Type 0 where
  pub outputs : List OwnedOutput
  pub scanned_to : ℕ
  pub history : List HistoryEntry
  pub birth_height : ℕ
  pub reserved : List (List ℕ)
  pub scanned_tip : List ℕ
  pub invoices : List Invoice
  pub air_signed : List (List ℕ × AirSignature)
  pub swap_journal : Journal

-- `WalletFile::default`.
abbrev pub default_file : WalletFile
default_file = record {
  outputs = [];
  scanned_to = 0;
  history = [];
  birth_height = 0;
  reserved = [];
  scanned_tip = [];
  invoices = [];
  air_signed = [];
  swap_journal = default_journal;
}

pub record Balances : Type 0 where
  pub available : ℕ
  pub immature : ℕ
  pub pending_out : ℕ

-- `Balances::total`.
unfoldable pub total : Balances → ℕ
total b = saturating_add b.available b.immature

pub data WalletError : Type 0 where
  bad_scalar_hex scalar_length non_canonical_scalar : WalletError
  too_many_coins : WalletError
  insufficient_funds : ℕ → ℕ → WalletError
  not_saved : WalletError
  swap_recovery_exists reservations_exist in_memory_only : WalletError
  no_anchor_block history_without_anchor chain_changed : WalletError
  no_blocks wrong_start gap_in_chain not_shorter : WalletError

-- `BTreeSet::contains`.
unfoldable pub contains : List Commitment → Commitment → Bool
contains set commit = any (λ k. k == commit) set

unfoldable pub none_left {ℓ} : {A : Type ℓ} → List A → Bool
none_left [] = true
none_left (x ∷ xs) = false

-- `Wallet::save`, with whether the file could be written.
unfoldable pub save : Bool → Bool → Result WalletError (Unit {0})
save persist written = if persist && not written then err not_saved else ok tt

-- The commits that pending sends spend.
unfoldable pub claimed : List HistoryEntry → List Commitment
claimed [] = []
claimed (e ∷ es) = (if is_open_send e then e.spent_commits else []) ++ claimed es

unfoldable pub pending_input_commits : WalletFile → List Commitment
pending_input_commits db = claimed db.history

-- The release build's sum of u64.
unfoldable pub wrapping_sum : List OwnedOutput → ℕ
wrapping_sum [] = 0
wrapping_sum (o ∷ os) = wrapping_add o.value (wrapping_sum os)

unfoldable pub unclaimed : WalletFile → OwnedOutput → Bool
unclaimed db o = not o.spent && not (contains (pending_input_commits db) o.commit)

unfoldable pub balance : WalletFile → ℕ
balance db = wrapping_sum (filter (unclaimed db) db.outputs)

unfoldable pub spendable_count : WalletFile → ℕ
spendable_count db = length (filter (unclaimed db) db.outputs)

unfoldable pub has_scanned_history : WalletFile → Bool
has_scanned_history db =
    ltb db.birth_height db.scanned_to
    || not (none_left db.scanned_tip)
    || not (none_left db.outputs)
    || not (none_left db.history)
    || not (none_left db.reserved)

unfoldable pub needs_light_rebuild : WalletFile → Bool
needs_light_rebuild db =
    none_left db.scanned_tip
    && has_scanned_history db
    && not (
        db.scanned_to == db.birth_height
        && none_left db.outputs
        && none_left db.reserved
        && all (λ e. is_open_send e && e.quarantined) db.history)

unfoldable pub needs_canonical_pass : WalletFile → Bool
needs_canonical_pass db = none_left db.scanned_tip && has_scanned_history db

unfoldable pub scan_from : WalletFile → ℕ
scan_from db = max db.scanned_to db.birth_height

unfoldable pub has_reservations : WalletFile → Bool
has_reservations db = not (none_left db.reserved)

unfoldable pub quarantined : WalletFile → List HistoryEntry
quarantined db = filter needs_owner_decision db.history

unfoldable pub unconfirmed_sends : WalletFile → List HistoryEntry
unconfirmed_sends db = filter is_open_send db.history

-- The coinbase delay has passed at a tip.
unfoldable pub is_mature : OwnedOutput → ℕ → ℕ → Bool
is_mature o tip_height maturity =
    not o.is_coinbase || leb (saturating_add o.height maturity) tip_height

unfoldable pub blocks_until_mature : OwnedOutput → ℕ → ℕ → Option ℕ
blocks_until_mature o tip_height maturity =
    if o.is_coinbase && ltb tip_height (saturating_add o.height maturity)
    then some (saturating_add o.height maturity - tip_height)
    else none

unfoldable pub spendable_outputs : WalletFile → ℕ → ℕ → List OwnedOutput
spendable_outputs db tip_height maturity =
    filter (λ o. unclaimed db o && is_mature o tip_height maturity) db.outputs

-- The wrapping sum of what pending sends pay.
going_out : List HistoryEntry → ℕ
going_out [] = 0
going_out (e ∷ es) = (saturating_add e.amount e.fee + going_out es) % u64_mod

module _ (x : Hex) where
  -- `Commitment::to_hex` and `Hash256::to_hex`.
  unfoldable pub to_hex : ℕ → List ℕ
  to_hex n = x.encode (be_bytes 32 n)

  unfoldable pub is_reserved : WalletFile → Commitment → Bool
  is_reserved db commit = any (λ r. same_text r (to_hex commit)) db.reserved

  -- One output's part in the two sums of `balances`.
  tallied : WalletFile → ℕ → ℕ → List OwnedOutput → ℕ × ℕ → ℕ × ℕ
  tallied db tip_height maturity [] (available, immature) = (available, immature)
  tallied db tip_height maturity (o ∷ os) (available, immature) =
      let skip =
        o.spent || is_reserved db o.commit || contains (pending_input_commits db) o.commit in
      let young = o.is_coinbase && ltb tip_height (saturating_add o.height maturity) in
      tallied db tip_height maturity os (
        if skip || young then available else saturating_add available o.value,
        if not skip && young then saturating_add immature o.value else immature,
      )

  unfoldable pub balances : WalletFile → ℕ → ℕ → Balances
  unfolding tallied going_out
  balances db tip_height maturity =
      let sums = tallied db tip_height maturity db.outputs (0, 0) in
      record {
        available = sums.0;
        immature = sums.1;
        pending_out = going_out (filter is_open_send db.history);
      }
