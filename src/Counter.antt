-- ===== src/Counter.antt =====
-- crates/nightfall-wallet/src/counter.rs: a till's invoices, the payments that quote them, and how
-- far an invoice is settled on the chain.
--
-- A `String` is the list of its characters' code points; the texts shown to a person are left out.
pub mod Settled
mod Tests
use nightfall.Common.{
  ℕ, ◌+◌, ◌-◌, max, min, Bool, true, false, not, ◌&&◌, none, some, Option, List, [], ◌∷◌, ◌==◌, leb,
  ltb, if◌then◌else◌, is_some, length, filter,
}
use nightfall.Common.Result.{Result, ok, err}
use nightfall.Common.Text.{same_text, trim}
use nightfall.Common.Words.{saturating_add}
use nightfall.Types.{max_supply_darks}
use nightfall.Tx.{any}

abbrev pub max_reference : ℕ
max_reference = 64

abbrev pub max_description : ℕ
max_description = 64

abbrev pub max_invoices : ℕ
max_invoices = 2_000

abbrev pub default_confirmations : ℕ
default_confirmations = 10

pub record Invoice : Type 0 where
  pub reference : List ℕ
  pub amount_darks : Option ℕ
  pub description : List ℕ
  pub created_unix : ℕ
  pub expires_unix : Option ℕ
  pub closed_note : Option (List ℕ)

pub record Incoming : Type 0 where
  pub amount_darks : ℕ
  pub memo : List ℕ
  pub height : Option ℕ
  pub timestamp : ℕ
  pub reference_id : List ℕ

pub data InvoiceState : Type 0 where
  open_ expired closed : InvoiceState
  paid : Bool → InvoiceState
  underpaid overpaid : ℕ → Bool → InvoiceState

pub record InvoiceStatus : Type 0 where
  pub state : InvoiceState
  pub matched : List Incoming
  pub candidates : List Incoming
  pub received_darks : ℕ

-- The states paid and overpaid, and those with the invoice closed by hand.
unfoldable pub is_paid : InvoiceState → Bool
is_paid (paid late) = true
is_paid (overpaid extra late) = true
is_paid open_ = false
is_paid expired = false
is_paid closed = false
is_paid (underpaid short late) = false

unfoldable pub settles : InvoiceState → Bool
settles closed = true
settles (paid late) = true
settles (overpaid extra late) = true
settles open_ = false
settles expired = false
settles (underpaid short late) = false

-- `InvoiceStatus::is_settled`.
unfoldable pub is_settled : InvoiceStatus → Bool
is_settled s = settles s.state

pub data InvoiceError : Type 0 where
  no_reference long_reference long_description zero_amount beyond_supply : InvoiceError

is_empty : List ℕ → Bool
is_empty [] = true
is_empty (ch ∷ rest) = false

check_amount : Option ℕ → Result InvoiceError (Unit {0})
check_amount none = ok tt
check_amount (some darks) =
    if darks == 0
    then err zero_amount
    else if ltb max_supply_darks darks
    then err beyond_supply
    else ok tt

-- `Invoice::check`.
unfoldable pub check : Invoice → Result InvoiceError (Unit {0})
unfolding is_empty check_amount
check i =
    if is_empty (trim i.reference)
    then err no_reference
    else if ltb max_reference (length (trim i.reference))
    then err long_reference
    else if ltb max_description (length i.description)
    then err long_description
    else check_amount i.amount_darks

looks_like_another_reference : List ℕ → Bool
unfolding is_empty
looks_like_another_reference memo =
    not (is_empty (trim memo))
    && not (any (λ ch. ch == b' ') (trim memo))
    && leb (length (trim memo)) max_reference

-- A payment that quotes the reference of an invoice, and one that may be meant for it.
unfoldable pub quotes : Invoice → Incoming → Bool
quotes i p = same_text (trim p.memo) (trim i.reference)

resembles : Option ℕ → Invoice → Incoming → Bool
unfolding looks_like_another_reference
resembles none i p = false
resembles (some asked) i p =
    not (looks_like_another_reference p.memo)
    && p.amount_darks == asked
    && leb i.created_unix p.timestamp

unfoldable pub may_be_meant : Invoice → Incoming → Bool
unfolding resembles
may_be_meant i p = not (quotes i p) && resembles i.amount_darks i p

fold_received : ℕ → List Incoming → ℕ
fold_received sum [] = sum
fold_received sum (p ∷ ps) = fold_received (saturating_add sum p.amount_darks) ps

unfoldable pub received : List Incoming → ℕ
unfolding fold_received
received matched = fold_received 0 matched

passed : Option ℕ → ℕ → Bool
passed none at = false
passed (some deadline) at = ltb deadline at

unfoldable pub is_late : Invoice → List Incoming → Bool
unfolding passed
is_late i matched = any (λ p. passed i.expires_unix p.timestamp) matched

against : Option ℕ → ℕ → Bool → InvoiceState
against none total late = paid late
against (some asked) total late =
    if total == asked
    then paid late
    else if ltb total asked
    then underpaid (asked - total) late
    else overpaid (total - asked) late

-- The state of an invoice from the payments that quote it.
unfoldable pub state_of : Invoice → List Incoming → ℕ → InvoiceState
unfolding passed against
state_of i [] now_unix =
    if is_some i.closed_note
    then closed
    else if passed i.expires_unix now_unix
    then expired
    else open_
state_of i (p ∷ ps) now_unix =
    if is_some i.closed_note
    then closed
    else against i.amount_darks (received (p ∷ ps)) (is_late i (p ∷ ps))

unfoldable pub status : Invoice → List Incoming → ℕ → InvoiceStatus
status i payments now_unix =
    let matched = filter (quotes i) payments in
    let state = state_of i matched now_unix in
    record {
      state = state;
      matched = matched;
      candidates = if settles state then [] else filter (may_be_meant i) payments;
      received_darks = received matched;
    }

pub data Settlement : Type 0 where
  not_paid unconfirmed confirmed closed_by_hand : Settlement
  confirming : ℕ → ℕ → Settlement

sooner : Option ℕ → ℕ → ℕ
sooner none confs = confs
sooner (some s) confs = min s confs

-- The confirmations of a payment at a tip, where it has any.
depth : ℕ → Option ℕ → Option ℕ
depth tip_height none = none
depth tip_height (some h) = if ltb tip_height h then none else some (tip_height - h + 1)

against_need : Option ℕ → ℕ → Settlement
against_need none need = unconfirmed
against_need (some have) need = if leb need have then confirmed else confirming have need

-- The loop of `settlement`, with the least confirmations seen.
shallowest : List Incoming → ℕ → ℕ → Option ℕ → Settlement
unfolding sooner depth against_need
shallowest [] tip_height need least = against_need least need
shallowest (p ∷ ps) tip_height need least = elim (depth tip_height p.height) [
  | none ↦ unconfirmed
  | some confs ↦ shallowest ps tip_height need (some (sooner least confs))
]

unfoldable pub settlement : InvoiceStatus → ℕ → ℕ → Settlement
unfolding shallowest
settlement s tip_height need = elim s.state [
  | closed ↦ closed_by_hand
  | paid late ↦ shallowest s.matched tip_height (max need 1) none
  | overpaid extra late ↦ shallowest s.matched tip_height (max need 1) none
  | open_ ↦ not_paid
  | expired ↦ not_paid
  | underpaid short late ↦ not_paid
]

is_confirmed : Settlement → Bool
is_confirmed confirmed = true
is_confirmed not_paid = false
is_confirmed unconfirmed = false
is_confirmed closed_by_hand = false
is_confirmed (confirming have need) = false

fold_takings : (InvoiceStatus → Bool) → ℕ → List InvoiceStatus → ℕ
fold_takings counts sum [] = sum
fold_takings counts sum (s ∷ ss) =
    fold_takings counts (if counts s then saturating_add sum s.received_darks else sum) ss

unfoldable pub confirmed_takings_darks : List InvoiceStatus → ℕ → ℕ → ℕ
unfolding fold_takings is_confirmed
confirmed_takings_darks statuses tip need =
    fold_takings (λ s. is_confirmed (settlement s tip need)) 0 statuses

unfoldable pub takings_darks : List InvoiceStatus → ℕ
unfolding fold_takings
takings_darks statuses = fold_takings (λ s. is_paid s.state) 0 statuses
