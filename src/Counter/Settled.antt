-- ===== src/Counter/Settled.antt =====
-- When an invoice counts as paid, and when its settlement is confirmed
-- (crates/nightfall-wallet/src/counter.rs).
use nightfall.Common.{
  ℕ, ◌+◌, ◌-◌, ◌^◌, ◌≤◌, ◌<◌, min, ◌≡◌, ◌↔◌, Bool, true, none, some, Option, List, [], ◌∷◌, arith,
  sum_by,
}
use nightfall.Common.Words.{saturating_add}
use nightfall.Counter.{
  Invoice, Incoming, is_paid, received, fold_received, passed, against, state_of, is_late,
}

-- The payments cover what was asked, whatever arrived where the payer chooses.
abbrev pub Covers : Option ℕ → List Incoming → Type 0
Covers amount [] = ⊥
Covers none (p ∷ ps) = Unit
Covers (some asked) (p ∷ ps) = asked ≤ sum_by (λ q. q.amount_darks) (p ∷ ps)

abbrev pub FitsWord : Option ℕ → Type 0
FitsWord none = Unit
FitsWord (some asked) = asked < 2 ^ 64

-- In a block at or below the tip, with that many confirmations.
abbrev pub Deep : ℕ → ℕ → Incoming → Type 0
Deep tip need p = (h : ℕ) × (p.height ≡ some h) × (h ≤ tip) × (need ≤ tip - h + 1)

fold_received_lem :
    (t : ℕ) (ps : List Incoming)
    → t < 2 ^ 64
    → fold_received t ps ≡ min (t + sum_by (λ q. q.amount_darks) ps) (2 ^ 64 - 1)
unfolding fold_received
fold_received_lem t [] h = omega arith
fold_received_lem t (p ∷ ps) h =
    omega (arith, fold_received_lem (saturating_add t p.amount_darks) ps (omega arith))

received_lem :
    (ps : List Incoming) → received ps ≡ min (sum_by (λ q. q.amount_darks) ps) (2 ^ 64 - 1)
unfolding received
received_lem ps = omega (arith, fold_received_lem 0 ps (omega arith))

against_iff :
    (amount : Option ℕ) (p : Incoming) (ps : List Incoming) (late : Bool)
    → FitsWord amount
    → (is_paid (against amount (received (p ∷ ps)) late) ≡ true) ↔ Covers amount (p ∷ ps)
unfolding is_paid against
against_iff none p ps late w = ground arith
against_iff (some asked) p ps late w = ground (arith, received_lem (p ∷ ps))

pub paid_state_iff :
    (i : Invoice) (ps : List Incoming) (now_unix : ℕ)
    → FitsWord i.amount_darks
    → (is_paid (state_of i ps now_unix) ≡ true) ↔ (i.closed_note ≡ none) × Covers i.amount_darks ps
unfolding state_of is_paid passed
paid_state_iff i [] now_unix w = ground arith
paid_state_iff i (p ∷ ps) now_unix w =
    ground (arith, against_iff i.amount_darks p ps (is_late i (p ∷ ps)) w)
