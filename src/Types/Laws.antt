-- ===== src/Types/Laws.antt =====
-- What the amounts and the genesis of crates/nightfall-types/src/lib.rs promise.
use text.Mathlib.TextEquality.{eq_iff}
use nightfall.Common.{ℕ, ◌+◌, ◌^◌, ◌<◌, ◌≡◌, ◌↔◌, none, some, [], arith}
use nightfall.Types.{
  GenesisConfig, assert_fair, max_supply_night, amount_checked_add, amount_checked_sub,
}

-- A genesis passes `assert_fair` exactly when it allocates nothing, bears the coin's name and
-- ticker, and states the supply cap.
pub assert_fair_iff :
    (g : GenesisConfig)
    → (assert_fair g ≡ none) ↔ (
        (g.allocations ≡ [])
        × (g.coin_name ≡ "NIGHTFALLCOIN")
        × (g.ticker ≡ "NIGHT")
        × (g.max_supply_night ≡ max_supply_night))
unfolding assert_fair
assert_fair_iff g = (
  ground (arith, eq_iff g.coin_name "NIGHTFALLCOIN", eq_iff g.ticker "NIGHT"),
  ground (arith, eq_iff g.coin_name "NIGHTFALLCOIN", eq_iff g.ticker "NIGHT"),
)

-- Checked addition returns the exact sum, exactly when the sum fits 64 bits, and checked
-- subtraction takes it back.
pub amount_checked_add_exact :
    (a b c : ℕ)
    → (amount_checked_add a b ≡ some c)
      ↔ ((c ≡ a + b) × (a + b < 2 ^ 64) × (amount_checked_sub c b ≡ some a))
unfolding amount_checked_add amount_checked_sub
amount_checked_add_exact a b c = (ground arith, ground arith)
