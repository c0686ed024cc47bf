-- ===== src/Emission/Cap.antt =====
-- The emission of crates/nightfall-consensus/src/lib.rs against the supply cap.
use native.Mathlib.Nat.{div-div-eq-div-mul, pow-suc}
use nightfall.Common.{◌⊎◌, ℕ, zero, suc, ◌+◌, ◌*◌, ◌/◌, ◌%◌, ◌^◌, ◌≤◌, ◌<◌, ◌≡◌, arith, inl, inr}
use nightfall.Emission.{EmissionSchedule, locked_mainnet, theoretical_reward_at, reward_at}

-- What the chain has minted once every height below `n` has paid its reward.
unfoldable pub minted_below : EmissionSchedule → ℕ → ℕ
minted_below e zero = 0
minted_below e (suc n) = let m = minted_below e n in m + reward_at e n m

-- One more reward never takes the supply past the cap, at any height and for any schedule.
pub reward_at-cap :
    (e : EmissionSchedule) (height minted : ℕ)
    → minted ≤ e.max_supply_darks
    → minted + reward_at e height minted ≤ e.max_supply_darks
unfolding reward_at
reward_at-cap e height minted h = ground arith

-- The reward halves: `q` halvings leave the initial reward divided by two `q` times.
reward_step : ℕ → ℕ
reward_step q = 600_000_000 / 2 ^ q

reward_step-suc : (q : ℕ) → 2 * reward_step (suc q) ≤ reward_step q
unfolding reward_step
reward_step-suc q = rw (pow-suc 2 q, ← div-div-eq-div-mul 600_000_000 (2 ^ q) 2) (omega arith)

theoretical-reward_step :
    (n : ℕ) → theoretical_reward_at locked_mainnet n ≤ reward_step (n / 7_500_000)
unfolding theoretical_reward_at locked_mainnet reward_step
theoretical-reward_step n = ground arith

minted-step :
    (n : ℕ)
    → minted_below locked_mainnet (suc n)
      ≤ minted_below locked_mainnet n + reward_step (n / 7_500_000)
unfolding minted_below reward_at
minted-step n = ground (arith, theoretical-reward_step n)

-- What is still to come within a halving, and in all later ones, fits under the cap.
abbrev Budget : ℕ → Type 0
Budget n =
    minted_below locked_mainnet n + 15_000_000 * reward_step (n / 7_500_000)
    ≤ 9_000_000_000_000_000 + (n % 7_500_000) * reward_step (n / 7_500_000)

interval-suc :
    (n : ℕ)
    → ((suc n / 7_500_000 ≡ n / 7_500_000) × (suc n % 7_500_000 ≡ n % 7_500_000 + 1))
      ⊎ ((suc n / 7_500_000 ≡ suc (n / 7_500_000))
          × (suc n % 7_500_000 ≡ 0)
          × (n % 7_500_000 ≡ 7_499_999))
interval-suc n = grind arith

budget_within :
    (m m' r a : ℕ)
    → m' ≤ m + a
    → m + 15_000_000 * a ≤ 9_000_000_000_000_000 + r * a
    → m' + 15_000_000 * a ≤ 9_000_000_000_000_000 + (r + 1) * a
budget_within m m' r a h k = omega arith

budget_next :
    (m m' a b : ℕ)
    → m' ≤ m + a
    → 2 * b ≤ a
    → m + 15_000_000 * a ≤ 9_000_000_000_000_000 + 7_499_999 * a
    → m' + 15_000_000 * b ≤ 9_000_000_000_000_000 + 0 * b
budget_next m m' a b h k l = omega arith

Budget-zero : Budget 0
unfolding minted_below reward_step
Budget-zero = omega arith

budget : (n : ℕ) → Budget n
budget zero = Budget-zero
budget (suc n) = elim (interval-suc n) [
  | inl (q, r) ↦ rw (q, r) (budget_within _ _ (n % 7_500_000) _ (minted-step n) (budget n))
  | inr (q, r, l) ↦
      rw (q, r)
        (budget_next _ _ (reward_step (n / 7_500_000)) _ (minted-step n)
          (reward_step-suc (n / 7_500_000)) (rw l at (budget n)))
]

room :
    (m a r : ℕ)
    → r < 7_500_000
    → m + 15_000_000 * a ≤ 9_000_000_000_000_000 + r * a
    → m + a ≤ 9_000_000_000_000_000
room m a r h k = grind arith

reward_unclamped :
    (n m a : ℕ)
    → theoretical_reward_at locked_mainnet n ≤ a
    → m + a ≤ 9_000_000_000_000_000
    → reward_at locked_mainnet n m ≡ theoretical_reward_at locked_mainnet n
unfolding reward_at locked_mainnet
reward_unclamped n m a h k = ground arith

-- Along the mainnet schedule the clamp to the cap never bites: every block is paid the whole
-- reward of its halving, and the cap of 90,000,000 coins still holds after every block.
pub schedule_meets_cap :
    (n : ℕ)
    → (reward_at locked_mainnet n (minted_below locked_mainnet n)
        ≡ theoretical_reward_at locked_mainnet n)
      × (minted_below locked_mainnet n ≤ 9_000_000_000_000_000)
schedule_meets_cap n =
    let within = room _ _ (n % 7_500_000) (omega arith) (budget n) in
    (reward_unclamped n _ _ (theoretical-reward_step n) within, omega (arith, within))
