-- ===== src/P2p/Fit.antt =====
-- What is written stays within a message, and the cut keeps as much as fits
-- (crates/nightfall-p2p/src/lib.rs).
use nightfall.Common.{
  ℕ, zero, suc, ◌+◌, ◌-◌, ◌/◌, ◌≤◌, ◌<◌, ◌≡◌, refl, Bool, true, false, some, ltb, arith, inl, inr,
  Bool-cases, ◌⊎◌,
}
use nightfall.P2p.{search, largest_fitting_prefix}

-- What fits fits also when it is shorter.
abbrev pub IsMonotone : (ℕ → Bool) → Type 0
IsMonotone fits = (a b : ℕ) → a ≤ b → fits b ≡ true → fits a ≡ true

-- The largest prefix that fits, where the empty one is taken to fit.
abbrev pub IsLargest : (ℕ → Bool) → ℕ → ℕ → Type 0
IsLargest fits len k =
    (k ≤ len) × ((k ≡ 0) ⊎ (fits k ≡ true)) × ((j : ℕ) → k < j → j ≤ len → fits j ≡ false)

-- The bounds that the search keeps.
abbrev IsBetween : (ℕ → Bool) → ℕ → ℕ → ℕ → Type 0
IsBetween fits len low high =
    (low ≤ high)
    × (high ≤ len)
    × ((low ≡ 0) ⊎ (fits low ≡ true))
    × ((j : ℕ) → high < j → j ≤ len → fits j ≡ false)

too_long :
    (fits : ℕ → Bool) (mid j : ℕ) → IsMonotone fits → fits mid ≡ false → mid ≤ j → fits j ≡ false
too_long fits mid j m h le = elim (Bool-cases (fits j)) [
  | inl e ↦ absurd (ground (arith, h, m mid j le e))
  | inr e ↦ e
]

settled :
    (fits : ℕ → Bool) (len low high : ℕ)
    → IsBetween fits len low high
    → ltb low high ≡ false
    → IsLargest fits len low
settled fits len low high (a, b, f, g) e =
    (omega (arith, a, b), f, λ j l m. g j (ground (arith, l, e)) m)

pub search_finds :
    (fits : ℕ → Bool) (len fuel low high : ℕ)
    → IsMonotone fits
    → high - low ≤ fuel
    → IsBetween fits len low high
    → (k : ℕ) × (search fits fuel low high ≡ some k) × IsLargest fits len k
unfolding search
search_finds fits len zero low high m f b = elim (Bool-cases (ltb low high)) [
  | inl e ↦ absurd (ground (arith, e, f))
  | inr e ↦ (low, rw e refl, settled fits len low high b e)
]
search_finds fits len (suc fuel) low high m f b = elim (Bool-cases (ltb low high)) [
  | inl e ↦
      let mid = low + (high - low + 1) / 2 in
      elim (Bool-cases (fits mid)) [
        | inl t ↦
            let (k, found, largest) =
              search_finds fits len fuel mid high m (ground (arith, e, f))
                (ground (arith, e), b.1, inr t, b.3) in
            (k, rw (e, t) found, largest)
        | inr n ↦
            let (k, found, largest) =
              search_finds fits len fuel low (mid - 1) m (ground (arith, e, f)) (
                ground (arith, e),
                ground (arith, e, b.1),
                b.2,
                λ j l w. too_long fits mid j m n (ground (arith, e, l)),
              ) in
            (k, rw (e, n) found, largest)
      ]
  | inr e ↦ (low, rw e refl, settled fits len low high b e)
]

-- The search ends, and finds the largest prefix that fits, where what fits fits also when it is
-- shorter.
pub largest_fitting_prefix_lem :
    (len : ℕ) (fits : ℕ → Bool)
    → IsMonotone fits
    → (k : ℕ) × (largest_fitting_prefix len fits ≡ some k) × IsLargest fits len k
unfolding largest_fitting_prefix
largest_fitting_prefix_lem len fits m =
    search_finds fits len len 0 len m (omega arith)
      (omega arith, omega arith, inl refl, λ j l w. absurd (omega (arith, l, w)))
