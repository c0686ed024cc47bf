-- ===== src/Wallet/Selected.antt =====
-- What `select_coins_at` picks and when it refuses (crates/nightfall-wallet/src/lib.rs).
use nightfall.Common.{
  ℕ, zero, suc, ◌-◌, ◌^◌, ◌≤◌, ◌<◌, min, ◌≡◌, ap, subst, refl, Bool, true, false, List, [], arith,
  length, filter, take, inl, inr, Bool-cases, leb, ◌⊎◌, length-take,
}
use nightfall.Common.Result.{Result, ok, err, ◌>>=◌}
use nightfall.Crypto.{Primitives}
use nightfall.Tx.Checks.{max_inputs}
use nightfall.Wallet.{Hex, OwnedOutput, WalletFile, WalletError, too_many_coins, insufficient_funds}
use nightfall.Wallet.Coins.{
  Spendable, largest_first, saturating_total, choose, is_candidate, candidates, select_coins_at,
  enough,
}
use nightfall.Wallet.Greedy.{
  value_of, count, saturating_total_lem, largest_first-All, largest_first-filter, take-count,
  take-All, take-take, take_all, value_of-largest_first, filter-All, fewest,
}
use nightfall.Wallet.Funds.{Spends, Unreadable, Chosen, choose-Chosen}

module _ (c : Primitives) (x : Hex) (secret : c.Scalar) where
  -- What a selection over the outputs of a wallet returns, by its result.
  abbrev pub Selected :
      (OwnedOutput → Bool)
      → List OwnedOutput
      → ℕ
      → Result WalletError (List (Spendable c.Scalar))
      → Type 0
  Selected drawn pool target (ok coins) =
      (picked : List OwnedOutput) × Spends c x secret picked coins
      × ((p : OwnedOutput → Bool) → count p picked ≤ count p pool)
      × (length picked ≤ 512)
      × (target ≤ value_of picked)
      × ((p : OwnedOutput → Bool)
          → target ≤ value_of (filter p pool)
          → length picked ≤ count p pool)
  Selected drawn pool target (err e) =
      Unreadable c x secret drawn e
      ⊎ ((e ≡ too_many_coins)
          × (target ≤ value_of pool)
          × ((p : OwnedOutput → Bool) → target ≤ value_of (filter p pool) → 512 < count p pool))
      ⊎ ((e ≡ insufficient_funds (min (value_of pool) (2 ^ 64 - 1)) target)
          × (value_of pool < target))

  at_least :
      (pool : List OwnedOutput) (target n : ℕ) (p : OwnedOutput → Bool)
      → n ≤ length (take 512 (largest_first pool))
      → ((k : ℕ) → k < n → value_of (take k (take 512 (largest_first pool))) < target)
      → target ≤ value_of (filter p pool)
      → n ≤ count p pool
  at_least pool target zero p le low h = omega arith
  at_least pool target (suc k) p le low h =
      let sorted = largest_first pool in
      fewest p k target pool
        (subst (λ t. value_of t < target)
          (take-take k 512 sorted (omega (arith, le, length-take 512 sorted)))
          (low k (omega arith)))
        h

  covered :
      (drawn : OwnedOutput → Bool) (pool : List OwnedOutput) (target : ℕ) (n : ℕ)
      (own : List (Spendable c.Scalar))
      → n ≤ length (take 512 (largest_first pool))
      → Spends c x secret (take n (take 512 (largest_first pool))) own
      → target ≤ value_of (take n (take 512 (largest_first pool)))
      → ((k : ℕ) → k < n → value_of (take k (take 512 (largest_first pool))) < target)
      → Selected drawn pool target (ok own)
  covered drawn pool target n own le sp enough_ low =
      let sorted = largest_first pool in
      let first = take 512 sorted in
      let size : length (take n first) ≡ n = omega (arith, le, length-take n first) in
      (
        take n first,
        sp,
        (λ p. omega (
          arith,
          take-count p n first,
          take-count p 512 sorted,
          (largest_first-filter p pool).0,
        )),
        omega (arith, size, le, length-take 512 sorted),
        enough_,
        (λ p h. rw size (at_least pool target n p le low h)),
      )

  fell_short :
      (drawn : OwnedOutput → Bool) (pool : List OwnedOutput) (target : ℕ)
      (own : List (Spendable c.Scalar)) (sum : ℕ)
      → target < 2 ^ 64
      → leb target sum ≡ false
      → value_of (take 512 (largest_first pool)) < target
      → Selected drawn pool target
          (enough c x target (saturating_total 0 (largest_first pool)) (sum, own))
  unfolding enough
  fell_short drawn pool target own sum w s short =
      let sorted = largest_first pool in
      let total : saturating_total 0 sorted ≡ min (value_of pool) (2 ^ 64 - 1) =
        omega (arith, saturating_total_lem 0 sorted (omega arith), value_of-largest_first pool) in
      elim (Bool-cases (leb target (saturating_total 0 sorted))) [
        | inl e ↦
            rw (s, e)
              (inr (inl (refl, ground (arith, e, total), λ p h. fewest p 512 target pool short h)))
        | inr e ↦
            rw (s, e)
              (inr (inr (ap (λ t. insufficient_funds t target) total, ground (arith, e, total, w))))
      ]

  judged :
      (drawn : OwnedOutput → Bool) (pool : List OwnedOutput) (target : ℕ)
      (r : Result WalletError (ℕ × List (Spendable c.Scalar)))
      → target < 2 ^ 64
      → Chosen c x secret drawn target (take 512 (largest_first pool)) 0 [] r
      → Selected drawn pool target
          (r >>= enough c x target (saturating_total 0 (largest_first pool)))
  unfolding Chosen enough
  judged drawn pool target (err e) w h = inl h
  judged drawn pool target (ok (sum, out)) w (n, own, le, same, sp, tot, fin, low) =
      let first = take 512 (largest_first pool) in
      elim (Bool-cases (leb target sum)) [
        | inl e ↦
            rw (e, enough)
              (rw same (
                covered drawn pool target n own le sp (ground (arith, e, tot))
                  (λ k l. omega (arith, low k l))))
        | inr e ↦ fell_short drawn pool target out sum w e (elim fin [
          | inl all ↦
              let whole = take_all n first (omega (arith, all)) in
              ground (arith, e, w, tot, ap value_of whole)
          | inr met ↦ absurd (ground (arith, e, w, tot, met))
        ])
      ]

  -- Selecting coins for a target of 64 bits. The coins picked are those of candidates, none more
  -- often than the wallet holds it, at most 512, cover the target, and no selection of candidates
  -- that covers it has fewer. It is refused for want of funds when the candidates are worth less
  -- than the target, for too many coins when they are worth enough but every selection that covers
  -- the target has more than 512, and otherwise only when an output's stored scalars cannot be
  -- read. Candidates are neither spent, nor claimed by a pending send, nor reserved, nor immature
  -- where a maturity is given.
  pub select_coins_at_lem :
      (db : WalletFile) (target tip_height maturity : ℕ)
      → target < 2 ^ 64
      → Selected
          (is_candidate c x db tip_height maturity)
          (filter (is_candidate c x db tip_height maturity) db.outputs)
          target
          (select_coins_at c x secret db target tip_height maturity)
  unfolding select_coins_at candidates
  select_coins_at_lem db target tip_height maturity w =
      let drawn = is_candidate c x db tip_height maturity in
      let pool = filter drawn db.outputs in
      judged drawn pool target
        (choose c x secret target (take max_inputs (largest_first pool)) 0 []) w
        (choose-Chosen c x secret drawn target (take max_inputs (largest_first pool)) 0 [] w (
          take-All (λ o. drawn o ≡ true) 512 (largest_first pool)
            (largest_first-All (λ o. drawn o ≡ true) pool (filter-All drawn db.outputs))))
