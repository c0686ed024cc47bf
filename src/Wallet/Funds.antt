-- ===== src/Wallet/Funds.antt =====
-- What `select_coins_at` picks and when it refuses (crates/nightfall-wallet/src/lib.rs).
use nightfall.Common.{
  ℕ, zero, suc, ◌+◌, ◌-◌, ◌^◌, ◌≤◌, ◌<◌, min, ◌≡◌, sym, subst, refl, Bool, true, false, List, [],
  ◌∷◌, ◌++◌, arith, length, take, All, inl, inr, Bool-cases, leb, ◌⊎◌,
}
use mathlib.Core.List.{append_assoc, append-nil}
use nightfall.Common.Result.{Result, ok, err, Result-cases}
use nightfall.Common.Words.{saturating_add}
use nightfall.Crypto.{Primitives}
use nightfall.Wallet.{Hex, OwnedOutput, WalletError}
use nightfall.Wallet.Coins.{Spendable, to_spendable, choose}
use nightfall.Wallet.Greedy.{value_of}

saturated : (acc v : ℕ) → min (acc + v) (2 ^ 64 - 1) ≡ saturating_add (min acc (2 ^ 64 - 1)) v
saturated acc v = omega arith

module _ (c : Primitives) (x : Hex) (secret : c.Scalar) where
  -- The spendable coins are those of the outputs, one by one.
  abbrev pub Spends : List OwnedOutput → List (Spendable c.Scalar) → Type 0
  Spends [] [] = Unit
  Spends [] (s ∷ ss) = ⊥
  Spends (o ∷ os) [] = ⊥
  Spends (o ∷ os) (s ∷ ss) = (to_spendable c x secret o ≡ ok s) × Spends os ss

  -- An output whose stored scalars cannot be read, with the error that says so.
  abbrev pub Unreadable : (OwnedOutput → Bool) → WalletError → Type 0
  Unreadable drawn e = (o : OwnedOutput) × (drawn o ≡ true) × (to_spendable c x secret o ≡ err e)

  -- How far the loop came.
  unfoldable pub Chosen :
      (OwnedOutput → Bool)
      → ℕ
      → List OwnedOutput
      → ℕ
      → List (Spendable c.Scalar)
      → Result WalletError (ℕ × List (Spendable c.Scalar))
      → Type 0
  Chosen drawn target os acc chosen (ok (sum, out)) =
      (n : ℕ) × (own : List (Spendable c.Scalar)) × (n ≤ length os)
      × (out ≡ chosen ++ own)
      × Spends (take n os) own
      × (sum ≡ min (acc + value_of (take n os)) (2 ^ 64 - 1))
      × ((n ≡ length os) ⊎ (target ≤ acc + value_of (take n os)))
      × ((k : ℕ) → k < n → acc + value_of (take k os) < target)
  Chosen drawn target os acc chosen (err e) = Unreadable drawn e

  Chosen-step :
      (drawn : OwnedOutput → Bool) (target : ℕ) (o : OwnedOutput) (os : List OwnedOutput) (acc : ℕ)
      (chosen : List (Spendable c.Scalar)) (s : Spendable c.Scalar)
      (r : Result WalletError (ℕ × List (Spendable c.Scalar)))
      → acc < target
      → to_spendable c x secret o ≡ ok s
      → Chosen drawn target os (acc + o.value) (chosen ++ s ∷ []) r
      → Chosen drawn target (o ∷ os) acc chosen r
  unfolding Chosen
  Chosen-step drawn target o os acc chosen s (err e) a q h = h
  Chosen-step drawn target o os acc chosen s (ok (sum, out)) a q
        (n, own, le, os_, sp, tot, fin, low) =
      (
        suc n,
        s ∷ own,
        omega (arith, le),
        rw (os_, append_assoc chosen (s ∷ []) own) refl,
        (q, sp),
        omega (arith, tot),
        elim fin [ inl e ↦ inl (omega (arith, e)) | inr e ↦ inr (omega (arith, e)) ],
        λ k l. earlier k l,
      )
    where
      earlier : (k : ℕ) → k < suc n → acc + value_of (take k (o ∷ os)) < target
      earlier zero l = omega (arith, a)
      earlier (suc k) l = omega (arith, low k (omega (arith, l)))

  choose_done :
      (target : ℕ) (o : OwnedOutput) (os : List OwnedOutput) (sum : ℕ)
      (chosen : List (Spendable c.Scalar))
      → leb target sum ≡ true
      → choose c x secret target (o ∷ os) sum chosen ≡ ok (sum, chosen)
  unfolding choose
  choose_done target o os sum chosen e = ground (arith, e)

  choose_unreadable :
      (target : ℕ) (o : OwnedOutput) (os : List OwnedOutput) (sum : ℕ)
      (chosen : List (Spendable c.Scalar)) (f : WalletError)
      → leb target sum ≡ false
      → to_spendable c x secret o ≡ err f
      → choose c x secret target (o ∷ os) sum chosen ≡ err f
  unfolding choose
  choose_unreadable target o os sum chosen f e q = ground (arith, e, q)

  choose_next :
      (target : ℕ) (o : OwnedOutput) (os : List OwnedOutput) (sum : ℕ)
      (chosen : List (Spendable c.Scalar)) (s : Spendable c.Scalar)
      → leb target sum ≡ false
      → to_spendable c x secret o ≡ ok s
      → choose c x secret target (o ∷ os) sum chosen
        ≡ choose c x secret target os (saturating_add sum o.value) (chosen ++ s ∷ [])
  unfolding choose
  choose_next target o os sum chosen s e q = ground (arith, e, q)

  stopped :
      (drawn : OwnedOutput → Bool) (target : ℕ) (os : List OwnedOutput) (acc : ℕ)
      (chosen : List (Spendable c.Scalar))
      → (0 ≡ length os) ⊎ (target ≤ acc)
      → Chosen drawn target os acc chosen (ok (min acc (2 ^ 64 - 1), chosen))
  unfolding Chosen
  stopped drawn target os acc chosen fin = (
    0,
    [],
    omega arith,
    sym (append-nil chosen),
    tt,
    omega arith,
    elim fin [ inl e ↦ inl e | inr e ↦ inr (omega (arith, e)) ],
    λ k l. absurd (omega (arith, l)),
  )

  pub choose-Chosen :
      (drawn : OwnedOutput → Bool) (target : ℕ) (os : List OwnedOutput) (acc : ℕ)
      (chosen : List (Spendable c.Scalar))
      → target < 2 ^ 64
      → All (λ o. drawn o ≡ true) os
      → Chosen drawn target os acc chosen
          (choose c x secret target os (min acc (2 ^ 64 - 1)) chosen)
  unfolding Chosen
  choose-Chosen drawn target [] acc chosen w h =
      unfold choose in stopped drawn target [] acc chosen (inl refl)
  choose-Chosen drawn target (o ∷ os) acc chosen w h =
      let sum = min acc (2 ^ 64 - 1) in
      elim (Bool-cases (leb target sum)) [
        | inl e ↦
            rw (choose_done target o os sum chosen e)
              (stopped drawn target (o ∷ os) acc chosen (inr (ground (arith, e))))
        | inr e ↦ elim (Result-cases (to_spendable c x secret o)) [
          | inl (s, q) ↦ rw (choose_next target o os sum chosen s e q) (
              Chosen-step drawn target o os acc chosen s
                (choose c x secret target os (saturating_add sum o.value) (chosen ++ s ∷ []))
                (ground (arith, e, w)) q
                (subst
                  (λ t.
                    Chosen drawn target os (acc + o.value) (chosen ++ s ∷ [])
                      (choose c x secret target os t (chosen ++ s ∷ [])))
                  (saturated acc o.value)
                  (choose-Chosen drawn target os (acc + o.value) (chosen ++ s ∷ []) w h.1)))
          | inr (f, q) ↦ rw (choose_unreadable target o os sum chosen f e q) (o, h.0, q)
        ]
      ]
