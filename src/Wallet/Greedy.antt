-- ===== src/Wallet/Greedy.antt =====
-- The largest coins first are the fewest (`select_coins_at` in crates/nightfall-wallet/src/lib.rs).
use nightfall.Common.{
  ℕ, zero, suc, ◌+◌, ◌-◌, ◌^◌, ◌≤◌, ◌<◌, min, ◌≡◌, ap, refl, Bool, true, List, [], ◌∷◌, arith,
  length, filter, take, sum_by, All, leb, inl, inr, Bool-cases,
}
use nightfall.Common.Words.{saturating_add}
use nightfall.Wallet.{OwnedOutput}
use nightfall.Wallet.Coins.{insert_coin, largest_first, saturating_total}

abbrev pub value_of : List OwnedOutput → ℕ
value_of os = sum_by (λ o. o.value) os

abbrev pub count : (OwnedOutput → Bool) → List OwnedOutput → ℕ
count p os = length (filter p os)

pub saturating_total_lem :
    (sum : ℕ) (os : List OwnedOutput)
    → sum < 2 ^ 64
    → saturating_total sum os ≡ min (sum + value_of os) (2 ^ 64 - 1)
unfolding saturating_total
saturating_total_lem sum [] h = omega arith
saturating_total_lem sum (o ∷ os) h =
    omega (arith, saturating_total_lem (saturating_add sum o.value) os (omega arith))

abbrev pub IsFalling : List OwnedOutput → Type 0
IsFalling [] = Unit
IsFalling (o ∷ os) = All (λ p. p.value ≤ o.value) os × IsFalling os

insert-All :
    (P : OwnedOutput → Type 0) (o : OwnedOutput) (os : List OwnedOutput)
    → P o
    → All P os
    → All P (insert_coin o os)
unfolding insert_coin
insert-All P o [] h a = (h, tt)
insert-All P o (p ∷ ps) h a = elim (Bool-cases (leb p.value o.value)) [
  | inl e ↦ rw e (h, a)
  | inr e ↦ rw e (a.0, insert-All P o ps h a.1)
]

below_mono :
    (a b : ℕ) (os : List OwnedOutput)
    → a ≤ b
    → All (λ p. p.value ≤ a) os
    → All (λ p. p.value ≤ b) os
below_mono a b [] h s = tt
below_mono a b (o ∷ os) h s = (omega (arith, s.0), below_mono a b os h s.1)

insert-IsFalling :
    (o : OwnedOutput) (os : List OwnedOutput) → IsFalling os → IsFalling (insert_coin o os)
unfolding insert_coin
insert-IsFalling o [] h = (tt, tt)
insert-IsFalling o (p ∷ ps) h = elim (Bool-cases (leb p.value o.value)) [
  | inl e ↦ rw e ((ground (arith, e), below_mono p.value o.value ps (ground (arith, e)) h.0), h)
  | inr e ↦
      rw e (
        insert-All (λ q. q.value ≤ p.value) o ps (ground (arith, e)) h.0,
        insert-IsFalling o ps h.1,
      )
]

pub largest_first-All :
    (P : OwnedOutput → Type 0) (os : List OwnedOutput) → All P os → All P (largest_first os)
unfolding largest_first
largest_first-All P [] h = tt
largest_first-All P (o ∷ os) h = insert-All P o (largest_first os) h.0 (largest_first-All P os h.1)

pub largest_first-IsFalling : (os : List OwnedOutput) → IsFalling (largest_first os)
unfolding largest_first
largest_first-IsFalling [] = tt
largest_first-IsFalling (o ∷ os) =
    insert-IsFalling o (largest_first os) (largest_first-IsFalling os)

insert-filter :
    (p : OwnedOutput → Bool) (o : OwnedOutput) (os : List OwnedOutput)
    → (count p (insert_coin o os) ≡ count p (o ∷ os))
      × (value_of (filter p (insert_coin o os)) ≡ value_of (filter p (o ∷ os)))
unfolding insert_coin
insert-filter p o [] = (refl, refl)
insert-filter p o (q ∷ qs) = ground (arith, insert-filter p o qs)

-- Sorting changes neither how many coins of a kind there are nor what they are worth.
pub largest_first-filter :
    (p : OwnedOutput → Bool) (os : List OwnedOutput)
    → (count p (largest_first os) ≡ count p os)
      × (value_of (filter p (largest_first os)) ≡ value_of (filter p os))
unfolding largest_first
largest_first-filter p [] = (refl, refl)
largest_first-filter p (o ∷ os) =
    ground (arith, insert-filter p o (largest_first os), largest_first-filter p os)

shift :
    (k : ℕ) (o : OwnedOutput) (os : List OwnedOutput)
    → IsFalling (o ∷ os)
    → value_of (take k os) ≤ value_of (take k (o ∷ os))
shift zero o os h = omega arith
shift (suc k) o [] h = omega arith
shift (suc k) o (p ∷ ps) h = omega (arith, h.0.0, shift k p ps h.1)

-- No selection of as many coins is worth more than the first ones.
pub greedy :
    (p : OwnedOutput → Bool) (os : List OwnedOutput)
    → IsFalling os
    → value_of (filter p os) ≤ value_of (take (count p os) os)
greedy p [] h = omega arith
greedy p (o ∷ os) h = elim (Bool-cases (p o)) [
  | inl e ↦ rw e (omega (arith, greedy p os h.1))
  | inr e ↦ rw e (omega (arith, greedy p os h.1, shift (count p os) o os h))
]

pub take-count :
    (p : OwnedOutput → Bool) (k : ℕ) (os : List OwnedOutput) → count p (take k os) ≤ count p os
take-count p zero os = omega arith
take-count p (suc k) [] = omega arith
take-count p (suc k) (o ∷ os) = ground (arith, take-count p k os)

pub take-All :
    (P : OwnedOutput → Type 0) (k : ℕ) (os : List OwnedOutput) → All P os → All P (take k os)
take-All P zero os h = tt
take-All P (suc k) [] h = tt
take-All P (suc k) (o ∷ os) h = (h.0, take-All P k os h.1)

pub take-take : (k m : ℕ) (os : List OwnedOutput) → k ≤ m → take k (take m os) ≡ take k os
take-take zero m os h = refl
take-take (suc k) zero os h = absurd (omega (arith, h))
take-take (suc k) (suc m) [] h = refl
take-take (suc k) (suc m) (o ∷ os) h = ap (λ t. o ∷ t) (take-take k m os (omega (arith, h)))

pub take_all : (k : ℕ) (os : List OwnedOutput) → length os ≤ k → take k os ≡ os
take_all zero [] h = refl
take_all zero (o ∷ os) h = absurd (omega (arith, h))
take_all (suc k) [] h = refl
take_all (suc k) (o ∷ os) h = ap (λ t. o ∷ t) (take_all k os (omega (arith, h)))

pub take_mono :
    (k m : ℕ) (os : List OwnedOutput) → k ≤ m → value_of (take k os) ≤ value_of (take m os)
take_mono zero m os h = omega arith
take_mono (suc k) zero os h = absurd (omega (arith, h))
take_mono (suc k) (suc m) [] h = omega arith
take_mono (suc k) (suc m) (o ∷ os) h = omega (arith, take_mono k m os (omega (arith, h)))

filter_every : (os : List OwnedOutput) → filter (λ o. true) os ≡ os
filter_every [] = refl
filter_every (o ∷ os) = ap (λ t. o ∷ t) (filter_every os)

pub value_of-largest_first : (os : List OwnedOutput) → value_of (largest_first os) ≡ value_of os
value_of-largest_first os =
    let same = (largest_first-filter (λ o. true) os).1 in
    omega
      (arith, same, ap value_of (filter_every os), ap value_of (filter_every (largest_first os)))

pub filter-All :
    (p : OwnedOutput → Bool) (os : List OwnedOutput) → All (λ o. p o ≡ true) (filter p os)
filter-All p [] = tt
filter-All p (o ∷ os) = elim (Bool-cases (p o)) [
  | inl e ↦ rw e (e, filter-All p os)
  | inr e ↦ rw e (filter-All p os)
]

-- A selection worth no less than the first `k` coins fall short of has more than `k`.
pub fewest :
    (p : OwnedOutput → Bool) (k target : ℕ) (os : List OwnedOutput)
    → value_of (take k (largest_first os)) < target
    → target ≤ value_of (filter p os)
    → k < count p os
fewest p k target os short h =
    let (n, v) = largest_first-filter p os in
    let best = greedy p (largest_first os) (largest_first-IsFalling os) in
    elim (Bool-cases (leb (count p os) k)) [
      | inl e ↦ absurd (
          omega (
            arith,
            short,
            h,
            v,
            best,
            take_mono (count p (largest_first os)) k (largest_first os) (ground (arith, n, e)),
          ))
      | inr e ↦ ground (arith, e)
    ]
