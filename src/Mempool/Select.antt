-- ===== src/Mempool/Select.antt =====
-- The transactions that a block is offered (crates/nightfall-consensus/src/lib.rs,
-- `select_for_block`).
use nightfall.Common.{
  ℕ, zero, suc, ◌+◌, ◌≤◌, ◌≡◌, ◌∙◌, ap, sym, refl, true, false, ◌||◌, List, [], ◌∷◌, ◌++◌, length,
  arith, leb, inl, inr, ◌⊎◌, Bool-cases, All, if◌then◌else◌, length-append,
}
use nightfall.Crypto.Commit.{Commitment}
use nightfall.Tx.{Transaction}
use nightfall.Mempool.{fee_of, holds, input_set, touches, choose}

-- What is chosen from here on, with room for `n` more.
unfoldable pub pick : List Transaction → ℕ → List Commitment → List Transaction
pick [] n spent = []
pick (tx ∷ candidates) zero spent = []
pick (tx ∷ candidates) (suc n) spent =
    let skip = touches spent (input_set tx.inputs) in
    let rest =
      pick candidates (if skip then suc n else n)
        (if skip then spent else spent ++ input_set tx.inputs) in
    if skip then rest else tx ∷ rest

append_assoc : {A : Type 0} (xs ys zs : List A) → (xs ++ ys) ++ zs ≡ xs ++ (ys ++ zs)
append_assoc [] ys zs = refl
append_assoc (x ∷ xs) ys zs = ap (λ t. x ∷ t) (append_assoc xs ys zs)

append_nil : {A : Type 0} (xs : List A) → xs ++ [] ≡ xs
append_nil [] = refl
append_nil (x ∷ xs) = ap (λ t. x ∷ t) (append_nil xs)

pub choose-pick :
    (candidates : List Transaction) (max n : ℕ) (chosen : List Transaction)
    (spent : List Commitment)
    → length chosen + n ≡ max
    → choose candidates max chosen spent ≡ chosen ++ pick candidates n spent
unfolding choose pick
choose-pick [] max n chosen spent h = sym (append_nil chosen)
choose-pick (tx ∷ candidates) max zero chosen spent h = rw (append_nil chosen) (ground (arith, h))
choose-pick (tx ∷ candidates) max (suc n) chosen spent h =
    let room : leb max (length chosen) ≡ false = ground (arith, h) in
    elim (Bool-cases (touches spent (input_set tx.inputs))) [
      | inl t ↦ rw (room, t) (choose-pick candidates max (suc n) chosen spent h)
      | inr e ↦
          rw (room, e)
            (choose-pick candidates max n (chosen ++ tx ∷ []) (spent ++ input_set tx.inputs)
                (omega (arith, length-append chosen (tx ∷ []), h))
              ∙ append_assoc chosen (tx ∷ []) _)
    ]

-- The inputs that a list of transactions spends.
unfoldable pub spent_by : List Transaction → List Commitment
spent_by [] = []
spent_by (tx ∷ txs) = input_set tx.inputs ++ spent_by txs

-- No transaction spends what one before it spends, nor anything of a given set.
abbrev pub Free : List Commitment → List Transaction → Type 0
Free spent [] = Unit
Free spent (tx ∷ txs) =
    (touches spent (input_set tx.inputs) ≡ false) × Free (spent ++ input_set tx.inputs) txs

pub pick-Free :
    (candidates : List Transaction) (n : ℕ) (spent : List Commitment)
    → Free spent (pick candidates n spent)
unfolding pick
pick-Free [] n spent = tt
pick-Free (tx ∷ candidates) zero spent = tt
pick-Free (tx ∷ candidates) (suc n) spent =
    elim (Bool-cases (touches spent (input_set tx.inputs))) [
      | inl t ↦ rw t (pick-Free candidates (suc n) spent)
      | inr e ↦ rw e (e, pick-Free candidates n (spent ++ input_set tx.inputs))
    ]

pub length-pick :
    (candidates : List Transaction) (n : ℕ) (spent : List Commitment)
    → length (pick candidates n spent) ≤ n
unfolding pick
length-pick [] n spent = omega arith
length-pick (tx ∷ candidates) zero spent = omega arith
length-pick (tx ∷ candidates) (suc n) spent =
    elim (Bool-cases (touches spent (input_set tx.inputs))) [
      | inl t ↦ rw t (length-pick candidates (suc n) spent)
      | inr e ↦ rw e (omega (arith, length-pick candidates n (spent ++ input_set tx.inputs)))
    ]

-- One of a list.
abbrev pub Among : Transaction → List Transaction → Type 0
Among t [] = ⊥
Among t (x ∷ xs) = (t ≡ x) ⊎ Among t xs

pub pick-Among :
    (candidates : List Transaction) (n : ℕ) (spent : List Commitment) (t : Transaction)
    → Among t (pick candidates n spent)
    → Among t candidates
unfolding pick
pick-Among [] n spent t m = m
pick-Among (tx ∷ candidates) zero spent t m = absurd m
pick-Among (tx ∷ candidates) (suc n) spent t m =
    elim (Bool-cases (touches spent (input_set tx.inputs))) [
      | inl e ↦ inr (pick-Among candidates (suc n) spent t (rw e at m))
      | inr e ↦ elim (rw e at m) [
        | inl q ↦ inl q
        | inr l ↦ inr (pick-Among candidates n (spent ++ input_set tx.inputs) t l)
      ]
    ]

holds-append :
    (xs ys : List Commitment) (k : Commitment) → holds (xs ++ ys) k ≡ (holds xs k || holds ys k)
unfolding holds
holds-append [] ys k = refl
holds-append (x ∷ xs) ys k = ground (arith, holds-append xs ys k)

touches_more : (xs ys ks : List Commitment) → touches xs ks ≡ true → touches (xs ++ ys) ks ≡ true
unfolding touches
touches_more xs ys [] h = absurd (ground arith)
touches_more xs ys (k ∷ ks) h = ground (arith, holds-append xs ys k, touches_more xs ys ks)

-- What a candidate that was not chosen has against it.
pub pick_all :
    (candidates : List Transaction) (n : ℕ) (spent : List Commitment) (t : Transaction)
    → Among t candidates
    → Among t (pick candidates n spent)
      ⊎ ((length (pick candidates n spent) ≡ n)
          ⊎ (touches (spent ++ spent_by (pick candidates n spent)) (input_set t.inputs) ≡ true))
unfolding pick spent_by
pick_all [] n spent t m = absurd m
pick_all (tx ∷ candidates) zero spent t m = inr (inl refl)
pick_all (tx ∷ candidates) (suc n) spent t m =
    elim (Bool-cases (touches spent (input_set tx.inputs))) [
      | inl e ↦ rw e (elim m [
        | inl q ↦ inr (inr (touches_more spent _ (input_set t.inputs) (rw q e)))
        | inr l ↦ pick_all candidates (suc n) spent t l
      ])
      | inr e ↦ rw e (elim m [
        | inl q ↦ inl (inl q)
        | inr l ↦ elim (pick_all candidates n (spent ++ input_set tx.inputs) t l) [
          | inl found ↦ inl (inr found)
          | inr (inl size) ↦ inr (inl (ap suc size))
          | inr (inr hit) ↦ inr (
              inr (
                ap (λ set. touches set (input_set t.inputs))
                  (sym (append_assoc spent (input_set tx.inputs) _))
                ∙ hit))
        ]
      ])
    ]

-- The fees fall along a list.
abbrev pub Falling : List Transaction → Type 0
Falling [] = Unit
Falling (a ∷ txs) = All (λ b. fee_of b ≤ fee_of a) txs × Falling txs

All-pick :
    (a : Transaction) (candidates : List Transaction) (n : ℕ) (spent : List Commitment)
    → All (λ b. fee_of b ≤ fee_of a) candidates
    → All (λ b. fee_of b ≤ fee_of a) (pick candidates n spent)
unfolding pick
All-pick a [] n spent h = tt
All-pick a (tx ∷ candidates) zero spent h = tt
All-pick a (tx ∷ candidates) (suc n) spent h =
    elim (Bool-cases (touches spent (input_set tx.inputs))) [
      | inl e ↦ rw e (All-pick a candidates (suc n) spent h.1)
      | inr e ↦ rw e (h.0, All-pick a candidates n (spent ++ input_set tx.inputs) h.1)
    ]

pub pick-Falling :
    (candidates : List Transaction) (n : ℕ) (spent : List Commitment)
    → Falling candidates
    → Falling (pick candidates n spent)
unfolding pick
pick-Falling [] n spent h = tt
pick-Falling (tx ∷ candidates) zero spent h = tt
pick-Falling (tx ∷ candidates) (suc n) spent h =
    elim (Bool-cases (touches spent (input_set tx.inputs))) [
      | inl e ↦ rw e (pick-Falling candidates (suc n) spent h.1)
      | inr e ↦ rw e (
        All-pick tx candidates n (spent ++ input_set tx.inputs) h.0,
        pick-Falling candidates n (spent ++ input_set tx.inputs) h.1,
      )
    ]

pub All-more :
    (a b : Transaction) (txs : List Transaction)
    → fee_of a ≤ fee_of b
    → All (λ t. fee_of t ≤ fee_of a) txs
    → All (λ t. fee_of t ≤ fee_of b) txs
All-more a b [] l h = tt
All-more a b (x ∷ txs) l h = (omega (arith, l, h.0), All-more a b txs l h.1)
