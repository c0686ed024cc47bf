-- ===== src/PaymentRequest/Spelling.antt =====
-- A number has one spelling (crates/nightfall-wallet/src/payment_request.rs).
use nightfall.Common.{
  ℕ, zero, suc, ◌+◌, ◌-◌, ◌*◌, ◌/◌, ◌%◌, ◌^◌, ◌<◌, ◌≡◌, ◌↔◌, ◌∙◌, ap, sym, refl, true, false, some,
  List, [], ◌∷◌, ◌++◌, arith, inl, inr, Bool-cases, ◌==◌, ltb, length, length-append, lt→ltb, subst,
  ==_iff,
}
use native.Mathlib.Numerals.{unary_clauses}
use mathlib.Core.List.{append_assoc, append-nil}
use nightfall.Common.Digits.{
  all_digits, is_digit, number, read_u64, show, show_fuel, show_fuel-digits, number-show_fuel,
}
use nightfall.PaymentRequest.{parse_u64, starts_with_zero}

scaled : (a x y p n : ℕ) → x + y ≡ 9 → n < (a * 10 + x + 1) * p → n < (a + 1) * (p * 10)
scaled a x y p n e h =
    let whole : (a + 1) * 10 ≡ (a * 10 + x + 1) + y = omega (arith, e) in
    omega (arith, h, ap (λ (t : ℕ). t * p) whole)

number-below :
    (ds : List ℕ) (acc : ℕ) → all_digits ds ≡ true → number acc ds < (acc + 1) * 10 ^ length ds
unfolding number all_digits is_digit
number-below [] acc h = omega arith
number-below (d ∷ ds) acc h =
    let rest = number-below ds (acc * 10 + (d - 48)) (ground (arith, h)) in
    let small : (d - 48) + (57 - d) ≡ 9 = ground (arith, h) in
    simp unary_clauses (
      omega (
        arith,
        scaled acc (d - 48) (57 - d) (10 ^ length ds) (number (acc * 10 + (d - 48)) ds) small rest,
      ))

show_step :
    (acc d fuel : ℕ)
    → 0 < acc
    → is_digit d ≡ true
    → show_fuel (suc fuel) (acc * 10 + (d - 48)) ≡ show_fuel fuel acc ++ d ∷ []
unfolding show_fuel is_digit
show_step acc d fuel p h =
    let long : ltb (acc * 10 + (d - 48)) 10 ≡ false = ground (arith, p) in
    let above : (acc * 10 + (d - 48)) / 10 ≡ acc = ground (arith, h) in
    let last : 48 + (acc * 10 + (d - 48)) % 10 ≡ d = ground (arith, h) in
    rw long (rw above (rw last refl))

later : (a f : ℕ) → suc a + f ≡ a + suc f
later a f = omega arith

at_once : (f : ℕ) → 0 + f ≡ f
at_once f = omega arith

-- Printing what the digits spell gives the digits behind the number before them.
show_number :
    (ds : List ℕ) (acc fuel : ℕ)
    → 0 < acc
    → all_digits ds ≡ true
    → show_fuel (length ds + fuel) (number acc ds) ≡ show_fuel fuel acc ++ ds
unfolding number all_digits is_digit
show_number [] acc fuel p h =
    ap (λ t. show_fuel t acc) (at_once fuel) ∙ sym (append-nil (show_fuel fuel acc))
show_number (d ∷ ds) acc fuel p h =
    let next = acc * 10 + (d - 48) in
    let ih = show_number ds next (suc fuel) (omega (arith, p)) (ground (arith, h)) in
    ap (λ t. show_fuel t (number next ds)) (later (length ds) fuel)
    ∙ ih
    ∙ ap (λ t. t ++ ds) (show_step acc d fuel p (ground (arith, h)))
    ∙ append_assoc (show_fuel fuel acc) (d ∷ []) ds

one_digit : (f g n : ℕ) → n < 10 → show_fuel (suc f) n ≡ show_fuel (suc g) n
unfolding show_fuel
one_digit f g n h = rw (lt→ltb n 10 h) refl

-- Enough fuel is as good as any.
show_enough :
    (f g n : ℕ) → n < 10 ^ suc f → n < 10 ^ suc g → show_fuel (suc f) n ≡ show_fuel (suc g) n
unfolding show_fuel
show_enough zero g n h k = one_digit 0 g n (omega (arith, h))
show_enough (suc f) zero n h k = one_digit (suc f) 0 n (omega (arith, k))
show_enough (suc f) (suc g) n h k = elim (Bool-cases (ltb n 10)) [
  | inl e ↦ rw e refl
  | inr e ↦
      let more =
        show_enough f g (n / 10) (omega (arith, simp unary_clauses at h))
          (omega (arith, simp unary_clauses at k)) in
      rw e (ap (λ t. t ++ (48 + n % 10) ∷ []) more)
]

one_more : (a : ℕ) → suc a ≡ a + 1
one_more a = omega arith

first_digit : (d : ℕ) → is_digit d ≡ true → show_fuel 1 (0 * 10 + (d - 48)) ≡ d ∷ []
unfolding show_fuel is_digit
first_digit d h =
    let short : ltb (0 * 10 + (d - 48)) 10 ≡ true = ground (arith, h) in
    let same : 48 + (0 * 10 + (d - 48)) % 10 ≡ d = ground (arith, h) in rw short (rw same refl)

plain_spelling :
    (d : ℕ) (ds : List ℕ)
    → all_digits (d ∷ ds) ≡ true
    → (d == b'0') ≡ false
    → number 0 (d ∷ ds) < 2 ^ 64
    → d ∷ ds ≡ show (number 0 (d ∷ ds))
unfolding all_digits is_digit number show
plain_spelling d ds h n w =
    let acc = 0 * 10 + (d - 48) in
    let long = show_number ds acc 1 (ground (arith, h, n)) (ground (arith, h)) in
    let n_ = number acc ds in
    let bound = number-below (d ∷ ds) 0 h in
    let enough = show_enough 19 (length ds) n_ (omega (arith, w)) (omega (arith, bound)) in
    sym (
      enough
      ∙ ap (λ t. show_fuel t n_) (one_more (length ds))
      ∙ long
      ∙ ap (λ t. t ++ ds) (first_digit d (ground (arith, h))))

shown_some : (fuel n : ℕ) → 0 < length (show_fuel (suc fuel) n)
unfolding show_fuel
shown_some fuel n = elim (Bool-cases (ltb n 10)) [
  | inl e ↦ rw e (omega arith)
  | inr e ↦ rw e (omega (arith, length-append (show_fuel fuel (n / 10)) ((48 + n % 10) ∷ [])))
]

starts-append :
    (xs ys : List ℕ)
    → 0 < length xs
    → starts_with_zero xs ≡ false
    → starts_with_zero (xs ++ ys) ≡ false
unfolding starts_with_zero
starts-append [] ys l h = absurd (omega (arith, l))
starts-append (x ∷ xs) ys l h = h

shown_first : (fuel n : ℕ) → 0 < n → n < 10 ^ fuel → starts_with_zero (show_fuel fuel n) ≡ false
unfolding show_fuel starts_with_zero
shown_first zero n p h = absurd (omega (arith, p, h))
shown_first (suc zero) n p h =
    let short : ltb n 10 ≡ true = lt→ltb n 10 (omega (arith, h)) in rw short (ground (arith, p, h))
shown_first (suc (suc fuel)) n p h = elim (Bool-cases (ltb n 10)) [
  | inl e ↦ rw e (ground (arith, p, e))
  | inr e ↦
      let first =
        shown_first (suc fuel) (n / 10) (ground (arith, e))
          (omega (arith, simp unary_clauses at h)) in
      rw e (
        starts-append (show_fuel (suc fuel) (n / 10)) ((48 + n % 10) ∷ [])
          (shown_some fuel (n / 10)) first)
]

read_number : (ds : List ℕ) (n : ℕ) → read_u64 ds ≡ some n → (n ≡ number 0 ds) × (n < 2 ^ 64)
unfolding read_u64
read_number ds n h = ground (arith, h)

shown_of : (text : List ℕ) (n : ℕ) → parse_u64 text ≡ some n → (text ≡ show n) × (n < 2 ^ 64)
unfolding parse_u64 starts_with_zero number show show_fuel
shown_of [] n h = absurd (ground (arith, h))
shown_of (d ∷ []) n h = elim (Bool-cases (d == b'0')) [
  | inl e ↦
      let (same, small) = read_number (d ∷ []) n (ground (arith, h)) in
      let at : d ≡ 48 = (==_iff d 48).0 e in
      let none_ : 0 ≡ n = ground (arith, same, at) in (ap (λ t. t ∷ []) at ∙ ap show none_, small)
  | inr e ↦
      let (same, small) = read_number (d ∷ []) n (ground (arith, h)) in
      (
        plain_spelling d [] (ground (arith, h)) e (omega (arith, same, small)) ∙ ap show (sym same),
        small,
      )
]
shown_of (d ∷ c ∷ ds) n h =
    let (same, small) = read_number (d ∷ c ∷ ds) n (ground (arith, h)) in
    (
      plain_spelling d (c ∷ ds) (ground (arith, h)) (ground (arith, h)) (omega (arith, same, small))
          ∙ ap show (sym same),
      small,
    )

zero_shown : parse_u64 (show 0) ≡ some 0
unfolding parse_u64 show read_u64 show_fuel number all_digits is_digit starts_with_zero
zero_shown = refl

of_shown : (n : ℕ) → n < 2 ^ 64 → parse_u64 (show n) ≡ some n
unfolding parse_u64 show read_u64
of_shown n w = elim (Bool-cases (n == 0)) [
  | inl e ↦ subst (λ t. parse_u64 (show t) ≡ some t) (sym ((==_iff n 0).0 e)) zero_shown
  | inr e ↦ ground (
    arith,
    w,
    shown_some 19 n,
    show_fuel-digits 20 n,
    number-show_fuel 20 n (omega (arith, w)),
    shown_first 20 n (ground (arith, e)) (omega (arith, w)),
  )
]

-- A text is read as a number exactly when it is how that number is printed, and the number fits 64
-- bits: no sign, no leading zero, no other spelling.
pub parse_u64_iff :
    (text : List ℕ) (n : ℕ) → (parse_u64 text ≡ some n) ↔ (text ≡ show n) × (n < 2 ^ 64)
parse_u64_iff text n = (shown_of text n, λ (same, small). ap parse_u64 same ∙ of_shown n small)
