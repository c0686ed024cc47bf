-- ===== src/AmountInput/Exact.antt =====
-- A typed amount is read exactly (crates/nightfall-wallet/src/amount_input.rs).
use nightfall.Common.{
  ℕ, zero, suc, ◌+◌, ◌-◌, ◌*◌, ◌^◌, ◌≤◌, ◌<◌, ◌≡◌, ◌↔◌, ◌⊎◌, ap, sym, refl, true, false, some, List,
  [], ◌∷◌, ◌++◌, arith, length, inl, inr, Bool-cases, Option-cases, ◌==◌, ==_iff, ◌∙◌,
}
use native.Mathlib.Numerals.{unary_clauses}
use nightfall.Common.Result.{ok}
use nightfall.Common.Digits.{all_digits, is_digit, number, read_u64}
use nightfall.AmountInput.{
  normalised, split_point, has_point, starts_with, is_empty, pad, whole_night, in_darks, of_parts,
  parse_night,
}

-- The amount that digits before and after a point stand for, in darks.
abbrev pub value : List ℕ → List ℕ → ℕ
value whole frac = number 0 whole * 10 ^ 8 + number 0 frac * 10 ^ (8 - length frac)

number-pad :
    (n : ℕ) (ds : List ℕ) (acc : ℕ)
    → length ds ≤ n
    → number acc (pad n ds) ≡ number acc ds * 10 ^ (n - length ds)
unfolding number pad
number-pad zero [] acc h = omega arith
number-pad zero (d ∷ ds) acc h = absurd (omega (arith, h))
number-pad (suc n) [] acc h =
    rw (number-pad n [] (acc * 10 + 0) (omega arith)) (simp unary_clauses (omega arith))
number-pad (suc n) (d ∷ ds) acc h =
    simp unary_clauses (number-pad n ds (acc * 10 + (d - 48)) (omega (arith, h)))

-- What `parse_night` requires of the parts.
abbrev pub AreParts : List ℕ → List ℕ → ℕ → Type 0
AreParts whole frac darks =
    (all_digits whole ≡ true)
    × (all_digits frac ≡ true)
    × (0 < length whole + length frac)
    × (length frac ≤ 8)
    × (darks ≡ value whole frac)
    × (0 < darks)
    × (darks ≤ 9_000_000_000_000_000)

no_point : (ds : List ℕ) → all_digits ds ≡ true → has_point ds ≡ false
unfolding all_digits is_digit has_point
no_point [] h = refl
no_point (d ∷ ds) h = ground (arith, h, no_point ds)

whole_number :
    (whole : List ℕ) → number 0 whole < 2 ^ 64 → whole_night whole ≡ some (number 0 whole)
unfolding whole_night read_u64 number
whole_number [] h = refl
whole_number (d ∷ ds) h = ground (arith, h)

whole_number_large : (whole : List ℕ) (n : ℕ) → whole_night whole ≡ some n → n ≡ number 0 whole
unfolding whole_night read_u64 number
whole_number_large [] n h = ground (arith, h)
whole_number_large (d ∷ ds) n h = ground (arith, h)

empty_iff : (ds : List ℕ) → is_empty ds ≡ (length ds == 0)
unfolding is_empty
empty_iff [] = refl
empty_iff (d ∷ ds) = ground arith

short_frac : (whole frac : List ℕ) (darks : ℕ) → of_parts whole frac ≡ ok darks → length frac ≤ 8
unfolding of_parts
short_frac whole frac darks h = ground (arith, h)

night_of :
    (whole frac : List ℕ) (darks : ℕ)
    → of_parts whole frac ≡ ok darks
    → (n : ℕ) × (whole_night whole ≡ some n)
unfolding of_parts
night_of whole frac darks h = elim (Option-cases (whole_night whole)) [
  | inl e ↦ absurd (ground (arith, h, e))
  | inr (n, e) ↦ (n, e)
]

of_parts_iff :
    (whole frac : List ℕ) (darks : ℕ) → (of_parts whole frac ≡ ok darks) ↔ AreParts whole frac darks
unfolding of_parts in_darks
of_parts_iff whole frac darks = (
  λ h.
      let (n, e) = night_of whole frac darks h in
      ground (
        arith,
        h,
        e,
        whole_number_large whole n e,
        empty_iff whole,
        empty_iff frac,
        number-pad 8 frac 0 (short_frac whole frac darks h),
      ),
  λ h. ground (
    arith,
    h,
    no_point frac h.1,
    whole_number whole (omega (arith, h.4, h.6)),
    empty_iff whole,
    empty_iff frac,
    number-pad 8 frac 0 h.3,
  ),
)

-- The parts stand around a point, or there is no point and nothing behind it.
abbrev pub AreWritten : List ℕ → List ℕ → List ℕ → Type 0
AreWritten ds whole frac = (ds ≡ whole ++ b'.' ∷ frac) ⊎ ((ds ≡ whole) × (frac ≡ []))

split-AreWritten : (ds : List ℕ) → AreWritten ds (split_point ds).0 (split_point ds).1
unfolding split_point
split-AreWritten [] = inr (refl, refl)
split-AreWritten (d ∷ ds) = elim (Bool-cases (d == b'.')) [
  | inl e ↦ rw e (inl (ap (λ t. t ∷ ds) ((==_iff d b'.').0 e)))
  | inr e ↦ rw e (elim (split-AreWritten ds) [
    | inl w ↦ inl (ap (λ t. d ∷ t) w)
    | inr (w, f) ↦ inr (ap (λ t. d ∷ t) w, f)
  ])
]

split_at :
    (whole frac : List ℕ)
    → all_digits whole ≡ true
    → split_point (whole ++ b'.' ∷ frac) ≡ (whole, frac)
unfolding split_point all_digits is_digit
split_at [] frac h = refl
split_at (d ∷ ds) frac h = ground (arith, h, split_at ds frac)

split_none : (whole : List ℕ) → all_digits whole ≡ true → split_point whole ≡ (whole, [])
unfolding split_point all_digits is_digit
split_none [] h = refl
split_none (d ∷ ds) h = ground (arith, h, split_none ds)

split_written :
    (ds whole frac : List ℕ)
    → all_digits whole ≡ true
    → AreWritten ds whole frac
    → split_point ds ≡ (whole, frac)
split_written ds whole frac h (inl w) = ap split_point w ∙ split_at whole frac h
split_written ds whole frac h (inr (w, f)) =
    ap split_point w ∙ split_none whole h ∙ ap (λ t. (whole, t)) (sym f)

-- No sign stands first, and something does.
IsPlain : List ℕ → Type 0
IsPlain ds = (is_empty ds ≡ false) × (starts_with b'-' ds ≡ false) × (starts_with b'+' ds ≡ false)

written-IsPlain :
    (whole frac ds : List ℕ)
    → all_digits whole ≡ true
    → 0 < length whole + length frac
    → AreWritten ds whole frac
    → IsPlain ds
unfolding IsPlain is_empty starts_with all_digits is_digit
written-IsPlain [] frac ds h n (inl w) = rw w (refl, refl, refl)
written-IsPlain (d ∷ whole) frac ds h n (inl w) = rw w (ground (arith, h))
written-IsPlain [] frac ds h n (inr (w, f)) = absurd (omega (arith, n, ap length f))
written-IsPlain (d ∷ whole) frac ds h n (inr (w, f)) = rw w (ground (arith, h))

-- A typed amount is accepted as so many darks exactly when, white space around it trimmed and
-- commas read as points, it is digits with at most one point and at most eight digits behind it, it
-- stands for that many darks to the last place, and they are more than none and at most the supply.
pub parse_night_iff :
    (text : List ℕ) (darks : ℕ)
    → (parse_night text ≡ ok darks) ↔ (
        (whole : List ℕ) × (frac : List ℕ) × AreWritten (normalised text) whole frac
        × AreParts whole frac darks)
unfolding parse_night IsPlain
parse_night_iff text darks =
    let ds = normalised text in
    let parts = split_point ds in
    (
      λ h. (
        parts.0,
        parts.1,
        split-AreWritten ds,
        (of_parts_iff parts.0 parts.1 darks).0 (ground (arith, h)),
      ),
      λ (whole, frac, w, p).
          let (e, m, q) = written-IsPlain whole frac ds p.0 p.2 w in
          rw (e, m, q)
            (ap (λ t. of_parts t.0 t.1) (split_written ds whole frac p.0 w)
              ∙ (of_parts_iff whole frac darks).1 p),
    )
