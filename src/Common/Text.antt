-- ===== src/Common/Text.antt =====
-- Byte strings written as text: the code points, which are the bytes of an ASCII literal.
use Prim.Native.Char.{code}
use Prim.Native.String.{String}
use Prim.Native.Nat.{ℕ}
use mathlib.Core.Path.{◌≡◌, refl, ap, subst}
use mathlib.Core.Logic.{◌↔◌, inl, inr}
use mathlib.Core.Bool.{Bool, true, false, ◌&&◌, ◌||◌}
use mathlib.Core.List.{List, [], ◌∷◌}
use native.Mathlib.Omega.{arith}
use nightfall.Common.Tests.{◌==◌, leb, if◌then◌else◌, Bool-cases}

abbrev pub codes : String → List ℕ
codes String.[] = []
codes (String.◌∷◌ letter text) = code letter ∷ codes text

-- `==` of strings.
unfoldable pub same_text : List ℕ → List ℕ → Bool
same_text [] [] = true
same_text [] (b ∷ bs) = false
same_text (a ∷ as_) [] = false
same_text (a ∷ as_) (b ∷ bs) = a == b && same_text as_ bs

pub same_text_refl : (a : List ℕ) → same_text a a ≡ true
unfolding same_text
same_text_refl [] = refl
same_text_refl (a ∷ as_) = ground (arith, same_text_refl as_)

pub same_text_eq : (a b : List ℕ) → same_text a b ≡ true → a ≡ b
unfolding same_text
same_text_eq [] [] h = refl
same_text_eq [] (b ∷ bs) h = absurd (ground arith)
same_text_eq (a ∷ as_) [] h = absurd (ground arith)
same_text_eq (a ∷ as_) (b ∷ bs) h = ground (arith, same_text_eq as_ bs)

-- `char::is_whitespace`: the Unicode property White_Space.
unfoldable pub is_whitespace : ℕ → Bool
is_whitespace ch =
    leb 9 ch && leb ch 13
    || ch == 0x20
    || ch == 0x85
    || ch == 0xA0
    || ch == 0x1680
    || leb 0x2000 ch && leb ch 0x200A
    || ch == 0x2028
    || ch == 0x2029
    || ch == 0x202F
    || ch == 0x205F
    || ch == 0x3000

unfoldable pub trim_start : List ℕ → List ℕ
trim_start [] = []
trim_start (ch ∷ rest) =
    let inner = trim_start rest in if is_whitespace ch then inner else ch ∷ rest

or_blank : ℕ → List ℕ → List ℕ
or_blank ch [] = if is_whitespace ch then [] else ch ∷ []
or_blank ch (other ∷ rest) = ch ∷ other ∷ rest

unfoldable pub trim_end : List ℕ → List ℕ
unfolding or_blank
trim_end [] = []
trim_end (ch ∷ rest) = or_blank ch (trim_end rest)

-- `str::trim`.
unfoldable pub trim : List ℕ → List ℕ
trim text = trim_end (trim_start text)

pub same_text_iff : (a b : List ℕ) → (same_text a b ≡ true) ↔ (a ≡ b)
same_text_iff a b = (same_text_eq a b, λ h. subst (λ t. same_text a t ≡ true) h (same_text_refl a))

pub same_text_sym : (a b : List ℕ) → same_text a b ≡ same_text b a
unfolding same_text
same_text_sym [] [] = refl
same_text_sym [] (b ∷ bs) = refl
same_text_sym (a ∷ as_) [] = refl
same_text_sym (a ∷ as_) (b ∷ bs) = ground (arith, same_text_sym as_ bs)

or_blank-trim_end :
    (ch : ℕ) (text : List ℕ) → trim_end text ≡ text → trim_end (or_blank ch text) ≡ or_blank ch text
unfolding trim_end or_blank
or_blank-trim_end ch [] h = ground arith
or_blank-trim_end ch (other ∷ rest) h = ap (or_blank ch) h

trim_end_twice : (text : List ℕ) → trim_end (trim_end text) ≡ trim_end text
unfolding trim_end
trim_end_twice [] = refl
trim_end_twice (ch ∷ rest) = or_blank-trim_end ch (trim_end rest) (trim_end_twice rest)

-- The text does not begin with white space.
IsFirm : List ℕ → Type 0
IsFirm [] = Unit
IsFirm (ch ∷ rest) = is_whitespace ch ≡ false

trim_start-IsFirm : (text : List ℕ) → IsFirm (trim_start text)
unfolding IsFirm trim_start
trim_start-IsFirm [] = tt
trim_start-IsFirm (ch ∷ rest) = elim (Bool-cases (is_whitespace ch)) [
  | inl e ↦ rw e (trim_start-IsFirm rest)
  | inr e ↦ rw e e
]

or_blank-IsFirm : (ch : ℕ) (text : List ℕ) → is_whitespace ch ≡ false → IsFirm (or_blank ch text)
unfolding IsFirm or_blank
or_blank-IsFirm ch [] h = rw h h
or_blank-IsFirm ch (other ∷ rest) h = h

trim_end-IsFirm : (text : List ℕ) → IsFirm text → IsFirm (trim_end text)
unfolding IsFirm trim_end
trim_end-IsFirm [] h = tt
trim_end-IsFirm (ch ∷ rest) h = or_blank-IsFirm ch (trim_end rest) h

trim_start_firm : (text : List ℕ) → IsFirm text → trim_start text ≡ text
unfolding IsFirm trim_start
trim_start_firm [] h = refl
trim_start_firm (ch ∷ rest) h = rw h refl

pub trim_twice : (text : List ℕ) → trim (trim text) ≡ trim text
unfolding trim
trim_twice text =
    rw
      (trim_start_firm (trim_end (trim_start text))
        (trim_end-IsFirm (trim_start text) (trim_start-IsFirm text)))
      (trim_end_twice (trim_start text))

-- Text without white space anywhere is left alone by `trim`.
abbrev pub has_space : List ℕ → Bool
has_space [] = false
has_space (ch ∷ rest) = is_whitespace ch || has_space rest

trim_start_solid : (text : List ℕ) → has_space text ≡ false → trim_start text ≡ text
unfolding trim_start
trim_start_solid [] h = refl
trim_start_solid (ch ∷ rest) h = ground (arith, h)

or_blank_solid : (ch : ℕ) (rest : List ℕ) → is_whitespace ch ≡ false → or_blank ch rest ≡ ch ∷ rest
unfolding or_blank
or_blank_solid ch [] h = rw h refl
or_blank_solid ch (other ∷ rest) h = refl

trim_end_solid : (text : List ℕ) → has_space text ≡ false → trim_end text ≡ text
unfolding trim_end
trim_end_solid [] h = refl
trim_end_solid (ch ∷ rest) h =
    rw (trim_end_solid rest (ground (arith, h))) (or_blank_solid ch rest (ground (arith, h)))

pub trim_solid : (text : List ℕ) → has_space text ≡ false → trim text ≡ text
unfolding trim
trim_solid text h = rw (trim_start_solid text h) (trim_end_solid text h)
