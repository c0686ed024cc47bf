-- ===== src/Wallet/Distinct.antt =====
-- Lists of invoices in which no reference comes twice (crates/nightfall-wallet/src/lib.rs).
use nightfall.Common.{
  ℕ, ◌≤◌, ◌≡◌, ◌∙◌, refl, Bool, false, List, [], ◌∷◌, ◌++◌, arith, length, filter, inl, inr,
  Bool-cases,
}
use nightfall.Common.Text.{same_text, same_text_sym, trim}
use nightfall.Tx.{any}
use nightfall.Counter.{Invoice}
use nightfall.Wallet.Till.{bears, close_first}

-- No reference comes twice, and every reference is written without white space around it.
abbrev pub AreDistinct : List Invoice → Type 0
AreDistinct [] = Unit
AreDistinct (i ∷ is) =
    (any (bears i.reference) is ≡ false) × (trim i.reference ≡ i.reference) × AreDistinct is

any-push :
    (r : List ℕ) (is : List Invoice) (i : Invoice)
    → any (bears r) is ≡ false
    → same_text i.reference r ≡ false
    → any (bears r) (is ++ i ∷ []) ≡ false
unfolding any bears
any-push r [] i h d = ground arith
any-push r (j ∷ js) i h d = ground (arith, any-push r js i, h, d)

pub push-AreDistinct :
    (is : List Invoice) (i : Invoice)
    → AreDistinct is
    → any (bears i.reference) is ≡ false
    → trim i.reference ≡ i.reference
    → AreDistinct (is ++ i ∷ [])
unfolding any bears
push-AreDistinct [] i h d t = (refl, t, tt)
push-AreDistinct (j ∷ js) i h d t = (
  any-push j.reference js i h.0 (ground (arith, d, same_text_sym i.reference j.reference)),
  h.1,
  push-AreDistinct js i h.2 (ground (arith, d)) t,
)

any-close :
    (r reference note : List ℕ) (is : List Invoice)
    → any (bears r) (close_first reference note is) ≡ any (bears r) is
unfolding any bears close_first
any-close r reference note [] = refl
any-close r reference note (i ∷ is) = ground (arith, any-close r reference note is)

pub close-AreDistinct :
    (reference note : List ℕ) (is : List Invoice)
    → AreDistinct is
    → AreDistinct (close_first reference note is)
unfolding any close_first bears
close-AreDistinct reference note [] h = tt
close-AreDistinct reference note (i ∷ is) h = elim (Bool-cases (bears reference i)) [
  | inl e ↦ rw e h
  | inr e ↦
      rw e (
        any-close i.reference reference note is ∙ h.0,
        h.1,
        close-AreDistinct reference note is h.2,
      )
]

pub length-close :
    (reference note : List ℕ) (is : List Invoice)
    → length (close_first reference note is) ≡ length is
unfolding close_first
length-close reference note [] = refl
length-close reference note (i ∷ is) = ground (arith, length-close reference note is)

any-filter :
    (r : List ℕ) (p : Invoice → Bool) (is : List Invoice)
    → any (bears r) is ≡ false
    → any (bears r) (filter p is) ≡ false
unfolding any
any-filter r p [] h = h
any-filter r p (i ∷ is) h = ground (arith, any-filter r p is, h)

pub filter-AreDistinct :
    (p : Invoice → Bool) (is : List Invoice) → AreDistinct is → AreDistinct (filter p is)
filter-AreDistinct p [] h = tt
filter-AreDistinct p (i ∷ is) h = elim (Bool-cases (p i)) [
  | inl e ↦ rw e (any-filter i.reference p is h.0, h.1, filter-AreDistinct p is h.2)
  | inr e ↦ rw e (filter-AreDistinct p is h.2)
]

pub length-filter : (p : Invoice → Bool) (is : List Invoice) → length (filter p is) ≤ length is
length-filter p [] = omega arith
length-filter p (i ∷ is) = ground (arith, length-filter p is)
