-- ===== src/Crypto/Group.antt =====
-- Differences of points and the laws of their group.
use nightfall.Common.{◌≡◌, sym, ap, ◌∙◌}
use nightfall.Crypto.{Primitives}

module _ (c : Primitives) where
  open c use {Point, identity, add, neg, add_assoc, add_comm, add_identity, add_neg}

  -- `p - q`.
  unfoldable pub minus : Point → Point → Point
  minus p q = add p (neg q)

  pub add_left_comm : (p q r : Point) → add p (add q r) ≡ add q (add p r)
  add_left_comm p q r = sym (add_assoc p q r) ∙ ap (λ t. add t r) (add_comm p q) ∙ add_assoc q p r

  pub identity_add : (p : Point) → add identity p ≡ p
  identity_add p = add_comm identity p ∙ add_identity p

  pub add-minus : (p q : Point) → minus (add p q) q ≡ p
  unfolding minus
  add-minus p q = add_assoc p q (neg q) ∙ ap (add p) (add_neg q) ∙ add_identity p

  pub minus-add : (p q : Point) → add (minus p q) q ≡ p
  unfolding minus
  minus-add p q =
      add_assoc p (neg q) q ∙ ap (add p) (add_comm (neg q) q ∙ add_neg q) ∙ add_identity p

  pub add_cancel : (p q r : Point) → add p r ≡ add q r → p ≡ q
  add_cancel p q r e = sym (add-minus p r) ∙ ap (λ t. minus t r) e ∙ add-minus q r

  -- `p - q = r` says `p = r + q`.
  pub minus_eq : (p q r : Point) → p ≡ add r q → minus p q ≡ r
  minus_eq p q r e = ap (λ t. minus t q) e ∙ add-minus r q

  pub eq_of_minus : (p q r : Point) → minus p q ≡ r → p ≡ add r q
  eq_of_minus p q r e = sym (minus-add p q) ∙ ap (λ t. add t q) e

  pub add_right_comm : (p q r : Point) → add (add p q) r ≡ add (add p r) q
  add_right_comm p q r = add_assoc p q r ∙ ap (add p) (add_comm q r) ∙ sym (add_assoc p r q)

  pub minus_add_comm : (p q r : Point) → minus (add p q) r ≡ add (minus p r) q
  unfolding minus
  minus_add_comm p q r = add_right_comm p q (neg r)
