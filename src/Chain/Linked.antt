-- ===== src/Chain/Linked.antt =====
-- Headers that link (crates/nightfall-consensus/src/lib.rs): each names the hash of the one before it
-- and stands at the next height.
use nightfall.Common.{
  ℕ, zero, suc, ◌+◌, ◌≡◌, refl, none, some, List, [], ◌∷◌, ◌++◌, arith, last?, take,
}
use nightfall.Types.{next}
use nightfall.Chain.{CompactHeader, header_work}

-- From a hash and a height on.
abbrev pub Linked : ℕ → ℕ → List CompactHeader → Type 0
Linked prev h [] = Unit
Linked prev h (x ∷ xs) = (x.prev_hash ≡ prev) × (x.height ≡ h) × Linked x.hash (next h) xs

-- Where the next header would stand: the hash it names and its height.
unfoldable pub tip_of : ℕ → List CompactHeader → ℕ
tip_of prev [] = prev
tip_of prev (x ∷ xs) = tip_of x.hash xs

unfoldable pub height_of : ℕ → List CompactHeader → ℕ
height_of h [] = h
height_of h (x ∷ xs) = height_of (next h) xs

unfoldable pub headers_work : List CompactHeader → ℕ
headers_work [] = 0
headers_work (x ∷ xs) = header_work x + headers_work xs

pub Linked-append :
    (xs : List CompactHeader) (prev h : ℕ) (x : CompactHeader)
    → Linked prev h xs
    → x.prev_hash ≡ tip_of prev xs
    → x.height ≡ height_of h xs
    → Linked prev h (xs ++ x ∷ [])
unfolding tip_of height_of
Linked-append [] prev h x l p q = (p, q, tt)
Linked-append (y ∷ ys) prev h x l p q = (l.0, l.1, Linked-append ys y.hash (next h) x l.2 p q)

pub Linked-take :
    (n : ℕ) (xs : List CompactHeader) (prev h : ℕ) → Linked prev h xs → Linked prev h (take n xs)
Linked-take zero xs prev h l = tt
Linked-take (suc n) [] prev h l = tt
Linked-take (suc n) (x ∷ xs) prev h l = (l.0, l.1, Linked-take n xs x.hash (next h) l.2)

pub tip_of-append :
    (xs : List CompactHeader) (prev : ℕ) (x : CompactHeader) → tip_of prev (xs ++ x ∷ []) ≡ x.hash
unfolding tip_of
tip_of-append [] prev x = refl
tip_of-append (y ∷ ys) prev x = tip_of-append ys y.hash x

pub headers_work-append :
    (xs : List CompactHeader) (x : CompactHeader)
    → headers_work (xs ++ x ∷ []) ≡ headers_work xs + header_work x
unfolding headers_work
headers_work-append [] x = omega arith
headers_work-append (y ∷ ys) x = omega (arith, headers_work-append ys x)

pub last-tip_of :
    (xs : List CompactHeader) (prev h : ℕ) (y : CompactHeader)
    → Linked prev h xs
    → last? xs ≡ some y
    → (y.hash ≡ tip_of prev xs) × (next y.height ≡ height_of h xs)
unfolding tip_of height_of
last-tip_of [] prev h y l e = absurd (ground (arith, e))
last-tip_of (x ∷ []) prev h y l e = ground (arith, e, l)
last-tip_of (x ∷ z ∷ xs) prev h y l e = last-tip_of (z ∷ xs) x.hash (next h) y l.2 e

pub last-none : {A : Type 0} (xs : List A) → last? xs ≡ none → xs ≡ []
last-none [] e = refl
last-none (x ∷ []) e = absurd (ground (arith, e))
last-none (x ∷ y ∷ xs) e = absurd (ground (arith, last-none (y ∷ xs) e))
