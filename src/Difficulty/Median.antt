-- ===== src/Difficulty/Median.antt =====
-- The median-time-past rule of crates/nightfall-consensus/src/difficulty.rs.
use nightfall.Common.{
  ℕ, zero, suc, ◌+◌, ◌-◌, ◌/◌, ◌≤◌, ◌<◌, ◌≡◌, ◌∙◌, refl, List, [], ◌∷◌, arith, length, min, some,
  drop, All, length-drop, ltb, leb, if◌then◌else◌, Bool, ◌&&◌, get_elem?,
}
use nightfall.Difficulty.{median_time_past, sort, insert_sorted}

-- How many elements pass a test.
abbrev pub tally : (ℕ → Bool) → List ℕ → ℕ
tally p [] = 0
tally p (x ∷ xs) = (if p x then 1 else 0) + tally p xs

abbrev Ascending : List ℕ → Type 0
Ascending [] = Unit
Ascending (x ∷ xs) = All (λ y. x ≤ y) xs × Ascending xs

tally-insert_sorted :
    (p : ℕ → Bool) (x : ℕ) (xs : List ℕ) → tally p (insert_sorted x xs) ≡ tally p (x ∷ xs)
unfolding insert_sorted
tally-insert_sorted p x [] = refl
tally-insert_sorted p x (y ∷ ys) = ground (arith, tally-insert_sorted p x ys)

tally-sort : (p : ℕ → Bool) (xs : List ℕ) → tally p (sort xs) ≡ tally p xs
unfolding sort
tally-sort p [] = refl
tally-sort p (x ∷ xs) = omega (arith, tally-insert_sorted p x (sort xs), tally-sort p xs)

length-insert_sorted : (x : ℕ) (xs : List ℕ) → length (insert_sorted x xs) ≡ suc (length xs)
unfolding insert_sorted
length-insert_sorted x [] = refl
length-insert_sorted x (y ∷ ys) = ground (arith, length-insert_sorted x ys)

length-sort : (xs : List ℕ) → length (sort xs) ≡ length xs
unfolding sort
length-sort [] = refl
length-sort (x ∷ xs) = omega (arith, length-insert_sorted x (sort xs), length-sort xs)

All-le_mono : (a b : ℕ) (xs : List ℕ) → a ≤ b → All (λ y. b ≤ y) xs → All (λ y. a ≤ y) xs
All-le_mono a b [] h s = tt
All-le_mono a b (x ∷ xs) h s = (omega arith, All-le_mono a b xs h s.1)

All-insert_sorted :
    (a x : ℕ) (xs : List ℕ) → a ≤ x → All (λ y. a ≤ y) xs → All (λ y. a ≤ y) (insert_sorted x xs)
unfolding insert_sorted
All-insert_sorted a x [] h s = (h, tt)
All-insert_sorted a x (y ∷ ys) h s = ground (arith, All-insert_sorted a x ys h s.1)

insert_sorted-Ascending : (x : ℕ) (xs : List ℕ) → Ascending xs → Ascending (insert_sorted x xs)
unfolding insert_sorted
insert_sorted-Ascending x [] s = (tt, tt)
insert_sorted-Ascending x (y ∷ ys) s =
    ground (arith, insert_sorted-Ascending x ys s.1, All-insert_sorted y x ys, All-le_mono x y ys)

sort-Ascending : (xs : List ℕ) → Ascending (sort xs)
unfolding sort
sort-Ascending [] = tt
sort-Ascending (x ∷ xs) = insert_sorted-Ascending x (sort xs) (sort-Ascending xs)

none_below : (m : ℕ) (xs : List ℕ) → All (λ y. m ≤ y) xs → tally (λ y. ltb y m) xs ≡ 0
none_below m [] h = refl
none_below m (x ∷ xs) h = ground (arith, none_below m xs h.1)

tally-le-length : (p : ℕ → Bool) (xs : List ℕ) → tally p xs ≤ length xs
tally-le-length p [] = omega arith
tally-le-length p (x ∷ xs) = ground (arith, tally-le-length p xs)

-- How an element stands among the others: its place from below, from above, and that it is one.
abbrev pub Ranked : List ℕ → ℕ → ℕ → Type 0
Ranked xs i m =
    (tally (λ y. ltb y m) xs ≤ i)
    × (tally (λ y. ltb m y) xs + i < length xs)
    × (1 ≤ tally (λ y. leb y m && leb m y) xs)

All-get_elem? : (x m i : ℕ) (xs : List ℕ) → All (λ y. x ≤ y) xs → get_elem? xs i ≡ some m → x ≤ m
All-get_elem? x m i [] h e = absurd (ground (arith, e))
All-get_elem? x m zero (y ∷ ys) h e = ground (arith, e)
All-get_elem? x m (suc i) (y ∷ ys) h e = All-get_elem? x m i ys h.1 e

Ranked-zero : (x : ℕ) (xs : List ℕ) → All (λ y. x ≤ y) xs → Ranked (x ∷ xs) 0 x
Ranked-zero x xs h = (
  ground (arith, none_below x xs h),
  ground (arith, tally-le-length (λ y. ltb x y) xs),
  ground arith,
)

Ranked-suc : (x m i : ℕ) (xs : List ℕ) → x ≤ m → Ranked xs i m → Ranked (x ∷ xs) (suc i) m
Ranked-suc x m i xs h (below, above, here) = (ground arith, ground arith, ground arith)

-- The element at an index of a sorted list.
ranked :
    (i : ℕ) (xs : List ℕ)
    → Ascending xs
    → i < length xs
    → (m : ℕ) × (get_elem? xs i ≡ some m) × Ranked xs i m
ranked i [] s h = absurd (omega arith)
ranked zero (x ∷ xs) s h = (x, refl, Ranked-zero x xs s.0)
ranked (suc i) (x ∷ xs) s h =
    let (m, e, r) = ranked i xs s.1 (omega arith) in
    (m, e, Ranked-suc x m i xs (All-get_elem? x m i xs s.0 e) r)

-- The timestamps that the rule looks at: the last eleven, or all if there are fewer.
abbrev pub recent : List ℕ → List ℕ
recent ts = drop (length ts - min 11 (length ts)) ts

median_open :
    (t : ℕ) (ts : List ℕ)
    → median_time_past (t ∷ ts)
      ≡ get_elem? (sort (recent (t ∷ ts))) (length (sort (recent (t ∷ ts))) / 2)
unfolding median_time_past
median_open t ts = refl

recent-length : (t : ℕ) (ts : List ℕ) → 1 ≤ length (recent (t ∷ ts))
recent-length t ts =
    omega (arith, length-drop (length (t ∷ ts) - min 11 (length (t ∷ ts))) (t ∷ ts))

-- On a chain with a block, the median time past exists and is the median of the last eleven
-- timestamps: it is one of them, at most half of them lie below it, and fewer than half above.
pub median_time_past_lem :
    (t : ℕ) (ts : List ℕ)
    → let window = recent (t ∷ ts) in
      (m : ℕ) × (median_time_past (t ∷ ts) ≡ some m) × Ranked window (length window / 2) m
median_time_past_lem t ts =
    let window = recent (t ∷ ts) in
    let n = length-sort window in
    let (m, e, r) =
      ranked (length (sort window) / 2) (sort window) (sort-Ascending window)
        (omega (arith, recent-length t ts, n)) in
    (
      m,
      median_open t ts ∙ e,
      (
        omega (arith, tally-sort (λ y. ltb y m) window, r.0, n),
        omega (arith, tally-sort (λ y. ltb m y) window, r.1, n),
        omega (arith, tally-sort (λ y. leb y m && leb m y) window, r.2),
      ),
    )
