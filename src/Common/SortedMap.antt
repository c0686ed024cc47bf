-- ===== src/Common/SortedMap.antt =====
-- `BTreeMap` as the list of its entries in ascending key order.
use Prim.Native.Nat.{ℕ, ◌+◌, ◌≤◌, ◌<◌}
use mathlib.Core.Path.{◌≡◌, refl}
use mathlib.Core.List.{List, [], ◌∷◌}
use mathlib.Core.Option.{Option, none, some}
use native.Mathlib.Omega.{arith}
use nightfall.Common.Tests.{ltb, ◌==◌, if◌then◌else◌, is_some, Bool-cases}
use mathlib.Core.Bool.{Bool}
use mathlib.Core.Logic.{inl, inr}
use nightfall.Common.Lists.{length}

module _ {ℓ} {V : Type ℓ} where
  unfoldable pub lookup : ℕ → List (ℕ × V) → Option V
  lookup k [] = none
  lookup k ((j, v) ∷ m) = if j == k then some v else lookup k m

  -- `insert` replaces the value of a key that is there.
  unfoldable pub insert : ℕ → V → List (ℕ × V) → List (ℕ × V)
  insert k v [] = (k, v) ∷ []
  insert k v ((j, w) ∷ m) =
      if ltb k j then (k, v) ∷ (j, w) ∷ m else if j == k then (k, v) ∷ m else (j, w) ∷ insert k v m

  unfoldable pub remove : ℕ → List (ℕ × V) → List (ℕ × V)
  remove k [] = []
  remove k ((j, w) ∷ m) = if j == k then m else (j, w) ∷ remove k m

  -- `retain`.
  unfoldable pub retain : (ℕ → V → Bool) → List (ℕ × V) → List (ℕ × V)
  retain f [] = []
  retain f ((j, w) ∷ m) = let rest = retain f m in if f j w then (j, w) ∷ rest else rest

  -- Every key lies above a bound.
  abbrev pub Above : ℕ → List (ℕ × V) → Type 0
  Above b [] = Unit
  Above b ((j, v) ∷ m) = (b < j) × Above b m

  abbrev pub IsSorted : List (ℕ × V) → Type 0
  IsSorted [] = Unit
  IsSorted ((j, v) ∷ m) = Above j m × IsSorted m

-- The laws, for values of the first universe, where the tactics split on numbers.
module _ {V : Type 0} where
  Above-mono : (a b : ℕ) (m : List (ℕ × V)) → a ≤ b → Above b m → Above a m
  Above-mono a b [] h s = tt
  Above-mono a b ((j, v) ∷ m) h s = (omega arith, Above-mono a b m h s.1)

  Above-insert : (b k : ℕ) (v : V) (m : List (ℕ × V)) → b < k → Above b m → Above b (insert k v m)
  unfolding insert
  Above-insert b k v [] h s = (h, tt)
  Above-insert b k v ((j, w) ∷ m) h s = ground (arith, Above-insert b k v m h s.1)

  Above-remove : (b k : ℕ) (m : List (ℕ × V)) → Above b m → Above b (remove k m)
  unfolding remove
  Above-remove b k [] s = tt
  Above-remove b k ((j, w) ∷ m) s = ground (arith, Above-remove b k m s.1)

  pub lookup-Above : (k b : ℕ) (m : List (ℕ × V)) → k ≤ b → Above b m → lookup k m ≡ none
  unfolding lookup
  lookup-Above k b [] h s = refl
  lookup-Above k b ((j, v) ∷ m) h s = ground (arith, lookup-Above k b m h s.1)

  pub insert-IsSorted : (k : ℕ) (v : V) (m : List (ℕ × V)) → IsSorted m → IsSorted (insert k v m)
  unfolding insert
  insert-IsSorted k v [] s = (tt, tt)
  insert-IsSorted k v ((j, w) ∷ m) s =
      ground (arith, insert-IsSorted k v m s.1, Above-insert j k v m, Above-mono k j m)

  pub remove-IsSorted : (k : ℕ) (m : List (ℕ × V)) → IsSorted m → IsSorted (remove k m)
  unfolding remove
  remove-IsSorted k [] s = tt
  remove-IsSorted k ((j, w) ∷ m) s = ground (arith, remove-IsSorted k m s.1, Above-remove j k m s.0)

  pub lookup-insert :
      (at j : ℕ) (new : V) (map : List (ℕ × V))
      → lookup j (insert at new map) ≡ (if at == j then some new else lookup j map)
  unfolding lookup insert
  lookup-insert at j new [] = refl
  lookup-insert at j new ((i, old) ∷ map) = ground (arith, lookup-insert at j new map)

  pub lookup-remove :
      (k j : ℕ) (m : List (ℕ × V))
      → IsSorted m
      → lookup j (remove k m) ≡ (if k == j then none else lookup j m)
  unfolding lookup remove
  lookup-remove k j [] s = ground arith
  lookup-remove k j ((i, w) ∷ m) s = ground (arith, lookup-remove k j m s.1, lookup-Above j i m)

  same_head :
      (i j : ℕ) (u v : V) (m n : List (ℕ × V))
      → IsSorted ((i, u) ∷ m)
      → IsSorted ((j, v) ∷ n)
      → ((k : ℕ) → lookup k ((i, u) ∷ m) ≡ lookup k ((j, v) ∷ n))
      → (i ≡ j) × (u ≡ v)
  unfolding lookup
  same_head i j u v m n s t h = ground (arith, h i, h j, lookup-Above i j n, lookup-Above j i m)

  same_tail :
      (i j : ℕ) (u v : V) (m n : List (ℕ × V))
      → IsSorted ((i, u) ∷ m)
      → IsSorted ((j, v) ∷ n)
      → i ≡ j
      → ((k : ℕ) → lookup k ((i, u) ∷ m) ≡ lookup k ((j, v) ∷ n))
      → (k : ℕ) → lookup k m ≡ lookup k n
  unfolding lookup
  same_tail i j u v m n s t e h k = ground (arith, h k, lookup-Above k i m, lookup-Above k j n)

  -- Maps with the same entries are one list.
  pub sorted_ext :
      (m n : List (ℕ × V)) → IsSorted m → IsSorted n → ((k : ℕ) → lookup k m ≡ lookup k n) → m ≡ n
  unfolding lookup
  sorted_ext [] [] s t h = refl
  sorted_ext [] ((j, v) ∷ n) s t h = absurd (ground (arith, h j))
  sorted_ext ((i, u) ∷ m) [] s t h = absurd (ground (arith, h i))
  sorted_ext ((i, u) ∷ m) ((j, v) ∷ n) s t h =
      let e = same_head i j u v m n s t h in
      let rest = sorted_ext m n s.1 t.1 (same_tail i j u v m n s t e.0 h) in cc (e.0, e.1, rest)

  pub length-insert :
      (k : ℕ) (v : V) (m : List (ℕ × V))
      → IsSorted m
      → length (insert k v m) ≡ (if is_some (lookup k m) then length m else length m + 1)
  unfolding insert lookup
  length-insert k v [] s = omega arith
  length-insert k v ((j, w) ∷ m) s = ground (arith, length-insert k v m s.1, lookup-Above k j m)

  pub length-remove :
      (k : ℕ) (m : List (ℕ × V))
      → length m ≡ (if is_some (lookup k m) then length (remove k m) + 1 else length (remove k m))
  unfolding remove lookup
  length-remove k [] = omega arith
  length-remove k ((j, w) ∷ m) = ground (arith, length-remove k m)

  pub remove_absent : (k : ℕ) (m : List (ℕ × V)) → lookup k m ≡ none → remove k m ≡ m
  unfolding remove lookup
  remove_absent k [] h = refl
  remove_absent k ((j, w) ∷ m) h = ground (arith, remove_absent k m)

  Above-retain : (f : ℕ → V → Bool) (b : ℕ) (m : List (ℕ × V)) → Above b m → Above b (retain f m)
  unfolding retain
  Above-retain f b [] s = tt
  Above-retain f b ((j, w) ∷ m) s = elim (Bool-cases (f j w)) [
    | inl t ↦ rw t (s.0, Above-retain f b m s.1)
    | inr e ↦ rw e (Above-retain f b m s.1)
  ]

  pub retain-IsSorted : (f : ℕ → V → Bool) (m : List (ℕ × V)) → IsSorted m → IsSorted (retain f m)
  unfolding retain
  retain-IsSorted f [] s = tt
  retain-IsSorted f ((j, w) ∷ m) s = elim (Bool-cases (f j w)) [
    | inl t ↦ rw t (Above-retain f j m s.0, retain-IsSorted f m s.1)
    | inr e ↦ rw e (retain-IsSorted f m s.1)
  ]

  -- A value that is kept, or none.
  unfoldable pub kept : (ℕ → V → Bool) → ℕ → Option V → Option V
  kept f k none = none
  kept f k (some v) = if f k v then some v else none

  pub lookup-retain :
      (f : ℕ → V → Bool) (k : ℕ) (m : List (ℕ × V))
      → IsSorted m
      → lookup k (retain f m) ≡ kept f k (lookup k m)
  unfolding retain lookup kept
  lookup-retain f k [] s = refl
  lookup-retain f k ((j, w) ∷ m) s = ground (arith, lookup-retain f k m s.1, lookup-Above k j m)

  pub length-retain : (f : ℕ → V → Bool) (m : List (ℕ × V)) → length (retain f m) ≤ length m
  unfolding retain
  length-retain f [] = omega arith
  length-retain f ((j, w) ∷ m) = ground (arith, length-retain f m)
