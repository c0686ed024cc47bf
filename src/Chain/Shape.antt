-- ===== src/Chain/Shape.antt =====
-- The well-formed chains of crates/nightfall-consensus/src/lib.rs, and what a block does to one.
use nightfall.Common.{
  ℕ, zero, suc, ◌+◌, ◌-◌, ◌^◌, ◌≤◌, ◌≡◌, ◌∙◌, ap, sym, refl, List, [], ◌∷◌, ◌++◌, map, arith,
  length, last?, drop, min, Option-cases, inl, inr, length-append,
}
use nightfall.Common.Result.{ok}
use nightfall.Common.Words.{saturating_add128}
use nightfall.Crypto.{Primitives}
use nightfall.Utxo.Running.{IsSummed}
use nightfall.Ledger.{LedgerState, StateUndo}
use nightfall.Chain.{
  Chain, Block, TipUndo, from_block, work, header_work, tip_height, tip_hash, next_height,
}
use nightfall.Chain.Apply.{trim, extend, check_links}
use nightfall.Chain.Linked.{
  Linked, tip_of, height_of, headers_work, Linked-append, headers_work-append, last-tip_of,
  last-none,
}

pub length-trim : (undos : List TipUndo) → length (trim undos) ≡ min 500 (length undos)
unfolding trim
length-trim [] = refl
length-trim (u ∷ undos) = ground (arith, length-trim undos)

module _ {A B : Type 0} (f : A → B) where
  map-append : (xs ys : List A) → map f (xs ++ ys) ≡ map f xs ++ map f ys
  map-append [] ys = refl
  map-append (x ∷ xs) ys = ap (λ t. f x ∷ t) (map-append xs ys)

  length-map : (xs : List A) → length (map f xs) ≡ length xs
  length-map [] = refl
  length-map (x ∷ xs) = ap suc (length-map xs)

length-zero : {A : Type 0} (xs : List A) → length xs ≡ 0 → xs ≡ []
length-zero [] h = refl
length-zero (x ∷ xs) h = absurd (omega arith)

drop-append :
    {A : Type 0} (n : ℕ) (xs ys : List A) → n ≤ length xs → drop n (xs ++ ys) ≡ drop n xs ++ ys
drop-append zero xs ys h = refl
drop-append (suc n) [] ys h = absurd (omega arith)
drop-append (suc n) (x ∷ xs) ys h = drop-append n xs ys (omega arith)

module _ (c : Primitives) where
  open c use {Point}

  -- The headers link from genesis on; the bodies are those of the headers from `base` on; the work
  -- in hand is that of the headers, cut off at u128; the undo window is bounded; and the running
  -- values of the set are kept up.
  pub record IsChain (base : ℕ) (ch : Chain Point) : Type 0 where
    pub summed : IsSummed c ch.ledger.utxos
    pub linked : Linked ch.genesis_hash 0 ch.headers
    pub aligned : map (from_block c) ch.blocks ≡ drop base ch.headers
    pub counted : base + length ch.blocks ≡ length ch.headers
    pub started : ch.first_height ≤ length ch.headers
    pub worked : ch.total_work ≡ min (headers_work ch.headers) (2 ^ 128 - 1)
    pub bounded : length ch.undos ≤ 500

  empty_tip :
      (ch : Chain Point)
      → ch.headers ≡ []
      → ch.blocks ≡ []
      → ch.first_height ≡ 0
      → (tip_hash c ch ≡ tip_of ch.genesis_hash ch.headers)
        × (next_height c ch ≡ height_of 0 ch.headers)
  unfolding tip_hash next_height tip_height tip_of height_of
  empty_tip ch e k f = ground arith

  pub tip-tip_of :
      (base : ℕ) (ch : Chain Point)
      → IsChain base ch
      → (tip_hash c ch ≡ tip_of ch.genesis_hash ch.headers)
        × (next_height c ch ≡ height_of 0 ch.headers)
  unfolding tip_hash next_height tip_height
  tip-tip_of base ch w = elim (Option-cases (last? ch.headers)) [
    | inl e ↦
        let none_left = last-none ch.headers e in
        empty_tip ch none_left (length-zero ch.blocks (ground (arith, none_left, w.counted)))
          (ground (arith, none_left, w.started))
    | inr (y, e) ↦ ground (arith, last-tip_of ch.headers ch.genesis_hash 0 y w.linked e)
  ]

  added_work :
      (t s w w' s' : ℕ)
      → t ≡ min s (2 ^ 128 - 1)
      → s' ≡ s + w'
      → w ≡ w'
      → saturating_add128 t w ≡ min s' (2 ^ 128 - 1)
  added_work t s w w' s' h k e = omega arith

  links :
      (ch : Chain Point) (b : Block)
      → check_links c ch b ≡ ok tt
      → (b.header.height ≡ next_height c ch) × (b.header.prev_hash ≡ tip_hash c ch)
  unfolding check_links
  links ch b h = ground arith

  -- A block that links keeps the chain well formed.
  pub extend-IsChain :
      (base : ℕ) (ch : Chain Point) (after : LedgerState Point) (b : Block) (undo : StateUndo)
      → IsChain base ch
      → IsSummed c after.utxos
      → check_links c ch b ≡ ok tt
      → IsChain base (extend c ch after b undo)
  unfolding extend work header_work from_block
  extend-IsChain base ch after b undo w sum h =
      let (height, prev) = links ch b h in
      let (tip, next_) = tip-tip_of base ch w in
      record {
        summed = sum;
        linked =
            Linked-append ch.headers ch.genesis_hash 0 (from_block c b) w.linked (prev ∙ tip)
              (height ∙ next_);
        aligned =
            map-append (from_block c) ch.blocks (b ∷ [])
            ∙ ap (λ t. t ++ from_block c b ∷ []) w.aligned
            ∙ sym (drop-append base ch.headers (from_block c b ∷ []) (omega (arith, w.counted)));
        counted = omega (
          arith,
          length-append ch.blocks (b ∷ []),
          length-append ch.headers (from_block c b ∷ []),
          w.counted,
        );
        started = omega (arith, length-append ch.headers (from_block c b ∷ []), w.started);
        worked =
            added_work ch.total_work (headers_work ch.headers) _ _ _ w.worked
              (headers_work-append ch.headers (from_block c b)) refl;
        bounded =
            omega (arith, length-trim (ch.undos ++ record { work = work b; state = undo } ∷ []));
      }
