-- ===== src/Chain/Undo.antt =====
-- The undo window of crates/nightfall-consensus/src/lib.rs over a run of accepted blocks.
use nightfall.Common.{
  ℕ, zero, suc, ◌+◌, ◌≤◌, ◌≡◌, ◌∙◌, ap, sym, refl, Bool, List, [], ◌∷◌, ◌++◌, arith, length, take,
  reverse, length-append, Bool-cases, inl, inr, true, ltb,
}
use nightfall.Common.Result.{ok, Result-cases}
use nightfall.Crypto.{Primitives}
use nightfall.Ledger.{LedgerState, rewind}
use nightfall.Ledger.Undone.{rewind-apply_block}
use nightfall.Chain.{Chain, Block, CompactHeader, TipUndo, work, header_work, from_block}
use nightfall.Chain.Apply.{trim, extend, apply_block, apply_block_inner, stripped_block}
use nightfall.Chain.Window.{work_sum}
use nightfall.Chain.Suffix.{rewind_all, apply_each}
use nightfall.Chain.Linked.{headers_work}
use nightfall.Chain.Shape.{IsChain}
use nightfall.Chain.Accepted.{Stands, taken_facts, apply_block_inner-IsChain}

module _ {A : Type 0} where
  append_assoc : (xs ys zs : List A) → (xs ++ ys) ++ zs ≡ xs ++ (ys ++ zs)
  append_assoc [] ys zs = refl
  append_assoc (x ∷ xs) ys zs = ap (λ t. x ∷ t) (append_assoc xs ys zs)

  append_nil : (xs : List A) → xs ++ [] ≡ xs
  append_nil [] = refl
  append_nil (x ∷ xs) = ap (λ t. x ∷ t) (append_nil xs)

  reverse-append : (xs ys : List A) → reverse (xs ++ ys) ≡ reverse ys ++ reverse xs
  reverse-append [] ys = sym (append_nil (reverse ys))
  reverse-append (x ∷ xs) ys =
      ap (λ t. t ++ x ∷ []) (reverse-append xs ys) ∙ append_assoc (reverse ys) (reverse xs) (x ∷ [])

  pub length-reverse : (xs : List A) → length (reverse xs) ≡ length xs
  length-reverse [] = refl
  length-reverse (x ∷ xs) = omega (arith, length-append (reverse xs) (x ∷ []), length-reverse xs)

  pub take-append : (n : ℕ) (xs ys : List A) → n ≡ length xs → take n (xs ++ ys) ≡ xs
  take-append zero [] ys h = refl
  take-append zero (x ∷ xs) ys h = absurd (omega arith)
  take-append (suc n) [] ys h = absurd (omega arith)
  take-append (suc n) (x ∷ xs) ys h = ap (λ t. x ∷ t) (take-append n xs ys (omega arith))

-- A window that fits is left alone, and trimming twice is trimming once.
pub trim_short : (us : List TipUndo) → length us ≤ 500 → trim us ≡ us
unfolding trim
trim_short [] h = refl
trim_short (u ∷ us) h = ground arith

trim-append : (us vs : List TipUndo) → trim (trim us ++ vs) ≡ trim (us ++ vs)
unfolding trim
trim-append [] vs = refl
trim-append (u ∷ us) vs = ground (arith, trim-append us vs, length-append us vs)

-- The newest entries survive the trim.
newest :
    (us vs : List TipUndo)
    → length vs ≤ 500
    → (kept : List TipUndo) × (trim (us ++ vs) ≡ kept ++ vs)
unfolding trim
newest [] vs h = ([], trim_short vs h)
newest (u ∷ us) vs h = elim (Bool-cases (ltb 500 (suc (length (us ++ vs))))) [
  | inl e ↦ rw e (newest us vs h)
  | inr e ↦ (u ∷ us, rw e refl)
]

pub take-reverse-trim :
    (us vs : List TipUndo)
    → length vs ≤ 500
    → take (length vs) (reverse (trim (us ++ vs))) ≡ reverse vs
take-reverse-trim us vs h =
    let (kept, e) = newest us vs h in
    ap (λ t. take (length vs) (reverse t)) e
    ∙ ap (take (length vs)) (reverse-append kept vs)
    ∙ take-append (length vs) (reverse vs) (reverse kept) (sym (length-reverse vs))

module _ (c : Primitives) where
  open c use {Point}

  rewind_all-append :
      (us : List TipUndo) (u : TipUndo) (l : LedgerState Point)
      → rewind_all c l (us ++ u ∷ []) ≡ rewind c (rewind_all c l us) u.state
  unfolding rewind_all
  rewind_all-append [] u l = refl
  rewind_all-append (v ∷ us) u l = rewind_all-append us u (rewind c l v.state)

  -- A run of blocks: the records it adds to the window take the ledger back, newest first, and the
  -- headers it adds bear the work of those records.
  pub record Run (ch chain : Chain Point) (n : ℕ) : Type 0 where
    pub records : List TipUndo
    pub added : List CompactHeader
    pub recorded : length records ≡ n
    pub window : chain.undos ≡ trim (ch.undos ++ records)
    pub back : rewind_all c chain.ledger (reverse records) ≡ ch.ledger
    pub grown : chain.headers ≡ ch.headers ++ added
    pub counted : length added ≡ n
    pub weighed : headers_work added ≡ work_sum records
    pub network : chain.network ≡ ch.network
    pub genesis : chain.genesis_hash ≡ ch.genesis_hash

  nothing_added :
      (base : ℕ) (ch chain : Chain Point) → IsChain c base ch → ch ≡ chain → Run ch chain 0
  unfolding rewind_all headers_work work_sum
  nothing_added base ch chain w e = rw (sym e) (record {
    records = [];
    added = [];
    recorded = refl;
    window = sym (ap trim (append_nil ch.undos) ∙ trim_short ch.undos w.bounded);
    back = refl;
    grown = sym (append_nil ch.headers);
    counted = refl;
    weighed = refl;
    network = refl;
    genesis = refl;
  })

  one_added :
      (base n : ℕ) (ch mid chain : Chain Point) (block : Block) (now_unix : ℕ)
      → IsChain c base ch
      → Stands c ch block now_unix Bool.true mid
      → Run mid chain n
      → Run ch chain (suc n)
  unfolding extend headers_work work_sum work header_work from_block
  one_added base n ch mid chain block now_unix w s r =
      let u : TipUndo = record { work = work block; state = s.undo } in
      record {
        records = u ∷ r.records;
        added = from_block c block ∷ r.added;
        recorded = ap suc r.recorded;
        window =
            r.window
            ∙ ap (λ t. trim (t ++ r.records)) (ap (λ (k : Chain Point). k.undos) s.extended)
            ∙ trim-append (ch.undos ++ u ∷ []) r.records
            ∙ ap trim (append_assoc ch.undos (u ∷ []) r.records);
        back =
            rewind_all-append (reverse r.records) u chain.ledger
            ∙ ap (λ l. rewind c l s.undo) (r.back ∙ ap (λ (k : Chain Point). k.ledger) s.extended)
            ∙ rewind-apply_block c ch.ledger s.after block.body _ _ _ s.undo w.summed s.applied
                s.captured;
        grown =
            r.grown
            ∙ ap (λ t. t ++ r.added) (ap (λ (k : Chain Point). k.headers) s.extended)
            ∙ append_assoc ch.headers (from_block c block ∷ []) r.added;
        counted = ap suc r.counted;
        weighed = ap (λ t. work block + t) r.weighed;
        network = r.network ∙ ap (λ (k : Chain Point). k.network) s.extended;
        genesis = r.genesis ∙ ap (λ (k : Chain Point). k.genesis_hash) s.extended;
      }

  each_step :
      (ch chain : Chain Point) (b : Block) (blocks : List Block) (now_unix : ℕ)
      → apply_each c ch (b ∷ blocks) now_unix ≡ ok chain
      → (mid : Chain Point) × (apply_block_inner c ch b now_unix true ≡ (mid, ok tt))
        × (apply_each c mid blocks now_unix ≡ ok chain)
  unfolding apply_each apply_block
  each_step ch chain b blocks now_unix h =
      let p = apply_block_inner c ch b now_unix true in
      elim (Result-cases p.1) [
        | inl (u, q) ↦ (p.0, ap (λ t. (p.0, t)) q, ground arith)
        | inr (e, q) ↦ absurd (ground arith)
      ]

  each_none :
      (ch chain : Chain Point) (now_unix : ℕ) → apply_each c ch [] now_unix ≡ ok chain → ch ≡ chain
  unfolding apply_each
  each_none ch chain now_unix h = ground arith

  -- A run of accepted blocks, with what the window keeps of it.
  pub apply_each-Run :
      (base : ℕ) (ch chain : Chain Point) (blocks : List Block) (now_unix : ℕ)
      → IsChain c base ch
      → apply_each c ch blocks now_unix ≡ ok chain
      → IsChain c base chain × Run ch chain (length blocks)
  apply_each-Run base ch chain [] now_unix w h =
      let e = each_none ch chain now_unix h in (rw (sym e) w, nothing_added base ch chain w e)
  apply_each-Run base ch chain (b ∷ blocks) now_unix w h =
      let (mid, taken, rest) = each_step ch chain b blocks now_unix h in
      let kept = apply_block_inner-IsChain c base ch mid b now_unix true (ok tt) w taken in
      let (ended, r) = apply_each-Run base mid chain blocks now_unix kept rest in
      (
        ended,
        one_added base (length blocks) ch mid chain (stripped_block c ch b) now_unix w
            (taken_facts c ch mid b now_unix true taken) r,
      )
