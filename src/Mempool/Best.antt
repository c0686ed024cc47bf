-- ===== src/Mempool/Best.antt =====
-- The block's offer is the best-paying one that does not conflict
-- (crates/nightfall-consensus/src/lib.rs, `select_for_block`).
use nightfall.Common.{
  ℕ, ◌≤◌, ◌≡◌, true, false, List, [], ◌∷◌, map, length, arith, All, inl, inr, ◌⊎◌, Bool-cases,
}
use nightfall.Crypto.{Primitives}
use nightfall.Tx.{Transaction}
use nightfall.Mempool.{
  Mempool, fee_of, input_set, touches, precedes, insert_candidate, sort_candidates,
  select_for_block,
}
use nightfall.Mempool.Select.{
  Among, Free, Falling, spent_by, pick, choose-pick, pick-Free, length-pick, pick-Among, pick_all,
  pick-Falling, All-more,
}

-- The transactions held, as a list.
unfoldable pub held : Mempool → List Transaction
held pool = map (λ e. e.1) pool.txs

module _ (c : Primitives) where
  insert-Among :
      (tx t : Transaction) (txs : List Transaction)
      → (Among t (insert_candidate c tx txs) → (t ≡ tx) ⊎ Among t txs)
        × ((t ≡ tx) ⊎ Among t txs → Among t (insert_candidate c tx txs))
  unfolding insert_candidate
  insert-Among tx t [] = (λ m. m, λ m. m)
  insert-Among tx t (x ∷ txs) = elim (Bool-cases (precedes c tx x)) [
    | inl e ↦ rw e (λ m. m, λ m. m)
    | inr e ↦
        let (out, into) = insert-Among tx t txs in
        rw e (
          λ m. elim m [
            | inl q ↦ inr (inl q)
            | inr l ↦ elim (out l) [ inl q ↦ inl q | inr r ↦ inr (inr r) ]
          ],
          λ m. elim m [
            | inl q ↦ inr (into (inl q))
            | inr (inl q) ↦ inl q
            | inr (inr l) ↦ inr (into (inr l))
          ],
        )
  ]

  sort-Among :
      (t : Transaction) (txs : List Transaction)
      → (Among t (sort_candidates c txs) → Among t txs)
        × (Among t txs → Among t (sort_candidates c txs))
  unfolding sort_candidates
  sort-Among t [] = (λ m. m, λ m. m)
  sort-Among t (x ∷ txs) =
      let (out, into) = sort-Among t txs in
      let (out', into') = insert-Among x t (sort_candidates c txs) in
      (
        λ m. elim (out' m) [ inl q ↦ inl q | inr l ↦ inr (out l) ],
        λ m. elim m [ inl q ↦ into' (inl q) | inr l ↦ into' (inr (into l)) ],
      )

  All-insert :
      (a tx : Transaction) (txs : List Transaction)
      → fee_of tx ≤ fee_of a
      → All (λ b. fee_of b ≤ fee_of a) txs
      → All (λ b. fee_of b ≤ fee_of a) (insert_candidate c tx txs)
  unfolding insert_candidate
  All-insert a tx [] l h = (l, tt)
  All-insert a tx (x ∷ txs) l h = elim (Bool-cases (precedes c tx x)) [
    | inl e ↦ rw e (l, h)
    | inr e ↦ rw e (h.0, All-insert a tx txs l h.1)
  ]

  precedes_fee :
      (a b : Transaction)
      → (precedes c a b ≡ true → fee_of b ≤ fee_of a)
        × (precedes c a b ≡ false → fee_of a ≤ fee_of b)
  unfolding precedes
  precedes_fee a b = (λ h. ground arith, λ h. ground arith)

  insert-Falling :
      (tx : Transaction) (txs : List Transaction)
      → Falling txs
      → Falling (insert_candidate c tx txs)
  unfolding insert_candidate
  insert-Falling tx [] h = (tt, tt)
  insert-Falling tx (x ∷ txs) h = elim (Bool-cases (precedes c tx x)) [
    | inl e ↦ let less = (precedes_fee tx x).0 e in rw e ((less, All-more x tx txs less h.0), h)
    | inr e ↦ rw e (All-insert x tx txs ((precedes_fee tx x).1 e) h.0, insert-Falling tx txs h.1)
  ]

  sort-Falling : (txs : List Transaction) → Falling (sort_candidates c txs)
  unfolding sort_candidates
  sort-Falling [] = tt
  sort-Falling (x ∷ txs) = insert-Falling x (sort_candidates c txs) (sort-Falling txs)

  chosen :
      (pool : Mempool) (max : ℕ)
      → select_for_block c pool max ≡ pick (sort_candidates c (map (λ e. e.1) pool.txs)) max []
  unfolding select_for_block
  chosen pool max =
      choose-pick (sort_candidates c (map (λ e. e.1) pool.txs)) max max [] [] (omega arith)

  -- The offer for a block: at most `max` held transactions, by falling fee, none of which spends an
  -- input that one before it spends.  A held transaction that is not among them spends an input that
  -- one of them spends, unless there are `max` of them.
  pub select_for_block_lem :
      (pool : Mempool) (max : ℕ)
      → (length (select_for_block c pool max) ≤ max)
        × Free [] (select_for_block c pool max)
        × Falling (select_for_block c pool max)
        × ((t : Transaction) → Among t (select_for_block c pool max) → Among t (held pool))
        × ((t : Transaction)
            → Among t (held pool)
            → Among t (select_for_block c pool max)
              ⊎ ((length (select_for_block c pool max) ≡ max)
                  ⊎ (touches (spent_by (select_for_block c pool max)) (input_set t.inputs) ≡ true)))
  unfolding held
  select_for_block_lem pool max =
      let sorted = sort_candidates c (map (λ e. e.1) pool.txs) in
      rw (chosen pool max) (
        length-pick sorted max [],
        pick-Free sorted max [],
        pick-Falling sorted max [] (sort-Falling (map (λ e. e.1) pool.txs)),
        λ t m. (sort-Among t (map (λ e. e.1) pool.txs)).0 (pick-Among sorted max [] t m),
        λ t m. pick_all sorted max [] t ((sort-Among t (map (λ e. e.1) pool.txs)).1 m),
      )
