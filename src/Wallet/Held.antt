-- ===== src/Wallet/Held.antt =====
-- What the loop over the blocks holds and what it saw spent (crates/nightfall-wallet/src/lib.rs).
use nightfall.Common.{
  ◌≡◌, ◌∙◌, ap, sym, refl, Bool, true, ◌||◌, none, some, List, [], ◌∷◌, ◌++◌, map, max, arith, All,
  inl, inr, Bool-cases, Option-cases, is_some, if◌then◌else◌, Option, ◌==◌,
}
use mathlib.Core.List.{append_assoc, append-nil}
use nightfall.Crypto.{Primitives}
use nightfall.Crypto.Commit.{Commitment}
use nightfall.Crypto.Output.{Output, is_coinbase}
use nightfall.Chain.{Block}
use nightfall.Tx.{Input, any}
use nightfall.Wallet.{Hex, OwnedOutput, HistoryEntry, contains}
use nightfall.Wallet.Gather.{
  Discovered, Gathered, owned, take_output, take_outputs, gather_block, gather, settle_pending,
}

-- The inputs of the blocks.
abbrev pub consumed : List Block → List Commitment
consumed [] = []
consumed (b ∷ bs) = map (λ i. i.commit) b.body.inputs ++ consumed bs

-- An output with the commitment is held.
unfoldable pub held : List OwnedOutput → Commitment → Bool
held os k = any (λ o. o.commit == k) os

held-append :
    (os ps : List OwnedOutput) (k : Commitment) → held (os ++ ps) k ≡ (held os k || held ps k)
unfolding held any
held-append [] ps k = refl
held-append (o ∷ os) ps k = ground (arith, held-append os ps k)

pub contains-append :
    (js ks : List Commitment) (k : Commitment)
    → contains (js ++ ks) k ≡ (contains js k || contains ks k)
unfolding contains any
contains-append [] ks k = refl
contains-append (j ∷ js) ks k = ground (arith, contains-append js ks k)

pub held-map :
    (f : OwnedOutput → OwnedOutput) (os : List OwnedOutput) (k : Commitment)
    → ((o : OwnedOutput) → (f o).commit ≡ o.commit)
    → held (map f os) k ≡ held os k
unfolding held any
held-map f [] k h = refl
held-map f (o ∷ os) k h = rw (h o) (ground (arith, held-map f os k h))

pub contains-commits :
    (os : List OwnedOutput) (k : Commitment) → contains (map (λ o. o.commit) os) k ≡ held os k
unfolding contains held any
contains-commits [] k = refl
contains-commits (o ∷ os) k = ground (arith, contains-commits os k)

module _ (c : Primitives) (x : Hex) (scan : Output → Option (Discovered c.Scalar)) where
  -- What is found in an output is that output.
  abbrev pub IsOwn : Type 0
  IsOwn = (out : Output) (d : Discovered c.Scalar) → scan out ≡ some d → d.commit ≡ out.commit

  -- One round of the loop over the outputs.
  round : List Commitment → Block → Bool → Output → Gathered → Gathered
  round known b ours out g =
      if contains known out.commit then g else take_output c x b ours out (scan out) g

  take_spent :
      (b : Block) (ours : Bool) (out : Output) (found : Option (Discovered c.Scalar)) (g : Gathered)
      → (take_output c x b ours out found g).spent_commits ≡ g.spent_commits
  unfolding take_output
  take_spent b ours out none g = refl
  take_spent b ours out (some d) g = refl

  round_spent :
      (known : List Commitment) (b : Block) (ours : Bool) (out : Output) (g : Gathered)
      → (round known b ours out g).spent_commits ≡ g.spent_commits
  unfolding round
  round_spent known b ours out g = elim (Bool-cases (contains known out.commit)) [
    | inl e ↦ rw e refl
    | inr e ↦ rw e (take_spent b ours out (scan out) g)
  ]

  take_outputs_spent :
      (known : List Commitment) (b : Block) (ours : Bool) (outs : List Output) (g : Gathered)
      → (take_outputs c x scan known b ours outs g).spent_commits ≡ g.spent_commits
  unfolding take_outputs round
  take_outputs_spent known b ours [] g = refl
  take_outputs_spent known b ours (out ∷ outs) g =
      take_outputs_spent known b ours outs (round known b ours out g)
      ∙ round_spent known b ours out g

  pub gather_spent :
      (known : List Commitment) (pending : List HistoryEntry) (bs : List Block) (g : Gathered)
      → (gather c x scan known pending bs g).spent_commits ≡ g.spent_commits ++ consumed bs
  unfolding gather gather_block
  gather_spent known pending [] g = sym (append-nil g.spent_commits)
  gather_spent known pending (b ∷ bs) g =
      let inputs = map (λ (i : Input). i.commit) b.body.inputs in
      let spent = g.spent_commits ++ inputs in
      let at = record g {
        spent_commits = spent;
        confirmed =
            settle_pending pending spent b.header.height b.header.timestamp_unix g.confirmed;
        highest = max g.highest b.header.height;
      } in
      gather_spent known pending bs (gather_block c x scan known pending b g)
      ∙ ap (λ t. t ++ consumed bs)
          (take_outputs_spent known b (any (contains known) inputs) b.body.outputs at)
      ∙ append_assoc g.spent_commits inputs (consumed bs)

  -- An output that is ours is held.
  abbrev pub IsHeld : List OwnedOutput → Output → Type 0
  IsHeld os out = is_some (scan out) ≡ true → held os out.commit ≡ true

  take_keeps :
      (b : Block) (ours : Bool) (out : Output) (found : Option (Discovered c.Scalar)) (g : Gathered)
      (k : Commitment)
      → held g.outputs k ≡ true
      → held (take_output c x b ours out found g).outputs k ≡ true
  unfolding take_output
  take_keeps b ours out none g k h = h
  take_keeps b ours out (some d) g k h =
      rw (held-append g.outputs (owned c x d b.header.height (is_coinbase out.features) ∷ []) k)
        (rw h refl)

  take_holds :
      (b : Block) (ours : Bool) (out : Output) (d : Discovered c.Scalar) (g : Gathered)
      → d.commit ≡ out.commit
      → held (take_output c x b ours out (some d) g).outputs out.commit ≡ true
  unfolding take_output held any owned
  take_holds b ours out d g h =
      rw
        (held-append g.outputs (owned c x d b.header.height (is_coinbase out.features) ∷ [])
          out.commit)
        (ground (arith, h))

  round_keeps :
      (known : List Commitment) (b : Block) (ours : Bool) (out : Output) (g : Gathered)
      (k : Commitment)
      → held g.outputs k ≡ true
      → held (round known b ours out g).outputs k ≡ true
  unfolding round
  round_keeps known b ours out g k h = elim (Bool-cases (contains known out.commit)) [
    | inl e ↦ rw e h
    | inr e ↦ rw e (take_keeps b ours out (scan out) g k h)
  ]

  -- What was known is held.
  unfoldable pub Knows : List Commitment → Gathered → Type 0
  Knows known g = (k : Commitment) → contains known k ≡ true → held g.outputs k ≡ true

  round_holds :
      (own : IsOwn) (known : List Commitment) (b : Block) (ours : Bool) (out : Output)
      (g : Gathered)
      → Knows known g
      → IsHeld (round known b ours out g).outputs out
  unfolding round Knows
  round_holds own known b ours out g w s = elim (Bool-cases (contains known out.commit)) [
    | inl e ↦ rw e (w out.commit e)
    | inr e ↦ elim (Option-cases (scan out)) [
      | inl n ↦ absurd (ground (arith, s, n))
      | inr (d, f) ↦ rw (e, f) (take_holds b ours out d g (own out d f))
    ]
  ]

  outputs_keep :
      (known : List Commitment) (b : Block) (ours : Bool) (outs : List Output) (g : Gathered)
      (k : Commitment)
      → held g.outputs k ≡ true
      → held (take_outputs c x scan known b ours outs g).outputs k ≡ true
  unfolding take_outputs round
  outputs_keep known b ours [] g k h = h
  outputs_keep known b ours (out ∷ outs) g k h =
      outputs_keep known b ours outs (round known b ours out g) k
        (round_keeps known b ours out g k h)

  outputs_held :
      (own : IsOwn) (known : List Commitment) (b : Block) (ours : Bool) (outs : List Output)
      (g : Gathered)
      → Knows known g
      → All (IsHeld (take_outputs c x scan known b ours outs g).outputs) outs
  unfolding take_outputs round Knows
  outputs_held own known b ours [] g w = tt
  outputs_held own known b ours (out ∷ outs) g w =
      let g' = round known b ours out g in
      (
        λ s. outputs_keep known b ours outs g' out.commit (round_holds own known b ours out g w s),
        outputs_held own known b ours outs g' (λ k h. round_keeps known b ours out g k (w k h)),
      )

  -- The state in which the loop over a block's outputs starts.
  entered : List HistoryEntry → Block → Gathered → Gathered
  entered pending b g =
      let spent = g.spent_commits ++ map (λ i. i.commit) b.body.inputs in
      record g {
        spent_commits = spent;
        confirmed =
            settle_pending pending spent b.header.height b.header.timestamp_unix g.confirmed;
        highest = max g.highest b.header.height;
      }

  block_keeps :
      (known : List Commitment) (pending : List HistoryEntry) (b : Block) (g : Gathered)
      (k : Commitment)
      → held g.outputs k ≡ true
      → held (gather_block c x scan known pending b g).outputs k ≡ true
  unfolding gather_block entered
  block_keeps known pending b g k h =
      outputs_keep known b (any (contains known) (map (λ i. i.commit) b.body.inputs)) b.body.outputs
        (entered pending b g) k h

  block_holds :
      (own : IsOwn) (known : List Commitment) (pending : List HistoryEntry) (b : Block)
      (g : Gathered)
      → Knows known g
      → All (IsHeld (gather_block c x scan known pending b g).outputs) b.body.outputs
  unfolding gather_block entered Knows
  block_holds own known pending b g w =
      outputs_held own known b (any (contains known) (map (λ i. i.commit) b.body.inputs))
        b.body.outputs (entered pending b g) w

  gather_keeps :
      (known : List Commitment) (pending : List HistoryEntry) (bs : List Block) (g : Gathered)
      (k : Commitment)
      → held g.outputs k ≡ true
      → held (gather c x scan known pending bs g).outputs k ≡ true
  unfolding gather
  gather_keeps known pending [] g k h = h
  gather_keeps known pending (b ∷ bs) g k h =
      gather_keeps known pending bs (gather_block c x scan known pending b g) k
        (block_keeps known pending b g k h)

  IsHeld-mono :
      (os ps : List OwnedOutput) (outs : List Output)
      → ((k : Commitment) → held os k ≡ true → held ps k ≡ true)
      → All (IsHeld os) outs
      → All (IsHeld ps) outs
  IsHeld-mono os ps [] f h = tt
  IsHeld-mono os ps (out ∷ outs) f h = (λ s. f out.commit (h.0 s), IsHeld-mono os ps outs f h.1)

  pub gather_holds :
      (own : IsOwn) (known : List Commitment) (pending : List HistoryEntry) (bs : List Block)
      (g : Gathered)
      → Knows known g
      → All (λ b. All (IsHeld (gather c x scan known pending bs g).outputs) b.body.outputs) bs
  unfolding gather Knows
  gather_holds own known pending [] g w = tt
  gather_holds own known pending (b ∷ bs) g w =
      let g' = gather_block c x scan known pending b g in
      (
        IsHeld-mono g'.outputs (gather c x scan known pending bs g').outputs b.body.outputs
            (λ k h. gather_keeps known pending bs g' k h) (block_holds own known pending b g w),
        gather_holds own known pending bs g' (λ k h. block_keeps known pending b g k (w k h)),
      )
