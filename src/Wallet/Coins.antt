-- ===== src/Wallet/Coins.antt =====
-- Choosing the coins of a payment and holding coins back (`select_coins_at` and its neighbours in
-- crates/nightfall-wallet/src/lib.rs).
use nightfall.Common.{
  ℕ, ◌+◌, ◌*◌, Bool, true, false, not, ◌&&◌, ◌||◌, none, some, Option, List, [], ◌∷◌, ◌++◌, map,
  ◌==◌, leb, if◌then◌else◌, length, filter, take,
}
use nightfall.Common.Result.{Result, ok, err, ◌>>=◌}
use nightfall.Common.Text.{same_text}
use nightfall.Common.Words.{saturating_add}
use nightfall.Crypto.{Primitives}
use nightfall.Crypto.Commit.{Commitment}
use nightfall.Tx.{any}
use nightfall.Tx.Checks.{max_inputs}
use nightfall.Wallet.{
  Hex, OwnedOutput, WalletFile, WalletError, bad_scalar_hex, scalar_length, non_canonical_scalar,
  too_many_coins, insufficient_funds, save, unclaimed, is_mature, is_reserved, to_hex,
}

-- The number that 32 bytes spell.
unfoldable pub spelled : ℕ → List ℕ → ℕ
spelled acc [] = acc
spelled acc (b ∷ bs) = spelled (acc * 256 + b) bs

-- `sort_by_key` with the values reversed is stable: the larger value first, and among equals the
-- earlier.
unfoldable pub insert_coin : OwnedOutput → List OwnedOutput → List OwnedOutput
insert_coin o [] = o ∷ []
insert_coin o (p ∷ ps) = if leb p.value o.value then o ∷ p ∷ ps else p ∷ insert_coin o ps

unfoldable pub largest_first : List OwnedOutput → List OwnedOutput
largest_first [] = []
largest_first (o ∷ os) = insert_coin o (largest_first os)

-- `fold(0, saturating_add)` of the values.
unfoldable pub saturating_total : ℕ → List OwnedOutput → ℕ
saturating_total sum [] = sum
saturating_total sum (o ∷ os) = saturating_total (saturating_add sum o.value) os

-- `Spendable` of crates/nightfall-ledger/src/builder.rs.
pub record Spendable (Scalar : Type 0) : Type 0 where
  pub commit : Commitment
  pub value : ℕ
  pub blind : Scalar
  pub spend_secret : Scalar

module _ (c : Primitives) (x : Hex) where
  open c use {Scalar, scalar_add, from_canonical_bytes}

  canonical : Option Scalar → Result WalletError Scalar
  canonical none = err non_canonical_scalar
  canonical (some s) = ok s

  of_bytes : Option (List ℕ) → Result WalletError Scalar
  unfolding canonical
  of_bytes none = err bad_scalar_hex
  of_bytes (some raw) =
      if length raw == 32
      then canonical (from_canonical_bytes (spelled 0 raw))
      else err scalar_length

  -- `OwnedOutput::scalar`.
  unfoldable pub scalar : List ℕ → Result WalletError Scalar
  unfolding of_bytes
  scalar hex_str = of_bytes (x.decode hex_str)

  -- `OwnedOutput::to_spendable`, with the spend secret of the keys.
  unfoldable pub to_spendable : Scalar → OwnedOutput → Result WalletError (Spendable Scalar)
  to_spendable secret o = do
    blind ← scalar o.blind_hex
    offset ← scalar o.key_offset_hex
    ok (record {
      commit = o.commit;
      value = o.value;
      blind = blind;
      spend_secret = scalar_add secret offset;
    })

  -- The loop of `select_coins_at`: what was chosen and its saturated total.
  unfoldable pub choose :
      Scalar
      → ℕ
      → List OwnedOutput
      → ℕ
      → List (Spendable Scalar)
      → Result WalletError (ℕ × List (Spendable Scalar))
  choose secret target [] sum chosen = ok (sum, chosen)
  choose secret target (o ∷ os) sum chosen = elim (leb target sum) [
    | true ↦ ok (sum, chosen)
    | false ↦ elim (to_spendable secret o) [
      | err e ↦ err e
      | ok s ↦ choose secret target os (saturating_add sum o.value) (chosen ++ s ∷ [])
    ]
  ]

  -- The outputs that a payment may draw on.
  unfoldable pub is_candidate : WalletFile → ℕ → ℕ → OwnedOutput → Bool
  is_candidate db tip_height maturity o =
      unclaimed db o
      && not (is_reserved x db o.commit)
      && (maturity == 0 || is_mature o tip_height maturity)

  unfoldable pub candidates : WalletFile → ℕ → ℕ → List OwnedOutput
  candidates db tip_height maturity = filter (is_candidate db tip_height maturity) db.outputs

  unfoldable pub enough :
      ℕ → ℕ → ℕ × List (Spendable Scalar) → Result WalletError (List (Spendable Scalar))
  enough target available_total (sum, chosen) =
      if leb target sum
      then ok chosen
      else if leb target available_total
      then err too_many_coins
      else err (insufficient_funds available_total target)

  unfoldable pub select_coins_at :
      Scalar → WalletFile → ℕ → ℕ → ℕ → Result WalletError (List (Spendable Scalar))
  select_coins_at secret db target tip_height maturity =
      let available = largest_first (candidates db tip_height maturity) in
      choose secret target (take max_inputs available) 0 [] >>= λ picked.
      enough target (saturating_total 0 available) picked

  unfoldable pub select_coins :
      Scalar → WalletFile → ℕ → Result WalletError (List (Spendable Scalar))
  select_coins secret db target = select_coins_at secret db target 0 0

  unfoldable pub pick_commit_hexes_at :
      Scalar → WalletFile → ℕ → ℕ → ℕ → Result WalletError (List (List ℕ))
  pick_commit_hexes_at secret db target tip_height maturity =
      select_coins_at secret db target tip_height maturity >>= λ chosen.
      ok (map (λ s. to_hex x s.commit) chosen)

-- `Vec<String>::contains`.
unfoldable pub listed : List (List ℕ) → List ℕ → Bool
listed hexes h = any (λ r. same_text r h) hexes

unfoldable pub hold_each : List (List ℕ) → List (List ℕ) → List (List ℕ)
hold_each reserved [] = reserved
hold_each reserved (h ∷ hs) =
    hold_each (if listed reserved h then reserved else reserved ++ h ∷ []) hs

or_before :
    WalletFile
    → WalletFile
    → Result WalletError (Unit {0})
    → WalletFile × Result WalletError (Unit {0})
or_before before after (ok u) = (after, ok u)
or_before before after (err e) = (before, err e)

unfoldable pub reserve_commits :
    Bool → Bool → WalletFile → List (List ℕ) → WalletFile × Result WalletError (Unit {0})
unfolding or_before
reserve_commits persist written db hexes =
    or_before db (record db { reserved = hold_each db.reserved hexes }) (save persist written)

unfoldable pub release_commits :
    Bool → Bool → WalletFile → List (List ℕ) → WalletFile × Result WalletError (Unit {0})
unfolding or_before
release_commits persist written db hexes =
    or_before db (record db { reserved = filter (λ r. not (listed hexes r)) db.reserved })
      (save persist written)
