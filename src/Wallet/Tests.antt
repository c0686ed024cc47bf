-- ===== src/Wallet/Tests.antt =====
-- The wallet's properties, on a wallet of four outputs.
use nightfall.Common.{
  ℕ, ap, sym, refl, ◌≡◌, ◌<◌, true, false, none, some, Bool, List, [], ◌∷◌, get_elem?, Option, All,
  ◌==◌, ◌≤◌, length, filter, arith,
}
use nightfall.Common.Result.{ok}
use nightfall.Common.Text.{codes}
use nightfall.Common.Words.{be_bytes}
use nightfall.Crypto.Toy.{toy}
use nightfall.Wallet.{Hex, OwnedOutput, WalletFile, HistoryEntry, sent, default_file}
use nightfall.Wallet.Coins.{Spendable, candidates, is_candidate, select_coins_at}
use nightfall.Counter.{Invoice, Incoming, quotes}
use nightfall.Wallet.Till.{add_invoice}
use nightfall.Wallet.Billed.{start, next, add, quoted_once}
use nightfall.Crypto.Output.{Output}
use nightfall.Chain.Examples.{second_block}
use nightfall.Wallet.Gather.{Discovered}
use nightfall.Wallet.Scan.{scan_blocks, rebase_on_shorter_chain}
use nightfall.Wallet.Held.{IsHeld}
use nightfall.Wallet.Canonical.{AgreesWith, rebased_outputs}
use nightfall.Wallet.Retained.{sends, sends_retained}
use nightfall.Wallet.Selected.{Selected, select_coins_at_lem}

abbrev plain_hex : Hex
plain_hex = record { encode = λ bs. bs; decode = λ bs. some bs; decode-encode = λ n. refl }

abbrev coin : ℕ → ℕ → OwnedOutput
unfolding be_bytes
coin commit value = record {
  commit = commit;
  value = value;
  blind_hex = be_bytes 32 7;
  key_offset_hex = be_bytes 32 9;
  memo = [];
  height = 10;
  spent = false;
  is_coinbase = false;
}

-- The third coin is reserved.
abbrev four_coins : WalletFile
unfolding be_bytes
four_coins = record default_file {
  outputs = coin 1 30 ∷ coin 2 50 ∷ coin 3 90 ∷ coin 4 40 ∷ [];
  reserved = be_bytes 32 3 ∷ [];
}

abbrev of_coin : ℕ → ℕ → Spendable toy.Scalar
of_coin commit value = record { commit = commit; value = value; blind = 7; spend_secret = 14 }

two_picked :
    select_coins_at toy plain_hex 5 four_coins 80 100 20 ≡ ok (of_coin 2 50 ∷ of_coin 4 40 ∷ [])
unfolding select_coins_at nightfall.Wallet.Coins.choose nightfall.Wallet.Coins.largest_first
    candidates four_coins is_candidate nightfall.Wallet.unclaimed nightfall.Wallet.contains
    nightfall.Tx.any nightfall.Wallet.pending_input_commits nightfall.Wallet.claimed
    nightfall.Wallet.is_reserved nightfall.Common.Text.same_text nightfall.Wallet.to_hex
    nightfall.Wallet.is_mature nightfall.Wallet.Coins.insert_coin
    nightfall.Wallet.Coins.to_spendable be_bytes nightfall.Wallet.Coins.enough
    nightfall.Wallet.Coins.saturating_total nightfall.Wallet.Coins.scalar
    nightfall.Wallet.Coins.spelled coin nightfall.Wallet.is_open_send nightfall.Wallet.is_pending
    nightfall.Wallet.is_sent
two_picked = refl

select_coins_at_example :
    Selected toy plain_hex 5
      (is_candidate toy plain_hex four_coins 100 20)
      (filter (is_candidate toy plain_hex four_coins 100 20) four_coins.outputs)
      80
      (ok (of_coin 2 50 ∷ of_coin 4 40 ∷ []))
unfolding select_coins_at nightfall.Wallet.Coins.choose nightfall.Wallet.Coins.largest_first
    candidates four_coins is_candidate nightfall.Wallet.unclaimed nightfall.Wallet.contains
    nightfall.Tx.any nightfall.Wallet.pending_input_commits nightfall.Wallet.claimed
    nightfall.Wallet.is_reserved nightfall.Common.Text.same_text nightfall.Wallet.to_hex
    nightfall.Wallet.is_mature nightfall.Wallet.Coins.insert_coin
    nightfall.Wallet.Coins.to_spendable be_bytes nightfall.Wallet.Coins.enough
    nightfall.Wallet.Coins.saturating_total nightfall.Wallet.Coins.scalar
    nightfall.Wallet.Coins.spelled coin nightfall.Wallet.is_open_send nightfall.Wallet.is_pending
    nightfall.Wallet.is_sent
select_coins_at_example = select_coins_at_lem toy plain_hex 5 four_coins 80 100 20 (omega arith)

abbrev bread : Invoice
bread = record {
  reference = codes " B-1 ";
  amount_darks = some 70;
  description = codes "bread";
  created_unix = 500;
  expires_unix = none;
  closed_note = none;
}

abbrev one_billed : WalletFile
one_billed = record default_file { invoices = record bread { reference = codes "B-1" } ∷ [] }

first_billed : add_invoice false false default_file bread ≡ (one_billed, ok tt)
unfolding add_invoice nightfall.Wallet.Till.keep_if nightfall.Wallet.Till.admitted
    nightfall.Counter.check nightfall.Common.Text.trim nightfall.Common.Text.trim_end
    nightfall.Common.Text.trim_start nightfall.Wallet.Till.trimmed
    nightfall.Common.Text.is_whitespace nightfall.Tx.any nightfall.Wallet.Till.keep
    nightfall.Wallet.save
first_billed = refl

quoted_once_example :
    (length one_billed.invoices ≤ 2_000)
    × ((p : Incoming) (k m : ℕ) (i j : Invoice)
        → get_elem? one_billed.invoices k ≡ some i
        → get_elem? one_billed.invoices m ≡ some j
        → quotes i p ≡ true
        → quotes j p ≡ true
        → k ≡ m)
quoted_once_example = quoted_once one_billed (
    next default_file one_billed start
      (add false false bread one_billed (ap (λ q. q.0) (sym first_billed))))

-- Every output is ours.
abbrev find_any : Output → Option (Discovered toy.Scalar)
find_any out =
    some (record { commit = out.commit; value = 5; blind = 7; key_offset = 9; memo = [] })

abbrev sent_once : HistoryEntry
sent_once = record {
  direction = sent;
  amount = 20;
  fee = 1;
  memo = [];
  height = some 9;
  txid = codes "t";
  timestamp = 90;
  spent_commits = 2 ∷ [];
  raw = none;
  quarantined = false;
  failed = false;
}

-- A wallet that read a branch up to height 9 and saw its payment there.
abbrev on_a_branch : WalletFile
unfolding be_bytes
on_a_branch = record default_file {
  outputs = coin 1 30 ∷ [];
  scanned_to = 9;
  history = sent_once ∷ [];
  birth_height = second_block.header.height;
}

abbrev commit_of : Option (Discovered toy.Scalar) → ℕ
commit_of none = 0
commit_of (some d) = d.commit

rebased_outputs_example :
    All
      (AgreesWith (second_block ∷ []))
      (rebase_on_shorter_chain toy plain_hex find_any false false
        (second_block ∷ [])
        on_a_branch).0.outputs
    × All
        (λ b.
          All
            (IsHeld toy plain_hex find_any
              (rebase_on_shorter_chain toy plain_hex find_any false false
                (second_block ∷ [])
                on_a_branch).0.outputs)
            b.body.outputs)
        (second_block ∷ [])
unfolding nightfall.Wallet.Scan.may_rebase on_a_branch nightfall.Wallet.Reconcile.run_on
    nightfall.Wallet.Reconcile.last_height
rebased_outputs_example =
    rebased_outputs toy plain_hex find_any (λ out d h. sym (ap commit_of h)) false false
      (second_block ∷ []) on_a_branch refl

sends_retained_example :
    (sends (λ e. e.amount == 20) on_a_branch.history
      ≤ sends
          (λ e. e.amount == 20)
          (scan_blocks toy plain_hex find_any false false
            (second_block ∷ [])
            on_a_branch).0.history)
    × (sends (λ e. e.amount == 20) on_a_branch.history
        ≤ sends
            (λ e. e.amount == 20)
            (rebase_on_shorter_chain toy plain_hex find_any false false
              (second_block ∷ [])
              on_a_branch).0.history)
sends_retained_example =
    sends_retained toy plain_hex find_any (λ e. e.amount == 20) false false (second_block ∷ [])
      on_a_branch
