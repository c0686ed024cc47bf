-- ===== src/Wallet/Gather.antt =====
-- The loop over the blocks in `scan_blocks_inner` (crates/nightfall-wallet/src/lib.rs).
--
-- `scan` stands for `scan_output` with the wallet's view key: what it finds in an output that is ours.
-- `BTreeSet` of commitments is a list that is only asked for membership.
use nightfall.Common.{
  ℕ, ◌+◌, max, Bool, false, not, ◌&&◌, ◌||◌, none, some, Option, List, [], ◌∷◌, ◌++◌, map,
  if◌then◌else◌,
}
use nightfall.Common.Text.{same_text}
use nightfall.Crypto.{Primitives}
use nightfall.Crypto.Commit.{Commitment}
use nightfall.Crypto.Output.{Output, is_coinbase}
use nightfall.Tx.{any, all}
use nightfall.Chain.{Block}
use nightfall.Wallet.{Hex, OwnedOutput, HistoryEntry, received, mined, contains, none_left, to_hex}

-- `DiscoveredOutput`.
pub record Discovered (Scalar : Type 0) : Type 0 where
  pub commit : Commitment
  pub value : ℕ
  pub blind : Scalar
  pub key_offset : Scalar
  pub memo : List ℕ

-- What the loop over the blocks has gathered.
pub record Gathered : Type 0 where
  pub outputs : List OwnedOutput
  pub new_history : List HistoryEntry
  pub spent_commits : List Commitment
  pub confirmed : List (List ℕ × (ℕ × ℕ))
  pub highest : ℕ
  pub found : ℕ

-- The loop over the pending sends, at one block.
unfoldable pub settle_pending :
    List HistoryEntry → List Commitment → ℕ → ℕ → List (List ℕ × (ℕ × ℕ)) → List (List ℕ × (ℕ × ℕ))
settle_pending [] spent height timestamp confirmed = confirmed
settle_pending (e ∷ es) spent height timestamp confirmed =
    settle_pending es spent height timestamp (
      if not (none_left e.spent_commits)
        && all (contains spent) e.spent_commits
        && not (any (λ t. same_text t.0 e.txid) confirmed)
      then confirmed ++ (e.txid, (height, timestamp)) ∷ []
      else confirmed)

module _ (c : Primitives) (x : Hex) where
  open c use {Scalar, to_bytes}

  unfoldable pub owned : Discovered Scalar → ℕ → Bool → OwnedOutput
  owned d height coinbase = record {
    commit = d.commit;
    value = d.value;
    blind_hex = to_hex x (to_bytes d.blind);
    key_offset_hex = to_hex x (to_bytes d.key_offset);
    memo = d.memo;
    height = height;
    spent = false;
    is_coinbase = coinbase;
  }

  unfoldable pub found_entry : Discovered Scalar → ℕ → ℕ → Bool → HistoryEntry
  found_entry d height timestamp coinbase = record {
    direction = if coinbase then mined else received;
    amount = d.value;
    fee = 0;
    memo = d.memo;
    height = some height;
    txid = to_hex x d.commit;
    timestamp = timestamp;
    spent_commits = [];
    raw = none;
    quarantined = false;
    failed = false;
  }

  -- One output of a block that is not known yet.
  unfoldable pub take_output :
      Block → Bool → Output → Option (Discovered Scalar) → Gathered → Gathered
  take_output block spent_ours out none g = g
  take_output block spent_ours out (some d) g =
      let coinbase = is_coinbase out.features in
      record g {
        outputs = g.outputs ++ owned d block.header.height coinbase ∷ [];
        new_history =
            if coinbase || not spent_ours
            then g.new_history
              ++ found_entry d block.header.height block.header.timestamp_unix coinbase ∷ []
            else g.new_history;
        found = g.found + 1;
      }

  unfoldable pub take_outputs :
      (Output → Option (Discovered Scalar))
      → List Commitment
      → Block
      → Bool
      → List Output
      → Gathered
      → Gathered
  take_outputs scan known block spent_ours [] g = g
  take_outputs scan known block spent_ours (out ∷ outs) g =
      take_outputs scan known block spent_ours outs
        (if contains known out.commit then g else take_output block spent_ours out (scan out) g)

  unfoldable pub gather_block :
      (Output → Option (Discovered Scalar))
      → List Commitment
      → List HistoryEntry
      → Block
      → Gathered
      → Gathered
  gather_block scan known pending block g =
      let inputs = map (λ i. i.commit) block.body.inputs in
      let spent = g.spent_commits ++ inputs in
      take_outputs scan known block (any (contains known) inputs) block.body.outputs (record g {
        spent_commits = spent;
        confirmed =
            settle_pending pending spent block.header.height block.header.timestamp_unix
              g.confirmed;
        highest = max g.highest block.header.height;
      })

  unfoldable pub gather :
      (Output → Option (Discovered Scalar))
      → List Commitment
      → List HistoryEntry
      → List Block
      → Gathered
      → Gathered
  gather scan known pending [] g = g
  gather scan known pending (b ∷ bs) g =
      gather scan known pending bs (gather_block scan known pending b g)
