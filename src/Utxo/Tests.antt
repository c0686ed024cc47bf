-- ===== src/Utxo/Tests.antt =====
-- Sets of the toy primitives: one built by the operations, one read from a file.
use nightfall.Common.{ℕ, ◌≡◌, ◌≢◌, ◌+◌, ◌/◌, length, refl, some, List, [], ◌∷◌, false, true, arith}
use nightfall.Common.Int.{ℤ, pos, ◌+ℤ◌}
use nightfall.Crypto.Commit.{point}
use nightfall.Crypto.Group.{minus}
use nightfall.Crypto.Toy.{toy}
use nightfall.Utxo.{UtxoEntry, UtxoSet, new, commitment_sum, commitment_sum_by_walking}
use nightfall.Utxo.Walk.{points, flaws, contrib, flaw}
use nightfall.Utxo.Running.{IsSummed}
use nightfall.Utxo.Root.{root, next_level}
use nightfall.Utxo.RootTotal.{root_returns}
use nightfall.Utxo.Drift.{Change, put, take_out, run, loaded, running_sum, loaded_sum_drifts}

abbrev plain_entry : UtxoEntry
plain_entry = record { output_pk = 0; height = 3; is_coinbase = false }

-- 15 is the point 5, and 8 is no point.
abbrev kept_set : UtxoSet ℤ
kept_set = record {
  entries = (8, plain_entry) ∷ (15, plain_entry) ∷ [];
  sum = pos 5;
  malformed = 1;
  summed = 2;
}

kept_set-IsSummed : IsSummed toy kept_set
unfolding points flaws contrib flaw point ◌+ℤ◌
kept_set-IsSummed = record {
  sorted = ((omega arith, tt), (tt, tt));
  counted = refl;
  flawed = refl;
  total = refl;
}

abbrev changes : List Change
changes = put 15 plain_entry ∷ put 8 plain_entry ∷ take_out 15 ∷ put 8 plain_entry ∷ []

running_sum_example :
    commitment_sum toy (run toy changes (new toy))
    ≡ commitment_sum_by_walking toy (run toy changes (new toy))
running_sum_example = running_sum toy changes

fifteen : point toy 15 ≡ some (pos 5)
unfolding point
fifteen = refl

loaded_sum_drifts_example :
    let u = run toy (take_out 15 ∷ []) (loaded toy ((15, plain_entry) ∷ [])) in
    (commitment_sum toy u ≡ some (minus toy (pos 0) (pos 5)))
    × (commitment_sum_by_walking toy u ≡ some (pos 0))
    × (commitment_sum toy u ≢ commitment_sum_by_walking toy u)
loaded_sum_drifts_example = loaded_sum_drifts toy 15 plain_entry (pos 5) fifteen (λ e. cc)

root_returns_example :
    ((r : ℕ) × (root toy kept_set ≡ some r))
    × (length (next_level toy (4 ∷ 5 ∷ 6 ∷ [])) ≡ (3 + 1) / 2)
root_returns_example = root_returns toy kept_set (4 ∷ 5 ∷ 6 ∷ [])

-- The same set but for a coinbase flag, which the root does not tell.
abbrev flagged_set : UtxoSet ℤ
flagged_set = record kept_set {
  entries = (8, record plain_entry { is_coinbase = true }) ∷ (15, plain_entry) ∷ [];
}
