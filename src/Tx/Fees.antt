-- ===== src/Tx/Fees.antt =====
-- The two sums of fees of crates/nightfall-ledger/src/tx.rs.
use nightfall.Common.{ℕ, ◌+◌, ◌^◌, ◌<◌, ◌≡◌, List, [], ◌∷◌, some, arith}
use nightfall.Crypto.Kernel.{TxKernel}
use nightfall.Tx.{fee_fold, checked_fee_fold, checked_fee_sum}

fold_agrees :
    (ks : List TxKernel) (acc t : ℕ)
    → acc < 2 ^ 64
    → checked_fee_fold acc ks ≡ some t
    → (fee_fold acc ks ≡ t) × (t < 2 ^ 64)
unfolding fee_fold checked_fee_fold
fold_agrees [] acc t b h = ground arith
fold_agrees (k ∷ ks) acc t b h = ground (arith, fold_agrees ks (acc + k.fee_darks) t)

-- Where the checked sum of fees exists, the wrapping sum that consensus uses is the same number.
pub checked_fee_sum-fee_fold :
    (ks : List TxKernel) (t : ℕ) → checked_fee_sum ks ≡ some t → fee_fold 0 ks ≡ t
unfolding checked_fee_sum
checked_fee_sum-fee_fold ks t h = (fold_agrees ks 0 t (omega arith) h).0
