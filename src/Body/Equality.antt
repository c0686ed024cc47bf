-- ===== src/Body/Equality.antt =====
-- The derived `PartialEq` of the parts of a block body, by their fields.
use nightfall.Common.{Bool, true, false, ◌&&◌, none, some, Option, List, [], ◌∷◌, ◌==◌}
use nightfall.Crypto.Kernel.{TxKernel}
use nightfall.Crypto.Kernel
use nightfall.Crypto.Output.{Output, byte}
use nightfall.Crypto.Schnorr.{SchnorrSig}
use nightfall.Tx.{Input}

module _ {A : Type 0} (eq : A → A → Bool) where
  abbrev pub list_eq : List A → List A → Bool
  list_eq [] [] = true
  list_eq (x ∷ xs) (y ∷ ys) = eq x y && list_eq xs ys
  list_eq _ _ = false

  abbrev pub option_eq : Option A → Option A → Bool
  option_eq none none = true
  option_eq (some x) (some y) = eq x y
  option_eq _ _ = false

unfoldable pub sig_eq : SchnorrSig → SchnorrSig → Bool
sig_eq a b = a.r == b.r && a.s == b.s

unfoldable pub input_eq : Input → Input → Bool
input_eq a b =
    a.commit == b.commit
    && (sig_eq a.sig b.sig
        && (option_eq ◌==◌ a.input_key b.input_key && option_eq sig_eq a.key_sig b.key_sig))

unfoldable pub output_eq : Output → Output → Bool
output_eq a b =
    byte a.features == byte b.features
    && (a.commit == b.commit
        && (list_eq ◌==◌ a.range_proof b.range_proof
            && (a.ephemeral_pk == b.ephemeral_pk
                && (a.output_pk == b.output_pk
                    && (a.view_tag == b.view_tag
                        && (list_eq ◌==◌ a.payload b.payload
                            && sig_eq a.sender_sig b.sender_sig))))))

feature_eq : Kernel.KernelFeature → Kernel.KernelFeature → Bool
feature_eq Kernel.plain Kernel.plain = true
feature_eq Kernel.coinbase Kernel.coinbase = true
feature_eq _ _ = false

unfoldable pub kernel_eq : TxKernel → TxKernel → Bool
unfolding feature_eq
kernel_eq a b =
    feature_eq a.feature b.feature
    && (a.fee_darks == b.fee_darks
        && (a.reward_darks == b.reward_darks
            && (a.lock_height == b.lock_height
                && (a.excess == b.excess
                    && (sig_eq a.excess_sig b.excess_sig
                        && (option_eq ◌==◌ a.stealth_excess b.stealth_excess
                            && option_eq sig_eq a.stealth_sig b.stealth_sig))))))
