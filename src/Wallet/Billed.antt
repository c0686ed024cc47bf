-- ===== src/Wallet/Billed.antt =====
-- The invoices of a till never share a reference (crates/nightfall-wallet/src/lib.rs).
use nightfall.Common.{
  ℕ, zero, suc, ◌≤◌, ◌≡◌, ◌∙◌, ap, sym, subst, refl, Bool, true, false, not, Option, ltb, some,
  List, [], ◌∷◌, ◌++◌, arith, length, length-append, filter, get_elem?,
}
use nightfall.Common.Result.{Result, ok, err, require}
use nightfall.Common.Text.{same_text_eq, same_text_refl, trim, trim_twice}
use nightfall.Tx.{any}
use nightfall.Counter.{Invoice, Incoming, quotes}
use nightfall.Wallet.{WalletFile, default_file}
use nightfall.Wallet.Till.{
  TillError, no_invoice, keep, trimmed, bears, admitted, keep_if, add_invoice, close_first,
  closable, close_invoice, remove_invoice,
}
use nightfall.Wallet.Distinct.{
  AreDistinct, push-AreDistinct, close-AreDistinct, length-close, filter-AreDistinct, length-filter,
}

some_inj : (a b : Invoice) → ◌≡◌ {A = Option Invoice} (some a) (some b) → a ≡ b
some_inj a b h = cc

abbrev pub IsTill : WalletFile → Type 0
IsTill db = AreDistinct db.invoices × (length db.invoices ≤ 2_000)

keep_if-IsTill :
    (r : Result TillError (Unit {0})) (persist written : Bool) (db : WalletFile)
    (invoices : List Invoice)
    → IsTill db
    → (r ≡ ok tt → AreDistinct invoices × (length invoices ≤ 2_000))
    → IsTill (keep_if r persist written db invoices).0
unfolding keep_if keep
keep_if-IsTill (ok u) persist written db invoices w h = h refl
keep_if-IsTill (err e) persist written db invoices w h = w

admitted_new :
    (invoices : List Invoice) (i : Invoice)
    → admitted invoices i ≡ ok tt
    → (any (bears i.reference) invoices ≡ false) × (suc (length invoices) ≤ 2_000)
unfolding admitted
admitted_new invoices i h = ground (arith, h)

add-IsTill :
    (persist written : Bool) (db : WalletFile) (i : Invoice)
    → IsTill db
    → IsTill (add_invoice persist written db i).0
unfolding add_invoice trimmed
add-IsTill persist written db i w =
    keep_if-IsTill (admitted db.invoices (trimmed i)) persist written db
      (db.invoices ++ trimmed i ∷ []) w
      (λ h.
        let (fresh, room) = admitted_new db.invoices (trimmed i) h in
        (
          push-AreDistinct db.invoices (trimmed i) w.0 fresh (trim_twice i.reference),
          omega (arith, room, length-append db.invoices (trimmed i ∷ [])),
        ))

close-IsTill :
    (persist written : Bool) (db : WalletFile) (reference note : List ℕ)
    → IsTill db
    → IsTill (close_invoice persist written db reference note).0
unfolding close_invoice
close-IsTill persist written db reference note w =
    keep_if-IsTill (closable db.invoices (trim reference) (trim note)) persist written db
      (close_first (trim reference) (trim note) db.invoices) w
      (λ h. (
        close-AreDistinct (trim reference) (trim note) db.invoices w.0,
        omega (arith, w.1, length-close (trim reference) (trim note) db.invoices),
      ))

remove-IsTill :
    (persist written : Bool) (db : WalletFile) (reference : List ℕ)
    → IsTill db
    → IsTill (remove_invoice persist written db reference).0
unfolding remove_invoice
remove-IsTill persist written db reference w =
    let others = λ (i : Invoice). not (bears (trim reference) i) in
    keep_if-IsTill
      (require (ltb (length (filter others db.invoices)) (length db.invoices)) no_invoice) persist
      written db (filter others db.invoices) w
      (λ h. (
        filter-AreDistinct others db.invoices w.0,
        omega (arith, w.1, length-filter others db.invoices),
      ))

-- One call on the till, whatever its arguments and whether its save succeeds.
pub data Step (db : WalletFile) : WalletFile → Type 0 where
  add :
      (persist written : Bool) (i : Invoice) (after : WalletFile)
      → after ≡ (add_invoice persist written db i).0
      → Step db after
  close :
      (persist written : Bool) (reference note : List ℕ) (after : WalletFile)
      → after ≡ (close_invoice persist written db reference note).0
      → Step db after
  remove :
      (persist written : Bool) (reference : List ℕ) (after : WalletFile)
      → after ≡ (remove_invoice persist written db reference).0
      → Step db after

pub data Reachable : WalletFile → Type 0 where
  start : Reachable default_file
  next : (db after : WalletFile) → Reachable db → Step db after → Reachable after

reachable-IsTill : (db : WalletFile) → Reachable db → IsTill db
reachable-IsTill db start = (tt, omega arith)
reachable-IsTill db (next before after r (add persist written i k e)) =
    rw e (add-IsTill persist written before i (reachable-IsTill before r))
reachable-IsTill db (next before after r (close persist written reference note k e)) =
    rw e (close-IsTill persist written before reference note (reachable-IsTill before r))
reachable-IsTill db (next before after r (remove persist written reference k e)) =
    rw e (remove-IsTill persist written before reference (reachable-IsTill before r))

borne :
    (is : List Invoice) (k : ℕ) (i : Invoice)
    → get_elem? is k ≡ some i
    → any (bears i.reference) is ≡ true
unfolding any bears
borne [] k i h = absurd (ground (arith, h))
borne (j ∷ js) zero i h = ground (arith, h, same_text_refl i.reference, some_inj j i h)
borne (j ∷ js) (suc k) i h = ground (arith, borne js k i h)

alike :
    (i j : Invoice) (p : Incoming)
    → trim i.reference ≡ i.reference
    → trim j.reference ≡ j.reference
    → quotes i p ≡ true
    → quotes j p ≡ true
    → i.reference ≡ j.reference
unfolding quotes
alike i j p ti tj qi qj =
    sym ti
    ∙ sym (same_text_eq (trim p.memo) (trim i.reference) qi)
    ∙ same_text_eq (trim p.memo) (trim j.reference) qj
    ∙ tj

trimmed_at :
    (is : List Invoice) (k : ℕ) (i : Invoice)
    → AreDistinct is
    → get_elem? is k ≡ some i
    → trim i.reference ≡ i.reference
trimmed_at [] k i h e = absurd (ground (arith, e))
trimmed_at (j ∷ js) zero i h e = subst (λ t. trim t.reference ≡ t.reference) (some_inj j i e) h.1
trimmed_at (j ∷ js) (suc k) i h e = trimmed_at js k i h.2 e

twice :
    (l i j : Invoice) (ls : List Invoice) (m : ℕ)
    → ◌≡◌ {A = Option Invoice} (some l) (some i)
    → get_elem? ls m ≡ some j
    → i.reference ≡ j.reference
    → any (bears l.reference) ls ≡ true
twice l i j ls m a b r =
    subst (λ t. any (bears t) ls ≡ true) (sym (ap (λ t. t.reference) (some_inj l i a) ∙ r))
      (borne ls m j b)

same_place :
    (is : List Invoice) (k m : ℕ) (i j : Invoice)
    → AreDistinct is
    → get_elem? is k ≡ some i
    → get_elem? is m ≡ some j
    → i.reference ≡ j.reference
    → k ≡ m
same_place [] k m i j h a b r = absurd (ground (arith, a))
same_place (l ∷ ls) zero zero i j h a b r = refl
same_place (l ∷ ls) zero (suc m) i j h a b r = absurd (ground (arith, h.0, twice l i j ls m a b r))
same_place (l ∷ ls) (suc k) zero i j h a b r =
    absurd (ground (arith, h.0, twice l j i ls k b a (sym r)))
same_place (l ∷ ls) (suc k) (suc m) i j h a b r = ap suc (same_place ls k m i j h.2 a b r)

-- Whatever is written to a new till, closed and removed, in whatever order and whether or not the
-- saves succeed, it holds at most 2,000 invoices, and no payment quotes two of them.
pub quoted_once :
    (db : WalletFile)
    → Reachable db
    → (length db.invoices ≤ 2_000)
      × ((p : Incoming) (k m : ℕ) (i j : Invoice)
          → get_elem? db.invoices k ≡ some i
          → get_elem? db.invoices m ≡ some j
          → quotes i p ≡ true
          → quotes j p ≡ true
          → k ≡ m)
quoted_once db r =
    let (distinct, most) = reachable-IsTill db r in
    (
      most,
      λ p k m i j a b qi qj. same_place db.invoices k m i j distinct a b (
          alike i j p (trimmed_at db.invoices k i distinct a)
            (trimmed_at db.invoices m j distinct b) qi qj),
    )
