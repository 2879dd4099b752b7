-- ===== src/Ledger/Mirror.antt =====
-- The mirror of an entry, and the lines of an entry that keeps to its accounts' currencies.
use falkr_lite.Base.{◌≡◌, ◌≢◌, refl, sym, ◌∙◌, Option, none, some, List, [], ◌∷◌, All}
use falkr_lite.Base.Map.{nat_key}
use falkr_lite.Decimal.{Arithmetic, IsExact}
use falkr_lite.Core.Currency.{Currency}
use falkr_lite.Core.Money.{Money}
use falkr_lite.Ledger.Line.{JournalLine}
use falkr_lite.Ledger.State.{mirror, mirror_line}
use falkr_lite.Ledger.Entry.{SidesIn, LineIn, IsBalanced, debit_total, credit_total}
use falkr_lite.Ledger.Balances.{Denomination, LineFits}
use falkr_lite.Ledger.History.{LineDenominated, AmountIn}

SidesIn-Denominated :
    {D : Type 0} (c k : Currency) (debit credit : Option (Money D))
    → SidesIn c debit credit
    → AmountIn k debit
    → AmountIn k credit
    → SidesIn k debit credit
SidesIn-Denominated c k (some m) none h p q = p
SidesIn-Denominated c k none (some m) h p q = q
SidesIn-Denominated c k (some m) (some n) h p q = h
SidesIn-Denominated c k none none h p q = h

pub LineFits-of_Denominated :
    {D : Type 0} (f : Denomination) (c : Currency) (ls : List (JournalLine D))
    → All (LineIn c) ls
    → All (LineDenominated f) ls
    → All (LineFits f) ls
LineFits-of_Denominated f c [] one den = tt
LineFits-of_Denominated f c (l ∷ ls) one den = (
  SidesIn-Denominated c (f l.account) l.debit l.credit one.0 den.0.0 den.0.1,
  LineFits-of_Denominated f c ls one.1 den.1,
)

SidesIn-swap :
    {D : Type 0} (c : Currency) (debit credit : Option (Money D))
    → SidesIn c debit credit
    → SidesIn c credit debit
SidesIn-swap c (some m) none h = h
SidesIn-swap c none (some m) h = h
SidesIn-swap c (some m) (some n) h = h
SidesIn-swap c none none h = h

mirror-LineIn :
    {D : Type 0} (c : Currency) (ls : List (JournalLine D))
    → All (LineIn c) ls
    → All (LineIn c) (mirror ls)
unfolding mirror mirror_line
mirror-LineIn c [] h = tt
mirror-LineIn c (l ∷ ls) h = (SidesIn-swap c l.debit l.credit h.0, mirror-LineIn c ls h.1)

pub mirror-LineFits :
    {D : Type 0} (f : Denomination) (ls : List (JournalLine D))
    → All (LineFits f) ls
    → All (LineFits f) (mirror ls)
unfolding mirror mirror_line
mirror-LineFits f [] h = tt
mirror-LineFits f (l ∷ ls) h =
    (SidesIn-swap (f l.account) l.debit l.credit h.0, mirror-LineFits f ls h.1)

mirror-ne-nil : {D : Type 0} (ls : List (JournalLine D)) → ls ≢ [] → mirror ls ≢ []
unfolding mirror
mirror-ne-nil [] h = h
mirror-ne-nil (l ∷ ls) h = λ e. cc

module _ {D : Type 0} ⦃d : Arithmetic D⦄ (x : IsExact d) where
  debit_total-mirror : (ls : List (JournalLine D)) → debit_total x (mirror ls) ≡ credit_total x ls
  unfolding mirror mirror_line
  debit_total-mirror [] = refl
  debit_total-mirror (l ∷ ls) = rw (debit_total-mirror ls) refl

  credit_total-mirror : (ls : List (JournalLine D)) → credit_total x (mirror ls) ≡ debit_total x ls
  unfolding mirror mirror_line
  credit_total-mirror [] = refl
  credit_total-mirror (l ∷ ls) = rw (credit_total-mirror ls) refl

  -- The mirror of a balanced entry is balanced.
  pub mirror-IsBalanced : (ls : List (JournalLine D)) → IsBalanced x ls → IsBalanced x (mirror ls)
  mirror-IsBalanced ls (full, (c, one), agree) = (
    mirror-ne-nil ls full,
    (c, mirror-LineIn c ls one),
    debit_total-mirror ls ∙ sym agree ∙ sym (credit_total-mirror ls),
  )
