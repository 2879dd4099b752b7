-- ===== src/Ledger/Balances.antt =====
-- What posting does to the balances: each account moves by the signed lines on it.
use falkr_lite.Base.{
  ◌≡◌, refl, sym, subst, ◌∙◌, Option, none, some, List, [], ◌∷◌, All, arith, inl, inr, Option-cases,
  ◌==◌, if◌then◌else◌,
}
use falkr_lite.Base.Int.{ℤ, pos, ◌+ℤ◌, +ℤ-zero, +ℤ_assoc}
use falkr_lite.Base.Map.{Map, nat_key, lookup, insert, lookup-insert}
use falkr_lite.Base.Outcome.{Outcome-cases}
use falkr_lite.Decimal.{Arithmetic, IsExact}
use falkr_lite.Core.Currency.{Currency}
use falkr_lite.Core.Money.{Money, zero_money, checked_add, negate}
use falkr_lite.Core.Money.Laws.{value, checked_add-eq-ok, checked_add-eq-err}
use falkr_lite.Core.Dimensions.{Uuid}
use falkr_lite.Ledger.Line.{JournalLine, signed_amount, signed_sides}
use falkr_lite.Ledger.State.{entry_or_zero, add_delta, post_line, post_lines}
use falkr_lite.Ledger.Entry.{SidesIn}

-- Which currency each account is kept in. The program has no such table: it is an assumption of
-- the theorems, that every line on an account is in one currency.
abbrev pub Denomination : Type 0
Denomination = Uuid → Currency

-- Every line carries one side, in the currency of its account.
abbrev pub LineFits : {D : Type 0} → Denomination → JournalLine D → Type 0
LineFits f l = SidesIn (f l.account) l.debit l.credit

-- Every balance is in the currency of its account.
abbrev pub BalancesFit : {D : Type 0} → Denomination → Map Uuid (Money D) → Type 0
BalancesFit {D} f b = (a : Uuid) (m : Money D) → lookup a b ≡ some m → m.currency ≡ f a

module _ {D : Type 0} ⦃d : Arithmetic D⦄ (x : IsExact d) where
  -- The balance of an account in units of value, and zero for an account not posted to.
  abbrev pub balance_units : Uuid → Map Uuid (Money D) → ℤ
  balance_units a b = elim (lookup a b) [ none ↦ pos 0 | some m ↦ value x m ]

  abbrev pub signed_units_of : Option (Money D) → ℤ
  signed_units_of none = pos 0
  signed_units_of (some m) = value x m

  -- What a line contributes under the debit-positive convention.
  abbrev pub signed_units : JournalLine D → ℤ
  signed_units l = signed_units_of (signed_amount l)

  -- What the lines contribute to one account.
  abbrev pub account_units : Uuid → List (JournalLine D) → ℤ
  account_units a [] = pos 0
  account_units a (l ∷ ls) =
      (if a == l.account then signed_units l else pos 0) +ℤ account_units a ls

  module _ (f : Denomination) where
    entry_or_zero-Fits :
        (a : Uuid) (c : Currency) (b : Map Uuid (Money D))
        → BalancesFit f b
        → c ≡ f a
        → ((entry_or_zero a c b).currency ≡ f a)
          × (value x (entry_or_zero a c b) ≡ balance_units a b)
    unfolding zero_money
    entry_or_zero-Fits a c b fit e = elim (Option-cases (lookup a b)) [
      | inl absent ↦ ground (arith, x.units-zero)
      | inr (m, present) ↦ ground (arith, fit a m present)
    ]

    -- A line's amount replaces the balance of its account by the sum.
    pub add_delta-inserts :
        (a : Uuid) (delta : Money D) (b b' : Map Uuid (Money D))
        → BalancesFit f b
        → delta.currency ≡ f a
        → add_delta a delta b ≡ some b'
        → (m : Money D) × (b' ≡ insert a m b)
          × (m.currency ≡ f a)
          × (value x m ≡ balance_units a b +ℤ value x delta)
    unfolding add_delta
    add_delta-inserts a delta b b' fit e h =
        let entry = entry_or_zero a delta.currency b in
        let (cur, val) = entry_or_zero-Fits a delta.currency b fit e in
        elim (Outcome-cases (checked_add entry delta)) [
          | inl (m, added) ↦
              let (same, cur', val') = checked_add-eq-ok x entry delta added in
              (m, ground arith, cur' ∙ cur, val' ∙ rw val refl)
          | inr (inl (g, refused)) ↦
              absurd ((checked_add-eq-err entry delta refused).0 (cur ∙ sym e))
          | inr (inr panics) ↦ ground arith
        ]

    -- A posting that began at `b` has ended at `b'`: the balances still fit, and account `k` has
    -- moved by `g k`.
    abbrev pub Moves : Map Uuid (Money D) → (Uuid → ℤ) → Map Uuid (Money D) → Type 0
    Moves b g b' = BalancesFit f b' × ((k : Uuid) → balance_units k b' ≡ balance_units k b +ℤ g k)

    insert-Moves :
        (a : Uuid) (m : Money D) (u : ℤ) (b : Map Uuid (Money D))
        → BalancesFit f b
        → m.currency ≡ f a
        → value x m ≡ balance_units a b +ℤ u
        → Moves b (λ k. if k == a then u else pos 0) (insert a m b)
    insert-Moves a m u b fit cur val = (
      λ k n e. ground (arith, lookup-insert k a m b, fit k n),
      λ k. ground (arith, lookup-insert k a m b, +ℤ-zero (balance_units k b)),
    )

    signed_sides-Fits :
        (c : Currency) (debit credit : Option (Money D))
        → SidesIn c debit credit
        → (m : Money D) × (signed_sides debit credit ≡ some m) × (m.currency ≡ c)
    unfolding negate
    signed_sides-Fits c (some m) none h = (m, refl, h)
    signed_sides-Fits c none (some m) h = (negate m, refl, h)
    signed_sides-Fits c (some m) (some n) h = absurd h
    signed_sides-Fits c none none h = absurd h

    pub post_line-inserts :
        (l : JournalLine D) (b b' : Map Uuid (Money D))
        → BalancesFit f b
        → LineFits f l
        → post_line l b ≡ some b'
        → (m : Money D) × (b' ≡ insert l.account m b)
          × (m.currency ≡ f l.account)
          × (value x m ≡ balance_units l.account b +ℤ signed_units l)
    unfolding post_line signed_amount
    post_line-inserts l b b' fit side h =
        let (delta, e, cur) = signed_sides-Fits (f l.account) l.debit l.credit side in
        let (m, ins, c, v) =
          add_delta-inserts l.account delta b b' fit cur (rw (e, post_line) at h) in
        (m, ins, c, rw e v)

    pub post_line-Moves :
        (l : JournalLine D) (b b' : Map Uuid (Money D))
        → BalancesFit f b
        → LineFits f l
        → post_line l b ≡ some b'
        → Moves b (λ k. if k == l.account then signed_units l else pos 0) b'
    post_line-Moves l b b' fit side h =
        let (m, ins, c, v) = post_line-inserts l b b' fit side h in
        rw ins (insert-Moves l.account m (signed_units l) b fit c v)

    -- Posting lines, each in the currency of its account, moves the balance of every account by
    -- the sum of the signed lines on it, and keeps every balance in its account's currency.
    pub post_lines-Moves :
        (ls : List (JournalLine D)) (b b' : Map Uuid (Money D))
        → BalancesFit f b
        → All (LineFits f) ls
        → post_lines ls b ≡ some b'
        → Moves b (λ k. account_units k ls) b'
    unfolding post_lines
    post_lines-Moves [] b b' fit all h =
        let same : b ≡ b' = cc in
        subst (Moves b (λ k. pos 0)) same (fit, λ k. sym (+ℤ-zero (balance_units k b)))
    post_lines-Moves (l ∷ ls) b b' fit all h = elim (Option-cases (post_line l b)) [
      | inl panics ↦ cc (rw (panics, post_lines) at h)
      | inr (b₁, e) ↦
          let (fit₁, moved₁) = post_line-Moves l b b₁ fit all.0 e in
          let (fit', moved') = post_lines-Moves ls b₁ b' fit₁ all.1 (rw (e, post_lines) at h) in
          (fit', λ k. moved' k ∙ rw (moved₁ k) (+ℤ_assoc (balance_units k b) _ _))
    ]
