-- ===== src/Core/Money/Laws.antt =====
-- What the operations of `Money` return, in units of value: the sums and differences are exact,
-- and amounts of two currencies are never combined.
use falkr_lite.Base.{◌≡◌, refl, ◌≢◌, ◌⊎◌, ◌↔◌, ◌≤◌, true, false, none, some, arith}
use falkr_lite.Base.Int.{ℤ, pos, ◌+ℤ◌, ◌-ℤ◌, ◌≤ℤ◌, abs_ℤ, eq_of_parts}
use falkr_lite.Base.Outcome.{ok, err}
use falkr_lite.Decimal.{Arithmetic, IsExact}
use falkr_lite.Core.Currency.{Currency, eq_currency_sound, eq_currency_refl}
use falkr_lite.Core.Money.Ops.{
  Money, CurrencyMismatch, zero_money, checked_add, checked_sub, checked_cmp, checked_min,
  checked_max, partial_cmp, eq_money, negate,
}

module _ {D : Type 0} ⦃d : Arithmetic D⦄ where
  pub checked_add-amount :
      (a b : Money D) {c : Money D}
      → checked_add a b ≡ ok c
      → (a.currency ≡ b.currency)
        × (c.currency ≡ a.currency)
        × (d.checked_add a.amount b.amount ≡ some c.amount)
  unfolding checked_add
  checked_add-amount a b h = ground (arith, eq_currency_sound a.currency b.currency)

  checked_sub-amount :
      (a b : Money D) {c : Money D}
      → checked_sub a b ≡ ok c
      → (a.currency ≡ b.currency)
        × (c.currency ≡ a.currency)
        × (d.checked_sub a.amount b.amount ≡ some c.amount)
  unfolding checked_sub
  checked_sub-amount a b h = ground (arith, eq_currency_sound a.currency b.currency)

module _ {D : Type 0} ⦃d : Arithmetic D⦄ (x : IsExact d) where
  -- The value of an amount.
  abbrev pub value : Money D → ℤ
  value m = x.units m.amount

  pub checked_add-eq-ok :
      (a b : Money D) {c : Money D}
      → checked_add a b ≡ ok c
      → (a.currency ≡ b.currency) × (c.currency ≡ a.currency) × (value c ≡ value a +ℤ value b)
  checked_add-eq-ok a b h =
      let (same, cur, sum) = checked_add-amount a b h in
      (same, cur, x.units-checked_add a.amount b.amount sum)

  pub currency-zero_money : (c : Currency) → (zero_money {D = D} c).currency ≡ c
  unfolding zero_money
  currency-zero_money c = refl

  pub checked_sub-eq-ok :
      (a b : Money D) {c : Money D}
      → checked_sub a b ≡ ok c
      → (a.currency ≡ b.currency) × (c.currency ≡ a.currency) × (value c ≡ value a -ℤ value b)
  checked_sub-eq-ok a b h =
      let (same, cur, difference) = checked_sub-amount a b h in
      (same, cur, x.units-checked_sub a.amount b.amount difference)

  -- Two amounts of one currency have a sum if its value is in range.
  pub checked_add_total :
      (a b : Money D)
      → a.currency ≡ b.currency
      → abs_ℤ (value a +ℤ value b) ≤ x.limit
      → (c : Money D) × (checked_add a b ≡ ok c)
  unfolding checked_add
  checked_add_total a b same fits =
      let (s, e) = x.checked_add_in_range a.amount b.amount fits in
      (record { amount = s; currency = a.currency }, rw (same, eq_currency_refl b.currency, e) refl)

  pub value-negate : (a : Money D) → value (negate a) ≡ pos 0 -ℤ value a
  unfolding negate
  value-negate a = x.units-neg a.amount

  -- `==` on money decides equality of value and of currency.
  pub eq_money_iff :
      (a b : Money D) → (eq_money a b ≡ true) ↔ ((value a ≡ value b) × (a.currency ≡ b.currency))
  unfolding eq_money
  eq_money_iff a b = (
    ground (
      arith,
      eq_currency_sound a.currency b.currency,
      x.units-cmp a.amount b.amount,
      eq_of_parts (value a) (value b),
    ),
    λ (p, q).
        rw (x.units-cmp a.amount b.amount, p, q) (ground (arith, eq_currency_refl b.currency)),
  )

  -- The smaller of two amounts of one currency is one of the two, and no more than either.
  checked_min-eq-ok :
      (a b : Money D) {m : Money D}
      → checked_min a b ≡ ok m
      → (a.currency ≡ b.currency)
        × ((m ≡ a) ⊎ (m ≡ b))
        × (value m ≤ℤ value a)
        × (value m ≤ℤ value b)
  unfolding checked_min checked_cmp
  checked_min-eq-ok a b h =
      ground (arith, eq_currency_sound a.currency b.currency, x.units-cmp a.amount b.amount)

  -- The larger of two amounts of one currency is one of the two, and no less than either.
  checked_max-eq-ok :
      (a b : Money D) {m : Money D}
      → checked_max a b ≡ ok m
      → (a.currency ≡ b.currency)
        × ((m ≡ a) ⊎ (m ≡ b))
        × (value a ≤ℤ value m)
        × (value b ≤ℤ value m)
  unfolding checked_max checked_cmp
  checked_max-eq-ok a b h =
      ground (arith, eq_currency_sound a.currency b.currency, x.units-cmp a.amount b.amount)

abbrev pub mismatch_of : {D : Type 0} → Money D → Money D → CurrencyMismatch
mismatch_of a b = record { lhs = a.currency; rhs = b.currency }

module _ {D : Type 0} ⦃d : Arithmetic D⦄ where
  -- Amounts of two currencies: every combination is refused with both currencies named, and they
  -- have no order.
  pub mismatch :
      (a b : Money D)
      → a.currency ≢ b.currency
      → let e = mismatch_of a b in
        (checked_add a b ≡ err e)
        × (checked_sub a b ≡ err e)
        × (checked_cmp a b ≡ err e)
        × (checked_min a b ≡ err e)
        × (checked_max a b ≡ err e)
        × (partial_cmp a b ≡ none)
        × (eq_money a b ≡ false)
  unfolding checked_add checked_sub checked_cmp checked_min checked_max partial_cmp eq_money
  mismatch a b h = ground (arith, eq_currency_sound a.currency b.currency)

  -- Only a mismatch is refused.
  pub checked_add-eq-err :
      (a b : Money D) {e : CurrencyMismatch}
      → checked_add a b ≡ err e
      → (a.currency ≢ b.currency) × (e ≡ mismatch_of a b)
  unfolding checked_add
  checked_add-eq-err a b {e} h = ground (arith, eq_currency_refl a.currency)
