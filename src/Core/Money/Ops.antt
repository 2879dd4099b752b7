-- ===== src/Core/Money/Ops.antt =====
-- `Money` of crates/core/src/money.rs: an exact amount in one currency. `self.amount + …` and its
-- like panic where the decimal has no representation.
use falkr_lite.Base.{
  ℕ, Bool, true, false, not, ◌&&◌, Option, none, some, List, [], ◌∷◌, Ordering, if◌then◌else◌,
}
use falkr_lite.Base.Outcome.{Outcome, ok, err, or_panic, ◌>>=◌, ◌>>◌}
use falkr_lite.Decimal.{Arithmetic}
use falkr_lite.Core.Currency.{Currency, eq_currency, minor_units}

pub record CurrencyMismatch : Type 0 where
  pub lhs : Currency
  pub rhs : Currency

pub record Money (D : Type 0) : Type 0 where
  pub amount : D
  pub currency : Currency

abbrev pub is_greater : Ordering → Bool
is_greater Ordering.gt = true
is_greater _ = false

abbrev pub is_less : Ordering → Bool
is_less Ordering.lt = true
is_less _ = false

abbrev pub is_equal : Ordering → Bool
is_equal Ordering.eq = true
is_equal _ = false

module _ {D : Type 0} where
  same_currency : Money D → Money D → Outcome CurrencyMismatch (Unit {0})
  same_currency a b =
      if eq_currency a.currency b.currency
      then ok tt
      else err (record { lhs = a.currency; rhs = b.currency })

module _ {D : Type 0} ⦃d : Arithmetic D⦄ where
  -- `Money::zero`
  unfoldable pub zero_money : Currency → Money D
  zero_money c = record { amount = d.zero; currency = c }

  unfoldable pub is_zero : Money D → Bool
  is_zero m = d.is_zero m.amount

  unfoldable pub is_negative : Money D → Bool
  is_negative m = d.is_sign_negative m.amount && not (d.is_zero m.amount)

  -- The derived `PartialEq`: decimals are equal when they compare as equal.
  unfoldable pub eq_money : Money D → Money D → Bool
  eq_money a b = is_equal (d.cmp a.amount b.amount) && eq_currency a.currency b.currency

  unfoldable pub checked_add : Money D → Money D → Outcome CurrencyMismatch (Money D)
  unfolding same_currency
  checked_add a b = do
    same_currency a b
    sum ← or_panic (d.checked_add a.amount b.amount)
    ok (record { amount = sum; currency = a.currency })

  unfoldable pub checked_sub : Money D → Money D → Outcome CurrencyMismatch (Money D)
  unfolding same_currency
  checked_sub a b = do
    same_currency a b
    difference ← or_panic (d.checked_sub a.amount b.amount)
    ok (record { amount = difference; currency = a.currency })

  unfoldable pub checked_cmp : Money D → Money D → Outcome CurrencyMismatch Ordering
  unfolding same_currency
  checked_cmp a b = do same_currency a b; ok (d.cmp a.amount b.amount)

  unfoldable pub checked_min : Money D → Money D → Outcome CurrencyMismatch (Money D)
  unfolding checked_cmp
  checked_min a b = do order ← checked_cmp a b; ok (if is_greater order then b else a)

  unfoldable pub checked_max : Money D → Money D → Outcome CurrencyMismatch (Money D)
  unfolding checked_cmp
  checked_max a b = do order ← checked_cmp a b; ok (if is_less order then b else a)

  -- `PartialOrd::partial_cmp`
  unfoldable pub partial_cmp : Money D → Money D → Option Ordering
  partial_cmp a b =
      if eq_currency a.currency b.currency then some (d.cmp a.amount b.amount) else none

  unfoldable pub scale : Money D → D → Outcome CurrencyMismatch (Money D)
  scale m factor = do
    product ← or_panic (d.checked_mul m.amount factor)
    ok (record { amount = product; currency = m.currency })

  unfoldable pub negate : Money D → Money D
  negate m = record { amount = d.neg m.amount; currency = m.currency }

  unfoldable pub round_dp : ℕ → Money D → Money D
  round_dp dp m = record { amount = d.round_dp dp m.amount; currency = m.currency }

  unfoldable pub round_to_minor_units : Money D → Money D
  unfolding round_dp minor_units
  round_to_minor_units m = round_dp (minor_units m.currency) m

  -- The `try_fold` of `try_sum`.
  unfoldable pub try_sum_from : Money D → List (Money D) → Outcome CurrencyMismatch (Money D)
  unfolding checked_add
  try_sum_from acc [] = ok acc
  try_sum_from acc (item ∷ items) = checked_add acc item >>= λ next. try_sum_from next items

  unfoldable pub try_sum : List (Money D) → Currency → Outcome CurrencyMismatch (Money D)
  unfolding try_sum_from zero_money
  try_sum items c = try_sum_from (zero_money c) items
