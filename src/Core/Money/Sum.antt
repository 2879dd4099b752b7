-- ===== src/Core/Money/Sum.antt =====
-- `Money::try_sum`: the sum of a list of amounts that share a currency.
use falkr_lite.Base.{
  ℕ, ◌+◌, ◌≤◌, ◌≡◌, refl, inl, inr, List, [], ◌∷◌, All, map, arith, sym, subst, ◌∙◌,
}
use falkr_lite.Base.Int.{
  ℤ, ◌+ℤ◌, abs_ℤ, abs_ℤ-+ℤ-le, sum_ℤ, sum_abs, parts, +ℤ-zero, +ℤ_assoc, zero-+ℤ,
}
use falkr_lite.Base.Outcome.{ok, err, >>=-eq-ok, Outcome-cases}
use falkr_lite.Decimal.{Arithmetic, IsExact}
use falkr_lite.Core.Currency.{Currency}
use falkr_lite.Core.Money.Ops.{
  Money, CurrencyMismatch, zero_money, checked_add, try_sum_from, try_sum,
}
use falkr_lite.Core.Money.Laws.{value, checked_add-eq-ok, checked_add_total, checked_add-eq-err}

-- Every amount is in one currency.
abbrev pub AllIn : {D : Type 0} → Currency → List (Money D) → Type 0
AllIn c = All (λ m. m.currency ≡ c)

module _ {D : Type 0} ⦃d : Arithmetic D⦄ (x : IsExact d) where
  abbrev pub total : List (Money D) → ℤ
  total items = sum_ℤ (map (value x) items)

  abbrev pub total_abs : List (Money D) → ℕ
  total_abs items = sum_abs (map (value x) items)

  try_sum_from-eq-ok :
      (acc : Money D) (items : List (Money D)) {m : Money D}
      → try_sum_from acc items ≡ ok m
      → AllIn acc.currency items
        × (m.currency ≡ acc.currency)
        × (value x m ≡ value x acc +ℤ total items)
  unfolding try_sum_from
  try_sum_from-eq-ok acc [] h = ground (arith, +ℤ-zero (value x acc))
  try_sum_from-eq-ok acc (item ∷ items) h =
      let (next, added, rest) = >>=-eq-ok (checked_add acc item) _ h in
      let (same, cur, val) = checked_add-eq-ok x acc item added in
      let (all, cur', val') = try_sum_from-eq-ok next items rest in
      (
        (sym same, subst (λ c. AllIn c items) cur all),
        cur' ∙ cur,
        rw (val', val) (+ℤ_assoc (value x acc) (value x item) (total items)),
      )

  -- Where the magnitudes are in range, a sum of amounts of one currency is made.
  try_sum_from_total :
      (acc : Money D) (items : List (Money D))
      → abs_ℤ (value x acc) + total_abs items ≤ x.limit
      → AllIn acc.currency items
      → (m : Money D) × (try_sum_from acc items ≡ ok m)
  unfolding try_sum_from
  try_sum_from_total acc [] fits all = (acc, refl)
  try_sum_from_total acc (item ∷ items) fits all =
      let (next, e) =
        checked_add_total x acc item (sym all.0)
          (omega (arith, abs_ℤ-+ℤ-le (value x acc) (value x item))) in
      let (same, cur, val) = checked_add-eq-ok x acc item e in
      let (m, e') =
        try_sum_from_total next items
          (omega (arith, parts val, abs_ℤ-+ℤ-le (value x acc) (value x item)))
          (subst (λ c. AllIn c items) (sym cur) all.1) in
      (m, rw e e')

  -- A sum that is returned is of amounts in the given currency, and is their exact total.
  pub try_sum-eq-ok :
      (items : List (Money D)) (c : Currency) {m : Money D}
      → try_sum items c ≡ ok m
      → AllIn c items × (m.currency ≡ c) × (value x m ≡ total items)
  unfolding try_sum zero_money
  try_sum-eq-ok items c h =
      let (all, cur, val) = try_sum_from-eq-ok (zero_money c) items h in
      (all, cur, rw (val, x.units-zero) (zero-+ℤ (total items)))

  -- Amounts in the given currency, of magnitudes that are in range, have a sum.
  try_sum_total :
      (items : List (Money D)) (c : Currency)
      → total_abs items ≤ x.limit
      → AllIn c items
      → (m : Money D) × (try_sum items c ≡ ok m)
  unfolding try_sum zero_money
  try_sum_total items c fits all =
      try_sum_from_total (zero_money c) items (omega (arith, parts x.units-zero)) all

  -- An error names the currency asked for, and an amount of the list has another one.
  try_sum_from-eq-err :
      (acc : Money D) (items : List (Money D)) {e : CurrencyMismatch}
      → try_sum_from acc items ≡ err e
      → (e.lhs ≡ acc.currency) × ¬ AllIn acc.currency items
  unfolding try_sum_from
  try_sum_from-eq-err acc [] h = cc
  try_sum_from-eq-err acc (item ∷ items) {e} h = elim (Outcome-cases (checked_add acc item)) [
    | inl (next, added) ↦
        let (same, cur, val) = checked_add-eq-ok x acc item added in
        let (named, other) = try_sum_from-eq-err next items (rw added at h) in
        (named ∙ cur, λ all. other (subst (λ c. AllIn c items) (sym cur) all.1))
    | inr (inl (f, refused)) ↦
        let (other, named) = checked_add-eq-err acc item refused in
        (cc (rw refused at h), λ all. other (sym all.0))
    | inr (inr panics) ↦ cc (rw panics at h)
  ]

  -- A sum is refused only where an amount is in another currency than the one asked for, which is
  -- the first currency that the error names.
  try_sum-eq-err :
      (items : List (Money D)) (c : Currency) {e : CurrencyMismatch}
      → try_sum items c ≡ err e
      → (e.lhs ≡ c) × ¬ AllIn c items
  unfolding try_sum zero_money
  try_sum-eq-err items c h = try_sum_from-eq-err (zero_money c) items h
