-- ===== src/Ledger/Trial.antt =====
-- `LedgerState::trial_balance` returns the sum of the balances of its currency.
use falkr_lite.Base.{
  ◌+◌, ◌≤◌, ◌≡◌, refl, sym, ◌∙◌, none, some, List, [], ◌∷◌, map, arith, inl, inr, true, Bool-cases,
}
use falkr_lite.Base.Int.{
  ◌+ℤ◌, abs_ℤ, sum_ℤ, sum_abs, int_laws, parts, +ℤ-zero, zero-+ℤ, abs_ℤ-+ℤ-le,
}
use falkr_lite.Base.Map.{nat_key, values}
use falkr_lite.Base.MapSum.{sum_ℤ-values}
use falkr_lite.Base.Outcome.{ok, panic, Outcome-cases}
use falkr_lite.Decimal.{Arithmetic, IsExact}
use falkr_lite.Core.Currency.{Currency, eq_currency, eq_currency_sound}
use falkr_lite.Core.Money.{Money, zero_money, checked_add}
use falkr_lite.Core.Money.Laws.{value, checked_add-eq-ok, checked_add-eq-err, checked_add_total}
use falkr_lite.Ledger.State.{LedgerState, fold_balance, trial_balance_from, trial_balance}
use falkr_lite.Ledger.Totals.{contribution, total_in}

module _ {D : Type 0} ⦃d : Arithmetic D⦄ (x : IsExact d) (c : Currency) where
  trial_balance_from-none :
      (ms : List (Money D)) {m : Money D} → ¬ (trial_balance_from c none ms ≡ some m)
  unfolding trial_balance_from fold_balance
  trial_balance_from-none [] h = cc
  trial_balance_from-none (n ∷ ms) h = elim (Bool-cases (eq_currency n.currency c)) [
    | inl same ↦ trial_balance_from-none ms (rw (same, trial_balance_from) at h)
    | inr other ↦ trial_balance_from-none ms (rw (other, trial_balance_from) at h)
  ]

  fold_balance-ok :
      (acc n : Money D) (next : Money D)
      → checked_add acc n ≡ ok next
      → fold_balance (some acc) n ≡ some next
  unfolding fold_balance
  fold_balance-ok acc n next e = rw (e, fold_balance) refl

  fold_balance-panic :
      (acc n : Money D) → checked_add acc n ≡ panic → fold_balance (some acc) n ≡ none
  unfolding fold_balance
  fold_balance-panic acc n e = rw (e, fold_balance) refl

  trial_balance_from-eq-some :
      (acc : Money D) (ms : List (Money D)) {m : Money D}
      → acc.currency ≡ c
      → trial_balance_from c (some acc) ms ≡ some m
      → (m.currency ≡ c) × (value x m ≡ value x acc +ℤ sum_ℤ (map (contribution x c) ms))
  unfolding trial_balance_from
  trial_balance_from-eq-some acc [] e h = ground (arith, +ℤ-zero (value x acc))
  trial_balance_from-eq-some acc (n ∷ ms) e h = elim (Bool-cases (eq_currency n.currency c)) [
    | inr other ↦
        let (cur, val) =
          trial_balance_from-eq-some acc ms e (rw (other, trial_balance_from) at h) in
        (cur, rw other (omega (int_laws, parts val)))
    | inl same ↦ elim (Outcome-cases (checked_add acc n)) [
      | inl (next, added) ↦
          let (_, cur', val') = checked_add-eq-ok x acc n added in
          let (cur, val) =
            trial_balance_from-eq-some next ms (cur' ∙ e)
              (rw (same, fold_balance-ok acc n next added, trial_balance_from) at h) in
          (cur, rw same (omega (int_laws, parts val, parts val')))
      | inr (inl (g, refused)) ↦
          absurd
            ((checked_add-eq-err acc n refused).0 (e ∙ sym (eq_currency_sound n.currency c same)))
      | inr (inr panics) ↦ absurd (
          trial_balance_from-none ms
            (rw (same, fold_balance-panic acc n panics, trial_balance_from) at h))
    ]
  ]

  -- The trial balance is in its currency, and is the exact sum of the balances of that currency.
  pub trial_balance-eq-some :
      (s : LedgerState D) {m : Money D}
      → trial_balance s c ≡ some m
      → (m.currency ≡ c) × (value x m ≡ total_in x c s.balances)
  unfolding trial_balance zero_money
  trial_balance-eq-some s h =
      let (cur, val) = trial_balance_from-eq-some (zero_money c) (values s.balances) refl h in
      (
        cur,
        rw (val, x.units-zero, sum_ℤ-values (contribution x c) s.balances)
            (zero-+ℤ (total_in x c s.balances)),
      )

  trial_balance_from-step :
      (acc n next : Money D) (ms : List (Money D))
      → eq_currency n.currency c ≡ true
      → checked_add acc n ≡ ok next
      → trial_balance_from c (some acc) (n ∷ ms) ≡ trial_balance_from c (some next) ms
  unfolding trial_balance_from
  trial_balance_from-step acc n next ms same added =
      rw (same, fold_balance-ok acc n next added) refl

  trial_balance_from_total :
      (acc : Money D) (ms : List (Money D))
      → acc.currency ≡ c
      → abs_ℤ (value x acc) + sum_abs (map (contribution x c) ms) ≤ x.limit
      → (m : Money D) × (trial_balance_from c (some acc) ms ≡ some m)
  unfolding trial_balance_from
  trial_balance_from_total acc [] e fits = (acc, refl)
  trial_balance_from_total acc (n ∷ ms) e fits = elim (Bool-cases (eq_currency n.currency c)) [
    | inr other ↦
        let (m, h) = trial_balance_from_total acc ms e (omega arith) in
        (m, rw (other, trial_balance_from) h)
    | inl same ↦
        let fits' : abs_ℤ (value x acc) + (abs_ℤ (value x n) + sum_abs (map (contribution x c) ms))
            ≤ x.limit =
          rw same at fits in
        let (next, added) =
          checked_add_total x acc n (e ∙ sym (eq_currency_sound n.currency c same))
            (omega (arith, abs_ℤ-+ℤ-le (value x acc) (value x n))) in
        let (_, cur, val) = checked_add-eq-ok x acc n added in
        let (m, h) =
          trial_balance_from_total next ms (cur ∙ e)
            (omega (arith, parts val, abs_ℤ-+ℤ-le (value x acc) (value x n))) in
        (m, trial_balance_from-step acc n next ms same added ∙ h)
  ]

  -- The trial balance is returned, and no sum overflows, where the balances of its currency are
  -- of magnitudes whose sum is in range.
  pub trial_balance_total :
      (s : LedgerState D)
      → sum_abs (map (contribution x c) (values s.balances)) ≤ x.limit
      → (m : Money D) × (trial_balance s c ≡ some m)
  unfolding trial_balance zero_money
  trial_balance_total s fits =
      trial_balance_from_total (zero_money c) (values s.balances) refl
        (omega (arith, parts x.units-zero))
