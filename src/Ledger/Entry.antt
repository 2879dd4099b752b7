-- ===== src/Ledger/Entry.antt =====
-- Which entries `PostJournalEntry` accepts: exactly the balanced ones.
use falkr_lite.Base.{
  ℕ, ◌+◌, ◌≤◌, ◌≡◌, ◌≢◌, refl, sym, subst, ◌∙◌, true, Option, none, some, List, [], ◌∷◌, All, map,
  arith, not-eq-false,
}
use falkr_lite.Base.Int.{
  ℤ, pos, ◌+ℤ◌, sum_ℤ, abs_ℤ, int_laws, parts, +ℤ-zero, +ℤ_assoc, abs_ℤ-+ℤ-le,
}
use falkr_lite.Base.Outcome.{ok, map_err, >>=-eq-ok, map_err-eq-ok, reject_if-eq-ok, ok-injective}
use falkr_lite.Decimal.{Arithmetic, IsExact}
use falkr_lite.Core.Currency.{Currency}
use falkr_lite.Core.Money.{Money, zero_money, checked_add, eq_money}
use falkr_lite.Core.Money.Laws.{
  value, checked_add-eq-ok, checked_add_total, eq_money_iff, currency-zero_money,
}
use falkr_lite.Core.Dimensions.{Uuid}
use falkr_lite.Ledger.Line.{JournalLine, currency_mismatch, validate, validate_sides}
use falkr_lite.Ledger.Command.{add_sides, add_line, entry_totals, check_entry}

-- A line carries exactly one side, in currency `c`.
abbrev pub SidesIn : {D : Type 0} → Currency → Option (Money D) → Option (Money D) → Type 0
SidesIn c (some m) none = m.currency ≡ c
SidesIn c none (some m) = m.currency ≡ c
SidesIn c (some _) (some _) = ⊥
SidesIn c none none = ⊥

abbrev pub LineIn : {D : Type 0} → Currency → JournalLine D → Type 0
LineIn c l = SidesIn c l.debit l.credit

module _ {D : Type 0} ⦃d : Arithmetic D⦄ (x : IsExact d) where
  abbrev pub side_units : Option (Money D) → ℤ
  side_units none = pos 0
  side_units (some m) = value x m

  abbrev pub debit_total : List (JournalLine D) → ℤ
  debit_total lines = sum_ℤ (map (λ l. side_units l.debit) lines)

  abbrev pub credit_total : List (JournalLine D) → ℤ
  credit_total lines = sum_ℤ (map (λ l. side_units l.credit) lines)

  -- Every line has one side, all are in one currency, and debits equal credits.
  abbrev pub IsBalanced : List (JournalLine D) → Type 0
  IsBalanced lines =
      (lines ≢ [])
      × ((c : Currency) × All (LineIn c) lines)
      × (debit_total lines ≡ credit_total lines)

  -- What one line adds to the totals.
  abbrev Adds :
      Currency
      → Money D
      → Money D
      → Option (Money D)
      → Option (Money D)
      → Money D × Money D
      → Type 0
  Adds c debits credits debit credit t =
      SidesIn c debit credit
      × (t.0.currency ≡ c)
      × (t.1.currency ≡ c)
      × (value x t.0 ≡ value x debits +ℤ side_units debit)
      × (value x t.1 ≡ value x credits +ℤ side_units credit)

  add_sides-Adds :
      (c : Currency) (debits credits : Money D) (a : Uuid) (debit credit : Option (Money D))
      (t : Money D × Money D)
      → add_sides debits credits a debit credit ≡ ok t
      → debits.currency ≡ c
      → credits.currency ≡ c
      → Adds c debits credits debit credit t
  unfolding add_sides
  add_sides-Adds c debits credits a (some m) none t h p q =
      let (s, e, ends) = >>=-eq-ok (map_err currency_mismatch (checked_add debits m)) _ h in
      let (same, cur, val) =
        checked_add-eq-ok x debits m (map_err-eq-ok _ (checked_add debits m) e) in
      subst (Adds c debits credits (some m) none) (ok-injective ends)
        (sym same ∙ p, cur ∙ p, q, val, sym (+ℤ-zero (value x credits)))
  add_sides-Adds c debits credits a none (some m) t h p q =
      let (s, e, ends) = >>=-eq-ok (map_err currency_mismatch (checked_add credits m)) _ h in
      let (same, cur, val) =
        checked_add-eq-ok x credits m (map_err-eq-ok _ (checked_add credits m) e) in
      subst (Adds c debits credits none (some m)) (ok-injective ends)
        (sym same ∙ q, p, cur ∙ q, sym (+ℤ-zero (value x debits)), val)
  add_sides-Adds c debits credits a (some m) (some n) t h p q = cc
  add_sides-Adds c debits credits a none none t h p q = cc

  entry_totals-Adds :
      (c : Currency) (debits credits : Money D) (lines : List (JournalLine D))
      (t : Money D × Money D)
      → entry_totals debits credits lines ≡ ok t
      → debits.currency ≡ c
      → credits.currency ≡ c
      → All (LineIn c) lines
        × (t.0.currency ≡ c)
        × (t.1.currency ≡ c)
        × (value x t.0 ≡ value x debits +ℤ debit_total lines)
        × (value x t.1 ≡ value x credits +ℤ credit_total lines)
  unfolding entry_totals add_line
  entry_totals-Adds c debits credits [] t h p q =
      ground (arith, +ℤ-zero (value x debits), +ℤ-zero (value x credits))
  entry_totals-Adds c debits credits (l ∷ ls) t h p q =
      let (u, e, rest) = >>=-eq-ok (add_line debits credits l) _ h in
      let (side, p', q', dv, cv) =
        add_sides-Adds c debits credits l.account l.debit l.credit u e p q in
      let (all, p₂, q₂, dt, ct) = entry_totals-Adds c u.0 u.1 ls t rest p' q' in
      (
        (side, all),
        p₂,
        q₂,
        rw (dt, dv) (+ℤ_assoc (value x debits) (side_units l.debit) (debit_total ls)),
        rw (ct, cv) (+ℤ_assoc (value x credits) (side_units l.credit) (credit_total ls)),
      )

  totals_agree :
      (c : Currency) (t : Money D × Money D) (a b : ℤ)
      → value x t.0 ≡ value x (zero_money c) +ℤ a
      → value x t.1 ≡ value x (zero_money c) +ℤ b
      → eq_money t.0 t.1 ≡ true
      → a ≡ b
  unfolding zero_money
  totals_agree c t a b p q same =
      let e = ((eq_money_iff x t.0 t.1).0 same).0 in
      omega (int_laws, parts p, parts q, parts e, parts x.units-zero)

  -- An accepted entry is balanced.
  pub check_entry-IsBalanced :
      (lines : List (JournalLine D)) → check_entry lines ≡ ok tt → IsBalanced lines
  unfolding check_entry
  check_entry-IsBalanced [] h = cc
  check_entry-IsBalanced (l ∷ ls) h =
      let (first, v, h₁) = >>=-eq-ok (validate l) _ h in
      let c = first.currency in
      let (t, e, h₂) = >>=-eq-ok (entry_totals (zero_money c) (zero_money c) (l ∷ ls)) _ h₁ in
      let (all, p₂, q₂, dt, ct) =
        entry_totals-Adds c (zero_money c) (zero_money c) (l ∷ ls) t e (currency-zero_money x c)
          (currency-zero_money x c) in
      ((λ n. cc), (c, all), totals_agree c t _ _ dt ct (not-eq-false _ (reject_if-eq-ok _ _ h₂)))

  -- The magnitudes of a list of lines.
  abbrev pub lines_abs : List (JournalLine D) → ℕ
  lines_abs [] = 0
  lines_abs (l ∷ ls) = abs_ℤ (side_units l.debit) + abs_ℤ (side_units l.credit) + lines_abs ls

  -- One line is added where its magnitude is in range.
  add_sides_total :
      (c : Currency) (debits credits : Money D) (a : Uuid) (debit credit : Option (Money D))
      → debits.currency ≡ c
      → credits.currency ≡ c
      → SidesIn c debit credit
      → abs_ℤ (value x debits)
          + abs_ℤ (value x credits)
          + abs_ℤ (side_units debit)
          + abs_ℤ (side_units credit)
        ≤ x.limit
      → (t : Money D × Money D) × (add_sides debits credits a debit credit ≡ ok t)
  unfolding add_sides
  add_sides_total c debits credits a (some m) none p q side fits =
      let (s, e) =
        checked_add_total x debits m (p ∙ sym side)
          (omega (arith, abs_ℤ-+ℤ-le (value x debits) (value x m))) in
      ((s, credits), rw e refl)
  add_sides_total c debits credits a none (some m) p q side fits =
      let (s, e) =
        checked_add_total x credits m (q ∙ sym side)
          (omega (arith, abs_ℤ-+ℤ-le (value x credits) (value x m))) in
      ((debits, s), rw e refl)
  add_sides_total c debits credits a (some m) (some n) p q side fits = absurd side
  add_sides_total c debits credits a none none p q side fits = absurd side

  entry_totals_total :
      (c : Currency) (debits credits : Money D) (lines : List (JournalLine D))
      → debits.currency ≡ c
      → credits.currency ≡ c
      → All (LineIn c) lines
      → abs_ℤ (value x debits) + abs_ℤ (value x credits) + lines_abs lines ≤ x.limit
      → (t : Money D × Money D) × (entry_totals debits credits lines ≡ ok t)
  unfolding entry_totals add_line
  entry_totals_total c debits credits [] p q all fits = ((debits, credits), refl)
  entry_totals_total c debits credits (l ∷ ls) p q all fits =
      let (u, e) =
        add_sides_total c debits credits l.account l.debit l.credit p q all.0 (omega arith) in
      let (side, p', q', dv, cv) =
        add_sides-Adds c debits credits l.account l.debit l.credit u e p q in
      let (t, e') = entry_totals_total c u.0 u.1 ls p' q' all.1 (
        omega (
          arith,
          parts dv,
          parts cv,
          abs_ℤ-+ℤ-le (value x debits) (side_units l.debit),
          abs_ℤ-+ℤ-le (value x credits) (side_units l.credit),
        )) in
      (t, rw e e')

  validate_sides_total :
      (c : Currency) (a : Uuid) (debit credit : Option (Money D))
      → SidesIn c debit credit
      → (m : Money D) × (validate_sides a debit credit ≡ ok m) × (m.currency ≡ c)
  validate_sides_total c a (some m) none h = (m, refl, h)
  validate_sides_total c a none (some m) h = (m, refl, h)
  validate_sides_total c a (some m) (some n) h = absurd h
  validate_sides_total c a none none h = absurd h

  zero_totals_agree :
      (c : Currency) (t : Money D × Money D) {a b : ℤ}
      → a ≡ b
      → t.0.currency ≡ c
      → t.1.currency ≡ c
      → value x t.0 ≡ value x (zero_money c) +ℤ a
      → value x t.1 ≡ value x (zero_money c) +ℤ b
      → eq_money t.0 t.1 ≡ true
  zero_totals_agree c t e p q v w = (eq_money_iff x t.0 t.1).1 (v ∙ rw e refl ∙ sym w, p ∙ sym q)

  zero_abs : (c : Currency) → abs_ℤ (value x (zero_money c)) ≡ 0
  unfolding zero_money
  zero_abs c = omega (arith, parts x.units-zero)

  -- A balanced entry whose magnitudes are in range is accepted: no error, and no panic.
  pub check_entry_total :
      (lines : List (JournalLine D))
      → IsBalanced lines
      → lines_abs lines ≤ x.limit
      → check_entry lines ≡ ok tt
  unfolding check_entry validate
  check_entry_total [] h fits = absurd (h.0 refl)
  check_entry_total (l ∷ ls) (_, (c, all), agree) fits =
      let (m, v, cur) = validate_sides_total c l.account l.debit l.credit all.0 in
      let z = zero_money m.currency in
      let zc = currency-zero_money x m.currency in
      let all' = subst (λ c. All (LineIn c) (l ∷ ls)) (sym cur) all in
      let (t, e) =
        entry_totals_total m.currency z z (l ∷ ls) zc zc all'
          (omega (arith, zero_abs m.currency, fits)) in
      let (_, p, q, dt, ct) = entry_totals-Adds m.currency z z (l ∷ ls) t e zc zc in
      rw v (rw e (rw (zero_totals_agree m.currency t agree p q dt ct) refl))
