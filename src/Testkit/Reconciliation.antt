-- ===== src/Testkit/Reconciliation.antt =====
-- `AdsExtract::reconcile` of crates/testkit/src/ads_export.rs: an extract that reconciles agrees
-- with the expected balances on every account number, line by line.
use falkr_lite.Base.{
  ℕ, suc, ◌≡◌, refl, sym, ap, ◌∙◌, Bool, true, false, not, some, List, [], ◌∷◌, map, map-append,
  inl, inr, Option-cases, Bool-cases, if◌then◌else◌,
}
use falkr_lite.Base.Int.{pos, ◌+ℤ◌, sum_ℤ, sum_ℤ-append, int_laws, parts, +ℤ-zero, zero-+ℤ}
use falkr_lite.Base.Text.{Text, eq_text, eq_text_sound}
use falkr_lite.Base.Map.{Map, text_key, insert, lookup-insert}
use falkr_lite.Base.Outcome.{ok, ok_or, ok_or-eq-ok, >>=-eq-ok, ok-injective, reject_if}
use falkr_lite.Decimal.{Arithmetic, IsExact}
use falkr_lite.Core.Money.{is_equal}
use falkr_lite.Ledger.{JournalLine, signed_amount}
use falkr_lite.Testkit.Assertions.{violation, balanced, trial_balance_zero}
use falkr_lite.Testkit.Chart.{ChartOfAccounts}
use falkr_lite.Testkit.Comparison.{
  amount_or_zero, units_at, units-amount_or_zero, compare_balances, compare_balances_iff,
}
use falkr_lite.Testkit.Runner.{Environment, EntryRecord, LedgerRun}
use falkr_lite.Testkit.Export.{GlDetailRow}
use falkr_lite.Testkit.Extract.{
  is_debit_row, detail_row, entry_rows, detail_rows, from_run, control_total, signed_of_row, derive,
  by_number, file_balances, reconcile,
}
use falkr_lite.Testkit.Footing.{
  ReadsBack, row_units, row_units_at, line_units_at, posted_units_at, exported_number,
  detail_row-units,
}

if_same : {A : Type 0} (b : Bool) (a : A) → (if b then a else a) ≡ a
if_same true a = refl
if_same false a = refl

module _ {D Date : Type 0} ⦃d : Arithmetic D⦄ (x : IsExact d) (env : Environment D Date) where
  units_at-insert :
      (a k : Text) (v : D) (m : Map Text D)
      → units_at x a (insert k v m) ≡ (if eq_text a k then x.units v else units_at x a m)
  units_at-insert a k v m = elim (Bool-cases (eq_text a k)) [
    | inl same ↦ rw (lookup-insert a k v m, same, units_at) refl
    | inr other ↦ rw (lookup-insert a k v m, other, units_at) refl
  ]

  signed_of_row-units :
      (row : GlDetailRow) (amount : D)
      → env.from_str_exact row.amount ≡ some amount
      → x.units (signed_of_row env row amount) ≡ row_units x env row
  signed_of_row-units row amount read = elim (Bool-cases (is_debit_row row)) [
    | inl side ↦ rw (side, read, row_units, signed_of_row) refl
    | inr side ↦ rw (side, read, row_units, signed_of_row) (x.units-neg amount)
  ]

  derive-units :
      (rows : List GlDetailRow) (m : Map Text D) (a : Text) {m' : Map Text D}
      → derive env rows m ≡ ok m'
      → units_at x a m' ≡ units_at x a m +ℤ sum_ℤ (map (row_units_at x env a) rows)
  unfolding derive
  derive-units [] m a h = rw (← ok-injective h) (sym (+ℤ-zero (units_at x a m)))
  derive-units (row ∷ rows) m a h =
      let number = row.account_number in
      let (amount, e, h₁) =
        >>=-eq-ok (ok_or (env.from_str_exact row.amount) (violation trial_balance_zero)) _ h in
      let signed = signed_of_row env row amount in
      let (sum, e', h₂) =
        >>=-eq-ok
          (ok_or (d.checked_add (amount_or_zero number m) signed) (violation trial_balance_zero)) _
          h₁ in
      let val = x.units-checked_add (amount_or_zero number m) signed (ok_or-eq-ok _ _ e') in
      let rest = derive-units rows (insert number sum m) a h₂ in
      let read = signed_of_row-units row amount (ok_or-eq-ok _ _ e) in
      let held = units-amount_or_zero x number m in
      let put = units_at-insert a number sum m in
      elim (Bool-cases (eq_text a number)) [
        | inl same ↦
            let here : units_at x number m ≡ units_at x a m =
              ap (λ k. units_at x k m) (sym (eq_text_sound a number same)) in
            rw (same, row_units_at)
              (omega (
                int_laws,
                parts rest,
                parts val,
                parts read,
                parts held,
                parts here,
                parts (rw same at put),
              ))
        | inr other ↦
            rw (other, row_units_at) (omega (int_laws, parts rest, parts (rw other at put)))
      ]

  entry_rows-units_at :
      (run : LedgerRun D Date) (a : Text) (entry : EntryRecord D Date) (index : ℕ)
      (lines : List (JournalLine D))
      → ReadsBack x env
      → sum_ℤ (map (row_units_at x env a) (entry_rows env run entry index lines))
        ≡ sum_ℤ (map (line_units_at x env run a) lines)
  unfolding entry_rows detail_row
  entry_rows-units_at run a entry index [] reads = refl
  entry_rows-units_at run a entry index (line ∷ lines) reads =
      let rest = entry_rows-units_at run a entry (suc index) lines reads in
      elim (Option-cases (signed_amount line)) [
        | inl neither ↦
            rw (neither, entry_rows)
              (rest
                ∙ rw (if_same (eq_text a (exported_number x env run line)) (pos 0))
                    (sym (zero-+ℤ (sum_ℤ (map (line_units_at x env run a) lines)))))
        | inr (m, one) ↦
            rw (one, entry_rows)
              (rw (detail_row-units x env run entry index line m reads, rest) refl)
      ]

  detail_rows-units_at :
      (run : LedgerRun D Date) (a : Text) (entries : List (EntryRecord D Date))
      → ReadsBack x env
      → sum_ℤ (map (row_units_at x env a) (detail_rows env run entries))
        ≡ posted_units_at x env run a entries
  unfolding detail_rows
  detail_rows-units_at run a [] reads = refl
  detail_rows-units_at run a (e ∷ es) reads =
      let rows = entry_rows env run e 0 e.lines in
      rw (map-append (row_units_at x env a) rows (detail_rows env run es)) (
        sum_ℤ-append (map (row_units_at x env a) rows)
          (map (row_units_at x env a) (detail_rows env run es))
        ∙ rw (entry_rows-units_at run a e 0 e.lines reads, detail_rows-units_at run a es reads)
            refl)

  -- If the extract of a run reconciles, then on every account number the lines that the run posted
  -- sum to exactly the expected balance, and so does what the trial balance file says.
  pub reconcile-from_run :
      (run : LedgerRun D Date) (chart : ChartOfAccounts) (expected : Map Text D)
      → ReadsBack x env
      → reconcile env (from_run env run chart) expected ≡ ok tt
      → (a : Text)
      → (posted_units_at x env run a run.entries ≡ units_at x a (by_number env expected []))
        × (units_at x a (file_balances env (from_run env run chart).trial_balance [])
            ≡ units_at x a (by_number env expected []))
  unfolding reconcile from_run
  reconcile-from_run run chart expected reads h a =
      let extract = from_run env run chart in
      let (totals, _, h₁) = >>=-eq-ok (control_total env extract) _ h in
      let (_, _, h₂) =
        >>=-eq-ok
          (reject_if (not (is_equal (d.cmp totals.debits totals.credits))) (violation balanced)) _
          h₁ in
      let (derived, e, h₃) = >>=-eq-ok (derive env extract.gl_detail []) _ h₂ in
      let (_, files, whole) =
        >>=-eq-ok (compare_balances derived (file_balances env extract.trial_balance [])) _ h₃ in
      let by_file =
        (compare_balances_iff x derived (file_balances env extract.trial_balance [])).0 files a in
      let by_hand = (compare_balances_iff x derived (by_number env expected [])).0 whole a in
      let lines = derive-units extract.gl_detail [] a e in
      let posted = detail_rows-units_at run a run.entries reads in
      (omega (int_laws, parts by_hand, parts lines, parts posted), sym by_file ∙ by_hand)
