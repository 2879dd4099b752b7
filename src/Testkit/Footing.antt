-- ===== src/Testkit/Footing.antt =====
-- The extract of crates/testkit/src/ads_export.rs against the lines that were posted: its control
-- totals and the balances that it reconciles are sums over those lines.
use falkr_lite.Base.{
  ℕ, suc, ◌≡◌, refl, sym, ◌∙◌, Bool, true, false, Option, none, some, List, [], ◌∷◌, map,
  map-append, inl, inr, Option-cases, Bool-cases, if◌then◌else◌,
}
use falkr_lite.Base.Int.{
  ℤ, pos, ◌+ℤ◌, ◌-ℤ◌, sum_ℤ, sum_ℤ-append, abs_ℤ_of_le, abs_ℤ_of_not_lt, int_laws, parts, +ℤ-zero,
  zero-+ℤ,
}
use falkr_lite.Base.Text.{Text, eq_text}
use falkr_lite.Base.Map.{text_key, nat_key, lookup}
use falkr_lite.Base.Outcome.{ok, ok_or, ok_or-eq-ok, >>=-eq-ok, ok-injective}
use falkr_lite.Decimal.{Arithmetic, IsExact}
use falkr_lite.Core.Money.{Money}
use falkr_lite.Ledger.{JournalLine, signed_amount}
use falkr_lite.Ledger.Balances.{signed_units}
use falkr_lite.Testkit.Assertions.{violation, balanced}
use falkr_lite.Testkit.Chart.{ChartOfAccounts}
use falkr_lite.Testkit.Runner.{Environment, EntryRecord, LedgerRun, unwrap_or}
use falkr_lite.Testkit.Export.{GlDetailRow, ControlTotal, number_of_label}
use falkr_lite.Testkit.Extract.{
  is_debit_row, detail_row, entry_rows, detail_rows, from_run, foot, control_total,
}

module _ {D Date : Type 0} ⦃d : Arithmetic D⦄ (x : IsExact d) (env : Environment D Date) where
  -- `from_str_exact` reads the text of a decimal back, as a decimal of the same value.
  abbrev pub ReadsBack : Type 0
  ReadsBack =
      (a : D)
      → (b : D) × (env.from_str_exact (env.decimal_text a) ≡ some b) × (x.units b ≡ x.units a)

  abbrev pub value_of : Bool → Option D → ℤ
  value_of side none = pos 0
  value_of true (some a) = x.units a
  value_of false (some a) = pos 0 -ℤ x.units a

  -- A row under the debit-positive convention.
  abbrev pub row_units : GlDetailRow → ℤ
  row_units row = value_of (is_debit_row row) (env.from_str_exact row.amount)

  foot-sums :
      (debits credits : D) (rows : List GlDetailRow) {s : D × D}
      → foot env debits credits rows ≡ ok s
      → x.units s.0 -ℤ x.units s.1
        ≡ (x.units debits -ℤ x.units credits) +ℤ sum_ℤ (map row_units rows)
  unfolding foot
  foot-sums debits credits [] h =
      rw (← ok-injective h) (sym (+ℤ-zero (x.units debits -ℤ x.units credits)))
  foot-sums debits credits (row ∷ rows) h =
      let (a, e, h₁) = >>=-eq-ok (ok_or (env.from_str_exact row.amount) (violation balanced)) _ h in
      let (sum, e', h₂) =
        >>=-eq-ok
          (ok_or (d.checked_add (if is_debit_row row then debits else credits) a)
            (violation balanced))
          _ h₁ in
      let read = ok_or-eq-ok _ _ e in
      let val =
        x.units-checked_add (if is_debit_row row then debits else credits) a (ok_or-eq-ok _ _ e') in
      elim (Bool-cases (is_debit_row row)) [
        | inl side ↦
            let rest = foot-sums sum credits rows (rw side at h₂) in
            let val' = rw side at val in rw (read, side) (omega (int_laws, parts rest, parts val'))
        | inr side ↦
            let rest = foot-sums debits sum rows (rw side at h₂) in
            let val' = rw side at val in rw (read, side) (omega (int_laws, parts rest, parts val'))
      ]

  pub detail_row-units :
      (run : LedgerRun D Date) (entry : EntryRecord D Date) (index : ℕ) (line : JournalLine D)
      (signed : Money D)
      → ReadsBack
      → row_units (detail_row env run entry index line signed) ≡ x.units signed.amount
  unfolding detail_row
  detail_row-units run entry index line signed reads =
      let a = signed.amount in
      let (b, read, same) = reads (d.abs a) in
      let size = x.units-abs a in
      elim (Bool-cases (d.is_sign_negative a)) [
        | inl negative ↦
            let sign = abs_ℤ_of_le (x.units a) (x.is_sign_negative-le a negative) in
            rw (negative, read) (omega (int_laws, sign, parts same, parts size))
        | inr other ↦
            let sign =
              abs_ℤ_of_not_lt (x.units a) (λ lt. cc (x.is_sign_negative-of_lt a lt, other)) in
            rw (other, read) (omega (int_laws, sign, parts same, parts size))
      ]

  -- What a row adds to the balance of one account number.
  abbrev pub row_units_at : Text → GlDetailRow → ℤ
  row_units_at a row = if eq_text a row.account_number then row_units row else pos 0

  -- The account number that a line is exported under.
  abbrev pub exported_number : LedgerRun D Date → JournalLine D → Text
  exported_number run l =
      number_of_label (unwrap_or (lookup l.account run.labels) (env.uuid_text l.account))

  abbrev pub line_units_at : LedgerRun D Date → Text → JournalLine D → ℤ
  line_units_at run a l = if eq_text a (exported_number run l) then signed_units x l else pos 0

  -- The signed lines of the entries, in all, and on one account number.
  abbrev pub posted_units : List (EntryRecord D Date) → ℤ
  posted_units [] = pos 0
  posted_units (e ∷ es) = sum_ℤ (map (signed_units x) e.lines) +ℤ posted_units es

  abbrev pub posted_units_at : LedgerRun D Date → Text → List (EntryRecord D Date) → ℤ
  posted_units_at run a [] = pos 0
  posted_units_at run a (e ∷ es) =
      sum_ℤ (map (line_units_at run a) e.lines) +ℤ posted_units_at run a es

  entry_rows-units :
      (run : LedgerRun D Date) (entry : EntryRecord D Date) (index : ℕ)
      (lines : List (JournalLine D))
      → ReadsBack
      → sum_ℤ (map row_units (entry_rows env run entry index lines))
        ≡ sum_ℤ (map (signed_units x) lines)
  unfolding entry_rows
  entry_rows-units run entry index [] reads = refl
  entry_rows-units run entry index (line ∷ lines) reads =
      let rest = entry_rows-units run entry (suc index) lines reads in
      elim (Option-cases (signed_amount line)) [
        | inl neither ↦
            rw (neither, entry_rows) (rest ∙ sym (zero-+ℤ (sum_ℤ (map (signed_units x) lines))))
        | inr (m, one) ↦
            rw (one, entry_rows) (rw (detail_row-units run entry index line m reads, rest) refl)
      ]

  detail_rows-units :
      (run : LedgerRun D Date) (entries : List (EntryRecord D Date))
      → ReadsBack
      → sum_ℤ (map row_units (detail_rows env run entries)) ≡ posted_units entries
  unfolding detail_rows
  detail_rows-units run [] reads = refl
  detail_rows-units run (e ∷ es) reads =
      rw (map-append row_units (entry_rows env run e 0 e.lines) (detail_rows env run es)) (
        sum_ℤ-append (map row_units (entry_rows env run e 0 e.lines))
          (map row_units (detail_rows env run es))
        ∙ rw (entry_rows-units run e 0 e.lines reads, detail_rows-units run es reads) refl)

  -- The control totals of the extract of a run differ by exactly the signed lines of its entries:
  -- debits equal credits in the extract where the posted lines net to zero.
  pub control_total-from_run :
      (run : LedgerRun D Date) (chart : ChartOfAccounts) {totals : ControlTotal D}
      → ReadsBack
      → control_total env (from_run env run chart) ≡ ok totals
      → x.units totals.debits -ℤ x.units totals.credits ≡ posted_units run.entries
  unfolding control_total from_run
  control_total-from_run run chart reads h =
      let (sums, e, h') =
        >>=-eq-ok (foot env d.zero d.zero (detail_rows env run run.entries)) _ h in
      let footed = foot-sums d.zero d.zero (detail_rows env run run.entries) e in
      rw (← ok-injective h') (
        omega (
          int_laws,
          parts footed,
          parts (detail_rows-units run run.entries reads),
          parts x.units-zero,
        ))
