-- ===== src/Testkit/Extract.antt =====
-- `AdsExtract` of crates/testkit/src/ads_export.rs: the extract of a run, its control totals, and
-- its reconciliation with a trial balance.
use falkr_lite.Base.{
  ℕ, suc, ◌+◌, ◌-◌, ◌^◌, Bool, true, false, not, Option, none, some, List, [], ◌∷◌, ◌++◌, map,
  length, every, is_empty, min, if◌then◌else◌,
}
use falkr_lite.Base.Text.{Text, codes, eq_text}
use falkr_lite.Base.Map.{Map, text_key, nat_key, lookup, insert, values}
use falkr_lite.Base.KeySet.{collect_keys}
use falkr_lite.Base.Outcome.{Outcome, ok, ok_or, reject_if, ◌>>=◌, ◌>>◌}
use falkr_lite.Decimal.{Arithmetic}
use falkr_lite.Core.Currency.{code}
use falkr_lite.Core.Money.{Money, is_equal}
use falkr_lite.Core.Dimensions.{Uuid}
use falkr_lite.Ledger.{JournalLine, signed_amount}
use falkr_lite.Testkit.Assertions.{
  InvariantViolation, violation, balanced, trial_balance_zero, Checked,
}
use falkr_lite.Testkit.Chart.{ChartOfAccounts}
use falkr_lite.Testkit.Comparison.{compare_balances, amount_or_zero}
use falkr_lite.Testkit.Runner.{Environment, EntryRecord, LedgerRun, unwrap_or, run_trial_balance}
use falkr_lite.Testkit.Export.{
  GlDetailRow, TrialBalanceRow, ControlTotal, AdsExtract, split_period, number_of_label, join_bar,
  chart_row, source_row, business_unit_row,
}

-- `MISSING_AS2401_ATTRIBUTES`
abbrev pub missing_attributes : List Text
missing_attributes =
    codes "approved_by"
    ∷ codes "created_by"
    ∷ codes "entry_date"
    ∷ codes "is_post_close_adjustment"
    ∷ codes "is_topside"
    ∷ codes "posted_by"
    ∷ codes "reversed_by"
    ∷ codes "supporting_document_ref"
    ∷ []

abbrev pub is_debit_row : GlDetailRow → Bool
is_debit_row row = eq_text row.indicator (codes "D")

module _ {D Date : Type 0} ⦃d : Arithmetic D⦄ (env : Environment D Date) where
  abbrev indicator_of : Bool → Text
  indicator_of true = codes "C"
  indicator_of false = codes "D"

  abbrev reversal_id_text : Option Uuid → Text
  reversal_id_text none = []
  reversal_id_text (some id) = env.uuid_text id

  abbrev reversal_mark : Option Uuid → Text
  reversal_mark none = codes "N"
  reversal_mark (some id) = codes "Y"

  -- One row of the detail file: the side is read off the sign of the amount.
  unfoldable pub detail_row :
      LedgerRun D Date → EntryRecord D Date → ℕ → JournalLine D → Money D → GlDetailRow
  detail_row run entry index line signed = record {
    journal_id = entry.journal_id;
    line_number = min (index + 1) (2 ^ 32 - 1);
    header_description = entry.description;
    line_description = entry.description;
    source = entry.source;
    business_unit = entry.entity;
    effective_date = env.date_text entry.effective_date;
    fiscal_year = (split_period run.period).0;
    period = (split_period run.period).1;
    account_number =
        number_of_label (unwrap_or (lookup line.account run.labels) (env.uuid_text line.account));
    amount = env.decimal_text (d.abs signed.amount);
    indicator = indicator_of (d.is_sign_negative signed.amount);
    currency = code signed.currency;
    entered_by = [];
    entered_date = [];
    approved_by = [];
    approved_date = [];
    reversal_indicator = reversal_mark entry.reversal_of;
    reversal_journal_id = reversal_id_text entry.reversal_of;
    source_usage_event_ids = join_bar (map env.uuid_text line.source_usage_event_ids);
  }

  -- The rows of an entry, from a line on.
  unfoldable pub entry_rows :
      LedgerRun D Date → EntryRecord D Date → ℕ → List (JournalLine D) → List GlDetailRow
  entry_rows run entry index [] = []
  entry_rows run entry index (line ∷ lines) =
      let rest = entry_rows run entry (suc index) lines in
      elim (signed_amount line) [
        | none ↦ rest
        | some signed ↦ detail_row run entry index line signed ∷ rest
      ]

  unfoldable pub detail_rows : LedgerRun D Date → List (EntryRecord D Date) → List GlDetailRow
  detail_rows run [] = []
  detail_rows run (entry ∷ entries) = entry_rows run entry 0 entry.lines ++ detail_rows run entries

  unfoldable pub trial_balance_row : LedgerRun D Date → Text × D → TrialBalanceRow
  trial_balance_row run (label, amount) = record {
    business_unit = run.entity;
    account_number = number_of_label label;
    fiscal_year = (split_period run.period).0;
    period = (split_period run.period).1;
    beginning_balance = codes "0";
    ending_balance = env.decimal_text amount;
    currency = code run.currency;
  }

  -- `AdsExtract::from_run`
  unfoldable pub from_run : LedgerRun D Date → ChartOfAccounts → AdsExtract
  from_run run chart = record {
    gl_detail = detail_rows run run.entries;
    trial_balance = map (trial_balance_row run) (run_trial_balance env run);
    chart_of_accounts = map chart_row (values chart.by_code);
    source_listing = map source_row (values chart.sources);
    business_unit_listing = map business_unit_row (values chart.entities);
  }

  -- The loop of `control_total`: the two sums.
  unfoldable pub foot : D → D → List GlDetailRow → Outcome InvariantViolation (D × D)
  foot debits credits [] = ok (debits, credits)
  foot debits credits (row ∷ rows) = do
    amount ← ok_or (env.from_str_exact row.amount) (violation balanced)
    sum ←
        ok_or (d.checked_add (if is_debit_row row then debits else credits) amount)
          (violation balanced)
    foot (if is_debit_row row then sum else debits) (if is_debit_row row then credits else sum) rows

  -- `AdsExtract::control_total`
  unfoldable pub control_total : AdsExtract → Outcome InvariantViolation (ControlTotal D)
  control_total extract = do
    sums ← foot d.zero d.zero extract.gl_detail
    ok (record {
      debits = sums.0;
      credits = sums.1;
      line_count = length extract.gl_detail;
      entry_count = length (collect_keys (map (λ r. r.journal_id) extract.gl_detail) []);
    })

  abbrev pub signed_of_row : GlDetailRow → D → D
  signed_of_row row amount = if is_debit_row row then amount else d.neg amount

  -- The balances that the detail file gives.
  unfoldable pub derive : List GlDetailRow → Map Text D → Outcome InvariantViolation (Map Text D)
  derive [] derived = ok derived
  derive (row ∷ rows) derived = do
    amount ← ok_or (env.from_str_exact row.amount) (violation trial_balance_zero)
    sum ←
        ok_or (d.checked_add (amount_or_zero row.account_number derived) (signed_of_row row amount))
          (violation trial_balance_zero)
    derive rows (insert row.account_number sum derived)

  -- `filter_map` and `collect` over the trial balance file.
  unfoldable pub file_balances : List TrialBalanceRow → Map Text D → Map Text D
  file_balances [] out = out
  file_balances (row ∷ rows) out = elim (env.from_str_exact row.ending_balance) [
    | none ↦ file_balances rows out
    | some amount ↦ file_balances rows (insert row.account_number amount out)
  ]

  -- The expected balances by account number.
  unfoldable pub by_number : Map Text D → Map Text D → Map Text D
  by_number [] out = out
  by_number ((label, amount) ∷ expected) out =
      by_number expected (insert (number_of_label label) amount out)

  -- `AdsExtract::reconcile`
  unfoldable pub reconcile : AdsExtract → Map Text D → Checked
  reconcile extract expected = do
    totals ← control_total extract
    reject_if (not (is_equal (d.cmp totals.debits totals.credits))) (violation balanced)
    derived ← derive extract.gl_detail []
    compare_balances derived (file_balances extract.trial_balance [])
    compare_balances derived (by_number expected [])

-- Whether an attribute is still missing from the rows.
abbrev pub still_missing : List GlDetailRow → Text → Bool
still_missing rows attribute =
    if eq_text attribute (codes "created_by")
    then every (λ r. is_empty r.entered_by) rows
    else if eq_text attribute (codes "approved_by")
    then every (λ r. is_empty r.approved_by) rows
    else if eq_text attribute (codes "entry_date")
    then every (λ r. is_empty r.entered_date) rows
    else true

abbrev pub keep_missing : List GlDetailRow → List Text → List Text
keep_missing rows [] = []
keep_missing rows (attribute ∷ attributes) =
    let rest = keep_missing rows attributes in
    if still_missing rows attribute then attribute ∷ rest else rest

-- `AdsExtract::missing_as2401_attributes`
unfoldable pub missing_as2401_attributes : AdsExtract → List Text
missing_as2401_attributes extract = keep_missing extract.gl_detail missing_attributes
