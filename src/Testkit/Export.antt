-- ===== src/Testkit/Export.antt =====
-- crates/testkit/src/ads_export.rs: the five files of the extract, without the writing of them.
use falkr_lite.Base.{ℕ, Bool, none, some, List, [], ◌∷◌, ◌++◌}
use falkr_lite.Base.Text.{Text, codes, split_once}
use falkr_lite.Base.Map.{text_key, nat_key}
use falkr_lite.Testkit.Chart.{
  AccountKind, asset, liability, equity, revenue, expense, NormalBalance, debit, credit, Account,
  normal_balance, Source, Entity,
}
use falkr_lite.Testkit.Runner.{unwrap_or}

pub record GlDetailRow : Type 0 where
  pub journal_id : Text
  pub line_number : ℕ
  pub header_description : Text
  pub line_description : Text
  pub source : Text
  pub business_unit : Text
  pub effective_date : Text
  pub fiscal_year : Text
  pub period : Text
  pub account_number : Text
  pub amount : Text
  pub indicator : Text
  pub currency : Text
  pub entered_by : Text
  pub entered_date : Text
  pub approved_by : Text
  pub approved_date : Text
  pub reversal_indicator : Text
  pub reversal_journal_id : Text
  pub source_usage_event_ids : Text

pub record TrialBalanceRow : Type 0 where
  pub business_unit : Text
  pub account_number : Text
  pub fiscal_year : Text
  pub period : Text
  pub beginning_balance : Text
  pub ending_balance : Text
  pub currency : Text

pub record ChartRow : Type 0 where
  pub account_number : Text
  pub account_name : Text
  pub account_type : Text
  pub fs_caption : Text
  pub normal_balance : Text
  pub is_contra : Bool
  pub subledger : Text

pub record SourceRow : Type 0 where
  pub source : Text
  pub description : Text
  pub automated : Bool

pub record BusinessUnitRow : Type 0 where
  pub code : Text
  pub name : Text
  pub parent : Text
  pub functional_currency : Text

pub record ControlTotal (D : Type 0) : Type 0 where
  pub debits : D
  pub credits : D
  pub line_count : ℕ
  pub entry_count : ℕ

pub record AdsExtract : Type 0 where
  pub gl_detail : List GlDetailRow
  pub trial_balance : List TrialBalanceRow
  pub chart_of_accounts : List ChartRow
  pub source_listing : List SourceRow
  pub business_unit_listing : List BusinessUnitRow

unfoldable pub split_period : Text → Text × Text
split_period period = elim (split_once b'-' period) [ none ↦ (period, []) | some halves ↦ halves ]

-- The code in front of the first dash of a label.
abbrev pub number_of_label : Text → Text
number_of_label label = elim (split_once b'-' label) [
  | none ↦ label
  | some (before, after) ↦ before
]

-- `join("|")`
abbrev pub join_bar : List Text → Text
join_bar [] = []
join_bar (s ∷ []) = s
join_bar (s ∷ r ∷ rest) = s ++ (b'|' ∷ join_bar (r ∷ rest))

-- `AccountKind::as_str` and `NormalBalance::as_str` of chart.rs
unfoldable pub kind_str : AccountKind → Text
kind_str asset = codes "asset"
kind_str liability = codes "liability"
kind_str equity = codes "equity"
kind_str revenue = codes "revenue"
kind_str expense = codes "expense"

unfoldable pub side_str : NormalBalance → Text
side_str debit = codes "D"
side_str credit = codes "C"

unfoldable pub chart_row : Account → ChartRow
chart_row a = record {
  account_number = a.code;
  account_name = a.name;
  account_type = kind_str a.kind;
  fs_caption = a.fs_caption;
  normal_balance = side_str (normal_balance a);
  is_contra = a.contra;
  subledger = unwrap_or a.subledger [];
}

unfoldable pub source_row : Source → SourceRow
source_row s = record { source = s.code; description = s.description; automated = s.automated }

unfoldable pub business_unit_row : Entity → BusinessUnitRow
business_unit_row e = record {
  code = e.code;
  name = e.name;
  parent = unwrap_or e.parent [];
  functional_currency = e.functional_ccy;
}
