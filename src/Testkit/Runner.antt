-- ===== src/Testkit/Runner.antt =====
-- crates/testkit/src/runner.rs: scenarios executed against the aggregate. A `RunError` keeps the
-- scenario and the data of its case; a detail, a formatted message, is left out.
use falkr_lite.Base.{
  ℕ, zero, suc, ◌+◌, ◌/◌, ◌%◌, Option, none, some, List, [], ◌∷◌, ◌++◌, map, length, if◌then◌else◌,
  ltb, ◌==◌,
}
use falkr_lite.Base.Text.{Text, codes, eq_text}
use falkr_lite.Base.Map.{Map, nat_key, text_key, lookup, insert}
use falkr_lite.Core.Currency.{Currency}
use falkr_lite.Core.Money.{Money}
use falkr_lite.Core.Dimensions.{Uuid}
use falkr_lite.Ledger.{JournalLine, LedgerEvent, LedgerError, LedgerState}
use falkr_lite.Testkit.Phase.{Phase}
use falkr_lite.Testkit.Chart.{Account}
use falkr_lite.Testkit.Scenario.{ParamError}

-- What the runner and the export take from elsewhere: `Decimal::from_str_exact` and the text of a
-- decimal, the first 16 bytes of a SHA-256, the text of a UUID, the dates of `chrono`, and the fresh
-- identifiers and the clock that the aggregate reads at each operation.
pub record Environment (D Date : Type 0) : Type 0 where
  pub from_str_exact : Text → Option D
  pub decimal_text : D → Text
  pub digest : Text → Uuid
  pub uuid_text : Uuid → Text
  pub parse_date : Text → Option Date
  pub date_text : Date → Text
  pub default_date : Date
  pub fresh : ℕ → Uuid
  pub now : ℕ → ℕ

pub record EntryRecord (D Date : Type 0) : Type 0 where
  pub entry_id : Uuid
  pub entry_ref : Option Text
  pub journal_id : Text
  pub effective_date : Date
  pub description : Text
  pub source : Text
  pub entity : Text
  pub lines : List (JournalLine D)
  pub reversal_of : Option Uuid

pub record LedgerRun (D Date : Type 0) : Type 0 where
  pub scenario_id : Text
  pub entity : Text
  pub book : Text
  pub period : Text
  pub currency : Currency
  pub events : List (LedgerEvent D)
  pub state : LedgerState D
  pub entries : List (EntryRecord D Date)
  pub labels : Map Uuid Text
  pub rejections : List (Text × LedgerError D)

pub data RunOutcome (D Date : Type 0) : Type 0 where
  executed : LedgerRun D Date → RunOutcome D Date
  deferred : Phase → List Text → RunOutcome D Date
  held : Text → RunOutcome D Date

pub data RunError (D : Type 0) : Type 0 where
  param : Text → ParamError → RunError D
  unknown_account : Text → Text → RunError D
  bad_operation : Text → RunError D
  rejected : Text → LedgerError D → RunError D
  expected_rejection : Text → ℕ → RunError D

-- The mutable variables of the loop in `execute`.
pub record Progress (D Date : Type 0) : Type 0 where
  pub state : LedgerState D
  pub events : List (LedgerEvent D)
  pub entries : List (EntryRecord D Date)
  pub labels : Map Uuid Text
  pub rejections : List (Text × LedgerError D)

abbrev pub unwrap_or : {A : Type 0} → Option A → A → A
unwrap_or none a = a
unwrap_or (some b) a = b

-- `Account::label` of chart.rs
unfoldable pub label : Account → Text
label a = a.code ++ (b'-' ∷ a.name)

-- The decimal digits of a number, on fuel.
abbrev pub digits_before : ℕ → ℕ → Text → Text
digits_before zero n rest = rest
digits_before (suc fuel) n rest =
    let longer = digits_before fuel (n / 10) ((b'0' + n % 10) ∷ rest) in
    if n == 0 then rest else longer

abbrev pub pad_to : ℕ → Text → Text
pad_to zero s = s
pad_to (suc k) s = if ltb (length s) (suc k) then b'0' ∷ pad_to k s else s

-- `{index:03}`
unfoldable pub three_digits : ℕ → Text
three_digits n = pad_to 3 (digits_before (suc n) n [])

-- `mirror` of runner.rs
unfoldable pub mirror_lines : {D : Type 0} → List (JournalLine D) → List (JournalLine D)
mirror_lines = map (λ l. record {
  account = l.account;
  debit = l.credit;
  credit = l.debit;
  source_usage_event_ids = [];
})

module _ {D Date : Type 0} where
  -- `entries.iter().find(…)` by reference and by identifier.
  abbrev pub find_ref : Text → List (EntryRecord D Date) → Option (EntryRecord D Date)
  find_ref target [] = none
  find_ref target (e ∷ es) = elim e.entry_ref [
    | none ↦ find_ref target es
    | some r ↦ if eq_text r target then some e else find_ref target es
  ]

  abbrev pub find_entry : Uuid → List (EntryRecord D Date) → Option (EntryRecord D Date)
  find_entry id [] = none
  find_entry id (e ∷ es) = if e.entry_id == id then some e else find_entry id es

-- `LedgerRun::trial_balance`: the labels with their amounts.
unfoldable pub run_balances :
    {D Date : Type 0}
    → Environment D Date
    → LedgerRun D Date
    → Map Uuid (Money D)
    → Map Text D
    → Map Text D
run_balances env run [] out = out
run_balances env run ((id, money) ∷ balances) out =
    run_balances env run balances
      (insert (unwrap_or (lookup id run.labels) (env.uuid_text id)) money.amount out)

unfoldable pub run_trial_balance :
    {D Date : Type 0} → Environment D Date → LedgerRun D Date → Map Text D
run_trial_balance env run = run_balances env run run.state.balances []

module _ {D Date : Type 0} (env : Environment D Date) where
  unfoldable pub stable_uuid : Text → Text → Uuid
  stable_uuid namespace name = env.digest (namespace ++ (0x1f ∷ name))

  -- `runner::account_id`
  unfoldable pub account_id : Text → Uuid
  account_id code = stable_uuid (codes "falkr.corpus.account") code
