-- ===== src/Ledger/Line.antt =====
-- Journal lines, events, commands and errors of crates/events/src/ledger.rs. Times are numbers.
use falkr_lite.Base.{ℕ, Option, none, some, List, []}
use falkr_lite.Base.Text.{Text}
use falkr_lite.Base.Outcome.{Outcome, ok, err}
use falkr_lite.Decimal.{Arithmetic}
use falkr_lite.Core.Money.{Money, CurrencyMismatch, negate}
use falkr_lite.Core.Dimensions.{Uuid, Dimensions, CapitalizationStatus}

pub record JournalLine (D : Type 0) : Type 0 where
  pub account : Uuid
  pub debit : Option (Money D)
  pub credit : Option (Money D)
  pub source_usage_event_ids : List Uuid

pub data LedgerEvent (D : Type 0) : Type 0 where
  -- id, lines, dims, posted_at
  journal_entry_posted : Uuid → List (JournalLine D) → Dimensions → ℕ → LedgerEvent D
  -- original_id, reversal_id, reason
  entry_reversed : Uuid → Uuid → Text → LedgerEvent D
  -- run_id, from, to, policy_ref
  capitalization_status_changed :
      Uuid → CapitalizationStatus → CapitalizationStatus → Uuid → LedgerEvent D

pub data LedgerCommand (D : Type 0) : Type 0 where
  post_journal_entry : List (JournalLine D) → Dimensions → LedgerCommand D
  reverse_entry : Uuid → Text → LedgerCommand D
  change_capitalization_status : Uuid → CapitalizationStatus → Uuid → LedgerCommand D

pub data LedgerError (D : Type 0) : Type 0 where
  unbalanced : D → D → LedgerError D
  empty_entry : LedgerError D
  line_has_both_sides : Uuid → LedgerError D
  line_has_no_amount : Uuid → LedgerError D
  already_reversed : Uuid → LedgerError D
  unknown_entry : Uuid → LedgerError D
  capitalization_unchanged : Uuid → CapitalizationStatus → LedgerError D
  currency_mismatch : CurrencyMismatch → LedgerError D

module _ {D : Type 0} where
  -- `JournalLine::debit`
  unfoldable pub debit_line : Uuid → Money D → JournalLine D
  debit_line a m = record {
    account = a;
    debit = some m;
    credit = none;
    source_usage_event_ids = [];
  }

  -- `JournalLine::credit`
  unfoldable pub credit_line : Uuid → Money D → JournalLine D
  credit_line a m = record {
    account = a;
    debit = none;
    credit = some m;
    source_usage_event_ids = [];
  }

  unfoldable pub with_sources : JournalLine D → List Uuid → JournalLine D
  with_sources l sources = record l { source_usage_event_ids = sources }

  abbrev pub validate_sides :
      Uuid → Option (Money D) → Option (Money D) → Outcome (LedgerError D) (Money D)
  validate_sides a (some m) none = ok m
  validate_sides a none (some m) = ok m
  validate_sides a (some m) (some n) = err (line_has_both_sides a)
  validate_sides a none none = err (line_has_no_amount a)

  unfoldable pub validate : JournalLine D → Outcome (LedgerError D) (Money D)
  validate l = validate_sides l.account l.debit l.credit

module _ {D : Type 0} ⦃d : Arithmetic D⦄ where
  abbrev pub signed_sides : Option (Money D) → Option (Money D) → Option (Money D)
  signed_sides (some m) none = some m
  signed_sides none (some m) = some (negate m)
  signed_sides (some m) (some n) = none
  signed_sides none none = none

  unfoldable pub signed_amount : JournalLine D → Option (Money D)
  signed_amount l = signed_sides l.debit l.credit
