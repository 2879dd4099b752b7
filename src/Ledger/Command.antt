-- ===== src/Ledger/Command.antt =====
-- `LedgerAggregate::handle_command` of crates/events/src/ledger.rs. The fresh identifier and the
-- clock are arguments.
use falkr_lite.Base.{ℕ, Bool, true, false, not, Option, none, some, List, [], ◌∷◌, if◌then◌else◌}
use falkr_lite.Base.Map.{nat_key, contains_key}
use falkr_lite.Base.Outcome.{Outcome, ok, err, map_err, reject_if, ◌>>=◌, ◌>>◌}
use falkr_lite.Decimal.{Arithmetic}
use falkr_lite.Core.Money.{Money, zero_money, checked_add, eq_money}
use falkr_lite.Core.Dimensions.{Uuid, CapitalizationStatus, pending_review, eq_status}
use falkr_lite.Ledger.Line.{
  JournalLine, LedgerEvent, journal_entry_posted, entry_reversed, capitalization_status_changed,
  LedgerCommand, post_journal_entry, reverse_entry, change_capitalization_status, LedgerError,
  unbalanced, empty_entry, already_reversed, unknown_entry, capitalization_unchanged,
  currency_mismatch, validate, validate_sides,
}
use falkr_lite.Ledger.State.{LedgerState, is_reversed, capitalization_status}

abbrev pub is_some : {A : Type 0} → Option A → Bool
is_some none = false
is_some (some _) = true

abbrev pub status_or_pending : Option CapitalizationStatus → CapitalizationStatus
status_or_pending none = pending_review
status_or_pending (some s) = s

module _ {D : Type 0} ⦃d : Arithmetic D⦄ where
  unfoldable pub add_sides :
      Money D
      → Money D
      → Uuid
      → Option (Money D)
      → Option (Money D)
      → Outcome (LedgerError D) (Money D × Money D)
  add_sides debits credits account debit credit = do
    amount ← validate_sides account debit credit
    sum ← map_err currency_mismatch (checked_add (if is_some debit then debits else credits) amount)
    ok (if is_some debit then (sum, credits) else (debits, sum))

  -- One round of the loop over the lines, on the totals so far.
  unfoldable pub add_line :
      Money D → Money D → JournalLine D → Outcome (LedgerError D) (Money D × Money D)
  add_line debits credits line = add_sides debits credits line.account line.debit line.credit

  unfoldable pub entry_totals :
      Money D → Money D → List (JournalLine D) → Outcome (LedgerError D) (Money D × Money D)
  entry_totals debits credits [] = ok (debits, credits)
  entry_totals debits credits (line ∷ lines) =
      add_line debits credits line >>= λ t. entry_totals t.0 t.1 lines

  -- The checks of `PostJournalEntry`.
  unfoldable pub check_entry : List (JournalLine D) → Outcome (LedgerError D) (Unit {0})
  check_entry [] = err empty_entry
  check_entry (line ∷ lines) = do
    first ← validate line
    totals ← entry_totals (zero_money first.currency) (zero_money first.currency) (line ∷ lines)
    reject_if (not (eq_money totals.0 totals.1)) (unbalanced totals.0.amount totals.1.amount)

  unfoldable pub handle_command :
      LedgerState D → LedgerCommand D → Uuid → ℕ → Outcome (LedgerError D) (List (LedgerEvent D))
  handle_command s (post_journal_entry lines dims) fresh now = do
    check_entry lines
    ok (journal_entry_posted fresh lines dims now ∷ [])
  handle_command s (reverse_entry original_id reason) fresh now = do
    reject_if (not (contains_key original_id s.entries)) (unknown_entry original_id)
    reject_if (is_reversed s original_id) (already_reversed original_id)
    ok (entry_reversed original_id fresh reason ∷ [])
  handle_command s (change_capitalization_status run_id to policy_ref) fresh now =
      let from = status_or_pending (capitalization_status s run_id) in
      do
        reject_if (eq_status from to) (capitalization_unchanged run_id to)
        ok (capitalization_status_changed run_id from to policy_ref ∷ [])
