-- ===== src/Ledger/History.antt =====
-- Histories of a ledger: commands that are accepted, and the events that they produce, applied.
use falkr_lite.Base.{ℕ, ◌≡◌, Option, none, some, List, All}
use falkr_lite.Base.Map.{nat_key}
use falkr_lite.Base.Outcome.{ok}
use falkr_lite.Decimal.{Arithmetic}
use falkr_lite.Core.Currency.{Currency}
use falkr_lite.Core.Money.{Money}
use falkr_lite.Core.Dimensions.{Uuid}
use falkr_lite.Ledger.Line.{
  JournalLine, LedgerEvent, LedgerCommand, post_journal_entry, reverse_entry,
  change_capitalization_status,
}
use falkr_lite.Ledger.State.{LedgerState, empty_state, apply_events}
use falkr_lite.Ledger.Command.{handle_command}
use falkr_lite.Ledger.Balances.{Denomination}

-- The amounts of a line are in the currency of its account.
abbrev pub AmountIn : {D : Type 0} → Currency → Option (Money D) → Type 0
AmountIn c none = Unit
AmountIn c (some m) = m.currency ≡ c

abbrev pub LineDenominated : {D : Type 0} → Denomination → JournalLine D → Type 0
LineDenominated f l = AmountIn (f l.account) l.debit × AmountIn (f l.account) l.credit

-- A command that posts to each account in that account's currency.
abbrev pub CommandFits : {D : Type 0} → Denomination → LedgerCommand D → Type 0
CommandFits f (post_journal_entry lines dims) = All (LineDenominated f) lines
CommandFits f (reverse_entry id reason) = Unit
CommandFits f (change_capitalization_status run to policy) = Unit

module _ {D : Type 0} ⦃d : Arithmetic D⦄ where
  -- One round of the ledger: a command is accepted, and its events are applied.
  pub data Step (f : Denomination) : LedgerState D → LedgerState D → Type 0 where
    handled :
        (s s' : LedgerState D) (cmd : LedgerCommand D) (fresh : Uuid) (now : ℕ)
        (events : List (LedgerEvent D))
        → CommandFits f cmd
        → handle_command s cmd fresh now ≡ ok events
        → apply_events s events ≡ some s'
        → Step f s s'

  -- The ledgers that a history of such rounds reaches from the empty one.
  pub data Reach (f : Denomination) : LedgerState D → Type 0 where
    start : Reach f empty_state
    next : {s s' : LedgerState D} → Reach f s → Step f s s' → Reach f s'
