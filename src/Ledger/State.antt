-- ===== src/Ledger/State.antt =====
-- `LedgerState` and `LedgerAggregate::apply_event` of crates/events/src/ledger.rs. A state is
-- changed by returning the new one; `none` is a panic, when a sum has no representation.
use falkr_lite.Base.{ℕ, Bool, Option, none, some, List, [], ◌∷◌, map, length, if◌then◌else◌}
use falkr_lite.Base.Map.{Map, nat_key, lookup, insert, values, contains_key}
use falkr_lite.Base.Outcome.{ok, err, panic}
use falkr_lite.Decimal.{Arithmetic}
use falkr_lite.Core.Currency.{Currency, eq_currency}
use falkr_lite.Core.Money.{Money, zero_money, checked_add}
use falkr_lite.Core.Dimensions.{Uuid, CapitalizationStatus}
use falkr_lite.Ledger.Line.{
  JournalLine, LedgerEvent, journal_entry_posted, entry_reversed, capitalization_status_changed,
  signed_amount,
}

pub record LedgerState (D : Type 0) : Type 0 where
  pub balances : Map Uuid (Money D)
  pub entries : Map Uuid (List (JournalLine D))
  -- a `BTreeSet`
  pub reversed : Map Uuid (Unit {0})
  pub capitalization : Map Uuid CapitalizationStatus

module _ {D : Type 0} where
  -- `LedgerState::default`
  abbrev pub empty_state : LedgerState D
  empty_state = record { balances = []; entries = []; reversed = []; capitalization = [] }

  unfoldable pub balance : LedgerState D → Uuid → Option (Money D)
  balance s a = lookup a s.balances

  unfoldable pub is_reversed : LedgerState D → Uuid → Bool
  is_reversed s id = contains_key id s.reversed

  unfoldable pub capitalization_status : LedgerState D → Uuid → Option CapitalizationStatus
  capitalization_status s run = lookup run s.capitalization

  unfoldable pub entry_count : LedgerState D → ℕ
  entry_count s = length s.entries

  -- `LedgerAggregate::mirror`
  unfoldable pub mirror_line : JournalLine D → JournalLine D
  mirror_line l = record {
    account = l.account;
    debit = l.credit;
    credit = l.debit;
    source_usage_event_ids = [];
  }

  unfoldable pub mirror : List (JournalLine D) → List (JournalLine D)
  mirror = map mirror_line

module _ {D : Type 0} ⦃d : Arithmetic D⦄ where
  -- One round of the `fold` in `trial_balance`.
  unfoldable pub fold_balance : Option (Money D) → Money D → Option (Money D)
  fold_balance none m = none
  fold_balance (some acc) m = elim (checked_add acc m) [
    | ok next ↦ some next
    | err _ ↦ some acc
    | panic ↦ none
  ]

  unfoldable pub trial_balance_from :
      Currency → Option (Money D) → List (Money D) → Option (Money D)
  trial_balance_from c acc [] = acc
  trial_balance_from c acc (m ∷ ms) =
      trial_balance_from c (if eq_currency m.currency c then fold_balance acc m else acc) ms

  unfoldable pub trial_balance : LedgerState D → Currency → Option (Money D)
  trial_balance s c = trial_balance_from c (some (zero_money c)) (values s.balances)

  -- `self.balances.entry(account).or_insert_with(zero)`
  abbrev pub entry_or_zero : Uuid → Currency → Map Uuid (Money D) → Money D
  entry_or_zero a c b = elim (lookup a b) [ none ↦ zero_money c | some m ↦ m ]

  -- The amount of one line goes to its account. A sum that is refused leaves the entry as it was.
  unfoldable pub add_delta : Uuid → Money D → Map Uuid (Money D) → Option (Map Uuid (Money D))
  add_delta a delta b =
      let entry = entry_or_zero a delta.currency b in
      elim (checked_add entry delta) [
        | ok updated ↦ some (insert a updated b)
        | err _ ↦ some (insert a entry b)
        | panic ↦ none
      ]

  unfoldable pub post_line : JournalLine D → Map Uuid (Money D) → Option (Map Uuid (Money D))
  post_line l b = elim (signed_amount l) [
    | none ↦ some b
    | some delta ↦ add_delta l.account delta b
  ]

  unfoldable pub post_lines :
      List (JournalLine D) → Map Uuid (Money D) → Option (Map Uuid (Money D))
  post_lines [] b = some b
  post_lines (l ∷ ls) b = elim (post_line l b) [ none ↦ none | some b' ↦ post_lines ls b' ]

  -- `LedgerState::post`
  unfoldable pub post : Uuid → List (JournalLine D) → LedgerState D → Option (LedgerState D)
  post id lines s = elim (post_lines lines s.balances) [
    | none ↦ none
    | some b ↦ some (record s { balances = b; entries = insert id lines s.entries })
  ]

  abbrev pub mark_reversed : Uuid → Option (LedgerState D) → Option (LedgerState D)
  mark_reversed id none = none
  mark_reversed id (some s) = some (record s { reversed = insert id tt s.reversed })

  -- `if let Some(original) = state.entries.get(&original_id)`
  abbrev pub post_reversal :
      Uuid → Option (List (JournalLine D)) → LedgerState D → Option (LedgerState D)
  post_reversal reversal_id none s = some s
  post_reversal reversal_id (some original) s = post reversal_id (mirror original) s

  unfoldable pub apply_event : LedgerState D → LedgerEvent D → Option (LedgerState D)
  apply_event s (journal_entry_posted id lines dims posted_at) = post id lines s
  apply_event s (entry_reversed original_id reversal_id reason) =
      mark_reversed original_id (post_reversal reversal_id (lookup original_id s.entries) s)
  apply_event s (capitalization_status_changed run_id from to policy_ref) =
      some (record s { capitalization = insert run_id to s.capitalization })

  -- Replay of a log.
  unfoldable pub apply_events : LedgerState D → List (LedgerEvent D) → Option (LedgerState D)
  apply_events s [] = some s
  apply_events s (e ∷ es) = elim (apply_event s e) [ none ↦ none | some s' ↦ apply_events s' es ]
