-- ===== src/Testkit/Assertions.antt =====
-- Assertions of crates/testkit/src/assertions.rs that need no chart of accounts. A violation
-- carries the invariant; its detail, a formatted message, is left out.
use falkr_lite.Base.{ℕ, Bool, not, Option, List, [], ◌∷◌, any, length, ltb, ◌==◌, if◌then◌else◌}
use falkr_lite.Base.Int.{ℤ, ltb_ℤ}
use falkr_lite.Base.Text.{Text}
use falkr_lite.Base.Map.{Map, values}
use falkr_lite.Base.Outcome.{Outcome, ok, err, ok_or, map_err, reject_if, ◌>>=◌, ◌>>◌}
use falkr_lite.Decimal.{Arithmetic}
use falkr_lite.Core.Currency.{Currency, eq_currency}
use falkr_lite.Core.Money.{Money, checked_sub, is_zero}
use falkr_lite.Ledger.{
  JournalLine, LedgerEvent, signed_amount, LedgerState, empty_state, apply_events,
}

pub data Invariant : Type 0 where
  balanced idempotent deterministic_replay negative_balance currency_isolation trial_balance_zero
        subledger_ties roll_forward closed_period_immutable consolidation_complete :
      Invariant

-- `Invariant::number`
unfoldable pub number : Invariant → ℕ
number balanced = 1
number idempotent = 2
number deterministic_replay = 3
number negative_balance = 4
number currency_isolation = 5
number trial_balance_zero = 6
number subledger_ties = 7
number roll_forward = 8
number closed_period_immutable = 9
number consolidation_complete = 10

pub record InvariantViolation : Type 0 where
  pub invariant : Invariant

abbrev pub violation : Invariant → InvariantViolation
violation i = record { invariant = i }

abbrev pub Checked : Type 0
Checked = Outcome InvariantViolation (Unit {0})

-- The loop of `assert_monotonic_sequence`, over the pairs of neighbours.
unfoldable pub assert_monotonic_sequence : List ℤ → Checked
assert_monotonic_sequence [] = ok tt
assert_monotonic_sequence (previous ∷ []) = ok tt
assert_monotonic_sequence (previous ∷ next ∷ rest) = do
  reject_if (not (ltb_ℤ previous next)) (violation deterministic_replay)
  assert_monotonic_sequence (next ∷ rest)

unfoldable pub assert_single_event_for_key : Text → ℕ → Checked
assert_single_event_for_key key persisted = reject_if (not (persisted == 1)) (violation idempotent)

pub record MutationAttempt : Type 0 where
  pub entry_point : Text
  pub rejected : Bool

unfoldable pub all_rejected : List MutationAttempt → Checked
all_rejected [] = ok tt
all_rejected (a ∷ attempts) = do
  reject_if (not a.rejected) (violation closed_period_immutable)
  all_rejected attempts

unfoldable pub assert_all_mutations_rejected : List MutationAttempt → Checked
assert_all_mutations_rejected [] = err (violation closed_period_immutable)
assert_all_mutations_rejected (a ∷ attempts) = all_rejected (a ∷ attempts)

module _ {D : Type 0} ⦃d : Arithmetic D⦄ where
  -- `checked_sum`, from a total on.
  unfoldable pub checked_sum_from : Invariant → D → List D → Outcome InvariantViolation D
  checked_sum_from i total [] = ok total
  checked_sum_from i total (v ∷ rest) = do
    next ← ok_or (d.checked_add total v) (violation i)
    checked_sum_from i next rest

  unfoldable pub checked_sum : Invariant → List D → Outcome InvariantViolation D
  checked_sum i items = checked_sum_from i d.zero items

  abbrev pub require_zero : Invariant → D → Checked
  require_zero i total = reject_if (not (d.is_zero total)) (violation i)

  -- The loop of `assert_balanced`: the signed amounts, and the set of their currencies.
  unfoldable pub collect_signed :
      List (JournalLine D) → Outcome InvariantViolation (List D × List Currency)
  collect_signed [] = ok ([], [])
  collect_signed (l ∷ lines) = do
    amount ← ok_or (signed_amount l) (violation balanced)
    rest ← collect_signed lines
    ok (
      amount.amount ∷ rest.0,
      (if any (eq_currency amount.currency) rest.1 then rest.1 else amount.currency ∷ rest.1),
    )

  unfoldable pub assert_balanced : List (JournalLine D) → Checked
  assert_balanced [] = err (violation balanced)
  assert_balanced (l ∷ lines) = do
    signed ← collect_signed (l ∷ lines)
    reject_if (ltb 1 (length signed.1)) (violation balanced)
    total ← checked_sum balanced signed.0
    require_zero balanced total

  -- `replay`; `none` is a panic.
  unfoldable pub replay : List (LedgerEvent D) → Option (LedgerState D)
  replay events = apply_events empty_state events

  unfoldable pub assert_balances_net_to_zero : Map Text D → Checked
  assert_balances_net_to_zero amounts = do
    total ← checked_sum trial_balance_zero (values amounts)
    require_zero trial_balance_zero total

  unfoldable pub assert_subledger_ties : Text → Money D → Money D → Checked
  assert_subledger_ties subledger subledger_total control_account_balance = do
    difference ←
        map_err (λ e. violation subledger_ties)
          (checked_sub subledger_total control_account_balance)
    reject_if (not (is_zero difference)) (violation subledger_ties)
