-- ===== src/Ledger/Tests.antt =====
-- Concrete ledgers, and each theorem on the ledger applied to one.
use falkr_lite.Base.{◌≡◌, ◌≤◌, refl, some, List, [], ◌∷◌, All, arith, true}
use falkr_lite.Base.Int.{ℤ, pos, negsuc, ◌+ℤ◌, ◌-ℤ◌}
use falkr_lite.Base.Map.{nat_key, lookup, insert}
use falkr_lite.Base.Outcome.{ok, err}
use falkr_lite.Decimal.Scaled.{scaled, scaled-IsExact, add}
use falkr_lite.Core.Currency.{usd, eur}
use falkr_lite.Core.Money.{Money, checked_add, zero_money, negate, eq_money}
use falkr_lite.Core.Money.Laws.{value}
use falkr_lite.Core.Dimensions.{Uuid, Dimensions, new_dimensions, rn_d, capitalized}
use falkr_lite.Ledger.Line.{
  JournalLine, LedgerEvent, journal_entry_posted, entry_reversed, capitalization_status_changed,
  post_journal_entry, reverse_entry, change_capitalization_status, debit_line, credit_line,
  unknown_entry, already_reversed, capitalization_unchanged, validate, signed_amount,
}
use falkr_lite.Ledger.State.{
  LedgerState, empty_state, post, post_line, post_lines, add_delta, apply_event, apply_events,
  mirror, mirror_line, is_reversed, capitalization_status, trial_balance, trial_balance_from,
  fold_balance,
}
use falkr_lite.Ledger.Command.{
  check_entry, entry_totals, add_line, add_sides, handle_command, status_or_pending,
}
use falkr_lite.Ledger.Entry.{IsBalanced, lines_abs, check_entry-IsBalanced, check_entry_total}
use falkr_lite.Ledger.Balances.{
  Denomination, BalancesFit, LineFits, Moves, account_units, balance_units, post_lines-Moves,
}
use falkr_lite.Ledger.Totals.{total_in}
use falkr_lite.Ledger.Trial.{trial_balance-eq-some, trial_balance_total}
use falkr_lite.Ledger.History.{Reach, start, next, handled}
use falkr_lite.Ledger.Soundness.{IsSound, Reach-IsSound, Reach-trial_balance}
use falkr_lite.Ledger.Reversal.{post_reverse_restores, reverse_once}
use falkr_lite.Ledger.Capitalization.{change_status_once}
use falkr_lite.Ledger.Divergence.{mixed_currency_unbalances}

abbrev ten_usd : Money ℤ
ten_usd = record { amount = pos 1000; currency = usd }

abbrev ten_eur : Money ℤ
ten_eur = record { amount = pos 1000; currency = eur }

-- Account 1 is debited and account 2 credited.
abbrev lines : List (JournalLine ℤ)
lines = debit_line 1 ten_usd ∷ credit_line 2 ten_usd ∷ []

abbrev dims : Dimensions
dims = new_dimensions 11 12 13 14 rn_d

abbrev all_usd : Denomination
all_usd _ = usd

abbrev posted : LedgerState ℤ
posted = record {
  balances = (1, ten_usd) ∷ (2, record { amount = negsuc 999; currency = usd }) ∷ [];
  entries = (7, lines) ∷ [];
  reversed = [];
  capitalization = [];
}

abbrev posted_event : LedgerEvent ℤ
posted_event = journal_entry_posted 7 lines dims 100

check_lines : check_entry lines ≡ ok tt
unfolding check_entry entry_totals add_line add_sides validate checked_add zero_money eq_money
    debit_line credit_line add ◌+ℤ◌
check_lines = refl

post_lines-run : post_lines lines empty_state.balances ≡ some posted.balances
unfolding post_lines post_line add_delta signed_amount checked_add zero_money negate debit_line
    credit_line add insert ◌+ℤ◌ ◌-ℤ◌
post_lines-run = refl

post-run : post 7 lines empty_state ≡ some posted
unfolding post post_lines post_line add_delta signed_amount checked_add zero_money negate debit_line
    credit_line add insert ◌+ℤ◌ ◌-ℤ◌
post-run = refl

accepted : handle_command empty_state (post_journal_entry lines dims) 7 100 ≡ ok (posted_event ∷ [])
unfolding handle_command check_entry entry_totals add_line add_sides validate checked_add zero_money
    eq_money debit_line credit_line add ◌+ℤ◌
accepted = refl

applied : apply_events empty_state (posted_event ∷ []) ≡ some posted
unfolding apply_events apply_event post post_lines post_line add_delta signed_amount checked_add
    zero_money negate debit_line credit_line add insert ◌+ℤ◌ ◌-ℤ◌
applied = refl

history : Reach all_usd posted
unfolding debit_line credit_line
history = next start (
    handled empty_state posted (post_journal_entry lines dims) 7 100 (posted_event ∷ [])
      ((refl, tt), ((tt, refl), tt)) accepted applied)

trial-run : trial_balance posted usd ≡ some (zero_money usd)
unfolding trial_balance trial_balance_from fold_balance checked_add zero_money add ◌+ℤ◌
trial-run = refl

Reach-trial_balance_example : value scaled-IsExact (zero_money usd) ≡ pos 0
Reach-trial_balance_example = Reach-trial_balance scaled-IsExact all_usd usd history trial-run

Reach-IsSound_example : IsSound scaled-IsExact all_usd posted
Reach-IsSound_example = Reach-IsSound scaled-IsExact all_usd history

check_entry-IsBalanced_example : IsBalanced scaled-IsExact lines
check_entry-IsBalanced_example = check_entry-IsBalanced scaled-IsExact lines check_lines

lines-IsBalanced : IsBalanced scaled-IsExact lines
lines-IsBalanced = check_entry-IsBalanced scaled-IsExact lines check_lines

lines-small : lines_abs scaled-IsExact lines ≤ scaled-IsExact.limit
unfolding debit_line credit_line
lines-small = ground arith

check_entry_total_example : check_entry lines ≡ ok tt
check_entry_total_example = check_entry_total scaled-IsExact lines lines-IsBalanced lines-small

lines-fit : All (LineFits all_usd) lines
unfolding debit_line credit_line
lines-fit = (refl, (refl, tt))

empty-fit : BalancesFit all_usd (empty_state {D = ℤ}).balances
empty-fit a m e = cc

post_lines-Moves_example :
    Moves scaled-IsExact all_usd [] (λ k. account_units scaled-IsExact k lines) posted.balances
post_lines-Moves_example =
    post_lines-Moves scaled-IsExact all_usd lines [] posted.balances empty-fit lines-fit
      post_lines-run

trial_balance-eq-some_example :
    (usd ≡ usd)
    × (value scaled-IsExact (zero_money usd) ≡ total_in scaled-IsExact usd posted.balances)
unfolding zero_money
trial_balance-eq-some_example = trial_balance-eq-some scaled-IsExact usd posted trial-run

trial_balance_total_example : (m : Money ℤ) × (trial_balance posted usd ≡ some m)
trial_balance_total_example = trial_balance_total scaled-IsExact usd posted (ground arith)

-- The entry of `posted`, reversed.
abbrev undone : LedgerState ℤ
undone = record {
  balances =
      (1, record { amount = pos 0; currency = usd })
      ∷ (2, record { amount = pos 0; currency = usd })
      ∷ [];
  entries = (7, lines) ∷ (8, credit_line 1 ten_usd ∷ debit_line 2 ten_usd ∷ []) ∷ [];
  reversed = (7, tt) ∷ [];
  capitalization = [];
}

reverse-run : apply_event posted (entry_reversed 7 8 []) ≡ some undone
unfolding apply_event post post_lines post_line add_delta signed_amount checked_add zero_money
    negate debit_line credit_line mirror mirror_line add insert ◌+ℤ◌ ◌-ℤ◌
reverse-run = refl

post_reverse_restores_example :
    ((a : Uuid)
      → balance_units scaled-IsExact a undone.balances ≡ balance_units scaled-IsExact a [])
    × (lookup 8 undone.entries ≡ some (mirror lines))
    × (is_reversed undone 7 ≡ true)
post_reverse_restores_example =
    post_reverse_restores scaled-IsExact all_usd 7 8 lines [] empty_state posted undone empty-fit
      lines-fit post-run reverse-run

reverse_once_example :
    (handle_command posted (reverse_entry 7 []) 8 100 ≡ ok (entry_reversed 7 8 [] ∷ []))
    × (handle_command undone (reverse_entry 7 []) 9 100 ≡ err (already_reversed 7))
    × (handle_command undone (reverse_entry 8 []) 9 100 ≡ ok (entry_reversed 8 9 [] ∷ []))
    × ((handle_command posted (reverse_entry 6 []) 9 100 ≡ err (unknown_entry 6))
        × (handle_command undone (reverse_entry 6 []) 9 100 ≡ err (unknown_entry 6)))
reverse_once_example =
    reverse_once 7 8 6 lines [] 9 100 empty_state posted undone refl refl (λ e. omega (arith, e))
      (refl, (λ e. omega (arith, e)), (λ e. omega (arith, e))) post-run reverse-run

abbrev decided_event : LedgerEvent ℤ
decided_event =
    capitalization_status_changed 5 (status_or_pending (capitalization_status posted 5)) capitalized
      3

abbrev decided : LedgerState ℤ
decided = record posted { capitalization = (5, capitalized) ∷ [] }

decided-accepted :
    handle_command posted (change_capitalization_status 5 capitalized 3) 9 100
    ≡ ok (decided_event ∷ [])
unfolding handle_command capitalization_status
decided-accepted = refl

decided-run : apply_events posted (decided_event ∷ []) ≡ some decided
unfolding apply_events apply_event insert
decided-run = refl

change_status_once_example :
    (capitalization_status decided 5 ≡ some capitalized)
    × (handle_command decided (change_capitalization_status 5 capitalized 3) 10 101
        ≡ err (capitalization_unchanged 5 capitalized))
change_status_once_example =
    change_status_once posted decided 5 capitalized 3 9 10 100 101 decided-accepted decided-run

-- Ten euro are posted to account 1, whose balance is in dollars, and to account 3.
abbrev euro_lines : List (JournalLine ℤ)
euro_lines = debit_line 1 ten_eur ∷ credit_line 3 ten_eur ∷ []

abbrev mixed : LedgerState ℤ
mixed = record {
  balances =
      (1, ten_usd)
      ∷ (2, record { amount = negsuc 999; currency = usd })
      ∷ (3, record { amount = negsuc 999; currency = eur })
      ∷ [];
  entries = (7, lines) ∷ (9, euro_lines) ∷ [];
  reversed = [];
  capitalization = [];
}

mixed-run : post 9 euro_lines posted ≡ some mixed
unfolding post post_lines post_line add_delta signed_amount checked_add zero_money negate debit_line
    credit_line add insert ◌+ℤ◌ ◌-ℤ◌
mixed-run = refl

mixed_currency_unbalances_example :
    (check_entry euro_lines ≡ ok tt)
    × (total_in scaled-IsExact eur mixed.balances +ℤ pos 1000
        ≡ total_in scaled-IsExact eur posted.balances)
mixed_currency_unbalances_example =
    mixed_currency_unbalances scaled-IsExact 1 3 9 ten_usd ten_eur posted mixed refl (λ e. cc) refl
      (λ e. cc) (ground arith) mixed-run
