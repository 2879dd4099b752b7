-- ===== src/Testkit/Tests.antt =====
-- `allocate` and the assertions run on small inputs, and their theorems applied to those runs.
use falkr_lite.Base.{◌*◌, ◌^◌, ◌≡◌, ◌≢◌, refl, none, some, false, List, [], ◌∷◌, All, length, map}
use falkr_lite.Base.Int.{ℤ, pos, negsuc, ◌+ℤ◌, ◌-ℤ◌, ◌*ℤ◌, sum_ℤ}
use falkr_lite.Base.Text.{Text, codes, split_once, trim, trim_start, trim_end}
use falkr_lite.Base.Map.{Map, text_key}
use falkr_lite.Base.Outcome.{ok, panic}
use falkr_lite.Decimal.Scaled.{scaled, scaled-IsExact, add, subtract, multiply, divide, of_scaled}
use falkr_lite.Core.Currency.{usd}
use falkr_lite.Core.Money.{Money, negate, checked_sub, is_zero}
use falkr_lite.Ledger.{JournalLine, debit_line, credit_line, signed_amount}
use falkr_lite.Ledger.Balances.{signed_units}
use falkr_lite.Shares.{update_at, sort_remainders, sum_units}
use falkr_lite.Testkit.Allocation.{
  sum_weights, exact_share, truncate_shares, distribute, allocate, allocate_evenly,
}
use falkr_lite.Testkit.Conservation.{allocate-conserves}
use falkr_lite.Testkit.Termination.{allocate-ne-panic}
use falkr_lite.Testkit.Chart.{Account, asset, ChartOfAccounts, split_reference, resolve}
use falkr_lite.Testkit.Assertions.{
  assert_monotonic_sequence, checked_sum_from, checked_sum, collect_signed, assert_balanced,
  assert_balances_net_to_zero, assert_subledger_ties,
}
use falkr_lite.Testkit.Guarantees.{
  Increasing, assert_monotonic_sequence-Increasing, assert_balanced-eq-ok,
}

-- 100.00 in units of 10^-28
abbrev hundred : ℤ
hundred = pos (100 * 10 ^ 28)

abbrev three_ones : List ℤ
three_ones = pos (10 ^ 28) ∷ pos (10 ^ 28) ∷ pos (10 ^ 28) ∷ []

-- 33.34, 33.33 and 33.33
abbrev thirds : List ℤ
thirds = pos (3334 * 10 ^ 26) ∷ pos (3333 * 10 ^ 26) ∷ pos (3333 * 10 ^ 26) ∷ []

allocate-run : allocate hundred three_ones 2 ≡ ok thirds
unfolding allocate sum_weights exact_share truncate_shares distribute sort_remainders update_at add
    subtract multiply divide of_scaled ◌+ℤ◌ ◌-ℤ◌ ◌*ℤ◌
allocate-run = refl

evenly-run : allocate_evenly hundred 3 2 ≡ ok thirds
unfolding allocate_evenly allocate sum_weights exact_share truncate_shares distribute
    sort_remainders update_at add subtract multiply divide of_scaled ◌+ℤ◌ ◌-ℤ◌ ◌*ℤ◌
evenly-run = refl

allocate-conserves_example :
    (sum_units scaled-IsExact thirds ≡ hundred) × (length thirds ≡ length three_ones)
allocate-conserves_example = allocate-conserves scaled-IsExact hundred three_ones 2 allocate-run

allocate-ne-panic_example : allocate hundred three_ones 2 ≢ panic
allocate-ne-panic_example = allocate-ne-panic hundred three_ones 2

abbrev ten : Money ℤ
ten = record { amount = pos (10 * 10 ^ 28); currency = usd }

abbrev lines : List (JournalLine ℤ)
lines = debit_line 1 ten ∷ credit_line 2 ten ∷ []

balanced-run : assert_balanced lines ≡ ok tt
unfolding assert_balanced collect_signed checked_sum checked_sum_from signed_amount negate
    debit_line credit_line add ◌+ℤ◌ ◌-ℤ◌
balanced-run = refl

assert_balanced-eq-ok_example :
    (lines ≢ [])
    × All (λ l. signed_amount l ≢ none) lines
    × (sum_ℤ (map (signed_units scaled-IsExact) lines) ≡ pos 0)
assert_balanced-eq-ok_example = assert_balanced-eq-ok scaled-IsExact lines balanced-run

abbrev sequence : List ℤ
sequence = negsuc 1 ∷ pos 0 ∷ pos 3 ∷ []

sequence-run : assert_monotonic_sequence sequence ≡ ok tt
unfolding assert_monotonic_sequence
sequence-run = refl

assert_monotonic_sequence-Increasing_example : Increasing sequence
assert_monotonic_sequence-Increasing_example =
    assert_monotonic_sequence-Increasing sequence sequence-run

ties-run : assert_subledger_ties (codes "AR") ten ten ≡ ok tt
unfolding assert_subledger_ties checked_sub is_zero subtract ◌-ℤ◌
ties-run = refl

abbrev amounts : Map Text ℤ
amounts = (codes "1000", pos 7) ∷ (codes "2000", negsuc 6) ∷ []

amounts-run : assert_balances_net_to_zero amounts ≡ ok tt
unfolding assert_balances_net_to_zero checked_sum checked_sum_from add ◌+ℤ◌
amounts-run = refl

abbrev cash : Account
cash = record {
  code = codes "1000";
  name = codes "Cash";
  kind = asset;
  contra = false;
  allow_opposite_sign = none;
  currency = some (codes "USD");
  subledger = none;
  intercompany = false;
  fs_caption = codes "Cash";
}

abbrev chart : ChartOfAccounts
chart = record { by_code = (codes "1000", cash) ∷ []; entities = []; sources = []; controls = [] }

resolve-run : resolve chart (codes "1000 - Cash") ≡ some cash
unfolding resolve split_reference split_once trim trim_start trim_end
resolve-run = refl

wrong_name : resolve chart (codes "1000-Bank") ≡ none
unfolding resolve split_reference split_once trim trim_start trim_end
wrong_name = refl
