-- ===== src/Testkit/GeneratorTests.antt =====
-- The generator, the comparisons and the chart checks on small inputs, and their theorems applied.
use falkr_lite.Base.{ℕ, ◌*◌, ◌^◌, ◌≤◌, ◌≡◌, ◌↔◌, refl, some, [], ◌∷◌, All, map, max, arith}
use falkr_lite.Base.Int.{ℤ, pos, negsuc, abs_ℤ, ◌+ℤ◌, ◌-ℤ◌, ◌*ℤ◌}
use falkr_lite.Base.Text.{Text, codes, split_once, trim, trim_start, trim_end}
use falkr_lite.Base.Map.{Map, text_key, nat_key, lookup, insert}
use falkr_lite.Base.Outcome.{ok}
use falkr_lite.Decimal.Scaled.{scaled, scaled-IsExact, add, of_scaled}
use falkr_lite.Core.Currency.{usd, from_code}
use falkr_lite.Core.Money.{Money, zero_money, checked_add, negate}
use falkr_lite.Core.Dimensions.{Uuid, Dimensions, op_ex, new_dimensions}
use falkr_lite.Ledger.{
  JournalLine, debit_line, credit_line, signed_amount, LedgerState, add_delta, post_line,
  post_lines, post, apply_event, apply_events, balance,
}
use falkr_lite.Ledger.History.{LineDenominated}
use falkr_lite.Testkit.Rng.{new_rng, between, between_bounds}
use falkr_lite.Testkit.Generator.{
  small_spec, GeneratedEntry, GeneratedLedger, magnitude, generate, ground_truth,
}
use falkr_lite.Testkit.Generation.{IsAccepted, generate-IsAccepted}
use falkr_lite.Testkit.GroundTruth.{amount_of, posted_event, ground_truth-replay}
use falkr_lite.Testkit.Assertions.{replay}
use falkr_lite.Testkit.Comparison.{units_at, assert_roll_forward, assert_roll_forward_iff}
use falkr_lite.Testkit.Chart.{resolve, split_reference}
use falkr_lite.Testkit.NormalSides.{IsExpected, assert_no_unexpected_negative_balances_iff}
use falkr_lite.Testkit.ChartChecks.{
  assert_no_unexpected_negative_balances, IsIsolated, assert_currency_isolation,
  assert_currency_isolation-eq-ok,
}
use falkr_lite.Testkit.Example.{env, chart}

between_bounds_example : (3 ≤ (between 3 9 (new_rng 42)).0) × ((between 3 9 (new_rng 42)).0 ≤ 9)
between_bounds_example = between_bounds 3 9 (new_rng 42) (omega arith)

abbrev hashed : Text → Uuid
hashed = env.digest

-- The largest draw, 50,000.00
abbrev most : ℕ
most = 5000000 * 10 ^ 26

small_draws :
    (minor : ℕ)
    → minor ≤ max small_spec.max_minor_units 1
    → abs_ℤ (magnitude hashed small_spec minor) ≤ most
unfolding of_scaled ◌*ℤ◌
small_draws minor h = ground arith

generate-IsAccepted_example :
    All (IsAccepted scaled-IsExact hashed small_spec) (generate hashed small_spec 7).entries
generate-IsAccepted_example =
    generate-IsAccepted scaled-IsExact hashed small_spec most 7 (omega arith) small_draws
      (omega arith)

abbrev five : Money ℤ
five = record { amount = pos 5; currency = usd }

abbrev one_entry : GeneratedLedger ℤ
one_entry = record {
  seed = 7;
  currency = usd;
  entries = record { lines = debit_line 1 five ∷ credit_line 2 five ∷ [] } ∷ [];
}

abbrev five_owed : Money ℤ
five_owed = record { amount = negsuc 4; currency = usd }

abbrev two_balances : LedgerState ℤ
two_balances = record {
  balances = (1, five) ∷ (2, five_owed) ∷ [];
  entries = (9, debit_line 1 five ∷ credit_line 2 five ∷ []) ∷ [];
  reversed = [];
  capitalization = [];
}

abbrev stamp : GeneratedEntry ℤ → Uuid
stamp e = 9

abbrev spine : Dimensions
spine = new_dimensions 1 2 3 4 op_ex

one_entry-replays :
    replay (map (posted_event usd stamp spine 0) one_entry.entries) ≡ some two_balances
unfolding replay apply_events apply_event post post_lines post_line add_delta signed_amount negate
    zero_money checked_add add debit_line credit_line insert ◌+ℤ◌ ◌-ℤ◌
one_entry-replays = refl

one_entry-in_usd : All (λ e. All (LineDenominated (λ _. usd)) e.lines) one_entry.entries
unfolding debit_line credit_line
one_entry-in_usd = (((refl, tt), ((tt, refl), tt)), tt)

ground_truth-replay_example : lookup 2 (ground_truth one_entry) ≡ amount_of (balance two_balances 2)
ground_truth-replay_example =
    ground_truth-replay usd one_entry stamp spine 0 one_entry-in_usd one_entry-replays 2

abbrev closing : Map Text ℤ
closing = (codes "1000", pos 7) ∷ (codes "2000", pos 0) ∷ []

abbrev opening : Map Text ℤ
opening = (codes "1000", pos 7) ∷ []

assert_roll_forward_iff_example :
    (assert_roll_forward closing opening ≡ ok tt)
    ↔ ((a : Text) → units_at scaled-IsExact a closing ≡ units_at scaled-IsExact a opening)
assert_roll_forward_iff_example = assert_roll_forward_iff scaled-IsExact closing opening

abbrev cash_on_hand : Map Text ℤ
cash_on_hand = (codes "1000-Cash", pos 7) ∷ []

assert_no_unexpected_negative_balances_iff_example :
    (assert_no_unexpected_negative_balances chart cash_on_hand [] ≡ ok tt)
    ↔ All (IsExpected chart []) cash_on_hand
assert_no_unexpected_negative_balances_iff_example =
    assert_no_unexpected_negative_balances_iff chart cash_on_hand []

abbrev cash_label : JournalLine ℤ → Text
cash_label l = codes "1000-Cash"

isolated-run : assert_currency_isolation chart (debit_line 1 five ∷ []) usd cash_label ≡ ok tt
unfolding assert_currency_isolation signed_amount debit_line resolve split_reference split_once trim
    trim_start trim_end from_code
isolated-run = refl

assert_currency_isolation-eq-ok_example :
    All (IsIsolated chart usd cash_label) (debit_line 1 five ∷ [])
assert_currency_isolation-eq-ok_example =
    assert_currency_isolation-eq-ok chart (debit_line 1 five ∷ []) usd cash_label isolated-run
