-- ===== src/Testkit/RunTests.antt =====
-- The runner and the export on a small scenario, and their theorems applied to that run.
use falkr_lite.Base.{◌≡◌, ◌↔◌, refl, subst, none, some, All, map, arith}
use falkr_lite.Base.Int.{ℤ, pos, ◌+ℤ◌, ◌-ℤ◌}
use falkr_lite.Base.Text.{codes, split_once, trim, trim_start, trim_end}
use falkr_lite.Base.Map.{text_key, nat_key, lookup, insert}
use falkr_lite.Base.Outcome.{ok, ok-injective}
use falkr_lite.Decimal.Scaled.{scaled, scaled-IsExact, add}
use falkr_lite.Core.Currency.{usd, from_code}
use falkr_lite.Core.Money.{Money, zero_money, checked_add, eq_money, negate}
use falkr_lite.Core.Money.Laws.{value}
use falkr_lite.Core.Dimensions.{new_dimensions, status_from_stored}
use falkr_lite.Ledger.{
  debit_line, credit_line, with_sources, validate, signed_amount, add_sides, add_line, entry_totals,
  check_entry, handle_command, is_reversed, mirror, mirror_line, add_delta, post_line, post_lines,
  post, apply_event, trial_balance, trial_balance_from, fold_balance,
}
use falkr_lite.Testkit.Phase.{parse_unsigned, parse_digits}
use falkr_lite.Testkit.Assertions.{replay}
use falkr_lite.Testkit.Chart.{split_reference, resolve}
use falkr_lite.Testkit.Scenario.{opt_str_param, str_param, op_lines, expects_rejection}
use falkr_lite.Testkit.Runner.{label, three_digits, mirror_lines, stable_uuid, account_id}
use falkr_lite.Testkit.Execute.{
  dimensions, build_lines, journal_lines, command_for, record_entry, apply_produced, settle,
  run_operation, run_operations, start_progress, execute,
}
use falkr_lite.Testkit.Runs.{execute-replay}
use falkr_lite.Testkit.Rejections.{AllAnswered, declared_rejections, execute-rejections}
use falkr_lite.Testkit.Histories.{NamesNoCurrency, execute-trial_balance}
use falkr_lite.Testkit.Records.{FreshDistinct}
use falkr_lite.Testkit.Mirroring.{execute-records}
use falkr_lite.Testkit.Period.{IsPeriod, validate_period, validate_period_iff}
use falkr_lite.Testkit.Example.{
  value_toml, env, chart, post_sale, reverse_sale, bad_sale, scenario, ran,
}

pub ran-ok : execute env chart scenario ≡ ok ran
unfolding execute run_operations run_operation command_for journal_lines build_lines op_lines
    str_param opt_str_param expects_rejection settle apply_produced record_entry dimensions
    new_dimensions stable_uuid account_id label three_digits mirror_lines resolve split_reference
    split_once trim trim_start trim_end from_code status_from_stored handle_command check_entry
    entry_totals add_line add_sides validate is_reversed zero_money checked_add eq_money negate add
    apply_event post post_lines post_line add_delta signed_amount debit_line credit_line
    with_sources mirror mirror_line insert ◌+ℤ◌ ◌-ℤ◌
ran-ok = refl

execute-replay_example : replay ran.events ≡ some ran.state
execute-replay_example = execute-replay env chart scenario ran-ok

execute-rejections_example :
    AllAnswered env chart scenario scenario.operations 0 ran.currency
      (start_progress env chart scenario)
      ran
    × (map (λ k. k.0) ran.rejections ≡ declared_rejections env chart scenario scenario.operations)
execute-rejections_example = execute-rejections env chart scenario ran-ok

distinct : FreshDistinct env
distinct m n h = omega (arith, h)

execute-records_example : All (λ e. lookup e.entry_id ran.state.entries ≡ some e.lines) ran.entries
execute-records_example = execute-records env chart scenario distinct ran-ok

sale_plain : NamesNoCurrency env chart scenario post_sale
unfolding op_lines
sale_plain raw h = subst (λ ls. All (λ l. l.currency ≡ none) ls) (ok-injective h) (refl, (refl, tt))

reversal_plain : NamesNoCurrency env chart scenario reverse_sale
unfolding op_lines
reversal_plain raw h = cc

bad_plain : NamesNoCurrency env chart scenario bad_sale
unfolding op_lines
bad_plain raw h = subst (λ ls. All (λ l. l.currency ≡ none) ls) (ok-injective h) (refl, tt)

plain : All (NamesNoCurrency env chart scenario) scenario.operations
plain = (sale_plain, (reversal_plain, (bad_plain, (sale_plain, tt))))

abbrev nothing : Money ℤ
nothing = record { amount = pos 0; currency = usd }

ran-trial_balance : trial_balance ran.state usd ≡ some nothing
unfolding trial_balance trial_balance_from fold_balance execute run_operations run_operation
    command_for journal_lines build_lines op_lines str_param opt_str_param expects_rejection settle
    apply_produced record_entry dimensions new_dimensions stable_uuid account_id label three_digits
    mirror_lines resolve split_reference split_once trim trim_start trim_end from_code
    status_from_stored handle_command check_entry entry_totals add_line add_sides validate
    is_reversed zero_money checked_add eq_money negate add apply_event post post_lines post_line
    add_delta signed_amount debit_line credit_line with_sources mirror mirror_line insert ◌+ℤ◌ ◌-ℤ◌
ran-trial_balance = refl

execute-trial_balance_example : value scaled-IsExact nothing ≡ pos 0
execute-trial_balance_example =
    execute-trial_balance env chart scenario scaled-IsExact usd plain ran-ok ran-trial_balance

period_ok : validate_period (codes "2026-P13") ≡ ok tt
unfolding validate_period parse_unsigned parse_digits split_once
period_ok = refl

-- A sign passes for a digit.
period_signed : validate_period (codes "2026-+1") ≡ ok tt
unfolding validate_period parse_unsigned parse_digits split_once
period_signed = refl

validate_period_iff_example :
    (validate_period (codes "2026-P13") ≡ ok tt) ↔ IsPeriod (codes "2026-P13")
validate_period_iff_example = validate_period_iff (codes "2026-P13")
