-- ===== src/Testkit/ScenarioTests.antt =====
-- The validation, the export and the loaded chart on a small corpus, and their theorems applied.
use falkr_lite.Base.{All, ◌≡◌, ◌↔◌, refl, some, [], ◌∷◌, true}
use falkr_lite.Base.Int.{ℤ, pos, negsuc, ◌+ℤ◌, ◌-ℤ◌}
use falkr_lite.Base.Text.{Text, codes, split_once, trim, trim_start, trim_end}
use falkr_lite.Base.Map.{Map, text_key, nat_key, lookup, values, insert}
use falkr_lite.Base.KeySet.{collect_keys}
use falkr_lite.Base.Outcome.{ok, ◌>>=◌}
use falkr_lite.Decimal.Scaled.{scaled, scaled-IsExact, add}
use falkr_lite.Core.Currency.{code, from_code}
use falkr_lite.Core.Money.{negate}
use falkr_lite.Shares.{sum_units}
use falkr_lite.Ledger.{signed_amount}
use falkr_lite.Testkit.Phase.{parse_unsigned, parse_digits, is_delivered}
use falkr_lite.Testkit.Operations.{operations}
use falkr_lite.Testkit.Chart.{
  entity, resolve, split_reference, control_account, natural_side, flip, normal_balance,
  on_normal_side, permits_opposite_sign, rejects_opposite_sign_by_default,
}
use falkr_lite.Testkit.ChartLoad.{
  load_accounts, load_entities, check_parents, load_sources, load, load-control_account,
}
use falkr_lite.Testkit.Comparison.{agree_on, compare_balances, units_at}
use falkr_lite.Testkit.Scenario.{spec, required_phase, op_lines, expects_rejection}
use falkr_lite.Testkit.Period.{validate_period}
use falkr_lite.Testkit.Validate.{
  header_flaws, kind_flaws, operation_flaws, entry_flaws, referenced_accounts, parse_balances,
  unresolved_flaws, sum_balances, total_flaws, unusual_flaws, declaration_flaws, subledger_flaws,
  owner_flaws, balance_flaws, validate,
}
use falkr_lite.Testkit.NormalSides.{IsExpected}
use falkr_lite.Testkit.Validity.{validate-balances}
use falkr_lite.Testkit.Runner.{executed, run_balances, run_trial_balance}
use falkr_lite.Testkit.Execute.{execute, run}
use falkr_lite.Testkit.Delivery.{validate-run}
use falkr_lite.Testkit.Export.{ControlTotal, split_period}
use falkr_lite.Testkit.Extract.{
  detail_row, entry_rows, detail_rows, trial_balance_row, from_run, foot, control_total, derive,
  file_balances, by_number, reconcile,
}
use falkr_lite.Testkit.Footing.{posted_units, posted_units_at, control_total-from_run}
use falkr_lite.Testkit.Reconciliation.{reconcile-from_run}
use falkr_lite.Testkit.Example.{
  value_toml, read, env, env-ReadsBack, cash, sales, acme, chart, scenario, sample,
}

no_defects : validate read chart scenario ≡ []
unfolding validate header_flaws trim trim_start trim_end entity from_code validate_period split_once
    parse_unsigned parse_digits operation_flaws kind_flaws spec operations required_phase
    entry_flaws op_lines expects_rejection balance_flaws collect_keys insert control_account flip
    natural_side normal_balance on_normal_side permits_opposite_sign
    rejects_opposite_sign_by_default resolve split_reference declaration_flaws owner_flaws
    parse_balances referenced_accounts subledger_flaws sum_balances total_flaws unresolved_flaws
    unusual_flaws add ◌+ℤ◌
no_defects = refl

validate-balances_example :
    (balances : Map Text ℤ) × (parse_balances read chart scenario.expected.trial_balance []
      ≡ ok balances)
    × (sum_units scaled-IsExact (values balances) ≡ pos 0)
    × All (IsExpected chart (collect_keys scenario.expected.unusual_balances [])) balances
validate-balances_example = validate-balances read chart scaled-IsExact scenario no_defects refl

landed : is_delivered scenario.meta.phase ≡ true
unfolding is_delivered
landed = refl

validate-run_example :
    run env chart scenario ≡ (execute env chart scenario >>= λ r. ok (executed r))
validate-run_example = validate-run env chart scenario no_defects refl landed

abbrev totals : ControlTotal ℤ
totals = record { debits = pos 500; credits = pos 500; line_count = 2; entry_count = 1 }

sample-totals : control_total env (from_run env sample chart) ≡ ok totals
unfolding control_total from_run foot detail_rows entry_rows detail_row split_period split_once
    signed_amount negate add collect_keys insert code ◌+ℤ◌ ◌-ℤ◌
sample-totals = refl

control_total-from_run_example : pos 500 -ℤ pos 500 ≡ posted_units scaled-IsExact env sample.entries
control_total-from_run_example =
    control_total-from_run scaled-IsExact env sample chart env-ReadsBack sample-totals

abbrev expected : Map Text ℤ
expected = (codes "1000-Cash", pos 500) ∷ (codes "4000-Sales", negsuc 499) ∷ []

sample-reconciles : reconcile env (from_run env sample chart) expected ≡ ok tt
unfolding reconcile control_total from_run foot derive by_number file_balances compare_balances
    agree_on run_trial_balance run_balances trial_balance_row detail_rows entry_rows detail_row
    split_period split_once signed_amount negate add collect_keys insert code ◌+ℤ◌ ◌-ℤ◌
sample-reconciles = refl

reconcile-from_run_example :
    (posted_units_at scaled-IsExact env sample (codes "4000") sample.entries
      ≡ units_at scaled-IsExact (codes "4000") (by_number env expected []))
    × (units_at scaled-IsExact
          (codes "4000")
          (file_balances env (from_run env sample chart).trial_balance [])
        ≡ units_at scaled-IsExact (codes "4000") (by_number env expected []))
reconcile-from_run_example =
    reconcile-from_run scaled-IsExact env sample chart expected env-ReadsBack sample-reconciles
      (codes "4000")

chart-loads : load (ok (cash ∷ sales ∷ [])) (ok (acme ∷ [])) (ok []) ≡ ok chart
unfolding load load_accounts load_entities check_parents load_sources from_code trim trim_start
    trim_end insert
chart-loads = refl

load-control_account_example :
    (cash.code ≡ codes "1000")
    × ((cash.subledger ≡ some (codes "bank"))
        ↔ (lookup (codes "bank") chart.controls ≡ some (codes "1000")))
load-control_account_example =
    load-control_account (ok (cash ∷ sales ∷ [])) (ok (acme ∷ [])) (ok []) chart-loads
      (codes "bank") (codes "1000") cash refl
