-- ===== src/Testkit/Validate.antt =====
-- `Scenario::validate` of crates/testkit/src/scenario.rs: the list of defects, in the order in which
-- it reports them.
use falkr_lite.Base.{
  Bool, true, false, not, ◌&&◌, Option, none, some, List, [], ◌∷◌, ◌++◌, map, any, leb, ltb, ◌==◌,
  if◌then◌else◌, is_empty,
}
use falkr_lite.Base.Text.{Text, codes, eq_text, trim}
use falkr_lite.Base.Map.{Map, text_key, keys, values, contains_key, insert}
use falkr_lite.Base.KeySet.{collect_keys}
use falkr_lite.Base.Outcome.{Outcome, ok, err, panic, ok_or, ◌>>=◌}
use falkr_lite.Decimal.{Arithmetic}
use falkr_lite.Core.Currency.{from_code}
use falkr_lite.Testkit.Chart.{
  Account, ChartOfAccounts, resolve, entity, control_account, on_normal_side, permits_opposite_sign,
}
use falkr_lite.Testkit.Scenario.{
  Status, blocked, divergent, ScenarioLine, Toml, Operation, ParamError, Scenario, op_lines,
  expects_rejection, spec, required_phase, is_blocked,
}
use falkr_lite.Testkit.Flaw.{
  Flaw, wrong_file_name, wrong_category, difficulty_out_of_range, short_reasoning, no_standards,
  no_blocked_reason, blocked_with_balance, unexpected_blocked_reason, no_trial_balance,
  no_divergence, unexpected_divergence, unknown_entity, unknown_book, unknown_currency,
  unknown_calendar, bad_period, no_operations, unknown_kind, wrong_phase, both_sides, no_side,
  bad_lines, not_exact, unresolved, balance_overflows, unbalanced, unusual, stale_annotation,
  unknown_declaration, unknown_subledger, unknown_owner, owner_unbalanced, Defect, books, calendars,
  min_reasoning_chars,
}
use falkr_lite.Testkit.Period.{
  PeriodError, byte_length, starts_with, file_stem, folder_name, validate_period,
}

abbrev pub fail_if : {A : Type 0} → Bool → A → List A
fail_if true flaw = flaw ∷ []
fail_if false flaw = []

-- The pushes of several checks, one after the other.
abbrev pub gather : {A : Type 0} → List (List A) → List A
gather [] = []
gather (xs ∷ rest) = xs ++ gather rest

abbrev pub is_missing : {A : Type 0} → Option A → Bool
is_missing none = true
is_missing (some _) = false

abbrev is_blank : Option Text → Bool
is_blank none = true
is_blank (some r) = is_empty (trim r)

module _ {D : Type 0} where
  abbrev pub as_defect : Text → Flaw D → Defect D
  as_defect id flaw = record { scenario = id; detail = flaw }

  -- The `match` on the status, for a blocked reason.
  abbrev pub status_flaws : Status → Option Text → Map Text Text → List (Flaw D)
  status_flaws blocked reason balance =
      fail_if (is_blank reason) no_blocked_reason
      ++ fail_if (not (is_empty balance)) blocked_with_balance
  status_flaws _ reason balance =
      fail_if (not (is_missing reason)) unexpected_blocked_reason
      ++ fail_if (is_empty balance) no_trial_balance

  abbrev pub divergence_flaws : Status → Option Text → List (Flaw D)
  divergence_flaws divergent none = no_divergence ∷ []
  divergence_flaws divergent (some []) = no_divergence ∷ []
  divergence_flaws divergent (some (c ∷ s)) = []
  divergence_flaws _ (some s) = unexpected_divergence ∷ []
  divergence_flaws _ none = []

  abbrev period_flaws : Outcome PeriodError (Unit {0}) → List (Flaw D)
  period_flaws (err e) = bad_period e ∷ []
  period_flaws _ = []

  -- Identity, documentation, status and setup.
  unfoldable pub header_flaws : {V : Type 0} → Scenario V → ChartOfAccounts → List (Flaw D)
  header_flaws s chart = gather (
      fail_if (not (eq_text (file_stem s.path) s.meta.id)) (wrong_file_name (file_stem s.path))
      ∷ fail_if (not (starts_with s.meta.id (folder_name s.path ++ (b'-' ∷ []))))
          (wrong_category (folder_name s.path))
      ∷ fail_if (not (leb 1 s.meta.difficulty && leb s.meta.difficulty 5))
          (difficulty_out_of_range s.meta.difficulty)
      ∷ fail_if (ltb (byte_length (trim s.expected.reasoning)) min_reasoning_chars)
          (short_reasoning (byte_length (trim s.expected.reasoning)))
      ∷ fail_if (is_empty s.meta.standards) no_standards
      ∷ status_flaws s.meta.status s.meta.blocked_reason s.expected.trial_balance
      ∷ divergence_flaws s.meta.status s.meta.divergence
      ∷ fail_if (is_missing (entity chart s.setup.entity)) (unknown_entity s.setup.entity)
      ∷ fail_if (not (any (eq_text s.setup.book) books)) (unknown_book s.setup.book)
      ∷ fail_if (is_missing (from_code s.setup.functional_ccy))
          (unknown_currency s.setup.functional_ccy)
      ∷ fail_if (not (any (eq_text s.setup.calendar) calendars)) (unknown_calendar s.setup.calendar)
      ∷ period_flaws (validate_period s.setup.period)
      ∷ [])

  unfoldable pub kind_flaws : {V : Type 0} → List (Operation V) → List (Flaw D)
  kind_flaws [] = []
  kind_flaws (op ∷ ops) =
      fail_if (is_missing (spec op.kind)) (unknown_kind op.kind) ++ kind_flaws ops

  -- The operations, and the phase that they require.
  unfoldable pub operation_flaws : {V : Type 0} → Scenario V → List (Flaw D)
  operation_flaws s = gather (
      fail_if (is_empty s.operations && not (is_blocked s.meta.status)) no_operations
      ∷ kind_flaws s.operations
      ∷ fail_if
          (not (is_blocked s.meta.status) && not (s.meta.phase.number == (required_phase s).number))
          (wrong_phase (required_phase s))
      ∷ [])

  -- The sides of a line that is not deliberately malformed.
  abbrev pub side_flaws : Text → Option Text → Option Text → List (Flaw D)
  side_flaws account (some debit) (some credit) = both_sides account ∷ []
  side_flaws account none none = no_side account ∷ []
  side_flaws account _ _ = []

  abbrev lines_flaws : Bool → List ScenarioLine → List (Flaw D)
  lines_flaws deliberate [] = []
  lines_flaws deliberate (l ∷ lines) =
      (if deliberate then [] else side_flaws l.account l.debit l.credit)
      ++ lines_flaws deliberate lines

  abbrev read_flaws : Bool → Outcome ParamError (List ScenarioLine) → List (Flaw D)
  read_flaws deliberate (ok lines) = lines_flaws deliberate lines
  read_flaws deliberate (err e) = bad_lines e ∷ []
  read_flaws deliberate panic = []

module _ {V D : Type 0} ⦃t : Toml V⦄ where
  unfoldable pub entry_flaws : List (Operation V) → List (Flaw D)
  entry_flaws [] = []
  entry_flaws (op ∷ ops) =
      (if eq_text op.kind (codes "post_entry")
        then read_flaws (expects_rejection op) (op_lines op)
        else [])
      ++ entry_flaws ops

abbrev accounts_of : Outcome ParamError (List ScenarioLine) → List Text
accounts_of (ok lines) = map (λ l. l.account) lines
accounts_of _ = []

module _ {V : Type 0} ⦃t : Toml V⦄ where
  -- The set `referenced`, from a set on.
  unfoldable pub referenced_accounts :
      List (Operation V) → Map Text (Unit {0}) → Map Text (Unit {0})
  referenced_accounts [] s = s
  referenced_accounts (op ∷ ops) s = referenced_accounts ops (
      if eq_text op.kind (codes "post_entry")
      then collect_keys (accounts_of (op_lines op)) s
      else s)

module _ {D : Type 0} ⦃d : Arithmetic D⦄ (parse : Text → Option D) (chart : ChartOfAccounts) where
  -- `parse_balances`, from a map on.
  unfoldable pub parse_balances : Map Text Text → Map Text D → Outcome (Flaw D) (Map Text D)
  parse_balances [] out = ok out
  parse_balances ((account, raw) ∷ rest) out = do
    amount ← ok_or (parse raw) (not_exact account raw)
    parse_balances rest (insert account amount out)

  -- The balances, or the defect and no balances.
  abbrev pub balances_or_flaw : Outcome (Flaw D) (Map Text D) → Map Text D × List (Flaw D)
  balances_or_flaw (ok balances) = (balances, [])
  balances_or_flaw (err flaw) = ([], flaw ∷ [])
  balances_or_flaw panic = ([], [])

  unfoldable pub unresolved_flaws : List Text → List (Flaw D)
  unresolved_flaws [] = []
  unresolved_flaws (reference ∷ references) =
      fail_if (is_missing (resolve chart reference)) (unresolved reference)
      ++ unresolved_flaws references

  -- The sum, and whether an addition overflowed, which leaves the sum as it was.
  unfoldable pub sum_balances : D → Bool → List D → D × Bool
  sum_balances total overflowed [] = (total, overflowed)
  sum_balances total overflowed (a ∷ amounts) = elim (d.checked_add total a) [
    | some next ↦ sum_balances next overflowed amounts
    | none ↦ sum_balances total true amounts
  ]

  unfoldable pub total_flaws : Bool → Map Text D → List (Flaw D)
  total_flaws held balances =
      let (total, overflowed) = sum_balances d.zero false (values balances) in
      if overflowed
      then balance_overflows ∷ []
      else fail_if (not (d.is_zero total) && not held) (unbalanced total)

  abbrev pub account_flaws : Map Text (Unit {0}) → Text → D → Option Account → List (Flaw D)
  account_flaws declared reference amount none = []
  account_flaws declared reference amount (some a) =
      fail_if
        (not (on_normal_side a amount)
          && not (permits_opposite_sign a)
          && not (contains_key reference declared))
        (unusual reference amount)
      ++ fail_if (on_normal_side a amount && contains_key reference declared)
          (stale_annotation reference amount)

  unfoldable pub unusual_flaws : Map Text (Unit {0}) → Map Text D → List (Flaw D)
  unusual_flaws declared [] = []
  unusual_flaws declared ((reference, amount) ∷ balances) =
      account_flaws declared reference amount (resolve chart reference)
      ++ unusual_flaws declared balances

  unfoldable pub declaration_flaws : List Text → Map Text D → List (Flaw D)
  declaration_flaws [] balances = []
  declaration_flaws (reference ∷ declared) balances =
      fail_if (not (contains_key reference balances)) (unknown_declaration reference)
      ++ declaration_flaws declared balances

  unfoldable pub subledger_flaws : List Text → List (Flaw D)
  subledger_flaws [] = []
  subledger_flaws (name ∷ names) =
      fail_if (is_missing (control_account chart name)) (unknown_subledger name)
      ++ subledger_flaws names

  abbrev keep_sum : D → Option D → D
  keep_sum sum none = sum
  keep_sum sum (some next) = next

  -- The sum of one entity: an addition that overflows is skipped.
  abbrev pub owner_sum : D → List D → D
  owner_sum sum [] = sum
  owner_sum sum (a ∷ amounts) = owner_sum (keep_sum sum (d.checked_add sum a)) amounts

  abbrev owner_total_flaws : Text → Outcome (Flaw D) (Map Text D) → List (Flaw D)
  owner_total_flaws name (ok parsed) =
      let sum = owner_sum d.zero (values parsed) in
      fail_if (not (d.is_zero sum)) (owner_unbalanced name sum)
  owner_total_flaws name (err flaw) = flaw ∷ []
  owner_total_flaws name panic = []

  unfoldable pub owner_flaws : Map Text (Map Text Text) → List (Flaw D)
  owner_flaws [] = []
  owner_flaws ((name, balance) ∷ owners) =
      fail_if (is_missing (entity chart name)) (unknown_owner name)
      ++ owner_total_flaws name (parse_balances balance [])
      ++ owner_flaws owners

  -- The checks of the expected balances against the chart.
  unfoldable pub balance_flaws : {V : Type 0} ⦃t : Toml V⦄ → Scenario V → List (Flaw D)
  balance_flaws s =
      let (balances, failed) = balances_or_flaw (parse_balances s.expected.trial_balance []) in
      let declared = collect_keys s.expected.unusual_balances [] in
      gather (
        failed
        ∷ unresolved_flaws (keys (referenced_accounts s.operations []) ++ keys balances)
        ∷ total_flaws (is_blocked s.meta.status) balances
        ∷ unusual_flaws declared balances
        ∷ declaration_flaws (keys declared) balances
        ∷ subledger_flaws (keys s.expected.subledgers)
        ∷ owner_flaws s.expected.by_entity
        ∷ [])

  abbrev pub all_flaws : {V : Type 0} ⦃t : Toml V⦄ → Scenario V → List (Flaw D)
  all_flaws s =
      gather
        (header_flaws s chart ∷ operation_flaws s ∷ entry_flaws s.operations ∷ balance_flaws s ∷ [])

  -- `Scenario::validate`
  unfoldable pub validate : {V : Type 0} ⦃t : Toml V⦄ → Scenario V → List (Defect D)
  validate s = map (as_defect s.meta.id) (all_flaws s)
