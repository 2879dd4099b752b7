-- ===== src/Testkit/ChartChecks.antt =====
-- The assertions of crates/testkit/src/assertions.rs that read the chart of accounts, and the one
-- over many scopes.
use falkr_lite.Base.{
  ◌≡◌, refl, Bool, false, not, not-eq-false, ◌||◌, Option, none, some, List, [], ◌∷◌, All,
  if◌then◌else◌,
}
use falkr_lite.Base.Int.{pos}
use falkr_lite.Base.Text.{Text}
use falkr_lite.Base.Map.{Map, text_key, values, contains_key}
use falkr_lite.Base.Outcome.{
  ok, ok_or, ok_or-eq-ok, reject_if, reject_if-eq-ok, >>=-eq-ok, ◌>>=◌, ◌>>◌,
}
use falkr_lite.Decimal.{Arithmetic, IsExact}
use falkr_lite.Core.Currency.{Currency, from_code, eq_currency, eq_currency_sound}
use falkr_lite.Core.Money.{Money}
use falkr_lite.Shares.{sum_units}
use falkr_lite.Ledger.{JournalLine, signed_amount}
use falkr_lite.Testkit.Chart.{
  Account, ChartOfAccounts, resolve, on_normal_side, permits_opposite_sign,
}
use falkr_lite.Testkit.Assertions.{
  violation, negative_balance, currency_isolation, trial_balance_zero, consolidation_complete,
  Checked, checked_sum, require_zero,
}
use falkr_lite.Testkit.Guarantees.{required_zero}

pub record BalanceScope : Type 0 where
  pub currency : Currency
  pub book : Text
  pub entity : Text
  pub period : Text

-- The currency that an account is restricted to, against that of the line.
abbrev pub check_restriction : Option Text → Currency → Checked
check_restriction none c = ok tt
check_restriction (some code) c = do
  restricted ← ok_or (from_code code) (violation currency_isolation)
  reject_if (not (eq_currency restricted c)) (violation currency_isolation)

abbrev pub check_account : Option Account → Currency → Checked
check_account none c = ok tt
check_account (some account) c = check_restriction account.currency c

abbrev pub is_intercompany : Option Account → Bool
is_intercompany none = false
is_intercompany (some account) = account.intercompany

check_restriction-eq-ok :
    (restriction : Option Text) (c : Currency) (code : Text)
    → check_restriction restriction c ≡ ok tt
    → restriction ≡ some code
    → from_code code ≡ some c
check_restriction-eq-ok none c code h e = cc
check_restriction-eq-ok (some name) c code h e =
    let (r, found, h') = >>=-eq-ok (ok_or (from_code name) (violation currency_isolation)) _ h in
    let same = eq_currency_sound r c (not-eq-false _ (reject_if-eq-ok _ _ h')) in
    let named : name ≡ code = cc in rw (← named, ← same) (ok_or-eq-ok _ _ found)

check_account-eq-ok :
    (account : Option Account) (c : Currency) (a : Account) (code : Text)
    → check_account account c ≡ ok tt
    → account ≡ some a
    → a.currency ≡ some code
    → from_code code ≡ some c
check_account-eq-ok none c a code h e f = cc
check_account-eq-ok (some b) c a code h e f =
    let same : b ≡ a = cc in check_restriction-eq-ok b.currency c code h (rw same f)

module _ {D : Type 0} ⦃d : Arithmetic D⦄ where
  abbrev net_to_zero : List D → Checked
  net_to_zero [] = ok tt
  net_to_zero (a ∷ amounts) = do
    total ← checked_sum consolidation_complete (a ∷ amounts)
    require_zero consolidation_complete total

  unfoldable pub assert_trial_balance_zero : Map BalanceScope (List D) → Checked
  assert_trial_balance_zero [] = ok tt
  assert_trial_balance_zero ((scope, amounts) ∷ balances) = do
    total ← checked_sum trial_balance_zero amounts
    require_zero trial_balance_zero total
    assert_trial_balance_zero balances

  module _ (x : IsExact d) where
    -- Every scope that passes sums to zero exactly, one at a time.
    pub assert_trial_balance_zero-eq-ok :
        (balances : Map BalanceScope (List D))
        → assert_trial_balance_zero balances ≡ ok tt
        → All (λ amounts. sum_units x amounts ≡ pos 0) (values balances)
    unfolding assert_trial_balance_zero
    assert_trial_balance_zero-eq-ok [] h = tt
    assert_trial_balance_zero-eq-ok ((scope, amounts) ∷ balances) h =
        let (s, e, h₁) = >>=-eq-ok (checked_sum trial_balance_zero amounts) _ h in
        let (_, e', h₂) = >>=-eq-ok (require_zero trial_balance_zero s) _ h₁ in
        (
          required_zero x trial_balance_zero amounts e e',
          assert_trial_balance_zero-eq-ok balances h₂,
        )

    net_to_zero-eq-ok :
        (amounts : List D) → net_to_zero amounts ≡ ok tt → sum_units x amounts ≡ pos 0
    net_to_zero-eq-ok [] h = refl
    net_to_zero-eq-ok (a ∷ amounts) h =
        let (s, e, h') = >>=-eq-ok (checked_sum consolidation_complete (a ∷ amounts)) _ h in
        required_zero x consolidation_complete (a ∷ amounts) e h'

module _ {D : Type 0} ⦃d : Arithmetic D⦄ (chart : ChartOfAccounts) where
  -- The condition of the loop's `continue`.
  abbrev pub tolerated : Map Text (Unit {0}) → Text → Account → D → Bool
  tolerated declared reference account amount =
      on_normal_side account amount
      || permits_opposite_sign account
      || contains_key reference declared

  unfoldable pub assert_no_unexpected_negative_balances : Map Text D → Map Text (Unit {0}) → Checked
  assert_no_unexpected_negative_balances [] declared = ok tt
  assert_no_unexpected_negative_balances ((reference, amount) ∷ balances) declared = do
    account ← ok_or (resolve chart reference) (violation negative_balance)
    reject_if (not (tolerated declared reference account amount)) (violation negative_balance)
    assert_no_unexpected_negative_balances balances declared

  unfoldable pub assert_currency_isolation :
      List (JournalLine D) → Currency → (JournalLine D → Text) → Checked
  assert_currency_isolation [] transaction_currency account_label = ok tt
  assert_currency_isolation (l ∷ lines) transaction_currency account_label = do
    amount ← ok_or (signed_amount l) (violation currency_isolation)
    reject_if (not (eq_currency amount.currency transaction_currency))
        (violation currency_isolation)
    check_account (resolve chart (account_label l)) amount.currency
    assert_currency_isolation lines transaction_currency account_label

  -- The amounts on the intercompany accounts.
  unfoldable pub intercompany_amounts : Map Text D → List D
  intercompany_amounts [] = []
  intercompany_amounts ((reference, amount) ∷ balances) =
      let rest = intercompany_amounts balances in
      if is_intercompany (resolve chart reference) then amount ∷ rest else rest

  unfoldable pub assert_intercompany_eliminated : Map Text D → Checked
  assert_intercompany_eliminated balances = net_to_zero (intercompany_amounts balances)

  -- A line with one side, in the currency of the transaction and in that of its account.
  abbrev pub IsIsolated : Currency → (JournalLine D → Text) → JournalLine D → Type 0
  IsIsolated c account_label l =
      (m : Money D) × (signed_amount l ≡ some m)
      × (m.currency ≡ c)
      × ((a : Account) (code : Text)
          → resolve chart (account_label l) ≡ some a
          → a.currency ≡ some code
          → from_code code ≡ some c)

  -- Lines that pass have exactly one side each, all in the currency of the transaction, and a line
  -- on an account that the chart restricts to a currency is in that one.
  pub assert_currency_isolation-eq-ok :
      (lines : List (JournalLine D)) (c : Currency) (account_label : JournalLine D → Text)
      → assert_currency_isolation lines c account_label ≡ ok tt
      → All (IsIsolated c account_label) lines
  unfolding assert_currency_isolation
  assert_currency_isolation-eq-ok [] c account_label h = tt
  assert_currency_isolation-eq-ok (l ∷ lines) c account_label h =
      let (m, e, h₁) = >>=-eq-ok (ok_or (signed_amount l) (violation currency_isolation)) _ h in
      let (_, e', h₂) = >>=-eq-ok (reject_if (not (eq_currency m.currency c)) _) _ h₁ in
      let (_, e'', h₃) =
        >>=-eq-ok (check_account (resolve chart (account_label l)) m.currency) _ h₂ in
      let same = eq_currency_sound m.currency c (not-eq-false _ (reject_if-eq-ok _ _ e')) in
      (
        (
          m,
          ok_or-eq-ok _ _ e,
          same,
          λ a code found restricted.
              check_account-eq-ok (resolve chart (account_label l)) c a code (rw (← same) e'') found
                restricted,
        ),
        assert_currency_isolation-eq-ok lines c account_label h₃,
      )

  module _ (x : IsExact d) where
    -- Balances that pass have intercompany amounts that sum to zero exactly.
    pub assert_intercompany_eliminated-eq-ok :
        (balances : Map Text D)
        → assert_intercompany_eliminated balances ≡ ok tt
        → sum_units x (intercompany_amounts balances) ≡ pos 0
    unfolding assert_intercompany_eliminated
    assert_intercompany_eliminated-eq-ok balances h =
        net_to_zero-eq-ok x (intercompany_amounts balances) h
