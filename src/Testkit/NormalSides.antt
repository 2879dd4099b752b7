-- ===== src/Testkit/NormalSides.antt =====
-- `assert_no_unexpected_negative_balances` of crates/testkit/src/assertions.rs against the normal
-- sides of accounts, said in terms of values, account kinds and policies.
use falkr_lite.Base.{
  ◌≡◌, ◌≢◌, ◌↔◌, ◌⊎◌, refl, Bool, Bool-cases, true, false, not, not-eq-false, none, some, [], ◌∷◌,
  All, arith, inl, inr,
}
use falkr_lite.Base.Text.{Text}
use falkr_lite.Base.Map.{Map, text_key, lookup}
use falkr_lite.Base.Outcome.{ok, ok_or, ok_or-eq-ok, reject_if, reject_if-eq-ok, >>=-eq-ok}
use falkr_lite.Decimal.{Arithmetic}
use falkr_lite.Testkit.Chart.{
  AccountKind, asset, liability, equity, revenue, expense, Account, ChartOfAccounts, resolve,
  natural_side, flip, normal_balance, rejects_opposite_sign_by_default, on_normal_side,
  permits_opposite_sign,
}
use falkr_lite.Testkit.Assertions.{violation, negative_balance}
use falkr_lite.Testkit.ChartChecks.{tolerated, assert_no_unexpected_negative_balances}

-- Whether an account is debited when it grows: an asset or an expense, or the contra account of
-- another kind.
abbrev pub grows_by_debit : AccountKind → Bool → Bool
grows_by_debit asset contra = not contra
grows_by_debit expense contra = not contra
grows_by_debit liability contra = contra
grows_by_debit equity contra = contra
grows_by_debit revenue contra = contra

-- The policy of the account allows both signs: it says so, or it says nothing and the account is
-- a liability, equity or revenue.
abbrev pub MayBeOpposite : Account → Type 0
MayBeOpposite a =
    (a.allow_opposite_sign ≡ some true)
    ⊎ ((a.allow_opposite_sign ≡ none) × (a.kind ≢ asset) × (a.kind ≢ expense))

permits_opposite_sign_iff : (a : Account) → (permits_opposite_sign a ≡ true) ↔ MayBeOpposite a
unfolding permits_opposite_sign rejects_opposite_sign_by_default
permits_opposite_sign_iff a = (λ h. ground arith, λ h. ground arith)

module _ {D : Type 0} ⦃d : Arithmetic D⦄ where
  -- A decimal that does not carry a minus sign, or one that carries it or is zero.
  abbrev pub OnNormalSide : Account → D → Type 0
  OnNormalSide a amount =
      ((grows_by_debit a.kind a.contra ≡ true) × (d.is_sign_negative amount ≡ false))
      ⊎ ((grows_by_debit a.kind a.contra ≡ false)
          × ((d.is_sign_negative amount ≡ true) ⊎ (d.is_zero amount ≡ true)))

  on_normal_side_iff :
      (a : Account) (amount : D) → (on_normal_side a amount ≡ true) ↔ OnNormalSide a amount
  unfolding on_normal_side normal_balance natural_side flip
  on_normal_side_iff a amount = (λ h. ground arith, λ h. ground arith)

  module _ (chart : ChartOfAccounts) where
    -- An account on the chart, whose balance is on its normal side, or may be on the other, or is
    -- declared to be.
    abbrev pub IsExpected : Map Text (Unit {0}) → Text × D → Type 0
    IsExpected declared (reference, amount) =
        (a : Account) × (resolve chart reference ≡ some a)
        × (OnNormalSide a amount ⊎ MayBeOpposite a ⊎ (lookup reference declared ≡ some tt))

    pub tolerated_iff :
        (declared : Map Text (Unit {0})) (reference : Text) (a : Account) (amount : D)
        → (tolerated chart declared reference a amount ≡ true)
          ↔ (OnNormalSide a amount ⊎ MayBeOpposite a ⊎ (lookup reference declared ≡ some tt))
    tolerated_iff declared reference a amount =
        let (side, sided) = on_normal_side_iff a amount in
        let (policy, permitted) = permits_opposite_sign_iff a in
        (
          λ h. elim (Bool-cases (on_normal_side a amount)) [
            | inl normal ↦ inl (side normal)
            | inr other ↦ elim (Bool-cases (permits_opposite_sign a)) [
              | inl allowed ↦ inr (inl (policy allowed))
              | inr forbidden ↦ inr (inr (ground (arith, h, other, forbidden)))
            ]
          ],
          λ h. elim h [
            | inl normal ↦ rw (sided normal) refl
            | inr (inl allowed) ↦ ground (arith, permitted allowed)
            | inr (inr known) ↦ ground (arith, known)
          ],
        )

    -- Balances pass exactly when each reference resolves to an account of the chart, and its
    -- balance is on the normal side of the account, or the policy of the account allows both
    -- signs, or the reference is declared. The normal side of an asset, of an expense and of a
    -- contra account of another kind is a decimal without a minus sign; that of any other account
    -- is zero or a decimal with one. A policy that is not written allows both signs except on
    -- assets and expenses.
    pub assert_no_unexpected_negative_balances_iff :
        (balances : Map Text D) (declared : Map Text (Unit {0}))
        → (assert_no_unexpected_negative_balances chart balances declared ≡ ok tt)
          ↔ All (IsExpected declared) balances
    unfolding assert_no_unexpected_negative_balances
    assert_no_unexpected_negative_balances_iff [] declared = (λ h. tt, λ h. refl)
    assert_no_unexpected_negative_balances_iff ((reference, amount) ∷ balances) declared =
        let (found, passes) = assert_no_unexpected_negative_balances_iff balances declared in
        (
          λ h.
              let (a, e, h₁) =
                >>=-eq-ok (ok_or (resolve chart reference) (violation negative_balance)) _ h in
              let (_, e', h₂) =
                >>=-eq-ok (reject_if (not (tolerated chart declared reference a amount)) _) _ h₁ in
              (
                (
                  a,
                  ok_or-eq-ok _ _ e,
                  (tolerated_iff declared reference a amount).0
                      (not-eq-false _ (reject_if-eq-ok _ _ e')),
                ),
                found h₂,
              ),
          λ ((a, e, t), all). rw (e, (tolerated_iff declared reference a amount).1 t) (passes all),
        )
