-- ===== src/Testkit/Comparison.antt =====
-- Two balance maps compared account by account: `assert_roll_forward` of
-- crates/testkit/src/assertions.rs and `compare` of crates/testkit/src/ads_export.rs.
use falkr_lite.Base.{
  ◌≡◌, ◌≢◌, ◌↔◌, refl, sym, ◌∙◌, not, not-eq-false, true, none, some, List, [], ◌∷◌, ◌++◌, All,
  All-of_every, arith, inl, inr, Option-cases,
}
use falkr_lite.Base.Int.{ℤ, pos, eq_of_parts}
use falkr_lite.Base.Text.{Text}
use falkr_lite.Base.Map.{Map, text_key, keys, lookup}
use falkr_lite.Base.KeySet.{collect_keys, keys-All-lookup, collect_keys-has}
use falkr_lite.Base.Outcome.{ok, reject_if, reject_if-eq-ok, >>=-eq-ok, ◌>>◌}
use falkr_lite.Decimal.{Arithmetic, IsExact}
use falkr_lite.Core.Money.{is_equal}
use falkr_lite.Testkit.Assertions.{Invariant, violation, roll_forward, trial_balance_zero, Checked}

module _ {D : Type 0} ⦃d : Arithmetic D⦄ where
  -- `get(account).copied().unwrap_or(Decimal::ZERO)`
  abbrev pub amount_or_zero : Text → Map Text D → D
  amount_or_zero account m = elim (lookup account m) [ none ↦ d.zero | some v ↦ v ]

  -- The loop over the union of the accounts.
  unfoldable pub agree_on : Invariant → List Text → Map Text D → Map Text D → Checked
  agree_on i [] left right = ok tt
  agree_on i (account ∷ accounts) left right = do
    reject_if (not (is_equal (d.cmp (amount_or_zero account left) (amount_or_zero account right))))
        (violation i)
    agree_on i accounts left right

  abbrev pub union_accounts : Map Text D → Map Text D → List Text
  union_accounts left right = keys (collect_keys (keys left ++ keys right) [])

  unfoldable pub assert_roll_forward : Map Text D → Map Text D → Checked
  assert_roll_forward closing opening =
      agree_on roll_forward (union_accounts closing opening) closing opening

  -- `compare` of the export
  unfoldable pub compare_balances : Map Text D → Map Text D → Checked
  compare_balances left right = agree_on trial_balance_zero (union_accounts left right) left right

module _ {D : Type 0} ⦃d : Arithmetic D⦄ (x : IsExact d) where
  -- The units under a key, zero where there is no such key.
  abbrev pub units_at : Text → Map Text D → ℤ
  units_at account m = elim (lookup account m) [ none ↦ pos 0 | some v ↦ x.units v ]

  pub units-amount_or_zero :
      (account : Text) (m : Map Text D) → x.units (amount_or_zero account m) ≡ units_at account m
  units-amount_or_zero account m = elim (Option-cases (lookup account m)) [
    | inl absent ↦ rw (absent, amount_or_zero, units_at) x.units-zero
    | inr (v, present) ↦ rw (present, amount_or_zero, units_at) refl
  ]

  is_equal-cmp_iff : (a b : D) → (is_equal (d.cmp a b) ≡ true) ↔ (x.units a ≡ x.units b)
  is_equal-cmp_iff a b = (
    ground (arith, x.units-cmp a b, eq_of_parts (x.units a) (x.units b)),
    λ e. rw (x.units-cmp a b, e) (ground arith),
  )

  agree_on_iff :
      (i : Invariant) (accounts : List Text) (left right : Map Text D)
      → (agree_on i accounts left right ≡ ok tt)
        ↔ All (λ a. units_at a left ≡ units_at a right) accounts
  unfolding agree_on
  agree_on_iff i [] left right = (λ h. tt, λ h. refl)
  agree_on_iff i (a ∷ accounts) left right =
      let rest = agree_on_iff i accounts left right in
      let (found, agree) = is_equal-cmp_iff (amount_or_zero a left) (amount_or_zero a right) in
      let left_units = units-amount_or_zero a left in
      let right_units = units-amount_or_zero a right in
      (
        λ h.
            let (_, e, h') = >>=-eq-ok _ _ h in
            (
              sym left_units ∙ found (not-eq-false _ (reject_if-eq-ok _ _ e)) ∙ right_units,
              rest.0 h',
            ),
        λ all. rw (agree (left_units ∙ all.0 ∙ sym right_units)) (rest.1 all.1),
      )

  units_at-eq-zero : (a : Text) (m : Map Text D) → lookup a m ≡ none → units_at a m ≡ pos 0
  units_at-eq-zero a m absent = rw (absent, units_at) refl

  covered :
      (left right : Map Text D) (a : Text)
      → All (λ b. units_at b left ≡ units_at b right) (union_accounts left right)
      → lookup a (collect_keys (keys left ++ keys right) []) ≢ none
      → units_at a left ≡ units_at a right
  covered left right a all =
      keys-All-lookup (λ b. units_at b left ≡ units_at b right)
        (collect_keys (keys left ++ keys right) []) a all

  union_iff :
      (i : Invariant) (left right : Map Text D)
      → (agree_on i (union_accounts left right) left right ≡ ok tt)
        ↔ ((a : Text) → units_at a left ≡ units_at a right)
  union_iff i left right =
      let (holds, passes) = agree_on_iff i (union_accounts left right) left right in
      (
        λ h a. elim (Option-cases (lookup a left)) [
          | inr (v, present) ↦
              covered left right a (holds h)
                (collect_keys-has left right [] a (inl (λ e. cc (e, present))))
          | inl absent ↦ elim (Option-cases (lookup a right)) [
            | inr (v, present) ↦
                covered left right a (holds h)
                  (collect_keys-has left right [] a (inr (λ e. cc (e, present))))
            | inl absent' ↦ units_at-eq-zero a left absent ∙ sym (units_at-eq-zero a right absent')
          ]
        ],
        λ same. passes (All-of_every (union_accounts left right) same),
      )

  -- The roll-forward passes exactly when every account opens with the value that it closed with,
  -- an account that is missing from either side counting as zero.
  pub assert_roll_forward_iff :
      (closing opening : Map Text D)
      → (assert_roll_forward closing opening ≡ ok tt)
        ↔ ((a : Text) → units_at a closing ≡ units_at a opening)
  unfolding assert_roll_forward
  assert_roll_forward_iff closing opening = union_iff roll_forward closing opening

  pub compare_balances_iff :
      (left right : Map Text D)
      → (compare_balances left right ≡ ok tt) ↔ ((a : Text) → units_at a left ≡ units_at a right)
  unfolding compare_balances
  compare_balances_iff left right = union_iff trial_balance_zero left right
