-- ===== src/Testkit/Guarantees.antt =====
-- What an assertion of crates/testkit/src/assertions.rs that passes guarantees.
use falkr_lite.Base.{
  ◌≡◌, ◌≢◌, refl, sym, ◌∙◌, true, not, not-eq-false, none, List, [], ◌∷◌, All, arith, map, length,
  ltb,
}
use falkr_lite.Base.Int.{ℤ, pos, ◌+ℤ◌, ltb_ℤ, sum_ℤ, int_laws, parts, eq_of_parts}
use falkr_lite.Base.Text.{Text}
use falkr_lite.Base.Map.{Map, values}
use falkr_lite.Base.Outcome.{
  ok, ok_or, ok_or-eq-ok, map_err, map_err-eq-ok, >>=-eq-ok, ok-injective, reject_if,
  reject_if-eq-ok,
}
use falkr_lite.Decimal.{Arithmetic, IsExact}
use falkr_lite.Core.Currency.{Currency}
use falkr_lite.Core.Money.{Money, checked_sub, is_zero}
use falkr_lite.Core.Money.Laws.{value, checked_sub-eq-ok}
use falkr_lite.Shares.{sum_units}
use falkr_lite.Ledger.{JournalLine, signed_amount}
use falkr_lite.Ledger.Balances.{signed_units}
use falkr_lite.Testkit.Assertions.{
  Invariant, violation, balanced, deterministic_replay, subledger_ties, trial_balance_zero,
  assert_monotonic_sequence, checked_sum_from, checked_sum, require_zero, collect_signed,
  assert_balanced, assert_balances_net_to_zero, assert_subledger_ties,
}

-- Every number is below all that come after it.
abbrev pub Increasing : List ℤ → Type 0
Increasing [] = Unit
Increasing (n ∷ ns) = All (λ m. ltb_ℤ n m ≡ true) ns × Increasing ns

above_rest :
    (a b : ℤ) (ns : List ℤ)
    → ltb_ℤ a b ≡ true
    → All (λ m. ltb_ℤ b m ≡ true) ns
    → All (λ m. ltb_ℤ a m ≡ true) ns
above_rest a b [] h all = tt
above_rest a b (n ∷ ns) h all = (ground (arith, all.0), above_rest a b ns h all.1)

-- A sequence that passes the check of neighbours is increasing throughout: every number is below
-- all that come after it.
pub assert_monotonic_sequence-Increasing :
    (ns : List ℤ) → assert_monotonic_sequence ns ≡ ok tt → Increasing ns
unfolding assert_monotonic_sequence
assert_monotonic_sequence-Increasing [] h = tt
assert_monotonic_sequence-Increasing (n ∷ []) h = (tt, tt)
assert_monotonic_sequence-Increasing (n ∷ m ∷ ns) h =
    let (_, e, h') = >>=-eq-ok (reject_if (not (ltb_ℤ n m)) (violation deterministic_replay)) _ h in
    let below = not-eq-false _ (reject_if-eq-ok _ _ e) in
    let rest = assert_monotonic_sequence-Increasing (m ∷ ns) h' in
    ((below, above_rest n m ns below rest.0), rest)

module _ {D : Type 0} ⦃d : Arithmetic D⦄ (x : IsExact d) where
  checked_sum_from-eq-ok :
      (i : Invariant) (total : D) (items : List D) {s : D}
      → checked_sum_from i total items ≡ ok s
      → x.units s ≡ x.units total +ℤ sum_units x items
  unfolding checked_sum_from
  checked_sum_from-eq-ok i total [] h = rw (← ok-injective h) (omega int_laws)
  checked_sum_from-eq-ok i total (v ∷ rest) h =
      let (next, e, h') = >>=-eq-ok (ok_or (d.checked_add total v) (violation i)) _ h in
      let val = x.units-checked_add total v (ok_or-eq-ok _ _ e) in
      omega (int_laws, parts val, parts (checked_sum_from-eq-ok i next rest h'))

  units_of_zero : (a : D) → d.is_zero a ≡ true → x.units a ≡ pos 0
  units_of_zero a h = ground (arith, x.units-is_zero a, eq_of_parts (x.units a) (pos 0))

  pub required_zero :
      (i : Invariant) (items : List D) {s : D}
      → checked_sum i items ≡ ok s
      → require_zero i s ≡ ok tt
      → sum_units x items ≡ pos 0
  unfolding checked_sum
  required_zero i items {s} h g =
      let sum = checked_sum_from-eq-ok i d.zero items h in
      let none_left = units_of_zero s (not-eq-false _ (reject_if-eq-ok _ _ g)) in
      omega (int_laws, parts sum, parts none_left, parts x.units-zero)

  -- Balances that pass the check sum to zero exactly: no overflow passes for a zero.
  assert_balances_net_to_zero-eq-ok :
      (amounts : Map Text D)
      → assert_balances_net_to_zero amounts ≡ ok tt
      → sum_units x (values amounts) ≡ pos 0
  unfolding assert_balances_net_to_zero
  assert_balances_net_to_zero-eq-ok amounts h =
      let (s, e, h') = >>=-eq-ok (checked_sum trial_balance_zero (values amounts)) _ h in
      required_zero trial_balance_zero (values amounts) e h'

  collect_signed-sums :
      (lines : List (JournalLine D)) {signed : List D × List Currency}
      → collect_signed lines ≡ ok signed
      → (sum_units x signed.0 ≡ sum_ℤ (map (signed_units x) lines))
        × All (λ l. signed_amount l ≢ none) lines
  unfolding collect_signed
  collect_signed-sums [] h = rw (← ok-injective h) (refl, tt)
  collect_signed-sums (l ∷ lines) h =
      let (amount, e, h₁) = >>=-eq-ok (ok_or (signed_amount l) (violation balanced)) _ h in
      let (rest, e', h₂) = >>=-eq-ok (collect_signed lines) _ h₁ in
      let (sums, all) = collect_signed-sums lines e' in
      let one = ok_or-eq-ok _ _ e in rw (← ok-injective h₂) (rw (one, sums) refl, ((λ n. cc), all))

  -- An entry that passes has lines, each of them has exactly one side, and their signed amounts
  -- sum to zero exactly.
  pub assert_balanced-eq-ok :
      (lines : List (JournalLine D))
      → assert_balanced lines ≡ ok tt
      → (lines ≢ [])
        × All (λ l. signed_amount l ≢ none) lines
        × (sum_ℤ (map (signed_units x) lines) ≡ pos 0)
  unfolding assert_balanced
  assert_balanced-eq-ok [] h = cc
  assert_balanced-eq-ok (l ∷ lines) h =
      let (signed, e, h₁) = >>=-eq-ok (collect_signed (l ∷ lines)) _ h in
      let (_, _, h₂) = >>=-eq-ok (reject_if (ltb 1 (length signed.1)) (violation balanced)) _ h₁ in
      let (s, e', h₃) = >>=-eq-ok (checked_sum balanced signed.0) _ h₂ in
      let (sums, all) = collect_signed-sums (l ∷ lines) e in
      ((λ n. cc), all, sym sums ∙ required_zero balanced signed.0 e' h₃)

  -- A subledger that ties to its control account has its currency and its exact value.
  assert_subledger_ties-eq-ok :
      (subledger : Text) (a b : Money D)
      → assert_subledger_ties subledger a b ≡ ok tt
      → (a.currency ≡ b.currency) × (value x a ≡ value x b)
  unfolding assert_subledger_ties is_zero
  assert_subledger_ties-eq-ok subledger a b h =
      let (m, e, h') = >>=-eq-ok (map_err (λ e. violation subledger_ties) (checked_sub a b)) _ h in
      let (cur, _, val) = checked_sub-eq-ok x a b (map_err-eq-ok _ _ e) in
      let none_left = units_of_zero m.amount (not-eq-false _ (reject_if-eq-ok _ _ h')) in
      (cur, omega (int_laws, parts val, parts none_left))
