-- ===== src/Testkit/Conservation.antt =====
-- The parts that `allocate` returns sum to the whole, and its loop ends: allocation.rs of
-- crates/testkit/src.
use falkr_lite.Base.{
  ℕ, zero, suc, ◌*◌, ◌≡◌, refl, ap, ◌∙◌, List, [], ◌∷◌, is_empty, length, arith, Bool-cases,
  Option-cases, inl, inr, ltb,
}
use falkr_lite.Base.Int.{pos, ◌+ℤ◌, int_laws, parts, eq_of_parts}
use falkr_lite.Base.Outcome.{ok, ok_or-eq-ok, >>=-eq-ok, ok-injective, reject_if}
use falkr_lite.Decimal.{Arithmetic, IsExact}
use falkr_lite.Shares.{Remainder, sort_remainders, sum_units, update_at-adds}
use falkr_lite.Testkit.Allocation.{
  no_weights, scale_too_large, zero_weight, overflow, checked, sum_weights, exact_share,
  truncate_shares, cursor_index, bump, distribute, allocate,
}

module _ {D : Type 0} ⦃d : Arithmetic D⦄ (x : IsExact d) where
  truncate_shares-sums :
      (total weight_total : D) (scale i : ℕ) (allocated : D) (weights : List D)
      {cut : D × List D × List (Remainder D)}
      → truncate_shares total weight_total scale i allocated weights ≡ ok cut
      → (x.units cut.0 ≡ x.units allocated +ℤ sum_units x cut.1) × (length cut.1 ≡ length weights)
  unfolding truncate_shares
  truncate_shares-sums total weight_total scale i allocated [] h =
      rw (← ok-injective h) (omega int_laws, refl)
  truncate_shares-sums total weight_total scale i allocated (w ∷ ws) h =
      let (exact, _, h) = >>=-eq-ok (exact_share total weight_total w) _ h in
      let (next, e, h) =
        >>=-eq-ok (checked (d.checked_add allocated (d.truncate_dp scale exact))) _ h in
      let (cut, _, h) = >>=-eq-ok (checked (d.checked_sub exact (d.truncate_dp scale exact))) _ h in
      let (rest, e', h) =
        >>=-eq-ok (truncate_shares total weight_total scale (suc i) next ws) _ h in
      let val = x.units-checked_add allocated (d.truncate_dp scale exact) (ok_or-eq-ok _ _ e) in
      let (sums, len) = truncate_shares-sums total weight_total scale (suc i) next ws e' in
      rw (← ok-injective h) (omega (int_laws, parts val, parts sums), ap suc len)

  checked-adds :
      (step a b : D) → checked (d.checked_add a step) ≡ ok b → x.units b ≡ x.units a +ℤ x.units step
  checked-adds step a b h = x.units-checked_add a step (ok_or-eq-ok _ _ h)

  bump-adds :
      (step : D) (rs : List (Remainder D)) (cursor : ℕ) (ps : List D) {qs : List D}
      → bump step rs cursor ps ≡ ok qs
      → (sum_units x qs ≡ sum_units x ps +ℤ x.units step) × (length qs ≡ length ps)
  bump-adds step rs cursor ps h = elim (Option-cases (cursor_index rs cursor)) [
    | inl outside ↦ cc (rw (outside, bump) at h)
    | inr (i, found) ↦
        update_at-adds x (λ a. checked (d.checked_add a step)) (x.units step) ps i
          (checked-adds step) (rw (found, bump) at h)
  ]

  -- What is left and what has been given out always make up the same amount, and the loop stops
  -- with nothing left.
  distribute-sums :
      (rounds : ℕ) (step : D) (rs : List (Remainder D)) (cursor : ℕ) (leftover : D) (ps : List D)
      {qs : List D}
      → distribute rounds step rs cursor leftover ps ≡ ok qs
      → (sum_units x qs ≡ sum_units x ps +ℤ x.units leftover) × (length qs ≡ length ps)
  unfolding distribute
  distribute-sums zero step rs cursor leftover ps h = elim (Bool-cases (d.is_zero leftover)) [
    | inl done ↦
        let z : x.units leftover ≡ pos 0 =
          ground (arith, x.units-is_zero leftover, eq_of_parts (x.units leftover) (pos 0)) in
        rw (← ok-injective (rw done at h)) (omega (int_laws, parts z), refl)
    | inr more ↦ cc (rw more at h)
  ]
  distribute-sums (suc rounds) step rs cursor leftover ps h =
      elim (Bool-cases (d.is_zero leftover)) [
        | inl done ↦
            let z : x.units leftover ≡ pos 0 =
              ground (arith, x.units-is_zero leftover, eq_of_parts (x.units leftover) (pos 0)) in
            rw (← ok-injective (rw done at h)) (omega (int_laws, parts z), refl)
        | inr more ↦
            let (bumped, e₁, h₁) = >>=-eq-ok (bump step rs cursor ps) _ (rw more at h) in
            let (less, e₂, h₂) = >>=-eq-ok (checked (d.checked_sub leftover step)) _ h₁ in
            let (_, _, h₃) =
              >>=-eq-ok (reject_if (ltb (length rs * 2) (suc cursor)) overflow) _ h₂ in
            let (val, len) = bump-adds step rs cursor ps e₁ in
            let sub = x.units-checked_sub leftover step (ok_or-eq-ok _ _ e₂) in
            let (sums, len') = distribute-sums rounds step rs (suc cursor) less bumped h₃ in
            (omega (int_laws, parts val, parts sub, parts sums), len' ∙ len)
      ]

  -- The parts that `allocate` returns are as many as the weights, and they sum to the total
  -- exactly.
  pub allocate-conserves :
      (total : D) (weights : List D) (scale : ℕ) {shares : List D}
      → allocate total weights scale ≡ ok shares
      → (sum_units x shares ≡ x.units total) × (length shares ≡ length weights)
  unfolding allocate
  allocate-conserves total weights scale h =
      let (_, _, h) = >>=-eq-ok (reject_if (is_empty weights) no_weights) _ h in
      let (_, _, h) = >>=-eq-ok (reject_if (ltb 28 scale) (scale_too_large scale)) _ h in
      let (weight_total, _, h) = >>=-eq-ok (sum_weights d.zero weights) _ h in
      let (_, _, h) = >>=-eq-ok (reject_if (d.is_zero weight_total) zero_weight) _ h in
      let (cut, e, h) = >>=-eq-ok (truncate_shares total weight_total scale 0 d.zero weights) _ h in
      let (leftover, e', h) = >>=-eq-ok (checked (d.checked_sub total cut.0)) _ h in
      let (sums, len) = truncate_shares-sums total weight_total scale 0 d.zero weights e in
      let sub = x.units-checked_sub total cut.0 (ok_or-eq-ok _ _ e') in
      let (val, len') = distribute-sums _ _ (sort_remainders cut.2) 0 leftover cut.1 h in
      (omega (int_laws, parts sums, parts x.units-zero, parts sub, parts val), len' ∙ len)
