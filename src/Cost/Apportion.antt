-- ===== src/Cost/Apportion.antt =====
-- Apportionment loses and invents nothing: `apportion` of crates/cost-spine/src/pricing.rs.
use falkr_lite.Base.{
  ℕ, suc, ◌≡◌, refl, ap, ◌∙◌, not, List, [], ◌∷◌, All, map, any, is_empty, length, arith,
  Bool-cases, inl, inr,
}
use falkr_lite.Base.Int.{pos, ◌+ℤ◌, int_laws, parts, eq_of_parts}
use falkr_lite.Base.Outcome.{ok, panic, or_panic-eq-ok, >>=-eq-ok, ok-injective, reject_if}
use falkr_lite.Decimal.{Arithmetic, IsExact}
use falkr_lite.Core.Currency.{Currency}
use falkr_lite.Core.Money.{Money, is_less, is_greater}
use falkr_lite.Core.Money.Laws.{value}
use falkr_lite.Core.Money.Sum.{total}
use falkr_lite.Shares.{update_at, Remainder, sort_remainders, sum_units, update_at-adds}
use falkr_lite.Cost.Pricing.{
  no_weights, invalid_weights, plus, minus, over, in_currency, sum_from, cut_share, cut_shares,
  hand_out, place_residue, ten_to, apportion_by, apportion,
}

module _ {D : Type 0} ⦃d : Arithmetic D⦄ (x : IsExact d) where
  sum_from-eq-ok :
      (acc : D) (items : List D) {s : D}
      → sum_from acc items ≡ ok s
      → x.units s ≡ x.units acc +ℤ sum_units x items
  unfolding sum_from
  sum_from-eq-ok acc [] h = rw (← ok-injective h) (omega int_laws)
  sum_from-eq-ok acc (a ∷ rest) h =
      let (next, e, h') = >>=-eq-ok (plus acc a) _ h in
      let val = x.units-checked_add acc a (or_panic-eq-ok _ e) in
      omega (int_laws, parts val, parts (sum_from-eq-ok next rest h'))

  cut_shares-length :
      (amount weight_sum : D) (dp i : ℕ) (weights : List D) {cut : List D × List (Remainder D)}
      → cut_shares amount weight_sum dp i weights ≡ ok cut
      → length cut.0 ≡ length weights
  unfolding cut_shares
  cut_shares-length amount weight_sum dp i [] h = rw (← ok-injective h) refl
  cut_shares-length amount weight_sum dp i (w ∷ ws) h =
      let (cut, e, h₁) = >>=-eq-ok (cut_share amount weight_sum dp w) _ h in
      let (rest, e', h₂) = >>=-eq-ok (cut_shares amount weight_sum dp (suc i) ws) _ h₁ in
      rw (← ok-injective h₂) (ap suc (cut_shares-length amount weight_sum dp (suc i) ws e'))

  plus-adds : (step a b : D) → plus a step ≡ ok b → x.units b ≡ x.units a +ℤ x.units step
  plus-adds step a b h = x.units-checked_add a step (or_panic-eq-ok _ h)

  -- Handing out units moves them from what is left to the shares.
  hand_out-keeps :
      (step leftover : D) (rs : List (Remainder D)) (floored : List D) {out : D × List D}
      → hand_out step leftover rs floored ≡ ok out
      → (x.units out.0 +ℤ sum_units x out.1 ≡ x.units leftover +ℤ sum_units x floored)
        × (length out.1 ≡ length floored)
  unfolding hand_out
  hand_out-keeps step leftover [] floored h = rw (← ok-injective h) (refl, refl)
  hand_out-keeps step leftover (r ∷ rs) floored h =
      elim (Bool-cases (is_less (d.cmp leftover step))) [
        | inl small ↦ rw (← ok-injective (rw small at h)) (refl, refl)
        | inr large ↦
            let (topped, e, h₁) =
              >>=-eq-ok (update_at (λ a. plus a step) floored r.0) _ (rw large at h) in
            let (less, e', h₂) = >>=-eq-ok (minus leftover step) _ h₁ in
            let (val, len) = update_at-adds x _ (x.units step) floored r.0 (plus-adds step) e in
            let sub = x.units-checked_sub leftover step (or_panic-eq-ok _ e') in
            let (keeps, len') = hand_out-keeps step less rs topped h₂ in
            (omega (int_laws, parts val, parts sub, parts keeps), len' ∙ len)
      ]

  place_residue-adds :
      (leftover : D) (sorted : List (Remainder D)) (floored : List D) {shares : List D}
      → place_residue leftover sorted floored ≡ ok shares
      → (sum_units x shares ≡ sum_units x floored +ℤ x.units leftover)
        × (length shares ≡ length floored)
  unfolding place_residue
  place_residue-adds leftover sorted floored h = elim (Bool-cases (d.is_zero leftover)) [
    | inl none_left ↦
        let z : x.units leftover ≡ pos 0 =
          ground (arith, x.units-is_zero leftover, eq_of_parts (x.units leftover) (pos 0)) in
        rw (← ok-injective (rw none_left at h)) (omega (int_laws, parts z), refl)
    | inr some_left ↦ placed sorted (rw some_left at h)
  ]
    where
      placed :
          (sorted : List (Remainder D)) {shares : List D}
          → elim sorted [ [] ↦ panic | r ∷ rs ↦ update_at (λ a. plus a leftover) floored r.0 ]
            ≡ ok shares
          → (sum_units x shares ≡ sum_units x floored +ℤ x.units leftover)
            × (length shares ≡ length floored)
      placed [] h = cc
      placed (r ∷ rs) h = update_at-adds x _ (x.units leftover) floored r.0 (plus-adds leftover) h

  apportion_by-keeps :
      (amount : D) (weights : List D) (weight_sum : D) (dp : ℕ) {shares : List D}
      → apportion_by amount weights weight_sum dp ≡ ok shares
      → (sum_units x shares ≡ x.units amount) × (length shares ≡ length weights)
  unfolding apportion_by
  apportion_by-keeps amount weights weight_sum dp h =
      let (power, _, h) = >>=-eq-ok (ten_to dp) _ h in
      let (step, _, h) = >>=-eq-ok (over d.one power) _ h in
      let (cut, cuts, h) = >>=-eq-ok (cut_shares amount weight_sum dp 0 weights) _ h in
      let (distributed, e, h) = >>=-eq-ok (sum_from d.zero cut.0) _ h in
      let (leftover, e', h) = >>=-eq-ok (minus amount distributed) _ h in
      let (topped, e'', h) = >>=-eq-ok (hand_out step leftover (sort_remainders cut.1) cut.0) _ h in
      let sum = sum_from-eq-ok d.zero cut.0 e in
      let sub = x.units-checked_sub amount distributed (or_panic-eq-ok _ e') in
      let (keeps, len) = hand_out-keeps step leftover (sort_remainders cut.1) cut.0 e'' in
      let (adds, len') = place_residue-adds topped.0 (sort_remainders cut.1) topped.1 h in
      (
        omega (int_laws, parts sum, parts x.units-zero, parts sub, parts keeps, parts adds),
        len' ∙ len ∙ cut_shares-length amount weight_sum dp 0 weights cuts,
      )

  shares_in_currency :
      (c : Currency) (shares : List D)
      → (total x (map (in_currency c) shares) ≡ sum_units x shares)
        × (length (map (in_currency c) shares) ≡ length shares)
        × All (λ m. m.currency ≡ c) (map (in_currency c) shares)
  shares_in_currency c [] = (refl, refl, tt)
  shares_in_currency c (a ∷ rest) =
      let (val, len, all) = shares_in_currency c rest in
      (ap (λ t. x.units a +ℤ t) val, ap suc len, (refl, all))

  -- The shares that `apportion` returns are as many as the weights, each in the currency of the
  -- total, and they sum to the total exactly.
  pub apportion-conserves :
      (whole : Money D) (weights : List D) (dp : ℕ) {shares : List (Money D)}
      → apportion whole weights dp ≡ ok shares
      → (total x shares ≡ value x whole)
        × (length shares ≡ length weights)
        × All (λ m. m.currency ≡ whole.currency) shares
  unfolding apportion
  apportion-conserves whole weights dp h =
      let (_, _, h) = >>=-eq-ok (reject_if (is_empty weights) no_weights) _ h in
      let (_, _, h) = >>=-eq-ok (reject_if (any d.is_sign_negative weights) invalid_weights) _ h in
      let (weight_sum, _, h) = >>=-eq-ok (sum_from d.zero weights) _ h in
      let (_, _, h) =
        >>=-eq-ok (reject_if (not (is_greater (d.cmp weight_sum d.zero))) invalid_weights) _ h in
      let (shares, e, h) = >>=-eq-ok (apportion_by whole.amount weights weight_sum dp) _ h in
      let (val, len) = apportion_by-keeps whole.amount weights weight_sum dp e in
      let (val', len', all) = shares_in_currency whole.currency shares in
      rw (← ok-injective h) (val' ∙ val, len' ∙ len, all)
