-- ===== src/Cost/Inputs.antt =====
-- The discounts and the coverage that `PricingInputs::compute` of crates/cost-spine/src/pricing.rs
-- reads, in terms of values.
use falkr_lite.Base.{
  ◌≡◌, ◌⊎◌, sym, ap, subst, Bool, false, Option, none, some, arith, List, [], ◌∷◌, All,
}
use falkr_lite.Base.Int.{pos, ◌≤ℤ◌}
use falkr_lite.Base.Outcome.{
  ok, or_panic-eq-ok, >>=-eq-ok, ok-injective, reject_if, reject_if-eq-ok,
}
use falkr_lite.Decimal.{Arithmetic, IsExact}
use falkr_lite.Cost.Pricing.{
  Discount, rate, CommitmentCoverage, negative_coverage, min_decimal, discount_rate_out_of_range,
  out_of_range, minus, times, check_discounts, retained_from, coverage,
}

module _ {D : Type 0} ⦃d : Arithmetic D⦄ where
  pub check_discounts-eq-ok :
      (cs : List (Discount D))
      → check_discounts cs ≡ ok tt
      → All (λ c. out_of_range (rate c) ≡ false) cs
  unfolding check_discounts
  check_discounts-eq-ok [] h = tt
  check_discounts-eq-ok (c ∷ cs) h =
      let (_, e, h') =
        >>=-eq-ok (reject_if (out_of_range (rate c)) (discount_rate_out_of_range (rate c))) _ h in
      (reject_if-eq-ok _ _ e, check_discounts-eq-ok cs h')

  -- The share of the price that the discounts leave, one after the other.
  abbrev pub Leaves : List (Discount D) → D → D → Type 0
  Leaves [] share left = share ≡ left
  Leaves (c ∷ cs) share left =
      (kept : D) × (next : D) × (d.checked_sub d.one (rate c) ≡ some kept)
      × (d.checked_mul share kept ≡ some next)
      × Leaves cs next left

  pub retained_from-Leaves :
      (cs : List (Discount D)) (share : D) {left : D}
      → retained_from share cs ≡ ok left
      → Leaves cs share left
  unfolding retained_from
  retained_from-Leaves [] share h = ok-injective h
  retained_from-Leaves (c ∷ cs) share h =
      let (kept, e₁, h) = >>=-eq-ok (minus d.one (rate c)) _ h in
      let (next, e₂, h) = >>=-eq-ok (times share kept) _ h in
      (kept, next, or_panic-eq-ok _ e₁, or_panic-eq-ok _ e₂, retained_from-Leaves cs next h)

module _ {D : Type 0} ⦃d : Arithmetic D⦄ (x : IsExact d) where
  rate_in_range :
      (r : D) → out_of_range r ≡ false → (pos 0 ≤ℤ x.units r) × (x.units r ≤ℤ x.units d.one)
  rate_in_range r h =
      let k = rw (x.units-cmp r d.zero, x.units-cmp r d.one, x.units-zero) at h in
      (ground (arith, k), ground (arith, k))

  pub rates_in_range :
      (cs : List (Discount D))
      → All (λ c. out_of_range (rate c) ≡ false) cs
      → All (λ c. (pos 0 ≤ℤ x.units (rate c)) × (x.units (rate c) ≤ℤ x.units d.one)) cs
  rates_in_range [] h = tt
  rates_in_range (c ∷ cs) (one, h) = (rate_in_range (rate c) one, rates_in_range cs h)

  -- The smaller of two decimals.
  abbrev pub IsSmaller : D → D → D → Type 0
  IsSmaller a b m = ((m ≡ a) × (x.units a ≤ℤ x.units b)) ⊎ ((m ≡ b) × (x.units b ≤ℤ x.units a))

  pub min_decimal-IsSmaller : (a b : D) → IsSmaller a b (min_decimal a b)
  min_decimal-IsSmaller a b = rw (x.units-cmp b a) (ground arith)

  -- The quantity that a commitment covers, and its price.
  abbrev pub Covers : D → Option (CommitmentCoverage D) → D → D → Type 0
  Covers quantity none q price = (q ≡ d.zero) × (price ≡ d.zero)
  Covers quantity (some k) q price =
      IsSmaller k.covered_quantity quantity q × (price ≡ k.committed_unit_price)

  pub coverage-Covers :
      (quantity : D) (o : Option (CommitmentCoverage D)) (cover : D × D × Bool)
      → coverage quantity o ≡ ok cover
      → Covers quantity o cover.0 cover.1
  unfolding coverage
  coverage-Covers quantity none cover h =
      (ap (λ t. t.0) (sym (ok-injective h)), ap (λ t. t.1) (sym (ok-injective h)))
  coverage-Covers quantity (some k) cover h =
      let (_, _, h') =
        >>=-eq-ok (reject_if (d.is_sign_negative k.covered_quantity) (negative_coverage _)) _ h in
      let same = ok-injective h' in
      (
        subst (λ t. IsSmaller k.covered_quantity quantity t.0) same
            (min_decimal-IsSmaller k.covered_quantity quantity),
        ap (λ t. t.1) (sym same),
      )
