-- ===== src/Cost/Measures.antt =====
-- The three cost measures of a line: `PricingInputs::compute` of crates/cost-spine/src/pricing.rs.
use falkr_lite.Base.{◌≡◌, ◌⊎◌, true, false, Option, none, some, All}
use falkr_lite.Base.Int.{pos, ◌+ℤ◌, ◌≤ℤ◌}
use falkr_lite.Decimal.{Arithmetic, IsExact}
use falkr_lite.Core.Money.{Money}
use falkr_lite.Core.Money.Laws.{value}
use falkr_lite.Cost.Pricing.{rate, PricingInputs, CommitmentCoverage, CostAmounts}
use falkr_lite.Cost.Inputs.{Leaves, IsSmaller, Covers}

module _ {D : Type 0} ⦃d : Arithmetic D⦄ (x : IsExact d) where
  -- The inputs can be priced: no negative quantity or price, every rate from 0 to 1, and no
  -- negative coverage.
  abbrev pub IsPriced : PricingInputs D → Type 0
  IsPriced s =
      (d.is_sign_negative s.quantity ≡ false)
      × (d.is_sign_negative s.list_unit_price ≡ false)
      × All (λ c. (pos 0 ≤ℤ x.units (rate c)) × (x.units (rate c) ≤ℤ x.units d.one)) s.discounts
      × ((c : CommitmentCoverage D)
          → s.commitment ≡ some c
          → d.is_sign_negative c.covered_quantity ≡ false)

  -- The effective cost is the billed cost, and on top of it what a prepaid commitment covers: its
  -- quantity, or that of the line if it is smaller, at the committed price.
  abbrev pub PrepaidApart : PricingInputs D → Option (CommitmentCoverage D) → CostAmounts D → Type 0
  PrepaidApart s none c = value x c.effective_cost ≡ value x c.billed_cost
  PrepaidApart s (some k) c =
      (quantity : D) × (covered : D) × IsSmaller x k.covered_quantity s.quantity quantity
      × (d.checked_mul quantity k.committed_unit_price ≡ some covered)
      × (((k.prepaid ≡ true)
            × (value x c.effective_cost ≡ value x c.billed_cost +ℤ x.units covered))
          ⊎ ((k.prepaid ≡ false) × (value x c.effective_cost ≡ value x c.billed_cost)))

  -- The effective cost is that of the quantity which is not covered, at the discounted price, and
  -- that of the covered quantity, at its own price.
  abbrev pub IsEffective : PricingInputs D → CostAmounts D → Type 0
  IsEffective s c =
      (q : D) × (price : D) × (rest : D) × (left : D) × (discounted : D) × (on_demand : D)
      × (covered : D) × Covers x s.quantity s.commitment q price
      × (d.checked_sub s.quantity q ≡ some rest)
      × Leaves s.discounts d.one left
      × (d.checked_mul s.list_unit_price left ≡ some discounted)
      × (d.checked_mul rest discounted ≡ some on_demand)
      × (d.checked_mul q price ≡ some covered)
      × (value x c.effective_cost ≡ x.units on_demand +ℤ x.units covered)
