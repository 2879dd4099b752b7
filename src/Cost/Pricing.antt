-- ===== src/Cost/Pricing.antt =====
-- crates/cost-spine/src/pricing.rs: the cost measures of a line, and apportionment by weights.
-- The operators of `Decimal` panic where the checked forms have no value.
use falkr_lite.Base.{
  ℕ, suc, ◌^◌, Bool, false, not, ◌||◌, Option, none, some, List, [], ◌∷◌, map, any, is_empty,
  if◌then◌else◌, ltb,
}
use falkr_lite.Base.Int.{pos}
use falkr_lite.Base.Outcome.{Outcome, ok, panic, or_panic, map_err, reject_if, ◌>>=◌, ◌>>◌}
use falkr_lite.Decimal.{Arithmetic}
use falkr_lite.Core.Currency.{Currency}
use falkr_lite.Core.Money.{Money, CurrencyMismatch, checked_add, is_less, is_greater}
use falkr_lite.Shares.{update_at, Remainder, sort_remainders}

pub data Discount (D : Type 0) : Type 0 where
  negotiated : D → Discount D
  volume : D → Discount D

-- `Discount::rate`
abbrev pub rate : {D : Type 0} → Discount D → D
rate (negotiated r) = r
rate (volume r) = r

pub record CommitmentCoverage (D : Type 0) : Type 0 where
  pub covered_quantity : D
  pub committed_unit_price : D
  pub prepaid : Bool

pub record PricingInputs (D : Type 0) : Type 0 where
  pub list_unit_price : D
  pub quantity : D
  pub currency : Currency
  pub discounts : List (Discount D)
  pub commitment : Option (CommitmentCoverage D)

pub record CostAmounts (D : Type 0) : Type 0 where
  pub list_cost : Money D
  pub billed_cost : Money D
  pub effective_cost : Money D

pub data PricingError (D : Type 0) : Type 0 where
  discount_rate_out_of_range : D → PricingError D
  negative_quantity : D → PricingError D
  negative_unit_price : D → PricingError D
  negative_coverage : D → PricingError D
  no_weights : PricingError D
  invalid_weights : PricingError D
  currency_error : CurrencyMismatch → PricingError D

module _ {D : Type 0} ⦃d : Arithmetic D⦄ where
  -- `+`, `-`, `*` and `/`
  abbrev pub plus : D → D → Outcome (PricingError D) D
  plus a b = or_panic (d.checked_add a b)

  abbrev pub minus : D → D → Outcome (PricingError D) D
  minus a b = or_panic (d.checked_sub a b)

  abbrev pub times : D → D → Outcome (PricingError D) D
  times a b = or_panic (d.checked_mul a b)

  abbrev pub over : D → D → Outcome (PricingError D) D
  over a b = or_panic (d.checked_div a b)

  abbrev pub out_of_range : D → Bool
  out_of_range r = is_less (d.cmp r d.zero) || is_greater (d.cmp r d.one)

  -- The loop that checks the discounts.
  unfoldable pub check_discounts : List (Discount D) → Outcome (PricingError D) (Unit {0})
  check_discounts [] = ok tt
  check_discounts (c ∷ cs) = do
    reject_if (out_of_range (rate c)) (discount_rate_out_of_range (rate c))
    check_discounts cs

  -- The `fold` that composes the discounts.
  unfoldable pub retained_from : D → List (Discount D) → Outcome (PricingError D) D
  retained_from acc [] = ok acc
  retained_from acc (c ∷ cs) = do
    kept ← minus d.one (rate c)
    next ← times acc kept
    retained_from next cs

  -- `Ord::min`
  abbrev pub min_decimal : D → D → D
  min_decimal a b = if is_less (d.cmp b a) then b else a

  -- Covered quantity, committed price, and whether it is prepaid.
  unfoldable pub coverage :
      D → Option (CommitmentCoverage D) → Outcome (PricingError D) (D × D × Bool)
  coverage quantity none = ok (d.zero, d.zero, false)
  coverage quantity (some c) = do
    reject_if (d.is_sign_negative c.covered_quantity) (negative_coverage c.covered_quantity)
    ok (min_decimal c.covered_quantity quantity, c.committed_unit_price, c.prepaid)

  abbrev pub in_currency : Currency → D → Money D
  in_currency c a = record { amount = a; currency = c }

  -- `billed_cost` and `effective_cost`
  unfoldable pub measures :
      Money D → Money D → Money D → Bool → Outcome (PricingError D) (CostAmounts D)
  measures list on_demand covered prepaid = do
    billed ←
        (if prepaid then ok on_demand else map_err currency_error (checked_add on_demand covered))
    effective ← map_err currency_error (checked_add on_demand covered)
    ok (record { list_cost = list; billed_cost = billed; effective_cost = effective })

  -- `PricingInputs::compute`
  unfoldable pub compute : PricingInputs D → Outcome (PricingError D) (CostAmounts D)
  compute s = do
    reject_if (d.is_sign_negative s.quantity) (negative_quantity s.quantity)
    reject_if (d.is_sign_negative s.list_unit_price) (negative_unit_price s.list_unit_price)
    check_discounts s.discounts
    retained ← retained_from d.one s.discounts
    discounted ← times s.list_unit_price retained
    cover ← coverage s.quantity s.commitment
    on_demand_qty ← minus s.quantity cover.0
    list_amount ← times s.list_unit_price s.quantity
    on_demand_amount ← times on_demand_qty discounted
    covered_amount ← times cover.0 cover.1
    measures (in_currency s.currency list_amount) (in_currency s.currency on_demand_amount)
        (in_currency s.currency covered_amount) cover.2

  -- `iter().sum()`
  unfoldable pub sum_from : D → List D → Outcome (PricingError D) D
  sum_from acc [] = ok acc
  sum_from acc (a ∷ rest) = plus acc a >>= λ next. sum_from next rest

  -- One round of the loop over the weights: the share rounded toward zero, and what was cut off.
  unfoldable pub cut_share : D → D → ℕ → D → Outcome (PricingError D) (D × D)
  cut_share amount weight_sum dp w = do
    product ← times amount w
    exact ← over product weight_sum
    remainder ← minus exact (d.truncate_dp dp exact)
    ok (d.truncate_dp dp exact, remainder)

  -- The loop, from an index on: the floored shares, and the remainders with their indices.
  unfoldable pub cut_shares :
      D → D → ℕ → ℕ → List D → Outcome (PricingError D) (List D × List (Remainder D))
  cut_shares amount weight_sum dp i [] = ok ([], [])
  cut_shares amount weight_sum dp i (w ∷ ws) = do
    cut ← cut_share amount weight_sum dp w
    rest ← cut_shares amount weight_sum dp (suc i) ws
    ok (cut.0 ∷ rest.0, (i, cut.1) ∷ rest.1)

  -- `while leftover >= step && idx < remainders.len()`, on the remainders not yet visited.
  unfoldable pub hand_out :
      D → D → List (Remainder D) → List D → Outcome (PricingError D) (D × List D)
  hand_out step leftover [] floored = ok (leftover, floored)
  hand_out step leftover (r ∷ rs) floored =
      if is_less (d.cmp leftover step)
      then ok (leftover, floored)
      else update_at (λ a. plus a step) floored r.0 >>= λ topped.
          minus leftover step >>= λ less. hand_out step less rs topped

  -- What is left below one unit goes to the largest remainder.
  unfoldable pub place_residue : D → List (Remainder D) → List D → Outcome (PricingError D) (List D)
  place_residue leftover sorted floored =
      if d.is_zero leftover
      then ok floored
      else elim sorted [ [] ↦ panic | r ∷ rs ↦ update_at (λ a. plus a leftover) floored r.0 ]

  -- `10_u64.pow(dp)`, with the panic of overflow checks from 10^20 on.
  abbrev pub ten_to : ℕ → Outcome (PricingError D) D
  ten_to dp = if ltb (10 ^ dp) (2 ^ 64) then ok (d.of_scaled (pos (10 ^ dp)) 0) else panic

  -- `apportion`, after its checks of the weights.
  unfoldable pub apportion_by : D → List D → D → ℕ → Outcome (PricingError D) (List D)
  apportion_by amount weights weight_sum dp = do
    power ← ten_to dp
    step ← over d.one power
    cut ← cut_shares amount weight_sum dp 0 weights
    distributed ← sum_from d.zero cut.0
    leftover ← minus amount distributed
    topped ← hand_out step leftover (sort_remainders cut.1) cut.0
    place_residue topped.0 (sort_remainders cut.1) topped.1

  unfoldable pub apportion : Money D → List D → ℕ → Outcome (PricingError D) (List (Money D))
  apportion total weights dp = do
    reject_if (is_empty weights) no_weights
    reject_if (any d.is_sign_negative weights) invalid_weights
    weight_sum ← sum_from d.zero weights
    reject_if (not (is_greater (d.cmp weight_sum d.zero))) invalid_weights
    shares ← apportion_by total.amount weights weight_sum dp
    ok (map (in_currency total.currency) shares)
