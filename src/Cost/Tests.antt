-- ===== src/Cost/Tests.antt =====
-- Concrete cost records, and each theorem on the cost spine applied to one.
use falkr_lite.Base.{ℕ, ◌*◌, ◌^◌, ◌≡◌, refl, true, none, some, List, [], ◌∷◌, All, length}
use falkr_lite.Base.Int.{ℤ, pos, ◌+ℤ◌, ◌-ℤ◌, ◌*ℤ◌}
use falkr_lite.Base.Text.{Text, codes, trim, trim_start, trim_end}
use falkr_lite.Base.Map.{Map, text_key}
use falkr_lite.Base.Outcome.{ok}
use falkr_lite.Decimal.Scaled.{scaled, scaled-IsExact, add, subtract, multiply, divide, of_scaled}
use falkr_lite.Core.Currency.{usd}
use falkr_lite.Core.Money.{Money}
use falkr_lite.Core.Money.Laws.{value}
use falkr_lite.Core.Money.Sum.{total}
use falkr_lite.Core.Dimensions.{Dimensions, rn_d, new_dimensions, with_run}
use falkr_lite.Shares.{update_at, sort_remainders}
use falkr_lite.Cost.Charge.{aws, usage}
use falkr_lite.Cost.Service.{compute}
use falkr_lite.Cost.Event.{CostEvent}
use falkr_lite.Cost.Attribution.{
  Json, AttributionContext, default_rules, function_code_for, find_tag, parse_id, attribute_object,
  attribute,
}
use falkr_lite.Cost.AttributionLaws.{Attributed, attribute-eq-ok}
use falkr_lite.Cost.Pricing.{
  Discount, negotiated, PricingInputs, CommitmentCoverage, CostAmounts, sum_from, cut_share,
  cut_shares, hand_out, place_residue, apportion_by, apportion,
}
use falkr_lite.Cost.Pricing
use falkr_lite.Cost.Apportion.{apportion-conserves}

-- 10.00 in units of 10^-28
abbrev ten : Money ℤ
ten = record { amount = pos (10 * 10 ^ 28); currency = usd }

abbrev in_usd : ℕ → Money ℤ
in_usd cents = record { amount = pos (cents * 10 ^ 26); currency = usd }

abbrev one : ℤ
one = pos (10 ^ 28)

abbrev shares : List (Money ℤ)
shares = in_usd 334 ∷ in_usd 333 ∷ in_usd 333 ∷ []

apportion-run : apportion ten (one ∷ one ∷ one ∷ []) 2 ≡ ok shares
unfolding apportion apportion_by sum_from cut_shares cut_share hand_out place_residue
    sort_remainders update_at add subtract multiply divide of_scaled ◌+ℤ◌ ◌-ℤ◌ ◌*ℤ◌
apportion-run = refl

apportion-conserves_example :
    (total scaled-IsExact shares ≡ value scaled-IsExact ten)
    × (length shares ≡ 3)
    × All (λ m. m.currency ≡ usd) shares
apportion-conserves_example =
    apportion-conserves scaled-IsExact ten (one ∷ one ∷ one ∷ []) 2 apportion-run

-- Ten hours at 2.00, half off by a negotiated rate, four of them covered by a prepaid commitment
-- at 0.50.
abbrev line : PricingInputs ℤ
line = record {
  list_unit_price = pos (2 * 10 ^ 28);
  quantity = pos (10 * 10 ^ 28);
  currency = usd;
  discounts = negotiated (pos (5 * 10 ^ 27)) ∷ [];
  commitment = some (record {
    covered_quantity = pos (4 * 10 ^ 28);
    committed_unit_price = pos (5 * 10 ^ 27);
    prepaid = true;
  });
}

-- 20.00 by the list, 6.00 billed and 8.00 in effect.
abbrev amounts : CostAmounts ℤ
amounts = record { list_cost = in_usd 2000; billed_cost = in_usd 600; effective_cost = in_usd 800 }

-- A JSON value is a text or an object of texts here, and a text of digits is read as an identifier by its
-- length: enough to run the code.
data Value : Type 0 where
  text : Text → Value
  object : Map Text Text → Value

abbrev texts : Map Text Text → Map Text Value
texts [] = []
texts ((k, v) ∷ m) = (k, text v) ∷ texts m

abbrev json : Json Value
json = record {
  as_object = λ v. elim v [ text _ ↦ none | object m ↦ some (texts m) ];
  as_str = λ v. elim v [ text s ↦ some s | object _ ↦ none ];
  parse_str = λ s. some (length s);
}

abbrev ctx : AttributionContext
ctx = record {
  tenant_id = 1;
  provider_id = 2;
  default_project_id = some 3;
  default_team_id = some 4;
}

abbrev run_tags : Map Text Text
run_tags = (codes "run", codes "  ") ∷ (codes "run_id", codes "r-17") ∷ []

abbrev tags : Map Text Value
tags = texts run_tags

abbrev attributed : Dimensions
unfolding with_run new_dimensions
attributed = with_run (new_dimensions 1 3 4 2 rn_d) 4

find-run : find_tag json tags default_rules.run_keys ≡ some (codes "run_id", codes "r-17")
unfolding find_tag trim trim_start trim_end
find-run = refl

attribute-run : attribute json (object run_tags) default_rules ctx ≡ ok attributed
unfolding attribute attribute_object find_tag parse_id function_code_for trim trim_start trim_end
    with_run new_dimensions
attribute-run = refl

attribute-eq-ok_example :
    (o : Map Text Value) × (json.as_object (object run_tags) ≡ some o)
    × Attributed json o default_rules ctx attributed
attribute-eq-ok_example = attribute-eq-ok json (object run_tags) default_rules ctx attribute-run

abbrev event : CostEvent ℤ Value
event = record {
  id = 1;
  billing_account_id = codes "123";
  charge_period_start = 100;
  charge_period_end = 200;
  billed_cost = in_usd 600;
  effective_cost = in_usd 800;
  list_cost = in_usd 2000;
  service_name = codes "AmazonEC2";
  service_category = compute;
  charge_category = usage;
  resource_id = none;
  region_id = none;
  tags = object run_tags;
  dims = attributed;
  source_ref = record {
    provider = aws;
    external_id = codes "line-1";
    export_ref = codes "cur";
    billing_period = codes "2026-08";
    content_hash = codes "h";
    ingested_at = 300;
  };
}
