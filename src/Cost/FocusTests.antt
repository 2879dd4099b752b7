-- ===== src/Cost/FocusTests.antt =====
-- A row of an export, delivered and then restated, and the theorems on `normalize` applied to it.
use falkr_lite.Base.{ℕ, ◌≡◌, refl, none, some, [], ◌∷◌, ◌++◌, length}
use falkr_lite.Base.Int.{ℤ, pos}
use falkr_lite.Base.Text.{Text, codes, trim, trim_start, trim_end}
use falkr_lite.Base.Map.{Map, text_key, insert}
use falkr_lite.Base.Outcome.{ok}
use falkr_lite.Core.Currency.{eur, usd}
use falkr_lite.Core.Dimensions.{op_ex, new_dimensions}
use falkr_lite.Cost.Charge.{aws, usage}
use falkr_lite.Cost.Service.{compute, from_focus_value}
use falkr_lite.Cost.Attribution.{
  default_rules, find_tag, parse_id, function_code_for, attribute_object, attribute,
}
use falkr_lite.Cost.Event.{CostEvent, checked_event, new_cost_event, idempotency_key}
use falkr_lite.Cost.Focus.{
  Library, RawCostRecord, Connector, strip_prefix, parse_currency, parse_charge_category, text_at,
  field, optional_field, parse_decimal, parse_timestamp, extend, nested_tags, flat_tag,
  add_flat_tags, collect_tags, identity_text, derive_external_id, content_hash, money, time,
  row_currency, normalize, identity_columns,
}
use falkr_lite.Cost.FocusIdentity.{IsPlainRow, every-IsPlain, normalize-distinct_key}
use falkr_lite.Cost.FocusLaws.{SameLine, normalize-idempotency_key}

-- A JSON value is a text or an object of texts here. A number is read from a text as its length,
-- and a hash is the text itself: enough to run the code.
data Value : Type 0 where
  text : Text → Value
  object : Map Text Text → Value

abbrev texts : Map Text Text → Map Text Value
texts [] = []
texts ((k, s) ∷ m) = (k, text s) ∷ texts m

-- The object of the texts among some values.
abbrev strings : Map Text Value → Map Text Text
strings [] = []
strings ((k, text s) ∷ m) = (k, s) ∷ strings m
strings ((k, object _) ∷ m) = strings m

abbrev library : Library ℤ Value
library = record {
  json = record {
    as_object = λ v. elim v [ text _ ↦ none | object m ↦ some (texts m) ];
    as_str = λ v. elim v [ text s ↦ some s | object _ ↦ none ];
    parse_str = λ s. some (length s);
  };
  object = λ m. object (strings m);
  from_str = λ s. none;
  to_string = λ v. none;
  parse = λ s. some (pos (length s));
  parse_from_rfc3339 = λ s. some (length s);
  sha256 = λ s. s;
}

abbrev connector : Connector
connector = record {
  rules = default_rules;
  ctx = record {
    tenant_id = 1;
    provider_id = 2;
    default_project_id = some 3;
    default_team_id = none;
  };
  default_currency = usd;
}

-- The tag of the team is in a column of its own; the cost is what a restatement changes.
abbrev row : Text → Value
row cost = object (
    (codes "BillingAccountId", codes "12")
    ∷ (codes "BillingCurrency", codes "eur")
    ∷ (codes "BilledCost", cost)
    ∷ (codes "EffectiveCost", cost)
    ∷ (codes "ListCost", codes "iiii")
    ∷ (codes "ChargePeriodStart", codes "t")
    ∷ (codes "ChargePeriodEnd", codes "tt")
    ∷ (codes "ServiceName", codes "EC2")
    ∷ (codes "ServiceCategory", codes "Compute")
    ∷ (codes "ChargeCategory", codes "Usage")
    ∷ (codes "resourceTags/user:team", codes "abcde")
    ∷ [])

abbrev record_of : Text → RawCostRecord Value
record_of cost = record {
  provider = aws;
  export_ref = codes "cur";
  billing_period = codes "2026-08";
  row = row cost;
}

abbrev event_of : Text → ℕ → ℕ → CostEvent ℤ Value
unfolding new_dimensions
event_of cost fresh now = record {
  id = fresh;
  billing_account_id = codes "12";
  charge_period_start = 1;
  charge_period_end = 2;
  billed_cost = record { amount = pos (length cost); currency = eur };
  effective_cost = record { amount = pos (length cost); currency = eur };
  list_cost = record { amount = pos 4; currency = eur };
  service_name = codes "EC2";
  service_category = compute;
  charge_category = usage;
  resource_id = none;
  region_id = none;
  tags = object ((codes "team", codes "abcde") ∷ []);
  dims = new_dimensions 1 3 5 2 op_ex;
  source_ref = record {
    provider = aws;
    external_id =
        codes "2026-08"
        ++ (0x1f ∷ codes "12")
        ++ (0x1f ∷ codes "t")
        ++ (0x1f ∷ codes "tt")
        ++ (0x1f ∷ codes "EC2")
        ++ (0x1f ∷ codes "Usage")
        ++ 0x1f ∷ 0x1f ∷ [];
    export_ref = codes "cur";
    billing_period = codes "2026-08";
    content_hash = [];
    ingested_at = now;
  };
}

abbrev delivered : CostEvent ℤ Value
delivered = event_of (codes "iii") 7 100

abbrev restated : CostEvent ℤ Value
restated = event_of (codes "ii") 8 200

delivered-run : normalize library connector 7 100 (record_of (codes "iii")) ≡ ok delivered
unfolding normalize row_currency time money content_hash derive_external_id identity_text
    collect_tags add_flat_tags flat_tag nested_tags extend parse_timestamp parse_decimal
    optional_field field text_at parse_charge_category parse_currency strip_prefix checked_event
    new_cost_event attribute attribute_object find_tag parse_id function_code_for from_focus_value
    trim trim_start trim_end insert new_dimensions
delivered-run = refl

restated-run : normalize library connector 8 200 (record_of (codes "ii")) ≡ ok restated
unfolding normalize row_currency time money content_hash derive_external_id identity_text
    collect_tags add_flat_tags flat_tag nested_tags extend parse_timestamp parse_decimal
    optional_field field text_at parse_charge_category parse_currency strip_prefix checked_event
    new_cost_event attribute attribute_object find_tag parse_id function_code_for from_focus_value
    trim trim_start trim_end insert new_dimensions
restated-run = refl

normalize-idempotency_key_example : idempotency_key delivered ≡ idempotency_key restated
unfolding optional_field text_at trim trim_start trim_end
normalize-idempotency_key_example =
    normalize-idempotency_key library connector 7 8 100 200 (record_of (codes "iii"))
      (record_of (codes "ii")) (refl, refl, (refl, refl), (refl, refl), (refl, refl)) delivered-run
      restated-run

plain_row : (cost : Text) → IsPlainRow library (row cost) identity_columns
unfolding optional_field text_at trim trim_start trim_end
plain_row cost = (
  every-IsPlain (codes "12") refl,
  (
    every-IsPlain (codes "t") refl,
    (
      every-IsPlain (codes "tt") refl,
      (every-IsPlain (codes "EC2") refl, (every-IsPlain (codes "Usage") refl, (tt, (tt, tt)))),
    ),
  ),
)

normalize-distinct_key_example : SameLine library (record_of (codes "iii")) (record_of (codes "ii"))
unfolding idempotency_key event_of
normalize-distinct_key_example =
    normalize-distinct_key library connector 7 8 100 200 (record_of (codes "iii"))
      (record_of (codes "ii")) (λ u v e. e)
      (every-IsPlain (codes "2026-08") refl, every-IsPlain (codes "2026-08") refl)
      (plain_row (codes "iii"), plain_row (codes "ii")) delivered-run restated-run refl
