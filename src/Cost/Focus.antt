-- ===== src/Cost/Focus.antt =====
-- crates/cost-spine/src/providers/aws.rs: a row of an AWS export as a cost event. JSON values, the
-- readers of decimals and times, and SHA-256 are library code: parameters. Times are numbers.
use falkr_lite.Base.{ℕ, Option, none, some, List, [], ◌∷◌, ◌++◌, is_empty, ◌==◌, if◌then◌else◌}
use falkr_lite.Base.Text.{Text, codes, trim, to_ascii_uppercase, to_ascii_lowercase, first_match}
use falkr_lite.Base.Map.{Map, text_key, lookup, insert}
use falkr_lite.Base.Outcome.{Outcome, ok, ok_or, map_err, ◌>>=◌}
use falkr_lite.Core.Currency.{Currency, usd, eur, gbp, jpy, chf, cad, aud, sek, nok, dkk, sgd, inr}
use falkr_lite.Core.Money.{Money}
use falkr_lite.Core.Dimensions.{Uuid}
use falkr_lite.Cost.Charge.{
  ProviderKind, aws, ChargeCategory, usage, purchase, tax, credit, adjustment,
}
use falkr_lite.Cost.Service.{from_focus_value}
use falkr_lite.Cost.Attribution.{
  Json, AttributionError, TagAttributionRules, AttributionContext, attribute,
}
use falkr_lite.Cost.Event.{CostEvent, CostEventError, new_cost_event}

-- What the connector uses of libraries.
pub record Library (D V : Type 0) : Type 0 where
  pub json : Json V
  -- `Value::Object`
  pub object : Map Text V → V
  -- `serde_json::from_str` and `serde_json::to_string`
  pub from_str : Text → Option V
  pub to_string : V → Option Text
  -- `str::parse::<Decimal>`
  pub parse : Text → Option D
  -- `DateTime::parse_from_rfc3339`, in UTC
  pub parse_from_rfc3339 : Text → Option ℕ
  -- SHA-256 of a text's bytes, in hexadecimal
  pub sha256 : Text → Text

pub record RawCostRecord (V : Type 0) : Type 0 where
  pub provider : ProviderKind
  pub export_ref : Text
  pub billing_period : Text
  pub row : V

pub data NormalizeError : Type 0 where
  missing_column : Text → NormalizeError
  -- column, value
  unparseable_value : Text → Text → NormalizeError
  attribution : AttributionError → NormalizeError
  cost_event : CostEventError → NormalizeError

-- The fields of `AwsFocusConnector` that `normalize` reads.
pub record Connector : Type 0 where
  pub rules : TagAttributionRules
  pub ctx : AttributionContext
  pub default_currency : Currency

abbrev user_tag_prefix : Text
user_tag_prefix = codes "resourceTags/user:"

-- `str::strip_prefix`
unfoldable pub strip_prefix : Text → Text → Option Text
strip_prefix [] s = some s
strip_prefix (p ∷ ps) [] = none
strip_prefix (p ∷ ps) (c ∷ s) = let rest = strip_prefix ps s in if c == p then rest else none

-- `Option::unwrap_or`
abbrev pub or_else : {A : Type 0} → A → Option A → A
or_else fallback none = fallback
or_else fallback (some a) = a

abbrev currency_arms : List (Text × Currency)
currency_arms =
    (codes "USD", usd)
    ∷ (codes "EUR", eur)
    ∷ (codes "GBP", gbp)
    ∷ (codes "JPY", jpy)
    ∷ (codes "CHF", chf)
    ∷ (codes "CAD", cad)
    ∷ (codes "AUD", aud)
    ∷ (codes "SEK", sek)
    ∷ (codes "NOK", nok)
    ∷ (codes "DKK", dkk)
    ∷ (codes "SGD", sgd)
    ∷ (codes "INR", inr)
    ∷ []

unfoldable pub parse_currency : Option Text → Currency → Currency
parse_currency none fallback = fallback
parse_currency (some s) fallback =
    or_else fallback (first_match currency_arms (to_ascii_uppercase (trim s)))

abbrev category_arms : List (Text × ChargeCategory)
category_arms =
    (codes "usage", usage)
    ∷ (codes "purchase", purchase)
    ∷ (codes "tax", tax)
    ∷ (codes "credit", credit)
    ∷ (codes "adjustment", adjustment)
    ∷ []

unfoldable pub parse_charge_category : Text → Outcome NormalizeError ChargeCategory
parse_charge_category s =
    ok_or (first_match category_arms (to_ascii_lowercase (trim s)))
      (unparseable_value (codes "ChargeCategory") s)

-- The columns that identify a line within a billing period.
abbrev pub identity_columns : List Text
identity_columns =
    codes "BillingAccountId"
    ∷ codes "ChargePeriodStart"
    ∷ codes "ChargePeriodEnd"
    ∷ codes "ServiceName"
    ∷ codes "ChargeCategory"
    ∷ codes "ResourceId"
    ∷ codes "RegionId"
    ∷ []

module _ {D V : Type 0} (lib : Library D V) where
  -- `row.get(name).and_then(Value::as_str)`
  unfoldable pub text_at : V → Text → Option Text
  text_at row name = elim (lib.json.as_object row) [
    | none ↦ none
    | some columns ↦ elim (lookup name columns) [ none ↦ none | some v ↦ lib.json.as_str v ]
  ]

  unfoldable pub field : V → Text → Outcome NormalizeError Text
  unfolding text_at
  field row name = ok_or (text_at row name) (missing_column name)

  unfoldable pub optional_field : V → Text → Option Text
  unfolding text_at
  optional_field row name = elim (text_at row name) [
    | none ↦ none
    | some s ↦ if is_empty (trim s) then none else some (trim s)
  ]

  unfoldable pub parse_decimal : Text → Text → Outcome NormalizeError D
  parse_decimal s column = ok_or (lib.parse (trim s)) (unparseable_value column s)

  unfoldable pub parse_timestamp : Text → Text → Outcome NormalizeError ℕ
  parse_timestamp s column = ok_or (lib.parse_from_rfc3339 (trim s)) (unparseable_value column s)

  -- `Map::extend`
  unfoldable pub extend : Map Text V → Map Text V → Map Text V
  extend out [] = out
  extend out ((k, v) ∷ more) = extend (insert k v out) more

  -- The object in the column `Tags`, or in the text of that column.
  unfoldable pub nested_tags : V → Map Text V
  nested_tags raw = elim (lib.json.as_object raw) [
    | some tags ↦ tags
    | none ↦ elim (lib.json.as_str raw) [
      | none ↦ []
      | some s ↦ elim (if is_empty (trim s) then none else lib.from_str s) [
        | none ↦ []
        | some v ↦ or_else [] (lib.json.as_object v)
      ]
    ]
  ]

  -- A column of its own for one tag is a tag with a value.
  unfoldable pub flat_tag : Text → V → Option Text
  unfolding strip_prefix
  flat_tag k v = elim (lib.json.as_str v) [
    | none ↦ none
    | some s ↦ if is_empty (trim s) then none else strip_prefix user_tag_prefix k
  ]

  unfoldable pub add_flat_tags : Map Text V → Map Text V → Map Text V
  unfolding flat_tag
  add_flat_tags [] out = out
  add_flat_tags ((k, v) ∷ columns) out = elim (flat_tag k v) [
    | none ↦ add_flat_tags columns out
    | some stripped ↦ add_flat_tags columns (insert stripped v out)
  ]

  unfoldable pub collect_tags : V → V
  unfolding extend nested_tags add_flat_tags
  collect_tags row = elim (lib.json.as_object row) [
    | none ↦ lib.object []
    | some columns ↦ lib.object (
        add_flat_tags columns (elim (lookup (codes "Tags") columns) [
          | none ↦ []
          | some raw ↦ extend [] (nested_tags raw)
        ]))
  ]

  -- The text that is hashed for the columns: each value after a separator.
  unfoldable pub identity_text : V → List Text → Text
  unfolding optional_field
  identity_text row [] = []
  identity_text row (name ∷ names) =
      0x1f ∷ or_else [] (optional_field row name) ++ identity_text row names

  unfoldable pub derive_external_id : V → Text → Text
  unfolding identity_text
  derive_external_id row billing_period =
      lib.sha256 (billing_period ++ identity_text row identity_columns)

  unfoldable pub content_hash : V → Text
  content_hash row = lib.sha256 (or_else [] (lib.to_string row))

  -- The closure `money`.
  unfoldable pub money : V → Currency → Text → Outcome NormalizeError (Money D)
  unfolding field parse_decimal
  money row currency name = do
    s ← field row name
    amount ← parse_decimal s name
    ok (record { amount = amount; currency = currency })

  unfoldable pub time : V → Text → Outcome NormalizeError ℕ
  unfolding field parse_timestamp
  time row name = do s ← field row name; parse_timestamp s name

  unfoldable pub row_currency : Connector → V → Currency
  row_currency connector row =
      parse_currency (optional_field row (codes "BillingCurrency")) connector.default_currency

  -- `AwsFocusConnector::normalize`, with the fresh identifier and the time of ingestion.
  unfoldable pub normalize :
      Connector → Uuid → ℕ → RawCostRecord V → Outcome NormalizeError (CostEvent D V)
  normalize connector fresh now raw =
      let row = raw.row in
      let tags = collect_tags row in
      do
        dims ← map_err attribution (attribute lib.json tags connector.rules connector.ctx)
        account ← field row (codes "BillingAccountId")
        start ← time row (codes "ChargePeriodStart")
        end ← time row (codes "ChargePeriodEnd")
        billed ← money row (row_currency connector row) (codes "BilledCost")
        effective ← money row (row_currency connector row) (codes "EffectiveCost")
        list ← money row (row_currency connector row) (codes "ListCost")
        name ← field row (codes "ServiceName")
        charge_text ← field row (codes "ChargeCategory")
        charge ← parse_charge_category charge_text
        map_err cost_event (
            new_cost_event fresh account start end billed effective list name
              (from_focus_value
                (or_else (codes "Other") (optional_field row (codes "ServiceCategory"))))
              charge (optional_field row (codes "ResourceId"))
              (optional_field row (codes "RegionId")) tags dims
              (record {
                provider = aws;
                external_id = derive_external_id row raw.billing_period;
                export_ref = raw.export_ref;
                billing_period = raw.billing_period;
                content_hash = content_hash row;
                ingested_at = now;
              }))
