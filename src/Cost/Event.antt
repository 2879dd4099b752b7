-- ===== src/Cost/Event.antt =====
-- `SourceRef` and `CostEvent` of crates/cost-spine/src/event.rs. Times are numbers, the fresh
-- identifier is an argument, and the type of tags, `serde_json::Value`, is a parameter.
use falkr_lite.Base.{ℕ, ◌<◌, ◌≤◌, ◌≡◌, ◌⊎◌, not, ◌||◌, Option, arith, leb}
use falkr_lite.Base.Text.{Text}
use falkr_lite.Base.Outcome.{Outcome, ok, err, reject_if, ◌>>◌}
use falkr_lite.Core.Currency.{Currency, eq_currency, eq_currency_sound, eq_currency_refl}
use falkr_lite.Core.Money.{Money}
use falkr_lite.Core.Dimensions.{Uuid, Dimensions}
use falkr_lite.Cost.Charge.{ProviderKind, ChargeCategory}
use falkr_lite.Cost.Service.{ServiceCategory}

pub record SourceRef : Type 0 where
  pub provider : ProviderKind
  pub external_id : Text
  pub export_ref : Text
  pub billing_period : Text
  pub content_hash : Text
  pub ingested_at : ℕ

pub record CostEvent (D V : Type 0) : Type 0 where
  pub id : Uuid
  pub billing_account_id : Text
  pub charge_period_start : ℕ
  pub charge_period_end : ℕ
  pub billed_cost : Money D
  pub effective_cost : Money D
  pub list_cost : Money D
  pub service_name : Text
  pub service_category : ServiceCategory
  pub charge_category : ChargeCategory
  pub resource_id : Option Text
  pub region_id : Option Text
  pub tags : V
  pub dims : Dimensions
  pub source_ref : SourceRef

pub data CostEventError : Type 0 where
  -- billed, effective, list
  mixed_currency : Currency → Currency → Currency → CostEventError
  -- start, end
  invalid_charge_period : ℕ → ℕ → CostEventError

module _ {D V : Type 0} where
  -- The guards of `CostEvent::new`, on the record that it returns when they pass.
  unfoldable pub checked_event : CostEvent D V → Outcome CostEventError (CostEvent D V)
  checked_event e =
      let c = e.billed_cost.currency in
      do
        reject_if
            (not (eq_currency e.effective_cost.currency c)
              || not (eq_currency e.list_cost.currency c))
            (mixed_currency c e.effective_cost.currency e.list_cost.currency)
        reject_if (leb e.charge_period_end e.charge_period_start)
            (invalid_charge_period e.charge_period_start e.charge_period_end)
        ok e

  -- `CostEvent::new`
  unfoldable pub new_cost_event :
      Uuid
      → Text
      → ℕ
      → ℕ
      → Money D
      → Money D
      → Money D
      → Text
      → ServiceCategory
      → ChargeCategory
      → Option Text
      → Option Text
      → V
      → Dimensions
      → SourceRef
      → Outcome CostEventError (CostEvent D V)
  unfolding checked_event
  new_cost_event fresh account start end billed effective list name service charge resource region
        tags dims source_ref =
      checked_event (record {
        id = fresh;
        billing_account_id = account;
        charge_period_start = start;
        charge_period_end = end;
        billed_cost = billed;
        effective_cost = effective;
        list_cost = list;
        service_name = name;
        service_category = service;
        charge_category = charge;
        resource_id = resource;
        region_id = region;
        tags = tags;
        dims = dims;
        source_ref = source_ref;
      })

  -- `CostEvent::currency`
  unfoldable pub event_currency : CostEvent D V → Currency
  event_currency e = e.billed_cost.currency

  unfoldable pub idempotency_key : CostEvent D V → Text × ProviderKind
  idempotency_key e = (e.source_ref.external_id, e.source_ref.provider)

  -- The three amounts share one currency.
  abbrev pub OneCurrency : CostEvent D V → Type 0
  OneCurrency e =
      (e.billed_cost.currency ≡ event_currency e)
      × (e.effective_cost.currency ≡ event_currency e)
      × (e.list_cost.currency ≡ event_currency e)

  -- The guards, all three ways: the amounts are in more than one currency, and that is the error;
  -- or they are in one and the period does not end after it starts, and that is the error; or the
  -- event is returned as it was given.
  pub checked_event_cases :
      (e : CostEvent D V)
      → ((¬ OneCurrency e)
          × (checked_event e
              ≡ err (
                  mixed_currency e.billed_cost.currency e.effective_cost.currency
                    e.list_cost.currency)))
        ⊎ (OneCurrency e
            × (e.charge_period_end ≤ e.charge_period_start)
            × (checked_event e
                ≡ err (invalid_charge_period e.charge_period_start e.charge_period_end)))
        ⊎ (OneCurrency e × (e.charge_period_start < e.charge_period_end) × (checked_event e ≡ ok e))
  unfolding checked_event event_currency
  checked_event_cases e = ground (
    arith,
    eq_currency_sound e.effective_cost.currency e.billed_cost.currency,
    eq_currency_sound e.list_cost.currency e.billed_cost.currency,
    eq_currency_refl e.billed_cost.currency,
  )
