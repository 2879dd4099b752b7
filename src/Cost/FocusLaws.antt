-- ===== src/Cost/FocusLaws.antt =====
-- What `normalize` of crates/cost-spine/src/providers/aws.rs returns: which columns decide a cost
-- event, and which decide its identity.
use falkr_lite.Base.{ℕ, ◌<◌, ◌≡◌, refl, sym, ◌∙◌, ap, subst, some, List, [], ◌∷◌, All, inl, inr}
use falkr_lite.Base.Text.{Text, codes, trim}
use falkr_lite.Base.Outcome.{
  ok, ok_or, map_err, ok_or-eq-ok, >>=-eq-ok, map_err-eq-ok, ok-injective,
}
use falkr_lite.Core.Currency.{Currency}
use falkr_lite.Core.Money.{Money}
use falkr_lite.Core.Dimensions.{Uuid}
use falkr_lite.Cost.Charge.{aws}
use falkr_lite.Cost.Attribution.{attribute}
use falkr_lite.Cost.Event.{
  CostEvent, checked_event, checked_event_cases, new_cost_event, idempotency_key,
}
use falkr_lite.Cost.Focus.{
  Library, RawCostRecord, attribution, cost_event, Connector, parse_charge_category,
  identity_columns, text_at, field, optional_field, parse_decimal, parse_timestamp, collect_tags,
  identity_text, derive_external_id, content_hash, money, time, row_currency, normalize,
}

module _ {D V : Type 0} (lib : Library D V) where
  -- The amount is that of the column, in the currency.
  abbrev pub IsAmount : V → Currency → Text → Money D → Type 0
  IsAmount row c name m =
      (m.currency ≡ c)
      × (s : Text) × (text_at lib row name ≡ some s)
      × (lib.parse (trim s) ≡ some m.amount)

  -- The time is that of the column.
  abbrev pub IsTime : V → Text → ℕ → Type 0
  IsTime row name t =
      (s : Text) × (text_at lib row name ≡ some s) × (lib.parse_from_rfc3339 (trim s) ≡ some t)

  money-eq-ok :
      (row : V) (c : Currency) (name : Text) {m : Money D}
      → money lib row c name ≡ ok m
      → IsAmount row c name m
  unfolding money field parse_decimal
  money-eq-ok row c name h =
      let (s, e₁, h₁) = >>=-eq-ok (ok_or (text_at lib row name) _) _ h in
      let (a, e₂, h₂) = >>=-eq-ok (ok_or (lib.parse (trim s)) _) _ h₁ in
      let same = ok-injective h₂ in
      (
        ap (λ m. m.currency) (sym same),
        s,
        ok_or-eq-ok _ _ e₁,
        ok_or-eq-ok _ _ e₂ ∙ ap (λ m. some m.amount) same,
      )

  time-eq-ok : (row : V) (name : Text) {t : ℕ} → time lib row name ≡ ok t → IsTime row name t
  unfolding time field parse_timestamp
  time-eq-ok row name h =
      let (s, e₁, h₁) = >>=-eq-ok (ok_or (text_at lib row name) _) _ h in
      (s, ok_or-eq-ok _ _ e₁, ok_or-eq-ok _ _ h₁)

  -- An event that passes the guards is the one that was given, with a period that ends after it
  -- starts.
  checked_event-eq-ok :
      (e : CostEvent D V) {f : CostEvent D V}
      → checked_event e ≡ ok f
      → (e ≡ f) × (e.charge_period_start < e.charge_period_end)
  checked_event-eq-ok e h = elim (checked_event_cases e) [
    | inl (_, refused) ↦ cc
    | inr (inl (_, _, refused)) ↦ cc
    | inr (inr (_, later, passed)) ↦ (ok-injective (sym passed ∙ h), later)
  ]

  -- What a row says of the event that it becomes.
  abbrev pub Normalized : Connector → RawCostRecord V → CostEvent D V → Type 0
  Normalized connector raw e =
      let c = row_currency lib connector raw.row in
      (IsAmount raw.row c (codes "BilledCost") e.billed_cost
        × IsAmount raw.row c (codes "EffectiveCost") e.effective_cost
        × IsAmount raw.row c (codes "ListCost") e.list_cost)
      × (IsTime raw.row (codes "ChargePeriodStart") e.charge_period_start
          × IsTime raw.row (codes "ChargePeriodEnd") e.charge_period_end
          × (e.charge_period_start < e.charge_period_end))
      × ((e.tags ≡ collect_tags lib raw.row)
          × (attribute lib.json e.tags connector.rules connector.ctx ≡ ok e.dims))
      × (idempotency_key e ≡ (derive_external_id lib raw.row raw.billing_period, aws))
      × (e.source_ref.content_hash ≡ content_hash lib raw.row)

  pub normalize-eq-ok :
      (connector : Connector) (fresh : Uuid) (now : ℕ) (raw : RawCostRecord V) {e : CostEvent D V}
      → normalize lib connector fresh now raw ≡ ok e
      → Normalized connector raw e
  unfolding normalize new_cost_event idempotency_key
  normalize-eq-ok connector fresh now raw {e} h =
      let row = raw.row in
      let (dims, e₁, h) = >>=-eq-ok (map_err attribution (attribute lib.json _ _ _)) _ h in
      let (account, e₂, h) = >>=-eq-ok (field lib row _) _ h in
      let (start, e₃, h) = >>=-eq-ok (time lib row _) _ h in
      let (end, e₄, h) = >>=-eq-ok (time lib row _) _ h in
      let (billed, e₅, h) = >>=-eq-ok (money lib row _ _) _ h in
      let (effective, e₆, h) = >>=-eq-ok (money lib row _ _) _ h in
      let (listed, e₇, h) = >>=-eq-ok (money lib row _ _) _ h in
      let (name, e₈, h) = >>=-eq-ok (field lib row _) _ h in
      let (text, e₉, h) = >>=-eq-ok (field lib row _) _ h in
      let (charge, _, h) = >>=-eq-ok (parse_charge_category text) _ h in
      let (same, later) = checked_event-eq-ok _ (map_err-eq-ok cost_event _ h) in
      subst (λ x. Normalized connector raw x) same
        (
          (money-eq-ok row _ _ e₅, money-eq-ok row _ _ e₆, money-eq-ok row _ _ e₇),
          (time-eq-ok row _ e₃, time-eq-ok row _ e₄, later),
          (refl, map_err-eq-ok attribution _ e₁),
          refl,
          refl,
        )

  -- The identifier reads nothing of a row but the columns that it lists.
  identity_text-cong :
      (r s : V) (names : List Text)
      → All (λ n. optional_field lib r n ≡ optional_field lib s n) names
      → identity_text lib r names ≡ identity_text lib s names
  unfolding identity_text
  identity_text-cong r s [] h = refl
  identity_text-cong r s (n ∷ names) (same, h) = rw (same, identity_text-cong r s names h)

  -- The two rows agree on a column, where a blank one is as good as none.
  abbrev Agree : V → V → Text → Type 0
  Agree r s name = optional_field lib r name ≡ optional_field lib s name

  -- Two deliveries of one line: one billing period, and the same account, charge period, service,
  -- category of charge, resource and region. The costs and all other columns may differ.
  abbrev pub SameLine : RawCostRecord V → RawCostRecord V → Type 0
  SameLine r s =
      (r.billing_period ≡ s.billing_period)
      × Agree r.row s.row (codes "BillingAccountId")
      × (Agree r.row s.row (codes "ChargePeriodStart")
          × Agree r.row s.row (codes "ChargePeriodEnd"))
      × (Agree r.row s.row (codes "ServiceName") × Agree r.row s.row (codes "ChargeCategory"))
      × (Agree r.row s.row (codes "ResourceId") × Agree r.row s.row (codes "RegionId"))

  -- Where one connector turns two records of one billing period into events, and their rows agree
  -- on the account, the charge period, the service, the category of charge, the resource and the
  -- region, then the two events have one key, whatever the costs and the other columns are.
  pub normalize-idempotency_key :
      (connector : Connector) (fresh fresh' : Uuid) (now later : ℕ) (r s : RawCostRecord V)
      {e f : CostEvent D V}
      → SameLine r s
      → normalize lib connector fresh now r ≡ ok e
      → normalize lib connector fresh' later s ≡ ok f
      → idempotency_key e ≡ idempotency_key f
  unfolding derive_external_id
  normalize-idempotency_key connector fresh fresh' now later r s
        (period, account, (start, end), (service, category), (resource, region)) he hf =
      let (_, _, _, key_e, _) = normalize-eq-ok connector fresh now r he in
      let (_, _, _, key_f, _) = normalize-eq-ok connector fresh' later s hf in
      let columns =
        identity_text-cong r.row s.row identity_columns
          (account, (start, (end, (service, (category, (resource, (region, tt))))))) in
      key_e ∙ rw (period, derive_external_id, columns) refl ∙ sym key_f
