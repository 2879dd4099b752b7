-- ===== src/Cost/AttributionLaws.antt =====
-- What `attribute` returns: which tag decides each dimension, and which values no tag decides.
use falkr_lite.Base.{
  ◌≡◌, refl, sym, subst, Option, none, some, List, [], ◌∷◌, All, Option-cases, inl, inr, arith, ◌∙◌,
  ap, some-injective, ◌≢◌, ◌⊎◌,
}
use falkr_lite.Base.Text.{Text, codes, trim, to_ascii_lowercase}
use falkr_lite.Base.Map.{Map, text_key}
use falkr_lite.Base.Outcome.{ok, err, ok_or, ok_or-eq-ok, >>=-eq-ok, ok-injective}
use falkr_lite.Core.Dimensions.{
  Uuid, Dimensions, FunctionCode, op_ex, new_dimensions, with_run, with_customer, with_model,
  with_dataset, with_commitment,
}
use falkr_lite.Cost.Attribution.{
  Json, missing_required_dimension, TagAttributionRules, AttributionContext, function_code_for,
  or_default, with_some, is_present, find_tag, parse_id, workload_of, attribute_object, attribute,
}
use falkr_lite.Cost.WorkloadLaws.{
  FromRun, FromWorkload, FromRun-is_present, function_code_for-FromWorkload,
}
use falkr_lite.Cost.TagLaws.{
  HasNone, IsFirst, ReadsId, find_tag-IsFirst, find_tag-eq-none, parse_id-ReadsId,
}

-- The optional dimensions, set on a spine that has none of them.
assembled :
    (run customer model dataset commitment : Option Uuid) (tenant project team provider : Uuid)
    (fc : FunctionCode) {d : Dimensions}
    → with_some with_commitment commitment (
        with_some with_dataset dataset (
          with_some with_model model (
            with_some with_customer customer
              (with_some with_run run (new_dimensions tenant project team provider fc)))))
      ≡ d
    → ((d.tenant_id ≡ tenant)
        × (d.provider_id ≡ provider)
        × (d.project_id ≡ project)
        × (d.team_id ≡ team))
      × ((d.run_id ≡ run) × (d.customer_id ≡ customer) × (d.model_id ≡ model))
      × ((d.dataset_id ≡ dataset) × (d.commitment_id ≡ commitment) × (d.function_code ≡ fc))
unfolding new_dimensions with_run with_customer with_model with_dataset with_commitment
assembled run customer model dataset commitment tenant project team provider fc h = ground arith

module _ {V : Type 0} (j : Json V) (tags : Map Text V) where
  -- A required dimension is read from its tag, or is the default where no key has a value.
  abbrev pub Required : List Text → Option Uuid → Uuid → Type 0
  Required candidates default id =
      ReadsId j tags candidates (some id) ⊎ (ReadsId j tags candidates none × (default ≡ some id))

  or_default-Required :
      (candidates : List Text) (default o : Option Uuid) (id : Uuid)
      → ReadsId j tags candidates o
      → or_default o default ≡ some id
      → Required candidates default id
  or_default-Required candidates default none id h e = inr (h, e)
  or_default-Required candidates default (some a) id h e =
      inl (subst (λ b. ReadsId j tags candidates (some b)) (some-injective e) h)

  -- The function code is decided by the workload, or, without one, by whether a run is known.
  abbrev pub Coded : List Text → Option Uuid → FunctionCode → Type 0
  Coded candidates run fc =
      (All (HasNone j tags) candidates × FromRun run fc)
      ⊎ ((k : Text) × (v : Text) × IsFirst j tags candidates k v
          × FromWorkload (to_ascii_lowercase (trim v)) run fc)

  function_code_for-Coded :
      (candidates : List Text) (run : Option Uuid)
      → Coded candidates run
          (function_code_for (workload_of j (find_tag j tags candidates)) (is_present run))
  unfolding function_code_for
  function_code_for-Coded candidates run = elim (Option-cases (find_tag j tags candidates)) [
    | inl absent ↦ inl (
      find_tag-eq-none j tags candidates absent,
      rw (absent, function_code_for) (FromRun-is_present run),
    )
    | inr ((k, v), present) ↦ inr (
      k,
      v,
      find_tag-IsFirst j tags candidates present,
      rw present (function_code_for-FromWorkload v run),
    )
  ]

  -- What a successful `attribute` has read.
  abbrev pub Attributed : TagAttributionRules → AttributionContext → Dimensions → Type 0
  Attributed rules ctx d =
      ((d.tenant_id ≡ ctx.tenant_id) × (d.provider_id ≡ ctx.provider_id))
      × (Required rules.project_keys ctx.default_project_id d.project_id
          × Required rules.team_keys ctx.default_team_id d.team_id)
      × (ReadsId j tags rules.run_keys d.run_id
          × ReadsId j tags rules.customer_keys d.customer_id
          × ReadsId j tags rules.model_keys d.model_id
          × ReadsId j tags rules.dataset_keys d.dataset_id
          × ReadsId j tags rules.commitment_keys d.commitment_id)
      × Coded rules.workload_keys d.run_id d.function_code

  attribute_object-Attributed :
      (rules : TagAttributionRules) (ctx : AttributionContext) {d : Dimensions}
      → attribute_object j tags rules ctx ≡ ok d
      → Attributed rules ctx d
  unfolding attribute_object
  attribute_object-Attributed rules ctx {d} h =
      let (pt, e₁, h) =
        >>=-eq-ok (parse_id j (find_tag j tags rules.project_keys) (codes "project id")) _ h in
      let (p, e₂, h) = >>=-eq-ok (ok_or (or_default pt ctx.default_project_id) _) _ h in
      let (tt', e₃, h) =
        >>=-eq-ok (parse_id j (find_tag j tags rules.team_keys) (codes "team id")) _ h in
      let (t, e₄, h) = >>=-eq-ok (ok_or (or_default tt' ctx.default_team_id) _) _ h in
      let (run, e₅, h) =
        >>=-eq-ok (parse_id j (find_tag j tags rules.run_keys) (codes "run id")) _ h in
      let (cust, e₆, h) =
        >>=-eq-ok (parse_id j (find_tag j tags rules.customer_keys) (codes "customer id")) _ h in
      let (mod', e₇, h) =
        >>=-eq-ok (parse_id j (find_tag j tags rules.model_keys) (codes "model id")) _ h in
      let (data', e₈, h) =
        >>=-eq-ok (parse_id j (find_tag j tags rules.dataset_keys) (codes "dataset id")) _ h in
      let (commit, e₉, h) =
        >>=-eq-ok (parse_id j (find_tag j tags rules.commitment_keys) (codes "commitment id")) _
          h in
      let ((ten, prov, proj, team), (r, c, m), (ds, cm, fc)) =
        assembled run cust mod' data' commit _ _ _ _ _ (ok-injective h) in
      (
        (ten, prov),
        (
          or_default-Required rules.project_keys ctx.default_project_id pt _
              (parse_id-ReadsId j tags rules.project_keys _ e₁)
              (ok_or-eq-ok _ _ e₂ ∙ ap some (sym proj)),
          or_default-Required rules.team_keys ctx.default_team_id tt' _
              (parse_id-ReadsId j tags rules.team_keys _ e₃)
              (ok_or-eq-ok _ _ e₄ ∙ ap some (sym team)),
        ),
        (
          parse_id-ReadsId j tags rules.run_keys _ (e₅ ∙ ap ok (sym r)),
          parse_id-ReadsId j tags rules.customer_keys _ (e₆ ∙ ap ok (sym c)),
          parse_id-ReadsId j tags rules.model_keys _ (e₇ ∙ ap ok (sym m)),
          parse_id-ReadsId j tags rules.dataset_keys _ (e₈ ∙ ap ok (sym ds)),
          parse_id-ReadsId j tags rules.commitment_keys _ (e₉ ∙ ap ok (sym cm)),
        ),
        subst (Coded rules.workload_keys d.run_id) (rw r (sym fc))
            (function_code_for-Coded rules.workload_keys d.run_id),
      )

module _ {V : Type 0} (j : Json V) where
  -- Where `attribute` succeeds, the tags are an object. The tenant and the provider are those of the
  -- context, whatever the tags say. Each other identifier is the value, trimmed and well formed, of
  -- the first of its keys that has a string which is not blank; where no key has one, the project
  -- and the team are the defaults of the context and the other identifiers are missing. So no
  -- malformed identifier is passed over. The function code is decided by the word of the workload,
  -- found the same way, and where it is not a known word by whether a run is known.
  pub attribute-eq-ok :
      (tags : V) (rules : TagAttributionRules) (ctx : AttributionContext) {d : Dimensions}
      → attribute j tags rules ctx ≡ ok d
      → (object : Map Text V) × (j.as_object tags ≡ some object) × Attributed j object rules ctx d
  unfolding attribute
  attribute-eq-ok tags rules ctx h =
      let (object, e, h') = >>=-eq-ok (ok_or (j.as_object tags) _) _ h in
      (object, ok_or-eq-ok _ _ e, attribute_object-Attributed j object rules ctx h')

  find_tag-empty : (candidates : List Text) → find_tag j [] candidates ≡ none
  unfolding find_tag
  find_tag-empty [] = refl
  find_tag-empty (c ∷ cs) = find_tag-empty cs

  -- An object without tags: the row lands on the defaults of the context, or is refused for
  -- the first of the two required dimensions that has no default.
  attribute_untagged :
      (tags : V) (rules : TagAttributionRules) (ctx : AttributionContext)
      → j.as_object tags ≡ some []
      → ((ctx.default_project_id ≡ none)
          × (attribute j tags rules ctx ≡ err (missing_required_dimension (codes "project_id"))))
        ⊎ ((ctx.default_project_id ≢ none)
            × (ctx.default_team_id ≡ none)
            × (attribute j tags rules ctx ≡ err (missing_required_dimension (codes "team_id"))))
        ⊎ ((p : Uuid) × (t : Uuid) × (ctx.default_project_id ≡ some p)
            × (ctx.default_team_id ≡ some t)
            × (attribute j tags rules ctx
                ≡ ok (new_dimensions ctx.tenant_id p t ctx.provider_id op_ex)))
  unfolding attribute attribute_object parse_id function_code_for
  attribute_untagged tags rules ctx e =
      rw
        (
          e,
          find_tag-empty rules.project_keys,
          find_tag-empty rules.team_keys,
          find_tag-empty rules.run_keys,
          find_tag-empty rules.customer_keys,
          find_tag-empty rules.model_keys,
          find_tag-empty rules.dataset_keys,
          find_tag-empty rules.commitment_keys,
          find_tag-empty rules.workload_keys,
        )
        (ground arith)
