-- ===== src/Cost/Attribution.antt =====
-- crates/cost-spine/src/attribution/tags.rs and attribution/mod.rs: the dimensions of a cost
-- record, read from its tags. JSON values and the reader of UUIDs are library code: parameters.
use falkr_lite.Base.{
  Bool, true, false, Option, none, some, List, [], ◌∷◌, any, is_empty, if◌then◌else◌,
}
use falkr_lite.Base.Text.{Text, codes, eq_text, trim, to_ascii_lowercase}
use falkr_lite.Base.Map.{Map, text_key, lookup}
use falkr_lite.Base.Outcome.{Outcome, ok, err, ok_or, ◌>>=◌}
use falkr_lite.Core.Dimensions.{
  Uuid, Dimensions, FunctionCode, cogs, rn_d, op_ex, new_dimensions, with_run, with_customer,
  with_model, with_dataset, with_commitment,
}

-- What the code uses of `serde_json::Value` and of `Uuid::parse_str`.
pub record Json (V : Type 0) : Type 0 where
  pub as_object : V → Option (Map Text V)
  pub as_str : V → Option Text
  pub parse_str : Text → Option Uuid

pub data AttributionError : Type 0 where
  missing_required_dimension : Text → AttributionError
  -- key, value, expected
  unparseable_tag : Text → Text → Text → AttributionError
  tags_not_an_object : AttributionError
  telemetry_unavailable : AttributionError

pub record TagAttributionRules : Type 0 where
  pub project_keys : List Text
  pub run_keys : List Text
  pub team_keys : List Text
  pub customer_keys : List Text
  pub model_keys : List Text
  pub dataset_keys : List Text
  pub commitment_keys : List Text
  pub workload_keys : List Text

-- `TagAttributionRules::default`
abbrev pub default_rules : TagAttributionRules
default_rules = record {
  project_keys = codes "falkr:project" ∷ codes "project" ∷ codes "project_id" ∷ [];
  run_keys =
      codes "falkr:run"
      ∷ codes "run"
      ∷ codes "run_id"
      ∷ codes "wandb_run_id"
      ∷ codes "mlflow_run_id"
      ∷ [];
  team_keys = codes "falkr:team" ∷ codes "team" ∷ codes "team_id" ∷ codes "cost-center" ∷ [];
  customer_keys = codes "falkr:customer" ∷ codes "customer" ∷ codes "customer_id" ∷ [];
  model_keys = codes "falkr:model" ∷ codes "model" ∷ codes "model_id" ∷ [];
  dataset_keys = codes "falkr:dataset" ∷ codes "dataset" ∷ codes "dataset_id" ∷ [];
  commitment_keys = codes "falkr:commitment" ∷ codes "commitment_id" ∷ [];
  workload_keys =
      codes "falkr:workload" ∷ codes "workload" ∷ codes "workload_type" ∷ codes "purpose" ∷ [];
}

pub record AttributionContext : Type 0 where
  pub tenant_id : Uuid
  pub provider_id : Uuid
  pub default_project_id : Option Uuid
  pub default_team_id : Option Uuid

abbrev pub serving_words : List Text
serving_words =
    codes "inference" ∷ codes "serving" ∷ codes "production" ∷ codes "prod" ∷ codes "api" ∷ []

abbrev pub research_words : List Text
research_words =
    codes "training"
    ∷ codes "train"
    ∷ codes "experiment"
    ∷ codes "eval"
    ∷ codes "finetune"
    ∷ codes "fine-tune"
    ∷ []

abbrev pub internal_words : List Text
internal_words = codes "internal" ∷ codes "tooling" ∷ codes "platform" ∷ codes "ci" ∷ []

unfoldable pub function_code_for : Option Text → Bool → FunctionCode
function_code_for none run_attributed = if run_attributed then rn_d else op_ex
function_code_for (some workload) run_attributed =
    let w = to_ascii_lowercase (trim workload) in
    if any (eq_text w) serving_words
    then cogs
    else if any (eq_text w) research_words
    then rn_d
    else if any (eq_text w) internal_words
    then op_ex
    else if run_attributed
    then rn_d
    else op_ex

-- `Option::or`
abbrev pub or_default : Option Uuid → Option Uuid → Option Uuid
or_default none fallback = fallback
or_default (some id) fallback = some id

-- `if let Some(id) = … { dims = dims.with_…(id) }`
abbrev pub with_some : (Dimensions → Uuid → Dimensions) → Option Uuid → Dimensions → Dimensions
with_some set none dims = dims
with_some set (some id) dims = set dims id

abbrev pub is_present : Option Uuid → Bool
is_present none = false
is_present (some _) = true

module _ {V : Type 0} (j : Json V) where
  -- The value of a key: a string, trimmed, and not empty.
  abbrev pub tag_of : Map Text V → Text → Option Text
  tag_of tags k = elim (lookup k tags) [
    | none ↦ none
    | some v ↦ elim (j.as_str v) [
      | none ↦ none
      | some s ↦ if is_empty (trim s) then none else some (trim s)
    ]
  ]

  -- The closure `lookup`: the first candidate key that has a value, and that value.
  unfoldable pub find_tag : Map Text V → List Text → Option (Text × Text)
  find_tag tags [] = none
  find_tag tags (k ∷ candidates) =
      let rest = find_tag tags candidates in
      elim (tag_of tags k) [ none ↦ rest | some v ↦ some (k, v) ]

  -- The closure `parse_id`.
  unfoldable pub parse_id : Option (Text × Text) → Text → Outcome AttributionError (Option Uuid)
  parse_id none what = ok none
  parse_id (some (key, value)) what = elim (j.parse_str value) [
    | none ↦ err (unparseable_tag key value what)
    | some id ↦ ok (some id)
  ]

  abbrev pub workload_of : Option (Text × Text) → Option Text
  workload_of none = none
  workload_of (some (key, value)) = some value

  unfoldable pub attribute_object :
      Map Text V → TagAttributionRules → AttributionContext → Outcome AttributionError Dimensions
  attribute_object tags rules ctx = do
    project_tag ← parse_id (find_tag tags rules.project_keys) (codes "project id")
    project ←
        ok_or (or_default project_tag ctx.default_project_id)
          (missing_required_dimension (codes "project_id"))
    team_tag ← parse_id (find_tag tags rules.team_keys) (codes "team id")
    team ←
        ok_or (or_default team_tag ctx.default_team_id)
          (missing_required_dimension (codes "team_id"))
    run ← parse_id (find_tag tags rules.run_keys) (codes "run id")
    customer ← parse_id (find_tag tags rules.customer_keys) (codes "customer id")
    model ← parse_id (find_tag tags rules.model_keys) (codes "model id")
    dataset ← parse_id (find_tag tags rules.dataset_keys) (codes "dataset id")
    commitment ← parse_id (find_tag tags rules.commitment_keys) (codes "commitment id")
    ok (
        with_some with_commitment commitment (
          with_some with_dataset dataset (
            with_some with_model model (
              with_some with_customer customer (
                with_some with_run run (
                  new_dimensions ctx.tenant_id project team ctx.provider_id (
                    function_code_for (workload_of (find_tag tags rules.workload_keys))
                      (is_present run))))))))

  unfoldable pub attribute :
      V → TagAttributionRules → AttributionContext → Outcome AttributionError Dimensions
  attribute tags rules ctx = do
    object ← ok_or (j.as_object tags) tags_not_an_object
    attribute_object object rules ctx
