-- ===== src/Research/Entities.antt =====
-- crates/research-graph/src/entities.rs: the research object graph.
use falkr_lite.Base.{ℕ, ◌≡◌, refl, ◌↔◌, Bool, true, false, Option, some, List, [], ◌∷◌, All}
use falkr_lite.Base.Text.{Text, codes, trim, to_ascii_lowercase, first_match, first_match_iff}
use falkr_lite.Core.Money.{Money}
use falkr_lite.Core.Dimensions.{Uuid, FunctionCode, CapitalizationStatus}

pub data TrackerSource : Type 0 where
  wandb mlflow : TrackerSource

-- `TrackerSource::as_str`
unfoldable pub tracker_source_str : TrackerSource → Text
tracker_source_str wandb = codes "wandb"
tracker_source_str mlflow = codes "mlflow"

tracker_source_arms : List (Text × TrackerSource)
tracker_source_arms = (codes "wandb", wandb) ∷ (codes "mlflow", mlflow) ∷ []

-- `TrackerSource::from_stored`
unfoldable pub tracker_source_from_stored : Text → Option TrackerSource
unfolding tracker_source_arms
tracker_source_from_stored s = first_match tracker_source_arms (to_ascii_lowercase (trim s))

-- A stored text is read as a tracker exactly when, trimmed and in lower case, it is the text that
-- `as_str` writes for it.
pub tracker_source_from_stored_iff :
    (s : Text) (c : TrackerSource)
    → (tracker_source_from_stored s ≡ some c) ↔ (to_ascii_lowercase (trim s) ≡ tracker_source_str c)
unfolding tracker_source_from_stored
tracker_source_from_stored_iff s c =
    first_match_iff tracker_source_str tracker_source_arms (to_ascii_lowercase (trim s)) c named
      (found c)
  where
    named : All (λ e. e.0 ≡ tracker_source_str e.1) tracker_source_arms
    named = unfold tracker_source_str in (refl, (refl, tt))

    found : (c : TrackerSource) → first_match tracker_source_arms (tracker_source_str c) ≡ some c
    found wandb = unfold tracker_source_str in refl
    found mlflow = unfold tracker_source_str in refl

pub data RunStatus : Type 0 where
  running finished failed crashed killed : RunStatus

-- `RunStatus::as_str`
unfoldable pub run_status_str : RunStatus → Text
run_status_str running = codes "running"
run_status_str finished = codes "finished"
run_status_str failed = codes "failed"
run_status_str crashed = codes "crashed"
run_status_str killed = codes "killed"

run_status_arms : List (Text × RunStatus)
run_status_arms =
    (codes "running", running)
    ∷ (codes "finished", finished)
    ∷ (codes "failed", failed)
    ∷ (codes "crashed", crashed)
    ∷ (codes "killed", killed)
    ∷ []

-- `RunStatus::from_stored`
unfoldable pub run_status_from_stored : Text → Option RunStatus
unfolding run_status_arms
run_status_from_stored s = first_match run_status_arms (to_ascii_lowercase (trim s))

-- A stored text is read as a run status exactly when, trimmed and in lower case, it is the text that
-- `as_str` writes for it.
run_status_from_stored_iff :
    (s : Text) (c : RunStatus)
    → (run_status_from_stored s ≡ some c) ↔ (to_ascii_lowercase (trim s) ≡ run_status_str c)
unfolding run_status_from_stored
run_status_from_stored_iff s c =
    first_match_iff run_status_str run_status_arms (to_ascii_lowercase (trim s)) c named (found c)
  where
    named : All (λ e. e.0 ≡ run_status_str e.1) run_status_arms
    named = unfold run_status_str in (refl, (refl, (refl, (refl, (refl, tt)))))

    found : (c : RunStatus) → first_match run_status_arms (run_status_str c) ≡ some c
    found running = unfold run_status_str in refl
    found finished = unfold run_status_str in refl
    found failed = unfold run_status_str in refl
    found crashed = unfold run_status_str in refl
    found killed = unfold run_status_str in refl

unfoldable pub is_terminal : RunStatus → Bool
is_terminal running = false
is_terminal _ = true

pub record ExternalRef : Type 0 where
  pub source : TrackerSource
  pub external_id : Text

pub record Experiment : Type 0 where
  pub id : Uuid
  pub tenant_id : Uuid
  pub project_id : Uuid
  pub name : Text

pub record Run (D : Type 0) : Type 0 where
  pub id : Uuid
  pub tenant_id : Uuid
  pub experiment_id : Uuid
  pub external_ref : ExternalRef
  pub status : RunStatus
  pub started_at : ℕ
  pub ended_at : Option ℕ
  pub attributed_cost : Money D
  pub function_code : FunctionCode
  pub capitalization_status : CapitalizationStatus

pub record Job : Type 0 where
  pub id : Uuid
  pub tenant_id : Uuid
  pub run_id : Uuid
  pub external_ref : Option ExternalRef
  pub started_at : ℕ
  pub ended_at : Option ℕ
  pub resource_id : Option Text

pub record Checkpoint (D : Type 0) : Type 0 where
  pub id : Uuid
  pub tenant_id : Uuid
  pub run_id : Uuid
  pub storage_cost : Money D
  pub storage_uri : Text

pub record ModelVersion : Type 0 where
  pub id : Uuid
  pub model_id : Uuid
  pub version : Text
  pub produced_by_run : Option Uuid

pub record Model : Type 0 where
  pub id : Uuid
  pub tenant_id : Uuid
  pub name : Text
  pub versions : List ModelVersion
  pub license_id : Option Uuid

pub data DataSource : Type 0 where
  licensed scraped user_contributed synthetic publicly_available purchased : DataSource

pub data RightsBasis : Type 0 where
  owned_outright licensed_for_training consent_given public_domain fair_use_asserted unknown :
      RightsBasis

pub record DatasetVersion (D : Type 0) : Type 0 where
  pub id : Uuid
  pub tenant_id : Uuid
  pub source : DataSource
  pub rights_basis : RightsBasis
  pub acquisition_cost : Option (Money D)
