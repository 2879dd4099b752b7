-- ===== src/Research/Tests.antt =====
-- The codecs of the research graph, applied to concrete texts.
use falkr_lite.Base.{◌≡◌, ◌↔◌, some}
use falkr_lite.Base.Text.{codes, trim, to_ascii_lowercase}
use falkr_lite.Research.Entities.{
  mlflow, tracker_source_str, tracker_source_from_stored, tracker_source_from_stored_iff,
}

tracker_source_from_stored_iff_example :
    (tracker_source_from_stored (codes "MLflow") ≡ some mlflow)
    ↔ (to_ascii_lowercase (trim (codes "MLflow")) ≡ tracker_source_str mlflow)
tracker_source_from_stored_iff_example = tracker_source_from_stored_iff (codes "MLflow") mlflow
