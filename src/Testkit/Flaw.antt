-- ===== src/Testkit/Flaw.antt =====
-- The defects that `Scenario::validate` of crates/testkit/src/scenario.rs reports, and its tables. A
-- defect names its check and what the check found; the wording is left out.
use falkr_lite.Base.{ℕ, List, [], ◌∷◌}
use falkr_lite.Base.Text.{Text, codes}
use falkr_lite.Testkit.Phase.{Phase}
use falkr_lite.Testkit.Scenario.{ParamError}
use falkr_lite.Testkit.Period.{PeriodError}

pub data Flaw (D : Type 0) : Type 0 where
  wrong_file_name : Text → Flaw D
  wrong_category : Text → Flaw D
  difficulty_out_of_range : ℕ → Flaw D
  short_reasoning : ℕ → Flaw D
  no_standards : Flaw D
  no_blocked_reason blocked_with_balance unexpected_blocked_reason no_trial_balance : Flaw D
  no_divergence unexpected_divergence : Flaw D
  unknown_entity : Text → Flaw D
  unknown_book : Text → Flaw D
  unknown_currency : Text → Flaw D
  unknown_calendar : Text → Flaw D
  bad_period : PeriodError → Flaw D
  no_operations : Flaw D
  unknown_kind : Text → Flaw D
  wrong_phase : Phase → Flaw D
  both_sides no_side : Text → Flaw D
  bad_lines : ParamError → Flaw D
  -- account, amount
  not_exact : Text → Text → Flaw D
  unresolved : Text → Flaw D
  balance_overflows : Flaw D
  unbalanced : D → Flaw D
  -- account, amount
  unusual stale_annotation : Text → D → Flaw D
  unknown_declaration : Text → Flaw D
  unknown_subledger : Text → Flaw D
  unknown_owner : Text → Flaw D
  owner_unbalanced : Text → D → Flaw D

pub record Defect (D : Type 0) : Type 0 where
  pub scenario : Text
  pub detail : Flaw D

abbrev pub books : List Text
books = codes "US_GAAP" ∷ codes "IFRS" ∷ codes "TAX" ∷ codes "MGMT" ∷ []

abbrev pub calendars : List Text
calendars = codes "gregorian" ∷ codes "4-4-5" ∷ codes "53-week" ∷ []

abbrev pub min_reasoning_chars : ℕ
min_reasoning_chars = 120
