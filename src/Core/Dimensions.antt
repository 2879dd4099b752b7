-- ===== src/Core/Dimensions.antt =====
-- crates/core/src/dimensions.rs: function codes, capitalization status, and the dimensional spine.
use falkr_lite.Base.{
  ℕ, ◌≡◌, refl, ◌↔◌, Bool, true, false, Option, none, some, List, [], ◌∷◌, All, arith,
}
use falkr_lite.Base.Text.{Text, codes, trim, to_ascii_uppercase, first_match, first_match_iff}

-- Identifiers of ids.rs: the 128-bit number of a UUID.
abbrev pub Uuid : Type 0
Uuid = ℕ

pub data FunctionCode : Type 0 where
  cogs rn_d op_ex : FunctionCode

unfoldable pub function_code_str : FunctionCode → Text
function_code_str cogs = codes "COGS"
function_code_str rn_d = codes "RND"
function_code_str op_ex = codes "OPEX"

function_code_arms : List (Text × FunctionCode)
function_code_arms = (codes "COGS", cogs) ∷ (codes "RND", rn_d) ∷ (codes "OPEX", op_ex) ∷ []

-- `FunctionCode::from_stored`
unfoldable pub function_code_from_stored : Text → Option FunctionCode
unfolding function_code_arms
function_code_from_stored s = first_match function_code_arms (to_ascii_uppercase (trim s))

pub data CapitalizationStatus : Type 0 where
  expensed capitalized pending_review : CapitalizationStatus

-- The derived `PartialEq`.
abbrev pub eq_status : CapitalizationStatus → CapitalizationStatus → Bool
eq_status expensed expensed = true
eq_status capitalized capitalized = true
eq_status pending_review pending_review = true
eq_status _ _ = false

pub eq_status_sound : (a b : CapitalizationStatus) → eq_status a b ≡ true → a ≡ b
eq_status_sound a b h = ground arith

pub eq_status_refl : (a : CapitalizationStatus) → eq_status a a ≡ true
eq_status_refl a = ground arith

unfoldable pub status_str : CapitalizationStatus → Text
status_str expensed = codes "EXPENSED"
status_str capitalized = codes "CAPITALIZED"
status_str pending_review = codes "PENDING_REVIEW"

status_arms : List (Text × CapitalizationStatus)
status_arms =
    (codes "EXPENSED", expensed)
    ∷ (codes "CAPITALIZED", capitalized)
    ∷ (codes "PENDING_REVIEW", pending_review)
    ∷ []

-- `CapitalizationStatus::from_stored`
unfoldable pub status_from_stored : Text → Option CapitalizationStatus
unfolding status_arms
status_from_stored s = first_match status_arms (to_ascii_uppercase (trim s))

pub record Dimensions : Type 0 where
  pub tenant_id : Uuid
  pub project_id : Uuid
  pub run_id : Option Uuid
  pub team_id : Uuid
  pub customer_id : Option Uuid
  pub model_id : Option Uuid
  pub dataset_id : Option Uuid
  pub provider_id : Uuid
  pub function_code : FunctionCode
  pub commitment_id : Option Uuid

-- `Dimensions::new`
unfoldable pub new_dimensions : Uuid → Uuid → Uuid → Uuid → FunctionCode → Dimensions
new_dimensions tenant project team provider fc = record {
  tenant_id = tenant;
  project_id = project;
  run_id = none;
  team_id = team;
  customer_id = none;
  model_id = none;
  dataset_id = none;
  provider_id = provider;
  function_code = fc;
  commitment_id = none;
}

unfoldable pub with_run : Dimensions → Uuid → Dimensions
with_run s id = record s { run_id = some id }

unfoldable pub with_customer : Dimensions → Uuid → Dimensions
with_customer s id = record s { customer_id = some id }

unfoldable pub with_model : Dimensions → Uuid → Dimensions
with_model s id = record s { model_id = some id }

unfoldable pub with_dataset : Dimensions → Uuid → Dimensions
with_dataset s id = record s { dataset_id = some id }

unfoldable pub with_commitment : Dimensions → Uuid → Dimensions
with_commitment s id = record s { commitment_id = some id }

unfoldable pub is_run_attributed : Dimensions → Bool
is_run_attributed s = elim s.run_id [ none ↦ false | some _ ↦ true ]

-- A stored text is read as a function code exactly when, trimmed and in upper case, it is the
-- text that `as_str` writes for it.
function_code_from_stored_iff :
    (s : Text) (c : FunctionCode)
    → (function_code_from_stored s ≡ some c) ↔ (to_ascii_uppercase (trim s) ≡ function_code_str c)
unfolding function_code_from_stored
function_code_from_stored_iff s c =
    first_match_iff function_code_str function_code_arms (to_ascii_uppercase (trim s)) c named
      (found c)
  where
    named : All (λ e. e.0 ≡ function_code_str e.1) function_code_arms
    named = unfold function_code_str in (refl, (refl, (refl, tt)))

    found : (c : FunctionCode) → first_match function_code_arms (function_code_str c) ≡ some c
    found cogs = unfold function_code_str in refl
    found rn_d = unfold function_code_str in refl
    found op_ex = unfold function_code_str in refl

-- A stored text is read as a capitalization status exactly when, trimmed and in upper case, it is
-- the text that `as_str` writes for it.
status_from_stored_iff :
    (s : Text) (c : CapitalizationStatus)
    → (status_from_stored s ≡ some c) ↔ (to_ascii_uppercase (trim s) ≡ status_str c)
unfolding status_from_stored
status_from_stored_iff s c =
    first_match_iff status_str status_arms (to_ascii_uppercase (trim s)) c named (found c)
  where
    named : All (λ e. e.0 ≡ status_str e.1) status_arms
    named = unfold status_str in (refl, (refl, (refl, tt)))

    found : (c : CapitalizationStatus) → first_match status_arms (status_str c) ≡ some c
    found expensed = unfold status_str in refl
    found capitalized = unfold status_str in refl
    found pending_review = unfold status_str in refl
