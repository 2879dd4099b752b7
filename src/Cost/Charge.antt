-- ===== src/Cost/Charge.antt =====
-- `ProviderKind` and `ChargeCategory` of crates/cost-spine/src/event.rs.
use falkr_lite.Base.{◌≡◌, refl, ◌↔◌, Bool, true, false, Option, some, List, [], ◌∷◌, All}
use falkr_lite.Base.Text.{Text, codes, trim, to_ascii_lowercase, first_match, first_match_iff}

pub data ProviderKind : Type 0 where
  aws gcp azure core_weave oci internal : ProviderKind

-- `ProviderKind::as_str`
unfoldable pub provider_kind_str : ProviderKind → Text
provider_kind_str aws = codes "aws"
provider_kind_str gcp = codes "gcp"
provider_kind_str azure = codes "azure"
provider_kind_str core_weave = codes "coreweave"
provider_kind_str oci = codes "oci"
provider_kind_str internal = codes "internal"

provider_kind_arms : List (Text × ProviderKind)
provider_kind_arms =
    (codes "aws", aws)
    ∷ (codes "gcp", gcp)
    ∷ (codes "azure", azure)
    ∷ (codes "coreweave", core_weave)
    ∷ (codes "oci", oci)
    ∷ (codes "internal", internal)
    ∷ []

-- `ProviderKind::from_stored`
unfoldable pub provider_kind_from_stored : Text → Option ProviderKind
unfolding provider_kind_arms
provider_kind_from_stored s = first_match provider_kind_arms (to_ascii_lowercase (trim s))

-- A stored text is read as a provider exactly when, trimmed and in lower case, it is the text that
-- `as_str` writes for it.
provider_kind_from_stored_iff :
    (s : Text) (c : ProviderKind)
    → (provider_kind_from_stored s ≡ some c) ↔ (to_ascii_lowercase (trim s) ≡ provider_kind_str c)
unfolding provider_kind_from_stored
provider_kind_from_stored_iff s c =
    first_match_iff provider_kind_str provider_kind_arms (to_ascii_lowercase (trim s)) c named
      (found c)
  where
    named : All (λ e. e.0 ≡ provider_kind_str e.1) provider_kind_arms
    named = unfold provider_kind_str in (refl, (refl, (refl, (refl, (refl, (refl, tt))))))

    found : (c : ProviderKind) → first_match provider_kind_arms (provider_kind_str c) ≡ some c
    found aws = unfold provider_kind_str in refl
    found gcp = unfold provider_kind_str in refl
    found azure = unfold provider_kind_str in refl
    found core_weave = unfold provider_kind_str in refl
    found oci = unfold provider_kind_str in refl
    found internal = unfold provider_kind_str in refl

pub data ChargeCategory : Type 0 where
  usage purchase tax credit adjustment : ChargeCategory

-- `ChargeCategory::as_str`
unfoldable pub charge_category_str : ChargeCategory → Text
charge_category_str usage = codes "usage"
charge_category_str purchase = codes "purchase"
charge_category_str tax = codes "tax"
charge_category_str credit = codes "credit"
charge_category_str adjustment = codes "adjustment"

charge_category_arms : List (Text × ChargeCategory)
charge_category_arms =
    (codes "usage", usage)
    ∷ (codes "purchase", purchase)
    ∷ (codes "tax", tax)
    ∷ (codes "credit", credit)
    ∷ (codes "adjustment", adjustment)
    ∷ []

-- `ChargeCategory::from_stored`
unfoldable pub charge_category_from_stored : Text → Option ChargeCategory
unfolding charge_category_arms
charge_category_from_stored s = first_match charge_category_arms (to_ascii_lowercase (trim s))

-- A stored text is read as a charge category exactly when, trimmed and in lower case, it is the text that
-- `as_str` writes for it.
charge_category_from_stored_iff :
    (s : Text) (c : ChargeCategory)
    → (charge_category_from_stored s ≡ some c)
      ↔ (to_ascii_lowercase (trim s) ≡ charge_category_str c)
unfolding charge_category_from_stored
charge_category_from_stored_iff s c =
    first_match_iff charge_category_str charge_category_arms (to_ascii_lowercase (trim s)) c named
      (found c)
  where
    named : All (λ e. e.0 ≡ charge_category_str e.1) charge_category_arms
    named = unfold charge_category_str in (refl, (refl, (refl, (refl, (refl, tt)))))

    found : (c : ChargeCategory) → first_match charge_category_arms (charge_category_str c) ≡ some c
    found usage = unfold charge_category_str in refl
    found purchase = unfold charge_category_str in refl
    found tax = unfold charge_category_str in refl
    found credit = unfold charge_category_str in refl
    found adjustment = unfold charge_category_str in refl

unfoldable pub creates_commitment : ChargeCategory → Bool
creates_commitment purchase = true
creates_commitment _ = false
