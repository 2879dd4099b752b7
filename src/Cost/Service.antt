-- ===== src/Cost/Service.antt =====
-- `ServiceCategory` of crates/cost-spine/src/event.rs: the stored names and those of FOCUS.
use falkr_lite.Base.{
  ◌≡◌, ◌≢◌, refl, ◌↔◌, inl, inr, Option, none, some, List, [], ◌∷◌, All, arith, map, ◌==◌,
  if◌then◌else◌, Bool-cases, sym,
}
use falkr_lite.Base.Text.{
  Text, codes, eq_text, eq_text_sound, trim, to_ascii_lowercase, first_match, first_match_iff,
}

pub data ServiceCategory : Type 0 where
  ai_and_machine_learning analytics business_applications compute databases developer_tools identity
        integration internet_of_things management_and_governance media migration mobile multicloud
        networking security storage web other :
      ServiceCategory

-- `ServiceCategory::as_str`
unfoldable pub service_str : ServiceCategory → Text
service_str ai_and_machine_learning = codes "ai_and_machine_learning"
service_str analytics = codes "analytics"
service_str business_applications = codes "business_applications"
service_str compute = codes "compute"
service_str databases = codes "databases"
service_str developer_tools = codes "developer_tools"
service_str identity = codes "identity"
service_str integration = codes "integration"
service_str internet_of_things = codes "internet_of_things"
service_str management_and_governance = codes "management_and_governance"
service_str media = codes "media"
service_str migration = codes "migration"
service_str mobile = codes "mobile"
service_str multicloud = codes "multicloud"
service_str networking = codes "networking"
service_str security = codes "security"
service_str storage = codes "storage"
service_str web = codes "web"
service_str other = codes "other"

candidates : List ServiceCategory
candidates =
    ai_and_machine_learning ∷ analytics ∷ business_applications ∷ compute ∷ databases
    ∷ developer_tools ∷ identity ∷ integration ∷ internet_of_things ∷ management_and_governance
    ∷ media ∷ migration ∷ mobile ∷ multicloud ∷ networking ∷ security ∷ storage ∷ web ∷ other ∷ []

-- `Iterator::find`, for a category whose name is the text.
abbrev find_named : List ServiceCategory → Text → Option ServiceCategory
find_named [] s = none
find_named (c ∷ cs) s =
    let rest = find_named cs s in if eq_text (service_str c) s then some c else rest

-- `ServiceCategory::from_stored`
unfoldable pub service_from_stored : Text → Option ServiceCategory
unfolding candidates
service_from_stored s = find_named candidates (trim s)

focus_arms : List (Text × ServiceCategory)
focus_arms =
    (codes "ai and machine learning", ai_and_machine_learning)
    ∷ (codes "analytics", analytics)
    ∷ (codes "business applications", business_applications)
    ∷ (codes "compute", compute)
    ∷ (codes "databases", databases)
    ∷ (codes "developer tools", developer_tools)
    ∷ (codes "identity", identity)
    ∷ (codes "integration", integration)
    ∷ (codes "internet of things", internet_of_things)
    ∷ (codes "management and governance", management_and_governance)
    ∷ (codes "media", media)
    ∷ (codes "migration", migration)
    ∷ (codes "mobile", mobile)
    ∷ (codes "multicloud", multicloud)
    ∷ (codes "networking", networking)
    ∷ (codes "security", security)
    ∷ (codes "storage", storage)
    ∷ (codes "web", web)
    ∷ []

abbrev or_other : Option ServiceCategory → ServiceCategory
or_other none = other
or_other (some c) = c

-- `ServiceCategory::from_focus_value`
unfoldable pub from_focus_value : Text → ServiceCategory
unfolding focus_arms
from_focus_value value = or_other (first_match focus_arms (to_ascii_lowercase (trim value)))

find_named_sound :
    (cs : List ServiceCategory) (s : Text) {c : ServiceCategory}
    → find_named cs s ≡ some c
    → s ≡ service_str c
find_named_sound [] s h = cc
find_named_sound (b ∷ cs) s h = elim (Bool-cases (eq_text (service_str b) s)) [
  | inl same ↦ ground (arith, eq_text_sound (service_str b) s same)
  | inr other_name ↦ find_named_sound cs s (rw other_name at h)
]

find_named-service_str : (c : ServiceCategory) → find_named candidates (service_str c) ≡ some c
unfolding candidates service_str
find_named-service_str ai_and_machine_learning = refl
find_named-service_str analytics = refl
find_named-service_str business_applications = refl
find_named-service_str compute = refl
find_named-service_str databases = refl
find_named-service_str developer_tools = refl
find_named-service_str identity = refl
find_named-service_str integration = refl
find_named-service_str internet_of_things = refl
find_named-service_str management_and_governance = refl
find_named-service_str media = refl
find_named-service_str migration = refl
find_named-service_str mobile = refl
find_named-service_str multicloud = refl
find_named-service_str networking = refl
find_named-service_str security = refl
find_named-service_str storage = refl
find_named-service_str web = refl
find_named-service_str other = refl

-- A stored text is read as a service category exactly when, trimmed, it is the text that `as_str`
-- writes for it.
service_from_stored_iff :
    (s : Text) (c : ServiceCategory) → (service_from_stored s ≡ some c) ↔ (trim s ≡ service_str c)
unfolding service_from_stored
service_from_stored_iff s c =
    (find_named_sound candidates (trim s), λ e. rw e (find_named-service_str c))

-- A stored name with its underscores as spaces.
abbrev pub spaced : Text → Text
spaced = map (λ u. if u == b'_' then b' ' else u)

focus_arms-IsNamed : All (λ e. e.0 ≡ spaced (service_str e.1)) focus_arms
unfolding focus_arms service_str
focus_arms-IsNamed = (
  refl,
  (
    refl,
    (
      refl,
      (
        refl,
        (
          refl,
          (
            refl,
            (
              refl,
              (
                refl,
                (refl, (refl, (refl, (refl, (refl, (refl, (refl, (refl, (refl, (refl, tt)))))))))),
              ),
            ),
          ),
        ),
      ),
    ),
  ),
)

focus_arms-found :
    (c : ServiceCategory) → c ≢ other → first_match focus_arms (spaced (service_str c)) ≡ some c
unfolding focus_arms service_str
focus_arms-found ai_and_machine_learning h = refl
focus_arms-found analytics h = refl
focus_arms-found business_applications h = refl
focus_arms-found compute h = refl
focus_arms-found databases h = refl
focus_arms-found developer_tools h = refl
focus_arms-found identity h = refl
focus_arms-found integration h = refl
focus_arms-found internet_of_things h = refl
focus_arms-found management_and_governance h = refl
focus_arms-found media h = refl
focus_arms-found migration h = refl
focus_arms-found mobile h = refl
focus_arms-found multicloud h = refl
focus_arms-found networking h = refl
focus_arms-found security h = refl
focus_arms-found storage h = refl
focus_arms-found web h = refl
focus_arms-found other h = absurd (h refl)

or_other-some :
    (o : Option ServiceCategory) (c : ServiceCategory) → c ≢ other → or_other o ≡ c → o ≡ some c
or_other-some none c h e = absurd (h (sym e))
or_other-some (some b) c h e = cc

-- A text of FOCUS is read as a category other than `Other` exactly when, trimmed and in lower
-- case, it is the stored name of the category with its underscores as spaces.
from_focus_value_iff :
    (value : Text) (c : ServiceCategory)
    → c ≢ other
    → (from_focus_value value ≡ c) ↔ (to_ascii_lowercase (trim value) ≡ spaced (service_str c))
unfolding from_focus_value
from_focus_value_iff value c h =
    let (sound, complete) =
      first_match_iff (λ c. spaced (service_str c)) focus_arms (to_ascii_lowercase (trim value)) c
        focus_arms-IsNamed (focus_arms-found c h) in
    (
      (λ e. sound (or_other-some (first_match focus_arms (to_ascii_lowercase (trim value))) c h e)),
      λ e. rw (complete e) refl,
    )
