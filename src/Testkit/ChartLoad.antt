-- ===== src/Testkit/ChartLoad.antt =====
-- `ChartOfAccounts::load` of crates/testkit/src/chart.rs, on the three files as read: an answer of
-- `read_toml` is a list of records or the error of the read.
use falkr_lite.Base.{
  ◌≡◌, ◌↔◌, refl, sym, ap, ◌∙◌, subst, Bool, true, false, not, ◌&&◌, Option, none, some, List, [],
  ◌∷◌, arith, is_empty, inl, inr, ◌⊎◌, Option-cases, Bool-cases, some-injective, if◌then◌else◌,
}
use falkr_lite.Base.Text.{Text, eq_text, eq_text_sound}
use falkr_lite.Base.Map.{
  Map, text_key, values, lookup, contains_key, insert, lookup-insert, lookup-insert_self,
}
use falkr_lite.Base.Outcome.{
  Outcome, ok, err, reject_if, reject_if-eq-ok, >>=-eq-ok, ok-injective, ◌>>=◌, ◌>>◌,
}
use falkr_lite.Core.Currency.{from_code}
use falkr_lite.Testkit.Chart.{Account, Entity, Source, ChartOfAccounts}

pub data ChartError : Type 0 where
  -- `Io` and `Parse`: the error of a read
  unreadable : Text → ChartError
  duplicate_account duplicate_entity duplicate_source : Text → ChartError
  -- subledger, first, second
  ambiguous_subledger : Text → Text → Text → ChartError
  -- entity, parent
  unknown_parent : Text → Text → ChartError
  -- the record that names it, code
  unknown_currency : Text → Text → ChartError

abbrev known_currency : Option Text → Bool
known_currency none = true
known_currency (some code) = elim (from_code code) [ none ↦ false | some _ ↦ true ]

abbrev named_currency : Option Text → Text
named_currency none = []
named_currency (some code) = code

-- `controls.get(subledger)`, for an account that claims one.
abbrev claimed : Option Text → Map Text Text → Option (Text × Text)
claimed none controls = none
claimed (some subledger) controls = elim (lookup subledger controls) [
  | none ↦ none
  | some first ↦ some (subledger, first)
]

abbrev reject_claimed : Option (Text × Text) → Text → Outcome ChartError (Unit {0})
reject_claimed none second = ok tt
reject_claimed (some (subledger, first)) second = err (ambiguous_subledger subledger first second)

abbrev claim : Option Text → Text → Map Text Text → Map Text Text
claim none code controls = controls
claim (some subledger) code controls = insert subledger code controls

-- The loop over the accounts.
unfoldable pub load_accounts :
    List Account
    → Map Text Account
    → Map Text Text
    → Outcome ChartError (Map Text Account × Map Text Text)
load_accounts [] by_code controls = ok (by_code, controls)
load_accounts (a ∷ accounts) by_code controls = do
  reject_if (not (known_currency a.currency)) (unknown_currency a.code (named_currency a.currency))
  reject_claimed (claimed a.subledger controls) a.code
  reject_if (contains_key a.code by_code) (duplicate_account a.code)
  load_accounts accounts (insert a.code a by_code) (claim a.subledger a.code controls)

unfoldable pub load_entities : List Entity → Map Text Entity → Outcome ChartError (Map Text Entity)
load_entities [] entities = ok entities
load_entities (e ∷ rest) entities = do
  reject_if (not (known_currency (some e.functional_ccy)))
      (unknown_currency e.code e.functional_ccy)
  reject_if (contains_key e.code entities) (duplicate_entity e.code)
  load_entities rest (insert e.code e entities)

-- A parent that is named is an entity.
abbrev check_parent : Text → Option Text → Map Text Entity → Outcome ChartError (Unit {0})
check_parent code none entities = ok tt
check_parent code (some parent) entities =
    reject_if (not (is_empty parent) && not (contains_key parent entities))
      (unknown_parent code parent)

unfoldable pub check_parents : List Entity → Map Text Entity → Outcome ChartError (Unit {0})
check_parents [] entities = ok tt
check_parents (e ∷ rest) entities = do
  check_parent e.code e.parent entities
  check_parents rest entities

unfoldable pub load_sources : List Source → Map Text Source → Outcome ChartError (Map Text Source)
load_sources [] sources = ok sources
load_sources (s ∷ rest) sources = do
  reject_if (contains_key s.code sources) (duplicate_source s.code)
  load_sources rest (insert s.code s sources)

-- `ChartOfAccounts::load`
unfoldable pub load :
    Outcome ChartError (List Account)
    → Outcome ChartError (List Entity)
    → Outcome ChartError (List Source)
    → Outcome ChartError ChartOfAccounts
load accounts_file entities_file sources_file = do
  accounts ← accounts_file
  entities ← entities_file
  sources ← sources_file
  indexed ← load_accounts accounts [] []
  entity_map ← load_entities entities []
  check_parents (values entity_map) entity_map
  source_map ← load_sources sources []
  ok (record {
    by_code = indexed.0;
    entities = entity_map;
    sources = source_map;
    controls = indexed.1;
  })

-- The two indexes agree: an account stands under its code, and it is the control account of a
-- subledger exactly if it claims it.
abbrev IsIndexed : Map Text Account → Map Text Text → Type 0
IsIndexed by_code controls =
    ((c : Text) (a : Account) → lookup c by_code ≡ some a → a.code ≡ c)
    × ((s c : Text)
        → lookup s controls ≡ some c
        → (a : Account) × (lookup c by_code ≡ some a) × (a.subledger ≡ some s))
    × ((s c : Text) (a : Account)
        → lookup c by_code ≡ some a
        → a.subledger ≡ some s
        → lookup s controls ≡ some c)

found_in_insert :
    {B : Type 0} (c k : Text) (v b : B) (m : Map Text B)
    → lookup c (insert k v m) ≡ some b
    → ((c ≡ k) × (v ≡ b)) ⊎ (lookup c m ≡ some b)
found_in_insert c k v b m h =
    let put : lookup c (insert k v m) ≡ (if eq_text c k then some v else lookup c m) =
      lookup-insert c k v m in
    elim (Bool-cases (eq_text c k)) [
      | inl same ↦ inl (eq_text_sound c k same, some-injective (sym (rw same at put) ∙ h))
      | inr other ↦ inr (sym (rw other at put) ∙ h)
    ]

kept_by_insert :
    {B : Type 0} (c k : Text) (v b : B) (m : Map Text B)
    → lookup k m ≡ none
    → lookup c m ≡ some b
    → lookup c (insert k v m) ≡ some b
kept_by_insert c k v b m absent h =
    let put : lookup c (insert k v m) ≡ (if eq_text c k then some v else lookup c m) =
      lookup-insert c k v m in
    elim (Bool-cases (eq_text c k)) [
      | inl same ↦ cc (h, absent, eq_text_sound c k same)
      | inr other ↦ rw other at put ∙ h
    ]

insert-IsIndexed_plain :
    (a : Account) (by_code : Map Text Account) (controls : Map Text Text)
    → a.subledger ≡ none
    → lookup a.code by_code ≡ none
    → IsIndexed by_code controls
    → IsIndexed (insert a.code a by_code) controls
insert-IsIndexed_plain a by_code controls plain fresh (named, claims, controlled) = (
  λ c b h. elim (found_in_insert c a.code a b by_code h) [
    | inl (here, same) ↦ rw (← same) (sym here)
    | inr old ↦ named c b old
  ],
  λ s c h.
      let (b, found, claims_it) = claims s c h in
      (b, kept_by_insert c a.code a b by_code fresh found, claims_it),
  λ s c b h g. elim (found_in_insert c a.code a b by_code h) [
    | inl (here, same) ↦ cc (plain, g, same)
    | inr old ↦ controlled s c b old g
  ],
)

insert-IsIndexed_control :
    (a : Account) (sub : Text) (by_code : Map Text Account) (controls : Map Text Text)
    → a.subledger ≡ some sub
    → lookup a.code by_code ≡ none
    → lookup sub controls ≡ none
    → IsIndexed by_code controls
    → IsIndexed (insert a.code a by_code) (insert sub a.code controls)
insert-IsIndexed_control a sub by_code controls claims_sub fresh unclaimed
      (named, claims, controlled) =
    (
      λ c b h. elim (found_in_insert c a.code a b by_code h) [
        | inl (here, same) ↦ rw (← same) (sym here)
        | inr old ↦ named c b old
      ],
      λ s c h. elim (found_in_insert s sub a.code c controls h) [
        | inl (here, same) ↦
            (a, rw (← same) (lookup-insert_self a.code a by_code), claims_sub ∙ ap some (sym here))
        | inr old ↦
            let (b, found, claims_it) = claims s c old in
            (b, kept_by_insert c a.code a b by_code fresh found, claims_it)
      ],
      λ s c b h g. elim (found_in_insert c a.code a b by_code h) [
        | inl (here, same) ↦
            let sub_is : sub ≡ s = cc (claims_sub, g, same) in
            rw (← sub_is, here) (lookup-insert_self sub a.code controls)
        | inr old ↦ kept_by_insert s sub a.code c controls unclaimed (controlled s c b old g)
      ],
    )

unclaimed_of_ok :
    (sub second : Text) (controls : Map Text Text)
    → reject_claimed (claimed (some sub) controls) second ≡ ok tt
    → lookup sub controls ≡ none
unclaimed_of_ok sub second controls h = elim (Option-cases (lookup sub controls)) [
  | inl absent ↦ absent
  | inr (first, present) ↦ cc (rw (present, claimed) at h)
]

insert-IsIndexed :
    (a : Account) (claim_of : Option Text) (by_code : Map Text Account) (controls : Map Text Text)
    → a.subledger ≡ claim_of
    → lookup a.code by_code ≡ none
    → reject_claimed (claimed claim_of controls) a.code ≡ ok tt
    → IsIndexed by_code controls
    → IsIndexed (insert a.code a by_code) (claim claim_of a.code controls)
insert-IsIndexed a none by_code controls plain fresh e start =
    insert-IsIndexed_plain a by_code controls plain fresh start
insert-IsIndexed a (some sub) by_code controls claims_sub fresh e start =
    insert-IsIndexed_control a sub by_code controls claims_sub fresh
      (unclaimed_of_ok sub a.code controls e) start

load_accounts-IsIndexed :
    (accounts : List Account) (by_code : Map Text Account) (controls : Map Text Text)
    {indexed : Map Text Account × Map Text Text}
    → load_accounts accounts by_code controls ≡ ok indexed
    → IsIndexed by_code controls
    → IsIndexed indexed.0 indexed.1
unfolding load_accounts
load_accounts-IsIndexed [] by_code controls h start = rw (← ok-injective h) start
load_accounts-IsIndexed (a ∷ accounts) by_code controls h start =
    let (_, _, h₁) = >>=-eq-ok (reject_if (not (known_currency a.currency)) _) _ h in
    let (_, e, h₂) = >>=-eq-ok (reject_claimed (claimed a.subledger controls) a.code) _ h₁ in
    let (_, e', h₃) = >>=-eq-ok (reject_if (contains_key a.code by_code) _) _ h₂ in
    let fresh : lookup a.code by_code ≡ none = ground (arith, reject_if-eq-ok _ _ e') in
    load_accounts-IsIndexed accounts _ _ h₃
      (insert-IsIndexed a a.subledger by_code controls refl fresh e start)

claims_lookup :
    (s c : Text) (a : Account) (by_code : Map Text Account) (controls : Map Text Text)
    → IsIndexed by_code controls
    → lookup c by_code ≡ some a
    → lookup s controls ≡ some c
    → a.subledger ≡ some s
claims_lookup s c a by_code controls (_, claims, _) found h =
    let (b, present, claims_it) = claims s c h in
    let same : b ≡ a = some-injective (sym present ∙ found) in rw (← same) claims_it

-- In a chart that loads, an account stands under its own code, and the control account of a
-- subledger is exactly the one account that claims it.
pub load-control_account :
    (accounts : Outcome ChartError (List Account)) (entities : Outcome ChartError (List Entity))
    (sources : Outcome ChartError (List Source)) {chart : ChartOfAccounts}
    → load accounts entities sources ≡ ok chart
    → (s c : Text) (a : Account) → lookup c chart.by_code ≡ some a
    → (a.code ≡ c) × ((a.subledger ≡ some s) ↔ (lookup s chart.controls ≡ some c))
unfolding load
load-control_account accounts_file entities_file sources_file h s c a found =
    let (accounts, _, h₁) = >>=-eq-ok accounts_file _ h in
    let (entities, _, h₂) = >>=-eq-ok entities_file _ h₁ in
    let (sources, _, h₃) = >>=-eq-ok sources_file _ h₂ in
    let (indexed, e, h₄) = >>=-eq-ok (load_accounts accounts [] []) _ h₃ in
    let (entity_map, _, h₅) = >>=-eq-ok (load_entities entities []) _ h₄ in
    let (_, _, h₆) = >>=-eq-ok (check_parents (values entity_map) entity_map) _ h₅ in
    let (source_map, _, h₇) = >>=-eq-ok (load_sources sources []) _ h₆ in
    let index =
      load_accounts-IsIndexed accounts [] [] e ((λ c a h. cc), (λ s c h. cc), λ s c a h g. cc) in
    let made = ok-injective h₇ in
    subst
      (λ k.
        lookup c k.by_code ≡ some a
        → (a.code ≡ c) × ((a.subledger ≡ some s) ↔ (lookup s k.controls ≡ some c)))
      made
      (λ g. (index.0 c a g, (index.2 s c a g, claims_lookup s c a indexed.0 indexed.1 index g)))
      found
