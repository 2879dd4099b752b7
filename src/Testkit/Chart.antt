-- ===== src/Testkit/Chart.antt =====
-- The data and the lookups of crates/testkit/src/chart.rs; the reading of the files is left out.
use falkr_lite.Base.{
  ◌≡◌, Bool, true, false, not, ◌||◌, Option, none, some, if◌then◌else◌, Option-cases, Bool-cases,
  inl, inr, subst,
}
use falkr_lite.Base.Text.{Text, eq_text, eq_text_sound, trim, split_once}
use falkr_lite.Base.Map.{Map, text_key, lookup}
use falkr_lite.Decimal.{Arithmetic}

pub data AccountKind : Type 0 where
  asset liability equity revenue expense : AccountKind

pub data NormalBalance : Type 0 where
  debit credit : NormalBalance

-- `AccountKind::natural_side`
unfoldable pub natural_side : AccountKind → NormalBalance
natural_side asset = debit
natural_side expense = debit
natural_side liability = credit
natural_side equity = credit
natural_side revenue = credit

unfoldable pub rejects_opposite_sign_by_default : AccountKind → Bool
rejects_opposite_sign_by_default asset = true
rejects_opposite_sign_by_default expense = true
rejects_opposite_sign_by_default _ = false

-- `NormalBalance::flip`
unfoldable pub flip : NormalBalance → NormalBalance
flip debit = credit
flip credit = debit

pub record Account : Type 0 where
  pub code : Text
  pub name : Text
  pub kind : AccountKind
  pub contra : Bool
  pub allow_opposite_sign : Option Bool
  pub currency : Option Text
  pub subledger : Option Text
  pub intercompany : Bool
  pub fs_caption : Text

-- `Account::normal_balance`
unfoldable pub normal_balance : Account → NormalBalance
unfolding natural_side flip
normal_balance a = if a.contra then flip (natural_side a.kind) else natural_side a.kind

-- `Account::permits_opposite_sign`
unfoldable pub permits_opposite_sign : Account → Bool
unfolding rejects_opposite_sign_by_default
permits_opposite_sign a = elim a.allow_opposite_sign [
  | some explicit ↦ explicit
  | none ↦ not (rejects_opposite_sign_by_default a.kind)
]

pub record Entity : Type 0 where
  pub code : Text
  pub name : Text
  pub functional_ccy : Text
  pub parent : Option Text
  pub ownership : Option Text

pub record Source : Type 0 where
  pub code : Text
  pub description : Text
  pub automated : Bool

pub record ChartOfAccounts : Type 0 where
  pub by_code : Map Text Account
  pub entities : Map Text Entity
  pub sources : Map Text Source
  pub controls : Map Text Text

-- The code of a reference, and the name if it has one.
unfoldable pub split_reference : Text → Text × Option Text
split_reference reference = elim (split_once b'-' reference) [
  | some (code, name) ↦ (trim code, some (trim name))
  | none ↦ (trim reference, none)
]

abbrev pub name_fits : Option Text → Account → Bool
name_fits none a = true
name_fits (some name) a = eq_text name a.name

-- `ChartOfAccounts::resolve`
unfoldable pub resolve : ChartOfAccounts → Text → Option Account
resolve chart reference =
    let (code, name) = split_reference reference in
    elim (lookup code chart.by_code) [
      | none ↦ none
      | some a ↦ if name_fits name a then some a else none
    ]

-- `ChartOfAccounts::entity` and `ChartOfAccounts::source`
unfoldable pub entity : ChartOfAccounts → Text → Option Entity
entity chart code = lookup code chart.entities

unfoldable pub source : ChartOfAccounts → Text → Option Source
source chart code = lookup code chart.sources

-- `ChartOfAccounts::control_account`
unfoldable pub control_account : ChartOfAccounts → Text → Option Account
control_account chart subledger = elim (lookup subledger chart.controls) [
  | none ↦ none
  | some code ↦ lookup code chart.by_code
]

abbrev pub on_side : {D : Type 0} → Arithmetic D → NormalBalance → D → Bool
on_side d debit amount = not (d.is_sign_negative amount)
on_side d credit amount = d.is_sign_negative amount || d.is_zero amount

-- `on_normal_side` of assertions.rs
unfoldable pub on_normal_side : {D : Type 0} ⦃d : Arithmetic D⦄ → Account → D → Bool
unfolding normal_balance
on_normal_side ⦃d = d⦄ a amount = on_side d (normal_balance a) amount

-- The name in a reference, if there is one, is that of the account.
abbrev pub Named : Option Text → Account → Type 0
Named none a = Unit
Named (some name) a = name ≡ a.name

name_fits-Named : (name : Option Text) (a : Account) → name_fits name a ≡ true → Named name a
name_fits-Named none a h = tt
name_fits-Named (some name) a h = eq_text_sound name a.name h

-- A reference that resolves gives the account on the chart under its code, and if it carries a
-- name, that is the name of the account: a code under a wrong name never resolves.
resolve-eq-some :
    (chart : ChartOfAccounts) (reference : Text) {a : Account}
    → resolve chart reference ≡ some a
    → (lookup (split_reference reference).0 chart.by_code ≡ some a)
      × Named (split_reference reference).1 a
unfolding resolve
resolve-eq-some chart reference {a} h =
    elim (Option-cases (lookup (split_reference reference).0 chart.by_code)) [
      | inl absent ↦ cc (rw (absent, resolve) at h)
      | inr (b, present) ↦ elim (Bool-cases (name_fits (split_reference reference).1 b)) [
        | inl fits ↦
            let same : b ≡ a = cc (rw (present, fits, resolve) at h) in
            subst
              (λ c.
                (lookup (split_reference reference).0 chart.by_code ≡ some c)
                × Named (split_reference reference).1 c)
              same (present, name_fits-Named _ b fits)
        | inr other ↦ cc (rw (present, other, resolve) at h)
      ]
    ]
