-- ===== src/Testkit/Scenario.antt =====
-- The data of crates/testkit/src/scenario.rs, the parameters of an operation, and the lookup of
-- operations in crates/testkit/src/catalog.rs. A path is the list of its components. A value of a
-- TOML table is read by the operations of its library, which are a parameter.
use falkr_lite.Base.{
  ℕ, Bool, true, false, not, ◌&&◌, Option, none, some, List, [], ◌∷◌, if◌then◌else◌, leb,
}
use falkr_lite.Base.Text.{Text, codes, eq_text}
use falkr_lite.Base.Map.{Map, text_key, lookup, remove}
use falkr_lite.Base.Outcome.{Outcome, ok, ok_or, map_err, ◌>>=◌}
use falkr_lite.Testkit.Phase.{Phase, and_then, p02, is_delivered}
use falkr_lite.Testkit.Operations.{OperationSpec, operations}

pub data Status : Type 0 where
  ready blocked divergent : Status

pub record Meta : Type 0 where
  pub id : Text
  pub title : Text
  pub standards : List Text
  pub phase : Phase
  pub difficulty : ℕ
  pub status : Status
  pub blocked_reason : Option Text
  pub divergence : Option Text

pub record Setup : Type 0 where
  pub entity : Text
  pub book : Text
  pub functional_ccy : Text
  pub period : Text
  pub calendar : Text

pub record ScenarioLine : Type 0 where
  pub account : Text
  pub debit : Option Text
  pub credit : Option Text
  pub currency : Option Text
  pub sources : List Text

pub record ExpectedInvariants : Type 0 where
  pub balanced : Bool
  pub replay_stable : Bool
  pub subledger_ties : Bool
  pub roll_forward : Bool
  pub intercompany_eliminated : Bool

pub record Expected : Type 0 where
  pub trial_balance : Map Text Text
  pub by_entity : Map Text (Map Text Text)
  pub subledgers : Map Text Text
  pub unusual_balances : List Text
  pub invariants : ExpectedInvariants
  -- the one field of `Notes`
  pub reasoning : Text

-- `toml::Value`: its accessors, and `try_into` to a line, whose error is a text.
pub record Toml (V : Type 0) : Type 0 where
  pub as_str : V → Option Text
  pub as_bool : V → Option Bool
  pub as_array : V → Option (List V)
  pub as_line : V → Outcome Text ScenarioLine

pub record Operation (V : Type 0) : Type 0 where
  pub kind : Text
  pub params : Map Text V

-- The third and last field of `missing` and `not_decimal`, a text for the reader, is left out.
pub data ParamError : Type 0 where
  -- kind, param
  missing : Text → Text → ParamError
  -- kind, param, raw
  not_decimal : Text → Text → Text → ParamError
  -- kind, detail
  bad_line : Text → Text → ParamError

pub record Scenario (V : Type 0) : Type 0 where
  pub path : List Text
  pub meta : Meta
  pub setup : Setup
  pub operations : List (Operation V)
  pub expected : Expected

abbrev pub or_false : Option Bool → Bool
or_false none = false
or_false (some b) = b

-- The larger phase, the later one of two that are equal.
abbrev pub max_phase : Phase → Phase → Phase
max_phase p q = if leb p.number q.number then q else p

module _ {V : Type 0} ⦃t : Toml V⦄ where
  -- The `Deserialize` of an operation; the only error is a missing kind.
  unfoldable pub operation_of_table : Map Text V → Option (Operation V)
  operation_of_table params = elim (and_then (lookup (codes "kind") params) t.as_str) [
    | none ↦ none
    | some kind ↦ some (record { kind = kind; params = remove (codes "kind") params })
  ]

  -- `Operation::opt_str_param`
  unfoldable pub opt_str_param : Operation V → Text → Option Text
  opt_str_param op name = and_then (lookup name op.params) t.as_str

  -- `Operation::str_param`
  unfoldable pub str_param : Operation V → Text → Outcome ParamError Text
  unfolding opt_str_param
  str_param op name = ok_or (opt_str_param op name) (missing op.kind name)

  -- `Operation::decimal_param`; `parse` is `Decimal::from_str_exact`.
  unfoldable pub decimal_param :
      {D : Type 0} → (Text → Option D) → Operation V → Text → Outcome ParamError D
  decimal_param parse op name = do
    raw ← str_param op name
    ok_or (parse raw) (not_decimal op.kind name raw)

  abbrev pub collect_lines : Text → List V → Outcome ParamError (List ScenarioLine)
  collect_lines kind [] = ok []
  collect_lines kind (v ∷ vs) = do
    line ← map_err (bad_line kind) (t.as_line v)
    lines ← collect_lines kind vs
    ok (line ∷ lines)

  -- `Operation::lines`
  unfoldable pub op_lines : Operation V → Outcome ParamError (List ScenarioLine)
  op_lines op = do
    array ←
        ok_or (and_then (lookup (codes "lines") op.params) t.as_array)
          (missing op.kind (codes "lines"))
    collect_lines op.kind array

  unfoldable pub expects_rejection : Operation V → Bool
  expects_rejection op = or_false (and_then (lookup (codes "expect_rejection") op.params) t.as_bool)

abbrev pub find_spec : Text → List OperationSpec → Option OperationSpec
find_spec kind [] = none
find_spec kind (o ∷ os) = if eq_text o.kind kind then some o else find_spec kind os

-- `catalog::spec`
unfoldable pub spec : Text → Option OperationSpec
spec kind = find_spec kind operations

abbrev pub spec_delivered : Option OperationSpec → Bool
spec_delivered none = false
spec_delivered (some s) = is_delivered s.phase

module _ {V : Type 0} where
  abbrev pub highest : Option Phase → List (Operation V) → Option Phase
  highest best [] = best
  highest best (op ∷ ops) = elim (spec op.kind) [
    | none ↦ highest best ops
    | some s ↦ highest (some (elim best [ none ↦ s.phase | some p ↦ max_phase p s.phase ])) ops
  ]

  -- `Scenario::required_phase`
  unfoldable pub required_phase : Scenario V → Phase
  required_phase scenario = elim (highest none scenario.operations) [ none ↦ p02 | some p ↦ p ]

abbrev pub is_blocked : Status → Bool
is_blocked blocked = true
is_blocked _ = false

-- `Scenario::is_executable`
unfoldable pub is_executable : {V : Type 0} → Scenario V → Bool
is_executable scenario =
    not (is_blocked scenario.meta.status) && is_delivered (required_phase scenario)
