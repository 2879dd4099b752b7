-- ===== src/Testkit/Delivery.antt =====
-- When the runner executes a scenario: `Scenario::validate` and `Scenario::is_executable` of
-- crates/testkit/src/scenario.rs against `Runner::run` of crates/testkit/src/runner.rs.
use falkr_lite.Base.{
  ◌≤◌, ◌≡◌, ◌≢◌, refl, true, false, not, ◌&&◌, Option, none, some, List, [], ◌∷◌, arith, inl, inr,
  Option-cases, ◌==◌, is_empty,
}
use falkr_lite.Base.Outcome.{ok, ◌>>=◌}
use falkr_lite.Decimal.{Arithmetic}
use falkr_lite.Testkit.Phase.{Phase, is_delivered}
use falkr_lite.Testkit.Chart.{ChartOfAccounts}
use falkr_lite.Testkit.Scenario.{
  Toml, Operation, Scenario, spec, highest, max_phase, required_phase, is_blocked,
}
use falkr_lite.Testkit.Flaw.{unknown_kind, no_operations, wrong_phase, Flaw}
use falkr_lite.Testkit.Validate.{fail_if, is_missing, operation_flaws, kind_flaws, validate}
use falkr_lite.Testkit.Validity.{append-eq-nil, gather-eq-nil, fail_if-eq-nil, validate-eq-nil}
use falkr_lite.Testkit.Runner.{Environment, executed}
use falkr_lite.Testkit.Execute.{undeliverable, execute, run}

-- The phase so far is not above the highest one.
abbrev AtMost : Option Phase → Phase → Type 0
AtMost none p = Unit
AtMost (some q) p = q.number ≤ p.number

is_delivered-of_le :
    (p q : Phase) → p.number ≤ q.number → is_delivered q ≡ true → is_delivered p ≡ true
unfolding is_delivered
is_delivered-of_le p q le h = ground arith

above_phase :
    (best : Option Phase) (p q : Phase)
    → AtMost (some (elim best [ none ↦ p | some b ↦ max_phase b p ])) q
    → p.number ≤ q.number
above_phase none p q h = h
above_phase (some b) p q h = ground (arith, h)

module _ {V : Type 0} where
  highest-some : (q : Phase) (ops : List (Operation V)) → highest (some q) ops ≢ none
  highest-some q [] h = cc
  highest-some q (op ∷ ops) h = elim (Option-cases (spec op.kind)) [
    | inl unknown ↦ highest-some q ops (rw (unknown, highest) at h)
    | inr (s, known) ↦ highest-some (max_phase q s.phase) ops (rw (known, highest) at h)
  ]

  highest-AtMost :
      (best : Option Phase) (ops : List (Operation V)) (p : Phase)
      → highest best ops ≡ some p
      → AtMost best p
  highest-AtMost none ops p h = tt
  highest-AtMost (some q) [] p h = ground arith
  highest-AtMost (some q) (op ∷ ops) p h = elim (Option-cases (spec op.kind)) [
    | inl unknown ↦ highest-AtMost (some q) ops p (rw (unknown, highest) at h)
    | inr (s, known) ↦
        let above = highest-AtMost (some (max_phase q s.phase)) ops p (rw (known, highest) at h) in
        ground (arith, above)
  ]

module _ {V D Date : Type 0} ⦃t : Toml V⦄ ⦃d : Arithmetic D⦄ (env : Environment D Date)
    (chart : ChartOfAccounts) (scenario : Scenario V) where
  -- Where the highest phase has landed, every catalogued operation is delivered.
  delivered-undeliverable :
      (ops : List (Operation V)) (best : Option Phase) (p : Phase)
      → highest best ops ≡ some p
      → is_delivered p ≡ true
      → kind_flaws {D = D} ops ≡ []
      → undeliverable env chart scenario ops ≡ []
  unfolding kind_flaws
  delivered-undeliverable [] best p h delivered known = refl
  delivered-undeliverable (op ∷ ops) best p h delivered known = elim (Option-cases (spec op.kind)) [
    | inl unknown ↦ cc (rw unknown at known)
    | inr (s, found) ↦
        let h' = rw (found, highest) at h in
        let above = above_phase best s.phase p (highest-AtMost _ ops p h') in
        let lands = is_delivered-of_le s.phase p above delivered in
        rw (found, undeliverable)
          (rw lands (
            delivered-undeliverable ops _ p h' delivered (
              (append-eq-nil
                (fail_if {A = Flaw D} (is_missing (spec op.kind)) (unknown_kind op.kind)) _
                known).1)))
  ]

  no_phase-undeliverable :
      (ops : List (Operation V))
      → highest none ops ≡ none
      → kind_flaws {D = D} ops ≡ []
      → undeliverable env chart scenario ops ≡ []
  unfolding kind_flaws
  no_phase-undeliverable [] h known = refl
  no_phase-undeliverable (op ∷ ops) h known = elim (Option-cases (spec op.kind)) [
    | inl unknown ↦ cc (rw unknown at known)
    | inr (s, found) ↦ absurd (highest-some s.phase ops (rw (found, highest) at h))
  ]

  required-undeliverable :
      is_delivered (required_phase scenario) ≡ true
      → kind_flaws {D = D} scenario.operations ≡ []
      → undeliverable env chart scenario scenario.operations ≡ []
  unfolding required_phase
  required-undeliverable delivered known = elim (Option-cases (highest none scenario.operations)) [
    | inl nothing ↦ no_phase-undeliverable scenario.operations nothing known
    | inr (p, found) ↦
        delivered-undeliverable scenario.operations none p found
          (rw (found, required_phase) at delivered) known
  ]

  declared_phase :
      operation_flaws {D = D} scenario ≡ []
      → is_blocked scenario.meta.status ≡ false
      → (kind_flaws {D = D} scenario.operations ≡ [])
        × (scenario.meta.phase.number ≡ (required_phase scenario).number)
  unfolding operation_flaws
  declared_phase h live =
      let wrong =
        not (is_blocked scenario.meta.status)
        && not (scenario.meta.phase.number == (required_phase scenario).number) in
      let (_, (kinds, (phases, _))) =
        gather-eq-nil
          (fail_if (is_empty scenario.operations && not (is_blocked scenario.meta.status))
              no_operations
            ∷ kind_flaws scenario.operations
            ∷ fail_if wrong (wrong_phase (required_phase scenario))
            ∷ [])
          h in
      let right =
        fail_if-eq-nil {A = Flaw D} wrong (wrong_phase (required_phase scenario)) phases in
      (kinds, ground (arith, right, live))

  -- A scenario without defects that is not blocked, and that declares a phase that has landed, is
  -- executed: it is never deferred, and its answer is that of its execution.
  pub validate-run :
      validate env.from_str_exact chart scenario ≡ []
      → is_blocked scenario.meta.status ≡ false
      → is_delivered scenario.meta.phase ≡ true
      → run env chart scenario ≡ (execute env chart scenario >>= λ r. ok (executed r))
  unfolding run
  validate-run valid live landed =
      let (kinds, same) =
        declared_phase (validate-eq-nil env.from_str_exact chart scenario valid).1 live in
      let delivered =
        is_delivered-of_le (required_phase scenario) scenario.meta.phase (omega (arith, same))
          landed in
      rw (live, required-undeliverable delivered kinds) refl
