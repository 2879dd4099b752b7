-- ===== src/Testkit/Rejections.antt =====
-- The rejections of an execution of crates/testkit/src/runner.rs against what the ledger answered to
-- each command, and against those that the scenario declares.
use falkr_lite.Base.{
  ℕ, suc, ◌≡◌, sym, ap, ◌∙◌, subst, true, false, some, List, [], ◌∷◌, ◌++◌, map, map-append, inl,
  inr, ◌⊎◌, append-nil, append_assoc, if◌then◌else◌,
}
use falkr_lite.Base.Text.{Text}
use falkr_lite.Base.Map.{Map}
use falkr_lite.Base.Outcome.{ok, err, >>=-eq-ok, ok-injective}
use falkr_lite.Decimal.{Arithmetic}
use falkr_lite.Core.Currency.{Currency}
use falkr_lite.Core.Dimensions.{Uuid}
use falkr_lite.Ledger.{LedgerEvent, LedgerCommand, LedgerError, apply_events, handle_command}
use falkr_lite.Testkit.Chart.{ChartOfAccounts}
use falkr_lite.Testkit.Scenario.{Toml, Operation, Scenario, expects_rejection}
use falkr_lite.Testkit.Runner.{Environment, LedgerRun, Progress}
use falkr_lite.Testkit.Execute.{command_for, run_operation, run_operations, start_progress, execute}
use falkr_lite.Testkit.Runs.{apply_produced-Applies, run_operation-cases, execute-loop}

module _ {V D Date : Type 0} ⦃t : Toml V⦄ ⦃d : Arithmetic D⦄ (env : Environment D Date)
    (chart : ChartOfAccounts) (scenario : Scenario V) where
  -- An operation that declares no rejection: its command is accepted, and its events are applied
  -- and logged. One that declares a rejection: its command is refused, the error is recorded and
  -- nothing else is changed.
  abbrev pub Answered :
      Operation V → ℕ → Progress D Date → Progress D Date → LedgerCommand D → Type 0
  Answered op index p p' command =
      let answer = handle_command p.state command (env.fresh index) (env.now index) in
      ((expects_rejection op ≡ false)
        × ((produced : List (LedgerEvent D)) × (answer ≡ ok produced)
            × (apply_events p.state produced ≡ some p'.state)
            × (p'.events ≡ p.events ++ produced)
            × (p'.rejections ≡ p.rejections)))
      ⊎ ((expects_rejection op ≡ true)
          × ((e : LedgerError D) × (answer ≡ err e)
              × (p'.state ≡ p.state)
              × (p'.events ≡ p.events)
              × (p'.rejections ≡ p.rejections ++ ((op.kind, e) ∷ []))))

  -- Every operation is answered, one after the other, up to the end of the run.
  abbrev pub AllAnswered :
      List (Operation V) → ℕ → Currency → Progress D Date → LedgerRun D Date → Type 0
  AllAnswered [] index c p r =
      (r.state ≡ p.state) × (r.events ≡ p.events) × (r.rejections ≡ p.rejections)
  AllAnswered (op ∷ ops) index c p r =
      (p' : Progress D Date) × (command : LedgerCommand D) × (labels : Map Uuid Text) × (command_for
          env chart scenario op c p
        ≡ ok (command, labels))
      × Answered op index p p' command
      × AllAnswered ops (suc index) c p' r

  run_operation-Answered :
      (op : Operation V) (index : ℕ) (c : Currency) (p p' : Progress D Date)
      → run_operation env chart scenario op index c p ≡ ok p'
      → (command : LedgerCommand D) × (labels : Map Uuid Text) × (command_for env chart scenario op
            c p
          ≡ ok (command, labels))
        × Answered op index p p' command
  run_operation-Answered op index c p p' h =
      let (command, (labels, made), ended) =
        run_operation-cases env chart scenario op index c p p' h in
      (
        command,
        labels,
        made,
        elim ended [
          | inl (plain, (produced, handled, labels', applied)) ↦
              let (states, events, rejections) =
                apply_produced-Applies env chart scenario produced op index _ p' applied in
              inl (plain, (produced, handled, states, events, rejections))
          | inr (declared, state, events, _, (e, refused, more)) ↦
              inr (declared, (e, refused, state, events, more))
        ],
      )

  run_operations-AllAnswered :
      (ops : List (Operation V)) (index : ℕ) (c : Currency) (p q : Progress D Date)
      (r : LedgerRun D Date)
      → (r.state ≡ q.state) × (r.events ≡ q.events) × (r.rejections ≡ q.rejections)
      → run_operations env chart scenario ops index c p ≡ ok q
      → AllAnswered ops index c p r
  unfolding run_operations
  run_operations-AllAnswered [] index c p q r ends h =
      subst (λ u. (r.state ≡ u.state) × (r.events ≡ u.events) × (r.rejections ≡ u.rejections))
        (sym (ok-injective h)) ends
  run_operations-AllAnswered (op ∷ ops) index c p q r ends h =
      let (p', e, h') = >>=-eq-ok (run_operation env chart scenario op index c p) _ h in
      let (command, labels, made, answered) = run_operation-Answered op index c p p' e in
      (
        p',
        command,
        labels,
        made,
        answered,
        run_operations-AllAnswered ops (suc index) c p' q r ends h',
      )

  -- The kinds of the operations that declare a rejection, in order.
  abbrev pub declared_rejections : List (Operation V) → List Text
  declared_rejections [] = []
  declared_rejections (op ∷ ops) =
      let rest = declared_rejections ops in if expects_rejection op then op.kind ∷ rest else rest

  abbrev kinds : List (Text × LedgerError D) → List Text
  kinds = map (λ r. r.0)

  -- What was rejected before, and what the remaining operations declare.
  AllAnswered-declared :
      (ops : List (Operation V)) (index : ℕ) (c : Currency) (p : Progress D Date)
      (r : LedgerRun D Date)
      → AllAnswered ops index c p r
      → kinds r.rejections ≡ kinds p.rejections ++ declared_rejections ops
  AllAnswered-declared [] index c p r (_, _, same) =
      ap kinds same ∙ sym (append-nil (kinds p.rejections))
  AllAnswered-declared (op ∷ ops) index c p r (p', command, labels, made, answered, later) =
      let rest = AllAnswered-declared ops (suc index) c p' r later in
      let others = declared_rejections ops in
      elim answered [
        | inl (plain, (_, _, _, _, same)) ↦ rw plain (rest ∙ ap (λ ks. kinds ks ++ others) same)
        | inr (declared, (e, _, _, _, more)) ↦ rw declared (
            rest
            ∙ ap (λ ks. kinds ks ++ others) more
            ∙ ap (λ ks. ks ++ others) (map-append (λ k. k.0) p.rejections ((op.kind, e) ∷ []))
            ∙ append_assoc (kinds p.rejections) (op.kind ∷ []) others)
      ]

  -- Where a scenario executes, the operations that declare no rejection have had their commands
  -- accepted, each on the ledger that the operations before it left, and their events are applied
  -- and logged; the others have had theirs refused, and each added its kind and the error to the
  -- rejections and changed nothing else of the ledger or the log. So the kinds of the rejections are
  -- those of the operations that declare one, in order.
  pub execute-rejections :
      {r : LedgerRun D Date}
      → execute env chart scenario ≡ ok r
      → AllAnswered scenario.operations 0 r.currency (start_progress env chart scenario) r
        × (map (λ k. k.0) r.rejections ≡ declared_rejections scenario.operations)
  execute-rejections {r} h =
      let (p, _, loop, state, events, _, rejections) = execute-loop env chart scenario h in
      let all =
        run_operations-AllAnswered scenario.operations 0 r.currency _ p r
          (state, events, rejections) loop in
      (all, AllAnswered-declared scenario.operations 0 r.currency _ r all)
