-- ===== src/Testkit/Runs.antt =====
-- What an execution of crates/testkit/src/runner.rs returns: the ways in which a round ends, and the
-- log against the state.
use falkr_lite.Base.{
  ℕ, suc, ◌≡◌, refl, sym, ap, ◌∙◌, subst, Bool, true, false, some, List, [], ◌∷◌, ◌++◌, All, inl,
  inr, ◌⊎◌, append-nil, append_assoc, Option-cases, some-injective, All-of_every,
}
use falkr_lite.Base.Text.{Text}
use falkr_lite.Base.Map.{Map}
use falkr_lite.Base.Outcome.{
  Outcome, ok, err, panic, or_panic, or_panic-eq-ok, ok_or, ok_or-eq-ok, >>=-eq-ok, ok-injective,
}
use falkr_lite.Decimal.{Arithmetic}
use falkr_lite.Core.Currency.{Currency, from_code}
use falkr_lite.Core.Dimensions.{Uuid}
use falkr_lite.Ledger.{
  LedgerEvent, LedgerCommand, LedgerError, LedgerState, empty_state, apply_event, apply_events,
  handle_command,
}
use falkr_lite.Testkit.Assertions.{replay}
use falkr_lite.Testkit.Chart.{ChartOfAccounts}
use falkr_lite.Testkit.Scenario.{Toml, Operation, Scenario, expects_rejection}
use falkr_lite.Testkit.Runner.{Environment, LedgerRun, Progress}
use falkr_lite.Testkit.Execute.{
  command_for, apply_produced, settle, run_operation, run_operations, start_progress, execute,
}

module _ {D : Type 0} ⦃d : Arithmetic D⦄ where
  apply_events-append :
      (s s₁ s₂ : LedgerState D) (before after : List (LedgerEvent D))
      → apply_events s before ≡ some s₁
      → apply_events s₁ after ≡ some s₂
      → apply_events s (before ++ after) ≡ some s₂
  unfolding apply_events
  apply_events-append s s₁ s₂ [] after h g =
      subst (λ u. apply_events u after ≡ some s₂) (sym (some-injective h)) g
  apply_events-append s s₁ s₂ (e ∷ before) after h g = elim (Option-cases (apply_event s e)) [
    | inl panics ↦ cc (rw (panics, apply_events) at h)
    | inr (s', applied) ↦
        rw (applied, apply_events)
          (apply_events-append s' s₁ s₂ before after (rw (applied, apply_events) at h) g)
  ]

module _ {V D Date : Type 0} ⦃t : Toml V⦄ ⦃d : Arithmetic D⦄ (env : Environment D Date)
    (chart : ChartOfAccounts) (scenario : Scenario V) where
  -- What the events of one command do to the variables of the loop.
  abbrev pub Applies : List (LedgerEvent D) → Progress D Date → Progress D Date → Type 0
  Applies produced p p' =
      (apply_events p.state produced ≡ some p'.state)
      × (p'.events ≡ p.events ++ produced)
      × (p'.rejections ≡ p.rejections)

  pub apply_produced-Applies :
      (produced : List (LedgerEvent D)) (op : Operation V) (index : ℕ) (p p' : Progress D Date)
      → apply_produced env chart scenario produced op index p ≡ ok p'
      → Applies produced p p'
  unfolding apply_produced apply_events
  apply_produced-Applies [] op index p p' h =
      subst (Applies [] p) (ok-injective h) (refl, sym (append-nil p.events), refl)
  apply_produced-Applies (event ∷ produced) op index p p' h =
      let (s, e, h') = >>=-eq-ok (or_panic (apply_event p.state event)) _ h in
      let (states, events, rejections) = apply_produced-Applies produced op index _ p' h' in
      (
        rw (or_panic-eq-ok _ e, apply_events) states,
        events ∙ append_assoc p.events (event ∷ []) produced,
        rejections,
      )

  -- The two ways in which a round ends: an accepted command, or a rejection that was declared.
  abbrev pub Accepted :
      Operation V → ℕ → Progress D Date → Progress D Date → LedgerCommand D → Type 0
  Accepted op index p p' command =
      (expects_rejection op ≡ false)
      × ((produced : List (LedgerEvent D)) × (handle_command p.state command (env.fresh index)
              (env.now index)
            ≡ ok produced)
          × (labels : Map Uuid Text) × (apply_produced env chart scenario produced op index
                (record p { labels = labels })
              ≡ ok p'))

  abbrev pub Refused :
      Operation V → ℕ → Progress D Date → Progress D Date → LedgerCommand D → Type 0
  Refused op index p p' command =
      (expects_rejection op ≡ true)
      × (p'.state ≡ p.state)
      × (p'.events ≡ p.events)
      × (p'.entries ≡ p.entries)
      × ((e : LedgerError D) × (handle_command p.state command (env.fresh index) (env.now index)
            ≡ err e)
          × (p'.rejections ≡ p.rejections ++ ((op.kind, e) ∷ [])))

  settle-cases :
      (expect : Bool) (answer : Outcome (LedgerError D) (List (LedgerEvent D))) (op : Operation V)
      (index : ℕ) (p p' : Progress D Date)
      → settle env chart scenario expect answer op index p ≡ ok p'
      → ((expect ≡ false)
          × ((produced : List (LedgerEvent D)) × (answer ≡ ok produced)
              × (apply_produced env chart scenario produced op index p ≡ ok p')))
        ⊎ ((expect ≡ true)
            × ((e : LedgerError D) × (answer ≡ err e)
                × (p' ≡ record p { rejections = p.rejections ++ ((op.kind, e) ∷ []) })))
  unfolding settle
  settle-cases true (ok produced) op index p p' h = cc
  settle-cases false (ok produced) op index p p' h = inl (refl, (produced, refl, h))
  settle-cases true (err e) op index p p' h = inr (refl, (e, refl, sym (ok-injective h)))
  settle-cases false (err e) op index p p' h = cc
  settle-cases true panic op index p p' h = cc
  settle-cases false panic op index p p' h = cc

  pub run_operation-cases :
      (op : Operation V) (index : ℕ) (c : Currency) (p p' : Progress D Date)
      → run_operation env chart scenario op index c p ≡ ok p'
      → (command : LedgerCommand D) × ((labels : Map Uuid Text) × (command_for env chart scenario op
              c p
            ≡ ok (command, labels)))
        × (Accepted op index p p' command ⊎ Refused op index p p' command)
  unfolding run_operation
  run_operation-cases op index c p p' h =
      let ((command, labels), made, h') = >>=-eq-ok (command_for env chart scenario op c p) _ h in
      elim (settle-cases _ _ op index _ p' h') [
        | inl (expect, (produced, handled, applied)) ↦
            (command, (labels, made), inl (expect, (produced, handled, labels, applied)))
        | inr (expect, (e, handled, same)) ↦ (
          command,
          (labels, made),
          inr (
            expect,
            ap (λ q. q.state) same,
            ap (λ q. q.events) same,
            ap (λ q. q.entries) same,
            (e, handled, ap (λ q. q.rejections) same),
          ),
        )
      ]

  -- Induction on the loop over the operations, with the index of the next one.
  pub run_operations-induct :
      (P : ℕ → Progress D Date → Type 0) (Q : Operation V → Type 0) (c : Currency)
      → ((op : Operation V) (index : ℕ) (p p' : Progress D Date)
          → Q op
          → run_operation env chart scenario op index c p ≡ ok p'
          → P index p
          → P (suc index) p')
      → (ops : List (Operation V)) (index : ℕ) (p p' : Progress D Date) → All Q ops
      → run_operations env chart scenario ops index c p ≡ ok p'
      → P index p
      → (n : ℕ) × P n p'
  unfolding run_operations
  run_operations-induct P Q c step [] index p p' all h start =
      (index, subst (P index) (ok-injective h) start)
  run_operations-induct P Q c step (op ∷ ops) index p p' all h start =
      let (next, e, h') = >>=-eq-ok (run_operation env chart scenario op index c p) _ h in
      run_operations-induct P Q c step ops (suc index) next p' all.1 h'
        (step op index p next all.0 e start)

  -- The loop of an execution, with the fields of the run that it gives.
  pub execute-loop :
      {r : LedgerRun D Date}
      → execute env chart scenario ≡ ok r
      → (p : Progress D Date) × (from_code scenario.setup.functional_ccy ≡ some r.currency)
        × (run_operations env chart scenario scenario.operations 0 r.currency
              (start_progress env chart scenario)
            ≡ ok p)
        × (r.state ≡ p.state)
        × (r.events ≡ p.events)
        × (r.entries ≡ p.entries)
        × (r.rejections ≡ p.rejections)
  unfolding execute
  execute-loop {r} h =
      let (c, known, h₁) = >>=-eq-ok (ok_or (from_code scenario.setup.functional_ccy) _) _ h in
      let (p, loop, h₂) =
        >>=-eq-ok
          (run_operations env chart scenario scenario.operations 0 c
            (start_progress env chart scenario))
          _ h₁ in
      rw (← ok-injective h₂) (p, ok_or-eq-ok _ _ known, loop, refl, refl, refl, refl)

  Replays : Progress D Date → Type 0
  Replays p = apply_events empty_state p.events ≡ some p.state

  run_operation-Replays :
      (op : Operation V) (index : ℕ) (c : Currency) (p p' : Progress D Date)
      → run_operation env chart scenario op index c p ≡ ok p'
      → Replays p
      → Replays p'
  unfolding Replays
  run_operation-Replays op index c p p' h start =
      let (command, made, ended) = run_operation-cases op index c p p' h in
      elim ended [
        | inl (_, (produced, handled, labels, applied)) ↦
            let (states, events, _) = apply_produced-Applies produced op index _ p' applied in
            rw events
              (apply_events-append empty_state p.state p'.state p.events produced start states)
        | inr (_, state, events, _, _) ↦ rw (state, events) start
      ]

  -- The log of an executed scenario replays, from the empty ledger, to the very state that the run
  -- ended in.
  pub execute-replay :
      {r : LedgerRun D Date} → execute env chart scenario ≡ ok r → replay r.events ≡ some r.state
  unfolding replay Replays apply_events
  execute-replay {r} h =
      let (p, _, loop, state, events, _, _) = execute-loop h in
      rw (state, events)
        ((run_operations-induct (λ _ q. Replays q) (λ _. Unit) r.currency
          (λ op index p p' _ e start. run_operation-Replays op index r.currency p p' e start)
          scenario.operations 0 _ p (All-of_every scenario.operations (λ _. tt)) loop refl).1)
