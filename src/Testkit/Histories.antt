-- ===== src/Testkit/Histories.antt =====
-- An execution of crates/testkit/src/runner.rs as a history of the ledger: a scenario in one
-- currency ends in a sound ledger, whose trial balance is zero.
use falkr_lite.Base.{ℕ, ◌≡◌, refl, Option, none, some, List, [], ◌∷◌, All, inl, inr, Bool-cases}
use falkr_lite.Base.Int.{pos}
use falkr_lite.Base.Text.{Text, codes, eq_text}
use falkr_lite.Base.Map.{Map}
use falkr_lite.Base.Outcome.{ok, map_err, map_err-eq-ok, ok_or, >>=-eq-ok, ok-injective}
use falkr_lite.Decimal.{Arithmetic, IsExact}
use falkr_lite.Core.Currency.{Currency}
use falkr_lite.Core.Money.{Money}
use falkr_lite.Core.Money.Laws.{value}
use falkr_lite.Core.Dimensions.{Uuid, status_from_stored}
use falkr_lite.Ledger.{
  JournalLine, debit_line, credit_line, with_sources, LedgerCommand, trial_balance,
}
use falkr_lite.Ledger.History.{LineDenominated, CommandFits, handled, Reach, start, next}
use falkr_lite.Ledger.Soundness.{Reach-trial_balance}
use falkr_lite.Testkit.Chart.{ChartOfAccounts, resolve}
use falkr_lite.Testkit.Scenario.{Toml, Operation, Scenario, ScenarioLine, op_lines, str_param}
use falkr_lite.Testkit.Runner.{Environment, LedgerRun, RunError, Progress, account_id, find_ref}
use falkr_lite.Testkit.Execute.{
  parse_amount, line_currency, sided, attach_sources, build_lines, journal_lines, command_for,
  run_operation, execute,
}
use falkr_lite.Testkit.Runs.{
  apply_produced-Applies, run_operation-cases, run_operations-induct, execute-loop,
}

module _ {V D Date : Type 0} ⦃t : Toml V⦄ ⦃d : Arithmetic D⦄ (env : Environment D Date)
    (chart : ChartOfAccounts) (scenario : Scenario V) where
  abbrev In : Currency → JournalLine D → Type 0
  In c = LineDenominated (λ _. c)

  sided-In :
      (account : Uuid) (c : Currency) (debit credit : Option Text) (l : JournalLine D)
      → sided env chart scenario account c debit credit ≡ ok l
      → In c l
  unfolding debit_line credit_line
  sided-In account c (some debit) none l h =
      let (m, e, h') = >>=-eq-ok (parse_amount env chart scenario c debit) _ h in
      let (v, _, made) = >>=-eq-ok (ok_or (env.from_str_exact debit) _) _ e in
      rw (← ok-injective h', ← ok-injective made) (refl, tt)
  sided-In account c none (some credit) l h =
      let (m, e, h') = >>=-eq-ok (parse_amount env chart scenario c credit) _ h in
      let (v, _, made) = >>=-eq-ok (ok_or (env.from_str_exact credit) _) _ e in
      rw (← ok-injective h', ← ok-injective made) (tt, refl)
  sided-In account c (some debit) (some credit) l h =
      let (m, e, h₁) = >>=-eq-ok (parse_amount env chart scenario c debit) _ h in
      let (n, e', h₂) = >>=-eq-ok (parse_amount env chart scenario c credit) _ h₁ in
      let (_, _, made) = >>=-eq-ok (ok_or (env.from_str_exact debit) _) _ e in
      let (_, _, made') = >>=-eq-ok (ok_or (env.from_str_exact credit) _) _ e' in
      rw (← ok-injective h₂, ← ok-injective made, ← ok-injective made') (refl, refl)
  sided-In account c none none l h = rw (← ok-injective h) (tt, tt)

  attach_sources-In :
      (c : Currency) (sources : List Text) (l : JournalLine D)
      → In c l
      → In c (attach_sources env chart scenario sources l)
  unfolding with_sources
  attach_sources-In c [] l h = h
  attach_sources-In c (s ∷ sources) l h = h

  build_lines-In :
      (raw : List ScenarioLine) (c : Currency) (labels : Map Uuid Text)
      {built : List (JournalLine D) × Map Uuid Text}
      → All (λ l. l.currency ≡ none) raw
      → build_lines env chart scenario raw c labels ≡ ok built
      → All (In c) built.0
  unfolding build_lines
  build_lines-In [] c labels all h = rw (← ok-injective h) tt
  build_lines-In (line ∷ raw) c labels all h =
      let (account, _, h₁) = >>=-eq-ok (ok_or (resolve chart line.account) _) _ h in
      let (c', cur, h₂) = >>=-eq-ok (line_currency env chart scenario c line.currency) _ h₁ in
      let (l, e, h₃) =
        >>=-eq-ok (sided env chart scenario (account_id env account.code) c' line.debit line.credit)
          _ h₂ in
      let (rest, e', h₄) = >>=-eq-ok (build_lines env chart scenario raw c _) _ h₃ in
      let same : c ≡ c' = ok-injective {E = RunError D} (rw all.0 at cur) in
      rw (← ok-injective h₄) (
        attach_sources-In c line.sources l
            (sided-In (account_id env account.code) c line.debit line.credit l (rw (← same) at e)),
        build_lines-In raw c _ all.1 e',
      )

  -- An operation whose lines, if it has any that can be read, name no currency of their own.
  abbrev pub NamesNoCurrency : Operation V → Type 0
  NamesNoCurrency op =
      (raw : List ScenarioLine) → op_lines op ≡ ok raw → All (λ l. l.currency ≡ none) raw

  journal_lines-In :
      (op : Operation V) (c : Currency) (labels : Map Uuid Text)
      {built : List (JournalLine D) × Map Uuid Text}
      → NamesNoCurrency op
      → journal_lines env chart scenario op c labels ≡ ok built
      → All (In c) built.0
  unfolding journal_lines
  journal_lines-In op c labels plain h =
      let (raw, e, h') = >>=-eq-ok (map_err _ (op_lines op)) _ h in
      build_lines-In raw c labels (plain raw (map_err-eq-ok _ (op_lines op) e)) h'

  command_for-CommandFits :
      (op : Operation V) (c : Currency) (p : Progress D Date)
      {made : LedgerCommand D × Map Uuid Text}
      → NamesNoCurrency op
      → command_for env chart scenario op c p ≡ ok made
      → CommandFits (λ _. c) made.0
  unfolding command_for
  command_for-CommandFits op c p plain h =
      elim (Bool-cases (eq_text op.kind (codes "post_entry"))) [
        | inl posts ↦
            let (built, e, h') =
              >>=-eq-ok (journal_lines env chart scenario op c p.labels) _
                (rw (posts, command_for) at h) in
            rw (← ok-injective h') (journal_lines-In op c p.labels plain e)
        | inr other ↦ elim (Bool-cases (eq_text op.kind (codes "reverse_entry"))) [
          | inl reverses ↦
              let (target, _, h₁) =
                >>=-eq-ok (map_err _ (str_param op (codes "ref"))) _
                  (rw (other, reverses, command_for) at h) in
              let (original, _, h₂) = >>=-eq-ok (ok_or (find_ref target p.entries) _) _ h₁ in
              rw (← ok-injective h₂) tt
          | inr other' ↦ elim (Bool-cases (eq_text op.kind (codes "set_capitalization"))) [
            | inl sets ↦
                let (run, _, h₁) =
                  >>=-eq-ok (map_err _ (str_param op (codes "run"))) _
                    (rw (other, other', sets, command_for) at h) in
                let (to, _, h₂) = >>=-eq-ok (map_err _ (str_param op (codes "to"))) _ h₁ in
                let (status, _, h₃) = >>=-eq-ok (ok_or (status_from_stored to) _) _ h₂ in
                rw (← ok-injective h₃) tt
            | inr unknown ↦ cc (rw (other, other', unknown, command_for) at h)
          ]
        ]
      ]

  run_operation-Reach :
      (c : Currency) (op : Operation V) (index : ℕ) (p p' : Progress D Date)
      → NamesNoCurrency op
      → run_operation env chart scenario op index c p ≡ ok p'
      → Reach (λ _. c) p.state
      → Reach (λ _. c) p'.state
  run_operation-Reach c op index p p' plain h r =
      let (command, (labels, made), ended) =
        run_operation-cases env chart scenario op index c p p' h in
      elim ended [
        | inl (_, (produced, accepted, labels', applied)) ↦
            let (states, _, _) =
              apply_produced-Applies env chart scenario produced op index _ p' applied in
            next r (
              handled p.state p'.state command (env.fresh index) (env.now index) produced
                (command_for-CommandFits op c p plain made) accepted states)
        | inr (_, state, _, _, _) ↦ rw state r
      ]

  execute-Reach :
      {r : LedgerRun D Date}
      → All NamesNoCurrency scenario.operations
      → execute env chart scenario ≡ ok r
      → Reach (λ _. r.currency) r.state
  execute-Reach {r} plain h =
      let (p, _, loop, state, _, _, _) = execute-loop env chart scenario h in
      rw state (
        (run_operations-induct env chart scenario (λ _ q. Reach (λ _. r.currency) q.state)
          NamesNoCurrency r.currency (run_operation-Reach r.currency) scenario.operations 0 _ p
          plain loop start).1)

  -- A scenario whose lines name no currency of their own ends, if it executes, in a ledger whose
  -- trial balance is zero in every currency, whatever the amounts in it.
  pub execute-trial_balance :
      (x : IsExact d) {r : LedgerRun D Date} (c : Currency) {m : Money D}
      → All NamesNoCurrency scenario.operations
      → execute env chart scenario ≡ ok r
      → trial_balance r.state c ≡ some m
      → value x m ≡ pos 0
  execute-trial_balance x {r} c plain h =
      Reach-trial_balance x (λ _. r.currency) c (execute-Reach plain h)
