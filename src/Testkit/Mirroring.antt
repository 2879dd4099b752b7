-- ===== src/Testkit/Mirroring.antt =====
-- The runner's own mirroring of a reversal, in crates/testkit/src/runner.rs, agrees with that of
-- `apply_event`: the entry records of an execution are the entries of the ledger.
use falkr_lite.Base.{
  ℕ, suc, ◌≡◌, ◌≢◌, refl, sym, ap, ◌∙◌, subst, not, none, some, List, [], ◌∷◌, All, All-of_every,
  inl, inr, Option-cases, Bool-cases, some-injective,
}
use falkr_lite.Base.Text.{Text, codes, eq_text}
use falkr_lite.Base.Map.{Map, nat_key, lookup, insert, contains_key}
use falkr_lite.Base.Outcome.{
  ok, or_panic, or_panic-eq-ok, ok_or, ok_or-eq-ok, map_err, reject_if, >>=-eq-ok, ok-injective,
}
use falkr_lite.Decimal.{Arithmetic}
use falkr_lite.Core.Currency.{Currency}
use falkr_lite.Core.Dimensions.{
  Uuid, Dimensions, CapitalizationStatus, eq_status, status_from_stored,
}
use falkr_lite.Ledger.{
  JournalLine, LedgerEvent, journal_entry_posted, entry_reversed, capitalization_status_changed,
  LedgerCommand, post_journal_entry, reverse_entry, change_capitalization_status, LedgerState, post,
  check_entry, is_reversed, capitalization_status, status_or_pending, apply_event, handle_command,
  mirror, mirror_line,
}
use falkr_lite.Testkit.Chart.{ChartOfAccounts}
use falkr_lite.Testkit.Scenario.{Toml, Operation, Scenario, str_param}
use falkr_lite.Testkit.Runner.{
  Environment, EntryRecord, LedgerRun, Progress, mirror_lines, find_ref, find_entry,
}
use falkr_lite.Testkit.Execute.{
  journal_lines, command_for, record_entry, apply_produced, run_operation, execute,
}
use falkr_lite.Testkit.Runs.{run_operation-cases, run_operations-induct, execute-loop}
use falkr_lite.Testkit.Records.{
  find_ref-find_entry, find_entry-All, Agree, FreshDistinct, Agree-later, Agree-insert,
  post-entries,
}

module _ {V D Date : Type 0} ⦃t : Toml V⦄ ⦃d : Arithmetic D⦄ (env : Environment D Date)
    (chart : ChartOfAccounts) (scenario : Scenario V) where
  abbrev OneEvent : ℕ → Progress D Date → Progress D Date → Operation V → LedgerEvent D → Type 0
  OneEvent i p p' op event =
      (apply_event p.state event ≡ some p'.state)
      × (p'.entries ≡ record_entry env chart scenario event op i p.entries)

  apply_produced-one :
      (event : LedgerEvent D) (op : Operation V) (i : ℕ) (p p' : Progress D Date)
      → apply_produced env chart scenario (event ∷ []) op i p ≡ ok p'
      → OneEvent i p p' op event
  unfolding apply_produced
  apply_produced-one event op i p p' h =
      let (s, e, h') = >>=-eq-ok (or_panic (apply_event p.state event)) _ h in
      rw (← ok-injective h') (or_panic-eq-ok _ e, refl)

  posted-Settled :
      (i : ℕ) (p p' : Progress D Date) (op : Operation V) (lines : List (JournalLine D))
      (dims : Dimensions) (now : ℕ)
      → FreshDistinct env
      → Agree env i p.entries p.state.entries
      → OneEvent i p p' op (journal_entry_posted (env.fresh i) lines dims now)
      → Agree env (suc i) p'.entries p'.state.entries
  unfolding apply_event record_entry
  posted-Settled i p p' op lines dims now distinct agree (applied, recorded) =
      rw (recorded, post-entries env (env.fresh i) lines p.state p'.state applied)
        (Agree-insert env i p.entries _ p.state.entries distinct refl agree)

  mirror_lines-mirror : (ls : List (JournalLine D)) → mirror_lines ls ≡ mirror ls
  unfolding mirror_lines mirror mirror_line
  mirror_lines-mirror ls = refl

  reversal-entries :
      (original reversal : Uuid) (reason : Text) (s s' : LedgerState D) (ls : List (JournalLine D))
      → lookup original s.entries ≡ some ls
      → apply_event s (entry_reversed original reversal reason) ≡ some s'
      → s'.entries ≡ insert reversal (mirror ls) s.entries
  unfolding apply_event
  reversal-entries original reversal reason s s' ls found h =
      elim (Option-cases (post reversal (mirror ls) s)) [
        | inl panics ↦ cc (rw (found, panics, apply_event) at h)
        | inr (s₁, posted) ↦
            let done = some-injective (rw (found, posted, apply_event) at h) in
            ap (λ u. u.entries) (sym done) ∙ post-entries env reversal (mirror ls) s s₁ posted
      ]

  reversed-Settled :
      (i : ℕ) (p p' : Progress D Date) (op : Operation V) (original : Uuid) (reason : Text)
      → FreshDistinct env
      → Agree env i p.entries p.state.entries
      → find_entry original p.entries ≢ none
      → OneEvent i p p' op (entry_reversed original (env.fresh i) reason)
      → Agree env (suc i) p'.entries p'.state.entries
  unfolding record_entry
  reversed-Settled i p p' op original reason distinct agree known (applied, recorded) =
      elim (Option-cases (find_entry original p.entries)) [
        | inl missing ↦ absurd (known missing)
        | inr (e, found) ↦
            let (named, held) =
              find_entry-All (λ k. lookup k.entry_id p.state.entries ≡ some k.lines) original
                p.entries e found agree.1 in
            let entries =
              reversal-entries original (env.fresh i) reason p.state p'.state e.lines
                (rw named at held) applied in
            rw (recorded, entries, found, ← mirror_lines-mirror e.lines)
              (Agree-insert env i p.entries _ p.state.entries distinct refl agree)
      ]

  changed-Settled :
      (i : ℕ) (p p' : Progress D Date) (op : Operation V) (run : Uuid)
      (from to : CapitalizationStatus) (policy : Uuid)
      → Agree env i p.entries p.state.entries
      → OneEvent i p p' op (capitalization_status_changed run from to policy)
      → Agree env (suc i) p'.entries p'.state.entries
  unfolding apply_event record_entry
  changed-Settled i p p' op run from to policy agree (applied, recorded) =
      let same : p.state.entries ≡ p'.state.entries =
        ap (λ u. u.entries) (some-injective applied) in
      rw (recorded, ← same) (Agree-later env i p.entries p.state.entries agree)

  -- A reversal that the runner asks for is of an entry on its records.
  abbrev TargetKnown : List (EntryRecord D Date) → LedgerCommand D → Type 0
  TargetKnown es (post_journal_entry lines dims) = Unit
  TargetKnown es (reverse_entry id reason) = find_entry id es ≢ none
  TargetKnown es (change_capitalization_status run to policy) = Unit

  command_for-TargetKnown :
      (op : Operation V) (c : Currency) (p : Progress D Date)
      {made : LedgerCommand D × Map Uuid Text}
      → command_for env chart scenario op c p ≡ ok made
      → TargetKnown p.entries made.0
  unfolding command_for
  command_for-TargetKnown op c p h = elim (Bool-cases (eq_text op.kind (codes "post_entry"))) [
    | inl posts ↦
        let (built, _, h') =
          >>=-eq-ok (journal_lines env chart scenario op c p.labels) _
            (rw (posts, command_for) at h) in
        rw (← ok-injective h') tt
    | inr other ↦ elim (Bool-cases (eq_text op.kind (codes "reverse_entry"))) [
      | inl reverses ↦
          let (target, _, h₁) =
            >>=-eq-ok (map_err _ (str_param op (codes "ref"))) _
              (rw (other, reverses, command_for) at h) in
          let (original, found, h₂) = >>=-eq-ok (ok_or (find_ref target p.entries) _) _ h₁ in
          rw (← ok-injective h₂)
            (find_ref-find_entry target p.entries original (ok_or-eq-ok _ _ found))
      | inr other' ↦ elim (Bool-cases (eq_text op.kind (codes "set_capitalization"))) [
        | inl sets ↦
            let (run, _, h₁) =
              >>=-eq-ok (map_err _ (str_param op (codes "run"))) _
                (rw (other, other', sets, command_for) at h) in
            let (to, _, h₂) = >>=-eq-ok (map_err _ (str_param op (codes "to"))) _ h₁ in
            let (status, _, h₃) = >>=-eq-ok (ok_or (status_from_stored to) _) _ h₂ in
            rw (← ok-injective h₃) tt
        | inr unknown ↦ cc (rw (other, other', unknown, command_for) at h)
      ]
    ]
  ]

  accepted-Settled :
      (command : LedgerCommand D) (op : Operation V) (i now : ℕ) (p p' : Progress D Date)
      (produced : List (LedgerEvent D))
      → FreshDistinct env
      → Agree env i p.entries p.state.entries
      → TargetKnown p.entries command
      → handle_command p.state command (env.fresh i) now ≡ ok produced
      → apply_produced env chart scenario produced op i p ≡ ok p'
      → Agree env (suc i) p'.entries p'.state.entries
  unfolding handle_command
  accepted-Settled (post_journal_entry lines dims) op i now p p' produced distinct agree known h
        applied =
      let (_, _, one) = >>=-eq-ok (check_entry lines) _ h in
      posted-Settled i p p' op lines dims now distinct agree
        (apply_produced-one _ op i p p' (rw (← ok-injective one) at applied))
  accepted-Settled (reverse_entry id reason) op i now p p' produced distinct agree known h applied =
      let (_, _, h₁) = >>=-eq-ok (reject_if (not (contains_key id p.state.entries)) _) _ h in
      let (_, _, one) = >>=-eq-ok (reject_if (is_reversed p.state id) _) _ h₁ in
      reversed-Settled i p p' op id reason distinct agree known (
        apply_produced-one _ op i p p' (
          subst (λ es. apply_produced env chart scenario es op i p ≡ ok p') (sym (ok-injective one))
            applied))
  accepted-Settled (change_capitalization_status run to policy) op i now p p' produced distinct
        agree known h applied =
      let from = status_or_pending (capitalization_status p.state run) in
      let (_, _, one) = >>=-eq-ok (reject_if (eq_status from to) _) _ h in
      changed-Settled i p p' op run from to policy agree (
        apply_produced-one _ op i p p' (
          subst (λ es. apply_produced env chart scenario es op i p ≡ ok p') (sym (ok-injective one))
            applied))

  run_operation-Agree :
      (c : Currency)
      → FreshDistinct env
      → (op : Operation V) (i : ℕ) (p p' : Progress D Date)
      → run_operation env chart scenario op i c p ≡ ok p'
      → Agree env i p.entries p.state.entries
      → Agree env (suc i) p'.entries p'.state.entries
  run_operation-Agree c distinct op i p p' h agree =
      let (command, (labels, made), ended) = run_operation-cases env chart scenario op i c p p' h in
      elim ended [
        | inl (_, (produced, accepted, labels', applied)) ↦
            accepted-Settled command op i (env.now i) (record p { labels = labels' }) p' produced
              distinct agree (command_for-TargetKnown op c p made) accepted applied
        | inr (_, state, _, entries, _) ↦
            rw (state, entries) (Agree-later env i p.entries p.state.entries agree)
      ]

  -- Every entry record of an execution, the mirrored ones of reversals included, is an entry of
  -- the ledger that it ends in, with the very same lines, if fresh identifiers are distinct.
  pub execute-records :
      {r : LedgerRun D Date}
      → FreshDistinct env
      → execute env chart scenario ≡ ok r
      → All (λ e. lookup e.entry_id r.state.entries ≡ some e.lines) r.entries
  execute-records {r} distinct h =
      let (p, _, loop, state, _, entries, _) = execute-loop env chart scenario h in
      let (_, agree) =
        run_operations-induct env chart scenario (λ i q. Agree env i q.entries q.state.entries)
          (λ _. Unit) r.currency
          (λ op i q q' _ e a. run_operation-Agree r.currency distinct op i q q' e a)
          scenario.operations 0 _ p (All-of_every scenario.operations (λ _. tt)) loop
          ((λ n le. refl), tt) in
      rw (state, entries) agree.1
