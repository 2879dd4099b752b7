-- ===== src/Ledger/Soundness.antt =====
-- The invariant of every ledger that a history reaches, and the zero trial balance.
use falkr_lite.Base.{
  ℕ, ◌≡◌, ◌≢◌, refl, sym, ap, subst, ◌∙◌, none, some, List, [], ◌∷◌, All, arith, inl, inr,
  Option-cases, not, not-eq-false,
}
use falkr_lite.Base.Int.{pos}
use falkr_lite.Base.Tests.{some-injective}
use falkr_lite.Base.Map.{
  nat_key, lookup, insert, lookup-insert_or, lookup-insert-ne-none, lookup-insert-ne-none_or,
  contains_key, contains_key-ne-none,
}
use falkr_lite.Base.Outcome.{ok, >>=-eq-ok, ok-injective, reject_if, reject_if-eq-ok}
use falkr_lite.Decimal.{Arithmetic, IsExact}
use falkr_lite.Core.Currency.{Currency}
use falkr_lite.Core.Money.{Money}
use falkr_lite.Core.Dimensions.{Uuid, eq_status}
use falkr_lite.Ledger.Line.{
  JournalLine, LedgerEvent, journal_entry_posted, entry_reversed, capitalization_status_changed,
  LedgerCommand, post_journal_entry, reverse_entry, change_capitalization_status, unknown_entry,
  already_reversed, capitalization_unchanged,
}
use falkr_lite.Ledger.State.{
  LedgerState, empty_state, post, post_lines, mirror, mark_reversed, post_reversal, apply_event,
  apply_events, is_reversed, capitalization_status, trial_balance,
}
use falkr_lite.Ledger.Command.{handle_command, check_entry, status_or_pending}
use falkr_lite.Ledger.Entry.{IsBalanced, check_entry-IsBalanced}
use falkr_lite.Ledger.Balances.{Denomination, LineFits, BalancesFit, post_lines-Moves}
use falkr_lite.Core.Money.Laws.{value}
use falkr_lite.Ledger.Trial.{trial_balance-eq-some}
use falkr_lite.Ledger.Totals.{total_in, total_in-post_balanced}
use falkr_lite.Ledger.History.{CommandFits, Step, handled, Reach, start, next}
use falkr_lite.Ledger.Mirror.{mirror-LineFits, mirror-IsBalanced, LineFits-of_Denominated}

module _ {D : Type 0} ⦃d : Arithmetic D⦄ (x : IsExact d) where
  -- What holds of every ledger that a history reaches: each balance is in its account's currency,
  -- the balances of each currency sum to zero, every entry on record is balanced, and every
  -- reversed entry is on record.
  pub record IsSound (f : Denomination) (s : LedgerState D) : Type 0 where
    pub fit : BalancesFit f s.balances
    pub totals : (c : Currency) → total_in x c s.balances ≡ pos 0
    pub recorded :
        (id : Uuid) (lines : List (JournalLine D))
        → lookup id s.entries ≡ some lines
        → IsBalanced x lines × All (LineFits f) lines
    pub known : (id : Uuid) → lookup id s.reversed ≢ none → lookup id s.entries ≢ none

  module _ (f : Denomination) where
    empty_state-IsSound : IsSound f empty_state
    empty_state-IsSound = record {
      fit = λ a m e. cc;
      totals = λ c. refl;
      recorded = λ id lines e. cc;
      known = λ id h e. h refl;
    }

    post-IsSound :
        (id : Uuid) (lines : List (JournalLine D)) (s s' : LedgerState D)
        → IsSound f s
        → IsBalanced x lines
        → All (LineFits f) lines
        → post id lines s ≡ some s'
        → IsSound f s' × (s'.entries ≡ insert id lines s.entries)
    unfolding post
    post-IsSound id lines s s' sound bal fits h =
        elim (Option-cases (post_lines lines s.balances)) [
          | inl panics ↦ cc (rw (panics, post) at h)
          | inr (b, e) ↦
              let done : record s { balances = b; entries = insert id lines s.entries } ≡ s' =
                some-injective (rw (e, post) at h) in
              subst (λ t. IsSound f t × (t.entries ≡ insert id lines s.entries)) done
                (
                  record {
                    fit = (post_lines-Moves x f lines s.balances b sound.fit fits e).0;
                    totals = λ c.
                        total_in-post_balanced x f c lines s.balances b sound.fit fits bal e
                        ∙ sound.totals c;
                    recorded = λ k ls g. elim (lookup-insert_or k id lines ls s.entries g) [
                      | inl new ↦ subst (λ l. IsBalanced x l × All (LineFits f) l) new (bal, fits)
                      | inr old ↦ sound.recorded k ls old
                    ];
                    known = λ k g. lookup-insert-ne-none k id lines s.entries (sound.known k g);
                  },
                  refl,
                )
        ]

    mark_reversed-IsSound :
        (id : Uuid) (s : LedgerState D)
        → lookup id s.entries ≢ none
        → IsSound f s
        → IsSound f (record s { reversed = insert id tt s.reversed })
    mark_reversed-IsSound id s here sound = record {
      fit = sound.fit;
      totals = sound.totals;
      recorded = sound.recorded;
      known = λ k g. elim (lookup-insert-ne-none_or k id tt s.reversed g) [
        | inl same ↦ rw same here
        | inr old ↦ sound.known k old
      ];
    }

    reversal-IsSound :
        (original reversal : Uuid) (lines : List (JournalLine D)) (s s' : LedgerState D)
        → IsSound f s
        → lookup original s.entries ≡ some lines
        → mark_reversed original (post reversal (mirror lines) s) ≡ some s'
        → IsSound f s'
    reversal-IsSound original reversal lines s s' sound e h =
        elim (Option-cases (post reversal (mirror lines) s)) [
          | inl panics ↦ cc (ap (mark_reversed original) (sym panics) ∙ h)
          | inr (s₁, p) ↦
              let (bal, fits) = sound.recorded original lines e in
              let (sound₁, entries) =
                post-IsSound reversal (mirror lines) s s₁ sound (mirror-IsBalanced x lines bal)
                  (mirror-LineFits f lines fits) p in
              let here : lookup original s.entries ≢ none = λ n. cc in
              let here₁ : lookup original s₁.entries ≢ none =
                rw entries
                  (lookup-insert-ne-none original reversal (mirror lines) s.entries here) in
              subst (IsSound f) (some-injective (ap (mark_reversed original) (sym p) ∙ h))
                (mark_reversed-IsSound original s₁ here₁ sound₁)
        ]

    -- Which events a sound ledger may be given: a balanced entry, or the reversal of an entry that
    -- is on record.
    abbrev EventFits : LedgerState D → LedgerEvent D → Type 0
    EventFits s (journal_entry_posted id lines dims at) =
        IsBalanced x lines × All (LineFits f) lines
    EventFits s (entry_reversed original reversal reason) = lookup original s.entries ≢ none
    EventFits s (capitalization_status_changed run from to policy) = Unit

    apply_event-IsSound :
        (s s' : LedgerState D) (e : LedgerEvent D)
        → IsSound f s
        → EventFits s e
        → apply_event s e ≡ some s'
        → IsSound f s'
    unfolding apply_event
    apply_event-IsSound s s' (journal_entry_posted id lines dims at) sound ev h =
        (post-IsSound id lines s s' sound ev.0 ev.1 h).0
    apply_event-IsSound s s' (entry_reversed original reversal reason) sound ev h =
        elim (Option-cases (lookup original s.entries)) [
          | inl missing ↦ absurd (ev missing)
          | inr (lines, e) ↦
              reversal-IsSound original reversal lines s s' sound e
                (ap (λ o. mark_reversed original (post_reversal reversal o s)) (sym e) ∙ h)
        ]
    apply_event-IsSound s s' (capitalization_status_changed run from to policy) sound ev h =
        subst (IsSound f) (some-injective h) (record {
          fit = sound.fit;
          totals = sound.totals;
          recorded = sound.recorded;
          known = sound.known;
        })

    -- A command that is accepted produces one event, which fits the ledger.
    handle_command-EventFits :
        (s : LedgerState D) (cmd : LedgerCommand D) (fresh : Uuid) (now : ℕ)
        {events : List (LedgerEvent D)}
        → CommandFits f cmd
        → handle_command s cmd fresh now ≡ ok events
        → (e : LedgerEvent D) × (events ≡ e ∷ []) × EventFits s e
    unfolding handle_command
    handle_command-EventFits s (post_journal_entry lines dims) fresh now den h =
        let (_, checked, ends) = >>=-eq-ok (check_entry lines) _ h in
        let bal = check_entry-IsBalanced x lines checked in
        (
          journal_entry_posted fresh lines dims now,
          sym (ok-injective ends),
          (bal, LineFits-of_Denominated f bal.1.0 lines bal.1.1 den),
        )
    handle_command-EventFits s (reverse_entry original reason) fresh now den h =
        let (_, k, rest) =
          >>=-eq-ok (reject_if (not (contains_key original s.entries)) (unknown_entry original)) _
            h in
        let (_, _, ends) =
          >>=-eq-ok (reject_if (is_reversed s original) (already_reversed original)) _ rest in
        (
          entry_reversed original fresh reason,
          sym (ok-injective ends),
          contains_key-ne-none original s.entries (not-eq-false _ (reject_if-eq-ok _ _ k)),
        )
    handle_command-EventFits s (change_capitalization_status run to policy) fresh now den h =
        let from = status_or_pending (capitalization_status s run) in
        let (_, _, ends) =
          >>=-eq-ok (reject_if (eq_status from to) (capitalization_unchanged run to)) _ h in
        (capitalization_status_changed run from to policy, sym (ok-injective ends), tt)

  module _ (f : Denomination) where
    apply_events-single :
        (s s' : LedgerState D) (e : LedgerEvent D)
        → apply_events s (e ∷ []) ≡ some s'
        → apply_event s e ≡ some s'
    unfolding apply_events
    apply_events-single s s' e h = ground arith

    Step-IsSound : {s s' : LedgerState D} → Step f s s' → IsSound f s → IsSound f s'
    Step-IsSound (handled s s' cmd fresh now events den h ap) sound =
        let (e, one, fits) = handle_command-EventFits f s cmd fresh now den h in
        apply_event-IsSound f s s' e sound fits
          (apply_events-single s s' e (subst (λ es. apply_events s es ≡ some s') one ap))

    -- Every reachable ledger is sound: each balance is in its account's currency, the balances of
    -- each currency sum to zero, every entry on record is balanced, and every reversed entry is
    -- on record. Commands are assumed to post to each account in one currency.
    pub Reach-IsSound : {s : LedgerState D} → Reach f s → IsSound f s
    Reach-IsSound start = empty_state-IsSound f
    Reach-IsSound (next r st) = Step-IsSound st (Reach-IsSound r)

    -- The trial balance of every reachable ledger is zero in every currency, if commands post to
    -- each account in one currency.
    pub Reach-trial_balance :
        {s : LedgerState D} (c : Currency) {m : Money D}
        → Reach f s
        → trial_balance s c ≡ some m
        → value x m ≡ pos 0
    Reach-trial_balance {s} c r h = (trial_balance-eq-some x c s h).1 ∙ (Reach-IsSound r).totals c
