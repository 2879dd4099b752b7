-- ===== src/Ledger/Capitalization.antt =====
-- Capitalization changes of crates/events/src/ledger.rs: each event names the status that it
-- leaves, and a change to the status that a run has is refused.
use falkr_lite.Base.{
  ℕ, ◌≡◌, ◌⊎◌, refl, sym, ◌∙◌, some, List, [], ◌∷◌, inl, inr, Bool-cases, some-injective, ap, subst,
}
use falkr_lite.Base.Map.{nat_key, insert, lookup, lookup-insert_self}
use falkr_lite.Base.Outcome.{ok, err, ok-injective}
use falkr_lite.Decimal.{Arithmetic}
use falkr_lite.Core.Dimensions.{
  Uuid, CapitalizationStatus, eq_status, eq_status_sound, eq_status_refl,
}
use falkr_lite.Ledger.Line.{
  LedgerEvent, capitalization_status_changed, change_capitalization_status,
  capitalization_unchanged,
}
use falkr_lite.Ledger.State.{LedgerState, apply_event, apply_events, capitalization_status}
use falkr_lite.Ledger.Command.{handle_command, status_or_pending}

module _ {D : Type 0} ⦃d : Arithmetic D⦄ where
  -- A change of status is refused exactly when the run has that status already (a run with no
  -- record is pending review), and otherwise gives one event that names the status it leaves.
  change_status_cases :
      (s : LedgerState D) (run : Uuid) (to : CapitalizationStatus) (policy fresh : Uuid) (now : ℕ)
      → let from = status_or_pending (capitalization_status s run) in
        let answer = handle_command s (change_capitalization_status run to policy) fresh now in
        ((from ≡ to) × (answer ≡ err (capitalization_unchanged run to)))
        ⊎ ((¬ (from ≡ to)) × (answer ≡ ok (capitalization_status_changed run from to policy ∷ [])))
  unfolding handle_command
  change_status_cases s run to policy fresh now =
      let from = status_or_pending (capitalization_status s run) in
      elim (Bool-cases (eq_status from to)) [
        | inl same ↦ inl (eq_status_sound from to same, rw same refl)
        | inr other ↦
            inr ((λ e. cc (other, eq_status_refl to, ap (λ t. eq_status t to) e)), rw other refl)
      ]

  -- Once an accepted change is applied, the run has the new status, and the same change is refused.
  pub change_status_once :
      (s s' : LedgerState D) (run : Uuid) (to : CapitalizationStatus) (policy fresh fresh' : Uuid)
      (now now' : ℕ) {events : List (LedgerEvent D)}
      → handle_command s (change_capitalization_status run to policy) fresh now ≡ ok events
      → apply_events s events ≡ some s'
      → (capitalization_status s' run ≡ some to)
        × (handle_command s' (change_capitalization_status run to policy) fresh' now'
            ≡ err (capitalization_unchanged run to))
  unfolding apply_events apply_event capitalization_status
  change_status_once s s' run to policy fresh fresh' now now' h g =
      elim (change_status_cases s run to policy fresh now) [
        | inl (_, refused) ↦ cc
        | inr (_, accepted) ↦
            let one = ok-injective (sym accepted ∙ h) in
            let done : record s { capitalization = insert run to s.capitalization } ≡ s' =
              some-injective (subst (λ es. apply_events s es ≡ some s') (sym one) g) in
            subst
              (λ t.
                (capitalization_status t run ≡ some to)
                × (handle_command t (change_capitalization_status run to policy) fresh' now'
                    ≡ err (capitalization_unchanged run to)))
              done (found, again)
      ]
    where
      found : lookup run (insert run to s.capitalization) ≡ some to
      found = lookup-insert_self run to s.capitalization

      again :
          handle_command
            (record s { capitalization = insert run to s.capitalization })
            (change_capitalization_status run to policy)
            fresh'
            now'
          ≡ err (capitalization_unchanged run to)
      again = unfold handle_command in rw (found, eq_status_refl to) refl
