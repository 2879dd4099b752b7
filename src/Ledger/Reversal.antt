-- ===== src/Ledger/Reversal.antt =====
-- Reversals and capitalization changes: what they undo, and that they are not repeated.
use falkr_lite.Base.{
  ℕ, ◌≡◌, ◌≢◌, refl, sym, ap, subst, ◌∙◌, true, none, some, List, [], ◌∷◌, All, Option, arith, inl,
  inr, Bool-cases, ◌==◌, some-injective,
}
use falkr_lite.Base.Int.{ℤ, pos, ◌+ℤ◌, int_laws, parts, zero-+ℤ}
use falkr_lite.Base.Map.{
  nat_key, lookup, insert, lookup-insert_self, lookup-insert_other, contains_key,
  contains_key-insert,
}
use falkr_lite.Base.Outcome.{ok, err}
use falkr_lite.Decimal.{Arithmetic, IsExact}
use falkr_lite.Core.Currency.{Currency}
use falkr_lite.Core.Money.{Money}
use falkr_lite.Core.Money.Laws.{value-negate}
use falkr_lite.Core.Dimensions.{Uuid}
use falkr_lite.Base.Text.{Text}
use falkr_lite.Ledger.Line.{
  JournalLine, entry_reversed, reverse_entry, already_reversed, unknown_entry, signed_amount,
  signed_sides,
}
use falkr_lite.Ledger.State.{
  LedgerState, post, post_lines, mirror, mirror_line, mark_reversed, post_reversal, apply_event,
  is_reversed,
}
use falkr_lite.Ledger.Command.{handle_command}
use falkr_lite.Ledger.Entry.{SidesIn}
use falkr_lite.Ledger.Balances.{
  Denomination, LineFits, BalancesFit, balance_units, account_units, signed_units_of,
  post_lines-Moves,
}
use falkr_lite.Ledger.Mirror.{mirror-LineFits}

module _ {D : Type 0} ⦃d : Arithmetic D⦄ where
  pub post-records :
      (id : Uuid) (lines : List (JournalLine D)) (s s' : LedgerState D)
      → post id lines s ≡ some s'
      → (post_lines lines s.balances ≡ some s'.balances)
        × (s'.entries ≡ insert id lines s.entries)
        × (s'.reversed ≡ s.reversed)
        × (s'.capitalization ≡ s.capitalization)
  unfolding post
  post-records id lines s s' h = ground arith

  mark_reversed-eq-some :
      (id : Uuid) (o : Option (LedgerState D)) (s' : LedgerState D)
      → mark_reversed id o ≡ some s'
      → (t : LedgerState D) × (o ≡ some t) × (record t { reversed = insert id tt t.reversed } ≡ s')
  mark_reversed-eq-some id none s' h = cc
  mark_reversed-eq-some id (some t) s' h = (t, refl, some-injective h)

module _ {D : Type 0} ⦃d : Arithmetic D⦄ (x : IsExact d) where
  signed_units-swap :
      (c : Currency) (debit credit : Option (Money D))
      → SidesIn c debit credit
      → signed_units_of x (signed_sides credit debit)
          +ℤ signed_units_of x (signed_sides debit credit)
        ≡ pos 0
  signed_units-swap c (some m) none h = rw (value-negate x m) (omega int_laws)
  signed_units-swap c none (some m) h = rw (value-negate x m) (omega int_laws)
  signed_units-swap c (some m) (some n) h = absurd h
  signed_units-swap c none none h = absurd h

  account_units-mirror :
      (f : Denomination) (a : Uuid) (ls : List (JournalLine D))
      → All (LineFits f) ls
      → account_units x a (mirror ls) +ℤ account_units x a ls ≡ pos 0
  unfolding mirror mirror_line signed_amount
  account_units-mirror f a [] h = zero-+ℤ (pos 0)
  account_units-mirror f a (l ∷ ls) h = elim (Bool-cases (a == l.account)) [
    | inl same ↦ rw same (
        omega (
          int_laws,
          parts (signed_units-swap (f l.account) l.debit l.credit h.0),
          parts (account_units-mirror f a ls h.1),
        ))
    | inr other ↦ rw other (omega (int_laws, parts (account_units-mirror f a ls h.1)))
  ]

  -- Posting an entry and then reversing it restores the balance of every account, if each account
  -- is posted to in one currency. The reversal is recorded as an entry of its own, the mirror of
  -- the first, and the first is marked as reversed.
  pub post_reverse_restores :
      (f : Denomination) (id reversal : Uuid) (lines : List (JournalLine D)) (reason : Text)
      (s s₁ s₂ : LedgerState D)
      → BalancesFit f s.balances
      → All (LineFits f) lines
      → post id lines s ≡ some s₁
      → apply_event s₁ (entry_reversed id reversal reason) ≡ some s₂
      → ((a : Uuid) → balance_units x a s₂.balances ≡ balance_units x a s.balances)
        × (lookup reversal s₂.entries ≡ some (mirror lines))
        × (is_reversed s₂ id ≡ true)
  unfolding apply_event is_reversed
  post_reverse_restores f id reversal lines reason s s₁ s₂ fit fits h g =
      let (posted, recorded, _, _) = post-records id lines s s₁ h in
      let here : lookup id s₁.entries ≡ some lines =
        rw recorded (lookup-insert_self id lines s.entries) in
      let (t, p, done) =
        mark_reversed-eq-some id (post reversal (mirror lines) s₁) s₂
          (ap (λ o. mark_reversed id (post_reversal reversal o s₁)) (sym here) ∙ g) in
      let (posted', recorded', _, _) = post-records reversal (mirror lines) s₁ t p in
      let (fit₁, moved) = post_lines-Moves x f lines s.balances s₁.balances fit fits posted in
      let (_, moved') =
        post_lines-Moves x f (mirror lines) s₁.balances t.balances fit₁
          (mirror-LineFits f lines fits) posted' in
      subst
        (λ u.
          ((a : Uuid) → balance_units x a u.balances ≡ balance_units x a s.balances)
          × (lookup reversal u.entries ≡ some (mirror lines))
          × (contains_key id u.reversed ≡ true))
        done
        (
          λ a. cancels a (moved a) (moved' a),
          rw recorded' (lookup-insert_self reversal (mirror lines) s₁.entries),
          contains_key-insert id tt t.reversed,
        )
    where
      cancels :
          (a : Uuid) {b₁ b₂ : ℤ}
          → b₁ ≡ balance_units x a s.balances +ℤ account_units x a lines
          → b₂ ≡ b₁ +ℤ account_units x a (mirror lines)
          → b₂ ≡ balance_units x a s.balances
      cancels a e₁ e₂ =
          omega (int_laws, parts e₁, parts e₂, parts (account_units-mirror f a lines fits))

module _ {D : Type 0} ⦃d : Arithmetic D⦄ where
  reverse_first :
      (s : LedgerState D) (id : Uuid) (reason : Text) (fresh : Uuid) (now : ℕ)
      {lines : List (JournalLine D)}
      → lookup id s.entries ≡ some lines
      → lookup id s.reversed ≡ none
      → handle_command s (reverse_entry id reason) fresh now
        ≡ ok (entry_reversed id fresh reason ∷ [])
  unfolding handle_command is_reversed
  reverse_first s id reason fresh now here first = ground (arith, here, first)

  reverse_again :
      (s : LedgerState D) (id : Uuid) (reason : Text) (fresh : Uuid) (now : ℕ)
      {lines : List (JournalLine D)}
      → lookup id s.entries ≡ some lines
      → lookup id s.reversed ≡ some tt
      → handle_command s (reverse_entry id reason) fresh now ≡ err (already_reversed id)
  unfolding handle_command is_reversed
  reverse_again s id reason fresh now here again = ground (arith, here, again)

  reverse_missing :
      (s : LedgerState D) (id : Uuid) (reason : Text) (fresh : Uuid) (now : ℕ)
      → lookup id s.entries ≡ none
      → handle_command s (reverse_entry id reason) fresh now ≡ err (unknown_entry id)
  unfolding handle_command
  reverse_missing s id reason fresh now missing = ground (arith, missing)

  -- Let neither of two different identifiers be marked as reversed. An entry that is posted under
  -- the first can then be reversed, and the answer is one event, under the second if that is the
  -- fresh identifier. Once that event is applied, a further reversal of the entry is refused as a
  -- repetition, while the reversal, an entry like any other, can be reversed in its turn. A third
  -- identifier under which nothing was posted is unknown before and after.
  pub reverse_once :
      (id reversal missing : Uuid) (lines : List (JournalLine D)) (reason : Text) (fresh : Uuid)
      (now : ℕ) (s s₁ s₂ : LedgerState D)
      → lookup id s.reversed ≡ none
      → lookup reversal s.reversed ≡ none
      → reversal ≢ id
      → (lookup missing s.entries ≡ none) × (missing ≢ id) × (missing ≢ reversal)
      → post id lines s ≡ some s₁
      → apply_event s₁ (entry_reversed id reversal reason) ≡ some s₂
      → (handle_command s₁ (reverse_entry id reason) reversal now
          ≡ ok (entry_reversed id reversal reason ∷ []))
        × (handle_command s₂ (reverse_entry id reason) fresh now ≡ err (already_reversed id))
        × (handle_command s₂ (reverse_entry reversal reason) fresh now
            ≡ ok (entry_reversed reversal fresh reason ∷ []))
        × ((handle_command s₁ (reverse_entry missing reason) fresh now
              ≡ err (unknown_entry missing))
            × (handle_command s₂ (reverse_entry missing reason) fresh now
                ≡ err (unknown_entry missing)))
  unfolding apply_event
  reverse_once id reversal missing lines reason fresh now s s₁ s₂ first new other
        (unknown, not_id, not_reversal) h g =
      let (_, recorded, kept, _) = post-records id lines s s₁ h in
      let here : lookup id s₁.entries ≡ some lines =
        rw recorded (lookup-insert_self id lines s.entries) in
      let (t, p, done) =
        mark_reversed-eq-some id (post reversal (mirror lines) s₁) s₂
          (ap (λ o. mark_reversed id (post_reversal reversal o s₁)) (sym here) ∙ g) in
      let (_, recorded', kept', _) = post-records reversal (mirror lines) s₁ t p in
      let mirrored : lookup reversal t.entries ≡ some (mirror lines) =
        rw recorded' (lookup-insert_self reversal (mirror lines) s₁.entries) in
      let still : lookup id t.entries ≡ some lines =
        rw recorded'
          (lookup-insert_other id reversal (mirror lines) s₁.entries (λ e. other (sym e)) ∙ here) in
      let before : lookup missing s₁.entries ≡ none =
        rw recorded (lookup-insert_other missing id lines s.entries not_id ∙ unknown) in
      let after : lookup missing t.entries ≡ none =
        rw recorded'
          (lookup-insert_other missing reversal (mirror lines) s₁.entries not_reversal ∙ before) in
      let open_mark : lookup reversal (insert id tt t.reversed) ≡ none =
        lookup-insert_other reversal id tt t.reversed other ∙ rw (kept', kept) new in
      (
        reverse_first s₁ id reason reversal now here (rw kept first),
        subst
            (λ u. handle_command u (reverse_entry id reason) fresh now ≡ err (already_reversed id))
            done (reverse_again _ id reason fresh now still (lookup-insert_self id tt t.reversed)),
        subst
            (λ u.
              handle_command u (reverse_entry reversal reason) fresh now
              ≡ ok (entry_reversed reversal fresh reason ∷ []))
            done (reverse_first _ reversal reason fresh now mirrored open_mark),
        (
          reverse_missing s₁ missing reason fresh now before,
          subst
              (λ u.
                handle_command u (reverse_entry missing reason) fresh now
                ≡ err (unknown_entry missing))
              done (reverse_missing _ missing reason fresh now after),
        ),
      )
