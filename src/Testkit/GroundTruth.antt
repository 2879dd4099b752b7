-- ===== src/Testkit/GroundTruth.antt =====
-- The balances that the generator computes are those that the aggregate reaches: `ground_truth` of
-- crates/testkit/src/generator.rs against `LedgerAggregate::apply_event`.
use falkr_lite.Base.{
  ℕ, ◌≡◌, refl, ◌∙◌, Option, none, some, List, [], ◌∷◌, All, map, arith, inl, inr, Option-cases,
  some-injective, subst,
}
use falkr_lite.Base.Map.{Map, nat_key, lookup, insert, lookup-insert}
use falkr_lite.Base.Outcome.{Outcome-cases}
use falkr_lite.Decimal.{Arithmetic}
use falkr_lite.Core.Currency.{Currency}
use falkr_lite.Core.Money.{Money, zero_money, checked_add, negate}
use falkr_lite.Core.Money.Laws.{checked_add-amount, checked_add-eq-err}
use falkr_lite.Core.Dimensions.{Uuid, Dimensions}
use falkr_lite.Ledger.{
  JournalLine, LedgerEvent, journal_entry_posted, signed_amount, signed_sides, LedgerState,
  empty_state, entry_or_zero, add_delta, post_line, post_lines, post, apply_event, apply_events,
  balance,
}
use falkr_lite.Ledger.History.{LineDenominated, AmountIn}
use falkr_lite.Testkit.Assertions.{replay}
use falkr_lite.Testkit.Generator.{
  GeneratedEntry, GeneratedLedger, or_keep, delta_of, slot_or_zero, truth_line, truth_lines,
  truth_entries, ground_truth,
}

abbrev pub amount_of : {D : Type 0} → Option (Money D) → Option D
amount_of none = none
amount_of (some m) = some m.amount

module _ {D : Type 0} ⦃d : Arithmetic D⦄ (c : Currency) where
  -- Balances in the currency `c`, and the same amounts without it.
  abbrev Agree : Map Uuid D → Map Uuid (Money D) → Type 0
  Agree t b =
      ((a : Uuid) → lookup a t ≡ amount_of (lookup a b))
      × ((a : Uuid) (m : Money D) → lookup a b ≡ some m → m.currency ≡ c)

  entry-Agree :
      (t : Map Uuid D) (b : Map Uuid (Money D)) (a : Uuid)
      → Agree t b
      → (slot_or_zero a t ≡ (entry_or_zero a c b).amount) × ((entry_or_zero a c b).currency ≡ c)
  unfolding zero_money
  entry-Agree t b a (same, cur) = elim (Option-cases (lookup a b)) [
    | inl absent ↦ ground (arith, same a)
    | inr (m, present) ↦ ground (arith, same a, cur a m present)
  ]

  insert-Agree :
      (t : Map Uuid D) (b : Map Uuid (Money D)) (a : Uuid) (m : Money D)
      → Agree t b
      → m.currency ≡ c
      → Agree (insert a m.amount t) (insert a m b)
  insert-Agree t b a m (same, cur) e = (
    λ k. ground (arith, same k, lookup-insert k a m.amount t, lookup-insert k a m b),
    λ k n h. ground (arith, cur k n, lookup-insert k a m b),
  )

  truth_step :
      (t : Map Uuid D) (b b' : Map Uuid (Money D)) (a : Uuid) (v : D)
      → Agree t b
      → add_delta a (record { amount = v; currency = c }) b ≡ some b'
      → Agree (insert a (or_keep (d.checked_add (slot_or_zero a t) v) (slot_or_zero a t)) t) b'
  unfolding add_delta
  truth_step t b b' a v agree h =
      let entry = entry_or_zero a c b in
      let delta : Money D = record { amount = v; currency = c } in
      let (slot, held) = entry-Agree t b a agree in
      elim (Outcome-cases (checked_add entry delta)) [
        | inl (updated, added) ↦
            let done : insert a updated b ≡ b' = ground arith in
            let (_, cur, sum) = checked_add-amount entry delta added in
            rw (slot, sum)
              (subst (Agree (insert a updated.amount t)) done
                (insert-Agree t b a updated agree (cur ∙ held)))
        | inr (inl (e, refused)) ↦ absurd ((checked_add-eq-err entry delta refused).0 held)
        | inr (inr panics) ↦ ground arith
      ]

  -- A line, in the form of its two sides.
  sides_step :
      (t : Map Uuid D) (b b' : Map Uuid (Money D)) (a : Uuid) (debit credit : Option (Money D))
      → Agree t b
      → AmountIn c debit
      → AmountIn c credit
      → elim (signed_sides debit credit) [ none ↦ some b | some delta ↦ add_delta a delta b ]
        ≡ some b'
      → Agree
          (elim (delta_of debit credit) [
            | none ↦ t
            | some v ↦ insert a (or_keep (d.checked_add (slot_or_zero a t) v) (slot_or_zero a t)) t
          ])
          b'
  unfolding negate
  sides_step t b b' a none none agree p q h = rw (← some-injective h) agree
  sides_step t b b' a (some m) (some n) agree p q h = rw (← some-injective h) agree
  sides_step t b b' a (some m) none agree p q h = truth_step t b b' a m.amount agree (rw p at h)
  sides_step t b b' a none (some m) agree p q h =
      truth_step t b b' a (d.neg m.amount) agree (rw q at h)

  line_step :
      (l : JournalLine D) (t : Map Uuid D) (b b' : Map Uuid (Money D))
      → Agree t b
      → LineDenominated (λ _. c) l
      → post_line l b ≡ some b'
      → Agree (truth_line l t) b'
  unfolding post_line truth_line signed_amount
  line_step l t b b' agree (p, q) h = sides_step t b b' l.account l.debit l.credit agree p q h

  lines_step :
      (ls : List (JournalLine D)) (t : Map Uuid D) (b b' : Map Uuid (Money D))
      → Agree t b
      → All (LineDenominated (λ _. c)) ls
      → post_lines ls b ≡ some b'
      → Agree (truth_lines ls t) b'
  unfolding truth_lines post_lines
  lines_step [] t b b' agree all h = subst (Agree t) (some-injective h) agree
  lines_step (l ∷ ls) t b b' agree all h = elim (Option-cases (post_line l b)) [
    | inl panics ↦ cc (rw (panics, post_lines) at h)
    | inr (b₁, e) ↦
        lines_step ls (truth_line l t) b₁ b' (line_step l t b b₁ agree all.0 e) all.1
          (rw (e, post_lines) at h)
  ]

  -- The event that posts an entry, under any identifier.
  abbrev pub posted_event :
      (GeneratedEntry D → Uuid) → Dimensions → ℕ → GeneratedEntry D → LedgerEvent D
  posted_event stamp dims now e = journal_entry_posted (stamp e) e.lines dims now

  post-balances :
      (id : Uuid) (ls : List (JournalLine D)) (s s' : LedgerState D)
      → post id ls s ≡ some s'
      → post_lines ls s.balances ≡ some s'.balances
  unfolding post
  post-balances id ls s s' h = elim (Option-cases (post_lines ls s.balances)) [
    | inl panics ↦ cc (rw (panics, post) at h)
    | inr (b, e) ↦ rw (e, ← some-injective (rw (e, post) at h)) refl
  ]

  entries_step :
      (stamp : GeneratedEntry D → Uuid) (dims : Dimensions) (now : ℕ) (es : List (GeneratedEntry D))
      (t : Map Uuid D) (s s' : LedgerState D)
      → Agree t s.balances
      → All (λ e. All (LineDenominated (λ _. c)) e.lines) es
      → apply_events s (map (posted_event stamp dims now) es) ≡ some s'
      → Agree (truth_entries es t) s'.balances
  unfolding truth_entries apply_event apply_events
  entries_step stamp dims now [] t s s' agree all h =
      subst (λ x. Agree t x.balances) (some-injective h) agree
  entries_step stamp dims now (e ∷ es) t s s' agree all h =
      elim (Option-cases (post (stamp e) e.lines s)) [
        | inl panics ↦ cc (rw (panics, apply_events) at h)
        | inr (s₁, posted) ↦
            entries_step stamp dims now es (truth_lines e.lines t) s₁ s'
              (lines_step e.lines t s.balances s₁.balances agree all.0
                (post-balances (stamp e) e.lines s s₁ posted))
              all.1 (rw (posted, apply_events) at h)
      ]

  -- Replaying the entries of a ledger in one currency, under any identifiers, gives each account
  -- the very decimal that `ground_truth` computes without the aggregate, and a balance to exactly
  -- the accounts that it lists.
  pub ground_truth-replay :
      (ledger : GeneratedLedger D) (stamp : GeneratedEntry D → Uuid) (dims : Dimensions) (now : ℕ)
      {s : LedgerState D}
      → All (λ e. All (LineDenominated (λ _. c)) e.lines) ledger.entries
      → replay (map (posted_event stamp dims now) ledger.entries) ≡ some s
      → (a : Uuid) → lookup a (ground_truth ledger) ≡ amount_of (balance s a)
  unfolding ground_truth replay balance
  ground_truth-replay ledger stamp dims now {s} all h =
      (entries_step stamp dims now ledger.entries [] empty_state s ((λ a. refl), λ a m e. cc) all
        h).0
