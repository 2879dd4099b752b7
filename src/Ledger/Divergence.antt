-- ===== src/Ledger/Divergence.antt =====
-- Where accounts are posted to in two currencies the trial balance fails: `LedgerState::post`
-- drops the amount of a line whose currency is not that of the balance of its account.
use falkr_lite.Base.{
  ◌+◌, ◌≤◌, ◌≡◌, ◌≢◌, refl, sym, subst, ◌∙◌, none, some, [], ◌∷◌, arith, inl, inr, Option-cases,
}
use falkr_lite.Base.Int.{pos, ◌+ℤ◌, abs_ℤ, int_laws, parts}
use falkr_lite.Base.Map.{Map, nat_key, lookup, insert, lookup-insert}
use falkr_lite.Base.MapSum.{sum_map-insert, weight}
use falkr_lite.Base.Outcome.{ok, Outcome-cases}
use falkr_lite.Decimal.{Arithmetic, IsExact}
use falkr_lite.Core.Currency.{Currency, eq_currency_refl}
use falkr_lite.Core.Money.{Money, checked_add, negate, zero_money}
use falkr_lite.Core.Money.Laws.{
  value, value-negate, checked_add-eq-ok, checked_add-eq-err, mismatch, currency-zero_money,
}
use falkr_lite.Core.Dimensions.{Uuid}
use falkr_lite.Ledger.Line.{JournalLine, debit_line, credit_line, signed_amount}
use falkr_lite.Ledger.State.{LedgerState, post, post_line, post_lines, add_delta}
use falkr_lite.Ledger.Command.{check_entry}
use falkr_lite.Ledger.Entry.{IsBalanced, lines_abs, check_entry_total}
use falkr_lite.Ledger.Reversal.{post-records}
use falkr_lite.Ledger.Totals.{contribution, total_in}

module _ {D : Type 0} ⦃d : Arithmetic D⦄ (x : IsExact d) where
  -- A line in another currency than its account's balance leaves every total as it was.
  add_delta-dropped :
      (a : Uuid) (m delta : Money D) (b b' : Map Uuid (Money D)) (c : Currency)
      → lookup a b ≡ some m
      → m.currency ≢ delta.currency
      → add_delta a delta b ≡ some b'
      → (b' ≡ insert a m b) × (total_in x c b' ≡ total_in x c b)
  unfolding add_delta
  add_delta-dropped a m delta b b' c e ne h =
      let same : insert a m b ≡ b' = ground (arith, (mismatch m delta ne).0) in
      let w = sum_map-insert (contribution x c) a m b in
      let w' : total_in x c (insert a m b) +ℤ contribution x c m
          ≡ total_in x c b +ℤ contribution x c m =
        ground (arith, w) in
      (sym same, rw (← same) (omega (int_laws, parts w')))

  fresh_total :
      (a : Uuid) (updated delta : Money D) (b : Map Uuid (Money D))
      → lookup a b ≡ none
      → updated.currency ≡ delta.currency
      → value x updated ≡ value x (zero_money delta.currency) +ℤ value x delta
      → total_in x delta.currency (insert a updated b)
          +ℤ weight (contribution x delta.currency) (lookup a b)
        ≡ total_in x delta.currency b +ℤ contribution x delta.currency updated
      → total_in x delta.currency (insert a updated b)
        ≡ total_in x delta.currency b +ℤ value x delta
  unfolding zero_money
  fresh_total a updated delta b e cur val w =
      let w' : total_in x delta.currency (insert a updated b) +ℤ pos 0
          ≡ total_in x delta.currency b +ℤ value x updated =
        ground (arith, w, eq_currency_refl delta.currency) in
      omega (int_laws, parts w', parts val, parts x.units-zero)

  -- A line on an account with no balance adds its amount to the total of its currency.
  add_delta-fresh :
      (a : Uuid) (delta : Money D) (b b' : Map Uuid (Money D))
      → lookup a b ≡ none
      → add_delta a delta b ≡ some b'
      → total_in x delta.currency b' ≡ total_in x delta.currency b +ℤ value x delta
  unfolding add_delta
  add_delta-fresh a delta b b' e h =
      elim (Outcome-cases (checked_add (zero_money delta.currency) delta)) [
        | inl (updated, added) ↦
            let done : insert a updated b ≡ b' = ground arith in
            let (_, cur, val) = checked_add-eq-ok x (zero_money delta.currency) delta added in
            let w = sum_map-insert (contribution x delta.currency) a updated b in
            rw (← done)
              (fresh_total a updated delta b e (cur ∙ currency-zero_money x delta.currency) val w)
        | inr (inl (g, refused)) ↦ absurd (
            (checked_add-eq-err (zero_money delta.currency) delta refused).0
              (currency-zero_money x delta.currency))
        | inr (inr panics) ↦ ground arith
      ]

  currency-negate : (q : Money D) → (negate q).currency ≡ q.currency
  unfolding negate
  currency-negate q = refl

  credited_fresh :
      (a : Uuid) (q : Money D) (b b' : Map Uuid (Money D))
      → lookup a b ≡ none
      → add_delta a (negate q) b ≡ some b'
      → total_in x q.currency b' ≡ total_in x q.currency b +ℤ value x (negate q)
  credited_fresh a q b b' e h =
      subst (λ c. total_in x c b' ≡ total_in x c b +ℤ value x (negate q)) (currency-negate q)
        (add_delta-fresh a (negate q) b b' e h)

  still_absent :
      (a b : Uuid) (m : Money D) (s : Map Uuid (Money D))
      → a ≢ b
      → lookup b s ≡ none
      → lookup b (insert a m s) ≡ none
  still_absent a b m s ne e = ground (arith, lookup-insert b a m s)

  twice_abs :
      (a b : Uuid) (q : Money D)
      → lines_abs x (debit_line a q ∷ credit_line b q ∷ []) ≡ abs_ℤ (value x q) + abs_ℤ (value x q)
  unfolding debit_line credit_line
  twice_abs a b q = omega arith

  post_two_lines :
      (l k : JournalLine D) (b b' : Map Uuid (Money D))
      → post_lines (l ∷ k ∷ []) b ≡ some b'
      → (b₁ : Map Uuid (Money D)) × (post_line l b ≡ some b₁) × (post_line k b₁ ≡ some b')
  unfolding post_lines
  post_two_lines l k b b' h = elim (Option-cases (post_line l b)) [
    | inl panics ↦ cc (rw (panics, post_lines) at h)
    | inr (b₁, e) ↦ (b₁, e, last b₁ (rw (e, post_lines) at h))
  ]
    where
      last : (b₁ : Map Uuid (Money D)) → post_lines (k ∷ []) b₁ ≡ some b' → post_line k b₁ ≡ some b'
      last b₁ g = unfold post_lines in ground arith

  transfer_entry-IsBalanced :
      (a b : Uuid) (q : Money D) → IsBalanced x (debit_line a q ∷ credit_line b q ∷ [])
  unfolding debit_line credit_line
  transfer_entry-IsBalanced a b q = ((λ e. cc), (q.currency, (refl, (refl, tt))), omega int_laws)

  -- Account `a` holds a balance in another currency than the amount `q`, and account
  -- `b` has no balance. The entry that debits `a` and credits `b` with `q` is balanced, and the
  -- command handler accepts it; once posted, the sum of the balances in the currency of `q` has
  -- fallen by `q`, so a trial balance that was zero is zero no more unless `q` is zero.
  pub mixed_currency_unbalances :
      (a b id : Uuid) (m q : Money D) (s s' : LedgerState D)
      → lookup a s.balances ≡ some m
      → m.currency ≢ q.currency
      → lookup b s.balances ≡ none
      → a ≢ b
      → abs_ℤ (value x q) + abs_ℤ (value x q) ≤ x.limit
      → post id (debit_line a q ∷ credit_line b q ∷ []) s ≡ some s'
      → (check_entry (debit_line a q ∷ credit_line b q ∷ []) ≡ ok tt)
        × (total_in x q.currency s'.balances +ℤ value x q ≡ total_in x q.currency s.balances)
  mixed_currency_unbalances a b id m q s s' held other absent ne fits h =
      let (posted, _, _, _) = post-records id (debit_line a q ∷ credit_line b q ∷ []) s s' h in
      let (b₁, first, second) =
        post_two_lines (debit_line a q) (credit_line b q) s.balances s'.balances posted in
      let (same, kept) =
        add_delta-dropped a m q s.balances b₁ q.currency held other
          (post-debit a q s.balances first) in
      let absent₁ : lookup b b₁ ≡ none = rw same (still_absent a b m s.balances ne absent) in
      let moved = credited_fresh b q b₁ s'.balances absent₁ (post-credit b q b₁ second) in
      (
        check_entry_total x (debit_line a q ∷ credit_line b q ∷ [])
            (transfer_entry-IsBalanced a b q) (rw (twice_abs a b q) fits),
        omega (int_laws, parts moved, parts kept, parts (value-negate x q)),
      )
    where
      post-debit :
          (a : Uuid) (q : Money D) (b : Map Uuid (Money D)) {b' : Map Uuid (Money D)}
          → post_line (debit_line a q) b ≡ some b'
          → add_delta a q b ≡ some b'
      post-debit a q b h = unfold post_line debit_line signed_amount in h

      post-credit :
          (a : Uuid) (q : Money D) (b : Map Uuid (Money D)) {b' : Map Uuid (Money D)}
          → post_line (credit_line a q) b ≡ some b'
          → add_delta a (negate q) b ≡ some b'
      post-credit a q b h = unfold post_line credit_line signed_amount in h
