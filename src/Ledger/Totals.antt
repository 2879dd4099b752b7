-- ===== src/Ledger/Totals.antt =====
-- The sum of all balances of a currency, and what posting does to it.
use falkr_lite.Base.{
  ◌≡◌, ◌≢◌, refl, sym, subst, ◌∙◌, false, Option, none, some, List, [], ◌∷◌, All, arith, inl, inr,
  Option-cases, Bool-cases, if◌then◌else◌,
}
use falkr_lite.Base.Int.{ℤ, pos, ◌+ℤ◌, int_laws, parts, +ℤ-zero, zero-+ℤ, +ℤ_assoc, +ℤ_cancel}
use falkr_lite.Base.Map.{Map, nat_key, lookup, insert}
use falkr_lite.Base.MapSum.{sum_map, weight, sum_map-insert}
use falkr_lite.Decimal.{Arithmetic, IsExact}
use falkr_lite.Core.Currency.{
  Currency, eq_currency, eq_currency_refl, eq_currency_sound, eq_currency-ne,
}
use falkr_lite.Core.Money.{Money}
use falkr_lite.Core.Money.Laws.{value, value-negate}
use falkr_lite.Core.Dimensions.{Uuid}
use falkr_lite.Ledger.Line.{JournalLine, signed_amount, signed_sides}
use falkr_lite.Ledger.State.{post_line, post_lines}
use falkr_lite.Ledger.Entry.{SidesIn, LineIn, side_units, debit_total, credit_total, IsBalanced}
use falkr_lite.Ledger.Balances.{
  Denomination, LineFits, BalancesFit, balance_units, signed_units, signed_units_of,
  post_line-inserts, post_line-Moves,
}

module _ {D : Type 0} ⦃d : Arithmetic D⦄ (x : IsExact d) where
  -- What a balance counts for in a total in `c`.
  abbrev pub contribution : Currency → Money D → ℤ
  contribution c m = if eq_currency m.currency c then value x m else pos 0

  abbrev pub total_in : Currency → Map Uuid (Money D) → ℤ
  total_in c = sum_map (contribution c)

  -- What the lines add to a total in `c`.
  abbrev pub added_in : Denomination → Currency → List (JournalLine D) → ℤ
  added_in f c [] = pos 0
  added_in f c (l ∷ ls) =
      (if eq_currency (f l.account) c then signed_units x l else pos 0) +ℤ added_in f c ls

  module _ (f : Denomination) (c : Currency) where
    weight-contribution :
        (a : Uuid) (b : Map Uuid (Money D))
        → BalancesFit f b
        → weight (contribution c) (lookup a b)
          ≡ (if eq_currency (f a) c then balance_units x a b else pos 0)
    weight-contribution a b fit = elim (Option-cases (lookup a b)) [
      | inl absent ↦ ground arith
      | inr (old, present) ↦ ground (arith, fit a old present)
    ]

    total_in-insert :
        (a : Uuid) (m : Money D) (u : ℤ) (b : Map Uuid (Money D))
        → BalancesFit f b
        → m.currency ≡ f a
        → value x m ≡ balance_units x a b +ℤ u
        → total_in c (insert a m b) ≡ total_in c b +ℤ (if eq_currency (f a) c then u else pos 0)
    total_in-insert a m u b fit cur val =
        let e = sum_map-insert (contribution c) a m b in
        let w = weight-contribution a b fit in
        elim (Bool-cases (eq_currency (f a) c)) [
          | inl same ↦
              let moved : total_in c (insert a m b) +ℤ balance_units x a b
                  ≡ total_in c b +ℤ (balance_units x a b +ℤ u) =
                ground (arith, e, w) in
              rw same
                (+ℤ_cancel (total_in c b) (total_in c (insert a m b)) (balance_units x a b) u moved)
          | inr other ↦
              let still : total_in c (insert a m b) +ℤ pos 0 ≡ total_in c b +ℤ pos 0 =
                ground (arith, e, w) in
              rw other (omega (int_laws, parts still))
        ]

    total_in-post_line :
        (l : JournalLine D) (b b' : Map Uuid (Money D))
        → BalancesFit f b
        → LineFits f l
        → post_line l b ≡ some b'
        → total_in c b'
          ≡ total_in c b +ℤ (if eq_currency (f l.account) c then signed_units x l else pos 0)
    total_in-post_line l b b' fit side h =
        let (m, ins, cur, v) = post_line-inserts x f l b b' fit side h in
        rw ins (total_in-insert l.account m (signed_units x l) b fit cur v)

    total_in-post_lines :
        (ls : List (JournalLine D)) (b b' : Map Uuid (Money D))
        → BalancesFit f b
        → All (LineFits f) ls
        → post_lines ls b ≡ some b'
        → total_in c b' ≡ total_in c b +ℤ added_in f c ls
    unfolding post_lines
    total_in-post_lines [] b b' fit all h =
        let same : b ≡ b' = cc in rw (← same) (sym (+ℤ-zero (total_in c b)))
    total_in-post_lines (l ∷ ls) b b' fit all h = elim (Option-cases (post_line l b)) [
      | inl panics ↦ cc (rw (panics, post_lines) at h)
      | inr (b₁, e) ↦
          total_in-post_lines ls b₁ b' (post_line-Moves x f l b b₁ fit all.0 e).0 all.1
            (rw (e, post_lines) at h)
          ∙ rw (total_in-post_line l b b₁ fit all.0 e) (+ℤ_assoc (total_in c b) _ _)
    ]

    -- A one-sided line counts its debit less its credit.
    signed_units-sides :
        (k : Currency) (debit credit : Option (Money D))
        → SidesIn k debit credit
        → signed_units_of x (signed_sides debit credit) +ℤ side_units x credit ≡ side_units x debit
    signed_units-sides k (some m) none h = +ℤ-zero (value x m)
    signed_units-sides k none (some m) h = rw (value-negate x m) (omega int_laws)
    signed_units-sides k (some m) (some n) h = absurd h
    signed_units-sides k none none h = absurd h

    sides-currency :
        (j k : Currency) (debit credit : Option (Money D))
        → SidesIn j debit credit
        → SidesIn k debit credit
        → j ≡ k
    sides-currency j k (some m) none h g = sym h ∙ g
    sides-currency j k none (some m) h g = sym h ∙ g
    sides-currency j k (some m) (some n) h g = absurd h
    sides-currency j k none none h g = absurd h

    -- The lines of an entry in `c` add their debits less their credits to the total in `c`.
    pub added_in-same :
        (ls : List (JournalLine D))
        → All (LineIn c) ls
        → All (LineFits f) ls
        → added_in f c ls +ℤ credit_total x ls ≡ debit_total x ls
    unfolding signed_amount
    added_in-same [] one fits = zero-+ℤ (pos 0)
    added_in-same (l ∷ ls) one fits =
        let e = sides-currency (f l.account) c l.debit l.credit fits.0 one.0 in
        let head = signed_units-sides c l.debit l.credit one.0 in
        let rest = added_in-same ls one.1 fits.1 in
        rw (e, eq_currency_refl c) (omega (int_laws, parts head, parts rest))

    -- The lines of an entry in another currency add nothing to it.
    pub added_in-other :
        (k : Currency) (ls : List (JournalLine D))
        → k ≢ c
        → All (LineIn k) ls
        → All (LineFits f) ls
        → added_in f c ls ≡ pos 0
    added_in-other k [] ne one fits = refl
    added_in-other k (l ∷ ls) ne one fits =
        let e = sides-currency (f l.account) k l.debit l.credit fits.0 one.0 in
        rw (e, eq_currency-ne k c ne, added_in-other k ls ne one.1 fits.1) (zero-+ℤ (pos 0))

    -- Posting a balanced entry leaves every total as it was.
    pub total_in-post_balanced :
        (ls : List (JournalLine D)) (b b' : Map Uuid (Money D))
        → BalancesFit f b
        → All (LineFits f) ls
        → IsBalanced x ls
        → post_lines ls b ≡ some b'
        → total_in c b' ≡ total_in c b
    total_in-post_balanced ls b b' fit fits (_, (k, one), agree) h =
        let moved = total_in-post_lines ls b b' fit fits h in
        let differ : ¬ (eq_currency c c ≡ false) = λ e. cc (eq_currency_refl c) in
        elim (Bool-cases (eq_currency k c)) [
          | inl same ↦
              let one' = subst (λ j. All (LineIn j) ls) (eq_currency_sound k c same) one in
              omega (int_laws, parts moved, parts agree, parts (added_in-same ls one' fits))
          | inr other ↦
              let ne : k ≢ c = λ e. differ (subst (λ j. eq_currency j c ≡ false) e other) in
              moved ∙ rw (added_in-other k ls ne one fits) (+ℤ-zero (total_in c b))
        ]
