-- ===== src/Shares.antt =====
-- What `apportion` of crates/cost-spine/src/pricing.rs and `allocate` of
-- crates/testkit/src/allocation.rs share: a write at an index, and the order of the remainders.
use falkr_lite.Base.{
  ℕ, zero, suc, ◌≡◌, refl, Bool, true, false, List, [], ◌∷◌, map, Ordering, compare, if◌then◌else◌,
  length, ap,
}
use falkr_lite.Base.Int.{ℤ, ◌+ℤ◌, sum_ℤ, int_laws, parts}
use falkr_lite.Base.Outcome.{Outcome, ok, panic, ◌>>=◌, >>=-eq-ok, ok-injective}
use falkr_lite.Decimal.{Arithmetic, IsExact}

-- `v[i] = f(v[i])?`; an index out of range panics.
unfoldable pub update_at : {E A : Type 0} → (A → Outcome E A) → List A → ℕ → Outcome E (List A)
update_at f [] i = panic
update_at f (x ∷ xs) zero = f x >>= λ y. ok (y ∷ xs)
update_at f (x ∷ xs) (suc i) = update_at f xs i >>= λ ys. ok (x ∷ ys)

-- An index and its remainder.
abbrev pub Remainder : Type 0 → Type 0
Remainder D = ℕ × D

module _ {D : Type 0} ⦃d : Arithmetic D⦄ where
  -- Whether the first comes before the second: the larger remainder, or the lower index where
  -- two remainders are equal.
  abbrev pub comes_first : Remainder D → Remainder D → Bool
  comes_first (i, r) (j, q) = elim (d.cmp q r) [
    | Ordering.lt ↦ true
    | Ordering.gt ↦ false
    | Ordering.eq ↦ elim (compare i j) [ Ordering.gt ↦ false | _ ↦ true ]
  ]

  abbrev pub place_remainder : Remainder D → List (Remainder D) → List (Remainder D)
  place_remainder r [] = r ∷ []
  place_remainder r (q ∷ qs) =
      let rest = place_remainder r qs in if comes_first r q then r ∷ q ∷ qs else q ∷ rest

  -- `sort_by`, as insertion: the order is total, so that every sort gives the same list.
  unfoldable pub sort_remainders : List (Remainder D) → List (Remainder D)
  sort_remainders [] = []
  sort_remainders (r ∷ rs) = place_remainder r (sort_remainders rs)

module _ {D : Type 0} ⦃d : Arithmetic D⦄ (x : IsExact d) where
  abbrev pub sum_units : List D → ℤ
  sum_units ds = sum_ℤ (map x.units ds)

  -- A write that adds an amount to one part adds it to the sum, and keeps the number of parts.
  pub update_at-adds :
      {E : Type 0} (f : D → Outcome E D) (u : ℤ) (parts_of : List D) (i : ℕ) {after : List D}
      → ((a b : D) → f a ≡ ok b → x.units b ≡ x.units a +ℤ u)
      → update_at f parts_of i ≡ ok after
      → (sum_units after ≡ sum_units parts_of +ℤ u) × (length after ≡ length parts_of)
  unfolding update_at
  update_at-adds f u [] i adds h = cc
  update_at-adds f u (a ∷ others) zero adds h =
      let (b, e, done) = >>=-eq-ok (f a) _ h in
      let val = adds a b e in rw (← ok-injective done) (omega (int_laws, parts val), refl)
  update_at-adds f u (a ∷ others) (suc i) adds h =
      let (bs, e, done) = >>=-eq-ok (update_at f others i) _ h in
      let (val, len) = update_at-adds f u others i adds e in
      rw (← ok-injective done) (omega (int_laws, parts val), ap suc len)
