-- ===== src/Testkit/Generation.antt =====
-- The entries that the generator of crates/testkit/src/generator.rs builds are balanced, and the
-- aggregate accepts them.
use falkr_lite.Base.{
  ℕ, zero, suc, ◌+◌, ◌-◌, ◌*◌, ◌≤◌, ◌≡◌, ◌≢◌, refl, Bool, true, false, some, List, [], ◌∷◌, ◌++◌,
  All, length, get_elem?, get_elem?-of_lt, max, arith, inl, inr, Option-cases, Bool-cases,
}
use falkr_lite.Base.Int.{
  pos, ◌+ℤ◌, abs_ℤ, int_laws, parts, abs_ℤ_of_le, abs_ℤ_of_not_lt, abs_ℤ-+ℤ-le, abs_ℤ--ℤ-le,
}
use falkr_lite.Base.Text.{Text}
use falkr_lite.Base.Outcome.{ok}
use falkr_lite.Decimal.{Arithmetic, IsExact}
use falkr_lite.Core.Dimensions.{Uuid}
use falkr_lite.Ledger.{JournalLine, debit_line, credit_line, check_entry}
use falkr_lite.Ledger.Entry.{
  LineIn, IsBalanced, debit_total, credit_total, lines_abs, check_entry_total,
}
use falkr_lite.Testkit.Rng.{Rng, below, between, below-le, between_bounds}
use falkr_lite.Testkit.Generator.{
  GeneratorSpec, GeneratedEntry, account_count, fewest_lines, most_lines, magnitude, in_currency,
  sided_line, draw_for, draw_lines, plug_line, plug, generate_entry, generate_entries, generate,
}

module _ {D : Type 0} ⦃d : Arithmetic D⦄ (x : IsExact d) (account_id : Text → Uuid)
    (spec : GeneratorSpec) where
  abbrev Small : ℕ → Type 0
  Small u =
      (minor : ℕ)
      → minor ≤ max spec.max_minor_units 1
      → abs_ℤ (x.units (magnitude account_id spec minor)) ≤ u

  -- What drawn lines do to the running sum: all are in the currency, the sum moves by the debits
  -- less the credits, and nothing grows past `bound`.
  abbrev Drawn : ℕ → D → List (JournalLine D) → D → Type 0
  Drawn bound before lines after =
      All (LineIn spec.currency) lines
      × (x.units after +ℤ credit_total x lines ≡ x.units before +ℤ debit_total x lines)
      × (lines_abs x lines ≤ bound)
      × (abs_ℤ (x.units after) ≤ abs_ℤ (x.units before) + bound)

  debit-Drawn :
      (u : ℕ) (id : Uuid) (m running next : D)
      → d.checked_add running m ≡ some next
      → abs_ℤ (x.units m) ≤ u
      → Drawn u running (debit_line id (in_currency account_id spec m) ∷ []) next
  unfolding debit_line
  debit-Drawn u id m running next e small =
      let sum = x.units-checked_add running m e in
      (
        (refl, tt),
        omega (int_laws, parts sum),
        omega arith,
        omega (int_laws, parts sum, abs_ℤ-+ℤ-le (x.units running) (x.units m)),
      )

  credit-Drawn :
      (u : ℕ) (id : Uuid) (m running next : D)
      → d.checked_sub running m ≡ some next
      → abs_ℤ (x.units m) ≤ u
      → Drawn u running (credit_line id (in_currency account_id spec m) ∷ []) next
  unfolding credit_line
  credit-Drawn u id m running next e small =
      let rest = x.units-checked_sub running m e in
      (
        (refl, tt),
        omega (int_laws, parts rest),
        omega arith,
        omega (int_laws, parts rest, abs_ℤ--ℤ-le (x.units running) (x.units m)),
      )

  sided_line-Drawn :
      (u : ℕ) (id : Uuid) (m : D) (coin : Bool) (running : D)
      → abs_ℤ (x.units m) ≤ u
      → abs_ℤ (x.units running) + u ≤ x.limit
      → let (line, after) = sided_line account_id spec id m coin running in
        Drawn u running (line ∷ []) after
  unfolding sided_line
  sided_line-Drawn u id m true running small fits =
      let (next, e) =
        x.checked_add_in_range running m
          (omega (arith, abs_ℤ-+ℤ-le (x.units running) (x.units m))) in
      rw e (debit-Drawn u id m running next e small)
  sided_line-Drawn u id m false running small fits =
      let (next, e) =
        x.checked_sub_in_range running m
          (omega (arith, abs_ℤ--ℤ-le (x.units running) (x.units m))) in
      rw e (credit-Drawn u id m running next e small)

  draw_for-Drawn :
      (u : ℕ) (code : Text) (running : D) (r : Rng)
      → Small u
      → abs_ℤ (x.units running) + u ≤ x.limit
      → let ((line, after), _) = draw_for account_id spec code running r in
        Drawn u running (line ∷ []) after
  unfolding draw_for
  draw_for-Drawn u code running r small fits =
      let drawn = between 1 (max spec.max_minor_units 1) r in
      sided_line-Drawn u (account_id code) (magnitude account_id spec drawn.0) _ running
        (small drawn.0 ((between_bounds 1 (max spec.max_minor_units 1) r (omega arith)).1)) fits

  Drawn-join :
      (a b n : ℕ) (start middle finish : D) (l : JournalLine D) (ls : List (JournalLine D))
      → a + b ≤ n
      → Drawn a start (l ∷ []) middle
      → Drawn b middle ls finish
      → Drawn n start (l ∷ ls) finish
  Drawn-join a b n start middle finish l ls le (side, sum, size, after)
        (sides, sum', size', after') =
      ((side.0, sides), omega (int_laws, parts sum, parts sum'), omega arith, omega arith)

  Drawn-weaken :
      (a b : ℕ) (start finish : D) (ls : List (JournalLine D))
      → a ≤ b
      → Drawn a start ls finish
      → Drawn b start ls finish
  Drawn-weaken a b start finish ls le (sides, sum, size, after) =
      (sides, sum, omega arith, omega arith)

  draw_lines-Drawn :
      (u rounds : ℕ) (running : D) (r : Rng)
      → Small u
      → abs_ℤ (x.units running) + rounds * u ≤ x.limit
      → let ((lines, after), _) = draw_lines account_id spec rounds running r in
        Drawn (rounds * u) running lines after
  unfolding draw_lines
  draw_lines-Drawn u zero running r small fits = (tt, refl, omega arith, omega arith)
  draw_lines-Drawn u (suc rounds) running r small fits =
      let (index, r₁) = below (account_count spec) r in
      elim (Option-cases (get_elem? spec.accounts index)) [
        | inl missing ↦
            let ((lines, after), _) = draw_lines account_id spec rounds running r₁ in
            rw (missing, draw_lines)
              (Drawn-weaken (rounds * u) (suc rounds * u) running after lines (ground arith)
                (draw_lines-Drawn u rounds running r₁ small (ground arith)))
        | inr (code, found) ↦
            let ((line, middle), r₂) = draw_for account_id spec code running r₁ in
            let ((lines, after), _) = draw_lines account_id spec rounds middle r₂ in
            let one = draw_for-Drawn u code running r₁ small (ground arith) in
            rw (found, draw_lines)
              (Drawn-join u (rounds * u) (suc rounds * u) running middle after line lines
                (ground arith) one
                (draw_lines-Drawn u rounds middle r₂ small (ground (arith, one.3))))
      ]

  -- The closing line, for an account that exists, makes up for the running sum.
  plug_line-Closes :
      (code : Text) (running : D)
      → LineIn spec.currency (plug_line account_id spec code running)
        × (x.units running +ℤ debit_total x (plug_line account_id spec code running ∷ [])
            ≡ credit_total x (plug_line account_id spec code running ∷ []))
        × (lines_abs x (plug_line account_id spec code running ∷ []) ≡ abs_ℤ (x.units running))
  unfolding plug_line debit_line credit_line
  plug_line-Closes code running = elim (Bool-cases (d.is_sign_negative running)) [
    | inl negative ↦
        let sign = abs_ℤ_of_le (x.units running) (x.is_sign_negative-le running negative) in
        rw (negative, x.units-abs running) (refl, omega (int_laws, sign), omega arith)
    | inr other ↦
        let sign =
          abs_ℤ_of_not_lt (x.units running)
            (λ lt. cc (x.is_sign_negative-of_lt running lt, other)) in
        rw (other, x.units-abs running) (refl, omega (int_laws, sign), omega arith)
  ]

  -- Totals and magnitudes of a list of lines followed by another.
  append-laws :
      (ls ks : List (JournalLine D))
      → (debit_total x (ls ++ ks) ≡ debit_total x ls +ℤ debit_total x ks)
        × (credit_total x (ls ++ ks) ≡ credit_total x ls +ℤ credit_total x ks)
        × (lines_abs x (ls ++ ks) ≡ lines_abs x ls + lines_abs x ks)
        × (All (LineIn spec.currency) ls
            → All (LineIn spec.currency) ks
            → All (LineIn spec.currency) (ls ++ ks))
  append-laws [] ks = (omega int_laws, omega int_laws, omega arith, λ _ b. b)
  append-laws (l ∷ ls) ks =
      let (debits, credits, size, sides) = append-laws ls ks in
      (
        omega (int_laws, parts debits),
        omega (int_laws, parts credits),
        omega (arith, size),
        λ a b. (a.0, sides a.1 b),
      )

  -- What `generate` guarantees of one entry.
  abbrev pub IsAccepted : GeneratedEntry D → Type 0
  IsAccepted e =
      All (LineIn spec.currency) e.lines × IsBalanced x e.lines × (check_entry e.lines ≡ ok tt)

  append-ne-nil : {A : Type 0} (xs : List A) (y : A) → xs ++ (y ∷ []) ≢ []
  append-ne-nil [] y e = cc
  append-ne-nil (x ∷ xs) y e = cc

  closed-IsAccepted :
      (bound : ℕ) (lines : List (JournalLine D)) (running origin : D) (code : Text)
      → Drawn bound origin lines running
      → x.units origin ≡ pos 0
      → 2 * bound ≤ x.limit
      → IsAccepted (record { lines = lines ++ (plug_line account_id spec code running ∷ []) })
  closed-IsAccepted bound lines running origin code (sides, sum, size, after) nothing fits =
      let closing = plug_line account_id spec code running in
      let (side, closes, closing_size) = plug_line-Closes code running in
      let (debits, credits, sizes, join) = append-laws lines (closing ∷ []) in
      let all = join sides (side, tt) in
      let balanced : IsBalanced x (lines ++ (closing ∷ [])) = (
        append-ne-nil lines closing,
        (spec.currency, all),
        omega (int_laws, parts debits, parts credits, parts sum, parts closes, parts nothing),
      ) in
      (
        all,
        balanced,
        check_entry_total x (lines ++ (closing ∷ [])) balanced
            (omega (arith, sizes, closing_size, parts nothing)),
      )

  plugged :
      (running : D) (r : Rng)
      → 2 ≤ length spec.accounts
      → (code : Text) × ((plug account_id spec running r).0
          ≡ plug_line account_id spec code running ∷ [])
  unfolding plug
  plugged running r two =
      let (code, found) =
        get_elem?-of_lt spec.accounts (below (account_count spec) r).0
          (ground (arith, below-le (account_count spec) r)) in
      (code, rw (found, plug) refl)

  generate_entry-IsAccepted :
      (u : ℕ) (r : Rng)
      → 2 ≤ length spec.accounts
      → Small u
      → 2 * (most_lines spec * u) ≤ x.limit
      → IsAccepted (generate_entry account_id spec r).0
  unfolding generate_entry
  generate_entry-IsAccepted u r two small fits =
      let (count, r₁) = between (fewest_lines spec) (most_lines spec) r in
      let few : count ≤ most_lines spec =
        (between_bounds (fewest_lines spec) (most_lines spec) r (omega arith)).1 in
      let bound : (count - 1) * u ≤ most_lines spec * u = grind arith in
      let ((lines, running), r₂) = draw_lines account_id spec (count - 1) d.zero r₁ in
      let drawn =
        draw_lines-Drawn u (count - 1) d.zero r₁ small (omega (arith, parts x.units-zero)) in
      let (code, closing) = plugged running r₂ two in
      rw (closing, generate_entry)
        (closed-IsAccepted ((count - 1) * u) lines running d.zero code drawn x.units-zero
          (omega arith))

  generate_entries-IsAccepted :
      (u n : ℕ) (r : Rng)
      → 2 ≤ length spec.accounts
      → Small u
      → 2 * (most_lines spec * u) ≤ x.limit
      → All IsAccepted (generate_entries account_id spec n r)
  unfolding generate_entries
  generate_entries-IsAccepted u zero r two small fits = tt
  generate_entries-IsAccepted u (suc n) r two small fits = (
    generate_entry-IsAccepted u r two small fits,
    generate_entries-IsAccepted u n (generate_entry account_id spec r).1 two small fits,
  )

  -- On at least two accounts, with amounts whose magnitude is at most `u` and entries that stay in
  -- range, every entry generated from any seed is in the currency of the specification, balanced,
  -- and accepted by the checks of `PostJournalEntry`.
  pub generate-IsAccepted :
      (u seed : ℕ)
      → 2 ≤ length spec.accounts
      → ((minor : ℕ)
          → minor ≤ max spec.max_minor_units 1
          → abs_ℤ (x.units (magnitude account_id spec minor)) ≤ u)
      → 2 * (most_lines spec * u) ≤ x.limit
      → All IsAccepted (generate account_id spec seed).entries
  unfolding generate
  generate-IsAccepted u seed two small fits =
      generate_entries-IsAccepted u spec.entries _ two small fits
