-- ===== src/Testkit/Termination.antt =====
-- `allocate` of crates/testkit/src/allocation.rs always returns: no index is out of range, and the
-- rounds that bound its loop are never used up.
use falkr_lite.Base.{
  ℕ, zero, suc, ◌+◌, ◌*◌, ◌%◌, ◌≤◌, ◌<◌, ◌≡◌, ◌≢◌, refl, sym, ap, subst, ◌∙◌, Bool, true, false,
  Option, none, some, List, [], ◌∷◌, All, is_empty, length, get_elem?, arith, Bool-cases,
  Option-cases, inl, inr, ltb,
}
use falkr_lite.Base.Outcome.{
  Outcome, ok, err, panic, ok_or, ◌>>=◌, >>=-eq-ok, ok-injective, reject_if, reject_if-eq-ok,
}
use falkr_lite.Decimal.{Arithmetic}
use falkr_lite.Shares.{update_at, Remainder, comes_first, place_remainder, sort_remainders}
use falkr_lite.Testkit.Allocation.{
  no_weights, scale_too_large, zero_weight, overflow, checked, sum_weights, exact_share,
  truncate_shares, cursor_index, bump, distribute, allocate, negative_weight,
}

>>=-ne-panic :
    {E A B : Type 0} (m : Outcome E A) (f : A → Outcome E B)
    → m ≢ panic
    → ((a : A) → m ≡ ok a → f a ≢ panic)
    → (m >>= f) ≢ panic
>>=-ne-panic (ok a) f h g = g a refl
>>=-ne-panic (err e) f h g = λ e. cc
>>=-ne-panic panic f h g = absurd (h refl)

ok_or-ne-panic : {E A : Type 0} (o : Option A) (e : E) → ok_or o e ≢ panic
ok_or-ne-panic none e = λ h. cc
ok_or-ne-panic (some a) e = λ h. cc

reject_if-ne-panic : {E : Type 0} (b : Bool) (e : E) → reject_if b e ≢ panic
reject_if-ne-panic true e = λ h. cc
reject_if-ne-panic false e = λ h. cc

update_at-ne-panic :
    {E A : Type 0} (f : A → Outcome E A) (xs : List A) (i : ℕ)
    → ((a : A) → f a ≢ panic)
    → i < length xs
    → update_at f xs i ≢ panic
unfolding update_at
update_at-ne-panic f [] i total h = omega arith
update_at-ne-panic f (x ∷ xs) zero total h = >>=-ne-panic (f x) _ (total x) (λ a e g. cc)
update_at-ne-panic f (x ∷ xs) (suc i) total h =
    >>=-ne-panic (update_at f xs i) _ (update_at-ne-panic f xs i total (omega arith)) (λ a e g. cc)

length-update_at :
    {E A : Type 0} (f : A → Outcome E A) (xs : List A) (i : ℕ) {ys : List A}
    → update_at f xs i ≡ ok ys
    → length ys ≡ length xs
unfolding update_at
length-update_at f [] i h = cc
length-update_at f (x ∷ xs) zero h =
    let (y, _, done) = >>=-eq-ok (f x) _ h in rw (← ok-injective done) refl
length-update_at f (x ∷ xs) (suc i) h =
    let (ys, e, done) = >>=-eq-ok (update_at f xs i) _ h in
    rw (← ok-injective done) (ap suc (length-update_at f xs i e))

-- An element in range is there, and has what all elements have.
get_elem?-in_range :
    {A : Type 0} (P : A → Type 0) (xs : List A) (i : ℕ)
    → All P xs
    → i < length xs
    → (a : A) × (get_elem? xs i ≡ some a) × P a
get_elem?-in_range P [] i all h = absurd (omega arith)
get_elem?-in_range P (x ∷ xs) zero all h = (x, refl, all.0)
get_elem?-in_range P (x ∷ xs) (suc i) all h = get_elem?-in_range P xs i all.1 (omega arith)

module _ {D : Type 0} ⦃d : Arithmetic D⦄ where
  -- The indices of the remainders are below a bound.
  abbrev Below : ℕ → List (Remainder D) → Type 0
  Below n = All (λ r. r.0 < n)

  place_remainder-keeps :
      (n : ℕ) (r : Remainder D) (rs : List (Remainder D))
      → r.0 < n
      → Below n rs
      → Below n (place_remainder r rs) × (length (place_remainder r rs) ≡ suc (length rs))
  place_remainder-keeps n r [] h all = ((h, tt), refl)
  place_remainder-keeps n r (q ∷ qs) h all = elim (Bool-cases (comes_first r q)) [
    | inl before ↦ rw before ((h, all), refl)
    | inr after ↦
        let (all', len) = place_remainder-keeps n r qs h all.1 in
        rw after ((all.0, all'), ap suc len)
  ]

  sort_remainders-keeps :
      (n : ℕ) (rs : List (Remainder D))
      → Below n rs
      → Below n (sort_remainders rs) × (length (sort_remainders rs) ≡ length rs)
  unfolding sort_remainders
  sort_remainders-keeps n [] all = (tt, refl)
  sort_remainders-keeps n (r ∷ rs) all =
      let (sorted, len) = sort_remainders-keeps n rs all.1 in
      let (all', len') = place_remainder-keeps n r (sort_remainders rs) all.0 sorted in
      (all', len' ∙ ap suc len)

  sum_weights-ne-panic : (acc : D) (ws : List D) → sum_weights acc ws ≢ panic
  unfolding sum_weights
  sum_weights-ne-panic acc [] = λ h. cc
  sum_weights-ne-panic acc (w ∷ ws) =
      >>=-ne-panic (reject_if (d.is_sign_negative w) (negative_weight w)) _ (reject_if-ne-panic _ _)
        (λ u e.
          >>=-ne-panic (checked (d.checked_add acc w)) _ (ok_or-ne-panic _ _)
            (λ next e. sum_weights-ne-panic next ws))

  exact_share-ne-panic : (total weight_total w : D) → exact_share total weight_total w ≢ panic
  unfolding exact_share
  exact_share-ne-panic total weight_total w =
      >>=-ne-panic (checked (d.checked_mul total w)) _ (ok_or-ne-panic _ _)
        (λ p e. ok_or-ne-panic _ _)

  truncate_shares-ne-panic :
      (total weight_total : D) (scale i : ℕ) (allocated : D) (ws : List D)
      → truncate_shares total weight_total scale i allocated ws ≢ panic
  unfolding truncate_shares
  truncate_shares-ne-panic total weight_total scale i allocated [] = λ h. cc
  truncate_shares-ne-panic total weight_total scale i allocated (w ∷ ws) =
      >>=-ne-panic (exact_share total weight_total w) _ (exact_share-ne-panic total weight_total w)
        (λ exact e.
          >>=-ne-panic (checked (d.checked_add allocated (d.truncate_dp scale exact))) _
            (ok_or-ne-panic _ _)
            (λ next e.
              >>=-ne-panic (checked (d.checked_sub exact (d.truncate_dp scale exact))) _
                (ok_or-ne-panic _ _)
                (λ cut e.
                  >>=-ne-panic (truncate_shares total weight_total scale (suc i) next ws) _
                    (truncate_shares-ne-panic total weight_total scale (suc i) next ws)
                    (λ rest e h. cc))))

  truncate_shares-indices :
      (total weight_total : D) (scale i : ℕ) (allocated : D) (ws : List D)
      {cut : D × List D × List (Remainder D)}
      → truncate_shares total weight_total scale i allocated ws ≡ ok cut
      → Below (i + length ws) cut.2 × (length cut.1 ≡ length ws) × (length cut.2 ≡ length ws)
  unfolding truncate_shares
  truncate_shares-indices total weight_total scale i allocated [] h =
      rw (← ok-injective h) (tt, refl, refl)
  truncate_shares-indices total weight_total scale i allocated (w ∷ ws) h =
      let (exact, _, h) = >>=-eq-ok (exact_share total weight_total w) _ h in
      let (next, e, h) =
        >>=-eq-ok (checked (d.checked_add allocated (d.truncate_dp scale exact))) _ h in
      let (cut, _, h) = >>=-eq-ok (checked (d.checked_sub exact (d.truncate_dp scale exact))) _ h in
      let (rest, e', h) =
        >>=-eq-ok (truncate_shares total weight_total scale (suc i) next ws) _ h in
      let (below, len, len') =
        truncate_shares-indices total weight_total scale (suc i) next ws e' in
      let moved : Below (i + suc (length ws)) rest.2 =
        subst (λ n. Below n rest.2) (omega arith) below in
      rw (← ok-injective h) ((omega arith, moved), ap suc len, ap suc len')

  bump-ne-panic :
      (step : D) (rs : List (Remainder D)) (cursor : ℕ) (ps : List D)
      → Below (length ps) rs
      → 0 < length rs
      → bump step rs cursor ps ≢ panic
  bump-ne-panic step rs cursor ps below some_left =
      let (r, found, in_range) =
        get_elem?-in_range (λ r. r.0 < length ps) rs (cursor % length rs) below (omega arith) in
      rw (found, bump) (update_at-ne-panic _ ps r.0 (λ a. ok_or-ne-panic _ _) in_range)

  length-bump :
      (step : D) (rs : List (Remainder D)) (cursor : ℕ) (ps : List D) {qs : List D}
      → bump step rs cursor ps ≡ ok qs
      → length qs ≡ length ps
  length-bump step rs cursor ps h = elim (Option-cases (cursor_index rs cursor)) [
    | inl outside ↦ cc (rw (outside, bump) at h)
    | inr (i, found) ↦ length-update_at _ ps i (rw (found, bump) at h)
  ]

  -- The rounds that are left always suffice: the error for a leftover that is too large comes
  -- first.
  distribute-ne-panic :
      (rounds : ℕ) (step : D) (rs : List (Remainder D)) (cursor : ℕ) (leftover : D) (ps : List D)
      → Below (length ps) rs
      → 0 < length rs
      → cursor ≤ length rs * 2
      → rounds + cursor ≡ suc (length rs * 2)
      → distribute rounds step rs cursor leftover ps ≢ panic
  unfolding distribute
  distribute-ne-panic zero step rs cursor leftover ps below some_left low enough =
      absurd (omega arith)
  distribute-ne-panic (suc rounds) step rs cursor leftover ps below some_left low enough =
      elim (Bool-cases (d.is_zero leftover)) [
        | inl done ↦ rw done (λ h. cc)
        | inr more ↦ rw more (
            >>=-ne-panic (bump step rs cursor ps) _
              (bump-ne-panic step rs cursor ps below some_left)
              (λ bumped e.
                >>=-ne-panic (checked (d.checked_sub leftover step)) _ (ok_or-ne-panic _ _)
                  (λ less _.
                    >>=-ne-panic (reject_if (ltb (length rs * 2) (suc cursor)) overflow) _
                      (reject_if-ne-panic _ _)
                      (λ u passed.
                        distribute-ne-panic rounds step rs (suc cursor) less bumped
                          (subst (λ n. Below n rs) (sym (length-bump step rs cursor ps e)) below)
                          some_left
                          (ground (
                            arith,
                            reject_if-eq-ok (ltb (length rs * 2) (suc cursor)) overflow passed,
                          ))
                          (omega arith)))))
      ]

  -- `allocate` returns parts or an error for every total, weights and scale: no index is out of
  -- range, and the rounds suffice.
  pub allocate-ne-panic :
      (total : D) (weights : List D) (scale : ℕ) → allocate total weights scale ≢ panic
  unfolding allocate
  allocate-ne-panic total weights scale =
      >>=-ne-panic (reject_if (is_empty weights) no_weights) _ (reject_if-ne-panic _ _)
        (λ _ some_weight.
          >>=-ne-panic (reject_if (ltb 28 scale) (scale_too_large scale)) _ (reject_if-ne-panic _ _)
            (λ _ _.
              >>=-ne-panic (sum_weights d.zero weights) _ (sum_weights-ne-panic d.zero weights)
                (λ weight_total _.
                  >>=-ne-panic (reject_if (d.is_zero weight_total) zero_weight) _
                    (reject_if-ne-panic _ _)
                    (λ _ _.
                      >>=-ne-panic (truncate_shares total weight_total scale 0 d.zero weights) _
                        (truncate_shares-ne-panic total weight_total scale 0 d.zero weights)
                        (λ cut e.
                          >>=-ne-panic (checked (d.checked_sub total cut.0)) _ (ok_or-ne-panic _ _)
                            (λ leftover _.
                              ends weight_total leftover _ cut e
                                (nonempty weights (reject_if-eq-ok _ _ some_weight))))))))
    where
      nonempty : (ws : List D) → is_empty ws ≡ false → 0 < length ws
      nonempty [] h = cc
      nonempty (w ∷ ws) h = omega arith

      ends :
          (weight_total leftover step : D) (cut : D × List D × List (Remainder D))
          → truncate_shares total weight_total scale 0 d.zero weights ≡ ok cut
          → 0 < length weights
          → distribute (suc (length cut.2 * 2)) step (sort_remainders cut.2) 0 leftover cut.1
            ≢ panic
      ends weight_total leftover step cut e some_weight =
          let (below, len, len') =
            truncate_shares-indices total weight_total scale 0 d.zero weights e in
          let same : 0 + length weights ≡ length cut.1 = omega (arith, len) in
          let (sorted, kept) =
            sort_remainders-keeps (length cut.1) cut.2 (subst (λ n. Below n cut.2) same below) in
          distribute-ne-panic _ _ (sort_remainders cut.2) 0 leftover cut.1 sorted (omega arith)
            (omega arith) (omega arith)
