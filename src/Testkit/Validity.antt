-- ===== src/Testkit/Validity.antt =====
-- What a scenario without defects guarantees: `Scenario::validate` of crates/testkit/src/scenario.rs
-- against the assertions and the runner.
use falkr_lite.Base.{
  ◌≡◌, ◌≢◌, refl, Bool, true, false, not, ◌&&◌, Option, List, [], ◌∷◌, ◌++◌, map, All, arith, inl,
  inr, Option-cases, Bool-cases,
}
use falkr_lite.Base.Int.{pos, ◌+ℤ◌, int_laws, parts, eq_of_parts}
use falkr_lite.Base.Text.{Text}
use falkr_lite.Base.Map.{Map, text_key, keys, values, contains_key, insert}
use falkr_lite.Base.KeySet.{collect_keys}
use falkr_lite.Base.Outcome.{Outcome, ok, err, panic}
use falkr_lite.Decimal.{Arithmetic, IsExact}
use falkr_lite.Shares.{sum_units}
use falkr_lite.Testkit.Chart.{
  Account, ChartOfAccounts, resolve, on_normal_side, permits_opposite_sign,
}
use falkr_lite.Testkit.NormalSides.{IsExpected, tolerated_iff}
use falkr_lite.Testkit.Scenario.{Toml, Scenario, is_blocked}
use falkr_lite.Testkit.Flaw.{Flaw, unusual}
use falkr_lite.Testkit.Validate.{
  fail_if, gather, is_missing, header_flaws, operation_flaws, entry_flaws, referenced_accounts,
  parse_balances, balances_or_flaw, unresolved_flaws, sum_balances, total_flaws, account_flaws,
  unusual_flaws, declaration_flaws, subledger_flaws, owner_flaws, balance_flaws, as_defect,
  all_flaws, validate,
}

pub append-eq-nil : {A : Type 0} (xs ys : List A) → xs ++ ys ≡ [] → (xs ≡ []) × (ys ≡ [])
append-eq-nil [] ys h = (refl, h)
append-eq-nil (x ∷ xs) ys h = cc

pub gather-eq-nil : {A : Type 0} (xss : List (List A)) → gather xss ≡ [] → All (λ xs. xs ≡ []) xss
gather-eq-nil [] h = tt
gather-eq-nil (xs ∷ xss) h =
    let (one, rest) = append-eq-nil xs (gather xss) h in (one, gather-eq-nil xss rest)

pub map-eq-nil : {A B : Type 0} (f : A → B) (xs : List A) → map f xs ≡ [] → xs ≡ []
map-eq-nil f [] h = refl
map-eq-nil f (x ∷ xs) h = cc

pub fail_if-eq-nil : {A : Type 0} (b : Bool) (flaw : A) → fail_if b flaw ≡ [] → b ≡ false
fail_if-eq-nil true flaw h = cc
fail_if-eq-nil false flaw h = refl

All-append_right : {A : Type 0} (P : A → Type 0) (xs ys : List A) → All P (xs ++ ys) → All P ys
All-append_right P [] ys all = all
All-append_right P (x ∷ xs) ys all = All-append_right P xs ys all.1

module _ {D : Type 0} ⦃d : Arithmetic D⦄ (parse : Text → Option D) (chart : ChartOfAccounts) where
  abbrev wrong_side : Map Text (Unit {0}) → Text → D → Account → Bool
  wrong_side declared r amount a =
      not (on_normal_side a amount)
      && not (permits_opposite_sign a)
      && not (contains_key r declared)

  unresolved_flaws-eq-nil :
      (references : List Text)
      → unresolved_flaws parse chart references ≡ []
      → All (λ r. is_missing (resolve chart r) ≡ false) references
  unfolding unresolved_flaws
  unresolved_flaws-eq-nil [] h = tt
  unresolved_flaws-eq-nil (r ∷ references) h =
      let (one, rest) = append-eq-nil (fail_if (is_missing (resolve chart r)) _) _ h in
      (fail_if-eq-nil (is_missing (resolve chart r)) _ one, unresolved_flaws-eq-nil references rest)

  unusual_flaws-IsExpected :
      (declared : Map Text (Unit {0})) (balances : Map Text D)
      → All (λ r. is_missing (resolve chart r) ≡ false) (keys balances)
      → unusual_flaws parse chart declared balances ≡ []
      → All (IsExpected chart declared) balances
  unfolding unusual_flaws
  unusual_flaws-IsExpected declared [] all h = tt
  unusual_flaws-IsExpected declared ((r, amount) ∷ balances) all h =
      let (one, rest) =
        append-eq-nil (account_flaws parse chart declared r amount (resolve chart r)) _ h in
      (
        elim (Option-cases (resolve chart r)) [
          | inl absent ↦ cc (all.0, absent)
          | inr (a, found) ↦
              let (unflagged, _) =
                append-eq-nil (fail_if (wrong_side declared r amount a) (unusual r amount)) _
                  (rw found at one) in
              (
                a,
                found,
                (tolerated_iff chart declared r a amount).0 (
                    ground (
                      arith,
                      fail_if-eq-nil (wrong_side declared r amount a) (unusual r amount) unflagged,
                    )),
              )
        ],
        unusual_flaws-IsExpected declared balances all.1 rest,
      )

  -- An overflow is never forgotten.
  sum_balances-overflowed :
      (total : D) (amounts : List D) → (sum_balances parse chart total true amounts).1 ≡ true
  unfolding sum_balances
  sum_balances-overflowed total [] = refl
  sum_balances-overflowed total (a ∷ amounts) = elim (Option-cases (d.checked_add total a)) [
    | inl overflow ↦ rw (overflow, sum_balances) (sum_balances-overflowed total amounts)
    | inr (next, fits) ↦ rw (fits, sum_balances) (sum_balances-overflowed next amounts)
  ]

  parse_balances-ne-panic :
      (raw : Map Text Text) (out : Map Text D) → parse_balances parse chart raw out ≢ panic
  unfolding parse_balances
  parse_balances-ne-panic [] out h = cc
  parse_balances-ne-panic ((account, amount) ∷ raw) out h = elim (Option-cases (parse amount)) [
    | inl unread ↦ cc (rw (unread, parse_balances) at h)
    | inr (v, read) ↦
        parse_balances-ne-panic raw (insert account v out) (rw (read, parse_balances) at h)
  ]

  -- The four groups of checks.
  pub validate-eq-nil :
      {V : Type 0} ⦃t : Toml V⦄ (s : Scenario V)
      → validate parse chart s ≡ []
      → (header_flaws {D = D} s chart ≡ [])
        × (operation_flaws {D = D} s ≡ [])
        × (entry_flaws {D = D} s.operations ≡ [])
        × (balance_flaws parse chart s ≡ [])
  unfolding validate
  validate-eq-nil s h =
      let flaws = map-eq-nil (as_defect s.meta.id) (all_flaws parse chart s) h in
      let (header, (operations, (entries, (balances, _)))) =
        gather-eq-nil
          (header_flaws s chart
            ∷ operation_flaws s
            ∷ entry_flaws s.operations
            ∷ balance_flaws parse chart s
            ∷ [])
          flaws in
      (header, operations, entries, balances)

  module _ (x : IsExact d) where
    sum_balances-exact :
        (total : D) (amounts : List D)
        → (sum_balances parse chart total false amounts).1 ≡ false
        → x.units (sum_balances parse chart total false amounts).0
          ≡ x.units total +ℤ sum_units x amounts
    unfolding sum_balances
    sum_balances-exact total [] h = omega int_laws
    sum_balances-exact total (a ∷ amounts) h = elim (Option-cases (d.checked_add total a)) [
      | inl overflow ↦ cc (sum_balances-overflowed total amounts, rw (overflow, sum_balances) at h)
      | inr (next, fits) ↦
          let rest = sum_balances-exact next amounts (rw (fits, sum_balances) at h) in
          let val = x.units-checked_add total a fits in
          rw (fits, sum_balances) (omega (int_laws, parts rest, parts val))
    ]

    total_flaws-eq-nil :
        (balances : Map Text D)
        → total_flaws parse chart false balances ≡ []
        → sum_units x (values balances) ≡ pos 0
    unfolding total_flaws
    total_flaws-eq-nil balances h =
        let s = sum_balances parse chart d.zero false (values balances) in
        elim (Bool-cases s.1) [
          | inl overflowed ↦ cc (rw (overflowed, total_flaws) at h)
          | inr exact ↦
              let sum = sum_balances-exact d.zero (values balances) exact in
              let none_left : d.is_zero s.0 ≡ true = ground (arith, rw (exact, total_flaws) at h) in
              let zero : x.units s.0 ≡ pos 0 =
                ground (arith, x.units-is_zero s.0, eq_of_parts (x.units s.0) (pos 0)) in
              omega (int_laws, parts sum, parts zero, parts x.units-zero)
        ]

    balances_or_flaw-ok :
        (read : Outcome (Flaw D) (Map Text D))
        → (balances_or_flaw parse chart read).1 ≡ []
        → read ≢ panic
        → read ≡ ok (balances_or_flaw parse chart read).0
    balances_or_flaw-ok (ok balances) h n = refl
    balances_or_flaw-ok (err e) h n = cc
    balances_or_flaw-ok panic h n = absurd (n refl)

    -- A scenario without defects that is not blocked has expected balances that can be read and
    -- that sum to zero exactly. Each is of an account on the chart, and it is on the normal side of
    -- the account, or the policy of the account allows both signs (where it is not written, that of
    -- a liability, equity or revenue does), or the scenario declares it as unusual.
    pub validate-balances :
        {V : Type 0} ⦃t : Toml V⦄ (s : Scenario V)
        → validate parse chart s ≡ []
        → is_blocked s.meta.status ≡ false
        → (balances : Map Text D) × (parse_balances parse chart s.expected.trial_balance []
            ≡ ok balances)
          × (sum_units x (values balances) ≡ pos 0)
          × All (IsExpected chart (collect_keys s.expected.unusual_balances [])) balances
    unfolding balance_flaws
    validate-balances s h open_status =
        let (balances, failed) =
          balances_or_flaw parse chart (parse_balances parse chart s.expected.trial_balance []) in
        let declared = collect_keys s.expected.unusual_balances [] in
        let h₃ = (validate-eq-nil s h).3 in
        let references = keys (referenced_accounts s.operations []) in
        let (read, (resolved, (totals, (sides, _)))) =
          gather-eq-nil
            (failed
              ∷ unresolved_flaws parse chart (references ++ keys balances)
              ∷ total_flaws parse chart (is_blocked s.meta.status) balances
              ∷ unusual_flaws parse chart declared balances
              ∷ declaration_flaws parse chart (keys declared) balances
              ∷ subledger_flaws parse chart (keys s.expected.subledgers)
              ∷ owner_flaws parse chart s.expected.by_entity
              ∷ [])
            h₃ in
        let all =
          All-append_right (λ r. is_missing (resolve chart r) ≡ false) references (keys balances)
            (unresolved_flaws-eq-nil (references ++ keys balances) resolved) in
        (
          balances,
          balances_or_flaw-ok (parse_balances parse chart s.expected.trial_balance []) read
              (parse_balances-ne-panic s.expected.trial_balance []),
          total_flaws-eq-nil balances (rw open_status at totals),
          unusual_flaws-IsExpected declared balances all sides,
        )
