-- ===== src/Testkit/Generator.antt =====
-- crates/testkit/src/generator.rs: balanced ledgers generated from a seed, and their balances
-- computed without the aggregate. The identifier of an account, a hash of its code, is a parameter.
-- `Decimal::new` panics on a scale above 28: the model is of scales up to 28.
use falkr_lite.Base.{
  ℕ, zero, suc, ◌-◌, ◌%◌, ◌^◌, Bool, true, false, Option, none, some, List, [], ◌∷◌, ◌++◌, length,
  get_elem?, min, max, ◌==◌, if◌then◌else◌,
}
use falkr_lite.Base.Int.{pos}
use falkr_lite.Base.Text.{Text, codes}
use falkr_lite.Base.Map.{Map, nat_key, lookup, insert}
use falkr_lite.Decimal.{Arithmetic}
use falkr_lite.Core.Currency.{Currency, usd}
use falkr_lite.Core.Money.{Money}
use falkr_lite.Core.Dimensions.{Uuid}
use falkr_lite.Ledger.{JournalLine, debit_line, credit_line}
use falkr_lite.Testkit.Rng.{Rng, new_rng, next_u64, below, between}

pub record GeneratorSpec : Type 0 where
  pub accounts : List Text
  pub currency : Currency
  pub entries : ℕ
  pub min_lines : ℕ
  pub max_lines : ℕ
  pub max_minor_units : ℕ
  pub scale : ℕ

-- `GeneratorSpec::small`
abbrev pub small_spec : GeneratorSpec
small_spec = record {
  accounts =
      codes "1000"
      ∷ codes "1100"
      ∷ codes "1400"
      ∷ codes "2000"
      ∷ codes "2400"
      ∷ codes "4000"
      ∷ codes "5000"
      ∷ codes "6000"
      ∷ [];
  currency = usd;
  entries = 25;
  min_lines = 2;
  max_lines = 6;
  max_minor_units = 5000000;
  scale = 2;
}

-- `GeneratorSpec::with_currency`
unfoldable pub with_currency : GeneratorSpec → Currency → ℕ → GeneratorSpec
with_currency spec c places = record spec { currency = c; scale = places }

pub record GeneratedEntry (D : Type 0) : Type 0 where
  pub lines : List (JournalLine D)

pub record GeneratedLedger (D : Type 0) : Type 0 where
  pub seed : ℕ
  pub currency : Currency
  pub entries : List (GeneratedEntry D)

-- `Option::unwrap_or`
abbrev pub or_keep : {A : Type 0} → Option A → A → A
or_keep none a = a
or_keep (some b) a = b

-- `spec.accounts.len().max(2)`, and the clamped bounds on the lines of an entry.
abbrev pub account_count : GeneratorSpec → ℕ
account_count spec = max (length spec.accounts) 2

abbrev pub fewest_lines : GeneratorSpec → ℕ
fewest_lines spec = max spec.min_lines 2

abbrev pub most_lines : GeneratorSpec → ℕ
most_lines spec = max spec.max_lines (fewest_lines spec)

module _ {D : Type 0} ⦃d : Arithmetic D⦄ (account_id : Text → Uuid) (spec : GeneratorSpec) where
  -- `Decimal::new(i64::try_from(minor).unwrap_or(i64::MAX), spec.scale)`
  abbrev pub magnitude : ℕ → D
  magnitude minor = d.of_scaled (pos (min minor (2 ^ 63 - 1))) spec.scale

  abbrev pub in_currency : D → Money D
  in_currency a = record { amount = a; currency = spec.currency }

  -- A debit if the draw is even, else a credit, with the running sum after it.
  unfoldable pub sided_line : Uuid → D → Bool → D → JournalLine D × D
  sided_line id m true running =
      (debit_line id (in_currency m), or_keep (d.checked_add running m) running)
  sided_line id m false running =
      (credit_line id (in_currency m), or_keep (d.checked_sub running m) running)

  -- The rest of one round, for an account that exists.
  unfoldable pub draw_for : Text → D → Rng → (JournalLine D × D) × Rng
  draw_for code running r =
      let (minor, r₁) = between 1 (max spec.max_minor_units 1) r in
      let (coin, r₂) = next_u64 r₁ in
      (sided_line (account_id code) (magnitude minor) (coin % 2 == 0) running, r₂)

  -- The inner loop: lines, the running sum and the generator after `rounds` rounds.
  unfoldable pub draw_lines : ℕ → D → Rng → (List (JournalLine D) × D) × Rng
  draw_lines zero running r = (([], running), r)
  draw_lines (suc rounds) running r =
      let (index, r₁) = below (account_count spec) r in
      elim (get_elem? spec.accounts index) [
        | none ↦ draw_lines rounds running r₁
        | some code ↦
            let ((line, running₁), r₂) = draw_for code running r₁ in
            let ((lines, running₂), r₃) = draw_lines rounds running₁ r₂ in
            ((line ∷ lines, running₂), r₃)
      ]

  -- The closing line, for an account that exists.
  unfoldable pub plug_line : Text → D → JournalLine D
  plug_line code running =
      if d.is_sign_negative running
      then debit_line (account_id code) (in_currency (d.abs running))
      else credit_line (account_id code) (in_currency (d.abs running))

  unfoldable pub plug : D → Rng → List (JournalLine D) × Rng
  plug running r =
      let (index, r₁) = below (account_count spec) r in
      (
        elim (get_elem? spec.accounts index) [
          | none ↦ []
          | some code ↦ plug_line code running ∷ []
        ],
        r₁,
      )

  unfoldable pub generate_entry : Rng → GeneratedEntry D × Rng
  generate_entry r =
      let (line_count, r₁) = between (fewest_lines spec) (most_lines spec) r in
      let ((lines, running), r₂) = draw_lines (line_count - 1) d.zero r₁ in
      let (closing, r₃) = plug running r₂ in (record { lines = lines ++ closing }, r₃)

  unfoldable pub generate_entries : ℕ → Rng → List (GeneratedEntry D)
  generate_entries zero r = []
  generate_entries (suc n) r = let (entry, r₁) = generate_entry r in entry ∷ generate_entries n r₁

  unfoldable pub generate : ℕ → GeneratedLedger D
  generate seed = record {
    seed = seed;
    currency = spec.currency;
    entries = generate_entries spec.entries (new_rng seed);
  }

module _ {D : Type 0} ⦃d : Arithmetic D⦄ where
  abbrev pub delta_of : Option (Money D) → Option (Money D) → Option D
  delta_of (some m) none = some m.amount
  delta_of none (some m) = some (d.neg m.amount)
  delta_of (some m) (some n) = none
  delta_of none none = none

  abbrev pub slot_or_zero : Uuid → Map Uuid D → D
  slot_or_zero a b = elim (lookup a b) [ none ↦ d.zero | some v ↦ v ]

  -- One line of `ground_truth`.
  unfoldable pub truth_line : JournalLine D → Map Uuid D → Map Uuid D
  truth_line l b = elim (delta_of l.debit l.credit) [
    | none ↦ b
    | some delta ↦
        let slot = slot_or_zero l.account b in
        insert l.account (or_keep (d.checked_add slot delta) slot) b
  ]

  unfoldable pub truth_lines : List (JournalLine D) → Map Uuid D → Map Uuid D
  truth_lines [] b = b
  truth_lines (l ∷ ls) b = truth_lines ls (truth_line l b)

  unfoldable pub truth_entries : List (GeneratedEntry D) → Map Uuid D → Map Uuid D
  truth_entries [] b = b
  truth_entries (e ∷ es) b = truth_entries es (truth_lines e.lines b)

  -- `GeneratedLedger::ground_truth`
  unfoldable pub ground_truth : GeneratedLedger D → Map Uuid D
  ground_truth ledger = truth_entries ledger.entries []

  -- `GeneratedLedger::all_lines`
  unfoldable pub all_lines : List (GeneratedEntry D) → List (JournalLine D)
  all_lines [] = []
  all_lines (e ∷ es) = e.lines ++ all_lines es
