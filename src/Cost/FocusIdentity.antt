-- ===== src/Cost/FocusIdentity.antt =====
-- The identity of a line in crates/cost-spine/src/providers/aws.rs: two events with one key come from
-- one line, as far as the hash does not collide.
use falkr_lite.Base.{
  ℕ, ◌≡◌, ◌≢◌, refl, sym, ◌∙◌, ap, Option, none, some, List, [], ◌∷◌, ◌++◌, All, Option-cases, inl,
  inr, some-injective, is_empty, if◌then◌else◌, every, not, ◌==◌, true, arith,
}
use falkr_lite.Base.Text.{Text, trim}
use falkr_lite.Base.Outcome.{ok}
use falkr_lite.Core.Dimensions.{Uuid}
use falkr_lite.Cost.Event.{CostEvent, idempotency_key}
use falkr_lite.Cost.Focus.{
  Library, RawCostRecord, Connector, or_else, identity_columns, text_at, optional_field,
  identity_text, derive_external_id, normalize,
}
use falkr_lite.Cost.FocusLaws.{SameLine, normalize-eq-ok}

-- A text without the separator of `derive_external_id`.
abbrev pub IsPlain : Text → Type 0
IsPlain = All (λ c. c ≢ 0x1f)

pub every-IsPlain : (t : Text) → every (λ c. not (c == 0x1f)) t ≡ true → IsPlain t
every-IsPlain [] h = tt
every-IsPlain (c ∷ t) h = ((λ e. ground (arith, h, e)), every-IsPlain t (ground (arith, h)))

-- A text that is empty or begins with the separator.
abbrev IsBroken : Text → Type 0
IsBroken [] = Unit
IsBroken (c ∷ s) = c ≡ 0x1f

head : {a b : ℕ} {s t : Text} → a ∷ s ≡ b ∷ t → a ≡ b
head e = cc

tail : {a b : ℕ} {s t : Text} → a ∷ s ≡ b ∷ t → s ≡ t
tail e = cc

-- The part before the first separator is determined by the whole.
parts_of :
    (a b s t : Text)
    → IsPlain a
    → IsPlain b
    → IsBroken s
    → IsBroken t
    → a ++ s ≡ b ++ t
    → (a ≡ b) × (s ≡ t)
parts_of [] [] s t pa pb bs bt e = (refl, e)
parts_of [] (y ∷ b) [] t pa pb bs bt e = cc
parts_of [] (y ∷ b) (c ∷ s) t pa pb bs bt e = absurd (pb.0 (sym (head e) ∙ bs))
parts_of (x ∷ a) [] s [] pa pb bs bt e = cc
parts_of (x ∷ a) [] s (c ∷ t) pa pb bs bt e = absurd (pa.0 (head e ∙ bt))
parts_of (x ∷ a) (y ∷ b) s t pa pb bs bt e =
    let (same, rest) = parts_of a b s t pa.1 pb.1 bs bt (tail e) in ((λ i. head e i ∷ same i), rest)

module _ {D V : Type 0} (lib : Library D V) where
  -- What a row has in a column, trimmed; nothing where the column is missing.
  abbrev value_of : V → Text → Text
  value_of row name = or_else [] (optional_field lib row name)

  -- None of the columns holds the separator.
  abbrev pub IsPlainRow : V → List Text → Type 0
  IsPlainRow row = All (λ name. IsPlain (value_of row name))

  identity_text-IsBroken : (row : V) (names : List Text) → IsBroken (identity_text lib row names)
  unfolding identity_text
  identity_text-IsBroken row [] = tt
  identity_text-IsBroken row (n ∷ names) = refl

  -- A value that is there is not empty, so an empty one is a missing one.
  optional_field-cong :
      (r s : V) (name : Text)
      → value_of r name ≡ value_of s name
      → optional_field lib r name ≡ optional_field lib s name
  unfolding optional_field
  optional_field-cong r s name e =
      same_option (optional_field lib r name) (optional_field lib s name) (filled r) (filled s) e
    where
      filled : (row : V) → optional_field lib row name ≢ some []
      filled row h = elim (Option-cases (text_at lib row name)) [
        | inl missing ↦ cc (rw (optional_field, missing) at h)
        | inr (t, here) ↦ kept (trim t) (rw (optional_field, here) at h)
      ]
        where
          kept : (t : Text) → ¬ ((if is_empty t then none else some t) ≡ some [])
          kept [] n = cc
          kept (c ∷ t) n = cc (some-injective n)

      same_option :
          (o p : Option Text) → o ≢ some [] → p ≢ some [] → or_else [] o ≡ or_else [] p → o ≡ p
      same_option none none filled_o filled_p e = refl
      same_option none (some t) filled_o filled_p e = absurd (filled_p (ap some (sym e)))
      same_option (some t) none filled_o filled_p e = absurd (filled_o (ap some e))
      same_option (some t) (some u) filled_o filled_p e = ap some e

  identity_text-injective :
      (r s : V) (names : List Text)
      → IsPlainRow r names
      → IsPlainRow s names
      → identity_text lib r names ≡ identity_text lib s names
      → All (λ n. optional_field lib r n ≡ optional_field lib s n) names
  unfolding identity_text
  identity_text-injective r s [] pr ps e = tt
  identity_text-injective r s (n ∷ names) pr ps e =
      let (same, rest) =
        parts_of (value_of r n) (value_of s n) (identity_text lib r names)
          (identity_text lib s names) pr.0 ps.0 (identity_text-IsBroken r names)
          (identity_text-IsBroken s names) (tail e) in
      (optional_field-cong r s n same, identity_text-injective r s names pr.1 ps.1 rest)

  -- If the hash has no collision, and neither the billing periods nor the columns that are hashed
  -- hold the separator, two events of one key come from records of one line: they agree on the billing period, the
  -- account, the charge period, the service, the category of charge, the resource and the region.
  pub normalize-distinct_key :
      (connector : Connector) (fresh fresh' : Uuid) (now later : ℕ) (r s : RawCostRecord V)
      {e f : CostEvent D V}
      → ((u v : Text) → lib.sha256 u ≡ lib.sha256 v → u ≡ v)
      → IsPlain r.billing_period × IsPlain s.billing_period
      → IsPlainRow r.row identity_columns × IsPlainRow s.row identity_columns
      → normalize lib connector fresh now r ≡ ok e
      → normalize lib connector fresh' later s ≡ ok f
      → idempotency_key e ≡ idempotency_key f
      → SameLine lib r s
  unfolding derive_external_id
  normalize-distinct_key connector fresh fresh' now later r s collision_free (pr, ps) (rows, rows')
        he hf same =
      let (_, _, _, key_e, _) = normalize-eq-ok lib connector fresh now r he in
      let (_, _, _, key_f, _) = normalize-eq-ok lib connector fresh' later s hf in
      let hashed = collision_free _ _ (ap (λ k. k.0) (sym key_e ∙ same ∙ key_f)) in
      let (period, texts) =
        parts_of r.billing_period s.billing_period (identity_text lib r.row identity_columns)
          (identity_text lib s.row identity_columns) pr ps
          (identity_text-IsBroken r.row identity_columns)
          (identity_text-IsBroken s.row identity_columns) hashed in
      let (account, (start, (end, (service, (category, (resource, (region, _))))))) =
        identity_text-injective r.row s.row identity_columns rows rows' texts in
      (period, account, (start, end), (service, category), (resource, region))
