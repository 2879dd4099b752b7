-- ===== src/Testkit/Period.antt =====
-- What `validate` of crates/testkit/src/scenario.rs says of texts: the length in bytes, the stem of
-- a file, and the period of a scenario.
use falkr_lite.Base.{
  ℕ, ◌+◌, ◌≤◌, ◌≡◌, ◌≢◌, ◌↔◌, ◌⊎◌, inl, inr, ap, ==_iff, Bool-cases, Option-cases, Bool, true,
  false, not, ◌&&◌, ◌||◌, Option, none, some, List, [], ◌∷◌, arith, leb, ltb, ◌==◌, if◌then◌else◌,
  is_empty, not-eq-false,
}
use falkr_lite.Base.Text.{Text, split_once}
use falkr_lite.Base.Outcome.{
  Outcome, ok, reject_if, reject_if-eq-ok, >>=-eq-ok, ok_or, ok_or-eq-ok, ◌>>=◌, ◌>>◌,
}
use falkr_lite.Testkit.Phase.{parse_unsigned, strip_prefix}

abbrev utf8_width : ℕ → ℕ
utf8_width c = if ltb c 0x80 then 1 else if ltb c 0x800 then 2 else if ltb c 0x10000 then 3 else 4

-- `str::len`, in bytes of UTF-8.
abbrev pub byte_length : Text → ℕ
byte_length [] = 0
byte_length (c ∷ s) = utf8_width c + byte_length s

abbrev pub starts_with : Text → Text → Bool
starts_with s [] = true
starts_with [] (k ∷ prefix) = false
starts_with (c ∷ s) (k ∷ prefix) = (c == k) && starts_with s prefix

-- The text before the last dot.
abbrev before_last_dot : Text → Option Text
before_last_dot [] = none
before_last_dot (c ∷ s) = elim (before_last_dot s) [
  | some before ↦ some (c ∷ before)
  | none ↦ if c == b'.' then some [] else none
]

-- `Path::file_stem` of a name: a leading dot is part of the stem.
abbrev pub stem_of : Text → Text
stem_of name = elim (before_last_dot name) [
  | none ↦ name
  | some before ↦ if is_empty before then name else before
]

-- `Path::file_stem`, and the name of the folder, of the components of a path.
abbrev pub file_stem : List Text → Text
file_stem [] = []
file_stem (name ∷ []) = stem_of name
file_stem (folder ∷ name ∷ rest) = file_stem (name ∷ rest)

abbrev pub folder_name : List Text → Text
folder_name [] = []
folder_name (name ∷ []) = []
folder_name (folder ∷ name ∷ []) = folder
folder_name (folder ∷ name ∷ last ∷ rest) = folder_name (name ∷ last ∷ rest)

abbrev is_none : {A : Type 0} → Option A → Bool
is_none none = true
is_none (some _) = false

-- The digits of the period number, and the largest number.
abbrev pub number_part : Text → Text × ℕ
number_part rest = elim (strip_prefix b'P' rest) [ some digits ↦ (digits, 13) | none ↦ (rest, 12) ]

-- Which of its three errors `validate_period` returns.
pub data PeriodError : Type 0 where
  no_dash bad_year bad_number : PeriodError

abbrev pub number_fits : Text → ℕ → ℕ → Bool
number_fits digits largest n = leb 1 n && leb n largest && (byte_length digits == 2)

unfoldable pub validate_period : Text → Outcome PeriodError (Unit {0})
validate_period period = do
  halves ← ok_or (split_once b'-' period) no_dash
  reject_if (not (byte_length halves.0 == 4) || is_none (parse_unsigned 65535 halves.0)) bad_year
  n ← ok_or (parse_unsigned 255 (number_part halves.1).0) bad_number
  reject_if (not (number_fits (number_part halves.1).0 (number_part halves.1).1 n)) bad_number

-- A number in two bytes, from 1 to the largest.
abbrev pub IsNumber : Text → ℕ → Type 0
IsNumber digits largest =
    (n : ℕ) × (parse_unsigned 255 digits ≡ some n)
    × (byte_length digits ≡ 2)
    × (1 ≤ n)
    × (n ≤ largest)

-- Which of the two forms the text after the dash has.
abbrev pub HasForm : Text → Type 0
HasForm rest =
    ((digits : Text) × (rest ≡ b'P' ∷ digits) × IsNumber digits 13)
    ⊎ (((digits : Text) → rest ≢ b'P' ∷ digits) × IsNumber rest 12)

-- A year in four bytes, a dash, and a month, or a `P` and one of thirteen numbers.
abbrev pub IsPeriod : Text → Type 0
IsPeriod period =
    (year : Text) × (rest : Text) × (split_once b'-' period ≡ some (year, rest))
    × (byte_length year ≡ 4)
    × ((y : ℕ) × (parse_unsigned 65535 year ≡ some y))
    × HasForm rest

number_part-HasForm :
    (rest : Text) → IsNumber (number_part rest).0 (number_part rest).1 ↔ HasForm rest
number_part-HasForm [] =
    (λ h. inr ((λ digits e. cc), h), λ form. elim form [ inl (digits, e, _) ↦ cc | inr (_, h) ↦ h ])
number_part-HasForm (k ∷ rest) = elim (Bool-cases (k == b'P')) [
  | inl special ↦
      let same = (==_iff k b'P').0 special in
      rw (special, number_part)
        (
          λ h. inl (rest, ap (λ c. c ∷ rest) same, h),
          λ form. elim form [
            | inl (digits, e, h) ↦ rw (tail e) h
            | inr (plain, _) ↦ absurd (plain rest (ap (λ c. c ∷ rest) same))
          ],
        )
  | inr plain ↦
      rw (plain, number_part)
        (
          λ h. inr ((λ digits e. cc (plain, (==_iff k b'P').1 (head e))), h),
          λ form. elim form [
            | inl (digits, e, _) ↦ cc (plain, (==_iff k b'P').1 (head e))
            | inr (_, h) ↦ h
          ],
        )
]
  where
    tail : {a b : ℕ} {s t : Text} → a ∷ s ≡ b ∷ t → s ≡ t
    tail e = cc

    head : {a b : ℕ} {s t : Text} → a ∷ s ≡ b ∷ t → a ≡ b
    head e = cc

-- A text is accepted for a period exactly when it is a year of four bytes, a dash, and either a
-- number of two bytes from 1 to 12, or a `P` and a number of two bytes from 1 to 13.
pub validate_period_iff : (period : Text) → (validate_period period ≡ ok tt) ↔ IsPeriod period
unfolding validate_period
validate_period_iff period = (accepted period, complete period)
  where
    accepted : (period : Text) → validate_period period ≡ ok tt → IsPeriod period
    accepted period h =
        let ((year, rest), e, h₁) = >>=-eq-ok (ok_or (split_once b'-' period) no_dash) _ h in
        let unfit = not (byte_length year == 4) || is_none (parse_unsigned 65535 year) in
        let (_, e', h₂) = >>=-eq-ok (reject_if unfit bad_year) _ h₁ in
        let (n, e'', h₃) =
          >>=-eq-ok (ok_or (parse_unsigned 255 (number_part rest).0) bad_number) _ h₂ in
        let fits = not-eq-false _ (
          reject_if-eq-ok (not (number_fits (number_part rest).0 (number_part rest).1 n)) bad_number
            h₃) in
        let fit = reject_if-eq-ok unfit bad_year e' in
        (
          year,
          rest,
          ok_or-eq-ok _ _ e,
          ground (arith, fit),
          elim (Option-cases (parse_unsigned 65535 year)) [
            | inl unread ↦ absurd (ground (arith, fit, unread))
            | inr read ↦ read
          ],
          (number_part-HasForm rest).0 (
            n,
            ok_or-eq-ok _ _ e'',
            ground (arith, fits),
            ground (arith, fits),
            ground (arith, fits),
          ),
        )

    complete : (period : Text) → IsPeriod period → validate_period period ≡ ok tt
    complete period (year, rest, e, four, (y, read), form) =
        let (n, e', two, low, high) = (number_part-HasForm rest).1 form in
        rw (e, read, e', validate_period) (ground (arith, four, two, low, high))
