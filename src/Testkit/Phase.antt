-- ===== src/Testkit/Phase.antt =====
-- `Phase` of crates/testkit/src/catalog.rs: the milestones, their order, and their text form.
use falkr_lite.Base.{
  ℕ, ◌+◌, ◌-◌, ◌*◌, ◌/◌, ◌%◌, ◌≤◌, ◌≡◌, Bool, ◌&&◌, Option, none, some, [], ◌∷◌, arith, leb, ◌==◌,
  if◌then◌else◌,
}
use falkr_lite.Base.Text.{Text}
use falkr_lite.Base.Outcome.{Outcome, ok, err}

pub record Phase : Type 0 where
  pub number : ℕ

abbrev phase : ℕ → Phase
phase n = record { number = n }

abbrev pub p02 : Phase
p02 = phase 2

abbrev pub p03 : Phase
p03 = phase 3

abbrev pub p04 : Phase
p04 = phase 4

abbrev pub p05 : Phase
p05 = phase 5

abbrev pub p06 : Phase
p06 = phase 6

abbrev pub p07 : Phase
p07 = phase 7

abbrev pub p08 : Phase
p08 = phase 8

abbrev pub p09 : Phase
p09 = phase 9

abbrev pub p10 : Phase
p10 = phase 10

abbrev pub p11 : Phase
p11 = phase 11

abbrev pub p12 : Phase
p12 = phase 12

abbrev pub p15 : Phase
p15 = phase 15

abbrev pub p18 : Phase
p18 = phase 18

-- `Phase::DELIVERED_THROUGH`
abbrev pub delivered_through : Phase
delivered_through = p02

unfoldable pub is_delivered : Phase → Bool
is_delivered p = leb p.number delivered_through.number

-- `{:02}`: at least two digits.
abbrev pub two_digits : ℕ → Text
two_digits n = (b'0' + n / 10) ∷ (b'0' + n % 10) ∷ []

-- The `Display` of a phase below 100.
unfoldable pub display : Phase → Text
display p = b'P' ∷ two_digits p.number

-- `strip_prefix` of one character
abbrev pub strip_prefix : ℕ → Text → Option Text
strip_prefix c [] = none
strip_prefix c (k ∷ s) = if k == c then some s else none

abbrev pub is_digit : ℕ → Bool
is_digit c = leb b'0' c && leb c b'9'

-- The digits of a number on the value so far, up to the largest value of the type.
unfoldable pub parse_digits : ℕ → ℕ → Text → Option ℕ
parse_digits largest n [] = some n
parse_digits largest n (c ∷ s) =
    let m = n * 10 + (c - b'0') in
    let rest = parse_digits largest m s in if is_digit c && leb m largest then rest else none

-- `str::parse` to an unsigned integer: an optional plus sign, then at least one digit.
unfoldable pub parse_unsigned : ℕ → Text → Option ℕ
parse_unsigned largest [] = none
parse_unsigned largest (c ∷ s) =
    if c == b'+'
    then elim s [ [] ↦ none | k ∷ t ↦ parse_digits largest 0 (k ∷ t) ]
    else parse_digits largest 0 (c ∷ s)

abbrev pub keep_if : (ℕ → Bool) → Option ℕ → Option ℕ
keep_if p none = none
keep_if p (some n) = if p n then some n else none

abbrev pub and_then : {A B : Type 0} → Option A → (A → Option B) → Option B
and_then none f = none
and_then (some a) f = f a

pub record PhaseParseError : Type 0 where
  pub text : Text

abbrev in_roadmap : ℕ → Bool
in_roadmap n = leb 2 n && leb n 21

abbrev to_phase : Text → Option ℕ → Outcome PhaseParseError Phase
to_phase s none = err (record { text = s })
to_phase s (some n) = ok (record { number = n })

-- `Phase::from_str`
unfoldable pub from_str : Text → Outcome PhaseParseError Phase
from_str s = to_phase s (keep_if in_roadmap (and_then (strip_prefix b'P' s) (parse_unsigned 255)))

parse_two_digits : (n : ℕ) → n ≤ 99 → parse_unsigned 255 (two_digits n) ≡ some n
unfolding parse_unsigned parse_digits
parse_two_digits n h = ground arith

-- A milestone between P02 and P21 is read back from its text.
from_str-display :
    (n : ℕ)
    → 2 ≤ n
    → n ≤ 21
    → from_str (display (record { number = n })) ≡ ok (record { number = n })
unfolding from_str display
from_str-display n low high = rw (parse_two_digits n (omega arith)) (ground arith)

-- What is read is between P02 and P21.
pub from_str-eq-ok : (s : Text) (p : Phase) → from_str s ≡ ok p → (2 ≤ p.number) × (p.number ≤ 21)
unfolding from_str
from_str-eq-ok s p h = ground arith
