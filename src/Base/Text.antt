-- ===== src/Base/Text.antt =====
-- Text as a list of code points, with what the code uses of Rust's `str`: equality, order,
-- `trim`, ASCII case mapping, `split_once` on one character, and the first arm of a `match`.
use Prim.Native.Char.{code}
use Prim.Native.String.{String}
use Prim.Native.Nat.{ℕ, ◌+◌, ◌-◌}
use mathlib.Core.Path.{◌≡◌, refl}
use mathlib.Core.Logic.{◌↔◌, inl, inr}
use mathlib.Core.Bool.{Bool, true, false, ◌&&◌, ◌||◌}
use mathlib.Core.Option.{Option, none, some}
use mathlib.Core.List.{List, [], ◌∷◌, map}
use native.Mathlib.Omega.{arith}
use falkr_lite.Base.Tests.{ltb, leb, ◌==◌, if◌then◌else◌, Bool-cases}
use falkr_lite.Base.Lists.{is_empty, All}

abbrev pub Text : Type 0
Text = List ℕ

abbrev pub codes : String → Text
codes String.[] = []
codes (String.◌∷◌ c s) = code c ∷ codes s

abbrev pub eq_text : Text → Text → Bool
eq_text [] [] = true
eq_text [] (d ∷ t) = false
eq_text (c ∷ s) [] = false
eq_text (c ∷ s) (d ∷ t) = (c == d) && eq_text s t

-- The order of `str`, which agrees with that of the code points.
abbrev pub lt_text : Text → Text → Bool
lt_text [] [] = false
lt_text [] (d ∷ t) = true
lt_text (c ∷ s) [] = false
lt_text (c ∷ s) (d ∷ t) = ltb c d || ((c == d) && lt_text s t)

pub eq_text_sound : (s t : Text) → eq_text s t ≡ true → s ≡ t
eq_text_sound [] [] h = refl
eq_text_sound [] (d ∷ t) h = cc
eq_text_sound (c ∷ s) [] h = cc
eq_text_sound (c ∷ s) (d ∷ t) h = ground (arith, eq_text_sound s t)

pub eq_text_refl : (s : Text) → eq_text s s ≡ true
eq_text_refl [] = refl
eq_text_refl (c ∷ s) = ground (arith, eq_text_refl s)

pub eq_text_iff : (s t : Text) → (eq_text s t ≡ true) ↔ (s ≡ t)
eq_text_iff s t = (eq_text_sound s t, λ e. rw e (eq_text_refl t))

-- `char::is_whitespace`, the Unicode property White_Space.
abbrev pub is_whitespace : ℕ → Bool
is_whitespace c =
    (leb 9 c && leb c 13)
    || (c == 0x20)
    || (c == 0x85)
    || (c == 0xA0)
    || (c == 0x1680)
    || (leb 0x2000 c && leb c 0x200A)
    || (c == 0x2028)
    || (c == 0x2029)
    || (c == 0x202F)
    || (c == 0x205F)
    || (c == 0x3000)

unfoldable pub trim_start : Text → Text
trim_start [] = []
trim_start (c ∷ s) = if is_whitespace c then trim_start s else c ∷ s

unfoldable pub trim_end : Text → Text
trim_end [] = []
trim_end (c ∷ s) = let r = trim_end s in if is_whitespace c && is_empty r then [] else c ∷ r

unfoldable pub trim : Text → Text
unfolding trim_start trim_end
trim s = trim_end (trim_start s)

abbrev pub ascii_upper : ℕ → ℕ
ascii_upper c = if leb b'a' c && leb c b'z' then c - 32 else c

abbrev pub ascii_lower : ℕ → ℕ
ascii_lower c = if leb b'A' c && leb c b'Z' then c + 32 else c

abbrev pub to_ascii_uppercase : Text → Text
to_ascii_uppercase = map ascii_upper

abbrev pub to_ascii_lowercase : Text → Text
to_ascii_lowercase = map ascii_lower

-- The text before the first `sep` and the text after it.
unfoldable pub split_once : ℕ → Text → Option (Text × Text)
split_once sep [] = none
split_once sep (c ∷ s) =
    let rest = split_once sep s in
    if c == sep
    then some ([], s)
    else elim rest [ none ↦ none | some (before, after) ↦ some (c ∷ before, after) ]

-- A `match` on a text whose arms are literals: the first arm that fits.
abbrev pub first_match : {A : Type 0} → List (Text × A) → Text → Option A
first_match [] t = none
first_match ((k, a) ∷ arms) t = if eq_text t k then some a else first_match arms t

-- Where every arm's literal is the name of its value, a match finds a value of that name.
pub first_match_sound :
    {A : Type 0} (name : A → Text) (arms : List (Text × A)) (t : Text) {a : A}
    → All (λ e. e.0 ≡ name e.1) arms
    → first_match arms t ≡ some a
    → t ≡ name a
first_match_sound name [] t h e = cc
first_match_sound name ((k, b) ∷ arms) t h e = elim (Bool-cases (eq_text t k)) [
  | inl same ↦ ground (arith, eq_text_sound t k same)
  | inr other ↦ first_match_sound name arms t h.1 (rw other at e)
]

-- A parser by arms inverts a printer exactly: both directions.
pub first_match_iff :
    {A : Type 0} (name : A → Text) (arms : List (Text × A)) (t : Text) (a : A)
    → All (λ e. e.0 ≡ name e.1) arms
    → first_match arms (name a) ≡ some a
    → (first_match arms t ≡ some a) ↔ (t ≡ name a)
first_match_iff name arms t a named found = (first_match_sound name arms t named, λ e. rw e found)
