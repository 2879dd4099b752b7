-- ===== src/Core/Currency.antt =====
-- `Currency` of crates/core/src/money.rs: the ISO 4217 codes and the settlement precision.
use falkr_lite.Base.{
  ℕ, ◌≡◌, ◌≢◌, refl, ◌↔◌, Bool, true, false, Option, some, List, [], ◌∷◌, arith, All,
}
use falkr_lite.Base.Text.{Text, codes, trim, to_ascii_uppercase, first_match, first_match_iff}

pub data Currency : Type 0 where
  usd eur gbp chf jpy cad aud sek nok dkk sgd inr : Currency

-- The derived `PartialEq`.
abbrev pub eq_currency : Currency → Currency → Bool
eq_currency usd usd = true
eq_currency eur eur = true
eq_currency gbp gbp = true
eq_currency chf chf = true
eq_currency jpy jpy = true
eq_currency cad cad = true
eq_currency aud aud = true
eq_currency sek sek = true
eq_currency nok nok = true
eq_currency dkk dkk = true
eq_currency sgd sgd = true
eq_currency inr inr = true
eq_currency _ _ = false

unfoldable pub code : Currency → Text
code usd = codes "USD"
code eur = codes "EUR"
code gbp = codes "GBP"
code chf = codes "CHF"
code jpy = codes "JPY"
code cad = codes "CAD"
code aud = codes "AUD"
code sek = codes "SEK"
code nok = codes "NOK"
code dkk = codes "DKK"
code sgd = codes "SGD"
code inr = codes "INR"

-- The arms of the `match` in `from_code`.
from_code_arms : List (Text × Currency)
from_code_arms =
    (codes "USD", usd)
    ∷ (codes "EUR", eur)
    ∷ (codes "GBP", gbp)
    ∷ (codes "CHF", chf)
    ∷ (codes "JPY", jpy)
    ∷ (codes "CAD", cad)
    ∷ (codes "AUD", aud)
    ∷ (codes "SEK", sek)
    ∷ (codes "NOK", nok)
    ∷ (codes "DKK", dkk)
    ∷ (codes "SGD", sgd)
    ∷ (codes "INR", inr)
    ∷ []

unfoldable pub from_code : Text → Option Currency
unfolding from_code_arms
from_code s = first_match from_code_arms (to_ascii_uppercase (trim s))

unfoldable pub minor_units : Currency → ℕ
minor_units jpy = 0
minor_units _ = 2

pub eq_currency_sound : (a b : Currency) → eq_currency a b ≡ true → a ≡ b
eq_currency_sound a b h = ground arith

pub eq_currency_refl : (a : Currency) → eq_currency a a ≡ true
eq_currency_refl a = ground arith

pub eq_currency-ne : (a b : Currency) → a ≢ b → eq_currency a b ≡ false
eq_currency-ne a b h = ground (arith, eq_currency_sound a b)

from_code_arms-IsNamed : All (λ e. e.0 ≡ code e.1) from_code_arms
unfolding from_code_arms code
from_code_arms-IsNamed = (
  refl,
  (refl, (refl, (refl, (refl, (refl, (refl, (refl, (refl, (refl, (refl, (refl, tt))))))))))),
)

first_match-code : (c : Currency) → first_match from_code_arms (code c) ≡ some c
unfolding from_code_arms code
first_match-code usd = refl
first_match-code _ = refl

-- A text is read as a currency exactly when, trimmed and in upper case, it is that currency's
-- code: no other text is taken for a currency.
pub from_code_iff :
    (s : Text) (c : Currency) → (from_code s ≡ some c) ↔ (to_ascii_uppercase (trim s) ≡ code c)
unfolding from_code
from_code_iff s c =
    first_match_iff code from_code_arms (to_ascii_uppercase (trim s)) c from_code_arms-IsNamed
      (first_match-code c)
