-- ===== src/Core/Tests.antt =====
-- Each theorem on money, currencies and dimensions, applied to concrete values.
use falkr_lite.Base.{◌≡◌, refl, none, some, List, [], ◌∷◌, false, ◌↔◌}
use falkr_lite.Base.Int.{ℤ, pos, ◌+ℤ◌}
use falkr_lite.Base.Outcome.{ok, err}
use falkr_lite.Base.Text.{codes, trim, to_ascii_uppercase}
use falkr_lite.Decimal.Scaled.{scaled, scaled-IsExact, add}
use falkr_lite.Core.Currency.{usd, eur, code, from_code, from_code_iff}
use falkr_lite.Core.Money.{
  Money, checked_add, checked_sub, checked_min, checked_max, checked_cmp, partial_cmp, eq_money,
  try_sum, try_sum_from, zero_money,
}
use falkr_lite.Core.Money.Laws.{mismatch, mismatch_of}
use falkr_lite.Core.Money.Sum.{AllIn, total, try_sum-eq-ok}

abbrev three_usd : Money ℤ
three_usd = record { amount = pos 300; currency = usd }

abbrev five_usd : Money ℤ
five_usd = record { amount = pos 500; currency = usd }

abbrev one_eur : Money ℤ
one_eur = record { amount = pos 100; currency = eur }

abbrev two_items : List (Money ℤ)
two_items = three_usd ∷ five_usd ∷ []

min-run : checked_min three_usd five_usd ≡ ok three_usd
unfolding checked_min checked_cmp
min-run = refl

max-run : checked_max three_usd five_usd ≡ ok five_usd
unfolding checked_max checked_cmp
max-run = refl

sum-run : try_sum two_items usd ≡ ok (record { amount = pos 800; currency = usd })
unfolding try_sum try_sum_from checked_add zero_money add ◌+ℤ◌
sum-run = refl

mixed-run : try_sum (three_usd ∷ one_eur ∷ []) usd ≡ err (record { lhs = usd; rhs = eur })
unfolding try_sum try_sum_from checked_add zero_money add ◌+ℤ◌
mixed-run = refl

mismatch_example :
    let e = mismatch_of three_usd one_eur in
    (checked_add three_usd one_eur ≡ err e)
    × (checked_sub three_usd one_eur ≡ err e)
    × (checked_cmp three_usd one_eur ≡ err e)
    × (checked_min three_usd one_eur ≡ err e)
    × (checked_max three_usd one_eur ≡ err e)
    × (partial_cmp three_usd one_eur ≡ none)
    × (eq_money three_usd one_eur ≡ false)
mismatch_example = mismatch three_usd one_eur (λ e. cc)

try_sum-eq-ok_example :
    AllIn usd two_items × (usd ≡ usd) × (pos 800 ≡ total scaled-IsExact two_items)
try_sum-eq-ok_example = try_sum-eq-ok scaled-IsExact two_items usd sum-run

from_code_iff_example :
    (from_code (codes " usd ") ≡ some usd) ↔ (to_ascii_uppercase (trim (codes " usd ")) ≡ code usd)
from_code_iff_example = from_code_iff (codes " usd ") usd
