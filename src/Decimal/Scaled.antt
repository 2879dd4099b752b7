-- ===== src/Decimal/Scaled.antt =====
-- A concrete decimal: whole numbers of units of 10^-28, below 10^44 in magnitude. It shows that
-- the laws of the interface can be met, and the examples are evaluated on it.
use falkr_lite.Base.{
  ℕ, ◌≡◌, ◌≤◌, refl, true, Option, some, none, ◌*◌, ◌/◌, ◌%◌, ◌^◌, ◌-◌, arith, ◌==◌, leb, ltb,
  if◌then◌else◌, ◌+◌,
}
use falkr_lite.Base.Int.{
  ℤ, pos, pos_part, neg_part, sub_ℕ, ◌+ℤ◌, ◌-ℤ◌, ◌*ℤ◌, ◌≤ℤ◌, compare_ℤ, eq_ℤ, ltb_ℤ, abs_ℤ,
}
use falkr_lite.Decimal.Interface.{Arithmetic, IsExact}

abbrev scale_one : ℕ
scale_one = 10 ^ 28

abbrev max_units : ℕ
max_units = 10 ^ 44

abbrev in_range : ℤ → Option ℤ
in_range c = if leb (abs_ℤ c) max_units then some c else none

-- A function of magnitudes, carried over to both signs.
abbrev on_magnitude : (ℕ → ℕ) → ℤ → ℤ
on_magnitude f a = sub_ℕ (f (pos_part a)) (f (neg_part a))

-- Half to even, to a multiple of `step`.
abbrev half_even : ℕ → ℕ → ℕ
half_even step n =
    let q = n / step in
    let r = 2 * (n % step) in
    if ltb r step
    then q * step
    else if ltb step r
    then (q + 1) * step
    else if q % 2 == 0
    then q * step
    else (q + 1) * step

unfoldable pub add : ℤ → ℤ → Option ℤ
add a b = in_range (a +ℤ b)

unfoldable pub subtract : ℤ → ℤ → Option ℤ
subtract a b = in_range (a -ℤ b)

unfoldable pub multiply : ℤ → ℤ → Option ℤ
multiply a b =
    let p = a *ℤ b in
    if abs_ℤ p % scale_one == 0 then in_range (on_magnitude (λ n. n / scale_one) p) else none

unfoldable pub divide : ℤ → ℤ → Option ℤ
divide a b =
    if eq_ℤ b (pos 0)
    then none
    else in_range (
        sub_ℕ (pos_part a * scale_one / pos_part b + neg_part a * scale_one / neg_part b)
          (pos_part a * scale_one / neg_part b + neg_part a * scale_one / pos_part b))

unfoldable pub of_scaled : ℤ → ℕ → ℤ
of_scaled n s = n *ℤ pos (10 ^ (28 - s))

instance abbrev pub scaled : Arithmetic ℤ
scaled = record {
  zero = pos 0;
  one = pos scale_one;
  checked_add = add;
  checked_sub = subtract;
  checked_mul = multiply;
  checked_div = divide;
  neg = λ a. pos 0 -ℤ a;
  abs = λ a. pos (abs_ℤ a);
  is_zero = λ a. eq_ℤ a (pos 0);
  is_sign_negative = λ a. ltb_ℤ a (pos 0);
  cmp = compare_ℤ;
  round_dp = λ dp. on_magnitude (half_even (10 ^ (28 - dp)));
  truncate_dp = λ dp. on_magnitude (λ n. n - n % 10 ^ (28 - dp));
  of_scaled = of_scaled;
}

in_range-eq : (a : ℤ) {c : ℤ} → in_range a ≡ some c → c ≡ a
in_range-eq a h = ground arith

in_range-some : (a : ℤ) → abs_ℤ a ≤ max_units → (c : ℤ) × (in_range a ≡ some c)
in_range-some a h = (a, ground arith)

pub add-eq : (a b : ℤ) {c : ℤ} → add a b ≡ some c → c ≡ a +ℤ b
unfolding add
add-eq a b h = in_range-eq (a +ℤ b) h

pub subtract-eq : (a b : ℤ) {c : ℤ} → subtract a b ≡ some c → c ≡ a -ℤ b
unfolding subtract
subtract-eq a b h = in_range-eq (a -ℤ b) h

pub negative-le : (a : ℤ) → ltb_ℤ a (pos 0) ≡ true → a ≤ℤ pos 0
negative-le a h = ground arith

pub add_in_range : (a b : ℤ) → abs_ℤ (a +ℤ b) ≤ max_units → (c : ℤ) × (add a b ≡ some c)
unfolding add
add_in_range a b h = in_range-some (a +ℤ b) h

pub subtract_in_range : (a b : ℤ) → abs_ℤ (a -ℤ b) ≤ max_units → (c : ℤ) × (subtract a b ≡ some c)
unfolding subtract
subtract_in_range a b h = in_range-some (a -ℤ b) h

abbrev pub scaled-IsExact : IsExact scaled
scaled-IsExact = record {
  units = λ a. a;
  limit = max_units;
  units-zero = refl;
  units-checked_add = λ a b h. add-eq a b h;
  units-checked_sub = λ a b h. subtract-eq a b h;
  units-neg = λ a. refl;
  units-is_zero = λ a. refl;
  units-cmp = λ a b. refl;
  is_sign_negative-of_lt = λ a h. h;
  is_sign_negative-le = negative-le;
  checked_add_in_range = add_in_range;
  checked_sub_in_range = subtract_in_range;
  units-abs = λ a. refl;
}
