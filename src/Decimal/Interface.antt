-- ===== src/Decimal/Interface.antt =====
-- The operations of `rust_decimal::Decimal` that the code calls, and the laws that it relies on.
use falkr_lite.Base.{ℕ, ◌≡◌, Bool, true, Option, some, Ordering, ◌≤◌}
use falkr_lite.Base.Int.{ℤ, pos, ◌+ℤ◌, ◌-ℤ◌, ◌≤ℤ◌, compare_ℤ, eq_ℤ, ltb_ℤ, abs_ℤ}

-- `+`, `-` and `*` are the checked forms with a panic in place of `None`.
pub record Arithmetic (D : Type 0) : Type 0 where
  pub zero : D
  pub one : D
  pub checked_add : D → D → Option D
  pub checked_sub : D → D → Option D
  pub checked_mul : D → D → Option D
  pub checked_div : D → D → Option D
  pub neg : D → D
  pub abs : D → D
  pub is_zero : D → Bool
  pub is_sign_negative : D → Bool
  pub cmp : D → D → Ordering
  -- `round_dp`, which rounds half to even
  pub round_dp : ℕ → D → D
  -- `round_dp_with_strategy(dp, RoundingStrategy::ToZero)`
  pub truncate_dp : ℕ → D → D
  -- `Decimal::new(n, scale)`, that is n / 10^scale
  pub of_scaled : ℤ → ℕ → D

-- The value of a decimal, and the laws of exact arithmetic. Overflow is a missing result; a
-- result that is there is exact. `limit` bounds a range in which sums have a result.
pub record IsExact {D : Type 0} (d : Arithmetic D) : Type 0 where
  pub units : D → ℤ
  pub limit : ℕ
  pub units-zero : units d.zero ≡ pos 0
  pub units-checked_add :
      (a b : D) {c : D} → d.checked_add a b ≡ some c → units c ≡ units a +ℤ units b
  pub units-checked_sub :
      (a b : D) {c : D} → d.checked_sub a b ≡ some c → units c ≡ units a -ℤ units b
  pub units-neg : (a : D) → units (d.neg a) ≡ pos 0 -ℤ units a
  pub units-is_zero : (a : D) → d.is_zero a ≡ eq_ℤ (units a) (pos 0)
  pub units-cmp : (a b : D) → d.cmp a b ≡ compare_ℤ (units a) (units b)
  pub is_sign_negative-of_lt :
      (a : D) → ltb_ℤ (units a) (pos 0) ≡ true → d.is_sign_negative a ≡ true
  pub is_sign_negative-le : (a : D) → d.is_sign_negative a ≡ true → units a ≤ℤ pos 0
  pub checked_add_in_range :
      (a b : D) → abs_ℤ (units a +ℤ units b) ≤ limit → (c : D) × (d.checked_add a b ≡ some c)
  pub checked_sub_in_range :
      (a b : D) → abs_ℤ (units a -ℤ units b) ≤ limit → (c : D) × (d.checked_sub a b ≡ some c)
  pub units-abs : (a : D) → units (d.abs a) ≡ pos (abs_ℤ (units a))
