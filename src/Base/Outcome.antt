-- ===== src/Base/Outcome.antt =====
-- How a call of a Rust function ends: with a value, with an error value, or by a panic. The modelled
-- code panics where an operator of `Decimal` has no result, where an index is out of range, and
-- where a power of ten does not fit a `u64`.
use mathlib.Core.Path.{◌≡◌, refl}
use mathlib.Core.Logic.{◌⊎◌, inl, inr}
use mathlib.Core.Option.{Option, none, some}
use mathlib.Core.Bool.{Bool, true, false}

pub data Outcome (E A : Type 0) : Type 0 where
  ok : A → Outcome E A
  err : E → Outcome E A
  panic : Outcome E A

infixl 5 ◌>>=◌ ◌>>◌
abbrev pub ◌>>=◌ : {E A B : Type 0} → Outcome E A → (A → Outcome E B) → Outcome E B
panic >>= rest = panic
err failure >>= rest = err failure
ok got >>= rest = rest got

abbrev pub ◌>>◌ : {E A B : Type 0} → Outcome E A → Outcome E B → Outcome E B
call >> rest = call >>= λ _. rest

module _ {E A : Type 0} where
  -- `+`, `-` and `*` panic where the checked form has no value.
  abbrev pub or_panic : Option A → Outcome E A
  or_panic none = panic
  or_panic (some a) = ok a

  -- `Option::ok_or`
  abbrev pub ok_or : Option A → E → Outcome E A
  ok_or none e = err e
  ok_or (some a) e = ok a

  -- `Result::map_err`, and what `?` does to an error.
  abbrev pub map_err : {F : Type 0} → (E → F) → Outcome E A → Outcome F A
  map_err f (ok a) = ok a
  map_err f (err e) = err (f e)
  map_err f panic = panic

  abbrev pub is_ok : Outcome E A → Bool
  is_ok (ok a) = true
  is_ok _ = false

-- A guard that returns early with an error.
abbrev pub reject_if : {E : Type 0} → Bool → E → Outcome E (Unit {0})
reject_if false error = ok tt
reject_if true error = err error

-- Inversion of a call that returns a value.
pub >>=-eq-ok :
    {E A B : Type 0} (call : Outcome E A) (rest : A → Outcome E B) {returned : B}
    → (call >>= rest) ≡ ok returned
    → (got : A) × (call ≡ ok got) × (rest got ≡ ok returned)
>>=-eq-ok panic rest h = cc
>>=-eq-ok (err failure) rest h = cc
>>=-eq-ok (ok got) rest h = (got, refl, h)

-- The three ways in which a call ends, with the equation kept.
pub Outcome-cases :
    {E A : Type 0} (m : Outcome E A)
    → ((a : A) × (m ≡ ok a)) ⊎ ((e : E) × (m ≡ err e)) ⊎ (m ≡ panic)
Outcome-cases (ok a) = inl (a, refl)
Outcome-cases (err e) = inr (inl (e, refl))
Outcome-cases panic = inr (inr refl)

pub map_err-eq-ok :
    {E F A : Type 0} (f : E → F) (m : Outcome E A) {a : A} → map_err f m ≡ ok a → m ≡ ok a
map_err-eq-ok f (ok b) h = cc
map_err-eq-ok f (err e) h = cc
map_err-eq-ok f panic h = cc

pub reject_if-eq-ok : {E : Type 0} (b : Bool) (e : E) → reject_if b e ≡ ok tt → b ≡ false
reject_if-eq-ok true e h = cc
reject_if-eq-ok false e h = refl

pub ok-injective : {E A : Type 0} {a b : A} → ◌≡◌ {A = Outcome E A} (ok a) (ok b) → a ≡ b
ok-injective h = cc

pub or_panic-eq-ok : {E A : Type 0} (o : Option A) {a : A} → or_panic {E = E} o ≡ ok a → o ≡ some a
or_panic-eq-ok none h = cc
or_panic-eq-ok (some b) h = cc

pub ok_or-eq-ok : {E A : Type 0} (o : Option A) (e : E) {a : A} → ok_or o e ≡ ok a → o ≡ some a
ok_or-eq-ok none e h = cc
ok_or-eq-ok (some b) e h = cc
