-- ===== src/Base/MapSum.antt =====
-- A sum over the values of a map, and what an insertion does to it.
use falkr_lite.Base.{◌≡◌, refl, Option, none, some, [], ◌∷◌, arith, Option-cases, inl, inr, map}
use falkr_lite.Base.Int.{ℤ, pos, ◌+ℤ◌, int_laws, +ℤ-zero, sum_ℤ}
use falkr_lite.Base.Map.{Key, Map, values, lookup, replace, place, insert}

-- What the value under a key counts for, and zero where there is none.
abbrev pub weight : {V : Type 0} → (V → ℤ) → Option V → ℤ
weight g none = pos 0
weight g (some v) = g v

module _ {K V : Type 0} (g : V → ℤ) where
  abbrev pub sum_map : Map K V → ℤ
  sum_map [] = pos 0
  sum_map ((k, v) ∷ m) = g v +ℤ sum_map m

module _ {K V : Type 0} ⦃o : Key K⦄ (g : V → ℤ) where
  sum_map-replace :
      (k : K) (v old : V) (m : Map K V)
      → lookup k m ≡ some old
      → sum_map g (replace k v m) +ℤ g old ≡ sum_map g m +ℤ g v
  sum_map-replace k v old [] e = cc
  sum_map-replace k v old ((j, w) ∷ m) e = grind (int_laws, sum_map-replace k v old m)

  sum_map-place : (k : K) (v : V) (m : Map K V) → sum_map g (place k v m) ≡ sum_map g m +ℤ g v
  sum_map-place k v [] = omega int_laws
  sum_map-place k v ((j, w) ∷ m) = grind (int_laws, sum_map-place k v m)

  insert-eq-place : (k : K) (v : V) (m : Map K V) → lookup k m ≡ none → insert k v m ≡ place k v m
  unfolding insert
  insert-eq-place k v m e = ground arith

  insert-eq-replace :
      (k : K) (v old : V) (m : Map K V) → lookup k m ≡ some old → insert k v m ≡ replace k v m
  unfolding insert
  insert-eq-replace k v old m e = ground arith

  pub sum_map-insert :
      (k : K) (v : V) (m : Map K V)
      → sum_map g (insert k v m) +ℤ weight g (lookup k m) ≡ sum_map g m +ℤ g v
  sum_map-insert k v m = elim (Option-cases (lookup k m)) [
    | inl absent ↦
        rw (absent, insert-eq-place k v m absent, sum_map-place k v m)
          (+ℤ-zero (sum_map g m +ℤ g v))
    | inr (old, present) ↦
        rw (present, insert-eq-replace k v old m present) (sum_map-replace k v old m present)
  ]

pub sum_ℤ-values : {K V : Type 0} (g : V → ℤ) (m : Map K V) → sum_ℤ (map g (values m)) ≡ sum_map g m
sum_ℤ-values g [] = refl
sum_ℤ-values g ((k, v) ∷ m) = rw (sum_ℤ-values g m) refl
