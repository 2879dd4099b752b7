-- ===== src/Base/KeySet.antt =====
-- `BTreeSet` as a map to the unit type, built by insertions.
use falkr_lite.Base.{◌≢◌, none, List, [], ◌∷◌, ◌++◌, All, Bool-cases, inl, inr, refl, ◌⊎◌}
use falkr_lite.Base.Map.{Key, Map, keys, lookup, insert, lookup-insert, lookup-insert-ne-none}

module _ {K : Type 0} ⦃o : Key K⦄ where
  -- `iter().collect::<BTreeSet<_>>()`, from a set on.
  unfoldable pub collect_keys : List K → Map K (Unit {0}) → Map K (Unit {0})
  collect_keys [] s = s
  collect_keys (k ∷ ks) s = collect_keys ks (insert k tt s)

  -- What holds of the keys of a map holds of each key that it has.
  pub keys-All-lookup :
      {V : Type 0} (P : K → Type 0) (m : Map K V) (k : K) → All P (keys m) → lookup k m ≢ none → P k
  keys-All-lookup P [] k all h = absurd (h refl)
  keys-All-lookup P ((j, v) ∷ m) k all h = elim (Bool-cases (o.same k j)) [
    | inl same ↦ rw ((o.same_iff k j).0 same) all.0
    | inr other ↦ keys-All-lookup P m k all.1 (rw other at h)
  ]

  collect_keys-keeps :
      (ks : List K) (s : Map K (Unit {0})) (k : K)
      → lookup k s ≢ none
      → lookup k (collect_keys ks s) ≢ none
  unfolding collect_keys
  collect_keys-keeps [] s k h = h
  collect_keys-keeps (j ∷ ks) s k h =
      collect_keys-keeps ks (insert j tt s) k (lookup-insert-ne-none k j tt s h)

  -- A collected set has every key of the maps that it was collected from.
  pub collect_keys-has :
      {A B : Type 0} (m : Map K A) (n : Map K B) (s : Map K (Unit {0})) (k : K)
      → (lookup k m ≢ none) ⊎ (lookup k n ≢ none)
      → lookup k (collect_keys (keys m ++ keys n) s) ≢ none
  unfolding collect_keys
  collect_keys-has [] [] s k (inl h) = absurd (h refl)
  collect_keys-has [] [] s k (inr h) = absurd (h refl)
  collect_keys-has [] ((j, w) ∷ n) s k (inl h) = absurd (h refl)
  collect_keys-has {A = A} [] ((j, w) ∷ n) s k (inr h) = elim (Bool-cases (o.same k j)) [
    | inl same ↦
        collect_keys-keeps (keys n) (insert j tt s) k (rw (lookup-insert k j tt s, same) (λ e. cc))
    | inr other ↦ collect_keys-has {A = A} [] n (insert j tt s) k (inr (rw other at h))
  ]
  collect_keys-has ((j, v) ∷ m) n s k h = elim (Bool-cases (o.same k j)) [
    | inl same ↦
        collect_keys-keeps (keys m ++ keys n) (insert j tt s) k
          (rw (lookup-insert k j tt s, same) (λ e. cc))
    | inr other ↦ collect_keys-has m n (insert j tt s) k (rw other at h)
  ]
