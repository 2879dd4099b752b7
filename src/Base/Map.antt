-- ===== src/Base/Map.antt =====
-- `BTreeMap` as an association list. An insertion replaces the value of a key that is there, and
-- puts a new key before the first larger one, so a map built by insertions is in key order.
use falkr_lite.Base.{
  ℕ, ◌≡◌, ◌≢◌, refl, ◌∙◌, ◌↔◌, ◌⊎◌, inl, inr, Bool-cases, Bool, true, false, Option, none, some,
  List, [], ◌∷◌, arith, ltb, ◌==◌, ==_iff, if◌then◌else◌, map,
}
use falkr_lite.Base.Text.{Text, eq_text, lt_text, eq_text_iff}

-- An ordered key: `Ord` as far as a map uses it.
pub record Key (K : Type 0) : Type 0 where
  pub same : K → K → Bool
  pub less : K → K → Bool
  pub same_iff : (a b : K) → (same a b ≡ true) ↔ (a ≡ b)

instance abbrev pub nat_key : Key ℕ
nat_key = record { same = ◌==◌; less = ltb; same_iff = ==_iff }

instance abbrev pub text_key : Key Text
text_key = record { same = eq_text; less = lt_text; same_iff = eq_text_iff }

abbrev pub Map : Type 0 → Type 0 → Type 0
Map K V = List (K × V)

module _ {K V : Type 0} where
  abbrev pub keys : Map K V → List K
  keys = map (λ e. e.0)

  abbrev pub values : Map K V → List V
  values = map (λ e. e.1)

module _ {K V : Type 0} ⦃o : Key K⦄ where
  -- `BTreeMap::get`
  abbrev pub lookup : K → Map K V → Option V
  lookup k [] = none
  lookup k ((j, v) ∷ m) = if o.same k j then some v else lookup k m

  abbrev pub contains_key : K → Map K V → Bool
  contains_key k m = elim (lookup k m) [ none ↦ false | some _ ↦ true ]

  abbrev pub replace : K → V → Map K V → Map K V
  replace k v [] = []
  replace k v ((j, w) ∷ m) = if o.same k j then (k, v) ∷ m else (j, w) ∷ replace k v m

  abbrev pub place : K → V → Map K V → Map K V
  place k v [] = (k, v) ∷ []
  place k v ((j, w) ∷ m) = if o.less k j then (k, v) ∷ (j, w) ∷ m else (j, w) ∷ place k v m

  -- `BTreeMap::insert`
  unfoldable pub insert : K → V → Map K V → Map K V
  insert k v m = if contains_key k m then replace k v m else place k v m

  -- `BTreeMap::remove`
  unfoldable pub remove : K → Map K V → Map K V
  remove k [] = []
  remove k ((j, v) ∷ m) = if o.same k j then m else (j, v) ∷ remove k m

module _ {K : Type 0} ⦃o : Key K⦄ where
  pub same_self : (k : K) → o.same k k ≡ true
  same_self k = (o.same_iff k k).1 refl

  -- Two keys that are the same are the same to every third key.
  same_cong : (k j i : K) → o.same k j ≡ true → o.same i k ≡ o.same i j
  same_cong k j i h = rw ((o.same_iff k j).0 h)

  same_join : (k j i : K) → o.same i j ≡ true → o.same i k ≡ true → o.same k j ≡ true
  same_join k j i h g = rw (← (o.same_iff i k).0 g) h

module _ {K V : Type 0} ⦃o : Key K⦄ where
  lookup-replace :
      (i k : K) (v : V) (m : Map K V)
      → contains_key k m ≡ true
      → lookup i (replace k v m) ≡ (if o.same i k then some v else lookup i m)
  lookup-replace i k v [] h = cc
  lookup-replace i k v ((j, w) ∷ m) h =
      ground (arith, lookup-replace i k v m, same_cong k j i, same_join k j i)

  lookup-place :
      (i k : K) (v : V) (m : Map K V)
      → lookup k m ≡ none
      → lookup i (place k v m) ≡ (if o.same i k then some v else lookup i m)
  lookup-place i k v [] h = refl
  lookup-place i k v ((j, w) ∷ m) h = ground (arith, lookup-place i k v m, same_join k j i)

  -- Reading back what an insertion wrote, and what it left alone.
  pub lookup-insert :
      (i k : K) (v : V) (m : Map K V)
      → lookup i (insert k v m) ≡ (if o.same i k then some v else lookup i m)
  unfolding insert
  lookup-insert i k v m = ground (arith, lookup-replace i k v m, lookup-place i k v m)

  pub lookup-insert_self : (k : K) (v : V) (m : Map K V) → lookup k (insert k v m) ≡ some v
  lookup-insert_self k v m = rw (lookup-insert k k v m, same_self k)

  pub lookup-insert_other :
      (i k : K) (v : V) (m : Map K V) → i ≢ k → lookup i (insert k v m) ≡ lookup i m
  lookup-insert_other i k v m other = elim (Bool-cases (o.same i k)) [
    | inl same ↦ absurd (other ((o.same_iff i k).0 same))
    | inr differs ↦ lookup-insert i k v m ∙ rw differs refl
  ]

  -- What is found after an insertion is the new value, or was there before.
  pub lookup-insert_or :
      (i k : K) (v w : V) (m : Map K V)
      → lookup i (insert k v m) ≡ some w
      → (v ≡ w) ⊎ (lookup i m ≡ some w)
  lookup-insert_or i k v w m h = ground (arith, lookup-insert i k v m)

  -- An insertion removes no key.
  pub lookup-insert-ne-none :
      (i k : K) (v : V) (m : Map K V) → lookup i m ≢ none → lookup i (insert k v m) ≢ none
  lookup-insert-ne-none i k v m h = ground (arith, lookup-insert i k v m)

  -- The keys after an insertion are the new key and those before.
  pub lookup-insert-ne-none_or :
      (i k : K) (v : V) (m : Map K V)
      → lookup i (insert k v m) ≢ none
      → (i ≡ k) ⊎ (lookup i m ≢ none)
  lookup-insert-ne-none_or i k v m h = elim (Bool-cases (o.same i k)) [
    | inl same ↦ inl ((o.same_iff i k).0 same)
    | inr other ↦ inr (λ e. h (lookup-insert i k v m ∙ rw (other, e) refl))
  ]

  pub contains_key-ne-none : (k : K) (m : Map K V) → contains_key k m ≡ true → lookup k m ≢ none
  contains_key-ne-none k m h = ground arith

  pub contains_key-insert : (k : K) (v : V) (m : Map K V) → contains_key k (insert k v m) ≡ true
  contains_key-insert k v m = ground (arith, lookup-insert_self k v m)
