-- ===== src/Cost/TagLaws.antt =====
-- The closures of `attribute` of crates/cost-spine/src/attribution/tags.rs that look a tag up: what
-- counts as its value, and which key gives it.
use falkr_lite.Base.{
  ◌≡◌, ◌↔◌, sym, subst, is_empty, if◌then◌else◌, Option, none, some, List, [], ◌∷◌, ◌++◌, All,
  Option-cases, inl, inr, ◌∙◌, ap, some-injective, ◌≢◌,
}
use falkr_lite.Base.Text.{Text, trim}
use falkr_lite.Base.Map.{Map, text_key, lookup}
use falkr_lite.Base.Outcome.{ok, ok-injective}
use falkr_lite.Core.Dimensions.{Uuid}
use falkr_lite.Cost.Attribution.{Json, tag_of, find_tag, parse_id}

module _ {V : Type 0} (j : Json V) (tags : Map Text V) where
  -- The value of a key is a string that is not blank, without the space around it.
  abbrev pub HasValue : Text → Text → Type 0
  HasValue k v =
      (u : V) × (s : Text) × (lookup k tags ≡ some u)
      × (j.as_str u ≡ some s)
      × (v ≡ trim s)
      × (v ≢ [])

  abbrev pub HasNone : Text → Type 0
  HasNone k = (v : Text) → ¬ HasValue k v

  -- The first of some keys that has a value.
  abbrev pub IsFirst : List Text → Text → Text → Type 0
  IsFirst candidates k v =
      (before : List Text) × (after : List Text) × (candidates ≡ before ++ k ∷ after)
      × All HasNone before
      × HasValue k v

  tag_of_iff : (k v : Text) → (tag_of j tags k ≡ some v) ↔ HasValue k v
  tag_of_iff k v = (
    λ h. elim (Option-cases (lookup k tags)) [
      | inl missing ↦ cc (rw (missing, tag_of) at h)
      | inr (u, here) ↦ elim (Option-cases (j.as_str u)) [
        | inl other ↦ cc (rw (here, tag_of, other) at h)
        | inr (s, text) ↦
            let kept = kept_value (trim s) (rw (here, tag_of, text) at h) in
            (u, s, here, text, kept.0, kept.1)
      ]
    ],
    λ (u, s, here, text, value, filled). rw (here, tag_of, text) (keep_value (trim s) value filled),
  )
    where
      kept_value : (t : Text) → (if is_empty t then none else some t) ≡ some v → (v ≡ t) × (v ≢ [])
      kept_value [] h = cc
      kept_value (c ∷ t) h = (sym (some-injective h), λ e. cc (some-injective h, e))

      keep_value : (t : Text) → v ≡ t → v ≢ [] → (if is_empty t then none else some t) ≡ some v
      keep_value [] e h = absurd (h e)
      keep_value (c ∷ t) e h = ap some (sym e)

  tag_of-eq-none : (k : Text) → tag_of j tags k ≡ none → HasNone k
  tag_of-eq-none k h v has = cc (h, (tag_of_iff k v).1 has)

  pub find_tag-IsFirst :
      (candidates : List Text) {k v : Text}
      → find_tag j tags candidates ≡ some (k, v)
      → IsFirst candidates k v
  unfolding find_tag
  find_tag-IsFirst [] h = cc
  find_tag-IsFirst (c ∷ cs) {k} {v} h = elim (Option-cases (tag_of j tags c)) [
    | inl absent ↦
        let (before, after, split, skipped, here) =
          find_tag-IsFirst cs (rw (absent, find_tag) at h) in
        (c ∷ before, after, ap (λ t. c ∷ t) split, (tag_of-eq-none c absent, skipped), here)
    | inr (w, present) ↦
        let same : (c, w) ≡ (k, v) = some-injective (rw (present, find_tag) at h) in
        let key = ap (λ p. p.0) same in
        (
          [],
          cs,
          ap (λ t. t ∷ cs) key,
          tt,
          (tag_of_iff k v).0 (rw (← key) (present ∙ ap some (ap (λ p. p.1) same))),
        )
  ]

  pub find_tag-eq-none :
      (candidates : List Text) → find_tag j tags candidates ≡ none → All HasNone candidates
  unfolding find_tag
  find_tag-eq-none [] h = tt
  find_tag-eq-none (c ∷ cs) h = elim (Option-cases (tag_of j tags c)) [
    | inl absent ↦ (tag_of-eq-none c absent, find_tag-eq-none cs (rw (absent, find_tag) at h))
    | inr (w, present) ↦ cc (rw (present, find_tag) at h)
  ]

  -- An identifier that is missing is missing from every key; one that is there is read from the
  -- value of the first key that has one.
  abbrev pub ReadsId : List Text → Option Uuid → Type 0
  ReadsId candidates none = All HasNone candidates
  ReadsId candidates (some id) =
      (k : Text) × (v : Text) × IsFirst candidates k v × (j.parse_str v ≡ some id)

  pub parse_id-ReadsId :
      (candidates : List Text) (what : Text) {o : Option Uuid}
      → parse_id j (find_tag j tags candidates) what ≡ ok o
      → ReadsId candidates o
  unfolding parse_id
  parse_id-ReadsId candidates what h = elim (Option-cases (find_tag j tags candidates)) [
    | inl absent ↦
        subst (ReadsId candidates) (ok-injective (rw (absent, parse_id) at h))
          (find_tag-eq-none candidates absent)
    | inr ((k, v), present) ↦ elim (Option-cases (j.parse_str v)) [
      | inl malformed ↦ cc (rw (present, parse_id, malformed) at h)
      | inr (id, read) ↦
          subst (ReadsId candidates) (ok-injective (rw (present, parse_id, read) at h))
            (k, v, find_tag-IsFirst candidates present, read)
    ]
  ]
