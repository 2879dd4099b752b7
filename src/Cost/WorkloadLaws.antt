-- ===== src/Cost/WorkloadLaws.antt =====
-- `function_code_for` of crates/cost-spine/src/attribution/tags.rs, in terms of the words.
use falkr_lite.Base.{
  ◌≡◌, ◌↔◌, refl, Bool-cases, any, true, if◌then◌else◌, Option, none, some, List, [], ◌∷◌, inl, inr,
  arith, ◌≢◌, ◌⊎◌,
}
use falkr_lite.Base.Text.{Text, codes, eq_text, eq_text_iff, trim, to_ascii_lowercase}
use falkr_lite.Base.Map.{text_key}
use falkr_lite.Core.Dimensions.{Uuid, FunctionCode, cogs, rn_d, op_ex}
use falkr_lite.Cost.Attribution.{
  function_code_for, serving_words, research_words, internal_words, is_present,
}

-- One of some words.
abbrev pub OneOf : Text → List Text → Type 0
OneOf w [] = ⊥
OneOf w (x ∷ words) = (w ≡ x) ⊎ OneOf w words

any-OneOf : (w : Text) (words : List Text) → (any (eq_text w) words ≡ true) ↔ OneOf w words
any-OneOf w [] = (λ h. cc, λ h. absurd h)
any-OneOf w (x ∷ words) =
    let (found, known) = any-OneOf w words in
    let (sound, complete) = eq_text_iff w x in
    (
      λ h. elim (Bool-cases (eq_text w x)) [
        | inl same ↦ inl (sound same)
        | inr other ↦ inr (found (rw other at h))
      ],
      λ h. elim h [ inl same ↦ rw (complete same) refl | inr later ↦ ground (arith, known later) ],
    )

-- What a known run says of the function.
abbrev pub FromRun : Option Uuid → FunctionCode → Type 0
FromRun run fc = ((run ≢ none) × (fc ≡ rn_d)) ⊎ ((run ≡ none) × (fc ≡ op_ex))

-- What a workload, in lower case, says of the function: it serves customers, or it is research, or
-- it is internal; any other word says nothing.
abbrev pub FromWorkload : Text → Option Uuid → FunctionCode → Type 0
FromWorkload w run fc =
    let serving =
      codes "inference" ∷ codes "serving" ∷ codes "production" ∷ codes "prod" ∷ codes "api" ∷ [] in
    let research =
      codes "training"
      ∷ codes "train"
      ∷ codes "experiment"
      ∷ codes "eval"
      ∷ codes "finetune"
      ∷ codes "fine-tune"
      ∷ [] in
    let internal = codes "internal" ∷ codes "tooling" ∷ codes "platform" ∷ codes "ci" ∷ [] in
    (OneOf w serving × (fc ≡ cogs))
    ⊎ (OneOf w research × (fc ≡ rn_d))
    ⊎ (OneOf w internal × (fc ≡ op_ex))
    ⊎ ((¬ OneOf w serving) × (¬ OneOf w research) × (¬ OneOf w internal) × FromRun run fc)

pub FromRun-is_present : (run : Option Uuid) → FromRun run (if is_present run then rn_d else op_ex)
FromRun-is_present none = inr (refl, refl)
FromRun-is_present (some id) = inl (λ e. cc, refl)

pub function_code_for-FromWorkload :
    (v : Text) (run : Option Uuid)
    → FromWorkload (to_ascii_lowercase (trim v)) run (function_code_for (some v) (is_present run))
unfolding function_code_for
function_code_for-FromWorkload v run =
    let w = to_ascii_lowercase (trim v) in
    elim (Bool-cases (any (eq_text w) serving_words)) [
      | inl s ↦ inl ((any-OneOf w serving_words).0 s, rw s refl)
      | inr ns ↦ elim (Bool-cases (any (eq_text w) research_words)) [
        | inl r ↦ inr (inl ((any-OneOf w research_words).0 r, rw (ns, r) refl))
        | inr nr ↦ elim (Bool-cases (any (eq_text w) internal_words)) [
          | inl i ↦ inr (inr (inl ((any-OneOf w internal_words).0 i, rw (ns, nr, i) refl)))
          | inr ni ↦ inr (
              inr (
                inr (
                  λ h. cc (ns, (any-OneOf w serving_words).1 h),
                  λ h. cc (nr, (any-OneOf w research_words).1 h),
                  λ h. cc (ni, (any-OneOf w internal_words).1 h),
                  rw (ns, nr, ni) (FromRun-is_present run),
                )))
        ]
      ]
    ]
