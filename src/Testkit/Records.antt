-- ===== src/Testkit/Records.antt =====
-- The entry records of an execution in crates/testkit/src/runner.rs against the entries of the
-- aggregate: the runner's own mirroring of a reversal agrees with that of `apply_event`.
use falkr_lite.Base.{
  ℕ, suc, ◌≤◌, ◌≡◌, ◌≢◌, sym, ap, ◌∙◌, none, some, List, [], ◌∷◌, ◌++◌, All, arith, inl, inr,
  Option-cases, Bool-cases, some-injective, ◌==◌, ==_iff,
}
use falkr_lite.Base.Text.{Text, eq_text}
use falkr_lite.Base.Map.{Map, nat_key, lookup, insert, lookup-insert, lookup-insert_self}
use falkr_lite.Decimal.{Arithmetic}
use falkr_lite.Core.Dimensions.{Uuid}
use falkr_lite.Ledger.{JournalLine, LedgerState, post_lines, post}
use falkr_lite.Testkit.Runner.{Environment, EntryRecord, find_ref, find_entry}

All-snoc :
    {A : Type 0} (P : A → Type 0) (xs : List A) (y : A) → All P xs → P y → All P (xs ++ (y ∷ []))
All-snoc P [] y all p = (p, tt)
All-snoc P (x ∷ xs) y all p = (all.0, All-snoc P xs y all.1 p)

module _ {D Date : Type 0} where
  later :
      (target : Text) (e : EntryRecord D Date) (es : List (EntryRecord D Date))
      (o : EntryRecord D Date)
      → find_entry o.entry_id es ≢ none
      → find_entry o.entry_id (e ∷ es) ≢ none
  later target e es o h missing = ground (arith, h)

  pub find_ref-find_entry :
      (target : Text) (es : List (EntryRecord D Date)) (o : EntryRecord D Date)
      → find_ref target es ≡ some o
      → find_entry o.entry_id es ≢ none
  find_ref-find_entry target [] o h = cc
  find_ref-find_entry target (e ∷ es) o h = elim (Option-cases e.entry_ref) [
    | inl unnamed ↦
        later target e es o (find_ref-find_entry target es o (rw (unnamed, find_ref) at h))
    | inr (r, named) ↦ elim (Bool-cases (eq_text r target)) [
      | inl hit ↦
          let found : e ≡ o = cc (rw (named, hit, find_ref) at h) in
          rw (← found) (λ missing. ground arith)
      | inr miss ↦
          later target e es o (find_ref-find_entry target es o (rw (named, miss, find_ref) at h))
    ]
  ]

  pub find_entry-All :
      (P : EntryRecord D Date → Type 0) (id : Uuid) (es : List (EntryRecord D Date))
      (e : EntryRecord D Date)
      → find_entry id es ≡ some e
      → All P es
      → (e.entry_id ≡ id) × P e
  find_entry-All P id [] e h all = cc
  find_entry-All P id (k ∷ es) e h all = elim (Bool-cases (k.entry_id == id)) [
    | inl same ↦
        let found : k ≡ e = cc (rw (same, find_entry) at h) in
        rw (← found) ((==_iff k.entry_id id).0 same, all.0)
    | inr other ↦ find_entry-All P id es e (rw (other, find_entry) at h) all.1
  ]

module _ {D Date : Type 0} ⦃d : Arithmetic D⦄ (env : Environment D Date) where
  -- Every record is an entry of the aggregate, with its lines, and no later identifier is taken.
  abbrev pub Agree : ℕ → List (EntryRecord D Date) → Map Uuid (List (JournalLine D)) → Type 0
  Agree i es entries =
      ((n : ℕ) → i ≤ n → lookup (env.fresh n) entries ≡ none)
      × All (λ e. lookup e.entry_id entries ≡ some e.lines) es

  abbrev pub FreshDistinct : Type 0
  FreshDistinct = (m n : ℕ) → env.fresh m ≡ env.fresh n → m ≡ n

  pub Agree-later :
      (i : ℕ) (es : List (EntryRecord D Date)) (entries : Map Uuid (List (JournalLine D)))
      → Agree i es entries
      → Agree (suc i) es entries
  Agree-later i es entries (none_taken, all) = ((λ n h. none_taken n (omega arith)), all)

  kept :
      (id k : Uuid) (lines found : List (JournalLine D)) (entries : Map Uuid (List (JournalLine D)))
      → lookup k entries ≡ none
      → lookup id entries ≡ some found
      → lookup id (insert k lines entries) ≡ some found
  kept id k lines found entries absent h = ground (arith, lookup-insert id k lines entries)

  kept_records :
      (k : Uuid) (lines : List (JournalLine D)) (entries : Map Uuid (List (JournalLine D)))
      (es : List (EntryRecord D Date))
      → lookup k entries ≡ none
      → All (λ e. lookup e.entry_id entries ≡ some e.lines) es
      → All (λ e. lookup e.entry_id (insert k lines entries) ≡ some e.lines) es
  kept_records k lines entries [] absent all = tt
  kept_records k lines entries (e ∷ es) absent all = (
    kept e.entry_id k lines e.lines entries absent all.0,
    kept_records k lines entries es absent all.1,
  )

  pub Agree-insert :
      (i : ℕ) (es : List (EntryRecord D Date)) (new : EntryRecord D Date)
      (entries : Map Uuid (List (JournalLine D)))
      → FreshDistinct
      → new.entry_id ≡ env.fresh i
      → Agree i es entries
      → Agree (suc i) (es ++ (new ∷ [])) (insert (env.fresh i) new.lines entries)
  Agree-insert i es new entries distinct named (none_taken, all) = (
    λ n h. elim (Bool-cases (env.fresh n == env.fresh i)) [
      | inl same ↦ absurd (omega (arith, distinct n i ((==_iff _ _).0 same)))
      | inr other ↦
          lookup-insert (env.fresh n) (env.fresh i) new.lines entries
          ∙ rw other (none_taken n (omega arith))
    ],
    All-snoc (λ e. lookup e.entry_id (insert (env.fresh i) new.lines entries) ≡ some e.lines) es new
        (kept_records (env.fresh i) new.lines entries es (none_taken i (omega arith)) all)
        (rw named (lookup-insert_self (env.fresh i) new.lines entries)),
  )

  pub post-entries :
      (id : Uuid) (ls : List (JournalLine D)) (s s' : LedgerState D)
      → post id ls s ≡ some s'
      → s'.entries ≡ insert id ls s.entries
  unfolding post
  post-entries id ls s s' h = elim (Option-cases (post_lines ls s.balances)) [
    | inl panics ↦ cc (rw (panics, post) at h)
    | inr (b, e) ↦ ap (λ u. u.entries) (sym (some-injective (rw (e, post) at h)))
  ]
