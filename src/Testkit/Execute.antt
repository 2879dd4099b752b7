-- ===== src/Testkit/Execute.antt =====
-- `Runner::execute` and `Runner::run` of crates/testkit/src/runner.rs, and what they call.
use falkr_lite.Base.{
  ℕ, suc, Bool, true, false, Option, none, some, List, [], ◌∷◌, ◌++◌, map, if◌then◌else◌,
}
use falkr_lite.Base.Text.{Text, codes, eq_text}
use falkr_lite.Base.Map.{Map, nat_key, text_key, insert}
use falkr_lite.Base.Outcome.{Outcome, ok, err, panic, or_panic, ok_or, map_err, ◌>>=◌}
use falkr_lite.Decimal.{Arithmetic}
use falkr_lite.Core.Currency.{Currency, from_code}
use falkr_lite.Core.Money.{Money}
use falkr_lite.Core.Dimensions.{Uuid, Dimensions, new_dimensions, op_ex, status_from_stored}
use falkr_lite.Ledger.{
  JournalLine, debit_line, credit_line, with_sources, LedgerEvent, journal_entry_posted,
  entry_reversed, capitalization_status_changed, LedgerCommand, post_journal_entry, reverse_entry,
  change_capitalization_status, LedgerError, empty_state, apply_event, handle_command,
}
use falkr_lite.Testkit.Phase.{and_then}
use falkr_lite.Testkit.Chart.{ChartOfAccounts, resolve}
use falkr_lite.Testkit.Scenario.{
  Toml, Operation, Scenario, ScenarioLine, str_param, opt_str_param, op_lines, expects_rejection,
  spec, spec_delivered, required_phase, is_blocked,
}
use falkr_lite.Testkit.Runner.{
  Environment, EntryRecord, LedgerRun, RunOutcome, executed, deferred, held, RunError, param,
  unknown_account, bad_operation, rejected, expected_rejection, Progress, unwrap_or, label,
  three_digits, mirror_lines, find_ref, find_entry, stable_uuid, account_id,
}

module _ {V D Date : Type 0} ⦃t : Toml V⦄ ⦃d : Arithmetic D⦄ (env : Environment D Date)
    (chart : ChartOfAccounts) (scenario : Scenario V) where
  abbrev id : Text
  id = scenario.meta.id

  -- `Runner::dimensions`
  unfoldable pub dimensions : Dimensions
  dimensions =
      new_dimensions (stable_uuid env (codes "falkr.corpus.tenant") scenario.setup.entity)
        (stable_uuid env (codes "falkr.corpus.project") id)
        (stable_uuid env (codes "falkr.corpus.team") id)
        (stable_uuid env (codes "falkr.corpus.provider") id) op_ex

  -- The closure `amount` of `journal_lines`.
  abbrev pub parse_amount : Currency → Text → Outcome (RunError D) (Money D)
  parse_amount c raw = do
    value ← ok_or (env.from_str_exact raw) (bad_operation id)
    ok (record { amount = value; currency = c })

  abbrev pub line_currency : Currency → Option Text → Outcome (RunError D) Currency
  line_currency default none = ok default
  line_currency default (some code) = ok_or (from_code code) (bad_operation id)

  -- The `match` on the two sides of a line.
  abbrev pub sided :
      Uuid → Currency → Option Text → Option Text → Outcome (RunError D) (JournalLine D)
  sided account c (some debit) none = do m ← parse_amount c debit; ok (debit_line account m)
  sided account c none (some credit) = do m ← parse_amount c credit; ok (credit_line account m)
  sided account c (some debit) (some credit) = do
    m ← parse_amount c debit
    n ← parse_amount c credit
    ok (record { account = account; debit = some m; credit = some n; source_usage_event_ids = [] })
  sided account c none none =
      ok (record { account = account; debit = none; credit = none; source_usage_event_ids = [] })

  abbrev pub attach_sources : List Text → JournalLine D → JournalLine D
  attach_sources [] l = l
  attach_sources (s ∷ sources) l =
      with_sources l (map (stable_uuid env (codes "falkr.corpus.usage")) (s ∷ sources))

  -- The loop of `journal_lines`: the lines, and the labels after them.
  unfoldable pub build_lines :
      List ScenarioLine
      → Currency
      → Map Uuid Text
      → Outcome (RunError D) (List (JournalLine D) × Map Uuid Text)
  build_lines [] default labels = ok ([], labels)
  build_lines (line ∷ raw) default labels = do
    account ← ok_or (resolve chart line.account) (unknown_account id line.account)
    c ← line_currency default line.currency
    l ← sided (account_id env account.code) c line.debit line.credit
    rest ← build_lines raw default (insert (account_id env account.code) (label account) labels)
    ok (attach_sources line.sources l ∷ rest.0, rest.1)

  -- `Runner::journal_lines`
  unfoldable pub journal_lines :
      Operation V
      → Currency
      → Map Uuid Text
      → Outcome (RunError D) (List (JournalLine D) × Map Uuid Text)
  journal_lines op default labels = do
    raw ← map_err (param id) (op_lines op)
    build_lines raw default labels

  -- The `match` on the kind of an operation: its command, and the labels after it.
  unfoldable pub command_for :
      Operation V
      → Currency
      → Progress D Date
      → Outcome (RunError D) (LedgerCommand D × Map Uuid Text)
  command_for op default p =
      if eq_text op.kind (codes "post_entry")
      then (do
        built ← journal_lines op default p.labels
        ok (post_journal_entry built.0 dimensions, built.1))
      else if eq_text op.kind (codes "reverse_entry")
      then (do
        target ← map_err (param id) (str_param op (codes "ref"))
        original ← ok_or (find_ref target p.entries) (bad_operation id)
        ok (
          reverse_entry original.entry_id
              (unwrap_or (opt_str_param op (codes "reason")) (codes "corpus")),
          p.labels,
        ))
      else if eq_text op.kind (codes "set_capitalization")
      then (do
        run ← map_err (param id) (str_param op (codes "run"))
        to ← map_err (param id) (str_param op (codes "to"))
        status ← ok_or (status_from_stored to) (bad_operation id)
        ok (
          change_capitalization_status (stable_uuid env (codes "falkr.corpus.run") run) status (
              stable_uuid env (codes "falkr.corpus.policy")
                (unwrap_or (opt_str_param op (codes "policy")) (codes "default"))),
          p.labels,
        ))
      else err (bad_operation id)

  abbrev pub effective_date : Operation V → Date
  effective_date op =
      unwrap_or (and_then (opt_str_param op (codes "date")) env.parse_date) env.default_date

  abbrev pub journal_id : ℕ → Text
  journal_id index = id ++ (b'-' ∷ three_digits index)

  abbrev pub mirrored : Option (EntryRecord D Date) → List (JournalLine D)
  mirrored none = []
  mirrored (some e) = mirror_lines e.lines

  -- `record_entry`
  unfoldable pub record_entry :
      LedgerEvent D → Operation V → ℕ → List (EntryRecord D Date) → List (EntryRecord D Date)
  record_entry (journal_entry_posted entry lines dims posted_at) op index entries =
      entries
      ++ (record {
        entry_id = entry;
        entry_ref = opt_str_param op (codes "ref");
        journal_id = journal_id index;
        effective_date = effective_date op;
        description = unwrap_or (opt_str_param op (codes "description")) [];
        source = unwrap_or (opt_str_param op (codes "source")) (codes "MANUAL");
        entity = unwrap_or (opt_str_param op (codes "entity")) scenario.setup.entity;
        lines = lines;
        reversal_of = none;
      }
          ∷ [])
  record_entry (entry_reversed original_id reversal_id reason) op index entries =
      entries
      ++ (record {
        entry_id = reversal_id;
        entry_ref = opt_str_param op (codes "ref");
        journal_id = journal_id index;
        effective_date = effective_date op;
        description = codes "Reversal: " ++ reason;
        source = unwrap_or (opt_str_param op (codes "source")) (codes "MANUAL");
        entity = scenario.setup.entity;
        lines = mirrored (find_entry original_id entries);
        reversal_of = some original_id;
      }
          ∷ [])
  record_entry (capitalization_status_changed run from to policy) op index entries = entries

  -- The loop over the events that a command produced.
  unfoldable pub apply_produced :
      List (LedgerEvent D)
      → Operation V
      → ℕ
      → Progress D Date
      → Outcome (RunError D) (Progress D Date)
  apply_produced [] op index p = ok p
  apply_produced (event ∷ produced) op index p = do
    state ← or_panic (apply_event p.state event)
    apply_produced produced op index (record p {
      state = state;
      events = p.events ++ (event ∷ []);
      entries = record_entry event op index p.entries;
    })

  -- The `match` on what the aggregate answered.
  unfoldable pub settle :
      Bool
      → Outcome (LedgerError D) (List (LedgerEvent D))
      → Operation V
      → ℕ
      → Progress D Date
      → Outcome (RunError D) (Progress D Date)
  settle true (ok produced) op index p = err (expected_rejection id index)
  settle false (ok produced) op index p = apply_produced produced op index p
  settle true (err e) op index p =
      ok (record p { rejections = p.rejections ++ ((op.kind, e) ∷ []) })
  settle false (err e) op index p = err (rejected id e)
  settle expect panic op index p = panic

  -- One round of the loop over the operations.
  unfoldable pub run_operation :
      Operation V → ℕ → Currency → Progress D Date → Outcome (RunError D) (Progress D Date)
  run_operation op index default p = do
    (command, labels) ← command_for op default p
    settle (expects_rejection op) (handle_command p.state command (env.fresh index) (env.now index))
        op index (record p { labels = labels })

  unfoldable pub run_operations :
      List (Operation V) → ℕ → Currency → Progress D Date → Outcome (RunError D) (Progress D Date)
  run_operations [] index default p = ok p
  run_operations (op ∷ ops) index default p = do
    next ← run_operation op index default p
    run_operations ops (suc index) default next

  abbrev pub start_progress : Progress D Date
  start_progress = record {
    state = empty_state;
    events = [];
    entries = [];
    labels = [];
    rejections = [];
  }

  -- `Runner::execute`
  unfoldable pub execute : Outcome (RunError D) (LedgerRun D Date)
  execute = do
    c ← ok_or (from_code scenario.setup.functional_ccy) (bad_operation id)
    p ← run_operations scenario.operations 0 c start_progress
    ok (record {
      scenario_id = id;
      entity = scenario.setup.entity;
      book = scenario.setup.book;
      period = scenario.setup.period;
      currency = c;
      events = p.events;
      state = p.state;
      entries = p.entries;
      labels = p.labels;
      rejections = p.rejections;
    })

  -- The kinds that are not catalogued, or whose phase has not landed.
  abbrev pub undeliverable : List (Operation V) → List Text
  undeliverable [] = []
  undeliverable (op ∷ ops) =
      let rest = undeliverable ops in if spec_delivered (spec op.kind) then rest else op.kind ∷ rest

  abbrev defer_or_execute : List Text → Outcome (RunError D) (RunOutcome D Date)
  defer_or_execute [] = do run ← execute; ok (executed run)
  defer_or_execute (k ∷ ks) = ok (deferred (required_phase scenario) (k ∷ ks))

  -- `Runner::run`
  unfoldable pub run : Outcome (RunError D) (RunOutcome D Date)
  run =
      if is_blocked scenario.meta.status
      then ok (held (unwrap_or scenario.meta.blocked_reason (codes "no reason given")))
      else defer_or_execute (undeliverable scenario.operations)
