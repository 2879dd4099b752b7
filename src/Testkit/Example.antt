-- ===== src/Testkit/Example.antt =====
-- A small corpus for the tests: a chart of two accounts, a scenario that posts, reverses, and
-- declares a rejection, and stand-ins for the code that the runner calls. A decimal is written as
-- one code point, after a sign if it is negative.
use falkr_lite.Base.{
  ℕ, ◌+◌, ◌*◌, ◌-◌, ◌^◌, refl, Bool, true, false, Option, none, some, List, [], ◌∷◌, map,
}
use falkr_lite.Base.Int.{ℤ, pos, negsuc}
use falkr_lite.Base.Text.{Text, codes}
use falkr_lite.Base.Outcome.{Outcome, ok, err}
use falkr_lite.Decimal.Scaled.{scaled, scaled-IsExact}
use falkr_lite.Core.Currency.{usd}
use falkr_lite.Core.Money.{Money}
use falkr_lite.Ledger.{JournalLine, empty_state}
use falkr_lite.Testkit.Phase.{p02}
use falkr_lite.Testkit.Chart.{Account, Entity, ChartOfAccounts, asset, revenue}
use falkr_lite.Testkit.Scenario.{ready, ScenarioLine, Toml, Operation, Scenario}
use falkr_lite.Testkit.Runner.{Environment, LedgerRun}
use falkr_lite.Testkit.Execute.{execute}
use falkr_lite.Testkit.Footing.{ReadsBack}

pub data Value : Type 0 where
  text : Text → Value
  flag : Bool → Value
  table : ScenarioLine → Value
  tables : List ScenarioLine → Value

abbrev text_of : Value → Option Text
text_of (text s) = some s
text_of _ = none

abbrev flag_of : Value → Option Bool
flag_of (flag b) = some b
flag_of _ = none

abbrev tables_of : Value → Option (List Value)
tables_of (tables ls) = some (map table ls)
tables_of _ = none

abbrev line_of : Value → Outcome Text ScenarioLine
line_of (table l) = ok l
line_of _ = err []

instance abbrev pub value_toml : Toml Value
value_toml = record { as_str = text_of; as_bool = flag_of; as_array = tables_of; as_line = line_of }

abbrev write : ℤ → Text
write (pos n) = n ∷ []
write (negsuc n) = b'-' ∷ n ∷ []

abbrev pub read : Text → Option ℤ
read (n ∷ []) = some (pos n)
read (sign ∷ n ∷ []) = some (negsuc n)
read _ = none

abbrev hash_of : Text → ℕ
hash_of [] = 1
hash_of (c ∷ s) = c + 1114112 * hash_of s

abbrev pub env : Environment ℤ ℕ
env = record {
  from_str_exact = read;
  decimal_text = write;
  digest = hash_of;
  uuid_text = λ id. id ∷ [];
  parse_date = λ s. none;
  date_text = λ day. day ∷ [];
  default_date = 20454;
  fresh = λ n. n + 7;
  now = λ n. n;
}

pub env-ReadsBack : ReadsBack scaled-IsExact env
env-ReadsBack (pos n) = (pos n, refl, refl)
env-ReadsBack (negsuc n) = (negsuc n, refl, refl)

abbrev pub cash : Account
cash = record {
  code = codes "1000";
  name = codes "Cash";
  kind = asset;
  contra = false;
  allow_opposite_sign = none;
  currency = some (codes "USD");
  subledger = some (codes "bank");
  intercompany = false;
  fs_caption = codes "Cash";
}

abbrev pub sales : Account
sales = record {
  code = codes "4000";
  name = codes "Sales";
  kind = revenue;
  contra = false;
  allow_opposite_sign = none;
  currency = none;
  subledger = none;
  intercompany = false;
  fs_caption = codes "Revenue";
}

abbrev pub acme : Entity
acme = record {
  code = codes "ACME";
  name = codes "Acme";
  functional_ccy = codes "USD";
  parent = none;
  ownership = none;
}

abbrev pub chart : ChartOfAccounts
chart = record {
  by_code = (codes "1000", cash) ∷ (codes "4000", sales) ∷ [];
  entities = (codes "ACME", acme) ∷ [];
  sources = [];
  controls = (codes "bank", codes "1000") ∷ [];
}

-- 100.00
abbrev pub hundred : Text
hundred = (100 * 10 ^ 28) ∷ []

abbrev line : Text → Option Text → Option Text → ScenarioLine
line account debit credit = record {
  account = account;
  debit = debit;
  credit = credit;
  currency = none;
  sources = [];
}

abbrev sale : List ScenarioLine
sale = line (codes "1000-Cash") (some hundred) none ∷ line (codes "4000") none (some hundred) ∷ []

abbrev one_sided : List ScenarioLine
one_sided = line (codes "1000-Cash") (some hundred) none ∷ []

abbrev pub post_sale : Operation Value
post_sale = record {
  kind = codes "post_entry";
  params = (codes "lines", tables sale) ∷ (codes "ref", text (codes "first")) ∷ [];
}

abbrev pub reverse_sale : Operation Value
reverse_sale = record {
  kind = codes "reverse_entry";
  params = (codes "ref", text (codes "first")) ∷ [];
}

abbrev pub bad_sale : Operation Value
bad_sale = record {
  kind = codes "post_entry";
  params = (codes "expect_rejection", flag true) ∷ (codes "lines", tables one_sided) ∷ [];
}

abbrev pub scenario : Scenario Value
scenario = record {
  path = codes "corpus" ∷ codes "sales" ∷ codes "sales-001.toml" ∷ [];
  meta = record {
    id = codes "sales-001";
    title = codes "A sale, reversed and made again";
    standards = codes "ASC 606" ∷ [];
    phase = p02;
    difficulty = 1;
    status = ready;
    blocked_reason = none;
    divergence = none;
  };
  setup = record {
    entity = codes "ACME";
    book = codes "US_GAAP";
    functional_ccy = codes "USD";
    period = codes "2026-01";
    calendar = codes "gregorian";
  };
  operations = post_sale ∷ reverse_sale ∷ bad_sale ∷ post_sale ∷ [];
  expected = record {
    trial_balance =
        (codes "1000-Cash", hundred) ∷ (codes "4000-Sales", b'-' ∷ (100 * 10 ^ 28 - 1) ∷ []) ∷ [];
    by_entity = [];
    subledgers = (codes "bank", hundred) ∷ [];
    unusual_balances = [];
    invariants = record {
      balanced = true;
      replay_stable = true;
      subledger_ties = false;
      roll_forward = false;
      intercompany_eliminated = false;
    };
    reasoning =
        codes
          "The sale is posted, reversed in full, and posted again, so that cash and revenue end at one hundred each; an entry with one line is refused.";
  };
}

abbrev no_run : LedgerRun ℤ ℕ
no_run = record {
  scenario_id = [];
  entity = [];
  book = [];
  period = [];
  currency = usd;
  events = [];
  state = empty_state;
  entries = [];
  labels = [];
  rejections = [];
}

abbrev returned : {E A : Type 0} → Outcome E A → A → A
returned (ok a) b = a
returned _ b = b

-- The run of the scenario.
abbrev pub ran : LedgerRun ℤ ℕ
ran = returned (execute env chart scenario) no_run

abbrev usd_amount : ℤ → Money ℤ
usd_amount a = record { amount = a; currency = usd }

abbrev posted_lines : List (JournalLine ℤ)
posted_lines =
    record {
      account = 1;
      debit = some (usd_amount (pos 500));
      credit = none;
      source_usage_event_ids = [];
    }
    ∷ record {
      account = 2;
      debit = none;
      credit = some (usd_amount (pos 500));
      source_usage_event_ids = 3 ∷ 4 ∷ [];
    }
    ∷ []

-- A run of one entry, for the export.
abbrev pub sample : LedgerRun ℤ ℕ
sample = record no_run {
  period = codes "2026-01";
  state = record empty_state {
    balances = (1, usd_amount (pos 500)) ∷ (2, usd_amount (negsuc 499)) ∷ [];
  };
  entries =
      record {
        entry_id = 9;
        entry_ref = none;
        journal_id = codes "sales-001-000";
        effective_date = 20454;
        description = [];
        source = codes "MANUAL";
        entity = codes "ACME";
        lines = posted_lines;
        reversal_of = none;
      }
      ∷ [];
  labels = (1, codes "1000-Cash") ∷ (2, codes "4000-Sales") ∷ [];
}
