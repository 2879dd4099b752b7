-- ===== src/Lib.antt =====
-- FALKR-lite: the event-sourced ledger, the cost spine and the reference rules of the corpus.
--
-- The program keeps a double-entry ledger for AI spend. `Money` (crates/core/src/money.rs) is an exact
-- decimal in one currency; the ledger aggregate (crates/events/src/ledger.rs) turns commands into events
-- and events into balances; the cost spine (crates/cost-spine/src) prices invoice lines, splits shared
-- costs by weight, and reads the dimensions of a cost record from its tags; the testkit
-- (crates/testkit/src) holds the reference rule for allocation and the invariants as assertions.
--
-- Files:
--   Base       shared names; texts, ordered maps, signed integers, and `Outcome`: a call ends with
--              a value, an error or a panic
--   Decimal    `rust_decimal::Decimal` as a parameter: `Arithmetic`, the operations that the code calls,
--              and `IsExact`, the laws that it relies on; Decimal/Scaled is an instance, on which the
--              examples run
--   Core       money.rs (Core/Currency, Core/Money) and dimensions.rs (Core/Dimensions) of
--              crates/core/src
--   Ledger     ledger.rs of crates/events/src: Ledger/Line has its data, Ledger/State `LedgerState`,
--              `post` and `apply_event`, Ledger/Command `handle_command`; the other files have the
--              proofs, named for what they prove; Ledger/History has the step relation and reachability
--   Shares     what the two apportionment routines share
--   Cost       event.rs (Cost/Charge, Cost/Service, Cost/Event), pricing.rs (Cost/Pricing,
--              Cost/Inputs, Cost/Measures, Cost/Apportion) and attribution/tags.rs (Cost/Attribution,
--              with the proofs in Cost/TagLaws, Cost/WorkloadLaws and Cost/AttributionLaws) of
--              crates/cost-spine/src, and the rows of an AWS export in
--              providers/aws.rs (Cost/Focus, Cost/FocusLaws, Cost/FocusIdentity)
--   Research   entities.rs of crates/research-graph/src
--   Testkit    crates/testkit/src, file by file:
--              allocation.rs: Testkit/Allocation, with the proofs in Testkit/Conservation and
--                Testkit/Termination
--              chart.rs: Testkit/Chart, and Testkit/ChartLoad for `load`
--              assertions.rs: Testkit/Assertions, Testkit/ChartChecks for those that read the chart, and
--                Testkit/Comparison for the roll-forward, with more proofs in Testkit/Guarantees and
--                Testkit/NormalSides
--              generator.rs: Testkit/Rng and Testkit/Generator, with the proofs in Testkit/Generation
--                and Testkit/GroundTruth
--              catalog.rs: Testkit/Phase and Testkit/Operations
--              scenario.rs: Testkit/Scenario, and Testkit/Period, Testkit/Flaw and Testkit/Validate for
--                `validate`, with the proofs in Testkit/Validity and Testkit/Delivery
--              runner.rs: Testkit/Runner has its data and Testkit/Execute `execute` and `run`, with the
--                proofs in Testkit/Runs, Testkit/Rejections, Testkit/Histories, Testkit/Records and
--                Testkit/Mirroring
--              ads_export.rs: Testkit/Export has the rows and Testkit/Extract the extract, with the
--                proofs in Testkit/Footing and Testkit/Reconciliation
--
-- The parts of the testkit meet in the runner: `validate` checks a scenario against the chart and the
-- catalog, `run` executes it if its phase has landed, by commands to the aggregate, and keeps its own
-- record of each entry; the export reads those records, and `reconcile` compares the sums of its rows with
-- the expected balances. What the runner and the export take from elsewhere is one record, `Environment`
-- (Testkit/Runner), and the values of a TOML table another, `Toml` (Testkit/Scenario).
--
-- State is passed explicitly: `apply_event` returns the next `LedgerState`, or `none` where the sum of
-- two decimals has no representation, which panics in the program. The fresh identifiers and the clock of
-- `handle_command` and of `CostEvent::new` are arguments. An identifier is a number, a time is a number, a
-- string is a list of code points. A step of a ledger is a command that is accepted, with its events
-- applied; a history is a sequence of steps from the empty ledger. The program has no table of the
-- currencies of accounts; where a theorem needs one, it takes it as a parameter, a `Denomination`.
--
-- The loop of `allocate` runs on a number of rounds, one more than twice the number of weights; a theorem
-- shows that they are never used up. The digits of the index of an entry are
-- written on as much fuel as the index, one more than it can have digits. All other loops are recursions
-- on lists.
--
-- Decimals are taken to be exact where a result is there: at the edge of 96 bits the library rounds a
-- sum whose scale it must reduce, and that is not in the model. `Decimal::new` panics for a scale above 28,
-- where its parameter here has a value, and `10_u64.pow(dp)` panics as it does with overflow checks.
--
-- Not modelled: the HTTP service and the Postgres store (I/O), the clients of trackers, the fetching and
-- the CSV of provider exports, the unimplemented telemetry path, `Display` and serialization, the reading
-- of the chart and of scenarios from files and the writing of the extract (I/O), the wording of errors and
-- defects, and three assertions: replay stability, which compares two runs of one pure function, the
-- serialization round trip, which is a library's, and the enumeration of entry points, an equality of two
-- sets.
pub mod Base
pub mod Decimal
pub mod Core
pub mod Shares
pub mod Ledger
pub mod Cost
pub mod Research
pub mod Testkit
