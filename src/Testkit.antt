-- ===== src/Testkit.antt =====
-- crates/testkit: the reference rules and the invariants of the corpus.
pub mod Allocation
pub mod Conservation
pub mod Termination
pub mod Comparison
pub mod ChartChecks
pub mod NormalSides
pub mod Phase
pub mod Operations
pub mod Scenario
pub mod Runner
pub mod Execute
pub mod Runs
pub mod Rejections
pub mod Histories
pub mod Export
pub mod Extract
pub mod Footing
pub mod Reconciliation
pub mod Period
pub mod Validate
pub mod Flaw
pub mod Validity
pub mod Delivery
pub mod Records
pub mod Mirroring
pub mod ChartLoad
pub mod Example
pub mod Rng
pub mod Generator
pub mod Chart
pub mod Assertions
pub mod Guarantees
pub mod GroundTruth
pub mod Generation
mod GeneratorTests
mod RunTests
mod ScenarioTests
mod Tests
