-- ===== src/Cost.antt =====
-- crates/cost-spine: cost records, attribution and pricing.
pub mod Charge
pub mod Service
pub mod Event
pub mod Attribution
pub mod WorkloadLaws
pub mod TagLaws
pub mod AttributionLaws
pub mod Pricing
pub mod Apportion
pub mod Inputs
pub mod Measures
pub mod Focus
pub mod FocusLaws
pub mod FocusIdentity
mod Tests
mod FocusTests
