-- ===== src/Core.antt =====
-- crates/core/src: currencies and money (money.rs) and the dimensional spine (dimensions.rs).
-- A domain identifier (ids.rs) is the 128-bit number of its UUID.
pub mod Currency
pub mod Money
pub mod Dimensions
mod Tests
