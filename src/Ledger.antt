-- ===== src/Ledger.antt =====
-- crates/events/src/ledger.rs: the event-sourced ledger.
mod Line
mod State
mod Command
unfoldable pub use Line.*
unfoldable pub use State.*
unfoldable pub use Command.*
pub mod Entry
pub mod Balances
pub mod Totals
pub mod Trial
pub mod History
pub mod Mirror
pub mod Soundness
pub mod Reversal
pub mod Capitalization
pub mod Divergence
mod Tests
