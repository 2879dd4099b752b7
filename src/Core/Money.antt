-- ===== src/Core/Money.antt =====
-- `Money` of crates/core/src/money.rs, its operations and their laws.
mod Ops
pub mod Laws
pub mod Sum
unfoldable pub use Ops.*
