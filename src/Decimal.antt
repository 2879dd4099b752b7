-- ===== src/Decimal.antt =====
-- The interface to `rust_decimal::Decimal`, which the workspace takes from a library. The model
-- is generic in the type of decimals: `Arithmetic` is the operations that the code calls, and
-- `IsExact` is what the code relies on. A decimal is a whole number over a power of ten of at
-- most 28 digits, so its value is a whole number of units of 10^-28; `units` is that number.
-- Two decimals of one value may differ in scale, and zero may carry a negative sign.
mod Interface
pub mod Scaled
pub use Interface.{Arithmetic, IsExact}
