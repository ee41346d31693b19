-- ===== src/Base/Bits.antt =====
-- Bit operations at variables, as arithmetic, and tables checked by evaluation.
mod Step
pub mod Xor
pub mod Table
pub mod Shift
pub use Step.{bit_or_step, bit_xor_step}
