-- ===== src/CsRegisters/Report.antt =====
-- What the register testbench prints: the messages of a transaction that fails, and those at the end.
pub mod Names
pub mod Messages
pub mod RoundTrip
pub mod Failures
mod Examples
