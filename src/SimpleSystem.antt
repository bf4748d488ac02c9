-- ===== src/SimpleSystem.antt =====
-- The run-time support of the simple system: examples/sw/simple_system/common and the programs on it.
pub mod Console
pub mod Timer
pub mod Hello
pub mod Exception
pub mod Coremark
