-- ===== src/CsRegisters.antt =====
-- The model of the control and status registers that the register testbench checks the core
-- against: dv/cs_registers. `Register` has the classes of a register, `Model` the list of all of them
-- and the handling of a transaction, the others the proofs.
pub mod Word
pub mod Register
pub mod LockMask
pub mod Masked
pub mod PmpCfg
pub mod Report
pub mod Update
pub mod Locked
pub mod Model
pub mod Driver
pub mod ResetDriver
pub mod Bench
pub mod Testbench
