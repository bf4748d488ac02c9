-- ===== src/Verilator/MemUtil.antt =====
-- The memory loader of the simulations: dv/verilator/memutil/cpp/verilator_memutil.cc.
pub mod Areas
pub mod Argument
pub mod Elf
pub mod Write
pub mod Options
pub mod Messages
