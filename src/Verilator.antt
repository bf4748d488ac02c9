-- ===== src/Verilator.antt =====
-- The C++ support of the Verilator simulations: dv/verilator.
pub mod MemUtil
pub mod Simulation
pub mod Main
pub mod Pcount
