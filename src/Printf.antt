-- ===== src/Printf.antt =====
-- The formatted output of examples/sw/benchmarks/coremark/ibex/ee_printf.c.
pub mod Pad
pub mod Number
pub mod Address
pub mod Directive
pub mod Convert
pub mod Format
pub mod Float
