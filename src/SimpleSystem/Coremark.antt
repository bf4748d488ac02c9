-- ===== src/SimpleSystem/Coremark.antt =====
-- The timing functions of examples/sw/benchmarks/coremark/ibex/core_portme.c, on the low word of the
-- cycle counter.
pub mod Elapsed
pub mod Report
pub mod Line
pub mod Dump
pub mod Finish
mod Examples
use coco_ibex.Common.{
  ℕ, zero, suc, ◌+◌, ◌-◌, ◌%◌, ◌^◌, Bool, true, false, if◌then◌else◌, List, [], ◌∷◌, ◌==◌, bit_and,
}

-- The 64-bit counters of the core and `mcountinhibit`, whose bit 0 stops the cycle counter.
pub record Counters : Type 0 where
  pub mcycle : ℕ
  pub minstret : ℕ
  pub mhpmcounters : List ℕ
  pub mcountinhibit : ℕ

-- `start_time_val` and `stop_time_val`, with the counters.
pub record Timing : Type 0 where
  pub start_time_val : ℕ
  pub stop_time_val : ℕ
  pub counters : Counters

unfoldable pub pcount_enable : Bool → Counters → Counters
pcount_enable enable c = record c { mcountinhibit = if enable then 0x0 else 0xFFFF_FFFF }

unfoldable pub zero_all : List ℕ → List ℕ
zero_all [] = []
zero_all (c ∷ rest) = 0 ∷ zero_all rest

unfoldable pub pcount_reset : Counters → Counters
pcount_reset c = record c { mcycle = 0; minstret = 0; mhpmcounters = zero_all c.mhpmcounters }

-- `mcycle` reads as the low word.
unfoldable pub barebones_clock : Counters → ℕ
barebones_clock c = c.mcycle % 2 ^ 32

-- Cycles pass: the cycle counter moves on unless it is inhibited.
unfoldable pub pass_cycles : ℕ → Counters → Counters
pass_cycles cycles c = record c {
  mcycle = if bit_and c.mcountinhibit 1 == 0 then (c.mcycle + cycles) % 2 ^ 64 else c.mcycle;
}

-- `start_time`, with so many cycles between the enabling of the counters and the read.
unfoldable pub start_time : ℕ → Timing → Timing
start_time before m =
    let c = pcount_enable true (pcount_reset (pcount_enable false m.counters)) in
    let now = pass_cycles before c in
    record m { start_time_val = barebones_clock now; counters = now }

unfoldable pub stop_time : Timing → Timing
stop_time m = record m {
  stop_time_val = barebones_clock m.counters;
  counters = pcount_enable false m.counters;
}

-- `MYTIMEDIFF(stop_time_val, start_time_val)` on `ee_u32`.
unfoldable pub get_time : Timing → ℕ
get_time m = (m.stop_time_val + (2 ^ 32 - m.start_time_val)) % 2 ^ 32

unfoldable time_in_secs : {Secs : Type 0} → (ℕ → Secs) → (Secs → Secs → Secs) → ℕ → Secs
time_in_secs to_secs divide ticks = divide (to_secs ticks) (to_secs 500000)
