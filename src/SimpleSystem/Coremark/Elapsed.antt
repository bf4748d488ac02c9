-- ===== src/SimpleSystem/Coremark/Elapsed.antt =====
-- The time that the benchmark measures, against the cycles that pass.
use coco_ibex.Common.{ℕ, ◌^◌, ◌<◌, ◌≡◌, arith}
use coco_ibex.SimpleSystem.Coremark.{
  Timing, pass_cycles, pcount_enable, pcount_reset, barebones_clock, start_time, stop_time,
  get_time,
}

-- Cycles pass between two calls.
unfoldable pub pass : ℕ → Timing → Timing
pass cycles m = record m { counters = pass_cycles cycles m.counters }

-- What is measured between `start_time` and `stop_time` is the number of cycles that passed between
-- them, if it fits 32 bits, whatever the counter showed before, however many cycles pass before its first
-- read, and however many before the time is asked for.
pub get_time_lem :
    (m : Timing) (before cycles later : ℕ)
    → cycles < 2 ^ 32
    → get_time (pass later (stop_time (pass cycles (start_time before m)))) ≡ cycles
unfolding pass pass_cycles get_time stop_time start_time barebones_clock pcount_enable pcount_reset
get_time_lem m before cycles later lt = omega (arith, lt)
