-- ===== src/SimpleSystem/Timer/Examples.antt =====
-- The theorems on the timer at a clock whose upper half changes during the first round.
use coco_ibex.Common.{ℕ, ◌+◌, ◌≤◌, ◌<◌, ◌≡◌, ◌⊎◌, arith, done, [], ◌++◌, All}
use coco_ibex.SimpleSystem.Timer.{Clock, Machine, timer_read, timecmp_update}
use coco_ibex.SimpleSystem.Timer.Reading.{timer_read_lem}
use coco_ibex.SimpleSystem.Timer.Compare.{
  update_stores, compare_values, last_value, timecmp_update-safe,
}

abbrev wrapping : Clock
wrapping n = 0xFFFF_FFFE + n

wrapping-monotone : (i j : ℕ) → i ≤ j → wrapping i ≤ wrapping j
wrapping-monotone i j h = omega arith

timer_read_lem_example :
    (k : ℕ) × ((k ≡ 0) ⊎ (k ≡ 3))
    × (timer_read 2 wrapping 0 ≡ done (record { final_time = wrapping (k + 1); loads = k + 3 }))
timer_read_lem_example = timer_read_lem wrapping wrapping-monotone 0 0 (omega arith) (omega arith)

abbrev started : Machine
started = record {
  time_elapsed = 0;
  time_increment = 2000;
  mie = 0x80;
  mstatus = 0x8;
  loads = 0;
  trace = [];
}

timecmp_update-safe_example :
    (timecmp_update 0x1_0000_0005 [] ≡ [] ++ update_stores 0x1_0000_0005)
    × All (λ (c : ℕ). 100 < c) (compare_values 0xFFFF_FFFF (update_stores 0x1_0000_0005))
    × (last_value 0xFFFF_FFFF (compare_values 0xFFFF_FFFF (update_stores 0x1_0000_0005))
        ≡ 0x1_0000_0005)
timecmp_update-safe_example =
    timecmp_update-safe 0xFFFF_FFFF 0x1_0000_0005 100 [] (omega arith) (omega arith) (omega arith)
      (omega arith)
