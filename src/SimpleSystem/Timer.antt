-- ===== src/SimpleSystem/Timer.antt =====
-- The timer of examples/sw/simple_system/common/simple_system_common.c: reading the 64-bit time in two
-- halves, setting the compare register, and the periodic interrupt. The time that the device shows is
-- a function of the number of loads so far.
pub mod Reading
pub mod Compare
mod Examples
use coco_ibex.Common.{
  ℕ, zero, suc, ◌+◌, ◌-◌, ◌*◌, ◌/◌, ◌%◌, ◌^◌, List, [], ◌∷◌, ◌==◌, if◌then◌else◌, bit_and, bit_or,
  Outcome, done, spent, ◌>>=◌,
}
use coco_ibex.SimpleSystem.Console.{DevWrite, Trace, dev_write}

abbrev pub timer_base : ℕ
timer_base = 0x30000

abbrev timer_mtime : ℕ
timer_mtime = 0x0

abbrev timer_mtimeh : ℕ
timer_mtimeh = 0x4

abbrev pub timer_mtimecmp : ℕ
timer_mtimecmp = 0x8

abbrev pub timer_mtimecmph : ℕ
timer_mtimecmph = 0xC

-- The value of `mtime` at each load.
abbrev pub Clock : Type 0
Clock = ℕ → ℕ

-- `DEV_READ` at the two addresses that the program reads, as the timer answers it: one half of the time. The
-- 0 stands for what is never read.
unfoldable pub dev_read : Clock → ℕ → ℕ → ℕ
dev_read clock n addr =
    if addr == timer_base + timer_mtime
    then clock n % 2 ^ 32
    else if addr == timer_base + timer_mtimeh
    then clock n / 2 ^ 32 % 2 ^ 32
    else 0

-- A time with the number of loads made.
pub record Loaded : Type 0 where
  pub final_time : ℕ
  pub loads : ℕ

-- The `do` loop, with fuel for its rounds.
unfoldable pub timer_read : ℕ → Clock → ℕ → Outcome Loaded
timer_read zero clock n = spent
timer_read (suc fuel) clock n =
    let current_timeh = dev_read clock n (timer_base + timer_mtimeh) in
    let current_time = dev_read clock (n + 1) (timer_base + timer_mtime) in
    let more = timer_read fuel clock (n + 3) in
    if current_timeh == dev_read clock (n + 2) (timer_base + timer_mtimeh)
    then done (record { final_time = bit_or (current_timeh * 2 ^ 32) current_time; loads = n + 3 })
    else more

unfoldable pub timecmp_update : ℕ → Trace → Trace
timecmp_update new_time t =
    let masked = dev_write (timer_base + timer_mtimecmp) (2 ^ 32 - 1) t in
    let high = dev_write (timer_base + timer_mtimecmph) (new_time / 2 ^ 32) masked in
    dev_write (timer_base + timer_mtimecmp) new_time high

-- The program's variables and the registers that it sets, with the loads and the stores made.
pub record Machine : Type 0 where
  pub time_elapsed : ℕ
  pub time_increment : ℕ
  pub mie : ℕ
  pub mstatus : ℕ
  pub loads : ℕ
  pub trace : Trace

unfoldable pub increment_timecmp : ℕ → Clock → ℕ → Machine → Outcome Machine
increment_timecmp fuel clock time_base m = do
  r ← timer_read fuel clock m.loads
  done (record m {
    loads = r.loads;
    trace = timecmp_update ((r.final_time + time_base) % 2 ^ 64) m.trace;
  })

unfoldable pub timer_enable : ℕ → Clock → ℕ → Machine → Outcome Machine
timer_enable fuel clock time_base m = do
  set ←
      increment_timecmp fuel clock time_base
        (record m { time_elapsed = 0; time_increment = time_base })
  done (record set { mie = bit_or set.mie 0x80; mstatus = bit_or set.mstatus 0x8 })

unfoldable timer_disable : Machine → Machine
timer_disable m = record m { mie = bit_and m.mie (2 ^ 32 - 1 - 0x80) }

abbrev pub get_elapsed_time : Machine → ℕ
get_elapsed_time m = m.time_elapsed

unfoldable pub simple_timer_handler : ℕ → Clock → Machine → Outcome Machine
simple_timer_handler fuel clock m = do
  set ← increment_timecmp fuel clock m.time_increment m
  done (record set { time_elapsed = (set.time_elapsed + 1) % 2 ^ 64 })
