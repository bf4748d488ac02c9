-- ===== src/SimpleSystem/Hello/Run.antt =====
-- The whole of `main` in examples/sw/simple_system/hello_test/hello_test.c, with the timer's interrupts.
use coco_ibex.Common.{ℕ, zero, suc, ◌+◌, true, false, Outcome, done, spent, ◌>>=◌, ◌==◌, leb}
use coco_ibex.SimpleSystem.Console.{puts}
use coco_ibex.SimpleSystem.Coremark.{Counters, pcount_enable, pcount_reset}
use coco_ibex.SimpleSystem.Timer.{
  Clock, Machine, timer_enable, simple_timer_handler, get_elapsed_time,
}
use coco_ibex.SimpleSystem.Hello.{greeting, tick_line}

pub record Program : Type 0 where
  pub counters : Counters
  pub machine : Machine

-- Two rounds for each `timer_read`.
abbrev read_fuel : ℕ
read_fuel = 2

module _ (clock : Clock) where
  -- So many interrupts of the timer.
  unfoldable pub take_interrupts : ℕ → Machine → Outcome Machine
  take_interrupts zero m = done m
  take_interrupts (suc count) m = do
    m' ← simple_timer_handler read_fuel clock m
    take_interrupts count m'

  -- The rest of a round, behind the call of `get_elapsed_time`.
  unfoldable pub print_tick : ℕ → ℕ → Machine → Machine
  print_tick cur_time last_elapsed_time m = elim (cur_time == last_elapsed_time) [
    | true ↦ m
    | false ↦ record m { trace = puts (tick_line cur_time) m.trace }
  ]

  -- The loop, with fuel for its rounds. `interrupts n` of them come before call `n` of
  -- `get_elapsed_time` and behind the one before: what `main` does in between does not depend on them,
  -- and they store to the timer only.
  unfoldable pub wait_loop : ℕ → (ℕ → ℕ) → ℕ → ℕ → Machine → Outcome Machine
  wait_loop zero interrupts n last_elapsed_time m = elim (leb last_elapsed_time 4) [
    | true ↦ spent
    | false ↦ done m
  ]
  wait_loop (suc fuel) interrupts n last_elapsed_time m = elim (leb last_elapsed_time 4) [
    | true ↦ (do
      m' ← take_interrupts (interrupts n) m
      let cur_time = get_elapsed_time m'
      wait_loop fuel interrupts (n + 1) cur_time (print_tick cur_time last_elapsed_time m'))
    | false ↦ done m
  ]

  unfoldable pub hello_main : ℕ → (ℕ → ℕ) → Program → Outcome Program
  hello_main fuel interrupts p = do
    let c = pcount_enable true (pcount_reset (pcount_enable false p.counters))
    let greeted = record p.machine { trace = greeting p.machine.trace }
    let c' = pcount_enable false c
    enabled ← timer_enable read_fuel clock 2000 greeted
    m ← take_interrupts (interrupts 0) enabled
    m' ← wait_loop fuel interrupts 1 (get_elapsed_time m) m
    done (record { counters = c'; machine = m' })
