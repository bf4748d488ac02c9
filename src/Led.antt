-- ===== src/Led.antt =====
-- The blinking LED of examples/sw/led/led.c, with the cycles of its waits: an `unsigned long` and a register
-- have 32 bits. An instruction takes a cycle, and a branch that is taken two more, as doc/pipeline_details.rst
-- says of a core without a branch target ALU and with a memory that answers at once.
pub mod Delay
pub mod Blink
mod Examples
use coco_ibex.Common.{
  ℕ, zero, suc, ◌+◌, ◌-◌, ◌*◌, ◌/◌, ◌%◌, ◌^◌, true, false, Outcome, done, spent, ◌>>=◌, ◌==◌,
}

abbrev clk_fixed_freq_hz : ℕ
clk_fixed_freq_hz = 50 * 1000 * 1000

-- One pass over the six instructions, four of `nop`, `addi` and `bnez`, where the branch is taken, and the
-- last one, where it is not.
abbrev round_cycles : ℕ
round_cycles = 1 + 1 + 1 + 1 + 1 + 3

abbrev last_cycles : ℕ
last_cycles = 1 + 1 + 1 + 1 + 1 + 1

-- The loop in assembly, with fuel for its rounds: `addi` wraps around, and `bnez` leaves at zero. The
-- result is the number of cycles.
unfoldable pub delay_loop : ℕ → ℕ → ℕ → Outcome ℕ
delay_loop zero loops cycles = spent
delay_loop (suc fuel) loops cycles =
    let left = (loops + (2 ^ 32 - 1)) % 2 ^ 32 in
    elim (left == 0) [
      | true ↦ done (cycles + last_cycles)
      | false ↦ delay_loop fuel left (cycles + round_cycles)
    ]

unfoldable pub delay_loop_ibex : ℕ → Outcome ℕ
delay_loop_ibex loops = delay_loop (2 ^ 32) loops 0

-- The product and the quotients are of 64 bits, and the assignment to `usec_cycles` keeps the low 32.
unfoldable pub usec_cycles : ℕ → ℕ
usec_cycles usec = clk_fixed_freq_hz * usec % 2 ^ 64 / 1000 / 1000 / 8 % 2 ^ 32

unfoldable pub usleep_ibex : ℕ → Outcome ℕ
usleep_ibex usec = delay_loop_ibex (usec_cycles usec)

unfoldable pub usleep : ℕ → Outcome ℕ
usleep usec = usleep_ibex usec

-- The byte at `var` and the cycles of the waits since it was first written.
pub record Led : Type 0 where
  pub value : ℕ
  pub waited : ℕ

unfoldable pub first_write : Led
first_write = record { value = 0x0a; waited = 0 }

-- `*var = ~(*var)`, on a byte.
unfoldable pub toggle : Led → Led
toggle led = record led { value = 255 - led.value }

-- The loop of `main`, which does not end: so many of its rounds.
unfoldable pub blink : ℕ → Led → Outcome Led
blink zero led = done led
blink (suc rounds) led = do
  cycles ← usleep (1000 * 1000)
  blink rounds (toggle (record led { waited = led.waited + cycles }))

unfoldable pub main_rounds : ℕ → Outcome Led
main_rounds rounds = blink rounds first_write
