-- ===== src/SimpleSystem/Console.antt =====
-- Output of examples/sw/simple_system/common/simple_system_common.c. A volatile store to a device is
-- an entry of a trace, in program order.
pub mod Hex
mod Examples
use coco_ibex.Common.{
  ℕ, zero, suc, ◌+◌, ◌-◌, ◌*◌, ◌/◌, ◌%◌, ◌^◌, List, [], ◌∷◌, ◌++◌, ltb, if◌then◌else◌,
}

-- `DEV_WRITE(addr, val)`: a 32-bit store.
pub record DevWrite : Type 0 where
  pub addr : ℕ
  pub val : ℕ

abbrev pub Trace : Type 0
Trace = List DevWrite

abbrev pub sim_ctrl_base : ℕ
sim_ctrl_base = 0x20000

abbrev pub sim_ctrl_out : ℕ
sim_ctrl_out = 0x0

abbrev sim_ctrl_ctrl : ℕ
sim_ctrl_ctrl = 0x8

unfoldable pub dev_write : ℕ → ℕ → Trace → Trace
dev_write addr val t = t ++ record { addr = addr; val = val % 2 ^ 32 } ∷ []

-- `putchar`, which returns its argument and cannot fail.
unfoldable pub putchar : ℕ → Trace → Trace
putchar c = dev_write (sim_ctrl_base + sim_ctrl_out) (c % 2 ^ 8)

-- `puts` over the bytes before the terminator.
unfoldable pub puts : List ℕ → Trace → Trace
puts [] t = t
puts (c ∷ str) t = puts str (putchar c t)

-- The loop of `puthex` with `left` of its eight rounds to go.
unfoldable pub puthex_loop : ℕ → ℕ → Trace → Trace
puthex_loop zero h t = t
puthex_loop (suc left) h t =
    let cur_digit = h / 2 ^ 28 in
    let c = if ltb cur_digit 10 then b'0' + cur_digit else b'A' - 10 + cur_digit in
    puthex_loop left (h * 2 ^ 4 % 2 ^ 32) (putchar c t)

unfoldable pub puthex : ℕ → Trace → Trace
puthex h = puthex_loop 8 h

unfoldable pub sim_halt : Trace → Trace
sim_halt = dev_write (sim_ctrl_base + sim_ctrl_ctrl) 1
