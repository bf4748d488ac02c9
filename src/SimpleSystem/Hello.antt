-- ===== src/SimpleSystem/Hello.antt =====
-- examples/sw/simple_system/hello_test/hello_test.c: what it prints. `Run` has the whole of `main`.
pub mod Run
pub mod Shown
pub mod Output
mod Examples
use coco_ibex.Common.{ℕ, List, [], ◌==◌, if◌then◌else◌, bit_and, codes}
use coco_ibex.SimpleSystem.Console.{Trace, puts, puthex, putchar}

-- The greeting that `main` prints first.
unfoldable pub greeting : Trace → Trace
greeting t =
    let hello = puts (codes "Hello simple system\n") t in
    let first = putchar b'\n' (puthex 0xDEAD_BEEF hello) in putchar b'\n' (puthex 0xBAAD_F00D first)

abbrev tick : List ℕ
tick = codes "Tick!\n"

abbrev tock : List ℕ
tock = codes "Tock!\n"

unfoldable pub tick_line : ℕ → List ℕ
tick_line time = if bit_and time 1 == 0 then tock else tick
