-- ===== src/SimpleSystem/Exception.antt =====
-- The exception handler of examples/sw/simple_system/common/simple_system_common.c, up to the endless
-- loop behind `sim_halt`. The values of `mepc`, `mcause` and `mtval` are parameters.
pub mod Report
mod Examples
use coco_ibex.Common.{ℕ, codes}
use coco_ibex.SimpleSystem.Console.{Trace, putchar, puts, puthex, sim_halt}

unfoldable pub simple_exc_handler : ℕ → ℕ → ℕ → Trace → Trace
simple_exc_handler mepc mcause mtval t =
    let t1 = puts (codes "EXCEPTION!!!\n") t in
    let t2 = puts (codes "============\n") t1 in
    let t3 = puthex mepc (puts (codes "MEPC:   0x%0X") t2) in
    let t4 = puthex mcause (puts (codes "\nMCAUSE: 0x%0X") t3) in
    let t5 = puthex mtval (puts (codes "\nMTVAL:  0x%0X") t4) in sim_halt (putchar b'\n' t5)
