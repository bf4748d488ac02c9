-- ===== src/Led/Examples.antt =====
-- The waits of the LED program at concrete times.
use coco_ibex.Common.{ℕ, ◌≤◌, ◌+◌, ◌≡◌, refl, arith, done}
use coco_ibex.Led.{delay_loop, delay_loop_ibex, usec_cycles, usleep_ibex, usleep, main_rounds}
use coco_ibex.Led.Delay.{usleep-cycles}
use coco_ibex.Led.Blink.{shown, main_rounds_lem}

short_wait : usleep 2 ≡ done 94
unfolding usleep usleep_ibex usec_cycles delay_loop_ibex delay_loop
short_wait = refl

usleep-cycles_example :
    (cycles : ℕ) × (usleep 3 ≡ done cycles) × (cycles + 2 ≤ 150) × (150 ≤ cycles + 9)
usleep-cycles_example = usleep-cycles 3 (omega arith) (omega arith)

main_rounds_lem_example : main_rounds 3 ≡ done (record { value = shown 3; waited = 149_999_994 })
main_rounds_lem_example = main_rounds_lem 3
