-- ===== src/SimpleSystem/Console/Examples.antt =====
-- Tests of the console output and its theorems at concrete values.
use coco_ibex.Common.{◌≡◌, refl, [], ◌∷◌, codes}
use coco_ibex.SimpleSystem.Console.{dev_write, putchar, puts, puthex, puthex_loop, sim_halt}

puthex_runs : puthex 0xdead_beef [] ≡ puts (codes "DEADBEEF") []
unfolding puthex puthex_loop puts putchar dev_write
puthex_runs = refl

halt_runs : sim_halt [] ≡ record { addr = 0x20008; val = 1 } ∷ []
unfolding sim_halt dev_write
halt_runs = refl
