-- ===== src/SimpleSystem/Hello/Examples.antt =====
-- A run of the program in which every second call sees a new period.
use coco_ibex.Common.{ℕ, ◌%◌, ◌≡◌, ◌++◌, bit_or, min, refl, arith, done, [], codes}
use coco_ibex.SimpleSystem.Hello.{tick_line}
use coco_ibex.SimpleSystem.Hello.Run.{Program, hello_main}
use coco_ibex.SimpleSystem.Hello.Shown.{shown, greeting_text, tick_lines}
use coco_ibex.SimpleSystem.Hello.Output.{hello_main_lem}

-- A clock that stops, and an interrupt before every second call.
abbrev stopping : ℕ → ℕ
stopping n = min n 1_000_000

abbrev alternating : ℕ → ℕ
alternating n = n % 2

abbrev fresh : Program
fresh = record {
  counters = record { mcycle = 7; minstret = 5; mhpmcounters = []; mcountinhibit = 0 };
  machine = record {
    time_elapsed = 3;
    time_increment = 1;
    mie = 0;
    mstatus = 0;
    loads = 0;
    trace = [];
  };
}

hello_main_lem_example :
    (q : Program) × (hello_main stopping 11 alternating fresh ≡ done q)
    × (shown q.machine.trace ≡ shown [] ++ (greeting_text ++ tick_lines 5 1))
    × (q.counters.mcountinhibit ≡ 0xFFFF_FFFF)
    × (q.machine.mie ≡ bit_or 0 0x80)
hello_main_lem_example =
    hello_main_lem stopping (λ i j h. omega (arith, h)) (λ n. omega arith) (λ n. omega arith)
      alternating (λ n. omega arith) 11 fresh (omega arith)

five_lines : tick_lines 5 1 ≡ codes "Tick!\nTock!\nTick!\nTock!\nTick!\n"
unfolding tick_line
five_lines = refl
