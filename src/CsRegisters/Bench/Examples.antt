-- ===== src/CsRegisters/Bench/Examples.antt =====
-- A run of the testbench with an engine that counts.
use coco_ibex.Common.{ℕ, ◌≡◌, ◌+◌, true, false, List, [], ◌∷◌, codes, min}
use coco_ibex.CsRegisters.Register.{csr_write}
use coco_ibex.CsRegisters.Model.{Params, Transaction, register_model}
use coco_ibex.CsRegisters.Driver.{Drawn}
use coco_ibex.CsRegisters.Bench.{
  Pins, Tick, monitor, drive_tick, reset_tick, env_initial, bench_run,
}
use coco_ibex.CsRegisters.Bench.Verdict.{all_answers, bench_run-all_answers}

abbrev count_up : ℕ → ℕ → ℕ → Drawn ℕ
count_up lo hi gen = record { value = min (lo + gen) hi; engine = gen + 1 }

abbrev next : ℕ → Drawn ℕ
next gen = record { value = gen; engine = gen + 1 }

abbrev write_cfg : Transaction
write_cfg = record {
  csr_op = csr_write;
  illegal_csr = false;
  csr_addr = 0x3A0;
  csr_rdata = 0;
  csr_wdata = 0x9f9f1f1f;
}

abbrev params : Params
params = record {
  pmp_enable = true;
  pmp_granularity = 0;
  pmp_num_regions = 4;
  mhpm_counter_num = 8;
  mhpm_counter_width = 64;
}

abbrev written : Pins
written = record { rst_n = true; csr_access = true; csr_op_en = true; trans = write_cfg }

abbrev in_reset : Pins
in_reset = record { rst_n = false; csr_access = false; csr_op_en = false; trans = write_cfg }

abbrev ticks : List Tick
ticks =
    reset_tick (codes "rstn_driver")
    ∷ monitor (codes "reg_driver") in_reset
    ∷ drive_tick (codes "reg_driver")
    ∷ monitor (codes "reg_driver") written
    ∷ monitor (codes "other") in_reset
    ∷ []

bench_run-all_answers_example :
    (bench_run count_up next ticks (env_initial count_up next params 42 write_cfg)).simctrl.success
    ≡ all_answers ticks (register_model params)
bench_run-all_answers_example = bench_run-all_answers count_up next params 42 write_cfg ticks
