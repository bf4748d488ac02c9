-- ===== src/CsRegisters/Testbench/Examples.antt =====
-- A run of the testbench's simulation with a core that counts its evaluations.
use coco_ibex.Common.{
  ℕ, ◌+◌, ◌≡◌, refl, arith, true, false, List, [], ◌∷◌, done, codes, min, ltb, if◌then◌else◌,
}
use coco_ibex.Verilator.Simulation.{
  Toplevel, simulator, set_top, set_reset, unset_reset, handle_signals, trace,
}
use coco_ibex.Verilator.Simulation.Loop.{
  start_run, run_round, advance_time, eval_top, on_clock_edge, toggle_clock, drive_reset,
  call_extensions, is_over, sign_extended,
}
use coco_ibex.Verilator.Simulation.Rounds.{rounds, goes_on}
use coco_ibex.Verilator.Simulation.Exec.{
  Arguments, Exit, unknown_option, parse_command_args, parse_extensions,
}
use coco_ibex.Verilator.Main.Benches.{tb_main}
use coco_ibex.CsRegisters.Register.{csr_read, csr_write}
use coco_ibex.CsRegisters.Model.{Params, Transaction, register_model}
use coco_ibex.CsRegisters.Driver.{Drawn}
use coco_ibex.CsRegisters.Bench.{Pins, monitor, drive_tick, reset_tick}
use coco_ibex.CsRegisters.Testbench.{
  CsrInputs, Design, Step, core_step, env_step, call, end_design, step, steps,
}
use coco_ibex.CsRegisters.Testbench.Judged.{judged_calls, told}
use coco_ibex.CsRegisters.Testbench.Returned.{begun, InSteps, tb_main-all_answers}

abbrev count_up : ℕ → ℕ → ℕ → Drawn ℕ
count_up lo hi gen = record { value = min (lo + gen) hi; engine = gen + 1 }

abbrev next : ℕ → Drawn ℕ
next gen = record { value = gen; engine = gen + 1 }

abbrev params : Params
params = record {
  pmp_enable = true;
  pmp_granularity = 0;
  pmp_num_regions = 4;
  mhpm_counter_num = 8;
  mhpm_counter_width = 64;
}

abbrev answer : Transaction
answer = record {
  csr_op = csr_write;
  illegal_csr = false;
  csr_addr = 0x3A0;
  csr_rdata = 0;
  csr_wdata = 0x1f;
}

abbrev written : Pins
written = record { rst_n = true; csr_access = true; csr_op_en = true; trans = answer }

abbrev inputs : CsrInputs
inputs = record {
  csr_access = false;
  csr_op = csr_read;
  csr_op_en = false;
  csr_addr = 0;
  csr_wdata = 0;
}

-- What the design does at an evaluation.
abbrev edge : ℕ → List (Step ℕ)
edge n =
    core_step (n + 1)
    ∷ env_step
    ∷ call (reset_tick (codes "rstn_driver"))
    ∷ call (monitor (codes "reg_driver") written)
    ∷ call (drive_tick (codes "reg_driver"))
    ∷ []

abbrev counting : Toplevel (Design ℕ ℕ)
counting = record {
  eval = λ clk rst d. steps count_up next (edge d.core) d;
  got_finish = λ d. ltb 2 d.core;
  final = λ d. end_design count_up next d;
  start_trace = λ d. d;
  command_args = λ d. d;
  signals = λ time. [];
}

counting-InSteps : InSteps count_up next counting
unfolding steps
counting-InSteps = record {
  eval_steps = λ clk rst d. (edge d.core, refl);
  final_steps = λ d. ([], refl);
  start_trace_steps = λ d. ([], refl);
  command_args_steps = λ d. ([], refl);
}

abbrev accepted : Arguments (Design ℕ ℕ)
accepted = record {
  simulator = set_top 0 0 true (simulator false (begun count_up next params 42 answer 0 inputs));
  exit_app = false;
  success = true;
}

tb_main-all_answers_example :
    (out : Exit (Design ℕ ℕ)) × (made : List (Step ℕ)) × (tb_main
        (λ (d : Design ℕ ℕ). d.env_outputs.test_passed)
        counting
        false
        0
        0
        (unknown_option ∷ [])
        9
        (begun count_up next params 42 answer 0 inputs)
      ≡ done out)
    × (out.simulator.state
        ≡ end_design count_up next
            (steps count_up next made (begun count_up next params 42 answer 0 inputs)))
    × (out.code ≡ (if told true (register_model params) false (judged_calls made) then 0 else 1))
unfolding set_top simulator parse_command_args parse_extensions goes_on rounds start_run run_round
    trace advance_time eval_top on_clock_edge toggle_clock drive_reset set_reset unset_reset
    handle_signals call_extensions is_over sign_extended steps step
tb_main-all_answers_example =
    tb_main-all_answers count_up next params 42 answer 0 inputs counting false 0 0
      (unknown_option ∷ []) 1 9 accepted counting-InSteps refl refl refl refl refl (ground arith)
