-- ===== src/Verilator/Main/Benches.antt =====
-- The other simulations: dv/riscv_compliance/ibex_riscv_compliance.cc, which loads a RAM as the simple system
-- does, and dv/cs_registers/tb/tb_cs_registers.cc, which asks the testbench for its verdict.
use coco_ibex.Common.{ℕ, Bool, true, ◌==◌, List, [], Outcome, done, ◌>>=◌, if◌then◌else◌, codes}
use coco_ibex.Verilator.MemUtil.Areas.{Registered, register_default_width}
use coco_ibex.Verilator.MemUtil.Write.{Dpi, World}
use coco_ibex.Verilator.MemUtil.Options.{MemOption}
use coco_ibex.Verilator.Simulation.{Toplevel, simulator, set_top}
use coco_ibex.Verilator.Simulation.Exec.{CommandOption, Exit, exec}
use coco_ibex.Verilator.Main.{set_up}

module _ {M : Type 0} (d : Dpi M) where
  unfoldable compliance_main :
      Toplevel (World M)
      → Bool
      → ℕ
      → ℕ
      → List CommandOption
      → List MemOption
      → ℕ
      → World M
      → Outcome (Exit (World M))
  compliance_main top vm_trace clk rst command_options mem_options fuel w =
      register_default_width (codes "ram") (codes "TOP.ibex_riscv_compliance.u_ram") []
      >>= (λ (r : Registered).
          exec top command_options fuel (set_up d vm_trace clk rst mem_options r w))

module _ {S : Type 0} (test_passed_o : S → Bool) where
  -- The exit code is that of `Exec`, or, where this is 0, the negation of the design's output.
  unfoldable pub tb_result : Exit S → Exit S
  tb_result e = record e {
    code = if e.code == 0 then (if test_passed_o e.simulator.state then 0 else 1) else e.code;
  }

  unfoldable pub tb_main : Toplevel S → Bool → ℕ → ℕ → List CommandOption → ℕ → S → Outcome (Exit S)
  tb_main top vm_trace clk rst command_options fuel state =
      exec top command_options fuel (set_top clk rst true (simulator vm_trace state))
      >>= (λ (e : Exit S). done (tb_result e))
