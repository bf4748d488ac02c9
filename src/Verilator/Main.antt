-- ===== src/Verilator/Main.antt =====
-- The simulation of the simple system: examples/simple_system/ibex_simple_system.cc, where the loader is
-- an extension of the controller.
pub mod Loaded
pub mod Image
pub mod Report
pub mod Counters
pub mod Benches
pub mod TestPassed
pub mod Design
mod Examples
use coco_ibex.Common.{
  ℕ, Bool, true, false, not, ◌==◌, List, [], ◌∷◌, Outcome, done, ◌>>=◌, if◌then◌else◌, codes,
}
use coco_ibex.Verilator.MemUtil.Areas.{MemArea, Registered, register_default_width}
use coco_ibex.Verilator.MemUtil.Write.{Dpi, World}
use coco_ibex.Verilator.MemUtil.Options.{MemOption, CliResult, parse_cli_arguments}
use coco_ibex.Verilator.Simulation.{
  Parsed, Extension, Toplevel, Simulator, simulator, set_top, register_extension,
}
use coco_ibex.Verilator.Simulation.Exec.{CommandOption, Exit, exec}

-- What `main` leaves and returns.
pub record MainResult (S : Type 0) : Type 0 where
  pub simulator : Simulator S
  pub code : ℕ

module _ {M : Type 0} (d : Dpi M) where
  -- `VerilatorMemUtil` as an extension, on the command line in which `getopt_long` finds its options. It
  -- takes the other calls as the extension's class does.
  unfoldable pub memutil_extension : List MemArea → List MemOption → Extension (World M)
  memutil_extension areas options = record {
    parse_cli_arguments = λ exit_app w.
        parse_cli_arguments d areas exit_app options w >>= (λ (r : CliResult M).
          done (record { state = r.world; exit_app = r.exit_app; success = r.success }));
    pre_exec = λ w. record { state = w; requests = [] };
    on_clock = λ time w. record { state = w; requests = [] };
    post_exec = λ w. record { state = w; requests = [] };
  }

  -- The controller before `Exec`, with the clock and the reset at the levels that the design has.
  unfoldable pub set_up : Bool → ℕ → ℕ → List MemOption → Registered → World M → Simulator (World M)
  set_up vm_trace clk rst options r w =
      register_extension (memutil_extension r.areas options)
        (set_top clk rst true (simulator vm_trace w))

  -- `main`, where `getopt_long` finds one list of options for the controller and one for the loader. What
  -- it prints is in `Report`.
  unfoldable pub main :
      Toplevel (World M)
      → Bool
      → ℕ
      → ℕ
      → List CommandOption
      → List MemOption
      → ℕ
      → World M
      → Outcome (MainResult (World M))
  main top vm_trace clk rst command_options mem_options fuel w =
      register_default_width (codes "ram") (codes "TOP.ibex_simple_system.u_ram") []
      >>= (λ (r : Registered).
          exec top command_options fuel (set_up vm_trace clk rst mem_options r w)
          >>= (λ (e : Exit (World M)).
              done (record { simulator = e.simulator; code = if e.code == 0 then 0 else 1 })))
