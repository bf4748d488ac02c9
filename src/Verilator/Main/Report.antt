-- ===== src/Verilator/Main/Report.antt =====
-- What `main` of examples/simple_system/ibex_simple_system.cc prints around the simulation, and the file
-- that it writes.
use coco_ibex.Common.{
  ℕ, Bool, true, false, ◌==◌, List, [], ◌++◌, Option, none, some, Outcome, done, ◌>>=◌, codes,
}
use coco_ibex.Verilator.Pcount.{ibex_pcount_string}
use coco_ibex.Verilator.MemUtil.Write.{Dpi, World}
use coco_ibex.Verilator.MemUtil.Options.{MemOption}
use coco_ibex.Verilator.Simulation.{Toplevel}
use coco_ibex.Verilator.Simulation.Exec.{CommandOption}
use coco_ibex.Verilator.Main.{MainResult, main}

-- What comes before the messages of `Exec` and what comes behind them, the file
-- `ibex_simple_system_pcount.csv`, if it is written, and the result of `main`.
pub record Report : Type 0 where
  pub banner : List ℕ
  pub counters : List ℕ
  pub pcount_csv : Option (List ℕ)
  pub code : ℕ

abbrev banner_text : List ℕ
banner_text = codes "Simulation of Ibex\n==================\n\n"

-- The end of `main`, where `Exec` has given 0 or not.
unfoldable pub report_counters : List ℕ → ℕ → Outcome Report
report_counters pcounts code = elim (code == 0) [
  | false ↦ done (record { banner = banner_text; counters = []; pcount_csv = none; code = code })
  | true ↦ ibex_pcount_string pcounts false >>= (λ (text : List ℕ).
      ibex_pcount_string pcounts true >>= (λ (csv : List ℕ). done (record {
        banner = banner_text;
        counters = codes "\nPerformance Counters\n====================\n" ++ text;
        pcount_csv = some csv;
        code = code;
      })))
]

module _ {M : Type 0} (d : Dpi M) (mhpmcounter_vals : World M → List ℕ) where
  -- `main` with its output, where `mhpmcounter_vals` are the counters of the design.
  unfoldable pub main_report :
      Toplevel (World M)
      → Bool
      → ℕ
      → ℕ
      → List CommandOption
      → List MemOption
      → ℕ
      → World M
      → Outcome Report
  main_report top vm_trace clk rst command_options mem_options fuel w =
      main d top vm_trace clk rst command_options mem_options fuel w
      >>= (λ (r : MainResult (World M)).
          report_counters (mhpmcounter_vals r.simulator.state) r.code)
