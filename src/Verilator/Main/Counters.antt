-- ===== src/Verilator/Main/Counters.antt =====
-- The counters in the output of `main`.
use coco_ibex.Common.{
  ℕ, ◌^◌, ◌<◌, ◌≤◌, ◌≡◌, refl, ◌∙◌, ap, arith, Bool, true, false, List, [], ◌∷◌, ◌++◌, some,
  Outcome, done, ◌>>=◌, length, All, codes,
}
use coco_ibex.Verilator.Pcount.{
  ibex_counter_names, ibex_pcount_string, pcount_lines, line_head, decimal,
}
use coco_ibex.Verilator.Pcount.ReadBack.{read_lines, entries, ibex_pcount_string-read_lines}
use coco_ibex.Verilator.MemUtil.Write.{Dpi, World}
use coco_ibex.Verilator.MemUtil.Options.{MemOption}
use coco_ibex.Verilator.Simulation.{Toplevel}
use coco_ibex.Verilator.Simulation.Exec.{CommandOption}
use coco_ibex.Verilator.Main.{MainResult, main}
use coco_ibex.Verilator.Main.Report.{Report, report_counters, main_report}

-- The lines of at least as many counters as there are names.
pcount_lines-done :
    (csv : Bool) (column : ℕ) (names : List (List ℕ)) (values : List ℕ)
    → length names ≤ length values
    → (text : List ℕ) × (pcount_lines csv column names values ≡ done text)
unfolding pcount_lines
pcount_lines-done csv column [] values e = ([], refl)
pcount_lines-done csv column (name ∷ names) [] e = absurd (omega (arith, e))
pcount_lines-done csv column (name ∷ names) (v ∷ values) e =
    let (later, rest) = pcount_lines-done csv column names values (omega (arith, e)) in
    (line_head csv column name ++ (decimal v ++ b'\n' ∷ later), rw rest refl)

ibex_pcount_string-done :
    (values : List ℕ) (csv : Bool)
    → length ibex_counter_names ≤ length values
    → (text : List ℕ) × (ibex_pcount_string values csv ≡ done text)
unfolding ibex_pcount_string
ibex_pcount_string-done values csv e = pcount_lines-done csv _ ibex_counter_names values e

-- What `main` reports with the two texts of the counters.
abbrev pub reported : List ℕ → List ℕ → Report
reported text csv = record {
  banner = codes "Simulation of Ibex\n==================\n\n";
  counters = codes "\nPerformance Counters\n====================\n" ++ text;
  pcount_csv = some csv;
  code = 0;
}

report_counters-zero :
    (pcounts text csv : List ℕ)
    → ibex_pcount_string pcounts false ≡ done text
    → ibex_pcount_string pcounts true ≡ done csv
    → report_counters pcounts 0 ≡ done (reported text csv)
unfolding report_counters
report_counters-zero pcounts text csv e f = rw (e, f) refl

module _ {M : Type 0} (d : Dpi M) (mhpmcounter_vals : World M → List ℕ) where
  -- Where `main` returns 0, and the design has a 64-bit counter for each name and maybe more, `main` has
  -- printed the named counters and written them to its file, every line of which reads back as the name and
  -- the value of a counter.
  pub main_report-read_lines :
      (top : Toplevel (World M)) (vm_trace : Bool) (clk rst : ℕ)
      (command_options : List CommandOption) (mem_options : List MemOption) (fuel : ℕ) (w : World M)
      (r : MainResult (World M))
      → main d top vm_trace clk rst command_options mem_options fuel w ≡ done r
      → r.code ≡ 0
      → All (λ (v : ℕ). v < 2 ^ 64) (mhpmcounter_vals r.simulator.state)
      → length ibex_counter_names ≤ length (mhpmcounter_vals r.simulator.state)
      → (text : List ℕ) × (csv : List ℕ) × (main_report d mhpmcounter_vals top vm_trace clk rst
            command_options mem_options fuel w
          ≡ done (reported text csv))
        × (ibex_pcount_string (mhpmcounter_vals r.simulator.state) false ≡ done text)
        × (read_lines (length ibex_counter_names) csv
            ≡ some (entries ibex_counter_names (mhpmcounter_vals r.simulator.state)))
  unfolding main_report
  main_report-read_lines top vm_trace clk rst command_options mem_options fuel w r e z small len =
      let values = mhpmcounter_vals r.simulator.state in
      let (text, shown) = ibex_pcount_string-done values false len in
      let (csv, written, back) = ibex_pcount_string-read_lines values small len in
      (
        text,
        csv,
        ap
              (λ (m : Outcome (MainResult (World M))). m >>= (λ (x : MainResult (World M)).
                report_counters (mhpmcounter_vals x.simulator.state) x.code))
              e
            ∙ ap (report_counters values) z
            ∙ report_counters-zero values text csv shown written,
        shown,
        back,
      )
