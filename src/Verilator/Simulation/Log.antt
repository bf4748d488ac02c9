-- ===== src/Verilator/Simulation/Log.antt =====
-- What simutil_verilator/cpp/verilator_sim_ctrl.cc prints on standard output.
use coco_ibex.Common.{
  ℕ, zero, suc, ◌-◌, ◌/◌, ◌%◌, ◌^◌, Bool, not, ◌&&◌, ◌==◌, ltb, leb, List, [], ◌∷◌, ◌++◌, Option,
  none, some, Outcome, done, fault, spent, ◌>>=◌, if◌then◌else◌, codes,
}
use coco_ibex.Verilator.Pcount.{decimal}
use coco_ibex.Verilator.Simulation.{Extension, Toplevel, Simulator, unset_reset, handle_signals}
use coco_ibex.Verilator.Simulation.Loop.{
  sign_extended, drive_reset, toggle_clock, on_clock_edge, eval_top, advance_time, run_round,
  is_over, call_extensions, start_run,
}
use coco_ibex.Verilator.Simulation.Exec.{run_simulation}

-- What the messages depend on besides the controller: the build option for FST traces, the name of the
-- top level, the process, the clock in nanoseconds at the two ends of a run, and the size of a file as
-- `stat` gives it.
pub record Host : Type 0 where
  pub vm_trace_fmt_fst : Bool
  pub name : List ℕ
  pub pid : ℕ
  pub time_begin : ℕ
  pub time_end : ℕ
  pub st_size : List ℕ → Option ℕ

-- `double`: of a number, the quotient by another, and the text that a stream gives it.
pub record Doubles : Type 1 where
  pub Double : Type 0
  of_number : ℕ → Double
  pub divide : Double → Double → Double
  show : Double → List ℕ

-- An `int` on a stream, from its 32 bits.
unfoldable pub int_text : ℕ → List ℕ
int_text n = if ltb n (2 ^ 31) then decimal n else b'-' ∷ decimal (2 ^ 32 - n)

unfoldable pub get_trace_file_name : Host → List ℕ
get_trace_file_name h = if h.vm_trace_fmt_fst then codes "sim.fst" else codes "sim.vcd"

unfoldable get_execution_time_ms : Host → ℕ
get_execution_time_ms h = (h.time_end - h.time_begin) / 10 ^ 6 % 2 ^ 32

-- `FileSize`: the size, as an `int`, or none.
unfoldable file_size : Host → List ℕ → Option ℕ
file_size h filepath = elim (h.st_size filepath) [ none ↦ none | some size ↦ some (size % 2 ^ 32) ]

-- The line on the size of the trace file, where it is known.
unfoldable trace_size_text : Option ℕ → List ℕ
trace_size_text none = []
trace_size_text (some size) = codes "Trace file size:  " ++ (int_text size ++ codes " B\n")

module _ {S : Type 0} (h : Host) where
  unfoldable get_name : Simulator S → List ℕ
  get_name s = if s.top_set then h.name else codes "unknown"

  unfoldable print_help : Simulator S → List ℕ
  print_help s =
      codes "Execute a simulation model for "
      ++ (get_name s
          ++ (codes "\n\n"
              ++ ((if s.tracing_possible
                    then codes "-t|--trace\n  Write a trace file from the start\n\n"
                    else [])
                  ++ codes
                      "-c|--term-after-cycles=N\n  Terminate simulation after N cycles\n\n-h|--help\n  Show help\n\nAll arguments are passed to the design and can be used in the design, e.g. by DPI modules.\n\n")))

  -- The messages of `Trace`, in a state before it.
  unfoldable pub trace_text : Simulator S → List ℕ
  trace_text s =
      (if s.tracing_enabled_changed
        then (if s.tracing_enabled then codes "Tracing enabled.\n" else codes "Tracing disabled.\n")
        else [])
      ++ (if s.tracing_enabled && not s.trace_open
          then codes "Writing simulation traces to " ++ (get_trace_file_name h ++ b'\n' ∷ [])
          else [])

  -- A round up to its call of `Trace`.
  unfoldable pub before_trace : Toplevel S → Simulator S → Simulator S
  before_trace top s = advance_time (
      eval_top top
        (on_clock_edge (toggle_clock (drive_reset (handle_signals (top.signals s.time) s)))))

  -- The message of the first test that holds at the end of a round.
  unfoldable pub stop_text : Toplevel S → Simulator S → List ℕ
  stop_text top s =
      if s.request_stop
      then codes "Received stop request, shutting down simulation.\n"
      else if top.got_finish s.state
      then codes "Received $finish() from Verilog, shutting down simulation.\n"
      else if not (s.term_after_cycles == 0) && leb (sign_extended s.term_after_cycles) (s.time / 2)
      then codes "Simulation timeout of "
        ++ (int_text s.term_after_cycles ++ codes " cycles reached, shutting down simulation.\n")
      else []

  -- The messages of the loop, in step with `run_loop`.
  unfoldable pub loop_messages : Toplevel S → ℕ → Simulator S → Outcome (List ℕ)
  loop_messages top zero s = spent
  loop_messages top (suc fuel) s =
      let text = trace_text (before_trace top s) in
      let after = run_round top s in
      let later = loop_messages top fuel after >>= (λ (rest : List ℕ). done (text ++ rest)) in
      if is_over top after then done (text ++ stop_text top after) else later

  -- `Run`, in step with `run`.
  unfoldable pub run_messages : Toplevel S → ℕ → Simulator S → Outcome (List ℕ)
  run_messages top fuel s =
      let traced = if s.tracing_possible then record s { state = top.start_trace s.state } else s in
      let begun = unset_reset (eval_top top traced) in
      let looped = loop_messages top fuel (start_run top s) >>= (λ (text : List ℕ).
        done (
          codes "\nSimulation running, end by pressing CTRL-c.\n" ++ (trace_text begun ++ text))) in
      if s.top_set then looped else fault

  unfoldable print_statistics : Doubles → Simulator S → List ℕ
  print_statistics d s =
      let seconds = d.divide (d.of_number (get_execution_time_ms h)) (d.of_number 1000) in
      let speed_hz = d.divide (d.of_number (s.time / 2)) seconds in
      let speed_khz = d.divide speed_hz (d.of_number 1000) in
      codes "\nSimulation statistics\n=====================\nExecuted cycles:  "
      ++ (decimal (s.time / 2)
          ++ (codes "\nWallclock time:   "
              ++ (d.show seconds
                  ++ (codes " s\nSimulation speed: "
                      ++ (d.show speed_hz
                          ++ (codes " cycles/s ("
                              ++ (d.show speed_khz
                                  ++ (codes " kHz)\n"
                                      ++ (if s.tracing_enabled
                                          then trace_size_text (file_size h (get_trace_file_name h))
                                          else [])))))))))

  unfoldable tracing_hint : Simulator S → List ℕ
  tracing_hint s =
      if s.tracing_possible
      then codes "Tracing can be toggled by sending SIGUSR1 to this process:\n$ kill -USR1 "
        ++ (decimal h.pid ++ b'\n' ∷ [])
      else []

  unfoldable view_hint : Simulator S → List ℕ
  view_hint s =
      if s.tracing_ever_enabled
      then codes "\nYou can view the simulation traces by calling\n$ gtkwave "
        ++ (get_trace_file_name h ++ b'\n' ∷ [])
      else []

  -- `RunSimulation`, in step with `run_simulation`.
  unfoldable run_simulation_messages : Doubles → Toplevel S → ℕ → Simulator S → Outcome (List ℕ)
  run_simulation_messages d top fuel s =
      run_messages top fuel
        (call_extensions (λ (ext : Extension S). ext.pre_exec) s.extension_array s)
      >>= (λ (text : List ℕ). run_simulation top fuel s >>= (λ (out : Simulator S).
          done (tracing_hint s ++ (text ++ (print_statistics d out ++ view_hint out)))))
