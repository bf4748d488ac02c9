-- ===== src/Verilator/Simulation/Examples.antt =====
-- A design without behaviour of its own, with extensions that end the run.
use coco_ibex.Common.{
  ℕ, List, ◌++◌, none, ◌+◌, ◌*◌, ◌%◌, ◌≤◌, ◌≡◌, refl, arith, Bool, true, false, ◌||◌, ◌==◌, [], ◌∷◌,
  Outcome, done, fault, spent, codes, ◌⊎◌, if◌then◌else◌,
}
use coco_ibex.Verilator.Simulation.{
  Extension, Toplevel, Simulator, sigusr1, trace_on, trace_off, trace, set_reset, unset_reset,
  handle_signals, handle_signal, stop_simulation,
}
use coco_ibex.Verilator.Simulation.Loop.{
  run, run_loop, end_run, run_round, advance_time, eval_top, on_clock_edge, toggle_clock,
  drive_reset, is_over, sign_extended, start_run, call_extensions, take_requests,
}
use coco_ibex.Verilator.Simulation.Exec.{
  term_after, Arguments, Exit, parse_command_args, parse_extensions, exec, atoi, atoi_signed,
  atoi_digits,
}
use coco_ibex.Verilator.Simulation.Log.{
  Host, get_trace_file_name, int_text, trace_text, before_trace, stop_text, loop_messages,
  run_messages,
}
use coco_ibex.Verilator.Simulation.Stop.{Ending, run_messages-stop}
use coco_ibex.Verilator.Pcount.{decimal_digits}
use coco_ibex.Verilator.Simulation.Core.{core_of}
use coco_ibex.Verilator.Simulation.Rounds.{rounds, goes_on}
use coco_ibex.Verilator.Simulation.Reset.{reset_level, rounds-reset, run_loop-timeout}
use coco_ibex.Verilator.Simulation.Result.{loop_start, exec-Failed}

-- An extension that asks for a stop at a time, with a verdict.
abbrev stopper : ℕ → Bool → Extension ℕ
stopper at success = record {
  parse_cli_arguments =
      λ exit_app s. done (record { state = s; exit_app = exit_app; success = true });
  pre_exec = λ s. record { state = s; requests = [] };
  on_clock = λ time s. record { state = s + 1; requests = if time == at then success ∷ [] else [] };
  post_exec = λ s. record { state = s; requests = true ∷ [] };
}

abbrev top : Toplevel ℕ
top = record {
  eval = λ clk rst s. s;
  got_finish = λ s. false;
  final = λ s. s;
  start_trace = λ s. s;
  command_args = λ s. s;
  signals = λ time. if time == 1 then sigusr1 ∷ [] else [];
}

abbrev fresh : Simulator ℕ
fresh = record {
  top_set = true;
  sig_clk = 0;
  sig_rst = 1;
  negative = true;
  time = 0;
  tracing_enabled = false;
  tracing_enabled_changed = false;
  tracing_ever_enabled = false;
  tracing_possible = true;
  initial_reset_delay_cycles = 2;
  reset_duration_cycles = 2;
  request_stop = false;
  simulation_success = true;
  trace_open = false;
  dumps = [];
  term_after_cycles = 3;
  extension_array = [];
  state = 0;
}

rounds-reset_example :
    ((rounds top 6 fresh).time ≡ 6)
    × ((rounds top 6 fresh).sig_clk ≡ 6 % 2)
    × ((rounds top 6 fresh).sig_rst ≡ reset_level (core_of fresh) 5)
unfolding core_of
rounds-reset_example = rounds-reset top 5 fresh (refl, refl, refl, ground arith) (ground arith)

run_loop-timeout_example :
    (out : Simulator ℕ) × (run_loop top 9 fresh ≡ done out)
    × (out.time ≤ 2 * 3)
    × (((out.request_stop || top.got_finish out.state) ≡ true) ⊎ (out.time ≡ 2 * 3))
unfolding core_of
run_loop-timeout_example =
    run_loop-timeout top 9 fresh (refl, refl, refl, ground arith) (ground arith) (ground arith)
      (ground arith)

-- What a run returns.
abbrev returned : Outcome (Simulator ℕ) → Simulator ℕ
returned (done out) = out
returned fault = fresh
returned spent = fresh

run_traced : run top 9 fresh ≡ done (returned (run top 9 fresh))
unfolding run run_loop start_run end_run run_round trace advance_time eval_top on_clock_edge
    toggle_clock drive_reset set_reset unset_reset handle_signals handle_signal stop_simulation
    trace_on trace_off call_extensions take_requests is_over sign_extended
run_traced = refl

-- The dumps of that run, which a signal starts at the time 1.
dumps_lem : (returned (run top 9 fresh)).dumps ≡ 6 ∷ 5 ∷ 4 ∷ 3 ∷ 2 ∷ []
unfolding run run_loop start_run end_run run_round trace advance_time eval_top on_clock_edge
    toggle_clock drive_reset set_reset unset_reset handle_signals handle_signal stop_simulation
    trace_on trace_off call_extensions take_requests is_over sign_extended
dumps_lem = refl

abbrev failing : Simulator ℕ
failing = record fresh { extension_array = stopper 2 false ∷ [] }

abbrev accepted : Arguments ℕ
accepted = record {
  simulator = record failing { term_after_cycles = 7 };
  exit_app = false;
  success = true;
}

accepted_lem : parse_command_args top (term_after (codes "7") ∷ []) false failing ≡ done accepted
unfolding parse_command_args parse_extensions atoi atoi_signed atoi_digits
accepted_lem = refl

exec-Failed_example :
    (out : Exit ℕ) × (exec top (term_after (codes "7") ∷ []) 9 failing ≡ done out)
    × (out.code ≡ 1)
    × (out.simulator.time ≡ (rounds top 3 (loop_start top accepted.simulator)).time)
unfolding goes_on rounds start_run run_round trace advance_time eval_top on_clock_edge toggle_clock
    drive_reset set_reset unset_reset handle_signals handle_signal stop_simulation trace_on
    trace_off call_extensions take_requests is_over sign_extended
exec-Failed_example =
    exec-Failed top (term_after (codes "7") ∷ []) 2 9 failing accepted accepted_lem refl refl refl
      refl refl refl (ground arith)

abbrev host : Host
host = record {
  vm_trace_fmt_fst = false;
  name = codes "ibex_simple_system";
  pid = 42;
  time_begin = 0;
  time_end = 0;
  st_size = λ path. none;
}

looped :
    run_loop top 9 (start_run top fresh) ≡ done (returned (run_loop top 9 (start_run top fresh)))
unfolding run_loop start_run run_round trace advance_time eval_top on_clock_edge toggle_clock
    drive_reset set_reset unset_reset handle_signals handle_signal stop_simulation trace_on
    trace_off call_extensions take_requests is_over sign_extended
looped = refl

run_messages-stop_example :
    (text : List ℕ) × (last : List ℕ) × (run_messages host top 9 fresh ≡ done (text ++ last))
    × Ending host top (returned (run_loop top 9 (start_run top fresh))) last
run_messages-stop_example = run_messages-stop host top 9 fresh _ refl looped

messages :
    run_messages host top 9 fresh
    ≡ done (
        codes
          "\nSimulation running, end by pressing CTRL-c.\nTracing enabled.\nWriting simulation traces to sim.vcd\nSimulation timeout of 3 cycles reached, shutting down simulation.\n")
unfolding run_messages loop_messages before_trace trace_text stop_text get_trace_file_name int_text
    decimal_digits start_run run_round trace advance_time eval_top on_clock_edge toggle_clock
    drive_reset set_reset unset_reset handle_signals handle_signal stop_simulation trace_on
    trace_off call_extensions take_requests is_over sign_extended
messages = refl
