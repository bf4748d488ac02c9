-- ===== src/Verilator/Simulation.antt =====
-- The simulation controller: simutil_verilator/cpp/verilator_sim_ctrl.cc, with the state of
-- verilator_sim_ctrl.h. What it prints is in `Log`.
pub mod Loop
pub mod Exec
pub mod Core
pub mod Reset
pub mod Rounds
pub mod Trace
pub mod Verdict
pub mod Result
pub mod Log
pub mod Stop
mod Examples
use coco_ibex.Common.{
  Outcome, ℕ, ◌%◌, ◌^◌, Bool, true, false, not, ◌&&◌, ◌||◌, List, [], ◌∷◌, ◌++◌, if◌then◌else◌,
}

-- What a call into an extension leaves of its state and the design's, and the calls of `RequestStop`
-- that it made, in their order.
pub record Reply (S : Type 0) : Type 0 where
  pub state : S
  pub requests : List Bool

-- What the parse of the arguments by an extension leaves and returns.
pub record Parsed (S : Type 0) : Type 0 where
  pub state : S
  pub exit_app : Bool
  pub success : Bool

-- A `SimCtrlExtension`.
pub record Extension (S : Type 0) : Type 0 where
  pub parse_cli_arguments : Bool → S → Outcome (Parsed S)
  pub pre_exec : S → Reply S
  pub on_clock : ℕ → S → Reply S
  pub post_exec : S → Reply S

-- The signals that the controller handles.
pub data Signal : Type 0 where
  sigint sigusr1 : Signal

-- The verilated design and Verilator itself: `eval` with the clock and the reset, `gotFinish`, `final`,
-- what is done before a run that may be traced, and `commandArgs`. `signals` are the signals that arrive
-- before the round of the loop that begins at a time.
pub record Toplevel (S : Type 0) : Type 0 where
  pub eval : ℕ → ℕ → S → S
  pub got_finish : S → Bool
  pub final : S → S
  pub start_trace : S → S
  pub command_args : S → S
  pub signals : ℕ → List Signal

-- `VerilatorSimCtrl`. `negative` is `flags_ & ResetPolarityNegative`, and `trace_open` and `dumps` are
-- the tracer: the times of its dumps, the last one first. `term_after_cycles` is the `int`, modulo 2 ^ 32.
pub record Simulator (S : Type 0) : Type 0 where
  pub top_set : Bool
  pub sig_clk : ℕ
  pub sig_rst : ℕ
  pub negative : Bool
  pub time : ℕ
  pub tracing_enabled : Bool
  pub tracing_enabled_changed : Bool
  pub tracing_ever_enabled : Bool
  pub tracing_possible : Bool
  pub initial_reset_delay_cycles : ℕ
  pub reset_duration_cycles : ℕ
  pub request_stop : Bool
  pub simulation_success : Bool
  pub trace_open : Bool
  pub dumps : List ℕ
  pub term_after_cycles : ℕ
  pub extension_array : List (Extension S)
  pub state : S

-- `old_tracing_enabled != tracing_enabled_`.
abbrev differ : Bool → Bool → Bool
differ true b = not b
differ false b = b

module _ {S : Type 0} where
  -- The constructor, in a program that may be built to trace.
  unfoldable pub simulator : Bool → S → Simulator S
  simulator vm_trace state = record {
    top_set = false;
    sig_clk = 0;
    sig_rst = 0;
    negative = false;
    time = 0;
    tracing_enabled = false;
    tracing_enabled_changed = false;
    tracing_ever_enabled = false;
    tracing_possible = vm_trace;
    initial_reset_delay_cycles = 2;
    reset_duration_cycles = 2;
    request_stop = false;
    simulation_success = true;
    trace_open = false;
    dumps = [];
    term_after_cycles = 0;
    extension_array = [];
    state = state;
  }

  -- `SetTop`, with the signals at the levels that the design has.
  unfoldable pub set_top : ℕ → ℕ → Bool → Simulator S → Simulator S
  set_top sig_clk sig_rst negative s = record s {
    top_set = true;
    sig_clk = sig_clk;
    sig_rst = sig_rst;
    negative = negative;
  }

  unfoldable set_initial_reset_delay : ℕ → Simulator S → Simulator S
  set_initial_reset_delay cycles s = record s { initial_reset_delay_cycles = cycles % 2 ^ 32 }

  unfoldable set_reset_duration : ℕ → Simulator S → Simulator S
  set_reset_duration cycles s = record s { reset_duration_cycles = cycles % 2 ^ 32 }

  unfoldable pub stop_simulation : Bool → Simulator S → Simulator S
  stop_simulation success s = record s {
    request_stop = true;
    simulation_success = s.simulation_success && success;
  }

  unfoldable pub register_extension : Extension S → Simulator S → Simulator S
  register_extension ext s = record s { extension_array = s.extension_array ++ ext ∷ [] }

  unfoldable pub set_reset : Simulator S → Simulator S
  set_reset s = record s { sig_rst = if s.negative then 0 else 1 }

  unfoldable pub unset_reset : Simulator S → Simulator S
  unset_reset s = record s { sig_rst = if s.negative then 1 else 0 }

  unfoldable pub trace_on : Simulator S → Simulator S
  trace_on s = record s {
    tracing_enabled = s.tracing_possible;
    tracing_ever_enabled = s.tracing_possible;
    tracing_enabled_changed =
        s.tracing_enabled_changed || differ s.tracing_enabled s.tracing_possible;
  }

  unfoldable pub trace_off : Simulator S → Simulator S
  trace_off s = record s {
    tracing_enabled = false;
    tracing_enabled_changed = s.tracing_enabled_changed || s.tracing_enabled;
  }

  unfoldable pub handle_signal : Signal → Simulator S → Simulator S
  handle_signal sigint s = stop_simulation true s
  handle_signal sigusr1 s = if s.tracing_enabled then trace_off s else trace_on s

  unfoldable pub handle_signals : List Signal → Simulator S → Simulator S
  handle_signals [] s = s
  handle_signals (sig ∷ rest) s = handle_signals rest (handle_signal sig s)

  -- `Trace`: the dump, into a file that is opened first where it is not.
  unfoldable pub trace : Simulator S → Simulator S
  trace s =
      if s.tracing_enabled
      then record s { tracing_enabled_changed = false; trace_open = true; dumps = s.time ∷ s.dumps }
      else record s { tracing_enabled_changed = false }
