-- ===== src/Verilator/Simulation/Core.antt =====
-- The part of the controller's state that a round changes in the same way whatever the design, the
-- extensions and the signals do.
use coco_ibex.Common.{
  ℕ, ◌+◌, ◌/◌, ◌%◌, ◌^◌, ◌≡◌, refl, arith, Bool, ◌==◌, leb, List, [], ◌∷◌, if◌then◌else◌, ap, ◌∙◌,
}
use coco_ibex.Verilator.Simulation.{
  Reply, Extension, Toplevel, Simulator, Signal, sigint, sigusr1, stop_simulation, set_reset,
  unset_reset, trace_on, trace_off, handle_signal, handle_signals, trace,
}
use coco_ibex.Verilator.Simulation.Loop.{
  take_requests, call_extensions, drive_reset, toggle_clock, on_clock_edge, eval_top, advance_time,
  run_round,
}

pub record Core : Type 0 where
  pub negative : Bool
  pub sig_clk : ℕ
  pub sig_rst : ℕ
  pub time : ℕ
  pub initial_delay : ℕ
  pub duration : ℕ
  pub term_after_cycles : ℕ
  pub tracing_possible : Bool
  pub top_set : Bool

abbrev pub inactive : Core → ℕ
inactive c = if c.negative then 1 else 0

abbrev pub active : Core → ℕ
active c = if c.negative then 0 else 1

-- A round on this part: the reset, the clock and the time.
unfoldable pub core_reset : Core → Core
core_reset c = record c {
  sig_rst =
      if leb ((c.duration + c.initial_delay) % 2 ^ 32) (c.time / 2)
      then inactive c
      else if leb c.initial_delay (c.time / 2)
      then active c
      else c.sig_rst;
}

unfoldable pub core_edge : Core → Core
core_edge c = record c { time = (c.time + 1) % 2 ^ 64; sig_clk = if c.sig_clk == 0 then 1 else 0 }

module _ {S : Type 0} where
  unfoldable pub core_of : Simulator S → Core
  core_of s = record {
    negative = s.negative;
    sig_clk = s.sig_clk;
    sig_rst = s.sig_rst;
    time = s.time;
    initial_delay = s.initial_reset_delay_cycles;
    duration = s.reset_duration_cycles;
    term_after_cycles = s.term_after_cycles;
    tracing_possible = s.tracing_possible;
    top_set = s.top_set;
  }

  take_requests-core :
      (requests : List Bool) (s : Simulator S) → core_of (take_requests requests s) ≡ core_of s
  unfolding take_requests stop_simulation core_of
  take_requests-core [] s = refl
  take_requests-core (success ∷ rest) s = take_requests-core rest (stop_simulation success s)

  pub call_extensions-core :
      (method : Extension S → S → Reply S) (exts : List (Extension S)) (s : Simulator S)
      → core_of (call_extensions method exts s) ≡ core_of s
  unfolding call_extensions core_of
  call_extensions-core method [] s = refl
  call_extensions-core method (ext ∷ rest) s =
      let r = method ext s.state in
      call_extensions-core method rest (take_requests r.requests (record s { state = r.state }))
      ∙ take_requests-core r.requests (record s { state = r.state })

  handle_signals-core :
      (sigs : List Signal) (s : Simulator S) → core_of (handle_signals sigs s) ≡ core_of s
  unfolding handle_signals handle_signal stop_simulation trace_on trace_off core_of
  handle_signals-core [] s = refl
  handle_signals-core (sigint ∷ rest) s = handle_signals-core rest (handle_signal sigint s)
  handle_signals-core (sigusr1 ∷ rest) s =
      handle_signals-core rest (handle_signal sigusr1 s) ∙ ground arith

  trace-core : (s : Simulator S) → core_of (trace s) ≡ core_of s
  unfolding trace core_of
  trace-core s = ground arith

  on_clock_edge-core : (s : Simulator S) → core_of (on_clock_edge s) ≡ core_of s
  unfolding on_clock_edge
  on_clock_edge-core s =
      ground (
        arith,
        call_extensions-core (λ (ext : Extension S). ext.on_clock s.time) s.extension_array s,
      )

  drive_reset-core : (s : Simulator S) → core_of (drive_reset s) ≡ core_reset (core_of s)
  unfolding drive_reset set_reset unset_reset core_of core_reset
  drive_reset-core s = ground arith

  edge-core :
      (top : Toplevel S) (s : Simulator S)
      → core_of (advance_time (eval_top top (on_clock_edge (toggle_clock s))))
        ≡ core_edge (core_of s)
  unfolding core_edge advance_time eval_top toggle_clock core_of
  edge-core top s =
      ap (λ (c : Core). record c { time = (c.time + 1) % 2 ^ 64 })
        (on_clock_edge-core (toggle_clock s))

  pub run_round-core :
      (top : Toplevel S) (s : Simulator S)
      → core_of (run_round top s) ≡ core_edge (core_reset (core_of s))
  unfolding run_round
  run_round-core top s =
      let handled = handle_signals (top.signals s.time) s in
      let driven = drive_reset handled in
      trace-core (advance_time (eval_top top (on_clock_edge (toggle_clock driven))))
      ∙ edge-core top driven
      ∙ ap core_edge
          (drive_reset-core handled ∙ ap core_reset (handle_signals-core (top.signals s.time) s))
