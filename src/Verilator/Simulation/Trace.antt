-- ===== src/Verilator/Simulation/Trace.antt =====
-- The trace file over a run.
use coco_ibex.Common.{
  ℕ, zero, suc, ◌≡◌, arith, Bool, true, false, not, ◌&&◌, ◌||◌, List, [], ◌∷◌, Outcome, done, fault,
  spent, ◌>>=◌, if◌then◌else◌,
}
use mathlib.Core.Path.{subst}
use coco_ibex.Verilator.Simulation.{
  Reply, Extension, Toplevel, Simulator, Signal, sigint, sigusr1, stop_simulation, set_reset,
  unset_reset, trace_on, trace_off, handle_signal, handle_signals, trace,
}
use coco_ibex.Verilator.Simulation.Loop.{
  take_requests, call_extensions, drive_reset, toggle_clock, on_clock_edge, eval_top, advance_time,
  run_round, run_loop, start_run, end_run, run,
}

module _ {S : Type 0} where
  -- Tracing is on only where it is possible, and a file is open only if tracing was on once.
  abbrev trace_fits : Simulator S → Bool
  trace_fits s =
      (not s.tracing_enabled || s.tracing_possible)
      && (not s.tracing_enabled || s.tracing_ever_enabled)
      && (not s.trace_open || s.tracing_ever_enabled)
      && (not s.tracing_ever_enabled || s.tracing_possible)

  abbrev TraceFits : Simulator S → Type 0
  TraceFits s = trace_fits s ≡ true

  take_requests-TraceFits :
      (requests : List Bool) (s : Simulator S) → TraceFits s → TraceFits (take_requests requests s)
  unfolding take_requests stop_simulation
  take_requests-TraceFits [] s h = h
  take_requests-TraceFits (success ∷ rest) s h =
      take_requests-TraceFits rest (stop_simulation success s) h

  call_extensions-TraceFits :
      (method : Extension S → S → Reply S) (exts : List (Extension S)) (s : Simulator S)
      → TraceFits s
      → TraceFits (call_extensions method exts s)
  unfolding call_extensions
  call_extensions-TraceFits method [] s h = h
  call_extensions-TraceFits method (ext ∷ rest) s h =
      let r = method ext s.state in
      let told : Simulator S = record s { state = r.state } in
      call_extensions-TraceFits method rest (take_requests r.requests told)
        (take_requests-TraceFits r.requests told h)

  handle_signal-TraceFits :
      (sig : Signal) (s : Simulator S) → TraceFits s → TraceFits (handle_signal sig s)
  unfolding handle_signal stop_simulation trace_on trace_off
  handle_signal-TraceFits sigint s h = h
  handle_signal-TraceFits sigusr1 s h = ground (arith, h)

  handle_signals-TraceFits :
      (sigs : List Signal) (s : Simulator S) → TraceFits s → TraceFits (handle_signals sigs s)
  unfolding handle_signals
  handle_signals-TraceFits [] s h = h
  handle_signals-TraceFits (sig ∷ rest) s h =
      handle_signals-TraceFits rest (handle_signal sig s) (handle_signal-TraceFits sig s h)

  trace-TraceFits : (s : Simulator S) → TraceFits s → TraceFits (trace s)
  unfolding trace
  trace-TraceFits s h = ground (arith, h)

  drive_reset-TraceFits : (s : Simulator S) → TraceFits s → TraceFits (drive_reset s)
  unfolding drive_reset set_reset unset_reset
  drive_reset-TraceFits s h = ground (arith, h)

  on_clock_edge-TraceFits : (s : Simulator S) → TraceFits s → TraceFits (on_clock_edge s)
  unfolding on_clock_edge
  on_clock_edge-TraceFits s h = ground (
    arith,
    h,
    call_extensions-TraceFits (λ (ext : Extension S). ext.on_clock s.time) s.extension_array s h,
  )

  -- The signals, the extensions and the design have no way around this.
  run_round-TraceFits :
      (top : Toplevel S) (s : Simulator S) → TraceFits s → TraceFits (run_round top s)
  unfolding run_round toggle_clock eval_top advance_time
  run_round-TraceFits top s h =
      let driven = drive_reset (handle_signals (top.signals s.time) s) in
      let edge = on_clock_edge (toggle_clock driven) in
      trace-TraceFits (advance_time (eval_top top edge)) (
        on_clock_edge-TraceFits (toggle_clock driven) (
          drive_reset-TraceFits (handle_signals (top.signals s.time) s)
            (handle_signals-TraceFits (top.signals s.time) s h)))

  -- A run that returns with the property.
  abbrev Fits : Outcome (Simulator S) → Type 0
  Fits (done out) = TraceFits out
  Fits fault = Unit {0}
  Fits spent = Unit {0}

  run_loop-TraceFits :
      (top : Toplevel S) (fuel : ℕ) (s : Simulator S) → TraceFits s → Fits (run_loop top fuel s)
  unfolding run_loop
  run_loop-TraceFits top zero s h = tt
  run_loop-TraceFits top (suc fuel) s h =
      let after = run_round-TraceFits top s h in
      ground (arith, after, run_loop-TraceFits top fuel (run_round top s) after)

  start_run-TraceFits :
      (top : Toplevel S) (s : Simulator S) → TraceFits s → TraceFits (start_run top s)
  unfolding start_run unset_reset eval_top
  start_run-TraceFits top s h =
      let traced = if s.tracing_possible then record s { state = top.start_trace s.state } else s in
      trace-TraceFits (unset_reset (eval_top top traced)) (ground (arith, h))

  abbrev Closed : Outcome (Simulator S) → Type 0
  Closed (done out) = (out.trace_open ≡ false) × TraceFits out
  Closed fault = Unit {0}
  Closed spent = Unit {0}

  end_run-Closed :
      (top : Toplevel S) (m : Outcome (Simulator S))
      → Fits m
      → Closed (m >>= (λ (out : Simulator S). done (end_run top out)))
  unfolding end_run
  end_run-Closed top (done out) h = ground (arith, h)
  end_run-Closed top fault h = tt
  end_run-Closed top spent h = tt

  run-Closed :
      (top : Toplevel S) (fuel : ℕ) (s : Simulator S) → TraceFits s → Closed (run top fuel s)
  unfolding run
  run-Closed top fuel s h = ground (
    arith,
    end_run-Closed top (run_loop top fuel (start_run top s))
        (run_loop-TraceFits top fuel (start_run top s) (start_run-TraceFits top s h)),
  )

  -- However often signals turn tracing on and off, a run that returns leaves the trace file closed, and
  -- tracing is on only if it is possible and was on once.
  run-trace_closed :
      (top : Toplevel S) (fuel : ℕ) (s out : Simulator S)
      → TraceFits s
      → run top fuel s ≡ done out
      → (out.trace_open ≡ false) × TraceFits out
  run-trace_closed top fuel s out h e = subst Closed e (run-Closed top fuel s h)
