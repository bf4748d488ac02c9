-- ===== src/Verilator/Simulation/Verdict.antt =====
-- The verdict of a simulation over the rounds of the loop.
use coco_ibex.Common.{
  ℕ, zero, suc, ◌<◌, ◌≡◌, arith, Bool, true, false, ◌||◌, List, [], ◌∷◌, done, if◌then◌else◌,
}
use coco_ibex.Verilator.Simulation.{
  Reply, Extension, Toplevel, Simulator, Signal, sigint, sigusr1, stop_simulation, set_reset,
  unset_reset, trace_on, trace_off, handle_signal, handle_signals, trace,
}
use coco_ibex.Verilator.Simulation.Loop.{
  take_requests, call_extensions, drive_reset, toggle_clock, on_clock_edge, eval_top, advance_time,
  run_round, is_over, run_loop, start_run, end_run,
}
use coco_ibex.Verilator.Simulation.Rounds.{rounds, goes_on, run_loop-rounds}

module _ {S : Type 0} where
  -- A simulation that has failed is to stop.
  abbrev pub verdict_fits : Simulator S → Bool
  verdict_fits s = s.simulation_success || s.request_stop

  -- A verdict that has fallen.
  abbrev pub Failed : Simulator S → Type 0
  Failed s = s.simulation_success ≡ false

  take_requests-Failed :
      (requests : List Bool) (s : Simulator S) → Failed s → Failed (take_requests requests s)
  unfolding take_requests stop_simulation
  take_requests-Failed [] s h = h
  take_requests-Failed (success ∷ rest) s h =
      take_requests-Failed rest (stop_simulation success s) (ground (arith, h))

  pub call_extensions-Failed :
      (method : Extension S → S → Reply S) (exts : List (Extension S)) (s : Simulator S)
      → Failed s
      → Failed (call_extensions method exts s)
  unfolding call_extensions
  call_extensions-Failed method [] s h = h
  call_extensions-Failed method (ext ∷ rest) s h =
      let r = method ext s.state in
      let told : Simulator S = record s { state = r.state } in
      call_extensions-Failed method rest (take_requests r.requests told)
        (take_requests-Failed r.requests told h)

  take_requests-fits :
      (requests : List Bool) (s : Simulator S)
      → verdict_fits s ≡ true
      → verdict_fits (take_requests requests s) ≡ true
  unfolding take_requests stop_simulation
  take_requests-fits [] s h = h
  take_requests-fits (success ∷ rest) s h =
      take_requests-fits rest (stop_simulation success s) (ground arith)

  pub call_extensions-fits :
      (method : Extension S → S → Reply S) (exts : List (Extension S)) (s : Simulator S)
      → verdict_fits s ≡ true
      → verdict_fits (call_extensions method exts s) ≡ true
  unfolding call_extensions
  call_extensions-fits method [] s h = h
  call_extensions-fits method (ext ∷ rest) s h =
      let r = method ext s.state in
      let told : Simulator S = record s { state = r.state } in
      call_extensions-fits method rest (take_requests r.requests told)
        (take_requests-fits r.requests told h)

  handle_signals-fits :
      (sigs : List Signal) (s : Simulator S)
      → verdict_fits s ≡ true
      → verdict_fits (handle_signals sigs s) ≡ true
  unfolding handle_signals handle_signal stop_simulation trace_on trace_off
  handle_signals-fits [] s h = h
  handle_signals-fits (sigint ∷ rest) s h =
      handle_signals-fits rest (handle_signal sigint s) (ground arith)
  handle_signals-fits (sigusr1 ∷ rest) s h =
      handle_signals-fits rest (handle_signal sigusr1 s) (ground (arith, h))

  on_clock_edge-fits :
      (s : Simulator S) → verdict_fits s ≡ true → verdict_fits (on_clock_edge s) ≡ true
  unfolding on_clock_edge
  on_clock_edge-fits s h = ground (
    arith,
    h,
    call_extensions-fits (λ (ext : Extension S). ext.on_clock s.time) s.extension_array s h,
  )

  -- The steps between the signals and the extensions, and those behind them, keep the verdict.
  drive_reset-fits :
      (s : Simulator S) → verdict_fits s ≡ true → verdict_fits (toggle_clock (drive_reset s)) ≡ true
  unfolding drive_reset set_reset unset_reset toggle_clock
  drive_reset-fits s h = ground (arith, h)

  trace-fits : (s : Simulator S) → verdict_fits s ≡ true → verdict_fits (trace s) ≡ true
  unfolding trace
  trace-fits s h = ground (arith, h)

  run_round-fits :
      (top : Toplevel S) (s : Simulator S)
      → verdict_fits s ≡ true
      → verdict_fits (run_round top s) ≡ true
  unfolding run_round eval_top advance_time
  run_round-fits top s h =
      let handled = handle_signals (top.signals s.time) s in
      let edge = on_clock_edge (toggle_clock (drive_reset handled)) in
      trace-fits (advance_time (eval_top top edge)) (
        on_clock_edge-fits (toggle_clock (drive_reset handled))
          (drive_reset-fits handled (handle_signals-fits (top.signals s.time) s h)))

  rounds-fits :
      (top : Toplevel S) (n : ℕ) (s : Simulator S)
      → verdict_fits s ≡ true
      → verdict_fits (rounds top n s) ≡ true
  unfolding rounds
  rounds-fits top zero s h = h
  rounds-fits top (suc n) s h = rounds-fits top n (run_round top s) (run_round-fits top s h)

  pub start_run-fits :
      (top : Toplevel S) (s : Simulator S)
      → verdict_fits s ≡ true
      → verdict_fits (start_run top s) ≡ true
  unfolding start_run unset_reset eval_top
  start_run-fits top s h =
      let traced = if s.tracing_possible then record s { state = top.start_trace s.state } else s in
      trace-fits (unset_reset (eval_top top traced)) (ground (arith, h))

  is_over-Failed :
      (top : Toplevel S) (s : Simulator S) → verdict_fits s ≡ true → Failed s → is_over top s ≡ true
  unfolding is_over
  is_over-Failed top s h f = ground (arith, h, f)

  -- A round of the loop in which the verdict falls is its last one.
  pub run_loop-Failed :
      (top : Toplevel S) (n fuel : ℕ) (s : Simulator S)
      → verdict_fits s ≡ true
      → goes_on top n s ≡ true
      → Failed (rounds top (suc n) s)
      → n < fuel
      → run_loop top fuel s ≡ done (rounds top (suc n) s)
  run_loop-Failed top n fuel s h on f enough =
      run_loop-rounds top n fuel s on
        (is_over-Failed top (rounds top (suc n) s) (rounds-fits top (suc n) s h) f) enough

  pub end_run-Failed : (top : Toplevel S) (s : Simulator S) → Failed s → Failed (end_run top s)
  unfolding end_run
  end_run-Failed top s h = ground (arith, h)
