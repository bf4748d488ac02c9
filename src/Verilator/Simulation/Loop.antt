-- ===== src/Verilator/Simulation/Loop.antt =====
-- `Run`: the loop of the simulation.
use coco_ibex.Common.{
  ℕ, zero, suc, ◌+◌, ◌-◌, ◌/◌, ◌%◌, ◌^◌, Bool, false, not, ◌&&◌, ◌||◌, ◌==◌, ltb, leb, List, [],
  ◌∷◌, Outcome, done, fault, spent, ◌>>=◌, if◌then◌else◌,
}
use coco_ibex.Verilator.Simulation.{
  Reply, Extension, Toplevel, Simulator, stop_simulation, set_reset, unset_reset, handle_signals,
  trace,
}

-- The `int` as it is compared with an `unsigned long`.
unfoldable pub sign_extended : ℕ → ℕ
sign_extended n = if ltb n (2 ^ 31) then n else n + (2 ^ 64 - 2 ^ 32)

module _ {S : Type 0} where
  unfoldable pub take_requests : List Bool → Simulator S → Simulator S
  take_requests [] s = s
  take_requests (success ∷ rest) s = take_requests rest (stop_simulation success s)

  abbrev take_reply : Reply S → Simulator S → Simulator S
  take_reply r s = take_requests r.requests (record s { state = r.state })

  -- The calls of a method of every extension, in the order of their registration.
  unfoldable pub call_extensions :
      (Extension S → S → Reply S) → List (Extension S) → Simulator S → Simulator S
  call_extensions method [] s = s
  call_extensions method (ext ∷ rest) s =
      call_extensions method rest (take_reply (method ext s.state) s)

  -- The reset at the beginning of a round.
  unfoldable pub drive_reset : Simulator S → Simulator S
  drive_reset s =
      let begun = if leb s.initial_reset_delay_cycles (s.time / 2) then set_reset s else s in
      if leb ((s.reset_duration_cycles + s.initial_reset_delay_cycles) % 2 ^ 32) (s.time / 2)
      then unset_reset begun
      else begun

  unfoldable pub toggle_clock : Simulator S → Simulator S
  toggle_clock s = record s { sig_clk = if s.sig_clk == 0 then 1 else 0 }

  unfoldable pub on_clock_edge : Simulator S → Simulator S
  on_clock_edge s =
      if s.sig_clk == 0
      then s
      else call_extensions (λ (ext : Extension S). ext.on_clock s.time) s.extension_array s

  unfoldable pub eval_top : Toplevel S → Simulator S → Simulator S
  eval_top top s = record s { state = top.eval s.sig_clk s.sig_rst s.state }

  unfoldable pub advance_time : Simulator S → Simulator S
  advance_time s = record s { time = (s.time + 1) % 2 ^ 64 }

  -- A round of the loop up to its tests.
  unfoldable pub run_round : Toplevel S → Simulator S → Simulator S
  run_round top s = trace (
      advance_time (
        eval_top top
          (on_clock_edge (toggle_clock (drive_reset (handle_signals (top.signals s.time) s))))))

  -- The tests at the end of a round.
  unfoldable pub is_over : Toplevel S → Simulator S → Bool
  is_over top s =
      s.request_stop
      || top.got_finish s.state
      || (not (s.term_after_cycles == 0) && leb (sign_extended s.term_after_cycles) (s.time / 2))

  -- The loop, with a number of rounds as fuel.
  unfoldable pub run_loop : Toplevel S → ℕ → Simulator S → Outcome (Simulator S)
  run_loop top zero s = spent
  run_loop top (suc fuel) s =
      let after = run_round top s in
      let rest = run_loop top fuel after in if is_over top after then done after else rest

  -- What comes before the loop.
  unfoldable pub start_run : Toplevel S → Simulator S → Simulator S
  start_run top s =
      let traced = if s.tracing_possible then record s { state = top.start_trace s.state } else s in
      trace (unset_reset (eval_top top traced))

  -- What comes after it.
  unfoldable pub end_run : Toplevel S → Simulator S → Simulator S
  end_run top s =
      let over : Simulator S = record s { state = top.final s.state } in
      if over.tracing_ever_enabled then record over { trace_open = false } else over

  unfoldable pub run : Toplevel S → ℕ → Simulator S → Outcome (Simulator S)
  run top fuel s =
      let looped =
        run_loop top fuel (start_run top s) >>= (λ (out : Simulator S). done (end_run top out)) in
      if s.top_set then looped else fault
