-- ===== src/Verilator/Main/Design.antt =====
-- What the design's own functions keep is kept by a simulation without extensions.
use mathlib.Core.Path.{subst}
use coco_ibex.Common.{
  ℕ, zero, suc, ◌≡◌, refl, sym, ap, ◌∙◌, arith, Bool, true, false, List, [], ◌∷◌, done, Bool-cases,
  inl, inr,
}
use coco_ibex.Verilator.Simulation.{
  Extension, Toplevel, Simulator, Signal, sigint, sigusr1, stop_simulation, set_reset, unset_reset,
  trace_on, trace_off, handle_signal, handle_signals, trace,
}
use coco_ibex.Verilator.Simulation.Loop.{
  drive_reset, toggle_clock, on_clock_edge, eval_top, advance_time, run_round, start_run, end_run,
}
use coco_ibex.Verilator.Simulation.Rounds.{rounds}
use coco_ibex.Verilator.Simulation.Exec.{
  CommandOption, term_after, trace_option, help_option, missing_option, unknown_option, Arguments,
  atoi, parse_extensions, parse_command_args,
}
use coco_ibex.Verilator.Main.TestPassed.{
  Clean, Gives, Gives->>=, Gives-if, drive_reset-Clean, handle_signals-Clean, on_clock_edge-none,
  run_round-Clean,
}

-- A property of the design's states that the functions of the design keep.
pub record Keeps {S : Type 0} (top : Toplevel S) (Q : S → Type 0) : Type 0 where
  pub eval_keeps : (clk rst : ℕ) (s : S) → Q s → Q (top.eval clk rst s)
  pub start_trace_keeps : (s : S) → Q s → Q (top.start_trace s)
  pub command_args_keeps : (s : S) → Q s → Q (top.command_args s)

module _ {S : Type 0} where
  handle_signal-state : (sig : Signal) (s : Simulator S) → (handle_signal sig s).state ≡ s.state
  unfolding handle_signal stop_simulation trace_on trace_off
  handle_signal-state sigint s = refl
  handle_signal-state sigusr1 s = ground arith

  handle_signals-state :
      (sigs : List Signal) (s : Simulator S) → (handle_signals sigs s).state ≡ s.state
  unfolding handle_signals
  handle_signals-state [] s = refl
  handle_signals-state (sig ∷ rest) s =
      handle_signals-state rest (handle_signal sig s) ∙ handle_signal-state sig s

  drive_reset-state : (s : Simulator S) → (drive_reset s).state ≡ s.state
  unfolding drive_reset set_reset unset_reset
  drive_reset-state s = ground arith

  trace-state : (s : Simulator S) → (trace s).state ≡ s.state
  unfolding trace
  trace-state s = ground arith

-- What comes after the loop does to the design what its own `final` does.
pub end_run-state :
    {S : Type 0} (top : Toplevel S) (s : Simulator S) → (end_run top s).state ≡ top.final s.state
unfolding end_run
end_run-state top s = ground arith

module _ {S : Type 0} (top : Toplevel S) (Q : S → Type 0) (k : Keeps top Q) where
  run_round-keeps : (s : Simulator S) → Clean s → Q s.state → Q (run_round top s).state
  unfolding run_round toggle_clock eval_top advance_time
  run_round-keeps s h q =
      let heard = handle_signals (top.signals s.time) s in
      let ticked = toggle_clock (drive_reset heard) in
      let clean : Clean ticked =
        drive_reset-Clean heard (handle_signals-Clean (top.signals s.time) s h) in
      let same : s.state ≡ (on_clock_edge ticked).state = sym (
        ap (λ (t : Simulator S). t.state) (on_clock_edge-none ticked clean.0)
        ∙ drive_reset-state heard
        ∙ handle_signals-state (top.signals s.time) s) in
      let edge = on_clock_edge ticked in
      subst Q (sym (trace-state (advance_time (eval_top top edge))))
        (k.eval_keeps edge.sig_clk edge.sig_rst edge.state (subst Q same q))

  pub rounds-keeps : (n : ℕ) (s : Simulator S) → Clean s → Q s.state → Q (rounds top n s).state
  unfolding rounds
  rounds-keeps zero s h q = q
  rounds-keeps (suc n) s h q =
      rounds-keeps n (run_round top s) (run_round-Clean top s h) (run_round-keeps s h q)

  pub start_run-keeps : (s : Simulator S) → Q s.state → Q (start_run top s).state
  unfolding start_run unset_reset eval_top
  start_run-keeps s q = elim (Bool-cases s.tracing_possible) [
    | inl on ↦
        rw (on, trace-state)
          (k.eval_keeps s.sig_clk s.sig_rst (top.start_trace s.state)
            (k.start_trace_keeps s.state q))
    | inr off ↦ rw (off, trace-state) (k.eval_keeps s.sig_clk s.sig_rst s.state q)
  ]

  abbrev pub Kept : Arguments S → Type 0
  Kept a = Q a.simulator.state

  pub parse-keeps :
      (options : List CommandOption) (exit_app : Bool) (s : Simulator S)
      → s.extension_array ≡ []
      → Q s.state
      → Gives Kept (parse_command_args top options exit_app s)
  unfolding parse_command_args parse_extensions trace_on
  parse-keeps [] exit_app s h q =
      subst
        (λ (exts : List (Extension S)).
          Gives Kept
            (parse_extensions exts exit_app (record s { state = top.command_args s.state })))
        (sym h) (k.command_args_keeps s.state q)
  parse-keeps (term_after optarg ∷ rest) exit_app s h q =
      Gives->>= Kept (atoi optarg)
        (λ (n : ℕ). parse_command_args top rest exit_app (record s { term_after_cycles = n }))
        (λ (n : ℕ). parse-keeps rest exit_app (record s { term_after_cycles = n }) h q)
  parse-keeps (trace_option ∷ rest) exit_app s h q =
      Gives-if Kept s.tracing_possible (parse_command_args top rest exit_app (trace_on s))
        (done (record { simulator = s; exit_app = exit_app; success = false }))
        (parse-keeps rest exit_app (trace_on s) h q) q
  parse-keeps (help_option ∷ rest) exit_app s h q = parse-keeps rest true s h q
  parse-keeps (missing_option ∷ rest) exit_app s h q = q
  parse-keeps (unknown_option ∷ rest) exit_app s h q = parse-keeps rest exit_app s h q
