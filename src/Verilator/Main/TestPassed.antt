-- ===== src/Verilator/Main/TestPassed.antt =====
-- The exit code of the register testbench's simulation, dv/cs_registers/tb/tb_cs_registers.cc.
use mathlib.Core.Path.{subst}
use coco_ibex.Common.{
  ℕ, zero, suc, ◌<◌, ◌≡◌, refl, sym, ap, arith, Bool, true, false, ◌==◌, List, [], ◌∷◌, done,
  Outcome, fault, spent, ◌>>=◌, if◌then◌else◌, Bool-cases, inl, inr,
}
use coco_ibex.Verilator.Simulation.{
  Reply, Extension, Toplevel, Simulator, Signal, sigint, sigusr1, simulator, set_top,
  stop_simulation, set_reset, unset_reset, trace_on, trace_off, handle_signal, handle_signals,
  trace,
}
use coco_ibex.Verilator.Simulation.Loop.{
  call_extensions, drive_reset, toggle_clock, on_clock_edge, eval_top, advance_time, run_round,
  is_over, start_run, end_run, run,
}
use coco_ibex.Verilator.Simulation.Rounds.{rounds, goes_on, run_loop-rounds}
use coco_ibex.Verilator.Simulation.Exec.{
  CommandOption, term_after, trace_option, help_option, missing_option, unknown_option, Arguments,
  Exit, atoi, parse_extensions, parse_command_args, exec_arguments, run_simulation, exec,
}
use coco_ibex.Verilator.Main.Benches.{tb_result, tb_main}

-- A property of what an outcome gives, if it gives something.
abbrev pub Gives : {A : Type 0} → (A → Type 0) → Outcome A → Type 0
Gives P (done a) = P a
Gives P fault = Unit
Gives P spent = Unit

pub Gives->>= :
    {A B : Type 0} (P : B → Type 0) (o : Outcome A) (k : A → Outcome B)
    → ((a : A) → Gives P (k a))
    → Gives P (o >>= k)
Gives->>= P (done a) k h = h a
Gives->>= P fault k h = tt
Gives->>= P spent k h = tt

pub Gives-if :
    {A : Type 0} (P : A → Type 0) (b : Bool) (x y : Outcome A)
    → Gives P x
    → Gives P y
    → Gives P (if b then x else y)
Gives-if P true x y h k = h
Gives-if P false x y h k = k

module _ {S : Type 0} where
  -- No extension that could ask for a failure, and no failure.
  abbrev pub Clean : Simulator S → Type 0
  Clean s = (s.extension_array ≡ []) × (s.simulation_success ≡ true)

  pub handle_signals-Clean :
      (sigs : List Signal) (s : Simulator S) → Clean s → Clean (handle_signals sigs s)
  unfolding handle_signals handle_signal stop_simulation trace_on trace_off
  handle_signals-Clean [] s h = h
  handle_signals-Clean (sigint ∷ rest) s h =
      handle_signals-Clean rest (handle_signal sigint s) (h.0, ground (arith, h.1))
  handle_signals-Clean (sigusr1 ∷ rest) s h = elim (Bool-cases s.tracing_enabled) [
    | inl on ↦ handle_signals-Clean rest (handle_signal sigusr1 s) (rw on h)
    | inr off ↦ handle_signals-Clean rest (handle_signal sigusr1 s) (rw off h)
  ]

  pub drive_reset-Clean : (s : Simulator S) → Clean s → Clean (drive_reset s)
  unfolding drive_reset set_reset unset_reset
  drive_reset-Clean s h = ground (arith, h)

  call_extensions-none :
      (method : Extension S → S → Reply S) (s : Simulator S)
      → s.extension_array ≡ []
      → call_extensions method s.extension_array s ≡ s
  unfolding call_extensions
  call_extensions-none method s e =
      ap (λ (exts : List (Extension S)). call_extensions method exts s) e

  pub on_clock_edge-none : (s : Simulator S) → s.extension_array ≡ [] → on_clock_edge s ≡ s
  unfolding on_clock_edge
  on_clock_edge-none s e = elim (Bool-cases (s.sig_clk == 0)) [
    | inl low ↦ rw low refl
    | inr high ↦ rw high (call_extensions-none (λ (ext : Extension S). ext.on_clock s.time) s e)
  ]

  trace-Clean : (s : Simulator S) → Clean s → Clean (trace s)
  unfolding trace
  trace-Clean s h = ground (arith, h)

  pub run_round-Clean : (top : Toplevel S) (s : Simulator S) → Clean s → Clean (run_round top s)
  unfolding run_round toggle_clock eval_top advance_time
  run_round-Clean top s h =
      let heard = handle_signals (top.signals s.time) s in
      let ticked = toggle_clock (drive_reset heard) in
      let clean : Clean ticked =
        drive_reset-Clean heard (handle_signals-Clean (top.signals s.time) s h) in
      trace-Clean (advance_time (eval_top top (on_clock_edge ticked)))
        (subst Clean (sym (on_clock_edge-none ticked clean.0)) clean)

  rounds-Clean : (top : Toplevel S) (n : ℕ) (s : Simulator S) → Clean s → Clean (rounds top n s)
  unfolding rounds
  rounds-Clean top zero s h = h
  rounds-Clean top (suc n) s h = rounds-Clean top n (run_round top s) (run_round-Clean top s h)

  pub start_run-Clean : (top : Toplevel S) (s : Simulator S) → Clean s → Clean (start_run top s)
  unfolding start_run unset_reset eval_top
  start_run-Clean top s h = elim (Bool-cases s.tracing_possible) [
    | inl on ↦ rw on (trace-Clean _ h)
    | inr off ↦ rw off (trace-Clean _ h)
  ]

  end_run-Clean : (top : Toplevel S) (s : Simulator S) → Clean s → Clean (end_run top s)
  unfolding end_run
  end_run-Clean top s h = ground (arith, h)

  -- What the options leave as it is.
  abbrev pub Ready : Simulator S → Type 0
  Ready s = (s.top_set ≡ true) × Clean s

  abbrev pub ReadyArguments : Arguments S → Type 0
  ReadyArguments a = Ready a.simulator

  pub parse-Ready :
      (top : Toplevel S) (options : List CommandOption) (exit_app : Bool) (s : Simulator S)
      → Ready s
      → Gives ReadyArguments (parse_command_args top options exit_app s)
  unfolding parse_command_args parse_extensions trace_on
  parse-Ready top [] exit_app s h =
      subst
        (λ (exts : List (Extension S)).
          Gives ReadyArguments
            (parse_extensions exts exit_app (record s { state = top.command_args s.state })))
        (sym h.1.0) h
  parse-Ready top (term_after optarg ∷ rest) exit_app s h =
      Gives->>= ReadyArguments (atoi optarg)
        (λ (n : ℕ). parse_command_args top rest exit_app (record s { term_after_cycles = n }))
        (λ (n : ℕ). parse-Ready top rest exit_app (record s { term_after_cycles = n }) h)
  parse-Ready top (trace_option ∷ rest) exit_app s h =
      Gives-if ReadyArguments s.tracing_possible (parse_command_args top rest exit_app (trace_on s))
        (done (record { simulator = s; exit_app = exit_app; success = false }))
        (parse-Ready top rest exit_app (trace_on s) h) h
  parse-Ready top (help_option ∷ rest) exit_app s h = parse-Ready top rest true s h
  parse-Ready top (missing_option ∷ rest) exit_app s h = h
  parse-Ready top (unknown_option ∷ rest) exit_app s h = parse-Ready top rest exit_app s h

  run_simulation-Ready :
      (top : Toplevel S) (n fuel : ℕ) (s : Simulator S)
      → Ready s
      → goes_on top n (start_run top s) ≡ true
      → is_over top (rounds top (suc n) (start_run top s)) ≡ true
      → n < fuel
      → run_simulation top fuel s ≡ done (end_run top (rounds top (suc n) (start_run top s)))
  unfolding run_simulation run
  run_simulation-Ready top n fuel s (set, h) on over enough =
      let ended = rounds top (suc n) (start_run top s) in
      let clean =
        end_run-Clean top ended
          (rounds-Clean top (suc n) (start_run top s) (start_run-Clean top s h)) in
      simp
        (
          call_extensions-none (λ (ext : Extension S). ext.pre_exec) s h.0,
          set,
          run_loop-rounds top n fuel (start_run top s) on over enough,
          call_extensions-none (λ (ext : Extension S). ext.post_exec) (end_run top ended) clean.0,
        )
        refl

  exec_arguments-Ready :
      (top : Toplevel S) (n fuel : ℕ) (a : Arguments S)
      → ReadyArguments a
      → a.success ≡ true
      → a.exit_app ≡ false
      → goes_on top n (start_run top a.simulator) ≡ true
      → is_over top (rounds top (suc n) (start_run top a.simulator)) ≡ true
      → n < fuel
      → exec_arguments top fuel a
        ≡ done (record {
          simulator = end_run top (rounds top (suc n) (start_run top a.simulator));
          code = 0;
        })
  unfolding exec_arguments
  exec_arguments-Ready top n fuel a (set, h) ok stays on over enough =
      let ended = rounds top (suc n) (start_run top a.simulator) in
      let clean = end_run-Clean top ended (
        rounds-Clean top (suc n) (start_run top a.simulator) (start_run-Clean top a.simulator h)) in
      rw (ok, stays, run_simulation-Ready top n fuel a.simulator (set, h) on over enough, clean.1)
        refl

module _ {S : Type 0} (test_passed_o : S → Bool) where
  -- Where the arguments are accepted and the loop ends, the simulation of the register testbench returns 0
  -- if the design's output says then that the test has passed, and else 1: nothing in the controller itself
  -- fails it.
  pub tb_main-test_passed :
      (top : Toplevel S) (vm_trace : Bool) (clk rst : ℕ) (options : List CommandOption) (n fuel : ℕ)
      (state : S) (a : Arguments S)
      → parse_command_args top options false (set_top clk rst true (simulator vm_trace state))
        ≡ done a
      → a.success ≡ true
      → a.exit_app ≡ false
      → goes_on top n (start_run top a.simulator) ≡ true
      → is_over top (rounds top (suc n) (start_run top a.simulator)) ≡ true
      → n < fuel
      → (out : Exit S) × (tb_main test_passed_o top vm_trace clk rst options fuel state ≡ done out)
        × (out.simulator ≡ end_run top (rounds top (suc n) (start_run top a.simulator)))
        × (out.code ≡ (if test_passed_o out.simulator.state then 0 else 1))
  unfolding tb_main tb_result exec set_top simulator
  tb_main-test_passed top vm_trace clk rst options n fuel state a parsed ok stays on over enough =
      let begun = set_top clk rst true (simulator vm_trace state) in
      let ready =
        subst (Gives ReadyArguments) parsed
          (parse-Ready top options false begun (refl, (refl, refl))) in
      (
        _,
        rw (parsed, exec_arguments-Ready top n fuel a ready ok stays on over enough) refl,
        refl,
        refl,
      )
