-- ===== src/Verilator/Main/Loaded.antt =====
-- What `main` does before the simulation.
use coco_ibex.Common.{
  ℕ, zero, suc, ◌≡◌, refl, arith, Bool, true, false, ◌==◌, List, [], ◌∷◌, Outcome, done, fault,
  spent, ◌>>=◌, if◌then◌else◌, codes, replicate, ap, ◌∙◌,
}
use coco_ibex.Verilator.MemUtil.Areas.{
  MemArea, Registered, find_area, emplace, register_memory_area, register_default_width,
}
use coco_ibex.Verilator.MemUtil.Write.{Dpi, World}
use coco_ibex.Verilator.MemUtil.Options.{MemOption, CliResult, parse_cli_arguments}
use coco_ibex.Verilator.Simulation.{Toplevel, Simulator, simulator, set_top, register_extension}
use coco_ibex.Verilator.Simulation.Exec.{
  unknown_option, Arguments, Exit, parse_extensions, parse_command_args, exec_arguments,
  run_simulation, exec,
}
use coco_ibex.Verilator.Main.{MainResult, memutil_extension, set_up, main}

abbrev pub ram_area : MemArea
ram_area = record {
  name = codes "ram";
  location = codes "TOP.ibex_simple_system.u_ram";
  width_bit = 32;
}

abbrev ram_areas : Registered
ram_areas = record { areas = ram_area ∷ []; success = true }

ram_registered :
    register_default_width (codes "ram") (codes "TOP.ibex_simple_system.u_ram") [] ≡ done ram_areas
unfolding register_default_width register_memory_area emplace find_area
ram_registered = refl

module _ {M : Type 0} (d : Dpi M) (top : Toplevel (World M)) where
  -- The arguments after their parse by the loader.
  abbrev accepted_by : Simulator (World M) → CliResult M → Arguments (World M)
  accepted_by s r = record {
    simulator = record s { state = r.world };
    exit_app = r.exit_app;
    success = r.success;
  }

  parse_command_args-unknown :
      (n : ℕ) (exit_app : Bool) (s : Simulator (World M))
      → parse_command_args top (replicate n unknown_option) exit_app s
        ≡ parse_command_args top [] exit_app s
  unfolding parse_command_args
  parse_command_args-unknown zero exit_app s = refl
  parse_command_args-unknown (suc n) exit_app s = parse_command_args-unknown n exit_app s

  parse_extensions-memutil :
      (options : List MemOption) (s : Simulator (World M)) (r : CliResult M)
      → parse_cli_arguments d (ram_area ∷ []) false options s.state ≡ done r
      → parse_extensions (memutil_extension d (ram_area ∷ []) options ∷ []) false s
        ≡ done (accepted_by s r)
  unfolding parse_extensions memutil_extension
  parse_extensions-memutil options s r e = rw e (ground arith)

  -- The controller that `main` hands to `Exec`.
  abbrev pub prepared : Bool → ℕ → ℕ → List MemOption → World M → Simulator (World M)
  prepared vm_trace clk rst options w = set_up d vm_trace clk rst options ram_areas w

  -- What `main` makes of the result of `Exec`.
  abbrev main_result : Exit (World M) → Outcome (MainResult (World M))
  main_result e = done (record { simulator = e.simulator; code = if e.code == 0 then 0 else 1 })

  parse_command_args-memutil :
      (vm_trace : Bool) (clk rst n : ℕ) (options : List MemOption) (w : World M) (r : CliResult M)
      → parse_cli_arguments d (ram_area ∷ []) false options (top.command_args w) ≡ done r
      → parse_command_args top
          (replicate n unknown_option)
          false
          (prepared vm_trace clk rst options w)
        ≡ done (accepted_by (prepared vm_trace clk rst options w) r)
  unfolding parse_command_args set_up set_top simulator register_extension
  parse_command_args-memutil vm_trace clk rst n options w r e =
      parse_command_args-unknown n false (prepared vm_trace clk rst options w)
      ∙ parse_extensions-memutil options
          (record (prepared vm_trace clk rst options w) { state = top.command_args w }) r e

  main-accepted :
      (vm_trace : Bool) (clk rst n : ℕ) (options : List MemOption) (fuel : ℕ) (w : World M)
      (r : CliResult M)
      → parse_cli_arguments d (ram_area ∷ []) false options (top.command_args w) ≡ done r
      → main d top vm_trace clk rst (replicate n unknown_option) options fuel w ≡ (
          exec_arguments top fuel (accepted_by (prepared vm_trace clk rst options w) r)
          >>= main_result)
  unfolding main exec
  main-accepted vm_trace clk rst n options fuel w r e = rw ram_registered (
      ap (λ (m : Outcome (Arguments (World M))). (m >>= exec_arguments top fuel) >>= main_result)
        (parse_command_args-memutil vm_trace clk rst n options w r e))

  -- The run of `main` from a state, and its result.
  abbrev pub simulated : ℕ → Simulator (World M) → Outcome (MainResult (World M))
  simulated fuel s = run_simulation top fuel s >>= (λ (out : Simulator (World M)).
      done (record { simulator = out; code = if out.simulation_success then 0 else 1 }))

  -- The exit code of `Exec` is the one of `main`.
  same_code :
      (m : Outcome (Simulator (World M)))
      → ((m >>= (λ (out : Simulator (World M)).
            done (record { simulator = out; code = if out.simulation_success then 0 else 1 })))
          >>= main_result)
        ≡ (m >>= (λ (out : Simulator (World M)).
            done (record { simulator = out; code = if out.simulation_success then 0 else 1 })))
  same_code (done out) = ground arith
  same_code fault = refl
  same_code spent = refl

  exec_arguments-simulated :
      (fuel : ℕ) (a : Arguments (World M))
      → a.success ≡ true
      → a.exit_app ≡ false
      → (exec_arguments top fuel a >>= main_result) ≡ simulated fuel a.simulator
  unfolding exec_arguments
  exec_arguments-simulated fuel a ok stays =
      simp (ok, stays) (same_code (run_simulation top fuel a.simulator))

  -- Where the loader accepts its arguments, `main` simulates from the state that the loader left.
  pub main-simulated :
      (vm_trace : Bool) (clk rst n : ℕ) (options : List MemOption) (fuel : ℕ) (w : World M)
      (r : CliResult M)
      → parse_cli_arguments d (ram_area ∷ []) false options (top.command_args w) ≡ done r
      → r.success ≡ true
      → r.exit_app ≡ false
      → main d top vm_trace clk rst (replicate n unknown_option) options fuel w
        ≡ simulated fuel (record (prepared vm_trace clk rst options w) { state = r.world })
  main-simulated vm_trace clk rst n options fuel w r e ok stays =
      main-accepted vm_trace clk rst n options fuel w r e
      ∙ exec_arguments-simulated fuel (accepted_by (prepared vm_trace clk rst options w) r) ok stays
