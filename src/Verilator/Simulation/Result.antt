-- ===== src/Verilator/Simulation/Result.antt =====
-- The exit code of a simulation that fails.
use coco_ibex.Common.{ℕ, suc, ◌<◌, ◌≡◌, refl, arith, true, false, List, done, ap, ◌∙◌}
use coco_ibex.Verilator.Simulation.{Extension, Toplevel, Simulator}
use coco_ibex.Verilator.Simulation.Loop.{call_extensions, run_loop, start_run, end_run, run}
use coco_ibex.Verilator.Simulation.Exec.{
  CommandOption, Arguments, Exit, parse_command_args, run_simulation, exec_arguments, exec,
}
use coco_ibex.Verilator.Simulation.Verdict.{
  verdict_fits, Failed, call_extensions-Failed, call_extensions-fits, start_run-fits,
  end_run-Failed, run_loop-Failed,
}
use coco_ibex.Verilator.Simulation.Core.{Core, core_of, call_extensions-core}
use coco_ibex.Verilator.Simulation.Rounds.{rounds, goes_on}

module _ {S : Type 0} where
  -- What the loop starts from.
  abbrev pub loop_start : Toplevel S → Simulator S → Simulator S
  loop_start top s =
      start_run top (call_extensions (λ (ext : Extension S). ext.pre_exec) s.extension_array s)

  pre_set : (t s : Simulator S) → core_of t ≡ core_of s → s.top_set ≡ true → t.top_set ≡ true
  unfolding core_of
  pre_set t s e h = ap (λ (c : Core). c.top_set) e ∙ h

  core-time : (t s : Simulator S) → core_of t ≡ core_of s → t.time ≡ s.time
  unfolding core_of
  core-time t s e = ap (λ (c : Core). c.time) e

  run-done :
      (top : Toplevel S) (fuel : ℕ) (s ended : Simulator S)
      → s.top_set ≡ true
      → run_loop top fuel (start_run top s) ≡ done ended
      → run top fuel s ≡ done (end_run top ended)
  unfolding run
  run-done top fuel s ended set e = simp (set, e) refl

  -- What is left after `PostExec`.
  abbrev finished : Toplevel S → Simulator S → Simulator S
  finished top ended =
      call_extensions (λ (ext : Extension S). ext.post_exec) (end_run top ended).extension_array
        (end_run top ended)

  run_simulation-done :
      (top : Toplevel S) (fuel : ℕ) (s ended : Simulator S)
      → s.top_set ≡ true
      → run_loop top fuel (loop_start top s) ≡ done ended
      → run_simulation top fuel s ≡ done (finished top ended)
  unfolding run_simulation
  run_simulation-done top fuel s ended set e =
      let pre = call_extensions (λ (ext : Extension S). ext.pre_exec) s.extension_array s in
      let same = call_extensions-core (λ (ext : Extension S). ext.pre_exec) s.extension_array s in
      let ready = pre_set pre s same set in rw (run-done top fuel pre ended ready e) refl

  end_run-time : (top : Toplevel S) (s : Simulator S) → (end_run top s).time ≡ s.time
  unfolding end_run
  end_run-time top s = ground arith

  finished-time : (top : Toplevel S) (ended : Simulator S) → (finished top ended).time ≡ ended.time
  finished-time top ended =
      core-time (finished top ended) (end_run top ended) (
        call_extensions-core (λ (ext : Extension S). ext.post_exec)
          (end_run top ended).extension_array (end_run top ended))
      ∙ end_run-time top ended

  exec_arguments-Failed :
      (top : Toplevel S) (fuel : ℕ) (a : Arguments S) (final : Simulator S)
      → a.success ≡ true
      → a.exit_app ≡ false
      → run_simulation top fuel a.simulator ≡ done final
      → Failed final
      → exec_arguments top fuel a ≡ done (record { simulator = final; code = 1 })
  unfolding exec_arguments
  exec_arguments-Failed top fuel a final ok stays e f = rw (ok, stays, e, f) refl

  -- Where the arguments are accepted, an extension's request to stop with a failure, or any other fall of
  -- the verdict in a round that the loop reaches, ends the loop with that round, and `Exec` returns 1
  -- whatever the extensions still ask for.
  pub exec-Failed :
      (top : Toplevel S) (options : List CommandOption) (n fuel : ℕ) (s : Simulator S)
      (a : Arguments S)
      → parse_command_args top options false s ≡ done a
      → a.success ≡ true
      → a.exit_app ≡ false
      → a.simulator.top_set ≡ true
      → verdict_fits a.simulator ≡ true
      → goes_on top n (loop_start top a.simulator) ≡ true
      → Failed (rounds top (suc n) (loop_start top a.simulator))
      → n < fuel
      → (out : Exit S) × (exec top options fuel s ≡ done out)
        × (out.code ≡ 1)
        × (out.simulator.time ≡ (rounds top (suc n) (loop_start top a.simulator)).time)
  unfolding exec
  exec-Failed top options n fuel s a parsed ok stays set h on f enough =
      let ended = rounds top (suc n) (loop_start top a.simulator) in
      let fits =
        start_run-fits top
          (call_extensions (λ (ext : Extension S). ext.pre_exec) a.simulator.extension_array
            a.simulator)
          (call_extensions-fits (λ (ext : Extension S). ext.pre_exec) a.simulator.extension_array
            a.simulator h) in
      let looped = run_loop-Failed top n fuel (loop_start top a.simulator) fits on f enough in
      let final = finished top ended in
      let fell =
        call_extensions-Failed (λ (ext : Extension S). ext.post_exec)
          (end_run top ended).extension_array (end_run top ended) (end_run-Failed top ended f) in
      (
        record { simulator = final; code = 1 },
        rw parsed (
            exec_arguments-Failed top fuel a final ok stays
              (run_simulation-done top fuel a.simulator ended set looped) fell),
        refl,
        finished-time top ended,
      )
