-- ===== src/CsRegisters/Testbench/Returned.antt =====
-- What the simulation of the register testbench, dv/cs_registers/tb/tb_cs_registers.cc, returns.
use mathlib.Core.Path.{subst}
use coco_ibex.Common.{
  ℕ, suc, ◌<◌, ◌≡◌, refl, sym, ap, ap₂, ◌∙◌, Bool, true, false, List, [], ◌∷◌, ◌++◌, done,
  if◌then◌else◌,
}
use coco_ibex.Verilator.Simulation.{Toplevel, simulator, set_top}
use coco_ibex.Verilator.Simulation.Loop.{is_over, start_run}
use coco_ibex.Verilator.Simulation.Rounds.{rounds, goes_on}
use coco_ibex.Verilator.Simulation.Exec.{CommandOption, Arguments, Exit, parse_command_args}
use coco_ibex.Verilator.Main.Benches.{tb_main}
use coco_ibex.Verilator.Main.TestPassed.{
  Gives, ReadyArguments, parse-Ready, start_run-Clean, tb_main-test_passed,
}
use coco_ibex.Verilator.Main.Design.{
  Keeps, Kept, parse-keeps, start_run-keeps, rounds-keeps, end_run-state,
}
use coco_ibex.CsRegisters.Register.{RegisterMap}
use coco_ibex.CsRegisters.Model.{Params, Transaction, register_model}
use coco_ibex.CsRegisters.Model.Listing.{addresses-register_model}
use coco_ibex.CsRegisters.Driver.{Drawn}
use coco_ibex.CsRegisters.Bench.{env_initial, register_intf, is_registered}
use coco_ibex.CsRegisters.Bench.Verdict.{Ready}
use coco_ibex.CsRegisters.Testbench.{CsrInputs, Design, Step, end_design, steps, step}
use coco_ibex.CsRegisters.Testbench.Judged.{judged_calls, told, steps-told}

module _ {Engine : Type 0} (between : ℕ → ℕ → Engine → Drawn Engine)
    (word : Engine → Drawn Engine) where
  begun-Ready :
      (params : Params) (seeded : Engine) (trans : Transaction)
      → Ready between word (env_initial between word params seeded trans)
  unfolding env_initial register_intf is_registered
  begun-Ready params seeded trans = (refl, addresses-register_model params)

  begun-success :
      (params : Params) (seeded : Engine) (trans : Transaction)
      → (env_initial between word params seeded trans).simctrl.success ≡ true
  unfolding env_initial
  begun-success params seeded trans = refl

  begun-registers :
      (params : Params) (seeded : Engine) (trans : Transaction)
      → (env_initial between word params seeded trans).registers ≡ register_model params
  unfolding env_initial
  begun-registers params seeded trans = refl

module _ {Core Engine : Type 0} (between : ℕ → ℕ → Engine → Drawn Engine)
    (word : Engine → Drawn Engine) where
  steps-++ :
      (made bs : List (Step Core)) (d : Design Core Engine)
      → steps between word (made ++ bs) d ≡ steps between word bs (steps between word made d)
  unfolding steps
  steps-++ [] bs d = refl
  steps-++ (a ∷ made) bs d = steps-++ made bs (step between word a d)

  -- A state that steps lead to.
  abbrev From : Design Core Engine → Design Core Engine → Type 0
  From start d = (made : List (Step Core)) × (d ≡ steps between word made start)

  From-steps :
      (start d after : Design Core Engine) (bs : List (Step Core))
      → after ≡ steps between word bs d
      → From start d
      → From start after
  From-steps start d after bs e (made, f) =
      (made ++ bs, e ∙ ap (steps between word bs) f ∙ sym (steps-++ made bs start))

  -- The verilated design: whatever its functions do to its state, they do by steps, the last of which is
  -- the `final` block of the design.
  pub record InSteps (top : Toplevel (Design Core Engine)) : Type 0 where
    pub eval_steps :
        (clk rst : ℕ) (d : Design Core Engine)
        → (made : List (Step Core)) × (top.eval clk rst d ≡ steps between word made d)
    pub final_steps :
        (d : Design Core Engine)
        → (made : List (Step Core)) × (top.final d
            ≡ end_design between word (steps between word made d))
    pub start_trace_steps :
        (d : Design Core Engine)
        → (made : List (Step Core)) × (top.start_trace d ≡ steps between word made d)
    pub command_args_steps :
        (d : Design Core Engine)
        → (made : List (Step Core)) × (top.command_args d ≡ steps between word made d)

  From-Keeps :
      (start : Design Core Engine) (top : Toplevel (Design Core Engine))
      → InSteps top
      → Keeps top (From start)
  From-Keeps start top v = record {
    eval_keeps = λ clk rst d.
        From-steps start d (top.eval clk rst d) (v.eval_steps clk rst d).0
          (v.eval_steps clk rst d).1;
    start_trace_keeps = λ d.
        From-steps start d (top.start_trace d) (v.start_trace_steps d).0 (v.start_trace_steps d).1;
    command_args_keeps = λ d.
        From-steps start d (top.command_args d) (v.command_args_steps d).0
          (v.command_args_steps d).1;
  }

  -- The design after `env_initial`, its signals as they are before the first clock edge.
  abbrev pub begun : Params → Engine → Transaction → Core → CsrInputs → Design Core Engine
  begun params seeded trans core inputs = record {
    core = core;
    bench = env_initial between word params seeded trans;
    env_outputs = record { stop_req = false; test_passed = false };
    csr_inputs = inputs;
    dpi_rst_n = false;
  }

  -- A property of the design's states that its functions keep, at the end of the loop.
  ended-keeps :
      (top : Toplevel (Design Core Engine)) (Q : Design Core Engine → Type 0)
      → Keeps top Q
      → (options : List CommandOption) (vm_trace : Bool) (clk rst n : ℕ)
        (state : Design Core Engine) (a : Arguments (Design Core Engine))
      → parse_command_args top options false (set_top clk rst true (simulator vm_trace state))
        ≡ done a
      → Q state
      → Q (rounds top (suc n) (start_run top a.simulator)).state
  unfolding set_top simulator
  ended-keeps top Q k options vm_trace clk rst n state a parsed q =
      let start = set_top clk rst true (simulator vm_trace state) in
      let ready : ReadyArguments a =
        subst (Gives ReadyArguments) parsed
          (parse-Ready top options false start (refl, (refl, refl))) in
      let kept : Q a.simulator.state =
        subst (Gives (Kept top Q k)) parsed (parse-keeps top Q k options false start refl q) in
      rounds-keeps top Q k (suc n) (start_run top a.simulator)
        (start_run-Clean top a.simulator ready.1) (start_run-keeps top Q k a.simulator kept)

  -- Where the arguments are accepted and the loop ends, the simulation of the register testbench returns 0
  -- exactly if the core's answers to all the calls before the last call of `env_tick` are correct, for a
  -- design whose functions do nothing to the testbench but by its DPI functions, in any order and number, and
  -- whose last call is `env_final`.
  pub tb_main-all_answers :
      (params : Params) (seeded : Engine) (trans : Transaction) (core : Core) (inputs : CsrInputs)
      (top : Toplevel (Design Core Engine)) (vm_trace : Bool) (clk rst : ℕ)
      (options : List CommandOption) (n fuel : ℕ) (a : Arguments (Design Core Engine))
      → InSteps top
      → parse_command_args top options false
          (set_top clk rst true (simulator vm_trace (begun params seeded trans core inputs)))
        ≡ done a
      → a.success ≡ true
      → a.exit_app ≡ false
      → goes_on top n (start_run top a.simulator) ≡ true
      → is_over top (rounds top (suc n) (start_run top a.simulator)) ≡ true
      → n < fuel
      → (out : Exit (Design Core Engine)) × (made : List (Step Core)) × (tb_main
            (λ (d : Design Core Engine). d.env_outputs.test_passed)
            top
            vm_trace
            clk
            rst
            options
            fuel
            (begun params seeded trans core inputs)
          ≡ done out)
        × (out.simulator.state
            ≡ end_design between word
                (steps between word made (begun params seeded trans core inputs)))
        × (out.code
            ≡ (if told true (register_model params) false (judged_calls made) then 0 else 1))
  unfolding steps end_design
  tb_main-all_answers params seeded trans core inputs top vm_trace clk rst options n fuel a v parsed
        ok stays on over enough =
      let start = begun params seeded trans core inputs in
      let passed = λ (d : Design Core Engine). d.env_outputs.test_passed in
      let (out, returned, same, code) =
        tb_main-test_passed passed top vm_trace clk rst options n fuel start a parsed ok stays on
          over enough in
      let ended = rounds top (suc n) (start_run top a.simulator) in
      let (looped, reached) =
        ended-keeps top (From start) (From-Keeps start top v) options vm_trace clk rst n start a
          parsed ([], refl) in
      let (finals, finished) = v.final_steps ended.state in
      let made = looped ++ finals in
      let state : out.simulator.state ≡ end_design between word (steps between word made start) =
        ap (λ s. s.state) same
        ∙ end_run-state top ended
        ∙ finished
        ∙ ap (λ (d : Design Core Engine). end_design between word (steps between word finals d))
            reached
        ∙ ap (end_design between word) (sym (steps-++ looped finals start)) in
      let verdict =
        ap passed state
        ∙ steps-told between word made start (begun-Ready between word params seeded trans)
        ∙ ap₂ (λ (s : Bool) (map : RegisterMap). told s map false (judged_calls made))
            (begun-success between word params seeded trans)
            (begun-registers between word params seeded trans) in
      (out, made, returned, state, code ∙ ap (λ (b : Bool). if b then 0 else 1) verdict)
