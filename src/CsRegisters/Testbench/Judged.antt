-- ===== src/CsRegisters/Testbench/Judged.antt =====
-- The output of the register testbench's design against the answers of the core, over its steps.
use coco_ibex.Common.{ℕ, ◌≡◌, refl, ap₂, ◌∙◌, Bool, ◌&&◌, List, [], ◌∷◌, Option, none, some}
use coco_ibex.CsRegisters.Register.{RegisterMap}
use coco_ibex.CsRegisters.Driver.{Drawn}
use coco_ibex.CsRegisters.Bench.{Tick}
use coco_ibex.CsRegisters.Bench.Verdict.{
  all_answers, answers, core_after, and_assoc, and_true, Ready, tick-Judged,
}
use coco_ibex.CsRegisters.Testbench.{Design, Step, core_step, env_step, call, env_tick, step, steps}

-- The calls before the last `env_tick`.
unfoldable pub judged_calls : {Core : Type 0} → List (Step Core) → Option (List Tick)
judged_calls [] = none
judged_calls (core_step core ∷ rest) = judged_calls rest
judged_calls (env_step ∷ rest) = elim (judged_calls rest) [
  | none ↦ some []
  | some ticks ↦ some ticks
]
judged_calls (call t ∷ rest) = elim (judged_calls rest) [
  | none ↦ none
  | some ticks ↦ some (t ∷ ticks)
]

-- The output after them: all the answers so far are correct, or it is as it was.
unfoldable pub told : Bool → RegisterMap → Bool → Option (List Tick) → Bool
told so_far map before none = before
told so_far map before (some ticks) = so_far && all_answers ticks map

told-env :
    (s before : Bool) (map : RegisterMap) (o : Option (List Tick))
    → told s map s o ≡ told s map before (elim o [ none ↦ some [] | some ticks ↦ some ticks ])
unfolding told all_answers
told-env s before map none = and_true s
told-env s before map (some ticks) = refl

told-call :
    (s before : Bool) (t : Tick) (map : RegisterMap) (o : Option (List Tick))
    → told (s && answers t map) (core_after t map) before o
      ≡ told s map before (elim o [ none ↦ none | some ticks ↦ some (t ∷ ticks) ])
unfolding told all_answers
told-call s before t map none = refl
told-call s before t map (some ticks) =
    and_assoc s (answers t map) (all_answers ticks (core_after t map))

module _ {Core Engine : Type 0} (between : ℕ → ℕ → Engine → Drawn Engine)
    (word : Engine → Drawn Engine) where
  pub steps-told :
      (made : List (Step Core)) (d : Design Core Engine)
      → Ready between word d.bench
      → (steps between word made d).env_outputs.test_passed
        ≡ told d.bench.simctrl.success d.bench.registers d.env_outputs.test_passed
            (judged_calls made)
  unfolding steps step judged_calls told env_tick
  steps-told [] d h = refl
  steps-told (core_step core ∷ rest) d h = steps-told rest (step between word (core_step core) d) h
  steps-told (env_step ∷ rest) d h =
      steps-told rest (step between word env_step d) h
      ∙ told-env d.bench.simctrl.success d.env_outputs.test_passed d.bench.registers
          (judged_calls rest)
  steps-told (call t ∷ rest) d h =
      let (registers, success, ready) = tick-Judged between word t d.bench h in
      let before = d.env_outputs.test_passed in
      steps-told rest (step between word (call t) d) ready
      ∙ ap₂ (λ (s : Bool) (map : RegisterMap). told s map before (judged_calls rest)) success
          registers
      ∙ told-call d.bench.simctrl.success before t d.bench.registers (judged_calls rest)
