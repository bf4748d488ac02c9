-- ===== src/CsRegisters/ResetDriver.antt =====
-- The reset driver of the register testbench: dv/cs_registers/rst_driver/reset_driver.cc. The random
-- engine and its distribution are parameters.
mod Examples
use coco_ibex.Common.{
  ℕ, zero, suc, ◌+◌, ◌-◌, ◌≤◌, ◌<◌, ◌≡◌, refl, arith, Bool, true, false, ◌==◌, ltb, List, [], ◌∷◌,
  ◌++◌, if◌then◌else◌, replicate, ap, ◌∙◌,
}
use coco_ibex.CsRegisters.Driver.{Drawn}

pub record ResetDriver (Engine : Type 0) : Type 0 where
  pub reset_delay : ℕ
  reset_duration : ℕ
  pub generator : Engine

-- A call, with the level that it drives.
pub record Driven (Engine : Type 0) : Type 0 where
  pub driver : ResetDriver Engine
  pub rst_n : Bool

module _ {Engine : Type 0} (delay_dist : Engine → Drawn Engine) where
  -- The constructor and `OnInitial`, once the engine is seeded.
  unfoldable pub reset_driver : Engine → ResetDriver Engine
  reset_driver seeded = record { reset_delay = 1; reset_duration = 0; generator = seeded }

  -- `--reset_delay_ == 0`: the delay is at least 1 before each call.
  unfoldable pub count_delay : ResetDriver Engine → ResetDriver Engine
  count_delay d =
      let drawn = delay_dist d.generator in
      if d.reset_delay == 1
      then record { reset_delay = drawn.value; reset_duration = 0; generator = drawn.engine }
      else record d { reset_delay = d.reset_delay - 1 }

  unfoldable pub drive_level : ResetDriver Engine → Driven Engine
  drive_level d =
      if ltb d.reset_duration 3
      then record { driver = record d { reset_duration = d.reset_duration + 1 }; rst_n = false }
      else record { driver = d; rst_n = true }

  unfoldable pub drive_rst : ResetDriver Engine → Driven Engine
  drive_rst d = drive_level (count_delay d)

  -- The levels of a number of calls, and the driver after them.
  unfoldable pub levels : ℕ → ResetDriver Engine → List Bool
  levels zero d = []
  levels (suc n) d = (drive_rst d).rst_n ∷ levels n (drive_rst d).driver

  unfoldable pub after_calls : ℕ → ResetDriver Engine → ResetDriver Engine
  after_calls zero d = d
  after_calls (suc n) d = after_calls n (drive_rst d).driver

  abbrev at : ℕ → ℕ → Engine → ResetDriver Engine
  at delay duration g = record { reset_delay = delay; reset_duration = duration; generator = g }

  -- A call between two draws.
  drive_rst-asserted :
      (n duration : ℕ) (g : Engine)
      → duration < 3
      → drive_rst (at (suc (suc n)) duration g)
        ≡ record { driver = at (suc n) (duration + 1) g; rst_n = false }
  unfolding drive_rst drive_level count_delay
  drive_rst-asserted n duration g h = ground (arith, h)

  drive_rst-released :
      (n : ℕ) (g : Engine)
      → drive_rst (at (suc (suc n)) 3 g) ≡ record { driver = at (suc n) 3 g; rst_n = true }
  unfolding drive_rst drive_level count_delay
  drive_rst-released n g = ground arith

  -- A call with a draw.
  drive_rst-drawn :
      (n : ℕ) (d : ResetDriver Engine)
      → d.reset_delay ≡ 1
      → (delay_dist d.generator).value ≡ n
      → drive_rst d ≡ record { driver = at n 1 (delay_dist d.generator).engine; rst_n = false }
  unfolding drive_rst drive_level count_delay
  drive_rst-drawn n d due e = ground (arith, due, e)

  levels-step :
      (n : ℕ) (d : ResetDriver Engine) (out : Driven Engine)
      → drive_rst d ≡ out
      → (levels (suc n) d ≡ out.rst_n ∷ levels n out.driver)
        × (after_calls (suc n) d ≡ after_calls n out.driver)
  unfolding levels after_calls
  levels-step n d out e = (
    ap (λ (o : Driven Engine). o.rst_n ∷ levels n o.driver) e,
    ap (λ (o : Driven Engine). after_calls n o.driver) e,
  )

  -- The calls with the reset released, up to the next draw.
  levels-released :
      (n : ℕ) (g : Engine)
      → (levels n (at (suc n) 3 g) ≡ replicate n true) × (after_calls n (at (suc n) 3 g) ≡ at 1 3 g)
  unfolding levels after_calls
  levels-released zero g = (refl, refl)
  levels-released (suc n) g =
      let step =
        levels-step n (at (suc (suc n)) 3 g) (record { driver = at (suc n) 3 g; rst_n = true })
          (drive_rst-released n g) in
      let later = levels-released n g in
      (step.0 ∙ ap (λ (l : List Bool). true ∷ l) later.0, step.1 ∙ later.1)

  -- From a draw to the next one.
  levels-period :
      (n : ℕ) (d : ResetDriver Engine)
      → d.reset_delay ≡ 1
      → (delay_dist d.generator).value ≡ suc (suc (suc n))
      → let g = (delay_dist d.generator).engine in
        (levels (suc (suc (suc n))) d ≡ replicate 3 false ++ replicate n true)
        × (after_calls (suc (suc (suc n))) d ≡ at 1 3 g)
  levels-period n d due e =
      let g = (delay_dist d.generator).engine in
      let first =
        levels-step (suc (suc n)) d (record { driver = at (suc (suc (suc n))) 1 g; rst_n = false })
          (drive_rst-drawn (suc (suc (suc n))) d due e) in
      let second =
        levels-step (suc n) (at (suc (suc (suc n))) 1 g)
          (record { driver = at (suc (suc n)) 2 g; rst_n = false })
          (drive_rst-asserted (suc n) 1 g (omega arith)) in
      let third =
        levels-step n (at (suc (suc n)) 2 g) (record { driver = at (suc n) 3 g; rst_n = false })
          (drive_rst-asserted n 2 g (omega arith)) in
      let rest = levels-released n g in
      (
        first.0
            ∙ ap (λ (l : List Bool). false ∷ l)
                (second.0
                  ∙ ap (λ (l : List Bool). false ∷ l)
                      (third.0 ∙ ap (λ (l : List Bool). false ∷ l) rest.0)),
        first.1 ∙ second.1 ∙ third.1 ∙ rest.1,
      )

  -- From a call that draws, such as the first one, as many calls as drawn pull the reset down three times
  -- and then leave it up, and the next call draws again.
  pub levels-drawn :
      (d : ResetDriver Engine)
      → d.reset_delay ≡ 1
      → 100 ≤ (delay_dist d.generator).value
      → (levels (delay_dist d.generator).value d
          ≡ replicate 3 false ++ replicate ((delay_dist d.generator).value - 3) true)
        × ((after_calls (delay_dist d.generator).value d).reset_delay ≡ 1)
        × ((after_calls (delay_dist d.generator).value d).generator
            ≡ (delay_dist d.generator).engine)
  levels-drawn d due low =
      let v = (delay_dist d.generator).value in
      let e : v ≡ suc (suc (suc (v - 3))) = omega (arith, low) in
      let period = levels-period (v - 3) d due e in
      let after = ap (λ (n : ℕ). after_calls n d) e ∙ period.1 in
      (
        ap (λ (n : ℕ). levels n d) e ∙ period.0,
        ap (λ (r : ResetDriver Engine). r.reset_delay) after,
        ap (λ (r : ResetDriver Engine). r.generator) after,
      )
