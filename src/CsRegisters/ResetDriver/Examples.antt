-- ===== src/CsRegisters/ResetDriver/Examples.antt =====
-- A reset driver whose engine counts.
use coco_ibex.Common.{ℕ, ◌+◌, ◌-◌, ◌≡◌, refl, arith, true, false, ◌++◌, replicate}
use coco_ibex.CsRegisters.Driver.{Drawn}
use coco_ibex.CsRegisters.ResetDriver.{reset_driver, levels, after_calls, levels-drawn}

abbrev counted : ℕ → Drawn ℕ
counted gen = record { value = 100 + gen; engine = gen + 1 }

levels-drawn_example :
    (levels counted 107 (reset_driver counted 7) ≡ replicate 3 false ++ replicate (107 - 3) true)
    × ((after_calls counted 107 (reset_driver counted 7)).reset_delay ≡ 1)
    × ((after_calls counted 107 (reset_driver counted 7)).generator ≡ 8)
unfolding reset_driver
levels-drawn_example = levels-drawn counted (reset_driver counted 7) refl (ground arith)
