-- ===== src/Verilator/MemUtil/Areas/Examples.antt =====
-- A second registration under a name that is taken.
use coco_ibex.Common.{◌≡◌, refl, false, [], ◌∷◌, done, codes}
use coco_ibex.Text.{same_text}
use coco_ibex.Verilator.MemUtil.Areas.{MemArea, find_area, emplace, register_memory_area}

abbrev ram : MemArea
ram = record { name = codes "ram"; location = codes "TOP.sim.u_ram"; width_bit = 32 }

taken :
    register_memory_area (codes "ram") (codes "TOP.other") 64 (ram ∷ [])
    ≡ done (record { areas = ram ∷ []; success = false })
unfolding register_memory_area emplace find_area same_text
taken = refl
