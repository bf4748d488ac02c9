-- ===== src/Verilator/Pcount/Examples.antt =====
-- The counters at concrete values.
use coco_ibex.Common.{◌≡◌, refl, false, [], ◌∷◌, done, codes}
use coco_ibex.Verilator.Pcount.{pcount_lines, line_head, decimal_digits}

two_lines :
    pcount_lines false 8 (codes "Cycles" ∷ codes "Loads" ∷ []) (1234 ∷ 0 ∷ [])
    ≡ done (codes "Cycles:  1234\nLoads:   0\n")
unfolding pcount_lines line_head decimal_digits
two_lines = refl
