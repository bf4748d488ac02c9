-- ===== src/SimpleSystem/Exception/Examples.antt =====
-- The exception report at the values of an illegal instruction.
use coco_ibex.Common.{ℕ, ◌≡◌, arith, List, [], ◌++◌, codes}
use coco_ibex.SimpleSystem.Console.{puts, sim_halt}
use coco_ibex.SimpleSystem.Exception.{simple_exc_handler}
use coco_ibex.SimpleSystem.Exception.Report.{IsWord, simple_exc_handler_lem}

simple_exc_handler_lem_example :
    (p q r : List ℕ) × IsWord p 0x0010_0084
    × IsWord q 2
    × IsWord r 0xFFFF_FFFF
    × (simple_exc_handler 0x0010_0084 2 0xFFFF_FFFF []
        ≡ sim_halt (
            puts
              (codes "EXCEPTION!!!\n============\nMEPC:   0x%0X"
                ++ (p
                    ++ (codes "\nMCAUSE: 0x%0X"
                        ++ (q ++ (codes "\nMTVAL:  0x%0X" ++ (r ++ codes "\n"))))))
              []))
simple_exc_handler_lem_example =
    simple_exc_handler_lem 0x0010_0084 2 0xFFFF_FFFF [] (omega arith) (omega arith) (omega arith)
