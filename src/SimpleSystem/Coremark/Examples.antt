-- ===== src/SimpleSystem/Coremark/Examples.antt =====
-- The measured time from a counter that is about to overflow, and a report.
use coco_ibex.Common.{ℕ, false, ◌*◌, ◌/◌, ◌==◌, ◌≡◌, refl, arith, [], ◌∷◌, ◌++◌, codes, done, ◌>>=◌}
use coco_ibex.Common.Int.{pos, ◌-ℤ◌, ◌+ℤ◌}
use coco_ibex.Printf.Float.{
  FloatOps, float_text, parse_float, parse_style, fixed, fixed_digits, with_point, in_tmp, flt,
}
use coco_ibex.Printf.Float.Field.{sign_text, magnitude}
use coco_ibex.SimpleSystem.Console.{puts}
use coco_ibex.SimpleSystem.Coremark.Report.{
  Singles, coremark_mhz, Ported, init_text, portable_init, portable_fini,
}
use coco_ibex.SimpleSystem.Coremark.Dump.{report, lines_text}
use coco_ibex.SimpleSystem.Coremark.Finish.{flags, portable_fini-portable_init}
use coco_ibex.Verilator.Pcount.{decimal_digits}
use coco_ibex.SimpleSystem.Coremark.{Timing, start_time, stop_time}
use coco_ibex.SimpleSystem.Coremark.Elapsed.{pass}

abbrev used : Timing
used = record {
  start_time_val = 5;
  stop_time_val = 7;
  counters = record {
    mcycle = 0xFFFF_FFFF;
    minstret = 12;
    mhpmcounters = 3 ∷ 4 ∷ [];
    mcountinhibit = 0;
  };
}

-- A double that is shown by its digits, with six of them behind the point.
abbrev ops : FloatOps ℕ
ops = record {
  ecvtbuf = λ x n. record { digits = decimal_digits 20 x; decpt = pos 1; sign = false };
  fcvtbuf =
      λ x n. record { digits = decimal_digits 20 x ++ codes "500000"; decpt = pos 1; sign = false };
  is_zero = λ x. x == 0;
  below_zero = λ x. false;
  negate = λ x. x;
}

abbrev singles : Singles ℕ ℕ
singles = record {
  of_integer = λ n. n;
  multiply = λ a b. a * b;
  divide = λ a b. a / b;
  to_double = λ x. x;
}

-- Ten iterations in four million cycles.
quotient_text :
    float_text ops flags b'f' (pos 6) (magnitude ops flags (1_000_000 * 10 / 4_000_000))
    ≡ done (codes "2.500000")
unfolding float_text parse_float parse_style fixed fixed_digits with_point in_tmp decimal_digits
    ◌-ℤ◌ ◌+ℤ◌
quotient_text = refl

portable_fini-portable_init_example :
    (portable_init (flt ops) [] >>= (λ (p : Ported).
      portable_fini
        (flt ops)
        singles
        10
        (pass 9 (stop_time (pass 4_000_000 (start_time 4 used))))
        p.trace))
    ≡ done (record {
      trace =
          puts
            (init_text
              ++ (report (pass 9 (stop_time (pass 4_000_000 (start_time 4 used)))).counters
                  ++ (codes "Coremark / MHz: "
                      ++ ((sign_text flags false ++ codes "2.500000") ++ b'\n' ∷ []))))
            [];
      portable_id = 0;
    })
unfolding coremark_mhz
portable_fini-portable_init_example =
    portable_fini-portable_init ops singles 10 used 4 4_000_000 9 [] (codes "2.500000")
      (omega arith) quotient_text (omega arith) (omega arith)

-- The lines of the report of two of the counters.
two_lines :
    lines_text (codes "Loads" ∷ codes "Stores" ∷ []) (1200 ∷ 0 ∷ [])
    ≡ codes "Loads: 1200\nStores: 0\n"
unfolding decimal_digits
two_lines = refl
