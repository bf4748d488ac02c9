-- ===== src/SimpleSystem/Coremark/Finish.antt =====
-- The start and the end of a run of the benchmark.
use mathlib.Core.Path.{subst}
use coco_ibex.Common.{
  Bool, false, ◌≤◌, ◌^◌, ◌∙◌, sym, ℕ, ◌<◌, ◌≡◌, refl, List, [], ◌∷◌, ◌++◌, done, arith, length,
  length-append, codes, true, ◌>>=◌, All-append,
}
use coco_ibex.Common.Int.{pos, negsuc, pos_part, ◌-ℤ◌}
use coco_ibex.Printf.Pad.{Flags, no_flags}
use coco_ibex.Printf.Float.{FloatOps, float_text, flt}
use coco_ibex.Printf.Float.Field.{sign_text, magnitude, float_field, flt-field}
use coco_ibex.Printf.Directive.{
  double, skip_flags, flag_of, get_width, get_precision, get_qualifier, read_directive,
}
use coco_ibex.Printf.Convert.{FloatWriter, convert, convert_float}
use coco_ibex.Printf.Format.{convert_at, run_directive, vsprintf_loop, ee_vsprintf}
use coco_ibex.SimpleSystem.Console.{Trace, puts}
use coco_ibex.SimpleSystem.Coremark.{Timing, start_time, stop_time, get_time}
use coco_ibex.SimpleSystem.Coremark.Elapsed.{pass, get_time_lem}
use coco_ibex.SimpleSystem.Coremark.Report.{
  Singles, coremark_mhz, Ported, init_text, portable_init, portable_fini,
}
use coco_ibex.SimpleSystem.Coremark.Dump.{
  IsPlain, print-puts, puts-puts, print-literal, report, dump_pcounts_lem,
}

abbrev label : List ℕ
label = codes "Coremark / MHz: "

-- Those of `%f`.
abbrev pub flags : Flags
flags = record no_flags { sign = true }

sign_text-fits : (negative : Bool) → length (sign_text flags negative) ≤ 1
unfolding sign_text
sign_text-fits negative = ground arith

sign_text-IsPlain : (negative : Bool) → IsPlain (sign_text flags negative)
unfolding sign_text
sign_text-IsPlain true = omega arith
sign_text-IsPlain false = tt

no_room : (a b : ℕ) → pos_part (negsuc 0 -ℤ pos a -ℤ pos b) ≡ 0
unfolding ◌-ℤ◌
no_room a b = ground arith

module _ {Double : Type 0} (flt : FloatWriter Double) where
  -- `flt` writes a text for `x` behind the label of the last line, one that fits the line.
  record Writes (x : Double) (s : List ℕ) : Type 0 where
    writes :
        flt label x (negsuc 0) (negsuc 0) b'f' (record no_flags { sign = true }) ≡ done (label ++ s)
    fits : length s < 200
    plain : IsPlain s

  ee_vsprintf-mhz :
      (x : Double) (s : List ℕ)
      → Writes x s
      → ee_vsprintf flt (codes "Coremark / MHz: %f\n") (double x ∷ [])
        ≡ done (label ++ (s ++ b'\n' ∷ []))
  unfolding ee_vsprintf vsprintf_loop run_directive convert_at convert convert_float read_directive
      skip_flags flag_of get_width get_precision get_qualifier
  ee_vsprintf-mhz x s h = rw h.writes refl

  portable_init_lem :
      (t : Trace)
      → portable_init flt t ≡ done (record { trace = puts init_text t; portable_id = 1 })
  unfolding portable_init
  portable_init_lem t =
      rw (print-literal flt init_text t (omega arith) (omega arith) (omega arith)) refl

  portable_fini_lem :
      {Single : Type 0} (f : Singles Single Double) (iterations : ℕ) (m : Timing) (t : Trace)
      (s : List ℕ)
      → Writes (coremark_mhz f iterations (get_time m)) s
      → portable_fini flt f iterations m t
        ≡ done (record {
          trace = puts (report m.counters ++ (label ++ (s ++ b'\n' ∷ []))) t;
          portable_id = 0;
        })
  unfolding portable_fini
  portable_fini_lem f iterations m t s h =
      let line = label ++ (s ++ b'\n' ∷ []) in
      let short : length line < 256 =
        omega
          (arith, h.fits, length-append label (s ++ b'\n' ∷ []), length-append s (b'\n' ∷ [])) in
      let plain : IsPlain line =
        All-append _ label (s ++ b'\n' ∷ []) (omega arith)
          (All-append _ s (b'\n' ∷ []) h.plain (omega arith)) in
      rw
        (
          dump_pcounts_lem flt m.counters t,
          print-puts flt (codes "Coremark / MHz: %f\n")
              (double (coremark_mhz f iterations (get_time m)) ∷ []) (puts (report m.counters) t)
              line (ee_vsprintf-mhz _ s h) short plain,
          puts-puts (report m.counters) line t,
        )
        refl

module _ {Double Single : Type 0} (ops : FloatOps Double) (f : Singles Single Double)
    (iterations : ℕ) where
  flt-Writes :
      (x : Double) (s : List ℕ)
      → float_text ops flags b'f' (pos 6) (magnitude ops flags x) ≡ done s
      → length s < 199
      → IsPlain s
      → Writes (flt ops) x (sign_text flags (ops.below_zero x) ++ s)
  flt-Writes x s e short plain =
      let sign = sign_text flags (ops.below_zero x) in
      let narrow : pos_part (negsuc 0 -ℤ pos (length sign) -ℤ pos (length s)) ≡ 0 =
        no_room (length sign) (length s) in
      record {
        writes =
            flt-field ops label x (negsuc 0) (negsuc 0) b'f' flags
            ∙ rw (e, narrow) (unfold float_field in refl);
        fits = omega (arith, short, length-append sign s, sign_text-fits (ops.below_zero x));
        plain = All-append _ sign s (sign_text-IsPlain (ops.below_zero x)) plain;
      }

  -- Where the benchmark runs for fewer than 2^32 cycles between `start_time` and `stop_time`, whatever it
  -- leaves in the counters else, and however many pass before the first read, the port prints around it the line of `portable_init`, the report of the
  -- counters, and a line with the quotient of a million times the iterations by these cycles: its sign and the text that `float_text` makes of
  -- its magnitude with six digits, if that is done, with fewer than 199 bytes and no NUL.
  pub portable_fini-portable_init :
      (start : Timing) (before cycles later : ℕ) (t : Trace) (s : List ℕ)
      → cycles < 2 ^ 32
      → let x = f.to_double (
          f.divide
            (f.multiply (f.of_integer 1_000_000) (f.of_integer iterations))
            (f.of_integer cycles)) in
        float_text ops flags b'f' (pos 6) (magnitude ops flags x) ≡ done s
        → length s < 199
        → IsPlain s
        → let m = pass later (stop_time (pass cycles (start_time before start))) in
          (portable_init (flt ops) t
            >>= (λ (p : Ported). portable_fini (flt ops) f iterations m p.trace))
          ≡ done (record {
            trace =
                puts
                  (init_text
                    ++ (report m.counters
                        ++ (label ++ ((sign_text flags (ops.below_zero x) ++ s) ++ b'\n' ∷ []))))
                  t;
            portable_id = 0;
          })
  unfolding coremark_mhz
  portable_fini-portable_init start before cycles later t s lt e short plain =
      let m = pass later (stop_time (pass cycles (start_time before start))) in
      let x = coremark_mhz f iterations cycles in
      let sign = sign_text flags (ops.below_zero x) in
      let time : get_time m ≡ cycles = get_time_lem start before cycles later lt in
      let written : Writes (flt ops) (coremark_mhz f iterations (get_time m)) (sign ++ s) =
        subst (λ (n : ℕ). Writes (flt ops) (coremark_mhz f iterations n) (sign ++ s)) (sym time)
          (flt-Writes x s e short plain) in
      rw
        (
          portable_init_lem (flt ops) t,
          portable_fini_lem (flt ops) f iterations m (puts init_text t) (sign ++ s) written,
          puts-puts init_text (report m.counters ++ (label ++ ((sign ++ s) ++ b'\n' ∷ []))) t,
        )
        refl
