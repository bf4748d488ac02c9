-- ===== src/SimpleSystem/Coremark/Dump.antt =====
-- The whole report, as a text that one `puts` would write.
use coco_ibex.Common.{
  ℕ, zero, suc, ◌+◌, ◌/◌, ◌^◌, ◌≤◌, ◌<◌, ◌≡◌, ◌≢◌, refl, ◌∙◌, ap, true, false, List, [], ◌∷◌, ◌++◌,
  done, arith, length, length-append, ltb, codes, All, All-append, some, dec_lt,
}
use coco_ibex.Printf.Directive.{Arg, word, text}
use coco_ibex.Printf.Convert.{FloatWriter}
use coco_ibex.Printf.Format.{ee_vsprintf}
use coco_ibex.Printf.Format.Literal.{ee_vsprintf-literal}
use coco_ibex.Printf.Format.Print.{before_nul, ee_printf_lem}
use coco_ibex.SimpleSystem.Console.{Trace, puts, putchar}
use coco_ibex.SimpleSystem.Coremark.{Counters}
use coco_ibex.SimpleSystem.Coremark.Report.{
  read_mhpmcounter, read_mhpmcounters, pcount_read, pcount_names, heading, line_format, print,
  dump_loop, dump_pcounts,
}
use coco_ibex.SimpleSystem.Coremark.Line.{line_text, ee_vsprintf-line}
use coco_ibex.Verilator.Pcount.{decimal_digits, decimal}
use coco_ibex.Verilator.Pcount.Decimal.{decimal-IsDigit, IsDigit}

abbrev pub IsPlain : List ℕ → Type 0
IsPlain s = All (λ c. c ≢ 0) s

before_nul_plain : (s : List ℕ) → IsPlain s → before_nul s ≡ s
unfolding before_nul
before_nul_plain [] h = refl
before_nul_plain (c ∷ s) h = ground (arith, h.0, before_nul_plain s h.1)

length-decimal_digits : (fuel n : ℕ) → length (decimal_digits fuel n) ≤ fuel
unfolding decimal_digits
length-decimal_digits zero n = omega arith
length-decimal_digits (suc fuel) n = elim (dec_lt n 10) [
  | yes small ↦ let ten : ltb n 10 ≡ true = ground (arith, small) in rw ten (omega arith)
  | no large ↦
      let ten : ltb n 10 ≡ false = ground (arith, large) in
      rw (ten, length-append) (omega (arith, length-decimal_digits fuel (n / 10)))
]

IsDigit-IsPlain : (s : List ℕ) → All IsDigit s → IsPlain s
IsDigit-IsPlain [] h = tt
IsDigit-IsPlain (c ∷ s) h = (λ e. omega (arith, h.0.0, e), IsDigit-IsPlain s h.1)

pub puts-puts : (s s' : List ℕ) (t : Trace) → puts s' (puts s t) ≡ puts (s ++ s') t
unfolding puts
puts-puts [] s' t = refl
puts-puts (c ∷ s) s' t = puts-puts s s' (putchar c t)

-- A name that fits a line of the report.
abbrev IsName : List ℕ → Type 0
IsName name = (length name < 200) × IsPlain name

IsPlain-line : (name : List ℕ) (value : ℕ) → IsName name → IsPlain (line_text name value)
IsPlain-line name value h = All-append _ name _ h.1 (
  omega arith,
  (
    omega arith,
    All-append _ (decimal value) (b'\n' ∷ [])
        (IsDigit-IsPlain (decimal value) (decimal-IsDigit value)) (omega arith, tt),
  ),
)

length-line : (name : List ℕ) (value : ℕ) → IsName name → length (line_text name value) < 256
length-line name value h =
    rw (length-append, length-append) (omega (arith, h.0, length-decimal_digits 20 value))

-- The lines of some names with their values.
abbrev pub lines_text : List (List ℕ) → List ℕ → List ℕ
lines_text [] values = []
lines_text (name ∷ names) [] = []
lines_text (name ∷ names) (value ∷ values) = line_text name value ++ lines_text names values

module _ {Double : Type 0} (flt : FloatWriter Double) where
  pub print-puts :
      (fmt : List ℕ) (args : List (Arg Double)) (t : Trace) (buf : List ℕ)
      → ee_vsprintf flt fmt args ≡ done buf
      → length buf < 256
      → IsPlain buf
      → print flt fmt args t ≡ done (puts buf t)
  print-puts fmt args t buf e h p =
      rw (ee_printf_lem flt fmt args t buf e h) (ap (λ s. done (puts s t)) (before_nul_plain buf p))

  dump_loop_lem :
      (names : List (List ℕ)) (values : List ℕ) (t : Trace)
      → All IsName names
      → All (λ v. v < 2 ^ 32) values
      → length values ≡ length names
      → dump_loop flt names values t ≡ done (puts (lines_text names values) t)
  unfolding dump_loop
  dump_loop_lem [] values t h k e = unfold puts in refl
  dump_loop_lem (name ∷ names) [] t h k e = absurd (omega (arith, e))
  dump_loop_lem (name ∷ names) (value ∷ values) t h k e =
      rw
        (print-puts line_format (text (some name) ∷ word value ∷ []) t (line_text name value)
          (ee_vsprintf-line flt name value (omega (arith, h.0.0)) k.0) (length-line name value h.0)
          (IsPlain-line name value h.0))
        (dump_loop_lem names values (puts (line_text name value) t) h.1 k.1 (omega (arith, e))
          ∙ ap done (puts-puts (line_text name value) (lines_text names values) t))

  pub print-literal :
      (lit : List ℕ) (t : Trace)
      → All (λ c. c ≢ b'%') lit
      → length lit < 256
      → IsPlain lit
      → print flt lit [] t ≡ done (puts lit t)
  print-literal lit t h = print-puts lit [] t lit (ee_vsprintf-literal flt lit [] h)

names-IsName : All IsName pcount_names
unfolding pcount_names
names-IsName = omega arith

words-read : (c : Counters) (n left : ℕ) → All (λ v. v < 2 ^ 32) (read_mhpmcounters c n left)
unfolding read_mhpmcounters read_mhpmcounter
words-read c n zero = tt
words-read c n (suc left) = (omega arith, words-read c (n + 1) left)

words-pcount_read : (c : Counters) → All (λ v. v < 2 ^ 32) (pcount_read c)
unfolding pcount_read
words-pcount_read c = (omega arith, words-read c 0 10)

length-pcount_read : (c : Counters) → length (pcount_read c) ≡ length pcount_names
unfolding pcount_read read_mhpmcounters pcount_names
length-pcount_read c = refl

-- The text of the report.
abbrev pub report : Counters → List ℕ
report c = heading ++ (lines_text pcount_names (pcount_read c) ++ b'\n' ∷ [])

module _ {Double : Type 0} (flt : FloatWriter Double) where
  -- Whatever the counters hold and whatever prints a `double`, the report is printed without a fault:
  -- the heading, for each counter a line of its name and its low word in decimal, and an empty line.
  pub dump_pcounts_lem :
      (c : Counters) (t : Trace) → dump_pcounts flt c t ≡ done (puts (report c) t)
  unfolding dump_pcounts
  dump_pcounts_lem c t =
      let lines = lines_text pcount_names (pcount_read c) in
      rw
        (
          print-literal flt heading t (omega arith) (omega arith) (omega arith),
          dump_loop_lem flt pcount_names (pcount_read c) (puts heading t) names-IsName
              (words-pcount_read c) (length-pcount_read c),
          print-literal flt (codes "\n") (puts lines (puts heading t)) (omega arith) (omega arith)
              (omega arith),
        )
        (ap done (
          puts-puts lines (b'\n' ∷ []) (puts heading t)
          ∙ puts-puts heading (lines ++ b'\n' ∷ []) t))
