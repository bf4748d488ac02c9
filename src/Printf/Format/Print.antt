-- ===== src/Printf/Format/Print.antt =====
-- What `ee_printf` puts on the console and what it returns.
use coco_ibex.Common.{
  ℕ, suc, ◌+◌, ◌<◌, ◌≡◌, ◌∙◌, ap, List, [], ◌∷◌, done, Bool-cases, inl, inr, if◌then◌else◌, arith,
  length, lt→ltb, ◌==◌,
}
use coco_ibex.Printf.Directive.{Arg}
use coco_ibex.Printf.Convert.{FloatWriter}
use coco_ibex.Printf.Format.{print_loop, ee_vsprintf, ee_printf}
use coco_ibex.SimpleSystem.Console.{Trace, putchar, puts}

-- The bytes before the first NUL.
unfoldable pub before_nul : List ℕ → List ℕ
before_nul [] = []
before_nul (c ∷ s) = if c == 0 then [] else c ∷ before_nul s

plus_zero : (n : ℕ) → n ≡ n + 0
plus_zero n = omega arith

zero_plus : (n : ℕ) → 0 + n ≡ n
zero_plus n = omega arith

plus_suc : (n k : ℕ) → n + 1 + k ≡ n + suc k
plus_suc n k = omega arith

print_loop-puts :
    (p : List ℕ) (n : ℕ) (t : Trace)
    → print_loop p n t ≡ record { n = n + length (before_nul p); trace = puts (before_nul p) t }
unfolding print_loop before_nul puts
print_loop-puts [] n t = λ i. record { n = plus_zero n i; trace = t }
print_loop-puts (c ∷ p) n t = elim (Bool-cases (c == 0)) [
  | inl nul ↦ rw (nul, print_loop) (λ i. record { n = plus_zero n i; trace = t })
  | inr other ↦
      rw (other, print_loop)
        (print_loop-puts p (n + 1) (putchar c t) ∙ λ i. record {
          n = plus_suc n (length (before_nul p)) i;
          trace = puts (before_nul p) (putchar c t);
        })
]

module _ {Double : Type 0} (flt : FloatWriter Double) (fmt : List ℕ) (args : List (Arg Double))
    (t : Trace) where
  -- A formatted text that fits the 256 bytes of `buf` with its terminator is printed up to its first
  -- NUL, byte by byte as `puts` prints a string, and the result counts the bytes.
  pub ee_printf_lem :
      (buf : List ℕ)
      → ee_vsprintf flt fmt args ≡ done buf
      → length buf < 256
      → ee_printf flt fmt args t
        ≡ done (record { n = length (before_nul buf); trace = puts (before_nul buf) t })
  unfolding ee_printf
  ee_printf_lem buf e h =
      rw (e, lt→ltb (length buf) 256 h)
        (ap done (
          print_loop-puts buf 0 t ∙ λ i. record {
            n = zero_plus (length (before_nul buf)) i;
            trace = puts (before_nul buf) t;
          }))
