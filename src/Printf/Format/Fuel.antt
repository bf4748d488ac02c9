-- ===== src/Printf/Format/Fuel.antt =====
-- The loop of `ee_vsprintf` ends: each directive leaves a shorter format, and no part of it runs out
-- of fuel.
mod Parts
mod Head
pub use Parts.{Halts}
use Parts.{
  Halts-bind, Halts-if, digit_loop-Halts, convert_digits-Halts, number-Halts, load-Halts,
  eaddr_loop-Halts, iaddr_loop-Halts, non_null-Halts,
}
use Head.{
  skip_atoi-le, skip_flags-le, get_qualifier-le, take_word-Halts, star_width-le, get_width-le,
  dot_precision-le, get_precision-le, read_directive-le,
}
use coco_ibex.Common.{
  ℕ, zero, suc, ◌+◌, ◌-◌, ◌*◌, ◌/◌, ◌^◌, Ends_weaken, Ends-ne-spent, ◌≤◌, ◌≡◌, refl, Bool, true,
  false, ◌||◌, List, [], ◌∷◌, Option, none, some, Outcome, done, fault, spent, ◌>>=◌, Ends,
  Ends-bind, Bool-cases, ltb, ◌==◌, if◌then◌else◌, length, arith, inl, inr,
}
use coco_ibex.Common.Int.{ℤ, pos, ltb_ℤ}
use coco_ibex.Printf.Pad.{Flags, no_flags}
use coco_ibex.Printf.Number.{number, digit_loop, convert_digits, tmp_size, digit_table}
use coco_ibex.Printf.Address.{load, eaddr, eaddr_loop, iaddr, iaddr_loop}
use coco_ibex.Printf.Directive.{
  Arg, word, text, pointer, address, double, Directive, skip_atoi, flag_of, skip_flags, take_word,
  star_width, get_width, dot_precision, get_precision, get_qualifier, read_directive, is_digit,
  int_max, to_int,
}
use coco_ibex.Printf.Convert.{
  FloatWriter, convert, convert_char, convert_string, convert_pointer, convert_address,
  convert_float, convert_integer, convert_other, radix_of, non_null, write_pointer, Radix, is_long,
  is_unset,
}
use coco_ibex.Printf.Format.{convert_at, run_directive, vsprintf_loop, ee_vsprintf}

module _ {Double : Type 0} (flt : FloatWriter Double)
    (flt_halts : (str : List ℕ) (x : Double) (size precision : ℤ) (c : ℕ) (flags : Flags)
      → Halts (flt str x size precision c flags)) where
  convert_integer-Halts :
      (r : Radix) (d : Directive Double) (args : List (Arg Double)) (str : List ℕ)
      → Halts (convert_integer flt r d args str)
  unfolding convert_integer
  convert_integer-Halts r d args str = Halts-bind (take_word args) _ (take_word-Halts args) (λ t.
      Halts-bind _ _
        (non_null-Halts _ (number-Halts str t.taken r.base d.field_width d.precision r.flags))
        (λ s. tt))

  convert_char-Halts :
      (d : Directive Double) (args : List (Arg Double)) (str : List ℕ)
      → Halts (convert_char flt d args str)
  unfolding convert_char
  convert_char-Halts d (word w ∷ args) str = tt
  convert_char-Halts d _ str = tt

  convert_string-Halts :
      (d : Directive Double) (args : List (Arg Double)) (str : List ℕ)
      → Halts (convert_string flt d args str)
  unfolding convert_string
  convert_string-Halts d (text s ∷ args) str = tt
  convert_string-Halts d _ str = tt

  convert_pointer-Halts :
      (d : Directive Double) (args : List (Arg Double)) (str : List ℕ)
      → Halts (convert_pointer flt d args str)
  unfolding convert_pointer write_pointer
  convert_pointer-Halts d (pointer p ∷ args) str =
      Halts-bind _ _
        (Halts-if (is_unset d.field_width) _ _
          (non_null-Halts _
            (number-Halts str p 16 (pos 8) d.precision (record d.flags { zeropad = true })))
          (non_null-Halts _ (number-Halts str p 16 d.field_width d.precision d.flags)))
        (λ s. tt)
  convert_pointer-Halts d _ str = tt

  convert_address-Halts :
      (flags : Flags) (d : Directive Double) (args : List (Arg Double)) (str : List ℕ)
      → Halts (convert_address flt flags d args str)
  unfolding convert_address eaddr iaddr
  convert_address-Halts flags d (address a ∷ args) str =
      Halts-bind _ _
        (Halts-if (is_long d.qualifier) _ _
          (Halts-bind _ _ (eaddr_loop-Halts (digit_table flags.uppercase) a 6 0 []) (λ tmp. tt))
          (Halts-bind _ _ (iaddr_loop-Halts a 4 0 []) (λ tmp. tt)))
        (λ s. tt)
  convert_address-Halts flags d _ str = tt

  convert_float-Halts :
      (c : ℕ) (d : Directive Double) (args : List (Arg Double)) (str : List ℕ)
      → Halts (convert_float flt c d args str)
  unfolding convert_float
  convert_float-Halts c d (double x ∷ args) str =
      Halts-bind _ _ (flt_halts str x d.field_width d.precision c (record d.flags { sign = true }))
        (λ s. tt)
  convert_float-Halts c d _ str = tt

  convert_other-Halts :
      (c : ℕ) (d : Directive Double) (args : List (Arg Double)) (str : List ℕ)
      → Halts (convert_other flt c d args str)
  unfolding convert_other
  convert_other-Halts c d args str = Halts-if (c == b'%') _ _ tt tt

  convert-Halts :
      (c : ℕ) (d : Directive Double) (args : List (Arg Double)) (str : List ℕ)
      → Halts (convert flt c d args str)
  unfolding convert
  convert-Halts c d args str = Halts-if (c == b'c') _ _ (convert_char-Halts d args str) (
      Halts-if (c == b's') _ _ (convert_string-Halts d args str) (
        Halts-if (c == b'p') _ _ (convert_pointer-Halts d args str) (
          Halts-if (c == b'A') _ _
            (convert_address-Halts (record d.flags { uppercase = true }) d args str)
            (Halts-if (c == b'a') _ _ (convert_address-Halts d.flags d args str) (
              Halts-if (c == b'f') _ _ (convert_float-Halts c d args str)
                (switch (radix_of c d.flags)))))))
    where
      switch :
          (o : Option Radix)
          → Halts (elim o [
            | some r ↦ convert_integer flt r d args str
            | none ↦ convert_other flt c d args str
          ])
      switch none = convert_other-Halts c d args str
      switch (some r) = convert_integer-Halts r d args str

  convert_at-lt :
      (fmt : List ℕ) (d : Directive Double) (str : List ℕ)
      → Ends (convert_at flt fmt d str) (λ r. length r.fmt ≤ length fmt)
  unfolding convert_at
  convert_at-lt [] d str = omega arith
  convert_at-lt (c ∷ fmt) d str =
      Ends-bind (λ _. Unit) _ (convert flt c d d.args str) _ (convert-Halts c d d.args str)
        (λ w _. omega arith)

  pub run_directive-le :
      (fmt : List ℕ) (args : List (Arg Double)) (str : List ℕ)
      → Ends (run_directive flt fmt args str) (λ r. length r.fmt ≤ length fmt)
  unfolding run_directive
  run_directive-le fmt args str =
      Ends-bind (λ d. length d.fmt ≤ length fmt) _ (read_directive fmt args) _
        (read_directive-le fmt args)
        (λ d h.
          Ends_weaken (λ r. length r.fmt ≤ length d.fmt) _ _ (λ r k. omega (arith, h, k))
            (convert_at-lt d.fmt d str))

  loop-Halts :
      (fuel : ℕ) (fmt : List ℕ) (args : List (Arg Double)) (str : List ℕ)
      → length fmt ≤ fuel
      → Halts (vsprintf_loop flt fuel fmt args str)
  unfolding vsprintf_loop
  loop-Halts zero [] args str h = tt
  loop-Halts (suc fuel) [] args str h = tt
  loop-Halts zero (c ∷ fmt) args str h = absurd (omega arith)
  loop-Halts (suc fuel) (c ∷ fmt) args str h = elim (Bool-cases (c == b'%')) [
    | inl percent ↦
        rw (percent, vsprintf_loop)
          (Ends-bind (λ r. length r.fmt ≤ length fmt) (λ _. Unit) (run_directive flt fmt args str) _
            (run_directive-le fmt args str)
            (λ r k. loop-Halts fuel r.fmt r.args r.str (omega (arith, k))))
    | inr plain ↦ rw (plain, vsprintf_loop) (loop-Halts fuel fmt args _ (omega arith))
  ]

  -- If the conversion of a `double` ends, `ee_vsprintf` ends on every format and all arguments: it
  -- returns a text or reaches a fault, and its fuel, one unit for each character, is never used up.
  pub ee_vsprintf-ne-spent :
      (fmt : List ℕ) (args : List (Arg Double)) → ¬ (ee_vsprintf flt fmt args ≡ spent)
  unfolding ee_vsprintf
  ee_vsprintf-ne-spent fmt args =
      Ends-ne-spent (λ _. Unit) _ (loop-Halts (length fmt) fmt args [] (omega arith))
