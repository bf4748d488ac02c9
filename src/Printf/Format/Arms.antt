-- ===== src/Printf/Format/Arms.antt =====
-- One step of the loop of a format, from the text and the arguments that it takes.
use coco_ibex.Common.{
  ℕ, zero, suc, ◌≤◌, ◌<◌, ◌^◌, ◌≡◌, ◌≢◌, refl, ap, false, true, List, [], ◌∷◌, ◌++◌, Option, none,
  some, Outcome, done, inl, inr, Bool-cases, ◌==◌, arith,
}
use coco_ibex.Common.Int.{ℤ, pos}
use coco_ibex.Printf.Pad.{Flags}
use coco_ibex.Printf.Number.{number}
use coco_ibex.Printf.Number.Layout.{number_lem}
use coco_ibex.Printf.Directive.{
  Arg, word, text, pointer, Directive, take_word, read_directive, skip_flags, flag_of, get_width,
  get_precision, get_qualifier,
}
use coco_ibex.Printf.Directive.Spelling.{
  Spelled, IsSpelled, spell, width_value, precision_value, EndsHead,
}
use coco_ibex.Printf.Directive.ReadBack.{read_directive-spell}
use coco_ibex.Printf.Convert.{
  FloatWriter, Written, Radix, radix_of, convert, convert_char, convert_string, convert_pointer,
  convert_integer, convert_other, write_char, write_string, write_pointer, non_null, is_unset,
}
use coco_ibex.Printf.Format.{convert_at, run_directive, vsprintf_loop}

non_null-done :
    (r : Outcome (Option (List ℕ))) (s : List ℕ)
    → r ≡ done (some s)
    → (out : List ℕ) × (non_null r ≡ done out)
unfolding non_null
non_null-done r s e = (s, ap non_null e)

pub number-done :
    (str : List ℕ) (num base : ℕ) (size precision : ℤ) (flags : Flags)
    → 2 ≤ base
    → base ≤ 36
    → num < 2 ^ 32
    → (out : List ℕ) × (non_null (number str num base size precision flags) ≡ done out)
number-done str num base size precision flags lo hi lt =
    let (digits, numeral, e) = number_lem str num base size precision flags lo hi lt in
    non_null-done _ _ e

pub radix_of-base :
    (c : ℕ) (f : Flags) (r : Radix) → radix_of c f ≡ some r → (2 ≤ r.base) × (r.base ≤ 36)
unfolding radix_of
radix_of-base c f r e = ground arith

pub write_pointer-done :
    (flags : Flags) (size precision : ℤ) (p : ℕ) (str : List ℕ)
    → p < 2 ^ 32
    → (out : List ℕ) × (write_pointer flags size precision p str ≡ done out)
unfolding write_pointer
write_pointer-done flags size precision p str lt = elim (Bool-cases (is_unset size)) [
  | inl unset ↦ rw unset (
      number-done str p 16 (pos 8) precision (record flags { zeropad = true }) (omega arith)
        (omega arith) lt)
  | inr given ↦ rw given (number-done str p 16 size precision flags (omega arith) (omega arith) lt)
]

module _ {Double : Type 0} (flt : FloatWriter Double) where
  abbrev pub head : Spelled → ℕ → List ℕ → List (Arg Double) → Directive Double
  head d c fmt args = record {
    flags = d.flags;
    field_width = width_value d.width;
    precision = precision_value d.precision;
    qualifier = none;
    fmt = c ∷ fmt;
    args = args;
  }

  run_directive-spell :
      (d : Spelled) (c : ℕ) (fmt : List ℕ) (args : List (Arg Double)) (str : List ℕ)
      (w : Written Double)
      → IsSpelled d
      → EndsHead c
      → convert flt c (head d c fmt args) args str ≡ done w
      → run_directive flt (spell d (c ∷ fmt)) args str
        ≡ done (record { fmt = fmt; args = w.args; str = w.str })
  unfolding run_directive convert_at
  run_directive-spell d c fmt args str w h e n =
      rw (read_directive-spell c fmt args e d h) (rw n refl)

  -- A directive before a format whose loop ends.
  pub directive-done :
      (fuel : ℕ) (d : Spelled) (c : ℕ) (fmt : List ℕ) (args : List (Arg Double)) (str : List ℕ)
      (w : Written Double)
      → IsSpelled d
      → EndsHead c
      → convert flt c (head d c fmt args) args str ≡ done w
      → (out : List ℕ) × (vsprintf_loop flt fuel fmt w.args w.str ≡ done out)
      → (out : List ℕ) × (vsprintf_loop flt (suc fuel) (b'%' ∷ spell d (c ∷ fmt)) args str
          ≡ done out)
  unfolding vsprintf_loop
  directive-done fuel d c fmt args str w h e n rest =
      (rest.0, rw (run_directive-spell d c fmt args str w h e n) rest.1)

  pub loop_end :
      (fuel : ℕ) (args : List (Arg Double)) (str : List ℕ)
      → (out : List ℕ) × (vsprintf_loop flt fuel [] args str ≡ done out)
  unfolding vsprintf_loop
  loop_end zero args str = (str, refl)
  loop_end (suc fuel) args str = (str, refl)

  pub plain-done :
      (fuel c : ℕ) (fmt : List ℕ) (args : List (Arg Double)) (str : List ℕ)
      → c ≢ b'%'
      → (out : List ℕ) × (vsprintf_loop flt fuel fmt args (str ++ c ∷ []) ≡ done out)
      → (out : List ℕ) × (vsprintf_loop flt (suc fuel) (c ∷ fmt) args str ≡ done out)
  unfolding vsprintf_loop
  plain-done fuel c fmt args str ne rest =
      let other : (c == b'%') ≡ false = ground arith in (rest.0, rw (other, vsprintf_loop) rest.1)

  pub percent-done :
      (fuel : ℕ) (fmt : List ℕ) (args : List (Arg Double)) (str : List ℕ)
      → (out : List ℕ) × (vsprintf_loop flt fuel fmt args (str ++ b'%' ∷ []) ≡ done out)
      → (out : List ℕ) × (vsprintf_loop flt (suc fuel) (b'%' ∷ b'%' ∷ fmt) args str ≡ done out)
  unfolding vsprintf_loop run_directive convert_at convert radix_of convert_other read_directive
      skip_flags flag_of get_width get_precision get_qualifier
  percent-done fuel fmt args str rest = rest

  pub integer-done :
      (d : Spelled) (c : ℕ) (fmt : List ℕ) (args : List (Arg Double)) (str : List ℕ) (w : ℕ)
      (r : Radix) (out : List ℕ)
      → non_null (number str w r.base (width_value d.width) (precision_value d.precision) r.flags)
        ≡ done out
      → convert_integer flt r (head d c fmt (word w ∷ args)) (word w ∷ args) str
        ≡ done (record { args = args; str = out })
  unfolding convert_integer take_word
  integer-done d c fmt args str w r out n = rw n refl

  pub char-done :
      (d : Spelled) (fmt : List ℕ) (args : List (Arg Double)) (str : List ℕ) (w : ℕ)
      → convert flt b'c' (head d b'c' fmt (word w ∷ args)) (word w ∷ args) str
        ≡ done (record { args = args; str = write_char d.flags (width_value d.width) w str })
  unfolding convert convert_char
  char-done d fmt args str w = refl

  pub string-done :
      (d : Spelled) (fmt : List ℕ) (args : List (Arg Double)) (str : List ℕ) (s : Option (List ℕ))
      → convert flt b's' (head d b's' fmt (text s ∷ args)) (text s ∷ args) str
        ≡ done (record {
          args = args;
          str = write_string d.flags (width_value d.width) (precision_value d.precision) s str;
        })
  unfolding convert convert_string
  string-done d fmt args str s = refl

  pub pointer-done :
      (d : Spelled) (fmt : List ℕ) (args : List (Arg Double)) (str : List ℕ) (p : ℕ) (out : List ℕ)
      → write_pointer d.flags (width_value d.width) (precision_value d.precision) p str ≡ done out
      → convert flt b'p' (head d b'p' fmt (pointer p ∷ args)) (pointer p ∷ args) str
        ≡ done (record { args = args; str = out })
  unfolding convert convert_pointer
  pointer-done d fmt args str p out n = rw n refl
