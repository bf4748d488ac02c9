-- ===== src/Printf/Format.antt =====
-- `ee_vsprintf`, the loop over a format, and `ee_printf` of ee_printf.c.
pub mod Fuel
pub mod Literal
pub mod Print
pub mod Arms
pub mod Typed
mod Examples
use coco_ibex.Common.{
  ℕ, zero, suc, ◌+◌, ◌-◌, ◌*◌, ◌^◌, ◌%◌, Bool, true, false, ◌&&◌, ◌||◌, List, [], ◌∷◌, ◌++◌, Option,
  none, some, Outcome, done, fault, spent, ◌>>=◌, ltb, leb, ◌==◌, if◌then◌else◌, length, codes, min,
}
use coco_ibex.Common.Int.{ℤ, pos, negsuc, ◌-ℤ◌, ltb_ℤ, pos_part, neg_part}
use coco_ibex.Printf.Pad.{Flags, no_flags, pad_loop, fill_loop}
use coco_ibex.Printf.Number.{number}
use coco_ibex.Printf.Address.{eaddr, iaddr, justify}
use coco_ibex.Printf.Directive.{
  Arg, word, text, pointer, address, double, Taken, Directive, take_word, read_directive,
}
use coco_ibex.Printf.Convert.{FloatWriter, Written, convert}
use coco_ibex.SimpleSystem.Console.{Trace, putchar}

-- What a directive leaves: the format behind it, the arguments and the output.
pub record Converted (Double : Type 0) : Type 0 where
  pub fmt : List ℕ
  pub args : List (Arg Double)
  pub str : List ℕ

module _ {Double : Type 0} (flt : FloatWriter Double) where
  -- Behind a directive's head: the format that is left, and the conversion. At the end of the format
  -- a lone `%` is written and the format stays at its end.
  unfoldable pub convert_at : List ℕ → Directive Double → List ℕ → Outcome (Converted Double)
  convert_at [] d str = done (record { fmt = []; args = d.args; str = str ++ b'%' ∷ [] })
  convert_at (c ∷ fmt) d str = do
    w ← convert flt c d d.args str
    done (record { fmt = fmt; args = w.args; str = w.str })

  unfoldable pub run_directive : List ℕ → List (Arg Double) → List ℕ → Outcome (Converted Double)
  run_directive fmt args str = do d ← read_directive fmt args; convert_at d.fmt d str

  -- The loop over the format, with fuel for its characters.
  unfoldable pub vsprintf_loop : ℕ → List ℕ → List (Arg Double) → List ℕ → Outcome (List ℕ)
  vsprintf_loop fuel [] args str = done str
  vsprintf_loop zero (c ∷ fmt) args str = spent
  vsprintf_loop (suc fuel) (c ∷ fmt) args str = elim (c == b'%') [
    | false ↦ vsprintf_loop fuel fmt args (str ++ c ∷ [])
    | true ↦ do r ← run_directive fmt args str; vsprintf_loop fuel r.fmt r.args r.str
  ]

  -- The bytes written before the terminator; their number is what the function returns.
  unfoldable pub ee_vsprintf : List ℕ → List (Arg Double) → Outcome (List ℕ)
  ee_vsprintf fmt args = vsprintf_loop (length fmt) fmt args []

-- The printing loop of `ee_printf`: it ends at the first NUL.
pub record Printed : Type 0 where
  pub n : ℕ
  pub trace : Trace

unfoldable pub print_loop : List ℕ → ℕ → Trace → Printed
print_loop [] n t = record { n = n; trace = t }
print_loop (c ∷ p) n t = elim (c == 0) [
  | true ↦ record { n = n; trace = t }
  | false ↦ print_loop p (n + 1) (putchar c t)
]

abbrev buf_size : ℕ
buf_size = 256

module _ {Double : Type 0} (flt : FloatWriter Double) where
  -- The source formats into `buf` without a test. A text that does not fit `buf` with its terminator is
  -- written past the end of it, where the model has a fault.
  unfoldable pub ee_printf : List ℕ → List (Arg Double) → Trace → Outcome Printed
  ee_printf fmt args t = do
    buf ← ee_vsprintf flt fmt args
    if ltb (length buf) buf_size then done (print_loop buf 0 t) else fault
