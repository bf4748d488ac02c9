-- ===== src/Printf/Directive/Spelling.antt =====
-- Directives as a caller spells them.
use native.Mathlib.Nat.{le_trans}
use coco_ibex.Common.{
  length, length-append, ℕ, ◌+◌, ◌≤◌, ◌≡◌, ◌≢◌, ◌⊎◌, Bool, true, false, List, [], ◌∷◌, ◌++◌, Option,
  none, some, if◌then◌else◌, arith, All,
}
use coco_ibex.Common.Int.{ℤ, pos, negsuc}
use coco_ibex.Printf.Pad.{Flags}
use coco_ibex.Printf.Number.Digits.{value}
use coco_ibex.Printf.Directive.{int_max}

-- The flags that a directive can carry, in the order in which it is spelled here.
abbrev pub mark : Bool → ℕ → List ℕ → List ℕ
mark b c s = if b then c ∷ s else s

abbrev pub flag_text : Flags → List ℕ → List ℕ
flag_text f s =
    mark f.left b'-'
      (mark f.plus b'+' (mark f.space b' ' (mark f.hex_prep b'#' (mark f.zeropad b'0' s))))

-- A width (empty for none) and a precision (none, or digits behind a point).
pub record Spelled : Type 0 where
  pub flags : Flags
  pub width : List ℕ
  pub precision : Option (List ℕ)

abbrev pub precision_text : Option (List ℕ) → List ℕ → List ℕ
precision_text none s = s
precision_text (some ds) s = b'.' ∷ (ds ++ s)

abbrev pub spell : Spelled → List ℕ → List ℕ
spell d s = flag_text d.flags (d.width ++ precision_text d.precision s)

abbrev pub width_value : List ℕ → ℤ
width_value [] = negsuc 0
width_value (c ∷ s) = pos (value 10 0 (c ∷ s))

abbrev pub precision_value : Option (List ℕ) → ℤ
precision_value none = negsuc 0
precision_value (some ds) = pos (value 10 0 ds)

abbrev pub IsDigits : List ℕ → Type 0
IsDigits ds = All (λ c. (b'0' ≤ c) × (c ≤ b'9')) ds

abbrev pub NoLeadingZero : List ℕ → Type 0
NoLeadingZero [] = Unit
NoLeadingZero (c ∷ s) = c ≢ b'0'

abbrev pub IsPrecision : Option (List ℕ) → Type 0
IsPrecision none = Unit
IsPrecision (some ds) = IsDigits ds × (value 10 0 ds + b'0' ≤ int_max)

-- Digits, no leading zero in the width (it would be a flag), and values that an `int` can hold. SIGN
-- and UPPERCASE come from the conversion character, not from the spelling.
pub record IsSpelled (d : Spelled) : Type 0 where
  pub digits : IsDigits d.width
  pub no_zero : NoLeadingZero d.width
  pub fits : value 10 0 d.width + b'0' ≤ int_max
  pub precision : IsPrecision d.precision
  pub unsigned : d.flags.sign ≡ false
  pub lower : d.flags.uppercase ≡ false

-- A character that ends the head of a directive: no flag, digit, point, star or qualifier.
abbrev pub EndsHead : ℕ → Type 0
EndsHead c = (b'a' ≤ c) × (c ≢ b'l') ⊎ ((b'A' ≤ c) × (c ≤ b'Z') × (c ≢ b'L'))

mark-length : (b : Bool) (c : ℕ) (s : List ℕ) → length s ≤ length (mark b c s)
mark-length true c s = omega arith
mark-length false c s = omega arith

precision_text-length : (p : Option (List ℕ)) (s : List ℕ) → length s ≤ length (precision_text p s)
precision_text-length none s = omega arith
precision_text-length (some ds) s = omega (arith, length-append ds s)

-- What stands behind a directive is no longer than the format from the directive on.
pub length-spell : (d : Spelled) (s : List ℕ) → length s ≤ length (spell d s)
length-spell d s =
    let f = d.flags in
    let a = d.width ++ precision_text d.precision s in
    let a1 = mark f.zeropad b'0' a in
    let a2 = mark f.hex_prep b'#' a1 in
    let a3 = mark f.space b' ' a2 in
    let a4 = mark f.plus b'+' a3 in
    le_trans
      (omega (
        arith,
        precision_text-length d.precision s,
        length-append d.width (precision_text d.precision s),
      ))
      (le_trans (mark-length f.zeropad b'0' a) (
        le_trans (mark-length f.hex_prep b'#' a1) (
          le_trans (mark-length f.space b' ' a2)
            (le_trans (mark-length f.plus b'+' a3) (mark-length f.left b'-' a4)))))
