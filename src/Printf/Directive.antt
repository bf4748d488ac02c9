-- ===== src/Printf/Directive.antt =====
-- The head of a conversion directive as `ee_vsprintf` reads it: flags, width, precision, qualifier.
-- A format is the list of its bytes before the terminator, so the end of the list is the NUL.
pub mod Spelling
pub mod ReadBack
use coco_ibex.Common.{
  ℕ, zero, suc, ◌+◌, ◌-◌, ◌*◌, ◌^◌, Bool, true, false, ◌&&◌, ◌||◌, List, [], ◌∷◌, Option, none,
  some, Outcome, done, fault, ◌>>=◌, ltb, leb, ◌==◌, if◌then◌else◌,
}
use coco_ibex.Common.Int.{ℤ, pos, negsuc, ◌-ℤ◌, ltb_ℤ, sub_ℕ}
use coco_ibex.Printf.Pad.{Flags, no_flags}

-- The variable arguments of a call on RV32: a 32-bit word for an integer of any type, a string (none
-- for NULL), the number of another pointer, the bytes at an address, or a `double`.
pub data Arg (Double : Type 0) : Type 0 where
  word : ℕ → Arg Double
  text : Option (List ℕ) → Arg Double
  pointer : ℕ → Arg Double
  address : List ℕ → Arg Double
  double : Double → Arg Double

abbrev pub is_digit : ℕ → Bool
is_digit c = leb b'0' c && leb c b'9'

abbrev pub int_max : ℕ
int_max = 2 ^ 31 - 1

pub record Number : Type 0 where
  pub value : ℕ
  pub fmt : List ℕ

-- `skip_atoi`: `i * 10 + *((*s)++) - '0'` is computed in `int`, and its overflow is a fault.
unfoldable pub skip_atoi : List ℕ → ℕ → Outcome Number
skip_atoi [] i = done (record { value = i; fmt = [] })
skip_atoi (c ∷ s) i =
    let more = skip_atoi s (i * 10 + c - b'0') in
    if is_digit c
    then if ltb int_max (i * 10 + c) then fault else more
    else done (record { value = i; fmt = c ∷ s })

-- What a flag character adds to the mask; `none` for any other character.
unfoldable pub flag_of : ℕ → Flags → Option Flags
flag_of c flags =
    if c == b'-'
    then some (record flags { left = true })
    else if c == b'+'
    then some (record flags { plus = true })
    else if c == b' '
    then some (record flags { space = true })
    else if c == b'#'
    then some (record flags { hex_prep = true })
    else if c == b'0'
    then some (record flags { zeropad = true })
    else none

pub record Flagged : Type 0 where
  pub flags : Flags
  pub fmt : List ℕ

-- The `repeat` loop, behind the `%`.
unfoldable pub skip_flags : List ℕ → Flags → Flagged
skip_flags [] flags = record { flags = flags; fmt = [] }
skip_flags (c ∷ fmt) flags = elim (flag_of c flags) [
  | none ↦ record { flags = flags; fmt = c ∷ fmt }
  | some flags' ↦ skip_flags fmt flags'
]

-- The value of a 32-bit pattern as an `int`.
abbrev pub to_int : ℕ → ℤ
to_int w = if ltb w (2 ^ 31) then pos w else negsuc (2 ^ 32 - w - 1)

-- An argument that was taken and the arguments behind it.
pub record Taken (A Double : Type 0) : Type 0 where
  pub taken : A
  pub args : List (Arg Double)

pub record Width (Double : Type 0) : Type 0 where
  pub flags : Flags
  pub field_width : ℤ
  pub fmt : List ℕ
  pub args : List (Arg Double)

pub record Precision (Double : Type 0) : Type 0 where
  pub precision : ℤ
  pub fmt : List ℕ
  pub args : List (Arg Double)

pub record Qualified : Type 0 where
  pub qualifier : Option ℕ
  pub fmt : List ℕ

-- Everything before the conversion character.
pub record Directive (Double : Type 0) : Type 0 where
  pub flags : Flags
  pub field_width : ℤ
  pub precision : ℤ
  pub qualifier : Option ℕ
  pub fmt : List ℕ
  pub args : List (Arg Double)

module _ {Double : Type 0} where
  -- `va_arg` at an integer type; another argument there is a fault.
  unfoldable pub take_word : List (Arg Double) → Outcome (Taken ℕ Double)
  take_word (word w ∷ args) = done (record { taken = w; args = args })
  take_word _ = fault

  -- `field_width = va_arg(args, int)`: a negative width means LEFT; INT_MIN cannot be negated.
  unfoldable pub star_width : ℕ → Flags → List ℕ → List (Arg Double) → Outcome (Width Double)
  star_width w flags fmt args =
      if ltb_ℤ (to_int w) (pos 0)
      then if w == 2 ^ 31
        then fault
        else done (record {
          flags = record flags { left = true };
          field_width = pos 0 -ℤ to_int w;
          fmt = fmt;
          args = args;
        })
      else done (record { flags = flags; field_width = to_int w; fmt = fmt; args = args })

  unfoldable pub get_width : Flags → List ℕ → List (Arg Double) → Outcome (Width Double)
  get_width flags [] args =
      done (record { flags = flags; field_width = negsuc 0; fmt = []; args = args })
  get_width flags (c ∷ fmt) args =
      if is_digit c
      then (do
        n ← skip_atoi (c ∷ fmt) 0
        done (record { flags = flags; field_width = pos n.value; fmt = n.fmt; args = args }))
      else if c == b'*'
      then (do t ← take_word args; star_width t.taken flags fmt t.args)
      else done (record { flags = flags; field_width = negsuc 0; fmt = c ∷ fmt; args = args })

  -- The precision behind a `.`: a number, `*`, or nothing, and never negative.
  unfoldable pub dot_precision : List ℕ → List (Arg Double) → Outcome (Precision Double)
  dot_precision [] args = done (record { precision = pos 0; fmt = []; args = args })
  dot_precision (c ∷ fmt) args =
      if is_digit c
      then (do
        n ← skip_atoi (c ∷ fmt) 0
        done (record { precision = pos n.value; fmt = n.fmt; args = args }))
      else if c == b'*'
      then (do
        t ← take_word args
        let precision = if ltb_ℤ (to_int t.taken) (pos 0) then pos 0 else to_int t.taken
        done (record { precision = precision; fmt = fmt; args = t.args }))
      else done (record { precision = pos 0; fmt = c ∷ fmt; args = args })

  unfoldable pub get_precision : List ℕ → List (Arg Double) → Outcome (Precision Double)
  get_precision [] args = done (record { precision = negsuc 0; fmt = []; args = args })
  get_precision (c ∷ fmt) args =
      if c == b'.'
      then dot_precision fmt args
      else done (record { precision = negsuc 0; fmt = c ∷ fmt; args = args })

unfoldable pub get_qualifier : List ℕ → Qualified
get_qualifier [] = record { qualifier = none; fmt = [] }
get_qualifier (c ∷ fmt) =
    if c == b'l' || c == b'L'
    then record { qualifier = some c; fmt = fmt }
    else record { qualifier = none; fmt = c ∷ fmt }

module _ {Double : Type 0} where
  -- From behind the `%` to the conversion character.
  unfoldable pub read_directive : List ℕ → List (Arg Double) → Outcome (Directive Double)
  read_directive fmt args = do
    let f = skip_flags fmt no_flags
    w ← get_width f.flags f.fmt args
    p ← get_precision w.fmt w.args
    let q = get_qualifier p.fmt
    done (record {
      flags = w.flags;
      field_width = w.field_width;
      precision = p.precision;
      qualifier = q.qualifier;
      fmt = q.fmt;
      args = p.args;
    })
