-- ===== src/Printf/Convert.antt =====
-- The conversions of `ee_vsprintf` in ee_printf.c: one function for each arm of its `switch`. The
-- conversion of a `double` and the floating-point type are a parameter here.
pub mod Strings
use coco_ibex.Common.{
  ℕ, zero, suc, ◌+◌, ◌-◌, ◌*◌, ◌^◌, ◌%◌, Bool, true, false, ◌&&◌, ◌||◌, List, [], ◌∷◌, ◌++◌, Option,
  none, some, Outcome, done, fault, spent, ◌>>=◌, ltb, leb, ◌==◌, if◌then◌else◌, length, codes, min,
}
use coco_ibex.Common.Int.{ℤ, pos, negsuc, ◌-ℤ◌, ltb_ℤ, pos_part, neg_part}
use coco_ibex.Printf.Pad.{Flags, no_flags, pad_loop, fill_loop}
use coco_ibex.Printf.Number.{number}
use coco_ibex.Printf.Address.{eaddr, iaddr, justify}
use coco_ibex.Printf.Directive.{
  Arg, word, text, pointer, address, double, Taken, Directive, take_word, read_directive,
}

-- `strnlen`; the bytes of a string end before its terminator.
unfoldable pub strnlen : List ℕ → ℕ → ℕ
strnlen [] count = 0
strnlen (c ∷ s) zero = 0
strnlen (c ∷ s) (suc count) = suc (strnlen s count)

-- An `int` passed where `ee_size_t` is wanted.
abbrev pub to_size : ℤ → ℕ
to_size (pos n) = n
to_size (negsuc n) = 2 ^ 32 - 1 - n

-- The first `n` bytes of a string.
unfoldable pub copy : ℕ → List ℕ → List ℕ → List ℕ
copy zero s str = str
copy (suc n) [] str = str
copy (suc n) (c ∷ s) str = copy n s (str ++ c ∷ [])

-- What a conversion leaves: the arguments behind those it took, and the output.
pub record Written (Double : Type 0) : Type 0 where
  pub args : List (Arg Double)
  pub str : List ℕ

-- `%c`: `while (--field_width > 0)` counts down before the test.
unfoldable pub write_char : Flags → ℤ → ℕ → List ℕ → List ℕ
write_char flags field_width w str =
    let before =
      if flags.left
      then record { size = field_width -ℤ pos 1; str = str }
      else pad_loop b' ' (field_width -ℤ pos 1) str in
    (pad_loop b' ' before.size (before.str ++ w % 2 ^ 8 ∷ [])).str

-- `%s`, where NULL prints as `<NULL>`.
unfoldable pub write_string : Flags → ℤ → ℤ → Option (List ℕ) → List ℕ → List ℕ
write_string flags field_width precision none str =
    let s = codes "<NULL>" in
    let len = strnlen s (to_size precision) in
    let before =
      if flags.left
      then record { size = field_width; str = str }
      else fill_loop len field_width str in
    (fill_loop len before.size (copy len s before.str)).str
write_string flags field_width precision (some s) str =
    let len = strnlen s (to_size precision) in
    let before =
      if flags.left
      then record { size = field_width; str = str }
      else fill_loop len field_width str in
    (fill_loop len before.size (copy len s before.str)).str

-- The null pointer that `number` may return is written through next, which is a fault.
unfoldable pub non_null : Outcome (Option (List ℕ)) → Outcome (List ℕ)
non_null r = do s ← r; elim s [ none ↦ fault | some str ↦ done str ]

abbrev pub is_long : Option ℕ → Bool
is_long none = false
is_long (some c) = c == b'l'

-- A width that no directive gave is -1.
abbrev pub is_unset : ℤ → Bool
is_unset (negsuc zero) = true
is_unset _ = false

-- `%p`: by default eight digits with zeros.
unfoldable pub write_pointer : Flags → ℤ → ℤ → ℕ → List ℕ → Outcome (List ℕ)
write_pointer flags field_width precision p str =
    if is_unset field_width
    then non_null (number str p 16 (pos 8) precision (record flags { zeropad = true }))
    else non_null (number str p 16 field_width precision flags)

-- The base and the flags of the integer conversions; `none` for a character that is none of them.
pub record Radix : Type 0 where
  pub base : ℕ
  pub flags : Flags

unfoldable pub radix_of : ℕ → Flags → Option Radix
radix_of c flags =
    if c == b'o'
    then some (record { base = 8; flags = flags })
    else if c == b'X'
    then some (record { base = 16; flags = record flags { uppercase = true } })
    else if c == b'x'
    then some (record { base = 16; flags = flags })
    else if c == b'd' || c == b'i'
    then some (record { base = 10; flags = record flags { sign = true } })
    else if c == b'u'
    then some (record { base = 10; flags = flags })
    else none

-- `flt`, with the flags that it is called with.
abbrev pub FloatWriter : Type 0 → Type 0
FloatWriter Double = List ℕ → Double → ℤ → ℤ → ℕ → Flags → Outcome (List ℕ)

module _ {Double : Type 0} (flt : FloatWriter Double) where
  -- The conversions that read one argument of their own kind; another argument is a fault.
  unfoldable pub convert_char :
      Directive Double → List (Arg Double) → List ℕ → Outcome (Written Double)
  convert_char d (word w ∷ args) str =
      done (record { args = args; str = write_char d.flags d.field_width w str })
  convert_char d _ str = fault

  unfoldable pub convert_string :
      Directive Double → List (Arg Double) → List ℕ → Outcome (Written Double)
  convert_string d (text s ∷ args) str =
      done (record { args = args; str = write_string d.flags d.field_width d.precision s str })
  convert_string d _ str = fault

  unfoldable pub convert_pointer :
      Directive Double → List (Arg Double) → List ℕ → Outcome (Written Double)
  convert_pointer d (pointer p ∷ args) str = do
    str' ← write_pointer d.flags d.field_width d.precision p str
    done (record { args = args; str = str' })
  convert_pointer d _ str = fault

  -- `%a` and `%A`: a hardware address with the qualifier `l`, else an IPv4 address.
  unfoldable pub convert_address :
      Flags → Directive Double → List (Arg Double) → List ℕ → Outcome (Written Double)
  convert_address flags d (address a ∷ args) str = do
    str' ←
        (if is_long d.qualifier
          then eaddr str a d.field_width flags
          else iaddr str a d.field_width flags)
    done (record { args = args; str = str' })
  convert_address flags d _ str = fault

  unfoldable pub convert_float :
      ℕ → Directive Double → List (Arg Double) → List ℕ → Outcome (Written Double)
  convert_float c d (double x ∷ args) str = do
    str' ← flt str x d.field_width d.precision c (record d.flags { sign = true })
    done (record { args = args; str = str' })
  convert_float c d _ str = fault

  -- On RV32 `long` and `int` are one word, so the three ways to take the argument agree.
  unfoldable pub convert_integer :
      Radix → Directive Double → List (Arg Double) → List ℕ → Outcome (Written Double)
  convert_integer r d args str = do
    t ← take_word args
    str' ← non_null (number str t.taken r.base d.field_width d.precision r.flags)
    done (record { args = t.args; str = str' })

  -- A character that starts no conversion is written behind a `%`, but `%%` is one `%`.
  unfoldable pub convert_other :
      ℕ → Directive Double → List (Arg Double) → List ℕ → Outcome (Written Double)
  convert_other c d args str =
      if c == b'%'
      then done (record { args = args; str = str ++ b'%' ∷ [] })
      else done (record { args = args; str = str ++ b'%' ∷ c ∷ [] })

  -- The `switch` on the conversion character.
  unfoldable pub convert :
      ℕ → Directive Double → List (Arg Double) → List ℕ → Outcome (Written Double)
  convert c d args str =
      if c == b'c'
      then convert_char d args str
      else if c == b's'
      then convert_string d args str
      else if c == b'p'
      then convert_pointer d args str
      else if c == b'A'
      then convert_address (record d.flags { uppercase = true }) d args str
      else if c == b'a'
      then convert_address d.flags d args str
      else if c == b'f'
      then convert_float c d args str
      else elim (radix_of c d.flags) [
        | some r ↦ convert_integer r d args str
        | none ↦ convert_other c d args str
      ]
