-- ===== src/Printf/Float.antt =====
-- The floating-point conversions of ee_printf.c: `parse_float`, `decimal_point`, `cropzeros` and `flt`.
-- The type `double`, its tests and the functions `ecvtbuf` and `fcvtbuf`, which are other files' code,
-- are parameters.
pub mod Crop
pub mod Field
mod Examples
use coco_ibex.Common.{
  ℕ, zero, suc, ◌+◌, ◌-◌, ◌/◌, ◌%◌, Bool, true, false, not, ◌&&◌, ◌||◌, ◌==◌, ltb, List, [], ◌∷◌,
  ◌++◌, Option, none, some, Outcome, done, fault, ◌>>=◌, if◌then◌else◌, length, replicate,
}
use coco_ibex.Common.Int.{ℤ, pos, negsuc, pos_part, neg_part, ltb_ℤ, ◌+ℤ◌, ◌-ℤ◌}
use coco_ibex.Printf.Pad.{Flags, Padded, pad_loop}

-- The digits that a conversion leaves in its buffer, with the place of the point and the sign.
pub record Converted : Type 0 where
  pub digits : List ℕ
  pub decpt : ℤ
  pub sign : Bool

pub record FloatOps (D : Type 0) : Type 0 where
  pub ecvtbuf : D → ℤ → Converted
  pub fcvtbuf : D → ℤ → Converted
  pub is_zero : D → Bool
  pub below_zero : D → Bool
  pub negate : D → D

-- `ps == pe`: the distance from the start of the source is the count.
unfoldable pub pointers_meet : ℕ → ℤ → Bool
pointers_meet at (pos count) = at == count
pointers_meet at (negsuc count) = false

-- The loop of `ee_bufcpy`, up to where the pointers meet; a byte behind the digits is not initialised.
unfoldable pub copy_bytes : ℕ → ℤ → List ℕ → Outcome (List ℕ)
copy_bytes at count [] = if pointers_meet at count then done [] else fault
copy_bytes at count (c ∷ s) =
    let rest = copy_bytes (at + 1) count s >>= (λ (later : List ℕ). done (c ∷ later)) in
    if pointers_meet at count then done [] else rest

unfoldable pub ee_bufcpy : ℤ → List ℕ → Outcome (List ℕ)
ee_bufcpy count s = copy_bytes 0 count s

abbrev sign_of : Bool → List ℕ
sign_of negative = if negative then b'-' ∷ [] else []

-- The three digits of an exponent, with its sign.
unfoldable pub exponent_text : ℤ → List ℕ
exponent_text exp =
    let n = pos_part exp + neg_part exp in
    (if ltb 0 (neg_part exp) then b'-' else b'+')
    ∷ (n / 100 % 10 + b'0')
    ∷ (n / 10 % 10 + b'0')
    ∷ (n % 10 + b'0')
    ∷ []

unfoldable pub exponent_of : Bool → ℤ → ℤ
exponent_of is_zero (pos zero) = if is_zero then pos 0 else negsuc 0
exponent_of is_zero (pos (suc n)) = pos n
exponent_of is_zero (negsuc n) = negsuc (suc n)

-- The arm of `e`.
unfoldable pub scientific : Bool → Bool → ℤ → Converted → List ℕ → Outcome (List ℕ)
scientific is_zero capexp precision c [] = fault
scientific is_zero capexp precision c (d ∷ digits) =
    ee_bufcpy precision digits >>= (λ (fraction : List ℕ). done (
      sign_of c.sign
      ++ d ∷ (if ltb 0 (pos_part precision) then b'.' ∷ [] else [])
      ++ fraction
      ++ (if capexp then b'E' else b'e') ∷ exponent_text (exponent_of is_zero c.decpt)))

-- The digits with the point before the one at `decpt`.
unfoldable pub with_point : ℕ → ℕ → List ℕ → List ℕ
with_point at decpt [] = []
with_point at decpt (d ∷ digits) =
    let rest = d ∷ with_point (suc at) decpt digits in if at == decpt then b'.' ∷ rest else rest

-- The arm of `f`.
unfoldable pub fixed_digits : ℤ → ℤ → List ℕ → List ℕ
fixed_digits precision decpt [] =
    b'0' ∷ (if ltb 0 (pos_part precision) then b'.' ∷ replicate (pos_part precision) b'0' else [])
fixed_digits precision decpt (d ∷ digits) =
    if ltb 0 (pos_part decpt)
    then with_point 0 (pos_part decpt) (d ∷ digits)
    else b'0' ∷ b'.' ∷ replicate (neg_part decpt) b'0' ++ d ∷ digits

unfoldable pub fixed : ℤ → Converted → List ℕ
fixed precision c = sign_of c.sign ++ fixed_digits precision c.decpt c.digits

-- The letter and the precision that `g` chooses.
pub record Style : Type 0 where
  pub fmt : ℕ
  pub precision : ℤ

unfoldable pub general_style : ℤ → ℤ → Style
general_style decpt precision =
    let magnitude = decpt -ℤ pos 1 in
    if ltb_ℤ magnitude (negsuc 3) || ltb_ℤ (precision -ℤ pos 1) magnitude
    then record { fmt = b'e'; precision = precision -ℤ pos 1 }
    else record { fmt = b'f'; precision = precision -ℤ decpt }

-- The arrays `tmp` and the terminator in it.
abbrev tmp_bytes : ℕ
tmp_bytes = 80

unfoldable pub in_tmp : List ℕ → Outcome (List ℕ)
in_tmp text = if ltb (length text) tmp_bytes then done text else fault

-- `decimal_point` behind a letter of an exponent: the bytes from place 1 on, the terminator included, move
-- up by one, the byte at place 1 stays as well, and the point takes place 0.
unfoldable pub move_up : List ℕ → List ℕ
move_up [] = []
move_up (c ∷ t) = c ∷ c ∷ t

unfoldable pub decimal_point : List ℕ → List ℕ
decimal_point [] = b'.' ∷ []
decimal_point (c ∷ t) =
    let rest = decimal_point t in
    if c == b'.' then c ∷ t else if c == b'e' || c == b'E' then b'.' ∷ move_up t else c ∷ rest

-- `cropzeros`: the text behind the point up to the letter of an exponent, without its last zeros. From there
-- on the bytes up to that letter are filled with zeros, the first of which ends the text.
unfoldable pub fraction_digits : List ℕ → List ℕ
fraction_digits [] = []
fraction_digits (c ∷ t) =
    let rest = c ∷ fraction_digits t in if c == b'e' || c == b'E' then [] else rest

unfoldable pub drop_zeros : List ℕ → List ℕ
drop_zeros [] = []
drop_zeros (c ∷ t) = elim (drop_zeros t) [
  | [] ↦ if c == b'0' then [] else c ∷ []
  | d ∷ rest ↦ c ∷ d ∷ rest
]

unfoldable pub point_and : List ℕ → List ℕ
point_and [] = []
point_and (c ∷ t) = b'.' ∷ c ∷ t

unfoldable pub cropzeros : List ℕ → List ℕ
cropzeros [] = []
cropzeros (c ∷ t) =
    let rest = c ∷ cropzeros t in
    if c == b'.' then point_and (drop_zeros (fraction_digits t)) else rest

-- The loops that print the text.
unfoldable pub write_float : List ℕ → Flags → ℕ → ℤ → List ℕ → List ℕ
write_float str flags sign size text =
    let c = if flags.zeropad then b'0' else b' ' in
    let before : Padded =
      if flags.zeropad || flags.left
      then record { size = size; str = str }
      else pad_loop b' ' size str in
    let signed : Padded = record before {
      str = before.str ++ (if sign == 0 then [] else sign ∷ []);
    } in
    let padded : Padded = if flags.left then signed else pad_loop c signed.size signed.str in
    (pad_loop b' ' padded.size (padded.str ++ text)).str

-- The sign byte, 0 for none, and what is left of the width and the number.
pub record SignedFloat (D : Type 0) : Type 0 where
  pub sign : ℕ
  pub size : ℤ
  pub num : D

module _ {D : Type 0} (ops : FloatOps D) where
  unfoldable pub parse_style : D → Style → Bool → Outcome (List ℕ)
  parse_style value s capexp =
      let e = ops.ecvtbuf value (s.precision +ℤ pos 1) in
      if s.fmt == b'e'
      then scientific (ops.is_zero value) capexp s.precision e e.digits
      else if s.fmt == b'f'
      then done (fixed s.precision (ops.fcvtbuf value s.precision))
      else done []

  unfoldable pub parse_float : D → ℕ → ℤ → Outcome (List ℕ)
  parse_float value fmt precision =
      let capexp = fmt == b'G' || fmt == b'E' in
      let lower = if capexp then fmt + 32 else fmt in
      let style =
        if lower == b'g'
        then general_style (ops.ecvtbuf value precision).decpt precision
        else record { fmt = lower; precision = precision } in
      parse_style value style capexp >>= in_tmp

  unfoldable pub take_float_sign : Flags → ℤ → D → SignedFloat D
  take_float_sign flags size num =
      if not flags.sign
      then record { sign = 0; size = size; num = num }
      else if ops.below_zero num
      then record { sign = b'-'; size = size -ℤ pos 1; num = ops.negate num }
      else if flags.plus
      then record { sign = b'+'; size = size -ℤ pos 1; num = num }
      else if flags.space
      then record { sign = b' '; size = size -ℤ pos 1; num = num }
      else record { sign = 0; size = size; num = num }

  -- The text in `tmp` that is printed.
  unfoldable pub float_text : Flags → ℕ → ℤ → D → Outcome (List ℕ)
  float_text flags fmt precision num = parse_float num fmt precision >>= (λ (text : List ℕ).
      in_tmp (if flags.hex_prep && pos_part precision == 0 then decimal_point text else text)
      >>= (λ (pointed : List ℕ).
          done (if fmt == b'g' && not flags.hex_prep then cropzeros pointed else pointed)))

  unfoldable pub flt : List ℕ → D → ℤ → ℤ → ℕ → Flags → Outcome (List ℕ)
  flt str num size precision fmt flags =
      let type = if flags.left then record flags { zeropad = false } else flags in
      let s = take_float_sign type size num in
      let digits : ℤ = if ltb 0 (neg_part precision) then pos 6 else precision in
      float_text type fmt digits s.num
      >>= (λ (text : List ℕ). done (write_float str type s.sign (s.size -ℤ pos (length text)) text))
