-- ===== src/Printf/Number.antt =====
-- `number`, the integer conversion of ee_printf.c, on the 32-bit `long` of RV32.
pub mod Digits
pub mod Field
pub mod Layout
pub mod Length
mod Examples
use coco_ibex.Common.{
  ℕ, zero, suc, ◌+◌, ◌-◌, ◌*◌, ◌/◌, ◌%◌, ◌^◌, ◌≡◌, refl, Bool, true, false, not, ◌&&◌, ◌||◌, List,
  [], ◌∷◌, ◌++◌, Option, none, some, Outcome, done, fault, ◌>>=◌, ltb, leb, ◌==◌, if◌then◌else◌,
  length, get_or, codes,
}
use coco_ibex.Common.Int.{ℤ, pos, negsuc, ◌-ℤ◌, ltb_ℤ}
use coco_ibex.Printf.Pad.{Flags, no_flags, Padded, pad_loop}

abbrev pub digits : List ℕ
digits = codes "0123456789abcdefghijklmnopqrstuvwxyz"

abbrev upper_digits : List ℕ
upper_digits = codes "0123456789ABCDEFGHIJKLMNOPQRSTUVWXYZ"

abbrev pub digit_table : Bool → List ℕ
digit_table uppercase = if uppercase then upper_digits else digits

-- A `long` is its 32-bit pattern; its negation wraps on the most negative value.
abbrev pub is_negative : ℕ → Bool
is_negative num = leb (2 ^ 31) num

abbrev negated : ℕ → ℕ
negated num = (2 ^ 32 - num) % 2 ^ 32

-- `sign` (0 for none), and `num` and `size` after the sign was taken from them.
pub record Signed : Type 0 where
  pub sign : ℕ
  pub num : ℕ
  pub size : ℤ

unfoldable pub take_sign : Flags → ℕ → ℤ → Signed
take_sign type num size =
    if type.sign
    then if is_negative num
      then record { sign = b'-'; num = negated num; size = size -ℤ pos 1 }
      else if type.plus
      then record { sign = b'+'; num = num; size = size -ℤ pos 1 }
      else if type.space
      then record { sign = b' '; num = num; size = size -ℤ pos 1 }
      else record { sign = 0; num = num; size = size }
    else record { sign = 0; num = num; size = size }

unfoldable pub take_prefix : Flags → ℕ → ℤ → ℤ
take_prefix type base size =
    if type.hex_prep
    then if base == 16 then size -ℤ pos 2 else if base == 8 then size -ℤ pos 1 else size
    else size

-- The digits from the lowest up, as `tmp` holds them; `room` bytes of `tmp` are left, and a write
-- behind its end is a fault.
unfoldable pub digit_loop : List ℕ → ℕ → ℕ → ℕ → List ℕ → Outcome (List ℕ)
digit_loop dig base zero num tmp = if num == 0 then done tmp else fault
digit_loop dig base (suc room) num tmp =
    let more = digit_loop dig base room (num / base) (tmp ++ get_or dig (num % base) 0 ∷ []) in
    if num == 0 then done tmp else more

-- `while (i < precision--) *str++ = '0';`
unfoldable pub zeros_loop : ℕ → ℤ → List ℕ → List ℕ
zeros_loop i (pos zero) str = str
zeros_loop i (pos (suc n)) str =
    let more = zeros_loop i (pos n) (str ++ b'0' ∷ []) in if ltb i (suc n) then more else str
zeros_loop i (negsuc n) str = str

-- `while (i-- > 0) *str++ = tmp[i];`
unfoldable pub copy_back : ℕ → List ℕ → List ℕ → List ℕ
copy_back zero tmp str = str
copy_back (suc i) tmp str = copy_back i tmp (str ++ get_or tmp i 0 ∷ [])

abbrev pub tmp_size : ℕ
tmp_size = 66

-- The digits of `num` in `tmp`.
unfoldable pub convert_digits : List ℕ → ℕ → ℕ → Outcome (List ℕ)
convert_digits dig base num =
    if num == 0 then done (b'0' ∷ []) else digit_loop dig base tmp_size num []

unfoldable pub write_sign : ℕ → List ℕ → List ℕ
write_sign sign str = if sign == 0 then str else str ++ sign ∷ []

unfoldable pub write_prefix : Flags → ℕ → List ℕ → List ℕ
write_prefix type base str =
    if type.hex_prep
    then if base == 8
      then str ++ b'0' ∷ []
      else if base == 16
      then str ++ b'0' ∷ get_or digits 33 0 ∷ []
      else str
    else str

-- `if (i > precision) precision = i;`
unfoldable pub at_least : ℤ → ℕ → ℤ
at_least precision i = if ltb_ℤ precision (pos i) then pos i else precision

-- What `number` writes once the digits are in `tmp`. `type` is the mask after LEFT has cleared
-- ZEROPAD.
unfoldable pub write_field : List ℕ → Flags → ℕ → Signed → ℤ → List ℕ → List ℕ
write_field str type base signed precision tmp =
    let c = if type.zeropad then b'0' else b' ' in
    let i = length tmp in
    let precision' = at_least precision i in
    let size = signed.size -ℤ precision' in
    let before =
      if type.zeropad || type.left
      then record { size = size; str = str }
      else pad_loop b' ' size str in
    let headed = write_prefix type base (write_sign signed.sign before.str) in
    let inner =
      if type.left
      then record { size = before.size; str = headed }
      else pad_loop c before.size headed in
    let numbered = copy_back i tmp (zeros_loop i precision' inner.str) in
    (pad_loop b' ' inner.size numbered).str

abbrev pub clear_zeropad : Flags → Flags
clear_zeropad type = record type { zeropad = type.zeropad && not type.left }

-- `none` is the null pointer that an impossible base gives.
unfoldable pub number : List ℕ → ℕ → ℕ → ℤ → ℤ → Flags → Outcome (Option (List ℕ))
number str num base size precision flags =
    let type = clear_zeropad flags in
    let signed = take_sign type num size in
    let signed' = record signed { size = take_prefix type base signed.size } in
    if ltb base 2 || ltb 36 base then done none else do
      tmp ← convert_digits (digit_table type.uppercase) base signed'.num
      done (some (write_field str type base signed' precision tmp))
