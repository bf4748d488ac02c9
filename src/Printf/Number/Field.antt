-- ===== src/Printf/Number/Field.antt =====
-- A formatted field as a description with no loop in it, and the loops of `number` in ee_printf.c
-- against its parts.
use coco_ibex.Common.{
  ℕ, zero, suc, ◌-◌, ◌^◌, ◌≡◌, inl, inr, ◌∙◌, false, ◌&&◌, max, List, [], ◌∷◌, ◌++◌, append-nil,
  append_assoc, arith, ltb, ◌==◌, if◌then◌else◌, length, replicate, Bool-cases, dec_lt, lt→ltb,
}
use coco_ibex.Common.Int.{ℤ, pos, negsuc, pos_part, ◌-ℤ◌}
use coco_ibex.Printf.Pad.{Flags}
use coco_ibex.Printf.Number.{zeros_loop, write_sign, write_prefix, at_least, is_negative}

-- The sign character that the flags ask for.
abbrev pub sign_text : Flags → ℕ → List ℕ
sign_text flags num =
    if flags.sign
    then if is_negative num
      then b'-' ∷ []
      else if flags.plus
      then b'+' ∷ []
      else if flags.space
      then b' ' ∷ []
      else []
    else []

-- The `0` of octal and the `0x` of hexadecimal output.
abbrev pub prefix_text : Flags → ℕ → List ℕ
prefix_text flags base =
    if flags.hex_prep
    then if base == 8 then b'0' ∷ [] else if base == 16 then b'0' ∷ b'x' ∷ [] else []
    else []

abbrev pub magnitude : Flags → ℕ → ℕ
magnitude flags num = if flags.sign && is_negative num then 2 ^ 32 - num else num

-- Zeros before a numeral that is shorter than the precision.
abbrev pub with_precision : ℤ → List ℕ → List ℕ
with_precision precision text = replicate (pos_part precision - length text) b'0' ++ text

-- A head (sign and prefix) and a body in a field: LEFT pads behind, ZEROPAD between, else before.
abbrev pub field : Flags → ℤ → List ℕ → List ℕ → List ℕ
field flags size head body =
    let n = pos_part size - length head - length body in
    if flags.left
    then head ++ (body ++ replicate n b' ')
    else if flags.zeropad
    then head ++ (replicate n b'0' ++ body)
    else replicate n b' ' ++ (head ++ body)

pub zeros_loop-str :
    (i : ℕ) (precision : ℤ) (str : List ℕ)
    → zeros_loop i precision str ≡ str ++ replicate (pos_part precision - i) b'0'
unfolding zeros_loop
zeros_loop-str i (pos zero) str = let e : 0 - i ≡ 0 = omega arith in rw (e, append-nil)
zeros_loop-str i (pos (suc n)) str = elim (dec_lt i (suc n)) [
  | yes lt ↦
      let e : suc n - i ≡ suc (n - i) = omega arith in
      rw (lt→ltb i (suc n) lt, e)
        (zeros_loop-str i (pos n) (str ++ b'0' ∷ []) ∙ append_assoc str (b'0' ∷ []) _)
  | no ge ↦
      let e : suc n - i ≡ 0 = omega arith in
      let f : ltb i (suc n) ≡ false = ground arith in rw (f, e, append-nil)
]
zeros_loop-str i (negsuc n) str = let e : 0 - i ≡ 0 = omega arith in rw (e, append-nil)

pub pos_part-sub : (a : ℤ) (k : ℕ) → pos_part (a -ℤ pos k) ≡ pos_part a - k
unfolding ◌-ℤ◌
pos_part-sub a k = ground arith

pub pos_part-sub-at_least :
    (a precision : ℤ) (i : ℕ)
    → pos_part (a -ℤ at_least precision i) ≡ pos_part a - max (pos_part precision) i
unfolding ◌-ℤ◌ at_least
pos_part-sub-at_least a precision i = ground arith

pub write_sign-str :
    (sign : ℕ) (str : List ℕ) → write_sign sign str ≡ str ++ (if sign == 0 then [] else sign ∷ [])
unfolding write_sign
write_sign-str sign str = elim (Bool-cases (sign == 0)) [
  | inl e ↦ rw (e, append-nil)
  | inr e ↦ rw e
]

pub write_prefix-str :
    (type : Flags) (base : ℕ) (str : List ℕ)
    → write_prefix type base str ≡ str ++ prefix_text type base
unfolding write_prefix
write_prefix-str type base str = ground (arith, append-nil str)

pub at_least_gap :
    (precision : ℤ) (i : ℕ) → pos_part (at_least precision i) - i ≡ pos_part precision - i
unfolding at_least
at_least_gap precision i = ground arith
