-- ===== src/Printf/Number/Layout.antt =====
-- What `number` writes, against a description of a formatted field that has no loop in it.
use mathlib.Core.List.{reverse}
use coco_ibex.Common.{
  ℕ, ◌-◌, ◌^◌, ◌≤◌, ◌<◌, ◌≡◌, inl, inr, ap, ◌∙◌, true, false, ◌||◌, List, [], ◌∷◌, ◌++◌, append-nil,
  append_assoc, arith, some, done, ltb, ◌==◌, if◌then◌else◌, length, length-append, length-reverse,
  length-replicate, replicate, Bool-cases,
}
use coco_ibex.Common.Int.{ℤ, pos_part, ◌-ℤ◌}
use coco_ibex.Printf.Pad.{Flags, pad_loop-str, pad_loop-size}
use coco_ibex.Printf.Number.{
  number, take_sign, take_prefix, Signed, write_field, at_least, clear_zeropad, convert_digits,
  digit_table,
}
use coco_ibex.Printf.Number.Digits.{
  IsNumeral, tmp_digits, convert_digits-eq, tmp_digits-IsNumeral, copy_back-reverse,
}
use coco_ibex.Printf.Number.Field.{
  sign_text, prefix_text, magnitude, with_precision, field, zeros_loop-str, pos_part-sub,
  pos_part-sub-at_least, write_sign-str, write_prefix-str, at_least_gap,
}

ruleset steps = (
  pad_loop-str, pad_loop-size, copy_back-reverse, zeros_loop-str, write_sign-str, write_prefix-str,
  at_least_gap, length-reverse, append_assoc, append-nil,
)

module _ (str : List ℕ) (type : Flags) (base : ℕ) (signed : Signed) (precision : ℤ)
    (tmp : List ℕ) where
  abbrev head : List ℕ
  head = (if signed.sign == 0 then [] else signed.sign ∷ []) ++ prefix_text type base

  abbrev pads : ℕ
  pads = pos_part (signed.size -ℤ at_least precision (length tmp))

  abbrev body : List ℕ
  body = with_precision precision (reverse tmp)

  write_field-left :
      type.left ≡ true
      → type.zeropad ≡ false
      → write_field str type base signed precision tmp
        ≡ str ++ (head ++ (body ++ replicate pads b' '))
  unfolding write_field
  write_field-left l z = simp (l, z, steps)

  write_field-zero :
      type.left ≡ false
      → type.zeropad ≡ true
      → write_field str type base signed precision tmp
        ≡ str ++ (head ++ (replicate pads b'0' ++ body))
  unfolding write_field
  write_field-zero l z = simp (l, z, steps)

  write_field-space :
      type.left ≡ false
      → type.zeropad ≡ false
      → write_field str type base signed precision tmp
        ≡ str ++ (replicate pads b' ' ++ (head ++ body))
  unfolding write_field
  write_field-space l z = simp (l, z, steps)

sign_text-take_sign :
    (flags : Flags) (num : ℕ) (size : ℤ)
    → (if (take_sign (clear_zeropad flags) num size).sign == 0
        then []
        else (take_sign (clear_zeropad flags) num size).sign ∷ [])
      ≡ sign_text flags num
unfolding take_sign
sign_text-take_sign flags num size = ground arith

num-take_sign :
    (flags : Flags) (num : ℕ) (size : ℤ)
    → num < 2 ^ 32
    → (take_sign (clear_zeropad flags) num size).num ≡ magnitude flags num
unfolding take_sign
num-take_sign flags num size lt = ground arith

size-take_sign :
    (flags : Flags) (num : ℕ) (size : ℤ)
    → pos_part (take_sign (clear_zeropad flags) num size).size
      ≡ pos_part size - length (sign_text flags num)
unfolding take_sign
size-take_sign flags num size = ground (arith, pos_part-sub size 1)

size-take_prefix :
    (flags : Flags) (base : ℕ) (size : ℤ)
    → pos_part (take_prefix (clear_zeropad flags) base size)
      ≡ pos_part size - length (prefix_text flags base)
unfolding take_prefix
size-take_prefix flags base size = ground (arith, pos_part-sub size 1, pos_part-sub size 2)

magnitude-lt : (flags : Flags) (num : ℕ) → num < 2 ^ 32 → magnitude flags num < 2 ^ 32
magnitude-lt flags num lt = ground arith

-- What is left of the width once sign, prefix and the padded numeral are written.
pads-eq :
    (size size' precision : ℤ) (a b text : List ℕ)
    → pos_part size' ≡ pos_part size - length a - length b
    → pos_part (size' -ℤ at_least precision (length text))
      ≡ pos_part size - length (a ++ b) - length (with_precision precision (reverse text))
pads-eq size size' precision a b text h =
    rw (pos_part-sub-at_least, length-append, length-append, length-replicate, length-reverse)
      (omega arith)

module _ (str : List ℕ) (flags : Flags) (base num : ℕ) (size precision : ℤ) (signed : Signed)
    (tmp : List ℕ)
    (sign_eq : (if signed.sign == 0 then [] else signed.sign ∷ []) ≡ sign_text flags num)
    (size_eq : pos_part signed.size
      ≡ pos_part size - length (sign_text flags num) - length (prefix_text flags base)) where
  whole : List ℕ
  whole =
      field flags size (sign_text flags num ++ prefix_text flags base)
        (with_precision precision (reverse tmp))

  write_field-whole : write_field str (clear_zeropad flags) base signed precision tmp ≡ str ++ whole
  unfolding whole
  write_field-whole =
      let sizes =
        pads-eq size signed.size precision (sign_text flags num) (prefix_text flags base) tmp
          size_eq in
      let type = clear_zeropad flags in
      elim (Bool-cases flags.left) [
        | inl l ↦
            let z : type.zeropad ≡ false = ground arith in
            write_field-left str type base signed precision tmp l z ∙ simp (sign_eq, sizes, l)
        | inr r ↦ elim (Bool-cases flags.zeropad) [
          | inl z ↦
              let z' : type.zeropad ≡ true = ground arith in
              write_field-zero str type base signed precision tmp r z' ∙ simp (sign_eq, sizes, r, z)
          | inr z ↦
              let z' : type.zeropad ≡ false = ground arith in
              write_field-space str type base signed precision tmp r z'
              ∙ simp (sign_eq, sizes, r, z)
        ]
      ]

abbrev signed_of : Flags → ℕ → ℕ → ℤ → Signed
signed_of flags num base size =
    let signed = take_sign (clear_zeropad flags) num size in
    record signed { size = take_prefix (clear_zeropad flags) base signed.size }

number-write_field :
    (str : List ℕ) (num base : ℕ) (size precision : ℤ) (flags : Flags) (tmp : List ℕ)
    → 2 ≤ base
    → base ≤ 36
    → convert_digits
        (digit_table flags.uppercase)
        base
        (take_sign (clear_zeropad flags) num size).num
      ≡ done tmp
    → number str num base size precision flags
      ≡ done (
          some (
            write_field str
              (clear_zeropad flags)
              base
              (signed_of flags num base size)
              precision
              tmp))
unfolding number
number-write_field str num base size precision flags tmp lo hi e =
    let a : (ltb base 2 || ltb 36 base) ≡ false = ground arith in rw a (rw e)

-- The field that `number` appends, with the digits as `tmp` holds them.
pub number-field :
    (str : List ℕ) (num base : ℕ) (size precision : ℤ) (flags : Flags) (lo : 2 ≤ base)
    (hi : base ≤ 36)
    → num < 2 ^ 32
    → number str num base size precision flags
      ≡ done (
          some (
            str
            ++ field flags size (sign_text flags num ++ prefix_text flags base) (
                with_precision precision
                  (reverse (tmp_digits flags.uppercase base lo hi (magnitude flags num))))))
number-field str num base size precision flags lo hi lt =
    let mag = magnitude flags num in
    let fits = magnitude-lt flags num lt in
    let tmp = tmp_digits flags.uppercase base lo hi mag in
    number-write_field str num base size precision flags tmp (omega arith) (omega arith)
      (rw (num-take_sign flags num size lt) (convert_digits-eq flags.uppercase base lo hi mag fits))
    ∙ ap (λ t. done (some t))
        (unfold whole in
          write_field-whole str flags base num size precision (signed_of flags num base size) tmp
            (sign_text-take_sign flags num size)
            (size-take_prefix flags base _
              ∙ ap (λ (t : ℕ). t - length (prefix_text flags base))
                  (size-take_sign flags num size)))

-- On a base from 2 to 36 and a 32-bit number `number` never faults, and appends one field: the sign and the prefix that
-- the flags ask for, then the shortest numeral of the magnitude in the base with zeros up to the
-- precision, padded to the width on the left, inside or on the right as the flags say.
pub number_lem :
    (str : List ℕ) (num base : ℕ) (size precision : ℤ) (flags : Flags)
    → 2 ≤ base
    → base ≤ 36
    → num < 2 ^ 32
    → (text : List ℕ) × IsNumeral flags.uppercase base (magnitude flags num) text
      × (number str num base size precision flags
          ≡ done (
              some (
                str
                ++ field flags size
                    (sign_text flags num ++ prefix_text flags base)
                    (with_precision precision text))))
number_lem str num base size precision flags lo hi lt =
    let fits = magnitude-lt flags num lt in
    (
      reverse (tmp_digits flags.uppercase base lo hi (magnitude flags num)),
      tmp_digits-IsNumeral flags.uppercase base lo hi (magnitude flags num) fits,
      number-field str num base size precision flags lo hi lt,
    )
