-- ===== src/Printf/Number/Length.antt =====
-- How much `number` of ee_printf.c writes, and when it gives the null pointer.
use coco_ibex.Common.{
  ◌↔◌, ℕ, ◌+◌, ◌-◌, ◌^◌, ◌≤◌, ◌<◌, ◌≡◌, ◌⊎◌, inl, inr, max, List, ◌++◌, arith, none, some, done,
  length, length-append, length-replicate, replicate, Bool-cases, dec_lt,
}
use coco_ibex.Common.Int.{ℤ, pos_part}
use coco_ibex.Printf.Pad.{Flags}
use coco_ibex.Printf.Number.{number}
use coco_ibex.Printf.Number.Digits.{IsNumeral}
use coco_ibex.Printf.Number.Field.{sign_text, prefix_text, magnitude, with_precision, field}
use coco_ibex.Printf.Number.Layout.{number_lem}

field-length :
    (flags : Flags) (size : ℤ) (head body : List ℕ)
    → length (field flags size head body) ≡ max (pos_part size) (length head + length body)
field-length flags size head body = elim (Bool-cases flags.left) [
  | inl l ↦ simp (l, length-append, length-replicate) (omega arith)
  | inr r ↦ elim (Bool-cases flags.zeropad) [
    | inl z ↦ simp (r, z, length-append, length-replicate) (omega arith)
    | inr z ↦ simp (r, z, length-append, length-replicate) (omega arith)
  ]
]

-- On a base from 2 to 36 and a 32-bit number the bytes that `number` appends are as many as the width asks for, or as the sign, the prefix and
-- the longer of the numeral and the precision take, if these are more.
number-length :
    (str : List ℕ) (num base : ℕ) (size precision : ℤ) (flags : Flags)
    → 2 ≤ base
    → base ≤ 36
    → num < 2 ^ 32
    → (text out : List ℕ) × IsNumeral flags.uppercase base (magnitude flags num) text
      × (number str num base size precision flags ≡ done (some (str ++ out)))
      × (length out
          ≡ max (pos_part size) (
              length (sign_text flags num)
              + length (prefix_text flags base)
              + max (pos_part precision) (length text)))
number-length str num base size precision flags lo hi lt =
    let (text, numeral, e) = number_lem str num base size precision flags lo hi lt in
    let head = sign_text flags num ++ prefix_text flags base in
    let body = with_precision precision text in
    let h = length-append (sign_text flags num) (prefix_text flags base) in
    let b = length-append (replicate (pos_part precision - length text) b'0') text in
    let r = length-replicate {A = ℕ} (pos_part precision - length text) b'0' in
    (
      text,
      field flags size head body,
      numeral,
      e,
      omega (arith, field-length flags size head body, h, b, r),
    )

-- On a 32-bit number `number` gives the null pointer exactly on a base outside 2 to 36.
number-eq-null_iff :
    (str : List ℕ) (num base : ℕ) (size precision : ℤ) (flags : Flags)
    → num < 2 ^ 32
    → (number str num base size precision flags ≡ done none) ↔ ((base < 2) ⊎ (36 < base))
unfolding number
number-eq-null_iff str num base size precision flags lt = (forward, λ h. ground arith)
  where
    forward : number str num base size precision flags ≡ done none → (base < 2) ⊎ (36 < base)
    forward h = elim (dec_lt base 2) [
      | yes small ↦ inl small
      | no big ↦ elim (dec_lt 36 base) [
        | yes large ↦ inr large
        | no fits ↦
            let (text, numeral, e) =
              number_lem str num base size precision flags (omega arith) (omega arith) lt in
            cc (e, h)
      ]
    ]
