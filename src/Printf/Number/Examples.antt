-- ===== src/Printf/Number/Examples.antt =====
-- Tests of `number` and its theorems at concrete directives.
use coco_ibex.Common.{ℕ, ◌≡◌, refl, true, List, [], ◌++◌, some, done, codes, arith}
use coco_ibex.Common.Int.{pos, negsuc, ◌-ℤ◌}
use coco_ibex.Printf.Pad.{Flags, no_flags, pad_loop}
use coco_ibex.Printf.Number.{
  number, take_sign, take_prefix, digit_loop, zeros_loop, copy_back, convert_digits, write_sign,
  write_prefix, at_least, write_field,
}
use coco_ibex.Printf.Number.Digits.{IsNumeral}
use coco_ibex.Printf.Number.Layout.{number_lem}
use coco_ibex.Printf.Number.Field.{magnitude, sign_text, prefix_text, with_precision, field}

abbrev signed_zeros : Flags
signed_zeros = record no_flags { sign = true; zeropad = true }

abbrev upper_hex : Flags
upper_hex = record no_flags { hex_prep = true; uppercase = true; left = true }

number_minus :
    number [] (0xffff_ffd6) 10 (pos 6) (negsuc 0) signed_zeros ≡ done (some (codes "-00042"))
unfolding number take_sign take_prefix digit_loop zeros_loop copy_back convert_digits write_sign
    write_prefix at_least write_field pad_loop ◌-ℤ◌
number_minus = refl

number_hex :
    number (codes "x=") 0xbeef 16 (pos 8) (pos 5) upper_hex ≡ done (some (codes "x=0x0BEEF "))
unfolding number take_sign take_prefix digit_loop zeros_loop copy_back convert_digits write_sign
    write_prefix at_least write_field pad_loop ◌-ℤ◌
number_hex = refl

number_lem_example :
    (text : List ℕ) × IsNumeral signed_zeros.uppercase 10 (magnitude signed_zeros 0xffff_ffd6) text
    × (number [] 0xffff_ffd6 10 (pos 6) (negsuc 0) signed_zeros
        ≡ done (
            some (
              []
              ++ field signed_zeros
                  (pos 6)
                  (sign_text signed_zeros 0xffff_ffd6 ++ prefix_text signed_zeros 10)
                  (with_precision (negsuc 0) text))))
number_lem_example =
    number_lem [] 0xffff_ffd6 10 (pos 6) (negsuc 0) signed_zeros (omega arith) (omega arith)
      (omega arith)
