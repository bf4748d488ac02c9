-- ===== src/Printf/Float/Examples.antt =====
-- The printing of 1.5 and of 1.5 * 10^k, given by their digits.
use coco_ibex.Common.{
  ℕ, suc, ◌+◌, ◌≡◌, refl, arith, true, false, List, [], ◌∷◌, ◌++◌, done, fault, ◌>>=◌, codes, take,
  inl, length,
}
use coco_ibex.Common.Int.{pos, negsuc, pos_part, ◌+ℤ◌, ◌-ℤ◌}
use coco_ibex.Printf.Pad.{Flags, no_flags, pad_loop}
use coco_ibex.Printf.Float.{
  FloatOps, take_float_sign, float_text, flt, pointers_meet, copy_bytes, ee_bufcpy, exponent_text,
  exponent_of, scientific, with_point, fixed_digits, fixed, general_style, in_tmp, decimal_point,
  move_up, fraction_digits, drop_zeros, point_and, cropzeros, parse_style, parse_float, write_float,
}
use coco_ibex.Printf.Float.Crop.{cropzeros-exponent, parse_float-no_digits}
use coco_ibex.Printf.Float.Field.{float_field, sign_text, magnitude, flt-field}

abbrev digits_of : ℕ → List ℕ
digits_of n = take n (codes "150000000000000000000000")

-- A double is the exponent of a multiple of 1.5.
abbrev ops : FloatOps ℕ
ops = record {
  ecvtbuf = λ k n. record { digits = digits_of (pos_part n); decpt = pos (suc k); sign = false };
  fcvtbuf =
      λ k n. record { digits = digits_of (pos_part n + k + 1); decpt = pos (suc k); sign = false };
  is_zero = λ k. false;
  below_zero = λ k. false;
  negate = λ k. k;
}

fixed_run :
    flt ops (codes "x=") 1 (pos 8) (pos 2) b'f' (record no_flags { sign = true; plus = true })
    ≡ done (codes "x=  +15.00")
unfolding flt take_float_sign float_text write_float parse_float parse_style fixed fixed_digits
    with_point in_tmp pad_loop ◌-ℤ◌ ◌+ℤ◌
fixed_run = refl

scientific_run : flt ops [] 12 (negsuc 0) (pos 3) b'E' no_flags ≡ done (codes "1.500E+012")
unfolding flt take_float_sign float_text write_float parse_float parse_style scientific ee_bufcpy
    copy_bytes pointers_meet exponent_text exponent_of in_tmp pad_loop ◌-ℤ◌ ◌+ℤ◌
scientific_run = refl

-- `%g` of 1.5 * 10^12 prints 1.5.
general_run : flt ops [] 12 (negsuc 0) (negsuc 0) b'g' no_flags ≡ done (codes "1.5")
unfolding flt take_float_sign float_text write_float parse_float parse_style general_style
    scientific ee_bufcpy copy_bytes pointers_meet exponent_text exponent_of in_tmp pad_loop
    cropzeros fraction_digits drop_zeros point_and ◌-ℤ◌ ◌+ℤ◌
general_run = refl

cropzeros-exponent_example :
    cropzeros (codes "1" ++ b'.' ∷ (codes "50" ++ b'e' ∷ codes "+012"))
    ≡ cropzeros (codes "1" ++ b'.' ∷ codes "50")
cropzeros-exponent_example =
    cropzeros-exponent (codes "1") (codes "50") (codes "+012") b'e' (ground arith) (ground arith)
      (inl refl)

decimal_point_run : decimal_point (codes "2e+012") ≡ codes "2.++012"
unfolding decimal_point move_up
decimal_point_run = refl

parse_float-no_digits_example :
    (parse_float ops 3 b'g' (pos 0) ≡ fault) × (parse_float ops 3 b'G' (pos 0) ≡ fault)
parse_float-no_digits_example = parse_float-no_digits ops 3 3 refl

-- As `ops`, with -1.5 for every number.
abbrev below : FloatOps ℕ
below = record ops { below_zero = λ k. true }

abbrev signed : Flags
signed = record no_flags { sign = true }

flt-field_example : flt below (codes "x=") 1 (pos 8) (pos 2) b'f' signed ≡ (
    float_text below signed b'f' (pos 2) (magnitude below signed 1) >>= (λ (text : List ℕ). done (
      codes "x="
      ++ float_field signed (codes "-") (pos_part (pos 8 -ℤ pos 1 -ℤ pos (length text))) text)))
unfolding sign_text
flt-field_example = flt-field below (codes "x=") 1 (pos 8) (pos 2) b'f' signed
