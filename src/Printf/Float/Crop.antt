-- ===== src/Printf/Float/Crop.antt =====
-- What `cropzeros` and `decimal_point` do to a number with an exponent, and `%g` without digits.
use coco_ibex.Common.{
  ℕ, suc, ◌+◌, done, ◌≡◌, ◌≢◌, refl, arith, Bool, true, false, List, [], ◌∷◌, ◌++◌, Outcome, fault,
  ◌>>=◌, All, ◌⊎◌, ap, ◌∙◌, sym,
}
use coco_ibex.Common.Int.{ℤ, pos, negsuc, ◌+ℤ◌, ◌-ℤ◌}
use coco_ibex.Printf.Float.{
  Converted, FloatOps, Style, pointers_meet, copy_bytes, ee_bufcpy, scientific, general_style,
  in_tmp, move_up, decimal_point, fraction_digits, drop_zeros, point_and, cropzeros, parse_style,
  parse_float,
}

-- The letter of an exponent.
abbrev IsExponentLetter : ℕ → Type 0
IsExponentLetter c = (c ≡ b'e') ⊎ (c ≡ b'E')

-- No letter of an exponent and no point.
abbrev IsPlain : ℕ → Type 0
IsPlain c = (c ≢ b'e') × (c ≢ b'E') × (c ≢ b'.')

fraction_digits-exponent :
    (fraction exponent : List ℕ) (letter : ℕ)
    → All IsPlain fraction
    → IsExponentLetter letter
    → fraction_digits (fraction ++ letter ∷ exponent) ≡ fraction
unfolding fraction_digits
fraction_digits-exponent [] exponent letter h l = ground (arith, l)
fraction_digits-exponent (c ∷ fraction) exponent letter h l =
    ground (arith, h.0, fraction_digits-exponent fraction exponent letter h.1 l)

fraction_digits-plain :
    (fraction : List ℕ) → All IsPlain fraction → fraction_digits fraction ≡ fraction
unfolding fraction_digits
fraction_digits-plain [] h = refl
fraction_digits-plain (c ∷ fraction) h = ground (arith, h.0, fraction_digits-plain fraction h.1)

cropzeros-point :
    (whole rest : List ℕ)
    → All IsPlain whole
    → cropzeros (whole ++ b'.' ∷ rest) ≡ whole ++ point_and (drop_zeros (fraction_digits rest))
unfolding cropzeros
cropzeros-point [] rest h = ground arith
cropzeros-point (c ∷ whole) rest h = ground (arith, h.0, cropzeros-point whole rest h.1)

-- `cropzeros` leaves of a number with an exponent what it leaves of the one without it: the exponent is
-- lost, also where there is no zero to drop.
pub cropzeros-exponent :
    (whole fraction exponent : List ℕ) (letter : ℕ)
    → All IsPlain whole
    → All IsPlain fraction
    → IsExponentLetter letter
    → cropzeros (whole ++ b'.' ∷ (fraction ++ letter ∷ exponent))
      ≡ cropzeros (whole ++ b'.' ∷ fraction)
cropzeros-exponent whole fraction exponent letter hw hf l =
    cropzeros-point whole (fraction ++ letter ∷ exponent) hw
    ∙ ap (λ (f : List ℕ). whole ++ point_and (drop_zeros f))
        (fraction_digits-exponent fraction exponent letter hf l
          ∙ sym (fraction_digits-plain fraction hf))
    ∙ sym (cropzeros-point whole fraction hw)

-- `decimal_point` puts the point over the letter of an exponent and doubles the byte behind it.
decimal_point-exponent :
    (whole exponent : List ℕ) (letter c : ℕ)
    → All IsPlain whole
    → IsExponentLetter letter
    → decimal_point (whole ++ letter ∷ c ∷ exponent) ≡ whole ++ b'.' ∷ c ∷ c ∷ exponent
unfolding decimal_point move_up
decimal_point-exponent [] exponent letter c h l = ground (arith, l)
decimal_point-exponent (w ∷ whole) exponent letter c h l =
    ground (arith, h.0, decimal_point-exponent whole exponent letter c h.1 l)

-- Without digits, `g` chooses the style of `e` with a precision of -1.
general_style-zero :
    (n : ℕ) → general_style (pos (suc n)) (pos 0) ≡ record { fmt = b'e'; precision = negsuc 0 }
unfolding general_style ◌-ℤ◌
general_style-zero n = ground arith

-- With a negative count the pointers never meet, and the loop runs out of the digits.
copy_bytes-negative : (n at : ℕ) (s : List ℕ) → copy_bytes at (negsuc n) s ≡ fault
unfolding copy_bytes pointers_meet
copy_bytes-negative n at [] = refl
copy_bytes-negative n at (c ∷ s) =
    ap (λ (m : Outcome (List ℕ)). m >>= (λ (later : List ℕ). done (c ∷ later)))
      (copy_bytes-negative n (at + 1) s)

scientific-negative :
    (is_zero capexp : Bool) (c : Converted) (digits : List ℕ)
    → scientific is_zero capexp (negsuc 0) c digits ≡ fault
unfolding scientific ee_bufcpy
scientific-negative is_zero capexp c [] = refl
scientific-negative is_zero capexp c (d ∷ digits) = rw (copy_bytes-negative 0 0 digits) refl

module _ {D : Type 0} (ops : FloatOps D) where
  parse_style-negative :
      (value : D) (capexp : Bool)
      → parse_style ops value (record { fmt = b'e'; precision = negsuc 0 }) capexp ≡ fault
  unfolding parse_style
  parse_style-negative value capexp =
      let c = ops.ecvtbuf value (negsuc 0 +ℤ pos 1) in
      scientific-negative (ops.is_zero value) capexp c c.digits

  parsed :
      (value : D) (n : ℕ) (capexp : Bool)
      → (ops.ecvtbuf value (pos 0)).decpt ≡ pos (suc n)
      → (parse_style ops value (general_style (ops.ecvtbuf value (pos 0)).decpt (pos 0)) capexp
          >>= in_tmp)
        ≡ fault
  parsed value n capexp e =
      ap (λ (s : Style). parse_style ops value s capexp >>= in_tmp)
        (ap (λ (decpt : ℤ). general_style decpt (pos 0)) e ∙ general_style-zero n)
      ∙ ap (λ (m : Outcome (List ℕ)). m >>= in_tmp) (parse_style-negative value capexp)

  -- `parse_float` for the letters `g` and `G` and no digits, on a number that is not below 1: it copies -1
  -- bytes, and runs out of its buffers.
  pub parse_float-no_digits :
      (value : D) (n : ℕ)
      → (ops.ecvtbuf value (pos 0)).decpt ≡ pos (suc n)
      → (parse_float ops value b'g' (pos 0) ≡ fault) × (parse_float ops value b'G' (pos 0) ≡ fault)
  unfolding parse_float
  parse_float-no_digits value n e = (parsed value n false e, parsed value n true e)
