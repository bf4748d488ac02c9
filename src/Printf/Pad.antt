-- ===== src/Printf/Pad.antt =====
-- The flags of a directive and the padding loops that every conversion of ee_printf.c uses. The
-- output buffer is the list of the bytes written so far; an `int` is a signed integer, and the
-- widths and precisions at hand stay far from its limits.
use coco_ibex.Common.{
  ℕ, zero, suc, ◌-◌, ◌≡◌, refl, sym, ◌∙◌, Bool, false, List, [], ◌∷◌, ◌++◌, append-nil,
  append_assoc, arith, ltb, if◌then◌else◌, replicate, dec_lt, lt→ltb,
}
use coco_ibex.Common.Int.{ℤ, pos, negsuc, pos_part}

-- ZEROPAD, SIGN, PLUS, SPACE, LEFT, HEX_PREP and UPPERCASE: one field for each bit of the mask.
pub record Flags : Type 0 where
  pub zeropad : Bool
  pub sign : Bool
  pub plus : Bool
  pub space : Bool
  pub left : Bool
  pub hex_prep : Bool
  pub uppercase : Bool

abbrev pub no_flags : Flags
no_flags = record {
  zeropad = false;
  sign = false;
  plus = false;
  space = false;
  left = false;
  hex_prep = false;
  uppercase = false;
}

-- A counter and the output that a loop leaves.
pub record Padded : Type 0 where
  pub size : ℤ
  pub str : List ℕ

-- `while (size-- > 0) *str++ = c;`
unfoldable pub pad_loop : ℕ → ℤ → List ℕ → Padded
pad_loop c (pos zero) str = record { size = negsuc 0; str = str }
pad_loop c (pos (suc n)) str = pad_loop c (pos n) (str ++ c ∷ [])
pad_loop c (negsuc n) str = record { size = negsuc (suc n); str = str }

-- `while (len < size--) *str++ = ' ';`
unfoldable pub fill_loop : ℕ → ℤ → List ℕ → Padded
fill_loop len (pos zero) str = record { size = negsuc 0; str = str }
fill_loop len (pos (suc n)) str =
    let more = fill_loop len (pos n) (str ++ b' ' ∷ []) in
    if ltb len (suc n) then more else record { size = pos n; str = str }
fill_loop len (negsuc n) str = record { size = negsuc (suc n); str = str }

-- What is left to pad once `len` bytes of a field of `size` are taken.
abbrev pub missing : ℕ → ℤ → ℕ
missing len size = pos_part size - len

append-replicate-suc :
    (str : List ℕ) (c n : ℕ) → (str ++ c ∷ []) ++ replicate n c ≡ str ++ replicate (suc n) c
append-replicate-suc str c n = append_assoc str (c ∷ []) (replicate n c)

pub pad_loop-str :
    (c : ℕ) (size : ℤ) (str : List ℕ)
    → (pad_loop c size str).str ≡ str ++ replicate (pos_part size) c
unfolding pad_loop
pad_loop-str c (pos zero) str = sym (append-nil str)
pad_loop-str c (pos (suc n)) str =
    pad_loop-str c (pos n) (str ++ c ∷ []) ∙ append-replicate-suc str c n
pad_loop-str c (negsuc n) str = sym (append-nil str)

-- The counter ends below zero, so a second loop on it writes nothing.
pub pad_loop-size : (c : ℕ) (size : ℤ) (str : List ℕ) → pos_part (pad_loop c size str).size ≡ 0
unfolding pad_loop
pad_loop-size c (pos zero) str = refl
pad_loop-size c (pos (suc n)) str = pad_loop-size c (pos n) (str ++ c ∷ [])
pad_loop-size c (negsuc n) str = refl

pub fill_loop-str :
    (len : ℕ) (size : ℤ) (str : List ℕ)
    → (fill_loop len size str).str ≡ str ++ replicate (missing len size) b' '
unfolding fill_loop
fill_loop-str len (pos zero) str = let e : 0 - len ≡ 0 = omega arith in rw (e, append-nil)
fill_loop-str len (pos (suc n)) str = elim (dec_lt len (suc n)) [
  | yes lt ↦
      let e : suc n - len ≡ suc (n - len) = omega arith in
      rw (lt→ltb len (suc n) lt, e)
        (fill_loop-str len (pos n) (str ++ b' ' ∷ []) ∙ append-replicate-suc str b' ' (n - len))
  | no ge ↦
      let e : suc n - len ≡ 0 = omega arith in
      let f : ltb len (suc n) ≡ false = ground arith in rw (f, e, append-nil)
]
fill_loop-str len (negsuc n) str = let e : 0 - len ≡ 0 = omega arith in rw (e, append-nil)

pub fill_loop-size :
    (len : ℕ) (size : ℤ) (str : List ℕ) → missing len (fill_loop len size str).size ≡ 0
unfolding fill_loop
fill_loop-size len (pos zero) str = ground arith
fill_loop-size len (pos (suc n)) str = ground (arith, fill_loop-size len (pos n) (str ++ b' ' ∷ []))
fill_loop-size len (negsuc n) str = ground arith
