-- ===== src/Printf/Float/Field.antt =====
-- Where `flt` puts the text of a number.
use coco_ibex.Common.{
  ℕ, ◌≡◌, refl, false, ◌==◌, List, [], ◌∷◌, ◌++◌, append_assoc, append-nil, Outcome, done, fault,
  spent, ◌>>=◌, if◌then◌else◌, length, replicate, Bool-cases, inl, inr, ap, ap₂, sym, ◌∙◌, ltb,
  arith, Bool, not, ◌&&◌,
}
use coco_ibex.Common.Int.{ℤ, pos, pos_part, neg_part, ◌-ℤ◌}
use coco_ibex.Printf.Pad.{Flags, pad_loop-str, pad_loop-size}
use coco_ibex.Printf.Float.{FloatOps, take_float_sign, float_text, write_float, flt}

ruleset padding = (pad_loop-str, pad_loop-size, append_assoc, append-nil)

-- A sign and a text with some padding: to the left of both, between them as zeros, or to the right.
unfoldable pub float_field : Flags → List ℕ → ℕ → List ℕ → List ℕ
float_field flags sign pads text =
    if flags.left
    then sign ++ text ++ replicate pads b' '
    else if flags.zeropad
    then sign ++ replicate pads b'0' ++ text
    else replicate pads b' ' ++ sign ++ text

abbrev sign_bytes : ℕ → List ℕ
sign_bytes sign = if sign == 0 then [] else sign ∷ []

write_float-field :
    (str : List ℕ) (flags : Flags) (sign : ℕ) (size : ℤ) (text : List ℕ)
    → write_float str flags sign size text
      ≡ str ++ float_field flags (sign_bytes sign) (pos_part size) text
unfolding write_float float_field
write_float-field str flags sign size text = elim (Bool-cases flags.left) [
  | inl l ↦ elim (Bool-cases flags.zeropad) [
    | inl z ↦ simp (l, z, padding)
    | inr p ↦ simp (l, p, padding)
  ]
  | inr r ↦ elim (Bool-cases flags.zeropad) [
    | inl z ↦ simp (r, z, padding)
    | inr p ↦ simp (r, p, padding)
  ]
]

bind_same :
    (m : Outcome (List ℕ)) (f g : List ℕ → List ℕ)
    → ((text : List ℕ) → f text ≡ g text)
    → (m >>= (λ (text : List ℕ). done (f text))) ≡ (m >>= (λ (text : List ℕ). done (g text)))
bind_same (done text) f g h = ap done (h text)
bind_same fault f g h = refl
bind_same spent f g h = refl

minus_zero : (size : ℤ) → size -ℤ pos 0 ≡ size
unfolding ◌-ℤ◌
minus_zero size = ground arith

-- The sign before a magnitude, where one is asked for.
unfoldable pub sign_text : Flags → Bool → List ℕ
sign_text flags negative =
    if not flags.sign
    then []
    else if negative
    then b'-' ∷ []
    else if flags.plus
    then b'+' ∷ []
    else if flags.space
    then b' ' ∷ []
    else []

module _ {D : Type 0} (ops : FloatOps D) where
  -- Left alignment turns the zeros off, and a negative precision is 6.
  abbrev printed_flags : Flags → Flags
  printed_flags flags = if flags.left then record flags { zeropad = false } else flags

  abbrev printed_precision : ℤ → ℤ
  printed_precision precision = if ltb 0 (neg_part precision) then pos 6 else precision

  -- The number behind the sign.
  abbrev pub magnitude : Flags → D → D
  magnitude flags num = if flags.sign && ops.below_zero num then ops.negate num else num

  -- A sign takes a place of the size.
  take_float_sign-parts :
      (flags : Flags) (size : ℤ) (num : D)
      → let s = take_float_sign ops flags size num in
        let sign = sign_text flags (ops.below_zero num) in
        (sign_bytes s.sign ≡ sign)
        × (s.size ≡ size -ℤ pos (length sign))
        × (s.num ≡ magnitude flags num)
  unfolding take_float_sign sign_text
  take_float_sign-parts flags size num = elim (Bool-cases flags.sign) [
    | inl signed ↦ elim (Bool-cases (ops.below_zero num)) [
      | inl negative ↦ rw (signed, negative) (refl, refl, refl)
      | inr positive ↦ elim (Bool-cases flags.plus) [
        | inl plus ↦ rw (signed, positive, plus) (refl, refl, refl)
        | inr none ↦ elim (Bool-cases flags.space) [
          | inl space ↦ rw (signed, positive, none, space) (refl, refl, refl)
          | inr bare ↦ rw (signed, positive, none, bare) (refl, sym (minus_zero size), refl)
        ]
      ]
    ]
    | inr unsigned ↦ rw unsigned (refl, sym (minus_zero size), refl)
  ]

  -- The field of a number from its sign, the size that the sign leaves, and its magnitude.
  abbrev field_of : List ℕ → Flags → ℕ → ℤ → List ℕ → ℤ → D → Outcome (List ℕ)
  field_of str flags fmt precision sign size num =
      float_text ops flags fmt precision num >>= (λ (text : List ℕ).
        done (str ++ float_field flags sign (pos_part (size -ℤ pos (length text))) text))

  -- What `flt` prints behind the output so far: the text of the number's magnitude, with a minus before it for
  -- a negative number whose sign is asked for, else with the plus or the space that is asked for, and with the
  -- padding to the left of both, between them as zeros, or to the right, as the flags say. Where the text is
  -- a fault, so is `flt`.
  pub flt-field :
      (str : List ℕ) (num : D) (size precision : ℤ) (fmt : ℕ) (flags : Flags)
      → let type = printed_flags flags in
        let sign = sign_text type (ops.below_zero num) in
        flt ops str num size precision fmt flags ≡ (
          float_text ops type fmt (printed_precision precision) (magnitude type num)
          >>= (λ (text : List ℕ). done (
              str
              ++ float_field type sign
                  (pos_part (size -ℤ pos (length sign) -ℤ pos (length text)))
                  text)))
  unfolding flt
  flt-field str num size precision fmt flags =
      let type = printed_flags flags in
      let digits = printed_precision precision in
      let s = take_float_sign ops type size num in
      let (sign, left, number) = take_float_sign-parts type size num in
      bind_same (float_text ops type fmt digits s.num)
        (λ (text : List ℕ). write_float str type s.sign (s.size -ℤ pos (length text)) text)
        (λ (text : List ℕ).
          str ++ float_field type (sign_bytes s.sign) (pos_part (s.size -ℤ pos (length text))) text)
        (λ text. write_float-field str type s.sign (s.size -ℤ pos (length text)) text)
      ∙ ap (λ (bytes : List ℕ). field_of str type fmt digits bytes s.size s.num) sign
      ∙ ap₂ (field_of str type fmt digits (sign_text type (ops.below_zero num))) left number
