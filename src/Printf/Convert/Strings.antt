-- ===== src/Printf/Convert/Strings.antt =====
-- What `%s` and `%c` write.
use coco_ibex.Common.{
  ℕ, zero, suc, ◌-◌, ◌^◌, ◌%◌, ◌≡◌, refl, ◌∙◌, ap, sym, List, [], ◌∷◌, ◌++◌, append_assoc,
  append-nil, Option, none, some, Bool-cases, inl, inr, arith, length, take, codes,
}
use coco_ibex.Common.Int.{ℤ, pos, pos_part, ◌-ℤ◌}
use coco_ibex.Printf.Pad.{Flags, pad_loop-str, pad_loop-size, fill_loop-str, fill_loop-size}
use coco_ibex.Printf.Address.Text.{justified}
use coco_ibex.Printf.Convert.{strnlen, to_size, copy, write_char, write_string}

-- The string that is printed for an argument.
abbrev shown : Option (List ℕ) → List ℕ
shown none = codes "<NULL>"
shown (some s) = s

strnlen-take : (s : List ℕ) (n : ℕ) → strnlen s n ≡ length (take n s)
unfolding strnlen
strnlen-take [] zero = refl
strnlen-take [] (suc n) = refl
strnlen-take (c ∷ s) zero = refl
strnlen-take (c ∷ s) (suc n) = ap suc (strnlen-take s n)

copy-take : (s : List ℕ) (n : ℕ) (str : List ℕ) → copy (length (take n s)) s str ≡ str ++ take n s
unfolding copy
copy-take [] zero str = sym (append-nil str)
copy-take [] (suc n) str = sym (append-nil str)
copy-take (c ∷ s) zero str = sym (append-nil str)
copy-take (c ∷ s) (suc n) str = copy-take s n (str ++ c ∷ []) ∙ append_assoc str (c ∷ []) (take n s)

ruleset laws = (strnlen-take, copy-take, fill_loop-str, fill_loop-size, append_assoc, append-nil)

-- `%s` writes the string, or `<NULL>` for a null pointer, cut to the precision (none is 2^32 - 1 bytes)
-- and justified in the width.
pub write_string_lem :
    (flags : Flags) (width precision : ℤ) (s : Option (List ℕ)) (str : List ℕ)
    → write_string flags width precision s str
      ≡ str ++ justified flags width (take (to_size precision) (shown s))
unfolding write_string
write_string_lem flags width precision none str = elim (Bool-cases flags.left) [
  | inl l ↦ simp (l, laws)
  | inr r ↦ simp (r, laws)
]
write_string_lem flags width precision (some s) str = elim (Bool-cases flags.left) [
  | inl l ↦ simp (l, laws)
  | inr r ↦ simp (r, laws)
]

pos_part-pred : (a : ℤ) → pos_part (a -ℤ pos 1) ≡ pos_part a - 1
unfolding ◌-ℤ◌
pos_part-pred a = ground arith

-- `%c` writes the low byte of its argument, justified in the width.
write_char_lem :
    (flags : Flags) (width : ℤ) (w : ℕ) (str : List ℕ)
    → write_char flags width w str ≡ str ++ justified flags width (w % 2 ^ 8 ∷ [])
unfolding write_char
write_char_lem flags width w str = elim (Bool-cases flags.left) [
  | inl l ↦ simp (l, pad_loop-str, pos_part-pred, append_assoc)
  | inr r ↦ simp (r, pad_loop-str, pad_loop-size, pos_part-pred, append_assoc, append-nil)
]
