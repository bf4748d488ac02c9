-- ===== src/Verilator/MemUtil/Argument/Fields.antt =====
-- `ParseMemArg` against a description by the fields between the commas.
use coco_ibex.Common.{
  ℕ, suc, ◌≡◌, refl, arith, Bool, not, ◌&&◌, List, [], ◌∷◌, ◌++◌, Option, none, some, if◌then◌else◌,
  All,
}
use coco_ibex.Text.{Without, split_first-none, split_first-append}
use coco_ibex.Verilator.MemUtil.Argument.{
  MemArg, FieldArray, set_field, advance, is_empty, no_fields, read_fields, arg_of_fields,
  parse_mem_arg, detect_mem_image_type, get_mem_image_type_by_name,
}

-- A first field and the others, with a comma before each of them.
unfoldable pub with_commas : List ℕ → List (List ℕ) → List ℕ
with_commas a [] = a
with_commas a (b ∷ rest) = a ++ b',' ∷ with_commas b rest

abbrev given : Bool → MemArg → Option MemArg
given ok arg = if ok then some arg else none

-- What is to be parsed from the fields: no comma is an error, and so is an empty field before one of the
-- first three commas. The last field may be empty, and whatever stands behind a third comma is ignored.
unfoldable pub arg_of_texts : List ℕ → List (List ℕ) → Option MemArg
arg_of_texts a [] = none
arg_of_texts a (b ∷ []) =
    given (not (is_empty a)) (record { name = a; filepath = b; type = detect_mem_image_type b })
arg_of_texts a (b ∷ c ∷ []) =
    given (not (is_empty a) && not (is_empty b))
      (record { name = a; filepath = b; type = get_mem_image_type_by_name c })
arg_of_texts a (b ∷ c ∷ d ∷ rest) =
    given (not (is_empty a) && not (is_empty b) && not (is_empty c))
      (record { name = a; filepath = b; type = get_mem_image_type_by_name c })

read_fields-last :
    (rounds : ℕ) (a : FieldArray) (s : List ℕ)
    → Without b',' s
    → read_fields (suc rounds) a s ≡ some (set_field s a)
unfolding read_fields
read_fields-last rounds a s h = rw (read_fields, split_first-none b',' s h) refl

read_fields-comma :
    (rounds : ℕ) (a : FieldArray) (s t : List ℕ)
    → Without b',' s
    → read_fields (suc rounds) a (s ++ b',' ∷ t)
      ≡ (if is_empty s then none else read_fields rounds (advance (set_field s a)) t)
unfolding read_fields
read_fields-comma rounds a s t h = rw (read_fields, split_first-append b',' s t h) refl

-- `ParseMemArg` on any fields without commas, joined by commas, is the description by cases on their
-- number.
pub parse_mem_arg_lem :
    (a : List ℕ) (rest : List (List ℕ))
    → Without b',' a
    → All (Without b',') rest
    → parse_mem_arg (with_commas a rest) ≡ arg_of_texts a rest
unfolding parse_mem_arg with_commas arg_of_texts arg_of_fields set_field read_fields
parse_mem_arg_lem a [] ha hr = rw (read_fields-last 2 no_fields a ha) refl
parse_mem_arg_lem a (b ∷ []) ha hr = ground (
  arith,
  read_fields-comma 2 no_fields a b ha,
  read_fields-last 1 (advance (set_field a no_fields)) b hr.0,
)
parse_mem_arg_lem a (b ∷ c ∷ []) ha hr = ground (
  arith,
  read_fields-comma 2 no_fields a (b ++ b',' ∷ c) ha,
  read_fields-comma 1 (advance (set_field a no_fields)) b c hr.0,
  read_fields-last 0 (advance (set_field b (advance (set_field a no_fields)))) c hr.1.0,
)
parse_mem_arg_lem a (b ∷ c ∷ d ∷ rest) ha hr =
    let a1 = advance (set_field a no_fields) in
    let a2 = advance (set_field b a1) in
    ground (
      arith,
      read_fields-comma 2 no_fields a (with_commas b (c ∷ d ∷ rest)) ha,
      read_fields-comma 1 a1 b (with_commas c (d ∷ rest)) hr.0,
      read_fields-comma 0 a2 c (with_commas d rest) hr.1.0,
    )
