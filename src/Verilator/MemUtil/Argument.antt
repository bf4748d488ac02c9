-- ===== src/Verilator/MemUtil/Argument.antt =====
-- `ParseMemArg` and the detection of an image's type.
pub mod Fields
pub mod Detect
mod Examples
use coco_ibex.Common.{
  ℕ, zero, suc, Bool, true, false, ◌&&◌, ◌==◌, List, [], ◌∷◌, Option, none, some, if◌then◌else◌,
  codes,
}
use coco_ibex.Text.{Split, same_text, split_first, split_last}

pub data MemImageType : Type 0 where
  unknown elf vmem : MemImageType

unfoldable pub get_mem_image_type_by_name : List ℕ → MemImageType
get_mem_image_type_by_name name =
    if same_text name (codes "elf")
    then elf
    else if same_text name (codes "vmem")
    then vmem
    else unknown

unfoldable pub type_of_extension : Option Split → MemImageType
type_of_extension none = elf
type_of_extension (some s) = get_mem_image_type_by_name s.after

unfoldable pub detect_mem_image_type : List ℕ → MemImageType
detect_mem_image_type filepath = type_of_extension (split_last b'.' filepath)

-- The round `i` at which the loop ended, and the array of the fields: the ones it did not reach are
-- empty texts.
pub record FieldArray : Type 0 where
  pub i : ℕ
  arg_0 : List ℕ
  arg_1 : List ℕ
  arg_2 : List ℕ

unfoldable pub set_field : List ℕ → FieldArray → FieldArray
set_field field a =
    if a.i == 0
    then record a { arg_0 = field }
    else if a.i == 1
    then record a { arg_1 = field }
    else record a { arg_2 = field }

abbrev pub advance : FieldArray → FieldArray
advance a = record a { i = suc a.i }

abbrev pub is_empty : List ℕ → Bool
is_empty [] = true
is_empty (c ∷ s) = false

-- The loop over what begins at `pos`, with a number of rounds to go: `none` is an empty field.
unfoldable pub read_fields : ℕ → FieldArray → List ℕ → Option FieldArray
read_fields zero a s = some a
read_fields (suc rounds) a s = elim (split_first b',' s) [
  | none ↦ some (set_field s a)
  | some found ↦
      let rest = read_fields rounds (advance (set_field found.before a)) found.after in
      if is_empty found.before then none else rest
]

pub record MemArg : Type 0 where
  pub name : List ℕ
  pub filepath : List ℕ
  pub type : MemImageType

unfoldable pub arg_of_fields : Option FieldArray → Option MemArg
arg_of_fields none = none
arg_of_fields (some a) =
    if a.i == 0
    then none
    else some (record {
      name = a.arg_0;
      filepath = a.arg_1;
      type = if a.i == 1 then detect_mem_image_type a.arg_1 else get_mem_image_type_by_name a.arg_2;
    })

abbrev pub no_fields : FieldArray
no_fields = record { i = 0; arg_0 = []; arg_1 = []; arg_2 = [] }

unfoldable pub parse_mem_arg : List ℕ → Option MemArg
parse_mem_arg mem_argument = arg_of_fields (read_fields 3 no_fields mem_argument)
