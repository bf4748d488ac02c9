-- ===== src/Verilator/MemUtil/Argument/Examples.antt =====
-- Arguments and file names as they come from a command line.
use coco_ibex.Common.{ℕ, ◌≡◌, refl, arith, List, [], ◌∷◌, some, codes}
use coco_ibex.Verilator.MemUtil.Argument.{
  arg_of_fields, read_fields, set_field, elf, unknown, parse_mem_arg, detect_mem_image_type,
  get_mem_image_type_by_name, type_of_extension,
}
use coco_ibex.Verilator.MemUtil.Argument.Fields.{with_commas, arg_of_texts, parse_mem_arg_lem}
use coco_ibex.Text.{split_first, split_last, same_text}

abbrev image_fields : List (List ℕ)
image_fields = codes "a.bin" ∷ codes "elf" ∷ codes "x" ∷ []

parse_mem_arg_lem_example :
    parse_mem_arg (with_commas (codes "ram") image_fields) ≡ arg_of_texts (codes "ram") image_fields
parse_mem_arg_lem_example =
    parse_mem_arg_lem (codes "ram") image_fields (ground arith, (ground arith, (ground arith, _)))
      (
        (ground arith, (ground arith, (ground arith, (ground arith, (ground arith, _))))),
        ((ground arith, (ground arith, (ground arith, _))), ((ground arith, _), _)),
      )

-- An empty last field is taken.
empty_file :
    parse_mem_arg (codes "ram,") ≡ some (record { name = codes "ram"; filepath = []; type = elf })
unfolding parse_mem_arg arg_of_fields read_fields split_first set_field detect_mem_image_type
    type_of_extension split_last
empty_file = refl

-- The dot of a directory counts as one of an extension.
dot_in_directory : detect_mem_image_type (codes "./hello") ≡ unknown
unfolding detect_mem_image_type type_of_extension split_last get_mem_image_type_by_name same_text
dot_in_directory = refl
