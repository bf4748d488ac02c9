-- ===== src/Verilator/MemUtil/Argument/Detect.antt =====
-- The type of an image by its name.
use coco_ibex.Common.{ℕ, ◌≡◌, refl, List, ◌∷◌, ◌++◌}
use coco_ibex.Text.{Without, split_last-none, split_last-append}
use coco_ibex.Verilator.MemUtil.Argument.{
  elf, type_of_extension, detect_mem_image_type, get_mem_image_type_by_name,
}

-- A name without a dot is an ELF file. The text behind the last dot gives the type of any other.
detect_mem_image_type_lem :
    (stem ext : List ℕ)
    → Without b'.' ext
    → (detect_mem_image_type ext ≡ elf)
      × (detect_mem_image_type (stem ++ b'.' ∷ ext) ≡ get_mem_image_type_by_name ext)
unfolding detect_mem_image_type type_of_extension
detect_mem_image_type_lem stem ext h =
    (rw (split_last-none b'.' ext h) refl, rw (split_last-append b'.' stem ext h) refl)
