-- ===== src/Verilator/MemUtil/Write/Examples.antt =====
-- A memory of four words in a design with one scope, and the files that are loaded into it.
use coco_ibex.Common.{
  ℕ, ◌+◌, ◌*◌, ◌/◌, ◌≡◌, refl, arith, true, ◌==◌, ltb, List, [], ◌∷◌, Option, none, some, done,
  fault, if◌then◌else◌, get_elem?, codes, inl,
}
use coco_ibex.Verilator.MemUtil.Areas.{MemArea, find_area}
use coco_ibex.Text.{same_text}
use coco_ibex.Verilator.MemUtil.Argument.{elf}
use coco_ibex.Verilator.MemUtil.Elf.{Phdr, is_loaded}
use coco_ibex.Verilator.MemUtil.Elf.Bytes.{image_byte}
use coco_ibex.Verilator.MemUtil.Elf.Load.{starts_at, ends_at}
use coco_ibex.Verilator.MemUtil.Elf.Examples.{segment, segments, elf_file, nothing_open}
use coco_ibex.Verilator.MemUtil.Write.{Dpi, World, mem_write}
use coco_ibex.Verilator.MemUtil.Write.Words.{MemoryLaws}
use coco_ibex.Verilator.MemUtil.Write.Image.{mem_write-image, mem_write-behind}

abbrev pub Words : Type 0
Words = ℕ → List (Option ℕ)

-- The design, with a file of some segments.
abbrev pub design : List Phdr → Dpi Words
design ps = record {
  get_scope = λ location. some 7;
  set_mem = λ scope i word m. record { memory = λ j. if i == j then word else m j; ok = ltb i 4 };
  memload = λ scope filepath m. m;
  stat = λ filepath. true;
  elf_file = λ filepath. elf_file ps;
}

abbrev pub design_laws : (ps : List Phdr) → MemoryLaws (design ps)
design_laws ps = record {
  depth = λ scope. 4;
  read = λ scope j m. m j;
  set_mem-ok = λ scope i word m h. ground (arith, h);
  read-set_mem = λ scope i j word m h. refl;
}

abbrev pub world : World Words
world = record { scope = 1; handles = nothing_open; memory = λ j. [] }

abbrev pub ram : MemArea
ram = record { name = codes "ram"; location = codes "TOP.u_ram"; width_bit = 32 }

-- Eight bytes with a gap of two.
abbrev pub two_words : List Phdr
two_words = segment 0 100 4 ∷ segment 5 106 2 ∷ []

mem_write-image_example :
    (memory : Words) × (mem_write
        (design two_words)
        (ram ∷ [])
        (codes "ram")
        (codes "a.elf")
        elf
        world
      ≡ done (record { world = record world { memory = memory }; ok = true }))
    × (get_elem? (memory 1) 3
        ≡ image_byte (elf_file two_words) two_words (100 + (1 * (32 / 8) + 3)) (some none))
unfolding find_area same_text is_loaded starts_at ends_at
mem_write-image_example =
    mem_write-image (design two_words) (design_laws two_words) (ram ∷ []) (codes "ram")
      (codes "a.elf") ram 7 two_words 100 108 2 1 3 world (refl, refl, refl, inl refl)
      (refl, refl, refl, refl, refl, refl) (ground arith)
      ((λ l. (1 ∷ 2 ∷ 0 ∷ 0 ∷ [], refl, refl)), ((λ l. (8 ∷ 9 ∷ [], refl, refl)), tt))
      (ground arith, refl, refl) refl (ground arith) (ground arith) (ground arith) (ground arith)

-- The image of seven bytes ends inside the second word.
mem_write-behind_example :
    mem_write (design segments) (ram ∷ []) (codes "ram") (codes "a.elf") elf world ≡ fault
unfolding find_area same_text is_loaded starts_at ends_at
mem_write-behind_example =
    mem_write-behind (design segments) (design_laws segments) (ram ∷ []) (codes "ram")
      (codes "a.elf") ram 7 segments 100 107 1 3 world (refl, refl, refl, inl refl)
      (refl, refl, refl, refl, refl, refl) (ground arith)
      (
        (λ l. (1 ∷ 2 ∷ [], refl, refl)),
        (
          (λ l. (3 ∷ 4 ∷ 5 ∷ [], refl, refl)),
          ((λ l. ground arith), ((λ l. (8 ∷ 9 ∷ [], refl, refl)), tt)),
        ),
      )
      (ground arith, refl, refl) refl (ground arith) (ground arith) (ground arith) (ground arith)
