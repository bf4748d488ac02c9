-- ===== src/Verilator/MemUtil/Elf/Examples.antt =====
-- A file of two segments with a gap between them, one of which overlaps a third.
use coco_ibex.Common.{
  ℕ, ◌+◌, ◌-◌, ◌≡◌, refl, arith, true, List, [], ◌∷◌, Option, none, some, length, get_elem?, done,
  if◌then◌else◌, ltb, take, drop,
}
use coco_ibex.Verilator.MemUtil.Elf.{
  Phdr, ElfFile, Handles, ElfResult, is_loaded, malloc, load_phdrs, build_image, scan,
  copy_segments, len_bytes, end_copy, elf_file_to_binary,
}
use coco_ibex.Verilator.MemUtil.Elf.Bounds.{readable}
use coco_ibex.Verilator.MemUtil.Elf.Bytes.{image_byte}
use coco_ibex.Verilator.MemUtil.Elf.Load.{starts_at, ends_at, elf_file_to_binary_lem}

abbrev pub segment : ℕ → ℕ → ℕ → Phdr
segment offset paddr filesz = record {
  p_type = 1;
  p_offset = offset;
  p_paddr = paddr;
  p_filesz = filesz;
}

abbrev pub segments : List Phdr
segments = segment 0 104 2 ∷ segment 7 100 3 ∷ segment 9 0 0 ∷ segment 5 105 2 ∷ []

abbrev contents : List ℕ
contents = 1 ∷ 2 ∷ 0 ∷ 0 ∷ 0 ∷ 8 ∷ 9 ∷ 3 ∷ 4 ∷ 5 ∷ []

abbrev pub elf_file : List Phdr → ElfFile
elf_file ps = record {
  version_known = true;
  opens = true;
  begins = true;
  is_elf = true;
  is_class_32 = true;
  phdrs = some (readable ps);
  rawchunk = λ (offset size : ℕ). some (take size (drop offset contents));
}

abbrev pub nothing_open : Handles
nothing_open = record { fds = 0; descriptors = 0; buffers = 0 }

elf_file_to_binary_lem_example :
    (out : List (Option ℕ)) × (elf_file_to_binary (elf_file segments) nothing_open
      ≡ done (record { handles = malloc nothing_open; image = some out }))
    × (length out ≡ 107 - 100)
    × (get_elem? out 5
        ≡ image_byte
            (elf_file segments)
            segments
            (100 + 5)
            (if ltb 5 (107 - 100) then some none else none))
unfolding is_loaded starts_at ends_at
elf_file_to_binary_lem_example =
    elf_file_to_binary_lem (elf_file segments) nothing_open segments 100 107 5
      (refl, refl, refl, refl, refl, refl) (ground arith)
      (
        (λ l. (1 ∷ 2 ∷ [], refl, refl)),
        (
          (λ l. (3 ∷ 4 ∷ 5 ∷ [], refl, refl)),
          ((λ l. ground arith), ((λ l. (8 ∷ 9 ∷ [], refl, refl)), tt)),
        ),
      )
      (ground arith, refl, refl)

-- A file without a loaded segment: the length wraps around to 1, a byte that is not initialised.
abbrev no_segment : ElfResult
no_segment = record { handles = malloc nothing_open; image = some (none ∷ []) }

no_segment_lem : elf_file_to_binary (elf_file []) nothing_open ≡ done no_segment
unfolding elf_file_to_binary load_phdrs build_image scan copy_segments len_bytes end_copy readable
no_segment_lem = refl
