-- ===== src/Verilator/MemUtil/Write.antt =====
-- Writing an image to a memory of the design: `MemWrite`, `WriteElfToMem` and `WriteVmemToMem`.
pub mod Restore
pub mod Words
pub mod Image
pub mod Examples
use coco_ibex.Common.{
  ℕ, zero, suc, ◌+◌, ◌-◌, ◌/◌, ◌%◌, ◌^◌, Bool, true, false, not, ◌==◌, ltb, List, [], ◌∷◌, Option,
  none, some, Outcome, done, fault, ◌>>=◌, if◌then◌else◌, length, take, drop,
}
use coco_ibex.Verilator.MemUtil.Areas.{MemArea, find_area}
use coco_ibex.Verilator.MemUtil.Argument.{MemImageType, unknown, elf, vmem, detect_mem_image_type}
use coco_ibex.Verilator.MemUtil.Elf.{ElfFile, ElfResult, Handles, free, elf_file_to_binary}

-- What `simutil_verilator_set_mem` leaves and returns.
pub record Stored (M : Type 0) : Type 0 where
  pub memory : M
  pub ok : Bool

-- The simulator's side and the file system: `svGetScopeFromName`, `simutil_verilator_set_mem` and
-- `simutil_verilator_memload` in a scope, `stat`, and the files as libelf reads them.
pub record Dpi (M : Type 0) : Type 0 where
  pub get_scope : List ℕ → Option ℕ
  pub set_mem : ℕ → ℕ → List (Option ℕ) → M → Stored M
  pub memload : ℕ → List ℕ → M → M
  pub stat : List ℕ → Bool
  pub elf_file : List ℕ → ElfFile

-- The scope of the calls, the handles in use and the memories of the design.
pub record World (M : Type 0) : Type 0 where
  pub scope : ℕ
  pub handles : Handles
  pub memory : M

pub record Written (M : Type 0) : Type 0 where
  pub world : World M
  pub ok : Bool

unfoldable pub is_file_readable : {M : Type 0} → Dpi M → List ℕ → Bool
is_file_readable d filepath = d.stat filepath

module _ {M : Type 0} (d : Dpi M) where
  -- The loop over the words, with a number of rounds to go and the bytes from the place `i` on. The call
  -- reads a whole word, also where fewer bytes are left. The index is an `int`.
  unfoldable pub write_words : ℕ → ℕ → ℕ → List (Option ℕ) → World M → Outcome (Written M)
  write_words size_byte zero i bytes w = done (record { world = w; ok = true })
  write_words size_byte (suc rounds) i bytes w =
      let stored = d.set_mem w.scope i (take size_byte bytes) w.memory in
      let after : World M = record w { memory = stored.memory } in
      let rest = write_words size_byte rounds (suc i) (drop size_byte bytes) after in
      if ltb (length bytes) size_byte
      then fault
      else if not stored.ok
      then done (record { world = after; ok = false })
      else if suc i == 2 ^ 31
      then fault
      else rest

  -- From the label `ret` on. There is no buffer to free after a failure.
  unfoldable pub end_write : ℕ → Option (List (Option ℕ)) → Written M → Written M
  end_write prev_scope none out = record out { world = record out.world { scope = prev_scope } }
  end_write prev_scope (some buf) out = record out {
    world = record out.world { scope = prev_scope; handles = free out.world.handles };
  }

  unfoldable pub write_image : ℕ → World M → Option (List (Option ℕ)) → Outcome (Written M)
  write_image size_byte w none = done (record { world = w; ok = false })
  write_image size_byte w (some buf) =
      if size_byte == 0
      then fault
      else write_words size_byte ((length buf + size_byte - 1) / size_byte) 0 buf w

  unfoldable pub write_elf_to_mem : ℕ → List ℕ → ℕ → World M → Outcome (Written M)
  write_elf_to_mem scope filepath size_byte w =
      elf_file_to_binary (d.elf_file filepath) w.handles >>= (λ (r : ElfResult).
        write_image size_byte (record w { scope = scope; handles = r.handles }) r.image
        >>= (λ (out : Written M). done (end_write w.scope r.image out)))

  unfoldable pub write_vmem_to_mem : ℕ → List ℕ → World M → Written M
  write_vmem_to_mem scope filepath w =
      let inside : World M = record w { scope = scope } in
      let loaded : World M = record inside {
        memory = d.memload inside.scope filepath inside.memory;
      } in
      record { world = record loaded { scope = w.scope }; ok = true }

  abbrev pub failed : World M → Outcome (Written M)
  failed w = done (record { world = w; ok = false })

  unfoldable pub write_type : ℕ → MemImageType → List ℕ → ℕ → World M → Outcome (Written M)
  write_type scope elf filepath size_byte w = write_elf_to_mem scope filepath size_byte w
  write_type scope vmem filepath size_byte w = done (write_vmem_to_mem scope filepath w)
  write_type scope unknown filepath size_byte w = failed w

  unfoldable pub write_scope :
      Option ℕ → MemArea → List ℕ → MemImageType → World M → Outcome (Written M)
  write_scope none m filepath type w = failed w
  write_scope (some scope) m filepath type w =
      if not (m.width_bit % 32 == 0)
      then failed w
      else write_type scope type filepath (m.width_bit / 8) w

  -- `MemWrite` on an area.
  unfoldable pub write_area : MemArea → List ℕ → MemImageType → World M → Outcome (Written M)
  write_area m filepath type w =
      if not (is_file_readable d filepath)
      then failed w
      else write_scope (d.get_scope m.location) m filepath type w

  unfoldable pub write_found :
      Option MemArea → List ℕ → MemImageType → World M → Outcome (Written M)
  write_found none filepath type w = failed w
  write_found (some m) filepath type w = write_area m filepath type w

  -- `MemWrite` on the name of an area.
  unfoldable pub mem_write :
      List MemArea → List ℕ → List ℕ → MemImageType → World M → Outcome (Written M)
  mem_write mem_register name filepath type w =
      write_found (find_area name mem_register) filepath type w

  -- `MemWrite` without a type.
  unfoldable pub mem_write_detect : List MemArea → List ℕ → List ℕ → World M → Outcome (Written M)
  mem_write_detect mem_register name filepath w =
      mem_write mem_register name filepath (detect_mem_image_type filepath) w
