-- ===== src/Verilator/MemUtil/Write/Restore.antt =====
-- `MemWrite` leaves the scope and the handles as it found them.
use coco_ibex.Common.{
  ℕ, zero, suc, ◌+◌, ◌-◌, ◌/◌, ◌≡◌, refl, arith, List, Option, none, some, Outcome, done, fault,
  spent, ◌>>=◌, length, take, drop, ap, ◌∙◌,
}
use mathlib.Core.Path.{subst}
use coco_ibex.Verilator.MemUtil.Areas.{MemArea, find_area}
use coco_ibex.Verilator.MemUtil.Argument.{MemImageType, unknown, elf, vmem}
use coco_ibex.Verilator.MemUtil.Elf.{ElfResult, Handles, free, elf_file_to_binary}
use coco_ibex.Verilator.MemUtil.Elf.Load.{with_image, elf_file_to_binary-handles}
use coco_ibex.Verilator.MemUtil.Write.{
  Dpi, World, Written, write_words, end_write, write_image, write_elf_to_mem, write_vmem_to_mem,
  write_type, write_scope, write_area, write_found, mem_write,
}

module _ {M : Type 0} (d : Dpi M) where
  -- A run that returns with a scope and handles.
  abbrev Leaves : ℕ → Handles → Outcome (Written M) → Type 0
  Leaves scope handles (done out) = (out.world.scope ≡ scope) × (out.world.handles ≡ handles)
  Leaves scope handles fault = Unit {0}
  Leaves scope handles spent = Unit {0}

  write_words-Leaves :
      (size_byte rounds i : ℕ) (bytes : List (Option ℕ)) (w : World M)
      → Leaves w.scope w.handles (write_words d size_byte rounds i bytes w)
  unfolding write_words
  write_words-Leaves size_byte zero i bytes w = (refl, refl)
  write_words-Leaves size_byte (suc rounds) i bytes w =
      let stored = d.set_mem w.scope i (take size_byte bytes) w.memory in
      ground (
        arith,
        write_words-Leaves size_byte rounds (suc i) (drop size_byte bytes)
            (record w { memory = stored.memory }),
      )

  end_write-Leaves :
      (h : Handles) (prev : ℕ) (image : Option (List (Option ℕ))) (m : Outcome (Written M))
      (scope : ℕ)
      → Leaves scope (with_image h image) m
      → Leaves prev h (m >>= (λ (out : Written M). done (end_write d prev image out)))
  unfolding end_write
  end_write-Leaves h prev none (done out) scope l = (refl, l.1)
  end_write-Leaves h prev (some buf) (done out) scope l = (refl, ap free l.1 ∙ ground arith)
  end_write-Leaves h prev image fault scope l = tt
  end_write-Leaves h prev image spent scope l = tt

  write_image-Leaves :
      (size_byte : ℕ) (w : World M) (image : Option (List (Option ℕ)))
      → Leaves w.scope w.handles (write_image d size_byte w image)
  unfolding write_image
  write_image-Leaves size_byte w none = (refl, refl)
  write_image-Leaves size_byte w (some buf) =
      ground
        (arith, write_words-Leaves size_byte ((length buf + size_byte - 1) / size_byte) 0 buf w)

  -- The rest of `WriteElfToMem` after the load.
  loaded-Leaves :
      (scope size_byte : ℕ) (w : World M) (m : Outcome ElfResult)
      → ((r : ElfResult) → m ≡ done r → r.handles ≡ with_image w.handles r.image)
      → Leaves w.scope w.handles (
          m >>= (λ (r : ElfResult).
            write_image d size_byte (record w { scope = scope; handles = r.handles }) r.image
            >>= (λ (out : Written M). done (end_write d w.scope r.image out))))
  loaded-Leaves scope size_byte w (done r) k =
      let inside : World M = record w { scope = scope; handles = r.handles } in
      end_write-Leaves w.handles w.scope r.image (write_image d size_byte inside r.image) scope (
        subst (λ (h : Handles). Leaves scope h (write_image d size_byte inside r.image)) (k r refl)
          (write_image-Leaves size_byte inside r.image))
  loaded-Leaves scope size_byte w fault k = tt
  loaded-Leaves scope size_byte w spent k = tt

  write_type-Leaves :
      (scope size_byte : ℕ) (type : MemImageType) (filepath : List ℕ) (w : World M)
      → Leaves w.scope w.handles (write_type d scope type filepath size_byte w)
  unfolding write_type write_elf_to_mem write_vmem_to_mem
  write_type-Leaves scope size_byte elf filepath w =
      loaded-Leaves scope size_byte w (elf_file_to_binary (d.elf_file filepath) w.handles)
        (elf_file_to_binary-handles (d.elf_file filepath) w.handles)
  write_type-Leaves scope size_byte vmem filepath w = (refl, refl)
  write_type-Leaves scope size_byte unknown filepath w = (refl, refl)

  write_scope-Leaves :
      (found : Option ℕ) (m : MemArea) (type : MemImageType) (filepath : List ℕ) (w : World M)
      → Leaves w.scope w.handles (write_scope d found m filepath type w)
  unfolding write_scope
  write_scope-Leaves none m type filepath w = (refl, refl)
  write_scope-Leaves (some scope) m type filepath w =
      ground (arith, write_type-Leaves scope (m.width_bit / 8) type filepath w)

  write_found-Leaves :
      (found : Option MemArea) (type : MemImageType) (filepath : List ℕ) (w : World M)
      → Leaves w.scope w.handles (write_found d found filepath type w)
  unfolding write_found write_area
  write_found-Leaves none type filepath w = (refl, refl)
  write_found-Leaves (some m) type filepath w =
      ground (arith, write_scope-Leaves (d.get_scope m.location) m type filepath w)

  -- However a call of `MemWrite` that returns ends, the scope is the one before it, every descriptor is
  -- closed and every buffer freed.
  pub mem_write-restored :
      (areas : List MemArea) (name filepath : List ℕ) (type : MemImageType) (w : World M)
      (out : Written M)
      → mem_write d areas name filepath type w ≡ done out
      → (out.world.scope ≡ w.scope) × (out.world.handles ≡ w.handles)
  unfolding mem_write
  mem_write-restored areas name filepath type w out e =
      subst (Leaves w.scope w.handles) e (write_found-Leaves (find_area name areas) type filepath w)
