-- ===== src/Verilator/MemUtil/Write/Image.antt =====
-- An ELF file in a memory: `MemWrite` composed with the load of the file and with the design's memory.
use coco_ibex.Common.{
  ℕ, suc, ◌+◌, ◌-◌, ◌*◌, ◌/◌, ◌%◌, ◌^◌, ◌≤◌, ◌<◌, ◌≡◌, refl, arith, true, false, ◌&&◌, ◌==◌, ltb,
  leb, List, Option, none, some, Outcome, done, fault, ◌>>=◌, if◌then◌else◌, length, get_elem?, All,
  ap, ◌∙◌, ◌⊎◌, inl, inr,
}
use coco_ibex.Verilator.MemUtil.Areas.{MemArea, find_area}
use coco_ibex.Verilator.MemUtil.Argument.{elf}
use coco_ibex.Verilator.MemUtil.Elf.{Phdr, malloc, elf_file_to_binary}
use coco_ibex.Verilator.MemUtil.Elf.Bounds.{EndsInside}
use coco_ibex.Verilator.MemUtil.Elf.Bytes.{HasBytes, image_byte}
use coco_ibex.Verilator.MemUtil.Elf.Load.{IsElf32, Spans, elf_file_to_binary_lem}
use coco_ibex.Verilator.MemUtil.Write.{
  Dpi, World, Written, write_words, end_write, write_image, write_elf_to_mem, write_type,
  write_scope, is_file_readable, write_area, write_found, mem_write,
}
use coco_ibex.Verilator.MemUtil.Write.Words.{
  MemoryLaws, word_at, get_elem?-word_at, write_words_lem, write_words-behind,
}

-- A width that can be registered.
abbrev IsWidth : ℕ → Type 0
IsWidth width_bit = (width_bit ≡ 32) ⊎ (width_bit ≡ 64)

-- The rounds of the loop over an image of whole words and some more bytes.
whole_rounds :
    (width_bit rounds : ℕ)
    → IsWidth width_bit
    → (rounds * (width_bit / 8) + width_bit / 8 - 1) / (width_bit / 8) ≡ rounds
whole_rounds width_bit rounds (inl e) = rw e (omega arith)
whole_rounds width_bit rounds (inr e) = rw e (omega arith)

begun_rounds :
    (width_bit rounds extra : ℕ)
    → IsWidth width_bit
    → 0 < extra
    → extra < width_bit / 8
    → (rounds * (width_bit / 8) + extra + width_bit / 8 - 1) / (width_bit / 8) ≡ suc rounds
begun_rounds width_bit rounds extra (inl e) h k = rw e (omega (arith, e, h, k))
begun_rounds width_bit rounds extra (inr e) h k = rw e (omega (arith, e, h, k))

place_inside :
    (width_bit rounds j k : ℕ)
    → IsWidth width_bit
    → j < rounds
    → k < width_bit / 8
    → j * (width_bit / 8) + k < rounds * (width_bit / 8)
place_inside width_bit rounds j k (inl e) h ks = rw e (omega (arith, e, h, ks))
place_inside width_bit rounds j k (inr e) h ks = rw e (omega (arith, e, h, ks))

width_positive : (width_bit : ℕ) → IsWidth width_bit → (width_bit / 8 == 0) ≡ false
width_positive width_bit (inl e) = rw e refl
width_positive width_bit (inr e) = rw e refl

first_word :
    (size rounds j : ℕ) (buf old : List (Option ℕ))
    → j < rounds
    → (if leb 0 j && ltb j (0 + rounds) then word_at size (j - 0) buf else old) ≡ word_at size j buf
first_word size rounds j buf old h = ground (arith, h)

module _ {M : Type 0} (d : Dpi M) where
  -- What `WriteElfToMem` returns after its loop.
  abbrev returned : World M → List (Option ℕ) → Outcome (Written M) → Outcome (Written M)
  returned w buf m = m >>= (λ (out : Written M). done (end_write d w.scope (some buf) out))

  write_image-rounds :
      (size rounds : ℕ) (buf : List (Option ℕ)) (w : World M)
      → (size == 0) ≡ false
      → (length buf + size - 1) / size ≡ rounds
      → write_image d size w (some buf) ≡ write_words d size rounds 0 buf w
  unfolding write_image
  write_image-rounds size rounds buf w positive e = rw (positive, e) refl

  -- An area that is registered, with a file that can be opened and a scope in the design.
  abbrev Usable : List MemArea → List ℕ → List ℕ → MemArea → ℕ → Type 0
  Usable areas name filepath m scope =
      (find_area name areas ≡ some m)
      × (d.stat filepath ≡ true)
      × (d.get_scope m.location ≡ some scope)
      × IsWidth m.width_bit

  -- What is left of `MemWrite` after the load of an ELF file.
  mem_write-elf :
      (areas : List MemArea) (name filepath : List ℕ) (m : MemArea) (scope : ℕ) (w : World M)
      → Usable areas name filepath m scope
      → mem_write d areas name filepath elf w
        ≡ write_elf_to_mem d scope filepath (m.width_bit / 8) w
  unfolding mem_write write_found write_area write_scope write_type is_file_readable
  mem_write-elf areas name filepath m scope w u =
      let aligned : (m.width_bit % 32 == 0) ≡ true = ground (arith, u.3) in
      rw (u.0, u.1, u.2, aligned) refl

  write_elf_to_mem-loaded :
      (scope size : ℕ) (filepath : List ℕ) (w : World M) (buf : List (Option ℕ))
      → elf_file_to_binary (d.elf_file filepath) w.handles
        ≡ done (record { handles = malloc w.handles; image = some buf })
      → write_elf_to_mem d scope filepath size w
        ≡ returned w buf
            (write_image d size (record w { scope = scope; handles = malloc w.handles }) (some buf))
  unfolding write_elf_to_mem
  write_elf_to_mem-loaded scope size filepath w buf e = rw e refl

  module _ (laws : MemoryLaws d) where
    -- A 32-bit ELF file whose image is a number of whole words of the memory, inside its depth: `MemWrite`
    -- succeeds, only the memory changes, and every byte of every word is that of the last segment at its
    -- address, counted from the lowest one.
    pub mem_write-image :
        (areas : List MemArea) (name filepath : List ℕ) (m : MemArea) (scope : ℕ) (ps : List Phdr)
        (low high rounds j k : ℕ) (w : World M)
        → Usable areas name filepath m scope
        → IsElf32 (d.elf_file filepath) ps
        → All EndsInside ps
        → All (HasBytes (d.elf_file filepath)) ps
        → Spans low high ps
        → high - low ≡ rounds * (m.width_bit / 8)
        → rounds ≤ laws.depth scope
        → rounds < 2 ^ 31
        → j < rounds
        → k < m.width_bit / 8
        → (memory : M) × (mem_write d areas name filepath elf w
            ≡ done (record { world = record w { memory = memory }; ok = true }))
          × (get_elem? (laws.read scope j memory) k
              ≡ image_byte (d.elf_file filepath) ps (low + (j * (m.width_bit / 8) + k)) (some none))
    unfolding write_image end_write
    mem_write-image areas name filepath m scope ps low high rounds j k w u is inside bytes s size_eq
          room fits jr ks =
        let size = m.width_bit / 8 in
        let place = j * size + k in
        let loaded =
          elf_file_to_binary_lem (d.elf_file filepath) w.handles ps low high place is inside bytes
            s in
        let buf = loaded.0 in
        let words : World M = record w { scope = scope; handles = malloc w.handles } in
        let stored =
          write_words_lem d laws size rounds 0 j buf words (loaded.2 ∙ size_eq)
            (omega (arith, room)) (omega (arith, fits)) in
        let here : ltb place (high - low) ≡ true =
          ground (arith, place_inside m.width_bit rounds j k u.3 jr ks, size_eq) in
        let word : laws.read scope j stored.0 ≡ word_at size j buf =
          stored.2 ∙ first_word size rounds j buf _ jr in
        (
          stored.0,
          mem_write-elf areas name filepath m scope w u
              ∙ write_elf_to_mem-loaded scope size filepath w buf loaded.1
              ∙ ap (returned w buf) (
                  write_image-rounds size rounds buf words (width_positive m.width_bit u.3) (
                    ap (λ (n : ℕ). (n + size - 1) / size) (loaded.2 ∙ size_eq)
                    ∙ whole_rounds m.width_bit rounds u.3)
                  ∙ stored.1)
              ∙ ground arith,
          ap (λ (bytes : List (Option ℕ)). get_elem? bytes k) word
              ∙ get_elem?-word_at size j k buf ks
              ∙ loaded.3
              ∙ rw here refl,
        )

    -- Where the image of such a file ends inside a word, `MemWrite` reads behind the end of its buffer.
    pub mem_write-behind :
        (areas : List MemArea) (name filepath : List ℕ) (m : MemArea) (scope : ℕ) (ps : List Phdr)
        (low high rounds extra : ℕ) (w : World M)
        → Usable areas name filepath m scope
        → IsElf32 (d.elf_file filepath) ps
        → All EndsInside ps
        → All (HasBytes (d.elf_file filepath)) ps
        → Spans low high ps
        → high - low ≡ rounds * (m.width_bit / 8) + extra
        → 0 < extra
        → extra < m.width_bit / 8
        → rounds ≤ laws.depth scope
        → rounds < 2 ^ 31
        → mem_write d areas name filepath elf w ≡ fault
    mem_write-behind areas name filepath m scope ps low high rounds extra w u is inside bytes s
          size_eq left short room fits =
        let size = m.width_bit / 8 in
        let loaded =
          elf_file_to_binary_lem (d.elf_file filepath) w.handles ps low high 0 is inside bytes s in
        let buf = loaded.0 in
        let words : World M = record w { scope = scope; handles = malloc w.handles } in
        mem_write-elf areas name filepath m scope w u
        ∙ write_elf_to_mem-loaded scope size filepath w buf loaded.1
        ∙ ap (returned w buf) (
            write_image-rounds size (suc rounds) buf words (width_positive m.width_bit u.3) (
              ap (λ (n : ℕ). (n + size - 1) / size) (loaded.2 ∙ size_eq)
              ∙ begun_rounds m.width_bit rounds extra u.3 left short)
            ∙ write_words-behind d laws size rounds extra 0 buf words (loaded.2 ∙ size_eq) left
                short (omega (arith, room)) (omega (arith, fits)))
