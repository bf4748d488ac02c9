-- ===== src/Verilator/MemUtil/Elf/Load.antt =====
-- The whole of `ElfFileToBinary`: the image it gives, and what it leaves open.
use coco_ibex.Common.{
  ℕ, zero, suc, ◌+◌, ◌-◌, ◌^◌, ◌≤◌, ◌<◌, ◌≡◌, refl, arith, Bool, true, false, ◌&&◌, ◌||◌, ◌==◌, ◌∙◌,
  ltb, List, [], ◌∷◌, Option, none, some, All, Bool-cases, inl, inr, length, get_elem?, replicate,
  length-replicate, Outcome, done, fault, ◌>>=◌, spent, if◌then◌else◌, ap, ap₂,
}
use mathlib.Core.Path.{subst}
use coco_ibex.Verilator.MemUtil.Elf.{
  Phdr, ElfFile, Handles, ElfResult, Extent, is_loaded, no_extent, no_phdr, scan, len_bytes,
  open_fd, elf_begin, malloc, end_copy, build_image, load_phdrs, copy_segments, elf_file_to_binary,
}
use coco_ibex.Verilator.MemUtil.Elf.Bounds.{
  readable, EndsInside, Between, extent_of, scan-readable, any_loaded, extent_of-any,
  extent_of-Between, extent_of-Inside,
}
use coco_ibex.Verilator.MemUtil.Elf.Bytes.{HasBytes, image_byte, copy_segments_lem}

-- A loaded segment begins at an address, or ends before one.
unfoldable pub starts_at : ℕ → List Phdr → Bool
starts_at address [] = false
starts_at address (p ∷ ps) = is_loaded p && p.p_paddr == address || starts_at address ps

unfoldable pub ends_at : ℕ → List Phdr → Bool
ends_at address [] = false
ends_at address (p ∷ ps) = is_loaded p && p.p_paddr + p.p_filesz == address || ends_at address ps

starts_at-Between :
    (low high address : ℕ) (ps : List Phdr)
    → All (Between low high) ps
    → starts_at address ps ≡ true
    → (any_loaded ps ≡ true) × (low ≤ address) × (address ≤ high)
unfolding starts_at any_loaded
starts_at-Between low high address [] b h = ground arith
starts_at-Between low high address (p ∷ ps) b h =
    elim (Bool-cases (is_loaded p && p.p_paddr == address)) [
      | inl here ↦
          let loaded : is_loaded p ≡ true = ground (arith, here) in
          let same : p.p_paddr ≡ address = ground (arith, here) in
          (ground (arith, loaded), omega (arith, b.0 loaded, same), omega (arith, b.0 loaded, same))
      | inr not_here ↦
          let later = starts_at-Between low high address ps b.1 (ground (arith, h, not_here)) in
          (ground (arith, later.0), later.1, later.2)
    ]

ends_at-Between :
    (low high address : ℕ) (ps : List Phdr)
    → All (Between low high) ps
    → All EndsInside ps
    → ends_at address ps ≡ true
    → (address ≤ high) × (address < 2 ^ 64)
unfolding ends_at
ends_at-Between low high address [] b inside h = ground arith
ends_at-Between low high address (p ∷ ps) b inside h =
    elim (Bool-cases (is_loaded p && p.p_paddr + p.p_filesz == address)) [
      | inl here ↦
          let loaded : is_loaded p ≡ true = ground (arith, here) in
          let same : p.p_paddr + p.p_filesz ≡ address = ground (arith, here) in
          (omega (arith, b.0 loaded, same), omega (arith, inside.0, same))
      | inr not_here ↦
          ends_at-Between low high address ps b.1 inside.1 (ground (arith, h, not_here))
    ]

-- The lowest address and the highest end of the loaded segments.
abbrev pub Spans : ℕ → ℕ → List Phdr → Type 0
Spans low high ps = All (Between low high) ps × (starts_at low ps ≡ true) × (ends_at high ps ≡ true)

extent_of-Spans :
    (low high : ℕ) (ps : List Phdr)
    → All EndsInside ps
    → Spans low high ps
    → ((extent_of ps no_extent).low ≡ low)
      × ((extent_of ps no_extent).high ≡ high)
      × (len_bytes (extent_of ps no_extent) ≡ high - low)
unfolding len_bytes
extent_of-Spans low high ps inside s =
    let e = extent_of ps no_extent in
    let around = extent_of-Between ps no_extent inside in
    let begin = starts_at-Between e.low e.high low ps around s.1 in
    let end = ends_at-Between e.low e.high high ps around inside s.2 in
    let order = starts_at-Between low high low ps s.0 s.1 in
    let within =
      extent_of-Inside low high ps no_extent inside s.0 (λ h. ground (arith, h))
        (extent_of-any ps no_extent ∙ begin.0) in
    let same_low : e.low ≡ low = omega (arith, begin, within) in
    let same_high : e.high ≡ high = omega (arith, end, within) in
    (same_low, same_high, omega (arith, same_low, same_high, order, end))

-- A 32-bit ELF file with these headers.
abbrev pub IsElf32 : ElfFile → List Phdr → Type 0
IsElf32 f ps =
    (f.version_known ≡ true)
    × (f.opens ≡ true)
    × (f.begins ≡ true)
    × (f.is_elf ≡ true)
    × (f.is_class_32 ≡ true)
    × (f.phdrs ≡ some (readable ps))

elf_file_to_binary-IsElf32 :
    (f : ElfFile) (h : Handles) (ps : List Phdr)
    → IsElf32 f ps
    → elf_file_to_binary f h ≡ (
        copy_segments f
          (extent_of ps no_extent).low
          no_phdr
          (readable ps)
          (replicate (len_bytes (extent_of ps no_extent)) none)
        >>= end_copy (malloc (elf_begin (open_fd h))))
unfolding elf_file_to_binary load_phdrs build_image
elf_file_to_binary-IsElf32 f h ps is =
    rw (is.0, is.1, is.2, is.3, is.4, is.5, scan-readable ps no_extent) refl

get_elem?-replicate :
    (n i : ℕ) (a : Option ℕ) → get_elem? (replicate n a) i ≡ (if ltb i n then some a else none)
get_elem?-replicate zero i a = ground arith
get_elem?-replicate (suc n) zero a = ground arith
get_elem?-replicate (suc n) (suc i) a = get_elem?-replicate n i a ∙ ground arith

finished :
    (h : Handles) (out : List (Option ℕ))
    → end_copy (malloc (elf_begin (open_fd h))) (some out)
      ≡ done (record { handles = malloc h; image = some out })
unfolding end_copy
finished h out = ground arith

-- A 32-bit ELF file with a loaded segment, whose segments lie inside the 64-bit addresses and whose
-- bytes can all be read, gives an image from the lowest address of a loaded segment to the highest end
-- of one. Each byte of it is that of the last segment at its address, and not initialised where there is
-- none. Only the image's buffer stays in use.
pub elf_file_to_binary_lem :
    (f : ElfFile) (h : Handles) (ps : List Phdr) (low high i : ℕ)
    → IsElf32 f ps
    → All EndsInside ps
    → All (HasBytes f) ps
    → Spans low high ps
    → (out : List (Option ℕ)) × (elf_file_to_binary f h
        ≡ done (record { handles = malloc h; image = some out }))
      × (length out ≡ high - low)
      × (get_elem? out i
          ≡ image_byte f ps (low + i) (if ltb i (high - low) then some none else none))
elf_file_to_binary_lem f h ps low high i is inside bytes s =
    let size = high - low in
    let e = extent_of ps no_extent in
    let found = extent_of-Spans low high ps inside s in
    let copied =
      copy_segments_lem f low high no_phdr ps (replicate size none) i inside s.0 bytes
        (length-replicate size none) in
    let run =
      ap₂ (λ (l n : ℕ). copy_segments f l no_phdr (readable ps) (replicate n none)) found.0 found.2
      ∙ copied.1 in
    (
      copied.0,
      elf_file_to_binary-IsElf32 f h ps is
          ∙ ap
              (λ (m : Outcome (Option (List (Option ℕ)))).
                m >>= end_copy (malloc (elf_begin (open_fd h))))
              run
          ∙ finished h copied.0,
      copied.2 ∙ length-replicate size none,
      copied.3 ∙ ap (image_byte f ps (low + i)) (get_elem?-replicate size i none),
    )

-- The handles after a call: the buffer of an image is the caller's.
abbrev pub with_image : Handles → Option (List (Option ℕ)) → Handles
with_image h none = h
with_image h (some out) = malloc h

-- A run that has opened nothing that it does not close.
abbrev Tidy : Handles → Outcome ElfResult → Type 0
Tidy h (done out) = out.handles ≡ with_image h out.image
Tidy h fault = Unit {0}
Tidy h spent = Unit {0}

Tidy-bind :
    {A : Type 0} (h : Handles) (m : Outcome A) (next : A → Outcome ElfResult)
    → ((a : A) → Tidy h (next a))
    → Tidy h (m >>= next)
Tidy-bind h (done a) next k = k a
Tidy-bind h fault next k = tt
Tidy-bind h spent next k = tt

end_copy-Tidy :
    (h : Handles) (image : Option (List (Option ℕ)))
    → Tidy h (end_copy (malloc (elf_begin (open_fd h))) image)
unfolding end_copy
end_copy-Tidy h none = ground arith
end_copy-Tidy h (some buf) = ground arith

build_image-Tidy :
    (f : ElfFile) (h : Handles) (phdrs : List (Option Phdr)) (e : Option Extent)
    → Tidy h (build_image f (elf_begin (open_fd h)) phdrs e)
unfolding build_image
build_image-Tidy f h phdrs none = ground arith
build_image-Tidy f h phdrs (some e) =
    Tidy-bind h (copy_segments f e.low no_phdr phdrs (replicate (len_bytes e) none))
      (end_copy (malloc (elf_begin (open_fd h)))) (end_copy-Tidy h)

load_phdrs-Tidy :
    (f : ElfFile) (h : Handles) (phdrs : Option (List (Option Phdr)))
    → Tidy h (load_phdrs f (elf_begin (open_fd h)) phdrs)
unfolding load_phdrs
load_phdrs-Tidy f h none = ground arith
load_phdrs-Tidy f h (some phdrs) = build_image-Tidy f h phdrs (scan phdrs no_extent)

elf_file_to_binary-Tidy : (f : ElfFile) (h : Handles) → Tidy h (elf_file_to_binary f h)
unfolding elf_file_to_binary
elf_file_to_binary-Tidy f h = ground (arith, load_phdrs-Tidy f h f.phdrs)

-- Whatever the file is and however a call ends, its descriptors are closed again, and a buffer stays in
-- use exactly if the call gives an image.
pub elf_file_to_binary-handles :
    (f : ElfFile) (h : Handles) (out : ElfResult)
    → elf_file_to_binary f h ≡ done out
    → out.handles ≡ with_image h out.image
elf_file_to_binary-handles f h out e = subst (Tidy h) e (elf_file_to_binary-Tidy f h)
