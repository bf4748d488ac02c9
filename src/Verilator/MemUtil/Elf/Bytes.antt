-- ===== src/Verilator/MemUtil/Elf/Bytes.antt =====
-- The bytes of the image, against the bytes of the segments.
use coco_ibex.Common.{
  ℕ, zero, suc, ◌+◌, ◌-◌, ◌%◌, ◌≤◌, ◌≡◌, refl, arith, true, ◌&&◌, ◌∙◌, ltb, leb, List, [], ◌∷◌,
  Option, none, some, All, Bool-cases, inl, inr, length, get_elem?, Outcome, done, ◌>>=◌,
  if◌then◌else◌, ap, ap₂,
}
use coco_ibex.Verilator.MemUtil.Elf.{
  Phdr, ElfFile, is_loaded, address_size, memcpy, copy_chunk, copy_segment, copy_segments,
}
use coco_ibex.Verilator.MemUtil.Elf.Bounds.{readable, EndsInside, Between}

-- A copy that stays inside the buffer succeeds, and changes the places from the offset on as far as
-- its bytes go.
memcpy_lem :
    (offset : ℕ) (bytes : List ℕ) (buf : List (Option ℕ)) (i : ℕ)
    → offset + length bytes ≤ length buf
    → (out : List (Option ℕ)) × (memcpy offset bytes buf ≡ done out)
      × (length out ≡ length buf)
      × (get_elem? out i ≡ (
          if leb offset i && ltb i (offset + length bytes)
          then some (get_elem? bytes (i - offset))
          else get_elem? buf i))
unfolding memcpy
memcpy_lem offset [] buf i h = (buf, refl, refl, ground arith)
memcpy_lem offset (b ∷ bytes) [] i h = ground arith
memcpy_lem zero (b ∷ bytes) (c ∷ buf) zero h =
    let later = memcpy_lem zero bytes buf zero (omega (arith, h)) in
    (some b ∷ later.0, rw later.1 refl, ap suc later.2, ground arith)
memcpy_lem zero (b ∷ bytes) (c ∷ buf) (suc i) h =
    let later = memcpy_lem zero bytes buf i (omega (arith, h)) in
    (some b ∷ later.0, rw later.1 refl, ap suc later.2, later.3 ∙ (ground arith))
memcpy_lem (suc offset) (b ∷ bytes) (c ∷ buf) zero h =
    let later = memcpy_lem offset (b ∷ bytes) buf zero (omega (arith, h)) in
    (c ∷ later.0, rw later.1 refl, ap suc later.2, ground arith)
memcpy_lem (suc offset) (b ∷ bytes) (c ∷ buf) (suc i) h =
    let later = memcpy_lem offset (b ∷ bytes) buf i (omega (arith, h)) in
    (c ∷ later.0, rw later.1 refl, ap suc later.2, later.3 ∙ (ground arith))

-- A segment whose bytes can be read, all of them.
abbrev pub HasBytes : ElfFile → Phdr → Type 0
HasBytes f p =
    is_loaded p ≡ true
    → (chunk : List ℕ) × (f.rawchunk p.p_offset p.p_filesz ≡ some chunk)
      × (length chunk ≡ p.p_filesz)

abbrev chunk_byte : Option (List ℕ) → ℕ → Option ℕ
chunk_byte none i = none
chunk_byte (some chunk) i = get_elem? chunk i

-- What a segment leaves at an address where there was something before.
unfoldable pub segment_byte : ElfFile → Phdr → ℕ → Option (Option ℕ) → Option (Option ℕ)
segment_byte f p address old =
    if is_loaded p && leb p.p_paddr address && ltb address (p.p_paddr + p.p_filesz)
    then some (chunk_byte (f.rawchunk p.p_offset p.p_filesz) (address - p.p_paddr))
    else old

-- The byte at an address: the last segment there gives it.
unfoldable pub image_byte : ElfFile → List Phdr → ℕ → Option (Option ℕ) → Option (Option ℕ)
image_byte f [] address old = old
image_byte f (p ∷ ps) address old = image_byte f ps address (segment_byte f p address old)

copy_segment_lem :
    (f : ElfFile) (low high : ℕ) (p : Phdr) (buf : List (Option ℕ)) (i : ℕ)
    → EndsInside p
    → Between low high p
    → HasBytes f p
    → length buf ≡ high - low
    → (out : List (Option ℕ)) × (copy_segment f low p buf ≡ done (some out))
      × (length out ≡ length buf)
      × (get_elem? out i ≡ segment_byte f p (low + i) (get_elem? buf i))
unfolding copy_segment copy_chunk segment_byte
copy_segment_lem f low high p buf i inside b bytes size = elim (Bool-cases (is_loaded p)) [
  | inl loaded ↦
      let chunk = bytes loaded in
      let bounds = b loaded in
      let offset : (p.p_paddr + address_size - low) % address_size ≡ p.p_paddr - low =
        omega (arith, bounds.0, inside) in
      let copied =
        memcpy_lem (p.p_paddr - low) chunk.0 buf i (omega (arith, chunk.2, size, bounds)) in
      let run : copy_segment f low p buf ≡ done (some copied.0) =
        rw loaded refl
        ∙ ap₂ (λ (o : ℕ) (c : Option (List ℕ)). copy_chunk o c buf) offset chunk.1
        ∙ ap
            (λ (m : Outcome (List (Option ℕ))).
              m >>= (λ (after : List (Option ℕ)). done (some after)))
            copied.1 in
      (copied.0, run, copied.2, copied.3 ∙ rw (loaded, chunk.1) (ground (arith, chunk.2, bounds.0)))
  | inr skipped ↦ (buf, rw skipped refl, refl, rw skipped refl)
]

pub copy_segments_lem :
    (f : ElfFile) (low high : ℕ) (phdr : Phdr) (ps : List Phdr) (buf : List (Option ℕ)) (i : ℕ)
    → All EndsInside ps
    → All (Between low high) ps
    → All (HasBytes f) ps
    → length buf ≡ high - low
    → (out : List (Option ℕ)) × (copy_segments f low phdr (readable ps) buf ≡ done (some out))
      × (length out ≡ length buf)
      × (get_elem? out i ≡ image_byte f ps (low + i) (get_elem? buf i))
unfolding copy_segments readable image_byte
copy_segments_lem f low high phdr [] buf i inside b bytes size = (buf, refl, refl, refl)
copy_segments_lem f low high phdr (p ∷ ps) buf i inside b bytes size =
    let first = copy_segment_lem f low high p buf i inside.0 b.0 bytes.0 size in
    let later = copy_segments_lem f low high p ps first.0 i inside.1 b.1 bytes.1 (first.2 ∙ size) in
    (
      later.0,
      rw (first.1, later.1) refl,
      later.2 ∙ first.2,
      later.3 ∙ ap (image_byte f ps (low + i)) first.3,
    )
