-- ===== src/Verilator/MemUtil/Elf.antt =====
-- `ElfFileToBinary`: the loadable segments of an ELF file as one image.
pub mod Bounds
pub mod Bytes
pub mod Load
pub mod Examples
use coco_ibex.Common.{
  ℕ, zero, suc, ◌+◌, ◌-◌, ◌%◌, ◌^◌, Bool, true, false, not, ◌&&◌, ◌||◌, ◌==◌, ltb, List, [], ◌∷◌,
  Option, none, some, Outcome, done, fault, ◌>>=◌, if◌then◌else◌, replicate,
}

-- A program header.
pub record Phdr : Type 0 where
  pub p_type : ℕ
  pub p_offset : ℕ
  pub p_paddr : ℕ
  pub p_filesz : ℕ

-- What libelf and `open` answer for one file: `phdrs` is `none` where their number is not known, and so
-- is a header that cannot be read. The same header reads the same twice.
pub record ElfFile : Type 0 where
  pub version_known : Bool
  pub opens : Bool
  pub begins : Bool
  pub is_elf : Bool
  pub is_class_32 : Bool
  pub phdrs : Option (List (Option Phdr))
  pub rawchunk : ℕ → ℕ → Option (List ℕ)

-- The file descriptors, the ELF descriptors and the buffers that are in use.
pub record Handles : Type 0 where
  pub fds : ℕ
  pub descriptors : ℕ
  pub buffers : ℕ

abbrev pub address_size : ℕ
address_size = 2 ^ 64

unfoldable pub is_loaded : Phdr → Bool
is_loaded p = p.p_type == 1 && not (p.p_filesz == 0)

-- `low`, `high` and `any` of the first loop.
pub record Extent : Type 0 where
  pub low : ℕ
  pub high : ℕ
  pub any : Bool

abbrev pub no_extent : Extent
no_extent = record { low = 2 ^ 64 - 1; high = 0; any = false }

unfoldable pub extend : Phdr → Extent → Extent
extend p e =
    let end = (p.p_paddr + p.p_filesz) % address_size in
    if is_loaded p
    then record {
      low = if not e.any || ltb p.p_paddr e.low then p.p_paddr else e.low;
      high = if not e.any || ltb e.high end then end else e.high;
      any = true;
    }
    else e

-- The first loop, which a header that cannot be read ends.
unfoldable pub scan : List (Option Phdr) → Extent → Option Extent
scan [] e = some e
scan (none ∷ rest) e = none
scan (some p ∷ rest) e = scan rest (extend p e)

-- `memcpy` into the buffer, whose bytes are not initialised at first.
unfoldable pub memcpy : ℕ → List ℕ → List (Option ℕ) → Outcome (List (Option ℕ))
memcpy offset [] buf = done buf
memcpy offset (b ∷ bytes) [] = fault
memcpy zero (b ∷ bytes) (c ∷ buf) =
    memcpy zero bytes buf >>= (λ (later : List (Option ℕ)). done (some b ∷ later))
memcpy (suc offset) (b ∷ bytes) (c ∷ buf) =
    memcpy offset (b ∷ bytes) buf >>= (λ (later : List (Option ℕ)). done (c ∷ later))

-- The buffer after a segment, or `none` where its bytes cannot be read.
unfoldable pub copy_chunk :
    ℕ → Option (List ℕ) → List (Option ℕ) → Outcome (Option (List (Option ℕ)))
copy_chunk offset none buf = done none
copy_chunk offset (some chunk) buf =
    memcpy offset chunk buf >>= (λ (after : List (Option ℕ)). done (some after))

unfoldable pub copy_segment :
    ElfFile → ℕ → Phdr → List (Option ℕ) → Outcome (Option (List (Option ℕ)))
copy_segment f low p buf =
    if is_loaded p
    then copy_chunk ((p.p_paddr + address_size - low) % address_size)
        (f.rawchunk p.p_offset p.p_filesz) buf
    else done (some buf)

abbrev Buffered : Type 0
Buffered = Outcome (Option (List (Option ℕ)))

-- What follows on a segment, unless its bytes could not be read.
abbrev and_then : (List (Option ℕ) → Buffered) → Option (List (Option ℕ)) → Buffered
and_then next none = done none
and_then next (some buf) = next buf

-- The second loop: a header that cannot be read leaves `phdr` as it was.
unfoldable pub copy_segments : ElfFile → ℕ → Phdr → List (Option Phdr) → List (Option ℕ) → Buffered
copy_segments f low phdr [] buf = done (some buf)
copy_segments f low phdr (none ∷ rest) buf =
    copy_segment f low phdr buf >>= and_then (copy_segments f low phdr rest)
copy_segments f low phdr (some p ∷ rest) buf =
    copy_segment f low p buf >>= and_then (copy_segments f low p rest)

-- The result: `none` in `image` is `false`.
pub record ElfResult : Type 0 where
  pub handles : Handles
  pub image : Option (List (Option ℕ))

abbrev pub open_fd : Handles → Handles
open_fd h = record h { fds = suc h.fds }

abbrev close_fd : Handles → Handles
close_fd h = record h { fds = h.fds - 1 }

abbrev pub elf_begin : Handles → Handles
elf_begin h = record h { descriptors = suc h.descriptors }

abbrev elf_end : Handles → Handles
elf_end h = record h { descriptors = h.descriptors - 1 }

abbrev pub malloc : Handles → Handles
malloc h = record h { buffers = suc h.buffers }

abbrev pub free : Handles → Handles
free h = record h { buffers = h.buffers - 1 }

-- From the label `return_elf_end` on.
abbrev return_elf_end : Handles → Option (List (Option ℕ)) → ElfResult
return_elf_end h image = record { handles = close_fd (elf_end h); image = image }

abbrev pub no_phdr : Phdr
no_phdr = record { p_type = 0; p_offset = 0; p_paddr = 0; p_filesz = 0 }

unfoldable pub end_copy : Handles → Option (List (Option ℕ)) → Outcome ElfResult
end_copy h none = done (return_elf_end (free h) none)
end_copy h (some buf) = done (return_elf_end h (some buf))

unfoldable pub len_bytes : Extent → ℕ
len_bytes e = (e.high + address_size - e.low) % address_size

unfoldable pub build_image :
    ElfFile → Handles → List (Option Phdr) → Option Extent → Outcome ElfResult
build_image f h phdrs none = done (return_elf_end h none)
build_image f h phdrs (some e) =
    copy_segments f e.low no_phdr phdrs (replicate (len_bytes e) none) >>= end_copy (malloc h)

unfoldable pub load_phdrs : ElfFile → Handles → Option (List (Option Phdr)) → Outcome ElfResult
load_phdrs f h none = done (return_elf_end h none)
load_phdrs f h (some phdrs) = build_image f h phdrs (scan phdrs no_extent)

unfoldable pub elf_file_to_binary : ElfFile → Handles → Outcome ElfResult
elf_file_to_binary f h =
    let opened = open_fd h in
    let begun = elf_begin opened in
    if not f.version_known
    then done (record { handles = h; image = none })
    else if not f.opens
    then done (record { handles = h; image = none })
    else if not f.begins
    then done (record { handles = close_fd opened; image = none })
    else if not f.is_elf
    then done (return_elf_end begun none)
    else if not f.is_class_32
    then done (return_elf_end begun none)
    else load_phdrs f begun f.phdrs
