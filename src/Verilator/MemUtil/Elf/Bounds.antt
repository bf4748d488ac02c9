-- ===== src/Verilator/MemUtil/Elf/Bounds.antt =====
-- The addresses that the first loop finds.
use coco_ibex.Common.{
  ℕ, ◌+◌, ◌^◌, ◌≤◌, ◌<◌, ◌≡◌, refl, arith, Bool, true, false, ◌||◌, ◌∙◌, List, [], ◌∷◌, Option,
  some, All, Bool-cases, inl, inr,
}
use coco_ibex.Verilator.MemUtil.Elf.{Phdr, Extent, is_loaded, extend, scan}

-- Headers that can all be read.
unfoldable pub readable : List Phdr → List (Option Phdr)
readable [] = []
readable (p ∷ rest) = some p ∷ readable rest

unfoldable pub extent_of : List Phdr → Extent → Extent
extent_of [] e = e
extent_of (p ∷ rest) e = extent_of rest (extend p e)

pub scan-readable : (ps : List Phdr) (e : Extent) → scan (readable ps) e ≡ some (extent_of ps e)
unfolding scan readable extent_of
scan-readable [] e = refl
scan-readable (p ∷ ps) e = scan-readable ps (extend p e)

-- A segment that ends within the 64-bit addresses.
abbrev pub EndsInside : Phdr → Type 0
EndsInside p = p.p_paddr + p.p_filesz < 2 ^ 64

-- A loaded segment between two addresses; any other segment is.
abbrev pub Between : ℕ → ℕ → Phdr → Type 0
Between low high p = is_loaded p ≡ true → (low ≤ p.p_paddr) × (p.p_paddr + p.p_filesz ≤ high)

-- The extent only grows.
abbrev Grown : Extent → Extent → Type 0
Grown e later = (later.any ≡ true) × (later.low ≤ e.low) × (e.high ≤ later.high)

extent_of-Grown : (ps : List Phdr) (e : Extent) → e.any ≡ true → Grown e (extent_of ps e)
unfolding extent_of extend
extent_of-Grown [] e h = (h, omega arith, omega arith)
extent_of-Grown (p ∷ ps) e h =
    let later = extent_of-Grown ps (extend p e) (ground (arith, h)) in
    (later.0, ground (arith, h, later.1), ground (arith, h, later.2))

extend-Between :
    (p : Phdr) (e : Extent)
    → EndsInside p
    → is_loaded p ≡ true
    → ((extend p e).any ≡ true)
      × ((extend p e).low ≤ p.p_paddr)
      × (p.p_paddr + p.p_filesz ≤ (extend p e).high)
unfolding extend
extend-Between p e inside loaded =
    (ground (arith, loaded), ground (arith, loaded), ground (arith, loaded, inside))

-- What is found lies around every loaded segment.
pub extent_of-Between :
    (ps : List Phdr) (e : Extent)
    → All EndsInside ps
    → All (Between (extent_of ps e).low (extent_of ps e).high) ps
unfolding extent_of
extent_of-Between [] e h = tt
extent_of-Between (p ∷ ps) e h = (
  λ loaded.
      let here = extend-Between p e h.0 loaded in
      let later = extent_of-Grown ps (extend p e) here.0 in
      (omega (arith, here.1, later.1), omega (arith, here.2, later.2)),
  extent_of-Between ps (extend p e) h.1,
)

-- It lies within any bounds around them.
abbrev Inside : ℕ → ℕ → Extent → Type 0
Inside low high e = e.any ≡ true → (low ≤ e.low) × (e.high ≤ high)

extend-Inside :
    (low high : ℕ) (p : Phdr) (e : Extent)
    → EndsInside p
    → Between low high p
    → Inside low high e
    → Inside low high (extend p e)
unfolding extend
extend-Inside low high p e inside b h any = elim (Bool-cases (is_loaded p)) [
  | inl loaded ↦
      let bounds = b loaded in
      elim (Bool-cases e.any) [
        | inl found ↦
            let old = h found in
            (
              ground (arith, loaded, found, bounds.0, old.0),
              ground (arith, loaded, found, bounds.1, old.1, inside),
            )
        | inr new ↦
            (ground (arith, loaded, new, bounds.0), ground (arith, loaded, new, bounds.1, inside))
      ]
  | inr skipped ↦
      let old = h (ground (arith, skipped, any)) in
      (ground (arith, skipped, old.0), ground (arith, skipped, old.1))
]

pub extent_of-Inside :
    (low high : ℕ) (ps : List Phdr) (e : Extent)
    → All EndsInside ps
    → All (Between low high) ps
    → Inside low high e
    → Inside low high (extent_of ps e)
unfolding extent_of
extent_of-Inside low high [] e inside b h = h
extent_of-Inside low high (p ∷ ps) e inside b h =
    extent_of-Inside low high ps (extend p e) inside.1 b.1
      (extend-Inside low high p e inside.0 b.0 h)

unfoldable pub any_loaded : List Phdr → Bool
any_loaded [] = false
any_loaded (p ∷ ps) = is_loaded p || any_loaded ps

pub extent_of-any : (ps : List Phdr) (e : Extent) → (extent_of ps e).any ≡ e.any || any_loaded ps
unfolding extent_of any_loaded extend
extent_of-any [] e = ground arith
extent_of-any (p ∷ ps) e = extent_of-any ps (extend p e) ∙ ground arith
