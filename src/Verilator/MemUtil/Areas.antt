-- ===== src/Verilator/MemUtil/Areas.antt =====
-- The registered memories: `RegisterMemoryArea` and the search in `mem_register_`, which is a list of
-- areas with distinct names.
mod Examples
use coco_ibex.Common.{
  ℕ, ◌≡◌, refl, arith, Bool, true, false, ◌||◌, ◌==◌, List, [], ◌∷◌, ◌++◌, Option, none, some,
  Outcome, done, fault, if◌then◌else◌, ◌⊎◌, inl, inr, Bool-cases, sym, ap, ◌∙◌,
}
use coco_ibex.Text.{same_text, same_text_refl, eq_of_same_text}

pub record MemArea : Type 0 where
  pub name : List ℕ
  pub location : List ℕ
  pub width_bit : ℕ

-- `mem_register_.find(name)`.
unfoldable pub find_area : List ℕ → List MemArea → Option MemArea
find_area name [] = none
find_area name (m ∷ rest) = if same_text m.name name then some m else find_area name rest

pub record Registered : Type 0 where
  pub areas : List MemArea
  pub success : Bool

-- `emplace`: an area of the same name stays.
unfoldable pub emplace : MemArea → Option MemArea → List MemArea → Registered
emplace mem none areas = record { areas = areas ++ mem ∷ []; success = true }
emplace mem (some old) areas = record { areas = areas; success = false }

-- The assertion on the width ends the program.
unfoldable pub register_memory_area : List ℕ → List ℕ → ℕ → List MemArea → Outcome Registered
register_memory_area name location width_bit areas =
    let mem : MemArea = record { name = name; location = location; width_bit = width_bit } in
    if width_bit == 32 || width_bit == 64
    then done (emplace mem (find_area name areas) areas)
    else fault

unfoldable pub register_default_width : List ℕ → List ℕ → List MemArea → Outcome Registered
register_default_width name location areas = register_memory_area name location 32 areas

abbrev or_else : Option MemArea → Option MemArea → Option MemArea
or_else (some m) other = some m
or_else none other = other

or_else-none : (o : Option MemArea) → or_else o none ≡ o
or_else-none none = refl
or_else-none (some m) = refl

find_area-append :
    (name : List ℕ) (areas : List MemArea) (mem : MemArea)
    → find_area name (areas ++ mem ∷ [])
      ≡ or_else (find_area name areas) (if same_text mem.name name then some mem else none)
unfolding find_area
find_area-append name [] mem = refl
find_area-append name (m ∷ areas) mem = ground (arith, find_area-append name areas mem)

abbrev is_none : Option MemArea → Bool
is_none none = true
is_none (some m) = false

-- What is found after a registration.
abbrev found_after : List ℕ → List MemArea → MemArea → Option MemArea
found_after other areas mem =
    or_else (find_area other areas) (if same_text mem.name other then some mem else none)

find_area-emplace :
    (mem : MemArea) (areas : List MemArea) (o : Option MemArea)
    → find_area mem.name areas ≡ o
    → (other : List ℕ) → find_area other (emplace mem o areas).areas ≡ found_after other areas mem
unfolding emplace
find_area-emplace mem areas none e other = find_area-append other areas mem
find_area-emplace mem areas (some m) e other = elim (Bool-cases (same_text mem.name other)) [
  | inl same ↦
      let found : find_area other areas ≡ some m =
        ap (λ (n : List ℕ). find_area n areas) (sym (eq_of_same_text mem.name other same)) ∙ e in
      found
      ∙ ap (λ (o : Option MemArea). or_else o (if same_text mem.name other then some mem else none))
          (sym found)
  | inr differs ↦ sym (or_else-none (find_area other areas)) ∙ rw differs refl
]

emplace-success :
    (mem : MemArea) (areas : List MemArea) (o : Option MemArea)
    → (emplace mem o areas).success ≡ is_none o
unfolding emplace
emplace-success mem areas none = refl
emplace-success mem areas (some m) = refl

-- `RegisterMemoryArea` with a width of 32 or 64 bits succeeds exactly on a new name. Whatever is looked
-- up afterwards, an area that was found before is found still, and the new one under its own name only.
register_memory_area_lem :
    (name location other : List ℕ) (width_bit : ℕ) (areas : List MemArea)
    → (width_bit ≡ 32) ⊎ (width_bit ≡ 64)
    → (out : Registered) × (register_memory_area name location width_bit areas ≡ done out)
      × (out.success ≡ is_none (find_area name areas))
      × (find_area other out.areas
          ≡ found_after other areas
              (record { name = name; location = location; width_bit = width_bit }))
unfolding register_memory_area
register_memory_area_lem name location other width_bit areas w =
    let mem : MemArea = record { name = name; location = location; width_bit = width_bit } in
    let o = find_area name areas in
    let fits : (width_bit == 32 || width_bit == 64) ≡ true = ground arith in
    (
      emplace mem o areas,
      rw fits refl,
      emplace-success mem areas o,
      find_area-emplace mem areas o refl other,
    )
