-- ===== src/Text.antt =====
-- Comparing and cutting texts, as `std::string` does it. A text is the list of its bytes.
use coco_ibex.Common.{
  ℕ, ◌≡◌, ◌≢◌, refl, arith, Bool, true, false, ◌&&◌, ◌==◌, List, [], ◌∷◌, ◌++◌, Option, none, some,
  if◌then◌else◌, All,
}

-- `a.compare(b) == 0`.
unfoldable pub same_text : List ℕ → List ℕ → Bool
same_text [] [] = true
same_text [] (c ∷ t) = false
same_text (c ∷ s) [] = false
same_text (c ∷ s) (d ∷ t) = c == d && same_text s t

pub same_text_refl : (s : List ℕ) → same_text s s ≡ true
unfolding same_text
same_text_refl [] = refl
same_text_refl (c ∷ s) = ground (arith, same_text_refl s)

pub eq_of_same_text : (s t : List ℕ) → same_text s t ≡ true → s ≡ t
unfolding same_text
eq_of_same_text [] [] h = refl
eq_of_same_text [] (c ∷ t) h = ground arith
eq_of_same_text (c ∷ s) [] h = ground arith
eq_of_same_text (c ∷ s) (d ∷ t) h = ground (arith, eq_of_same_text s t)

-- A text before and behind a byte.
pub record Split : Type 0 where
  pub before : List ℕ
  pub after : List ℕ

abbrev push : ℕ → Option Split → Option Split
push c none = none
push c (some s) = some (record s { before = c ∷ s.before })

-- `find`: the first place of a byte.
unfoldable pub split_first : ℕ → List ℕ → Option Split
split_first sep [] = none
split_first sep (c ∷ s) =
    if c == sep then some (record { before = []; after = s }) else push c (split_first sep s)

-- `find_last_of`: the last one.
unfoldable pub split_last : ℕ → List ℕ → Option Split
split_last sep [] = none
split_last sep (c ∷ s) = elim (split_last sep s) [
  | some later ↦ some (record later { before = c ∷ later.before })
  | none ↦ if c == sep then some (record { before = []; after = s }) else none
]

abbrev pub Without : ℕ → List ℕ → Type 0
Without sep s = All (λ (c : ℕ). c ≢ sep) s

pub split_first-none : (sep : ℕ) (s : List ℕ) → Without sep s → split_first sep s ≡ none
unfolding split_first
split_first-none sep [] h = refl
split_first-none sep (c ∷ s) h = ground (arith, h.0, split_first-none sep s h.1)

pub split_first-append :
    (sep : ℕ) (s t : List ℕ)
    → Without sep s
    → split_first sep (s ++ sep ∷ t) ≡ some (record { before = s; after = t })
unfolding split_first
split_first-append sep [] t h = ground arith
split_first-append sep (c ∷ s) t h = ground (arith, h.0, split_first-append sep s t h.1)

pub split_last-none : (sep : ℕ) (s : List ℕ) → Without sep s → split_last sep s ≡ none
unfolding split_last
split_last-none sep [] h = refl
split_last-none sep (c ∷ s) h = ground (arith, h.0, split_last-none sep s h.1)

pub split_last-append :
    (sep : ℕ) (s t : List ℕ)
    → Without sep t
    → split_last sep (s ++ sep ∷ t) ≡ some (record { before = s; after = t })
unfolding split_last
split_last-append sep [] t h = ground (arith, split_last-none sep t h)
split_last-append sep (c ∷ s) t h = ground (arith, split_last-append sep s t h)
