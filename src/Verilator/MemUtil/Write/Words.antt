-- ===== src/Verilator/MemUtil/Write/Words.antt =====
-- The words that the loop of `WriteElfToMem` stores.
use coco_ibex.Common.{
  ℕ, zero, suc, ◌+◌, ◌-◌, ◌*◌, ◌^◌, ◌≤◌, ◌<◌, ◌≡◌, refl, arith, true, false, ◌&&◌, ◌==◌, ltb, leb,
  List, [], ◌∷◌, Option, done, fault, if◌then◌else◌, dec_lt, ℕ_discrete, length, get_elem?, take,
  drop, ap, ◌∙◌,
}
use coco_ibex.Verilator.MemUtil.Write.{Dpi, World, write_words}

-- What the design promises of `simutil_verilator_set_mem`: inside the depth of a memory it succeeds,
-- and changes that word only.
pub record MemoryLaws {M : Type 0} (d : Dpi M) : Type 0 where
  pub depth : ℕ → ℕ
  pub read : ℕ → ℕ → M → List (Option ℕ)
  pub set_mem-ok :
      (scope i : ℕ) (word : List (Option ℕ)) (m : M)
      → i < depth scope
      → (d.set_mem scope i word m).ok ≡ true
  pub read-set_mem :
      (scope i j : ℕ) (word : List (Option ℕ)) (m : M)
      → i < depth scope
      → read scope j (d.set_mem scope i word m).memory ≡ (if i == j then word else read scope j m)

-- A word of an image.
unfoldable pub word_at : ℕ → ℕ → List (Option ℕ) → List (Option ℕ)
word_at size zero bytes = take size bytes
word_at size (suc k) bytes = word_at size k (drop size bytes)

get_elem?-take :
    (n k : ℕ) (bytes : List (Option ℕ)) → k < n → get_elem? (take n bytes) k ≡ get_elem? bytes k
get_elem?-take zero k bytes h = ground arith
get_elem?-take (suc n) k [] h = refl
get_elem?-take (suc n) zero (b ∷ bytes) h = refl
get_elem?-take (suc n) (suc k) (b ∷ bytes) h = get_elem?-take n k bytes (omega (arith, h))

suc_place : (n k : ℕ) → suc (n + k) ≡ suc n + k
suc_place n k = omega arith

zero_place : (size k : ℕ) → k ≡ 0 * size + k
zero_place size k = omega arith

next_place : (size j k : ℕ) → size + (j * size + k) ≡ suc j * size + k
next_place size j k = grind arith

get_elem?-drop :
    (n k : ℕ) (bytes : List (Option ℕ)) → get_elem? (drop n bytes) k ≡ get_elem? bytes (n + k)
get_elem?-drop zero k bytes = ground arith
get_elem?-drop (suc n) k [] = refl
get_elem?-drop (suc n) k (b ∷ bytes) =
    get_elem?-drop n k bytes ∙ ap (get_elem? (b ∷ bytes)) (suc_place n k)

pub get_elem?-word_at :
    (size j k : ℕ) (bytes : List (Option ℕ))
    → k < size
    → get_elem? (word_at size j bytes) k ≡ get_elem? bytes (j * size + k)
unfolding word_at
get_elem?-word_at size zero k bytes h =
    get_elem?-take size k bytes h ∙ ap (get_elem? bytes) (zero_place size k)
get_elem?-word_at size (suc j) k bytes h =
    get_elem?-word_at size j k (drop size bytes) h
    ∙ get_elem?-drop size (j * size + k) bytes
    ∙ ap (get_elem? bytes) (next_place size j k)

length-drop : (n : ℕ) (bytes : List (Option ℕ)) → length (drop n bytes) ≡ length bytes - n
length-drop zero bytes = omega arith
length-drop (suc n) [] = omega arith
length-drop (suc n) (b ∷ bytes) = length-drop n bytes ∙ omega arith

first_and_later :
    (size rounds i j : ℕ) (bytes old : List (Option ℕ))
    → (if leb (suc i) j && ltb j (suc i + rounds)
        then word_at size (j - suc i) (drop size bytes)
        else if i == j
        then take size bytes
        else old)
      ≡ (if leb i j && ltb j (i + suc rounds) then word_at size (j - i) bytes else old)
unfolding word_at
first_and_later size rounds i j bytes old = elim (dec_lt i j) [
  | yes later ↦
      let steps : j - i ≡ suc (j - suc i) = omega (arith, later) in rw steps (ground (arith, later))
  | no not_later ↦ elim (ℕ_discrete i j) [
    | yes same ↦ let steps : j - i ≡ 0 = omega (arith, same) in rw steps (ground (arith, same))
    | no before ↦ ground (arith, not_later, before)
  ]
]

module _ {M : Type 0} (d : Dpi M) (laws : MemoryLaws d) where
  -- Whole words are stored one after the other, and no other word changes.
  pub write_words_lem :
      (size rounds i j : ℕ) (bytes : List (Option ℕ)) (w : World M)
      → length bytes ≡ rounds * size
      → i + rounds ≤ laws.depth w.scope
      → i + rounds < 2 ^ 31
      → (m : M) × (write_words d size rounds i bytes w
          ≡ done (record { world = record w { memory = m }; ok = true }))
        × (laws.read w.scope j m ≡ (
            if leb i j && ltb j (i + rounds)
            then word_at size (j - i) bytes
            else laws.read w.scope j w.memory))
  unfolding write_words word_at
  write_words_lem size zero i j bytes w size_eq room fits = (w.memory, refl, ground arith)
  write_words_lem size (suc rounds) i j bytes w size_eq room fits =
      let stored = d.set_mem w.scope i (take size bytes) w.memory in
      let after : World M = record w { memory = stored.memory } in
      let rest = drop size bytes in
      let later =
        write_words_lem size rounds (suc i) j rest after
          (length-drop size bytes ∙ omega (arith, size_eq)) (omega (arith, room))
          (omega (arith, fits)) in
      let ok = laws.set_mem-ok w.scope i (take size bytes) w.memory (omega (arith, room)) in
      let long : ltb (length bytes) size ≡ false = ground (arith, size_eq) in
      let next : (suc i == 2 ^ 31) ≡ false = ground (arith, fits) in
      (
        later.0,
        rw (long, ok, next) later.1,
        later.2
            ∙ ap
                (λ (old : List (Option ℕ)).
                  if leb (suc i) j && ltb j (suc i + rounds)
                  then word_at size (j - suc i) rest
                  else old)
                (laws.read-set_mem w.scope i j (take size bytes) w.memory (omega (arith, room)))
            ∙ first_and_later size rounds i j bytes (laws.read w.scope j w.memory),
      )

  -- A last word of which only some bytes are in the image is read over its end.
  pub write_words-behind :
      (size rounds extra i : ℕ) (bytes : List (Option ℕ)) (w : World M)
      → length bytes ≡ rounds * size + extra
      → 0 < extra
      → extra < size
      → i + rounds ≤ laws.depth w.scope
      → i + rounds < 2 ^ 31
      → write_words d size (suc rounds) i bytes w ≡ fault
  unfolding write_words
  write_words-behind size zero extra i bytes w size_eq some_left short room fits =
      ground (arith, size_eq, short)
  write_words-behind size (suc rounds) extra i bytes w size_eq some_left short room fits =
      let stored = d.set_mem w.scope i (take size bytes) w.memory in
      let after : World M = record w { memory = stored.memory } in
      let later =
        write_words-behind size rounds extra (suc i) (drop size bytes) after
          (length-drop size bytes ∙ omega (arith, size_eq)) some_left short (omega (arith, room))
          (omega (arith, fits)) in
      let ok = laws.set_mem-ok w.scope i (take size bytes) w.memory (omega (arith, room)) in
      let long : ltb (length bytes) size ≡ false = ground (arith, size_eq) in
      let next : (suc i == 2 ^ 31) ≡ false = ground (arith, fits) in rw (long, ok, next) later
