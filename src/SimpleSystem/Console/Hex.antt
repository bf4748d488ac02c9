-- ===== src/SimpleSystem/Console/Hex.antt =====
-- `puts` and `puthex` against the bytes that they put on the console.
use coco_ibex.Common.{
  ℕ, zero, suc, ◌+◌, ◌-◌, ◌*◌, ◌/◌, ◌%◌, ◌^◌, ◌≤◌, ◌<◌, ◌≡◌, ◌⊎◌, refl, ◌∙◌, ap, sym, List, [], ◌∷◌,
  ◌++◌, append_assoc, append-nil, arith, ltb, if◌then◌else◌, length, All,
}
use coco_ibex.Printf.Number.Digits.{value, digit_value}
use coco_ibex.SimpleSystem.Console.{
  Trace, dev_write, putchar, puts, puthex, puthex_loop, sim_ctrl_base, sim_ctrl_out,
}

-- The stores that print a text: one word to the output register for each byte, in order.
abbrev console : List ℕ → Trace
console [] = []
console (c ∷ s) = record { addr = sim_ctrl_base + sim_ctrl_out; val = c % 2 ^ 8 } ∷ console s

putchar-append : (c : ℕ) (t : Trace) → putchar c t ≡ t ++ console (c ∷ [])
unfolding putchar dev_write
putchar-append c t = let e : c % 2 ^ 8 % 2 ^ 32 ≡ c % 2 ^ 8 = omega arith in rw e

-- `puts` appends exactly the stores of its text to what was written before.
puts-append : (s : List ℕ) (t : Trace) → puts s t ≡ t ++ console s
unfolding puts
puts-append [] t = sym (append-nil t)
puts-append (c ∷ s) t =
    puts-append s (putchar c t)
    ∙ ap (λ u. u ++ console s) (putchar-append c t)
    ∙ append_assoc t (console (c ∷ [])) (console s)

abbrev hex_char : ℕ → ℕ
hex_char d = if ltb d 10 then b'0' + d else b'A' - 10 + d

-- The digits that the loop prints from the top of `h`.
top_digits : ℕ → ℕ → List ℕ
top_digits zero h = []
top_digits (suc left) h = hex_char (h / 2 ^ 28) ∷ top_digits left (h * 2 ^ 4 % 2 ^ 32)

puthex_loop-puts : (left h : ℕ) (t : Trace) → puthex_loop left h t ≡ puts (top_digits left h) t
unfolding puthex_loop top_digits puts
puthex_loop-puts zero h t = refl
puthex_loop-puts (suc left) h t = puthex_loop-puts left (h * 2 ^ 4 % 2 ^ 32) _

hex_char-value : (d : ℕ) → d < 16 → digit_value (hex_char d) ≡ d
hex_char-value d h = ground arith

abbrev pub IsHexDigit : ℕ → Type 0
IsHexDigit c = ((b'0' ≤ c) × (c ≤ b'9')) ⊎ ((b'A' ≤ c) × (c ≤ b'F'))

top_digits-hex : (left h : ℕ) → h < 2 ^ 32 → All IsHexDigit (top_digits left h)
unfolding top_digits
top_digits-hex zero h lt = tt
top_digits-hex (suc left) h lt =
    (ground arith, top_digits-hex left (h * 2 ^ 4 % 2 ^ 32) (omega arith))

length-top_digits : (left h : ℕ) → length (top_digits left h) ≡ left
unfolding top_digits
length-top_digits zero h = refl
length-top_digits (suc left) h = ap suc (length-top_digits left _)

abbrev next : ℕ → ℕ
next h = h * 2 ^ 4 % 2 ^ 32

-- One round moves the top digit out of the word.
next-top : (h : ℕ) → h < 2 ^ 32 → next h + h / 2 ^ 28 * 2 ^ 32 ≡ h * 16
next-top h lt = omega arith

top_digit : (h : ℕ) → h < 2 ^ 32 → digit_value (hex_char (h / 2 ^ 28)) ≡ h / 2 ^ 28
top_digit h lt = hex_char-value (h / 2 ^ 28) (omega arith)

-- Eight rounds, as equations between their numbers.
spelled :
    (h h1 h2 h3 h4 h5 h6 h7 h8 d0 d1 d2 d3 d4 d5 d6 d7 : ℕ)
    → h1 + d0 * 2 ^ 32 ≡ h * 16
    → h2 + d1 * 2 ^ 32 ≡ h1 * 16
    → h3 + d2 * 2 ^ 32 ≡ h2 * 16
    → h4 + d3 * 2 ^ 32 ≡ h3 * 16
    → h5 + d4 * 2 ^ 32 ≡ h4 * 16
    → h6 + d5 * 2 ^ 32 ≡ h5 * 16
    → h7 + d6 * 2 ^ 32 ≡ h6 * 16
    → h8 + d7 * 2 ^ 32 ≡ h7 * 16
    → h8 < 2 ^ 32
    → (((((((0 * 16 + d0) * 16 + d1) * 16 + d2) * 16 + d3) * 16 + d4) * 16 + d5) * 16 + d6) * 16
        + d7
      ≡ h
spelled h h1 h2 h3 h4 h5 h6 h7 h8 d0 d1 d2 d3 d4 d5 d6 d7 e0 e1 e2 e3 e4 e5 e6 e7 lt = omega arith

value-top_digits : (h : ℕ) → h < 2 ^ 32 → value 16 0 (top_digits 8 h) ≡ h
unfolding top_digits
value-top_digits h lt =
    let h1 = next h in
    let h2 = next h1 in
    let h3 = next h2 in
    let h4 = next h3 in
    let h5 = next h4 in
    let h6 = next h5 in
    let h7 = next h6 in
    let l1 : h1 < 2 ^ 32 = omega arith in
    let l2 : h2 < 2 ^ 32 = omega arith in
    let l3 : h3 < 2 ^ 32 = omega arith in
    let l4 : h4 < 2 ^ 32 = omega arith in
    let l5 : h5 < 2 ^ 32 = omega arith in
    let l6 : h6 < 2 ^ 32 = omega arith in
    let l7 : h7 < 2 ^ 32 = omega arith in
    rw
      (
        top_digit h lt,
        top_digit h1 l1,
        top_digit h2 l2,
        top_digit h3 l3,
        top_digit h4 l4,
        top_digit h5 l5,
        top_digit h6 l6,
        top_digit h7 l7,
      )
      (spelled h h1 h2 h3 h4 h5 h6 h7 (next h7) _ _ _ _ _ _ _ _ (next-top h lt) (next-top h1 l1)
        (next-top h2 l2) (next-top h3 l3) (next-top h4 l4) (next-top h5 l5) (next-top h6 l6)
        (next-top h7 l7) (omega arith))

-- `puthex` of a 32-bit word prints eight upper-case hexadecimal digits, and they spell the word.
pub puthex_lem :
    (h : ℕ) (t : Trace)
    → h < 2 ^ 32
    → (text : List ℕ) × (puthex h t ≡ puts text t)
      × (length text ≡ 8)
      × All IsHexDigit text
      × (value 16 0 text ≡ h)
unfolding puthex
puthex_lem h t lt = (
  top_digits 8 h,
  puthex_loop-puts 8 h t,
  length-top_digits 8 h,
  top_digits-hex 8 h lt,
  value-top_digits h lt,
)
