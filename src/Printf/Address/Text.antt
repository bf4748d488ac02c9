-- ===== src/Printf/Address/Text.antt =====
-- The text of the two kinds of address: what stands in it, and how it is placed in the field.
use coco_ibex.Common.{
  ℕ, ◌/◌, ◌%◌, ◌<◌, ◌≡◌, refl, ◌∙◌, ap, Bool, true, false, List, [], ◌∷◌, ◌++◌, append-nil,
  append_assoc, arith, done, leb, ◌==◌, if◌then◌else◌, length, get_or, replicate, below,
  below_sound, ==_iff, Bool-cases, bit_and, inl, inr,
}
use coco_ibex.Common.Int.{ℤ}
use coco_ibex.Printf.Pad.{Flags, fill_loop-str, fill_loop-size, missing}
use coco_ibex.Printf.Number.{digits, digit_table}
use coco_ibex.Printf.Number.Digits.{digit_value, digit_value-table, IsNumeral, InBase}
use coco_ibex.Printf.Address.{justify, load, eaddr_loop, eaddr, octet, iaddr_loop, iaddr}

-- A text in a field: padded behind with LEFT, else before.
abbrev pub justified : Flags → ℤ → List ℕ → List ℕ
justified type size text =
    let n = missing (length text) size in
    if type.left then text ++ replicate n b' ' else replicate n b' ' ++ text

justify-eq :
    (str text : List ℕ) (size : ℤ) (type : Flags)
    → justify str text size type ≡ str ++ justified type size text
unfolding justify
justify-eq str text size type = elim (Bool-cases type.left) [
  | inl l ↦ simp (l, fill_loop-str, append_assoc)
  | inr r ↦ simp (r, fill_loop-str, fill_loop-size, append_assoc, append-nil)
]

-- The two hexadecimal digits of a byte.
abbrev hex_pair : Bool → ℕ → List ℕ
hex_pair uppercase b =
    get_or (digit_table uppercase) (b / 16) 0 ∷ get_or (digit_table uppercase) (b % 16) 0 ∷ []

nibble_holds : below (λ b. bit_and b 0x0f == b % 16) 256 ≡ true
unfolding below
nibble_holds = refl

low_nibble : (b : ℕ) → b < 256 → bit_and b 0x0f ≡ b % 16
low_nibble b h = (==_iff _ _).0 (below_sound _ 256 b h nibble_holds)

-- `eaddr` writes the six bytes as pairs of hexadecimal digits with colons between them (17 of the 24
-- bytes of `tmp`), justified in the field.
eaddr_lem :
    (str : List ℕ) (a b c d e f : ℕ) (size : ℤ) (type : Flags)
    → a < 256
    → b < 256
    → c < 256
    → d < 256
    → e < 256
    → f < 256
    → let p = hex_pair type.uppercase in
      eaddr str (a ∷ b ∷ c ∷ d ∷ e ∷ f ∷ []) size type
      ≡ done (
          str
          ++ justified type size
              (p a ++ (b':' ∷ p b) ++ (b':' ∷ p c) ++ (b':' ∷ p d) ++ (b':' ∷ p e) ++ (b':' ∷ p f)))
unfolding eaddr eaddr_loop load
eaddr_lem str a b c d e f size type ha hb hc hd he hf =
    rw
      (
        low_nibble a ha,
        low_nibble b hb,
        low_nibble c hc,
        low_nibble d hd,
        low_nibble e he,
        low_nibble f hf,
      )
      (ap done (justify-eq str _ size type))

octet-append : (n : ℕ) (tmp : List ℕ) → octet n tmp ≡ tmp ++ octet n []
unfolding octet
octet-append n tmp = elim (Bool-cases (n == 0)) [
  | inl z ↦ rw z
  | inr nz ↦ elim (Bool-cases (leb 100 n)) [
    | inl big ↦ simp (nz, big, append_assoc)
    | inr small ↦ elim (Bool-cases (leb 10 n)) [
      | inl two ↦ simp (nz, small, two, append_assoc)
      | inr one ↦ rw (nz, small, one)
    ]
  ]
]

digit_of : (k : ℕ) → k < 10 → digit_value (get_or digits k 0) ≡ k
digit_of k h = digit_value-table false k (omega arith)

digit-InBase : (k : ℕ) → k < 10 → InBase false 10 (get_or digits k 0)
digit-InBase k h = rw (digit_of k h) (h, refl)

-- A byte is written as its shortest decimal numeral.
octet-IsNumeral : (n : ℕ) → n < 256 → IsNumeral false 10 n (octet n [])
unfolding octet
octet-IsNumeral n h = elim (Bool-cases (n == 0)) [
  | inl z ↦ rw z (record {
    spells = ground arith;
    in_base = (digit-InBase 0 (omega arith), tt);
    shortest = omega arith;
  })
  | inr nz ↦ elim (Bool-cases (leb 100 n)) [
    | inl big ↦
        let a : n / 100 < 10 = omega arith in
        let b : n % 100 / 10 < 10 = omega arith in
        let c : n % 100 % 10 < 10 = omega arith in
        rw (nz, big)
          (record {
            spells = omega (arith, digit_of _ a, digit_of _ b, digit_of _ c);
            in_base = (digit-InBase _ a, (digit-InBase _ b, (digit-InBase _ c, tt)));
            shortest = ground arith;
          })
    | inr small ↦ elim (Bool-cases (leb 10 n)) [
      | inl two ↦
          let a : n / 10 < 10 = ground arith in
          let b : n % 10 < 10 = omega arith in
          rw (nz, small, two)
            (record {
              spells = omega (arith, digit_of _ a, digit_of _ b);
              in_base = (digit-InBase _ a, (digit-InBase _ b, tt));
              shortest = ground arith;
            })
      | inr one ↦
          let a : n < 10 = ground arith in
          rw (nz, small, one)
            (record {
              spells = omega (arith, digit_of n a);
              in_base = (digit-InBase n a, tt);
              shortest = ground arith;
            })
    ]
  ]
]

abbrev dot : List ℕ
dot = b'.' ∷ []

dotted :
    (a b c d : ℕ)
    → octet d (octet c (octet b (octet a [] ++ dot) ++ dot) ++ dot)
      ≡ octet a [] ++ (b'.' ∷ octet b []) ++ (b'.' ∷ octet c []) ++ (b'.' ∷ octet d [])
dotted a b c d =
    rw
      (
        octet-append d (octet c (octet b (octet a [] ++ dot) ++ dot) ++ dot),
        octet-append c (octet b (octet a [] ++ dot) ++ dot),
        octet-append b (octet a [] ++ dot),
      )
      (simp append_assoc)

-- `iaddr` writes the shortest decimal numerals of the four bytes with dots between them, justified in
-- the field.
iaddr_lem :
    (str : List ℕ) (a b c d : ℕ) (size : ℤ) (type : Flags)
    → a < 256
    → b < 256
    → c < 256
    → d < 256
    → (p q r s : List ℕ) × IsNumeral false 10 a p
      × IsNumeral false 10 b q
      × IsNumeral false 10 c r
      × IsNumeral false 10 d s
      × (iaddr str (a ∷ b ∷ c ∷ d ∷ []) size type
          ≡ done (str ++ justified type size (p ++ (b'.' ∷ q) ++ (b'.' ∷ r) ++ (b'.' ∷ s))))
unfolding iaddr iaddr_loop load
iaddr_lem str a b c d size type ha hb hc hd = (
  octet a [],
  octet b [],
  octet c [],
  octet d [],
  octet-IsNumeral a ha,
  octet-IsNumeral b hb,
  octet-IsNumeral c hc,
  octet-IsNumeral d hd,
  ap done (ap (λ t. justify str t size type) (dotted a b c d) ∙ justify-eq str _ size type),
)
