-- ===== src/CsRegisters/PmpCfg.antt =====
-- The legality rules of a PMP configuration register (`PmpCfgRegister` in
-- dv/cs_registers/model/base_register.cc), bit by bit.
use coco_ibex.Common.{
  ℕ, zero, suc, ◌+◌, ◌-◌, ◌*◌, ◌/◌, ◌%◌, ◌^◌, ◌<◌, ◌≤◌, ◌≡◌, refl, ap, ap₂, ◌≢◌, ◌⊎◌, sym, ◌∙◌,
  arith, bit_and, min, if◌then◌else◌, ◌==◌, Bool, true, below, below_sound, ℕ_discrete,
}
use coco_ibex.Common.Bits.{bit, bit-le-one, bit-bit_and, bit_and-lt, bit_and-three}
use coco_ibex.CsRegisters.Word.{u32_mod, not32, bit-shift}
use coco_ibex.CsRegisters.Register.{clear_reserved, reserved_loop, raz_mask, legalize}

-- A bit of the mask that the reserved check applies.
unfoldable hole_bit : ℕ → ℕ → ℕ
hole_bit k i = if i / 2 == 4 * k then 0 else 1

unfoldable cleared : ℕ → ℕ → Bool
cleared k i = bit (not32 (0x3 * 2 ^ (8 * k))) i == hole_bit k i

abbrev cleared_entry : ℕ → Bool
cleared_entry n = cleared (n / 32) (n % 32)

cleared-all : below cleared_entry 128 ≡ true
unfolding below bit not32 cleared hole_bit
cleared-all = refl

cleared-holds : (k i : ℕ) → k < 4 → i < 32 → cleared k i ≡ true
cleared-holds k i hk hi =
    let n = 32 * k + i in
    let found : cleared (n / 32) (n % 32) ≡ true =
      below_sound cleared_entry 128 n (omega arith) cleared-all in
    let ek : n / 32 ≡ k = omega arith in let ei : n % 32 ≡ i = omega arith in cc

cleared-bit : (k i : ℕ) → k < 4 → i < 32 → bit (not32 (0x3 * 2 ^ (8 * k))) i ≡ hole_bit k i
unfolding cleared
cleared-bit k i hk hi = ground (arith, cleared-holds k i hk hi)

-- One round changes the W bit of its byte at most.
unfoldable round_bit : ℕ → ℕ → ℕ → ℕ
round_bit k value i = if i == 8 * k + 1 then min (bit value i) (bit value (8 * k)) else bit value i

module _ (k value : ℕ) where
  low_bits : bit_and (value / 2 ^ (8 * k)) 3 ≡ bit value (8 * k) + 2 * bit value (8 * k + 1)
  low_bits =
      let lo : bit (value / 2 ^ (8 * k)) 0 ≡ bit value (8 * k) =
        bit-shift (8 * k) value 0 ∙ ap (λ (t : ℕ). bit value t) (omega arith) in
      let hi : bit (value / 2 ^ (8 * k)) 1 ≡ bit value (8 * k + 1) = bit-shift (8 * k) value 1 in
      omega (arith, bit_and-three (value / 2 ^ (8 * k)))

  masked-bit :
      (i : ℕ)
      → k < 4
      → i < 32
      → bit (bit_and value (not32 (0x3 * 2 ^ (8 * k)))) i ≡ min (bit value i) (hole_bit k i)
  masked-bit i hk hi =
      rw (bit-bit_and value (not32 (0x3 * 2 ^ (8 * k))) i, cleared-bit k i hk hi) refl

  clear_reserved-bit :
      (i : ℕ) → k < 4 → i < 32 → bit (clear_reserved k value) i ≡ round_bit k value i
  unfolding clear_reserved round_bit hole_bit
  clear_reserved-bit i hk hi =
      let same : i ≡ 8 * k → bit value i ≡ bit value (8 * k) = ap (λ (t : ℕ). bit value t) in
      let next : i ≡ 8 * k + 1 → bit value i ≡ bit value (8 * k + 1) =
        ap (λ (t : ℕ). bit value t) in
      ground (
        arith,
        low_bits,
        masked-bit i hk hi,
        same,
        next,
        bit-le-one value i,
        bit-le-one value (8 * k),
        bit-le-one value (8 * k + 1),
      )

clear_reserved-lt : (k value : ℕ) → value < u32_mod → clear_reserved k value < u32_mod
unfolding clear_reserved
clear_reserved-lt k value h = ground (arith, bit_and-lt 32 value (not32 (0x3 * 2 ^ (8 * k))) h)

reserved_loop-lt : (left k value : ℕ) → value < u32_mod → reserved_loop left k value < u32_mod
unfolding reserved_loop
reserved_loop-lt zero k value h = h
reserved_loop-lt (suc left) k value h =
    reserved_loop-lt left (k + 1) (clear_reserved k value) (clear_reserved-lt k value h)

clear_reserved-other :
    (k value i : ℕ) → k < 4 → i < 32 → i ≢ 8 * k + 1 → bit (clear_reserved k value) i ≡ bit value i
unfolding round_bit
clear_reserved-other k value i hk hi ne = ground (arith, clear_reserved-bit k value i hk hi, ne)

clear_reserved-writable :
    (k value : ℕ)
    → k < 4
    → bit (clear_reserved k value) (8 * k + 1) ≡ min (bit value (8 * k + 1)) (bit value (8 * k))
unfolding round_bit
clear_reserved-writable k value hk =
    ground (arith, clear_reserved-bit k value (8 * k + 1) hk (omega arith))

-- The rounds leave every bit but the W bits of their bytes.
reserved_loop-other :
    (left k value i : ℕ)
    → k + left ≤ 4
    → i < 32
    → i % 8 ≢ 1
    → bit (reserved_loop left k value) i ≡ bit value i
unfolding reserved_loop
reserved_loop-other zero k value i h hi ne = refl
reserved_loop-other (suc left) k value i h hi ne =
    reserved_loop-other left (k + 1) (clear_reserved k value) i (omega arith) hi ne
    ∙ clear_reserved-other k value i (omega arith) hi (λ e. ne (omega arith))

reserved_loop-earlier :
    (left k value q : ℕ)
    → k + left ≤ 4
    → q < k
    → bit (reserved_loop left k value) (8 * q + 1) ≡ bit value (8 * q + 1)
unfolding reserved_loop
reserved_loop-earlier zero k value q h lt = refl
reserved_loop-earlier (suc left) k value q h lt =
    reserved_loop-earlier left (k + 1) (clear_reserved k value) q (omega arith) (omega arith)
    ∙ clear_reserved-other k value (8 * q + 1) (omega arith) (omega arith) (λ e. omega arith)

-- They limit the W bits by the R bits.
reserved_loop-writable :
    (left k value q : ℕ)
    → k + left ≤ 4
    → k ≤ q
    → q < k + left
    → bit (reserved_loop left k value) (8 * q + 1) ≡ min (bit value (8 * q + 1)) (bit value (8 * q))
unfolding reserved_loop
reserved_loop-writable zero k value q h le lt = absurd (omega arith)
reserved_loop-writable (suc left) k value q h le lt =
    let next = clear_reserved k value in
    elim (ℕ_discrete q k) [
      | yes e ↦
          let same : clear_reserved q value ≡ next = ap (λ (t : ℕ). clear_reserved t value) e in
          reserved_loop-earlier left (k + 1) next q (omega arith) (omega arith)
          ∙ ap (λ (t : ℕ). bit t (8 * q + 1)) (sym same)
          ∙ clear_reserved-writable q value (omega arith)
      | no ne ↦
          reserved_loop-writable left (k + 1) next q (omega arith) (omega arith) (omega arith)
          ∙ ap₂ (λ (a b : ℕ). min a b)
              (clear_reserved-other k value (8 * q + 1) (omega arith) (omega arith)
                (λ e. ne (omega arith)))
              (clear_reserved-other k value (8 * q) (omega arith) (omega arith) (λ e. omega arith))
    ]

-- Bits 5 and 6 of each byte read as zero.
abbrev raz_entry : ℕ → Bool
raz_entry i = bit raz_mask i == (if i % 8 == 5 then 0 else (if i % 8 == 6 then 0 else 1))

raz_mask-all : below raz_entry 32 ≡ true
unfolding below bit
raz_mask-all = refl

-- A bit of a legal value, from the value before.
unfoldable pub legal_bit : ℕ → ℕ → ℕ
legal_bit value i =
    if i % 8 == 1
    then min (bit value i) (bit value (i - 1))
    else (if i % 8 == 5 then 0 else (if i % 8 == 6 then 0 else bit value i))

raz-bit :
    (value i : ℕ) → i < 32 → i % 8 ≢ 5 → i % 8 ≢ 6 → bit (bit_and value raz_mask) i ≡ bit value i
raz-bit value i h n5 n6 = ground (
  arith,
  bit-bit_and value raz_mask i,
  below_sound raz_entry 32 i h raz_mask-all,
  bit-le-one value i,
)

raz-zero : (value i : ℕ) → i < 32 → (i % 8 ≡ 5) ⊎ (i % 8 ≡ 6) → bit (bit_and value raz_mask) i ≡ 0
raz-zero value i h e = ground (
  arith,
  bit-bit_and value raz_mask i,
  below_sound raz_entry 32 i h raz_mask-all,
  bit-le-one value i,
)

pub legalize-lt : (value : ℕ) → value < u32_mod → legalize value < u32_mod
unfolding legalize
legalize-lt value h = reserved_loop-lt 4 0 (bit_and value raz_mask) (bit_and-lt 32 value raz_mask h)

writable :
    (value q : ℕ)
    → q < 4
    → bit (legalize value) (8 * q + 1) ≡ min (bit value (8 * q + 1)) (bit value (8 * q))
unfolding legalize
writable value q h =
    let kept = bit_and value raz_mask in
    reserved_loop-writable 4 0 kept q (omega arith) (omega arith) (omega arith)
    ∙ ap₂ (λ (a b : ℕ). min a b)
        (raz-bit value (8 * q + 1) (omega arith) (λ e. omega arith) (λ e. omega arith))
        (raz-bit value (8 * q) (omega arith) (λ e. omega arith) (λ e. omega arith))

others :
    (value i : ℕ) → i < 32 → i % 8 ≢ 1 → bit (legalize value) i ≡ bit (bit_and value raz_mask) i
unfolding legalize
others value i h ne = reserved_loop-other 4 0 (bit_and value raz_mask) i (omega arith) h ne

-- The bits after the mask and the rounds.
pub legalize-bit : (value i : ℕ) → i < 32 → bit (legalize value) i ≡ legal_bit value i
unfolding legal_bit
legalize-bit value i h = elim (ℕ_discrete (i % 8) 1) [
  | yes e ↦
      let q = i / 8 in
      let at : i ≡ 8 * q + 1 = omega arith in
      let before : i - 1 ≡ 8 * q = omega arith in
      let read : min (bit value i) (bit value (i - 1)) ≡ legal_bit value i = ground arith in
      ap (λ (t : ℕ). bit (legalize value) t) at
      ∙ writable value q (omega arith)
      ∙ ap₂ (λ (s t : ℕ). min (bit value s) (bit value t)) (sym at) (sym before)
      ∙ read
  | no ne ↦ ground (arith, others value i h ne, raz-bit value i h, raz-zero value i h, ne)
]
