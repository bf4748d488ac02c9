-- ===== src/CsRegisters/LockMask.antt =====
-- The lock mask of a PMP configuration register (`PmpCfgRegister::GetLockMask` in
-- dv/cs_registers/model/base_register.cc), bit by bit: bit 7 of a byte locks the byte.
use native.Mathlib.Nat.{pow-suc}
use coco_ibex.Common.{
  ℕ, zero, suc, ◌+◌, ◌*◌, ◌/◌, ◌%◌, ◌^◌, ◌<◌, ◌≤◌, ◌≡◌, refl, sym, ◌∙◌, arith, bit_and, bit_or,
  if◌then◌else◌, ◌==◌, ◌&&◌, Bool, true, below, below_sound, ltb,
}
use coco_ibex.Common.Bits.{bit, bit-le-one, bit_and-two_pow}
use coco_ibex.CsRegisters.Word.{u32_mod}
use coco_ibex.CsRegisters.Register.{cfg_lock_mask}

-- The mask from the four lock bits.
unfoldable mask_from : ℕ → ℕ → ℕ → ℕ → ℕ
mask_from a b c d =
    let m0 = if a == 0 then 0 else bit_or 0 0xFF in
    let m1 = if b == 0 then m0 else bit_or m0 0xFF00 in
    let m2 = if c == 0 then m1 else bit_or m1 0xFF_0000 in
    if d == 0 then m2 else bit_or m2 0xFF00_0000

-- The lock bit of byte `k` of four.
abbrev pick : ℕ → ℕ → ℕ → ℕ → ℕ → ℕ
pick zero a b c d = a
pick (suc zero) a b c d = b
pick (suc (suc zero)) a b c d = c
pick _ a b c d = d

scaled_zero : (b p : ℕ) → b ≤ 1 → 0 < p → (b * p == 0) ≡ (b == 0)
scaled_zero zero p h hp = ground arith
scaled_zero (suc zero) p h hp = ground arith
scaled_zero (suc (suc b)) p h hp = absurd (omega arith)

two_pow-pos : (k : ℕ) → 0 < 2 ^ k
two_pow-pos zero = omega arith
two_pow-pos (suc k) = omega (arith, pow-suc 2 k, two_pow-pos k)

test_zero : (value k : ℕ) → (bit_and value (2 ^ k) == 0) ≡ (bit value k == 0)
test_zero value k =
    rw (bit_and-two_pow value k)
      (scaled_zero (bit value k) (2 ^ k) (bit-le-one value k) (two_pow-pos k))

cfg_lock_mask-from :
    (value : ℕ)
    → cfg_lock_mask value ≡ mask_from (bit value 7) (bit value 15) (bit value 23) (bit value 31)
unfolding cfg_lock_mask mask_from
cfg_lock_mask-from value =
    rw
      (
        sym (test_zero value 7),
        sym (test_zero value 15),
        sym (test_zero value 23),
        sym (test_zero value 31),
      )
      refl

unfoldable agrees : ℕ → ℕ → ℕ → ℕ → ℕ → Bool
agrees a b c d i =
    ltb (mask_from a b c d) u32_mod && bit (mask_from a b c d) i == pick (i / 8) a b c d

abbrev entry : ℕ → Bool
entry n = agrees (n % 2) (n / 2 % 2) (n / 4 % 2) (n / 8 % 2) (n / 16)

table : below entry 512 ≡ true
unfolding below agrees mask_from bit
table = refl

module _ (a b c d i : ℕ) (ha : a ≤ 1) (hb : b ≤ 1) (hc : c ≤ 1) (hd : d ≤ 1) (hi : i < 32) where
  agrees-all : agrees a b c d i ≡ true
  agrees-all =
      let n = a + 2 * b + 4 * c + 8 * d + 16 * i in
      let found : agrees (n % 2) (n / 2 % 2) (n / 4 % 2) (n / 8 % 2) (n / 16) ≡ true =
        below_sound entry 512 n (omega arith) table in
      let ea : n % 2 ≡ a = omega arith in
      let eb : n / 2 % 2 ≡ b = omega arith in
      let ec : n / 4 % 2 ≡ c = omega arith in
      let ed : n / 8 % 2 ≡ d = omega arith in let ei : n / 16 ≡ i = omega arith in cc

  mask_from-bit : bit (mask_from a b c d) i ≡ pick (i / 8) a b c d
  unfolding agrees
  mask_from-bit = ground (arith, agrees-all)

  mask_from-lt : mask_from a b c d < u32_mod
  unfolding agrees
  mask_from-lt = ground (arith, agrees-all)

pick-bit :
    (value q : ℕ)
    → q < 4
    → pick q (bit value 7) (bit value 15) (bit value 23) (bit value 31) ≡ bit value (8 * q + 7)
pick-bit value zero h = refl
pick-bit value (suc zero) h = refl
pick-bit value (suc (suc zero)) h = refl
pick-bit value (suc (suc (suc zero))) h = refl
pick-bit value (suc (suc (suc (suc q)))) h = absurd (omega arith)

-- The mask has a bit exactly where the top bit of the byte is set.
pub cfg_lock_mask-bit :
    (value i : ℕ) → i < 32 → bit (cfg_lock_mask value) i ≡ bit value (8 * (i / 8) + 7)
cfg_lock_mask-bit value i h = rw (cfg_lock_mask-from value) (
    mask_from-bit (bit value 7) (bit value 15) (bit value 23) (bit value 31) i (bit-le-one value 7)
      (bit-le-one value 15) (bit-le-one value 23) (bit-le-one value 31) h
    ∙ pick-bit value (i / 8) (omega arith))

pub cfg_lock_mask-lt : (value : ℕ) → cfg_lock_mask value < u32_mod
cfg_lock_mask-lt value = rw (cfg_lock_mask-from value) (
    mask_from-lt (bit value 7) (bit value 15) (bit value 23) (bit value 31) 0 (bit-le-one value 7)
      (bit-le-one value 15) (bit-le-one value 23) (bit-le-one value 31) (omega arith))
