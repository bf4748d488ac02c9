-- ===== src/CsRegisters/Masked.antt =====
-- The bits of a value after a masked write, set or clear (`BaseRegister` in
-- dv/cs_registers/model/base_register.cc).
use coco_ibex.Common.{ℕ, zero, suc, ◌≤◌, ◌-◌, ◌<◌, ◌≡◌, arith, bit_and, bit_or, min, max}
use coco_ibex.Common.Bits.{bit, bit-le-one, bit-bit_and, bit-bit_or, bit_and-lt, bit_or-lt}
use coco_ibex.CsRegisters.Word.{u32_mod, not32, bit-not32}
use coco_ibex.CsRegisters.Register.{
  Access, csr_read, csr_write, csr_set, csr_clear, masked_write, masked_set, masked_clear,
}

-- An unlocked bit after an access: from the old bit and the bit of the operand.
unfoldable pub free_bit : Access → ℕ → ℕ → ℕ
free_bit csr_read old new = old
free_bit csr_write old new = new
free_bit csr_set old new = max old new
free_bit csr_clear old new = min old (1 - new)

-- A bit after an access, from its lock bit.
unfoldable pub next_bit : Access → ℕ → ℕ → ℕ → ℕ
next_bit op zero old new = free_bit op old new
next_bit op (suc lock) old new = old

write_bits :
    (l v n : ℕ) → l ≤ 1 → v ≤ 1 → n ≤ 1 → max (min v l) (min n (1 - l)) ≡ next_bit csr_write l v n
unfolding next_bit free_bit
write_bits zero v n hl hv hn = omega arith
write_bits (suc l) v n hl hv hn = omega arith

set_bits : (l v n : ℕ) → l ≤ 1 → v ≤ 1 → n ≤ 1 → max v (min n (1 - l)) ≡ next_bit csr_set l v n
unfolding next_bit free_bit
set_bits zero v n hl hv hn = omega arith
set_bits (suc l) v n hl hv hn = omega arith

clear_bits : (l v n : ℕ) → l ≤ 1 → v ≤ 1 → n ≤ 1 → min v (max (1 - n) l) ≡ next_bit csr_clear l v n
unfolding next_bit free_bit
clear_bits zero v n hl hv hn = omega arith
clear_bits (suc l) v n hl hv hn = omega arith

module _ (lock value new i : ℕ) (lock_lt : lock < u32_mod) (new_lt : new < u32_mod)
    (i_lt : i < 32) where
  pub masked_write-bit :
      bit (masked_write lock value new) i
      ≡ next_bit csr_write (bit lock i) (bit value i) (bit new i)
  unfolding masked_write
  masked_write-bit =
      rw
        (
          bit-bit_or (bit_and value lock) (bit_and new (not32 lock)) i,
          bit-bit_and value lock i,
          bit-bit_and new (not32 lock) i,
          bit-not32 lock i lock_lt i_lt,
        )
        (write_bits (bit lock i) (bit value i) (bit new i) (bit-le-one lock i) (bit-le-one value i)
          (bit-le-one new i))

  pub masked_set-bit :
      bit (masked_set lock value new) i ≡ next_bit csr_set (bit lock i) (bit value i) (bit new i)
  unfolding masked_set
  masked_set-bit =
      rw
        (
          bit-bit_or value (bit_and new (not32 lock)) i,
          bit-bit_and new (not32 lock) i,
          bit-not32 lock i lock_lt i_lt,
        )
        (set_bits (bit lock i) (bit value i) (bit new i) (bit-le-one lock i) (bit-le-one value i)
          (bit-le-one new i))

  pub masked_clear-bit :
      bit (masked_clear lock value new) i
      ≡ next_bit csr_clear (bit lock i) (bit value i) (bit new i)
  unfolding masked_clear
  masked_clear-bit =
      rw
        (
          bit-bit_and value (bit_or (not32 new) lock) i,
          bit-bit_or (not32 new) lock i,
          bit-not32 new i new_lt i_lt,
        )
        (clear_bits (bit lock i) (bit value i) (bit new i) (bit-le-one lock i) (bit-le-one value i)
          (bit-le-one new i))

module _ (lock value new : ℕ) (value_lt : value < u32_mod) (new_lt : new < u32_mod) where
  pub masked_write-lt : masked_write lock value new < u32_mod
  unfolding masked_write
  masked_write-lt =
      bit_or-lt 32 (bit_and value lock) (bit_and new (not32 lock))
        (bit_and-lt 32 value lock value_lt) (bit_and-lt 32 new (not32 lock) new_lt)

  pub masked_set-lt : masked_set lock value new < u32_mod
  unfolding masked_set
  masked_set-lt =
      bit_or-lt 32 value (bit_and new (not32 lock)) value_lt (bit_and-lt 32 new (not32 lock) new_lt)

  pub masked_clear-lt : masked_clear lock value new < u32_mod
  unfolding masked_clear
  masked_clear-lt = bit_and-lt 32 value (bit_or (not32 new) lock) value_lt
