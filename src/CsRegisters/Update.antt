-- ===== src/CsRegisters/Update.antt =====
-- What the operations on a register keep: its range and the legality of a PMP
-- configuration (dv/cs_registers/model/base_register.cc).
use coco_ibex.Common.{ℕ, ◌+◌, ◌-◌, ◌*◌, ◌<◌, ◌≤◌, ◌≡◌, ap, arith, dec_lt}
use coco_ibex.Common.Bits.{bit, bit_high}
use coco_ibex.CsRegisters.Word.{u32_mod}
use coco_ibex.CsRegisters.Register.{
  Class, Register, RegisterMap, Access, base, pmp_cfg, pmp_addr, non_imp, warl, csr_read, csr_write,
  csr_set, csr_clear, updated, settle, get_lock_mask, legalize, masked_write, masked_set,
  masked_clear,
}
use coco_ibex.CsRegisters.Masked.{masked_write-lt, masked_set-lt, masked_clear-lt}
use coco_ibex.CsRegisters.PmpCfg.{legal_bit, legalize-bit, legalize-lt}

-- A legal PMP configuration: in each byte bits 5 and 6 are zero, and W implies R.
pub record LegalByte (value k : ℕ) : Type 0 where
  pub no_bit_5 : bit value (8 * k + 5) ≡ 0
  pub no_bit_6 : bit value (8 * k + 6) ≡ 0
  pub writable_readable : bit value (8 * k + 1) ≤ bit value (8 * k)

pub legalize-LegalByte : (value k : ℕ) → value < u32_mod → LegalByte (legalize value) k
unfolding legal_bit
legalize-LegalByte value k h = elim (dec_lt k 4) [
  | yes lt ↦
      let before : 8 * k + 1 - 1 ≡ 8 * k = omega arith in
      let same : bit value (8 * k + 1 - 1) ≡ bit value (8 * k) =
        ap (λ (t : ℕ). bit value t) before in
      record {
        no_bit_5 = ground (arith, legalize-bit value (8 * k + 5) (omega arith));
        no_bit_6 = ground (arith, legalize-bit value (8 * k + 6) (omega arith));
        writable_readable = ground (
          arith,
          legalize-bit value (8 * k + 1) (omega arith),
          legalize-bit value (8 * k) (omega arith),
          same,
        );
      }
  | no ge ↦
      let high : (i : ℕ) → 32 ≤ i → bit (legalize value) i ≡ 0 =
        λ i. bit_high 32 (legalize value) i (legalize-lt value h) in
      record {
        no_bit_5 = high (8 * k + 5) (omega arith);
        no_bit_6 = high (8 * k + 6) (omega arith);
        writable_readable = omega (arith, high (8 * k + 1) (omega arith));
      }
]

-- The values that a register of a class may hold, with the constants that the class may have.
unfoldable pub Fits : Class → ℕ → Type 0
Fits base value = value < u32_mod
Fits pmp_cfg value = (value < u32_mod) × ((k : ℕ) → LegalByte value k)
Fits pmp_addr value = value < u32_mod
Fits non_imp value = value < u32_mod
Fits (warl mask resval) value = (value < u32_mod) × (mask < u32_mod) × (resval < u32_mod)

Fits-lt : (kind : Class) (value : ℕ) → Fits kind value → value < u32_mod
unfolding Fits
Fits-lt base value h = h
Fits-lt pmp_cfg value h = h.0
Fits-lt pmp_addr value h = h
Fits-lt non_imp value h = h
Fits-lt (warl mask resval) value h = h.0

settle-Fits :
    (kind : Class) (old new : ℕ) → Fits kind old → new < u32_mod → Fits kind (settle kind old new)
unfolding settle Fits
settle-Fits base old new h lt = lt
settle-Fits pmp_cfg old new h lt = (legalize-lt new lt, λ k. legalize-LegalByte new k lt)
settle-Fits pmp_addr old new h lt = lt
settle-Fits non_imp old new h lt = h
settle-Fits (warl mask resval) old new h lt = (lt, h.1, h.2)

-- Every operation with a 32-bit operand, on a register of every class, keeps a value that the class may
-- hold within what it may hold. For
-- a PMP configuration this is the legality of each byte, whatever value is written.
pub updated-Fits :
    (op : Access) (map : RegisterMap) (r : Register) (newval : ℕ)
    → Fits r.kind r.value
    → newval < u32_mod
    → Fits r.kind (updated op map r newval)
unfolding updated
updated-Fits csr_read map r newval h lt = h
updated-Fits csr_write map r newval h lt =
    let lock = get_lock_mask map r in
    settle-Fits r.kind r.value (masked_write lock r.value newval) h
      (masked_write-lt lock r.value newval (Fits-lt r.kind r.value h) lt)
updated-Fits csr_set map r newval h lt =
    let lock = get_lock_mask map r in
    settle-Fits r.kind r.value (masked_set lock r.value newval) h
      (masked_set-lt lock r.value newval (Fits-lt r.kind r.value h) lt)
updated-Fits csr_clear map r newval h lt =
    let lock = get_lock_mask map r in
    settle-Fits r.kind r.value (masked_clear lock r.value newval) h
      (masked_clear-lt lock r.value newval (Fits-lt r.kind r.value h) lt)
