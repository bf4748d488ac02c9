-- ===== src/CsRegisters/Locked.antt =====
-- The bits that an operation on a register leaves, by its lock mask
-- (dv/cs_registers/model/base_register.cc).
use coco_ibex.Common.{
  ℕ, zero, suc, ◌+◌, ◌-◌, ◌*◌, ◌/◌, ◌%◌, ◌<◌, ◌≡◌, refl, sym, ap, ◌∙◌, arith, ℕ_discrete, Bool,
  true, false,
}
use coco_ibex.Common.Bits.{bit}
use coco_ibex.CsRegisters.Word.{u32_mod}
use coco_ibex.CsRegisters.Register.{
  Class, Register, RegisterMap, Access, base, pmp_cfg, pmp_addr, non_imp, warl, csr_read, csr_write,
  csr_set, csr_clear, updated, settle, get_lock_mask, lock_mask_of, addr_lock_mask, cfg_lock_mask,
  legalize, masked_write, masked_set, masked_clear,
}
use coco_ibex.CsRegisters.Masked.{
  next_bit, free_bit, masked_write-bit, masked_set-bit, masked_clear-bit,
}
use coco_ibex.CsRegisters.LockMask.{cfg_lock_mask-bit, cfg_lock_mask-lt}
use coco_ibex.CsRegisters.PmpCfg.{legal_bit, legalize-bit}
use coco_ibex.CsRegisters.Update.{Fits, LegalByte}

lock_mask_of-lt :
    (map : RegisterMap) (kind : Class) (address value : ℕ)
    → Fits kind value
    → lock_mask_of map kind address value < u32_mod
unfolding lock_mask_of addr_lock_mask Fits
lock_mask_of-lt map base address value h = omega arith
lock_mask_of-lt map pmp_cfg address value h = cfg_lock_mask-lt value
lock_mask_of-lt map pmp_addr address value h = ground arith
lock_mask_of-lt map non_imp address value h = omega arith
lock_mask_of-lt map (warl mask resval) address value h = h.1

-- What a new value under a lock mask has: a locked bit is the old one.
abbrev Respects : ℕ → ℕ → ℕ → Type 0
Respects lock old new = (i : ℕ) → i < 32 → bit lock i ≡ 1 → bit new i ≡ bit old i

legalize-locked :
    (old new i : ℕ)
    → Fits pmp_cfg old
    → Respects (cfg_lock_mask old) old new
    → i < 32
    → bit (cfg_lock_mask old) i ≡ 1
    → bit (legalize new) i ≡ bit old i
unfolding legal_bit Fits
legalize-locked old new i h kept lt locked =
    let q = i / 8 in
    let legal : LegalByte old q = h.1 q in
    let read : bit (legalize new) i ≡ legal_bit new i = legalize-bit new i lt in
    let here : bit new i ≡ bit old i = kept i lt locked in
    elim (ℕ_discrete (i % 8) 1) [
      | yes e ↦
          let top : 8 * ((i - 1) / 8) + 7 ≡ 8 * (i / 8) + 7 = omega arith in
          let below : bit (cfg_lock_mask old) (i - 1) ≡ 1 =
            cfg_lock_mask-bit old (i - 1) (omega arith)
            ∙ ap (λ (t : ℕ). bit old t) top
            ∙ sym (cfg_lock_mask-bit old i lt)
            ∙ locked in
          let under : bit new (i - 1) ≡ bit old (i - 1) = kept (i - 1) (omega arith) below in
          let at : bit old (8 * q + 1) ≡ bit old i = ap (λ (t : ℕ). bit old t) (omega arith) in
          let before : bit old (8 * q) ≡ bit old (i - 1) =
            ap (λ (t : ℕ). bit old t) (omega arith) in
          ground (arith, read, here, under, at, before, legal.writable_readable, e)
      | no n1 ↦ elim (ℕ_discrete (i % 8) 5) [
        | yes e ↦
            let at : bit old (8 * q + 5) ≡ bit old i = ap (λ (t : ℕ). bit old t) (omega arith) in
            ground (arith, read, at, legal.no_bit_5, e)
        | no n5 ↦ elim (ℕ_discrete (i % 8) 6) [
          | yes e ↦
              let at : bit old (8 * q + 6) ≡ bit old i = ap (λ (t : ℕ). bit old t) (omega arith) in
              ground (arith, read, at, legal.no_bit_6, e)
          | no n6 ↦ ground (arith, read, here, n1, n5, n6)
        ]
      ]
    ]

settle-locked :
    (map : RegisterMap) (kind : Class) (address old new i : ℕ)
    → Fits kind old
    → Respects (lock_mask_of map kind address old) old new
    → i < 32
    → bit (lock_mask_of map kind address old) i ≡ 1
    → bit (settle kind old new) i ≡ bit old i
unfolding settle lock_mask_of
settle-locked map base address old new i h kept lt locked = kept i lt locked
settle-locked map pmp_cfg address old new i h kept lt locked =
    legalize-locked old new i h kept lt locked
settle-locked map pmp_addr address old new i h kept lt locked = kept i lt locked
settle-locked map non_imp address old new i h kept lt locked = refl
settle-locked map (warl mask resval) address old new i h kept lt locked = kept i lt locked

locked_next : (op : Access) (l old new : ℕ) → l ≡ 1 → next_bit op l old new ≡ old
unfolding next_bit
locked_next op zero old new e = absurd (omega arith)
locked_next op (suc l) old new e = refl

read_next : (l old new : ℕ) → next_bit csr_read l old new ≡ old
unfolding next_bit free_bit
read_next zero old new = refl
read_next (suc l) old new = refl

-- On a register of any class, with a value that the class may hold and a 32-bit operand, no operation
-- changes a bit that the lock mask has. With a PMP configuration this holds although its legality rules
-- come after the mask.
pub updated-locked :
    (op : Access) (map : RegisterMap) (r : Register) (newval i : ℕ)
    → Fits r.kind r.value
    → newval < u32_mod
    → i < 32
    → bit (get_lock_mask map r) i ≡ 1
    → bit (updated op map r newval) i ≡ bit r.value i
unfolding updated get_lock_mask
updated-locked csr_read map r newval i h lt hi locked = refl
updated-locked csr_write map r newval i h lt hi locked =
    let lock = lock_mask_of map r.kind r.address r.value in
    let lock_lt = lock_mask_of-lt map r.kind r.address r.value h in
    settle-locked map r.kind r.address r.value (masked_write lock r.value newval) i h
      (λ j hj on.
        masked_write-bit lock r.value newval j lock_lt lt hj
        ∙ locked_next csr_write (bit lock j) (bit r.value j) (bit newval j) on)
      hi locked
updated-locked csr_set map r newval i h lt hi locked =
    let lock = lock_mask_of map r.kind r.address r.value in
    let lock_lt = lock_mask_of-lt map r.kind r.address r.value h in
    settle-locked map r.kind r.address r.value (masked_set lock r.value newval) i h
      (λ j hj on.
        masked_set-bit lock r.value newval j lock_lt lt hj
        ∙ locked_next csr_set (bit lock j) (bit r.value j) (bit newval j) on)
      hi locked
updated-locked csr_clear map r newval i h lt hi locked =
    let lock = lock_mask_of map r.kind r.address r.value in
    let lock_lt = lock_mask_of-lt map r.kind r.address r.value h in
    settle-locked map r.kind r.address r.value (masked_clear lock r.value newval) i h
      (λ j hj on.
        masked_clear-bit lock r.value newval j lock_lt lt hj
        ∙ locked_next csr_clear (bit lock j) (bit r.value j) (bit newval j) on)
      hi locked

-- The classes whose value after the mask is the one kept.
unfoldable pub is_plain : Class → Bool
is_plain base = true
is_plain pmp_cfg = false
is_plain pmp_addr = true
is_plain non_imp = false
is_plain (warl mask resval) = true

settle-plain : (kind : Class) (old new : ℕ) → is_plain kind ≡ true → settle kind old new ≡ new
unfolding settle is_plain
settle-plain base old new e = refl
settle-plain pmp_cfg old new e = ground arith
settle-plain pmp_addr old new e = refl
settle-plain non_imp old new e = ground arith
settle-plain (warl mask resval) old new e = refl

-- In a register of a plain class, with a value that the class may hold and a 32-bit operand, every bit is the old one where the lock mask has a one, and
-- elsewhere it is kept by a read, the bit of the operand after a write, one after a set of that bit,
-- and zero after a clear of it.
pub updated-bit :
    (op : Access) (map : RegisterMap) (r : Register) (newval i : ℕ)
    → is_plain r.kind ≡ true
    → Fits r.kind r.value
    → newval < u32_mod
    → i < 32
    → bit (updated op map r newval) i
      ≡ next_bit op (bit (get_lock_mask map r) i) (bit r.value i) (bit newval i)
unfolding updated get_lock_mask
updated-bit csr_read map r newval i p h lt hi =
    sym
      (read_next (bit (lock_mask_of map r.kind r.address r.value) i) (bit r.value i) (bit newval i))
updated-bit csr_write map r newval i p h lt hi =
    let lock = lock_mask_of map r.kind r.address r.value in
    let lock_lt = lock_mask_of-lt map r.kind r.address r.value h in
    rw (settle-plain r.kind r.value (masked_write lock r.value newval) p)
      (masked_write-bit lock r.value newval i lock_lt lt hi)
updated-bit csr_set map r newval i p h lt hi =
    let lock = lock_mask_of map r.kind r.address r.value in
    let lock_lt = lock_mask_of-lt map r.kind r.address r.value h in
    rw (settle-plain r.kind r.value (masked_set lock r.value newval) p)
      (masked_set-bit lock r.value newval i lock_lt lt hi)
updated-bit csr_clear map r newval i p h lt hi =
    let lock = lock_mask_of map r.kind r.address r.value in
    let lock_lt = lock_mask_of-lt map r.kind r.address r.value h in
    rw (settle-plain r.kind r.value (masked_clear lock r.value newval) p)
      (masked_clear-bit lock r.value newval i lock_lt lt hi)
