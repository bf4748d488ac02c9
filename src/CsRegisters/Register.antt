-- ===== src/CsRegisters/Register.antt =====
-- dv/cs_registers/model/base_register.cc: one register with its class, and the operations on it. An
-- operation gives the value read and the register after it.
use coco_ibex.Common.{
  ℕ, zero, suc, ◌+◌, ◌*◌, ◌/◌, ◌^◌, Bool, not, ◌||◌, List, [], ◌∷◌, ◌==◌, if◌then◌else◌, bit_and,
  bit_or,
}
use coco_ibex.CsRegisters.Word.{not32}

-- BaseRegister, PmpCfgRegister, PmpAddrRegister, NonImpRegister, and WARLRegister with its mask and
-- reset value.
pub data Class : Type 0 where
  base pmp_cfg pmp_addr non_imp : Class
  warl : ℕ → ℕ → Class

pub record Register : Type 0 where
  pub kind : Class
  pub address : ℕ
  pub value : ℕ

abbrev pub RegisterMap : Type 0
RegisterMap = List Register

unfoldable pub match_addr : Register → ℕ → Bool
match_addr r addr = addr == r.address

abbrev pub read_as : Class → ℕ → ℕ
read_as non_imp value = 0
read_as _ value = value

unfoldable pub register_read : Register → ℕ
register_read r = read_as r.kind r.value

unfoldable pub reset_value : Class → ℕ
reset_value (warl mask resval) = resval
reset_value _ = 0

unfoldable pub register_reset : Register → Register
register_reset r = record r { value = reset_value r.kind }

-- `PmpCfgRegister::GetLockMask`.
unfoldable pub cfg_lock_mask : ℕ → ℕ
cfg_lock_mask value =
    let m0 = if bit_and value 0x80 == 0 then 0 else bit_or 0 0xFF in
    let m1 = if bit_and value 0x8000 == 0 then m0 else bit_or m0 0xFF00 in
    let m2 = if bit_and value 0x80_0000 == 0 then m1 else bit_or m1 0xFF_0000 in
    if bit_and value 0x8000_0000 == 0 then m2 else bit_or m2 0xFF00_0000

-- The last register of the map at an address is the one whose value stays.
unfoldable pub find_value : RegisterMap → ℕ → ℕ → ℕ
find_value [] addr found = found
find_value (r ∷ map) addr found =
    find_value map addr (if match_addr r addr then register_read r else found)

-- `PmpAddrRegister::GetLockMask`, over the map that the register is part of.
unfoldable pub addr_lock_mask : RegisterMap → ℕ → ℕ
addr_lock_mask map address =
    let pmp_region = bit_and address 0xF in
    let pmp_cfg_addr = 0x3A0 + pmp_region / 4 in
    let pmp_cfg_plus1_addr = 0x3A0 + (pmp_region + 1) / 4 in
    let cfg_value = find_value map pmp_cfg_addr 0 / 2 ^ (bit_and pmp_region 0x3 * 8) in
    let cfg_plus1_value =
      find_value map pmp_cfg_plus1_addr 0 / 2 ^ (bit_and (pmp_region + 1) 0x3 * 8) in
    if not (bit_and cfg_value 0x80 == 0) || bit_and cfg_plus1_value 0x18 == 0x8
    then 0xFFFF_FFFF
    else 0

unfoldable pub lock_mask_of : RegisterMap → Class → ℕ → ℕ → ℕ
lock_mask_of map base address value = 0
lock_mask_of map pmp_cfg address value = cfg_lock_mask value
lock_mask_of map pmp_addr address value = addr_lock_mask map address
lock_mask_of map non_imp address value = 0
lock_mask_of map (warl mask resval) address value = mask

unfoldable pub get_lock_mask : RegisterMap → Register → ℕ
get_lock_mask map r = lock_mask_of map r.kind r.address r.value

-- The three ways to change a value under a lock mask.
unfoldable pub masked_write : ℕ → ℕ → ℕ → ℕ
masked_write lock_mask value newval =
    bit_or (bit_and value lock_mask) (bit_and newval (not32 lock_mask))

unfoldable pub masked_set : ℕ → ℕ → ℕ → ℕ
masked_set lock_mask value newval = bit_or value (bit_and newval (not32 lock_mask))

unfoldable pub masked_clear : ℕ → ℕ → ℕ → ℕ
masked_clear lock_mask value newval = bit_and value (bit_or (not32 newval) lock_mask)

-- One round of the reserved check: byte `i` with W = 1 and R = 0 loses both bits.
unfoldable pub clear_reserved : ℕ → ℕ → ℕ
clear_reserved i value =
    if bit_and (value / 2 ^ (8 * i)) 0x3 == 0x2
    then bit_and value (not32 (0x3 * 2 ^ (8 * i)))
    else value

-- The loop over the bytes, with `left` rounds to go.
unfoldable pub reserved_loop : ℕ → ℕ → ℕ → ℕ
reserved_loop zero i value = value
reserved_loop (suc left) i value = reserved_loop left (i + 1) (clear_reserved i value)

abbrev pub raz_mask : ℕ
raz_mask = 0x9F9F_9F9F

-- What the PMP configuration register makes of a value after the mask.
unfoldable pub legalize : ℕ → ℕ
legalize value = reserved_loop 4 0 (bit_and value raz_mask)

-- An operation on a register.
pub data Access : Type 0 where
  csr_read csr_write csr_set csr_clear : Access

-- What each class makes of a new value: `NonImpRegister` keeps the old one, `PmpCfgRegister`
-- applies its legality rules.
unfoldable pub settle : Class → ℕ → ℕ → ℕ
settle base old new = new
settle pmp_cfg old new = legalize new
settle pmp_addr old new = new
settle non_imp old new = old
settle (warl mask resval) old new = new

-- The value after `RegisterRead`, `RegisterWrite`, `RegisterSet` or `RegisterClear` of a class.
unfoldable pub updated : Access → RegisterMap → Register → ℕ → ℕ
updated csr_read map r newval = r.value
updated csr_write map r newval =
    settle r.kind r.value (masked_write (get_lock_mask map r) r.value newval)
updated csr_set map r newval =
    settle r.kind r.value (masked_set (get_lock_mask map r) r.value newval)
updated csr_clear map r newval =
    settle r.kind r.value (masked_clear (get_lock_mask map r) r.value newval)
