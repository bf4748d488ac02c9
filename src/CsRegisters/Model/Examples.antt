-- ===== src/CsRegisters/Model/Examples.antt =====
-- Concrete registers, transactions and runs for the theorems on the register model.
use coco_ibex.Common.{ℕ, true, false, [], ◌∷◌, ◌≡◌, ◌≢◌, ◌⊎◌, refl, arith, All}
use coco_ibex.Common.Bits.{bit}
use mathlib.Core.Path.{subst}
use coco_ibex.CsRegisters.Register.{
  csr_read, Register, base, pmp_cfg, pmp_addr, warl, csr_write, csr_clear, updated, get_lock_mask,
  register_read, cfg_lock_mask, legalize, reserved_loop, clear_reserved, lock_mask_of,
}
use coco_ibex.CsRegisters.Masked.{next_bit, free_bit}
use coco_ibex.CsRegisters.Update.{Fits, LegalByte, legalize-LegalByte}
use coco_ibex.CsRegisters.Locked.{updated-locked, updated-bit, is_plain}
use coco_ibex.CsRegisters.Model.{
  Handled, Params, Transaction, SimCtrl, new_transaction, register_model, model_reset,
}
use coco_ibex.CsRegisters.Model.Invariant.{RegisterFits, Reached-fits}
use coco_ibex.CsRegisters.Model.Match.{new_transaction-match}
use coco_ibex.CsRegisters.Model.Run.{Reached, constructed, after_reset, after_transaction}

-- A configuration register whose first region is locked, readable and executable.
abbrev locked_cfg : Register
locked_cfg = record { kind = pmp_cfg; address = 0x3A0; value = 0x85 }

abbrev first_addr : Register
first_addr = record { kind = pmp_addr; address = 0x3B0; value = 0x1234 }

abbrev cycle : Register
cycle = record { kind = base; address = 0xB00; value = 7 }

abbrev two_counters : Register
two_counters = record { kind = warl 0xFFFF_FFE2 0xFFFF_FFE0; address = 0x320; value = 0xFFFF_FFE0 }

abbrev write_addr : Transaction
write_addr = record {
  csr_op = csr_write;
  illegal_csr = false;
  csr_addr = 0x3B0;
  csr_rdata = 0x1234;
  csr_wdata = 0xFFFF;
}

abbrev running : SimCtrl
running = record { stop_requested = false; success = true }

locked_cfg_legal : legalize 0x85 ≡ 0x85
unfolding legalize reserved_loop clear_reserved
locked_cfg_legal = refl

locked_cfg-Fits : Fits pmp_cfg 0x85
unfolding Fits
locked_cfg-Fits = (
  omega arith,
  λ k. subst (λ (v : ℕ). LegalByte v k) locked_cfg_legal (legalize-LegalByte 0x85 k (omega arith)),
)

two_counters-Fits : Fits (warl 0xFFFF_FFE2 0xFFFF_FFE0) 0xFFFF_FFE0
unfolding Fits
two_counters-Fits = (omega arith, omega arith, omega arith)

locked_bit : bit (get_lock_mask (locked_cfg ∷ first_addr ∷ []) locked_cfg) 2 ≡ 1
unfolding get_lock_mask lock_mask_of cfg_lock_mask bit
locked_bit = refl

plain : is_plain two_counters.kind ≡ true
unfolding is_plain
plain = refl

updated-locked_example :
    bit (updated csr_clear (locked_cfg ∷ first_addr ∷ []) locked_cfg 0xFFFF_FFFF) 2 ≡ 1
unfolding bit
updated-locked_example =
    updated-locked csr_clear (locked_cfg ∷ first_addr ∷ []) locked_cfg 0xFFFF_FFFF 2 locked_cfg-Fits
      (omega arith) (omega arith) locked_bit

updated-bit_example : bit (updated csr_write [] two_counters 0x8) 3 ≡ 1
unfolding bit get_lock_mask lock_mask_of next_bit free_bit
updated-bit_example =
    updated-bit csr_write [] two_counters 0x8 3 plain two_counters-Fits (omega arith) (omega arith)

abbrev params : Params
params = record {
  pmp_enable = true;
  pmp_granularity = 0;
  pmp_num_regions = 8;
  mhpm_counter_num = 2;
  mhpm_counter_width = 40;
}

run :
    Reached params
      ((new_transaction (model_reset (register_model params)) write_addr running).registers)
run =
    after_transaction (model_reset (register_model params)) write_addr running
      (after_reset (register_model params) constructed) (omega arith)

Reached-fits_example :
    All RegisterFits
      ((new_transaction (model_reset (register_model params)) write_addr running).registers)
Reached-fits_example =
    Reached-fits params
      ((new_transaction (model_reset (register_model params)) write_addr running).registers) run

-- A write to the address register of the locked region.
abbrev hit : Handled
hit = new_transaction (locked_cfg ∷ first_addr ∷ cycle ∷ []) write_addr running

new_transaction-match_example :
    (hit.matched ≡ true)
    × (hit.registers
        ≡ locked_cfg
          ∷ record first_addr {
            value =
                updated csr_write
                  (locked_cfg ∷ first_addr ∷ cycle ∷ [])
                  first_addr
                  write_addr.csr_wdata;
          }
          ∷ cycle
          ∷ [])
    × (csr_write ≡ csr_read → hit.registers ≡ locked_cfg ∷ first_addr ∷ cycle ∷ [])
    × ((write_addr.csr_addr ≡ 0xB00) ⊎ (write_addr.csr_addr ≡ 0xB80) → hit.simctrl ≡ running)
    × (register_read first_addr ≡ write_addr.csr_rdata → hit.simctrl ≡ running)
    × (write_addr.csr_addr ≢ 0xB00
        → write_addr.csr_addr ≢ 0xB80
        → register_read first_addr ≢ write_addr.csr_rdata
        → hit.simctrl ≡ record { stop_requested = true; success = false })
new_transaction-match_example =
    new_transaction-match (locked_cfg ∷ []) (cycle ∷ []) first_addr write_addr running
      ((λ e. omega arith), tt) refl ((λ e. omega arith), tt)
