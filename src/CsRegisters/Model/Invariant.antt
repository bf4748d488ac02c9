-- ===== src/CsRegisters/Model/Invariant.antt =====
-- What holds of the register list at every point of a run of the testbench
-- (dv/cs_registers/model/register_model.cc): construction, resets and transactions in any order.
use coco_ibex.Common.{
  ℕ, zero, suc, ◌+◌, ◌*◌, ◌/◌, ◌%◌, ◌^◌, ◌<◌, Bool, true, false, not, [], ◌∷◌, ◌++◌, if◌then◌else◌,
  arith, All, All-append, ltb, ◌&&◌,
}
use coco_ibex.Common.Bits.{bit-zero, bit_or-lt}
use coco_ibex.CsRegisters.Word.{u32_mod}
use coco_ibex.CsRegisters.Register.{
  Class, Register, RegisterMap, base, pmp_cfg, pmp_addr, non_imp, warl, match_addr, register_read,
  register_reset, reset_value, updated,
}
use coco_ibex.CsRegisters.Update.{Fits, LegalByte, updated-Fits}
use coco_ibex.CsRegisters.Model.{
  Params, Transaction, SimCtrl, make_register, push_each, pmp_cfg_class, pmp_addr_class,
  counter_class, mhpmcounter_mask_low, mhpmcounter_mask_high, mcountinhibit_mask,
  mcountinhibit_resval, register_model, pmp_cfg_registers, pmp_addr_registers, event_registers,
  low_registers, high_registers, Processed, model_reset, is_mismatch, request_stop,
  process_transaction, process_loop,
}
use coco_ibex.CsRegisters.Model.Run.{
  Reached, constructed, after_reset, after_transaction, new_transaction-registers,
}

abbrev pub RegisterFits : Register → Type 0
RegisterFits r = Fits r.kind r.value

zero-LegalByte : (k : ℕ) → LegalByte 0 k
zero-LegalByte k = record {
  no_bit_5 = bit-zero (8 * k + 5);
  no_bit_6 = bit-zero (8 * k + 6);
  writable_readable = omega (arith, bit-zero (8 * k + 1));
}

-- The constants of a class are 32-bit words.
abbrev Constants : Class → Type 0
Constants (warl mask resval) = (mask < u32_mod) × (resval < u32_mod)
Constants _ = Unit

Fits-zero : (kind : Class) → Constants kind → Fits kind 0
unfolding Fits
Fits-zero base h = omega arith
Fits-zero pmp_cfg h = (omega arith, zero-LegalByte)
Fits-zero pmp_addr h = omega arith
Fits-zero non_imp h = omega arith
Fits-zero (warl mask resval) h = (omega arith, h.0, h.1)

Fits-reset_value : (kind : Class) (value : ℕ) → Fits kind value → Fits kind (reset_value kind)
unfolding Fits reset_value
Fits-reset_value base value h = omega arith
Fits-reset_value pmp_cfg value h = (omega arith, zero-LegalByte)
Fits-reset_value pmp_addr value h = omega arith
Fits-reset_value non_imp value h = omega arith
Fits-reset_value (warl mask resval) value h = (h.2, h.1, h.2)

push_each-fits :
    (left i : ℕ) (make : ℕ → Register)
    → ((j : ℕ) → RegisterFits (make j))
    → All RegisterFits (push_each left i make)
unfolding push_each
push_each-fits zero i make h = tt
push_each-fits (suc left) i make h = (h i, push_each-fits left (i + 1) make h)

block-fits :
    (left first : ℕ) (kind : ℕ → Class) (start : ℕ)
    → ((j : ℕ) → Constants (kind j))
    → All RegisterFits (push_each left first (λ i. make_register (kind i) (start + i)))
block-fits left first kind start h =
    push_each-fits left first (λ i. make_register (kind i) (start + i))
      (λ j. Fits-zero (kind j) (h j))

choice-Constants :
    (b : Bool) (k l : Class) → Constants k → Constants l → Constants (if b then k else l)
choice-Constants true k l hk hl = hk
choice-Constants false k l hk hl = hl

module _ (params : Params) where
  counter-Constants :
      (mask resval i : ℕ)
      → mask < u32_mod
      → resval < u32_mod
      → Constants (counter_class params mask resval i)
  unfolding counter_class
  counter-Constants mask resval i hm hr =
      choice-Constants (ltb i (params.mhpm_counter_num + 3)) (warl mask resval) non_imp (hm, hr) tt

  pmp_cfg-Constants : (i : ℕ) → Constants (pmp_cfg_class params i)
  unfolding pmp_cfg_class
  pmp_cfg-Constants i =
      choice-Constants (params.pmp_enable && ltb i (params.pmp_num_regions / 4)) pmp_cfg non_imp tt
        tt

  pmp_addr-Constants : (i : ℕ) → Constants (pmp_addr_class params i)
  unfolding pmp_addr_class
  pmp_addr-Constants i =
      choice-Constants (params.pmp_enable && ltb i params.pmp_num_regions) pmp_addr non_imp tt tt

  mask_low-lt : mhpmcounter_mask_low params < u32_mod
  unfolding mhpmcounter_mask_low
  mask_low-lt = ground arith

  mask_high-lt : mhpmcounter_mask_high params < u32_mod
  unfolding mhpmcounter_mask_high
  mask_high-lt = ground arith

  resval-lt : mcountinhibit_resval params < u32_mod
  unfolding mcountinhibit_resval
  resval-lt = omega arith

  mask-lt : mcountinhibit_mask params < u32_mod
  unfolding mcountinhibit_mask
  mask-lt = bit_or-lt 32 (mcountinhibit_resval params) 0x2 resval-lt (omega arith)

  events-fits : All RegisterFits (event_registers params)
  unfolding event_registers
  events-fits = (
    Fits-zero (warl (mcountinhibit_mask params) (mcountinhibit_resval params)) (mask-lt, resval-lt),
    block-fits 29 3 (λ i. counter_class params 0xFFFF_FFFF (2 ^ i % u32_mod) i) 0x320
        (λ i. counter-Constants 0xFFFF_FFFF (2 ^ i % u32_mod) i (omega arith) (omega arith)),
  )

  low-fits : All RegisterFits (low_registers params)
  unfolding low_registers
  low-fits = (
    Fits-zero base tt,
    (
      Fits-zero base tt,
      block-fits 29 3 (λ i. counter_class params (mhpmcounter_mask_low params) 0 i) 0xB00
          (λ i. counter-Constants (mhpmcounter_mask_low params) 0 i mask_low-lt (omega arith)),
    ),
  )

  high-fits : All RegisterFits (high_registers params)
  unfolding high_registers
  high-fits = (
    Fits-zero base tt,
    (
      Fits-zero base tt,
      block-fits 29 3 (λ i. counter_class params (mhpmcounter_mask_high params) 0 i) 0xB80
          (λ i. counter-Constants (mhpmcounter_mask_high params) 0 i mask_high-lt (omega arith)),
    ),
  )

  pmp_cfg-fits : All RegisterFits (pmp_cfg_registers params)
  unfolding pmp_cfg_registers
  pmp_cfg-fits = block-fits 4 0 (pmp_cfg_class params) 0x3A0 pmp_cfg-Constants

  pmp_addr-fits : All RegisterFits (pmp_addr_registers params)
  unfolding pmp_addr_registers
  pmp_addr-fits = block-fits 16 0 (pmp_addr_class params) 0x3B0 pmp_addr-Constants

  register_model-fits : All RegisterFits (register_model params)
  unfolding register_model
  register_model-fits =
      let words =
        All-append RegisterFits (low_registers params) (high_registers params) low-fits high-fits in
      let counters =
        All-append RegisterFits (event_registers params)
          (low_registers params ++ high_registers params) events-fits words in
      let tail =
        All-append RegisterFits (pmp_addr_registers params)
          (event_registers params ++ (low_registers params ++ high_registers params)) pmp_addr-fits
          counters in
      All-append RegisterFits (pmp_cfg_registers params)
        (pmp_addr_registers params
          ++ (event_registers params ++ (low_registers params ++ high_registers params)))
        pmp_cfg-fits tail

model_reset-fits : (map : RegisterMap) → All RegisterFits map → All RegisterFits (model_reset map)
unfolding model_reset register_reset
model_reset-fits [] h = tt
model_reset-fits (r ∷ rest) h = (Fits-reset_value r.kind r.value h.0, model_reset-fits rest h.1)

choice-fits :
    (b : Bool) (p q : Processed)
    → RegisterFits p.register
    → RegisterFits q.register
    → RegisterFits ((if b then p else q).register)
choice-fits true p q hp hq = hp
choice-fits false p q hp hq = hq

process_transaction-fits :
    (map : RegisterMap) (r : Register) (trans : Transaction) (matched : Bool)
    → RegisterFits r
    → trans.csr_wdata < u32_mod
    → RegisterFits ((process_transaction map r trans matched).register)
unfolding process_transaction
process_transaction-fits map r trans matched h lt =
    choice-fits (not (match_addr r trans.csr_addr))
      (record { register = r; matched = matched; failed = false })
      (record {
        register = record r { value = updated trans.csr_op map r trans.csr_wdata };
        matched = true;
        failed = is_mismatch trans (register_read r);
      })
      h (updated-Fits trans.csr_op map r trans.csr_wdata h lt)

process_loop-fits :
    (before rest : RegisterMap) (trans : Transaction) (matched : Bool) (sc : SimCtrl)
    → All RegisterFits before
    → All RegisterFits rest
    → trans.csr_wdata < u32_mod
    → All RegisterFits ((process_loop before rest trans matched sc).registers)
unfolding process_loop
process_loop-fits before [] trans matched sc hb hr lt = hb
process_loop-fits before (r ∷ rest) trans matched sc hb hr lt =
    let p = process_transaction (before ++ r ∷ rest) r trans matched in
    process_loop-fits (before ++ p.register ∷ []) rest trans p.matched
      (if p.failed then request_stop false sc else sc)
      (All-append RegisterFits before (p.register ∷ []) hb
        (process_transaction-fits (before ++ r ∷ rest) r trans matched hr.0 lt, tt))
      hr.1 lt

-- At every point of a run every register holds a value that its class may hold.
pub Reached-fits : (params : Params) (map : RegisterMap) → Reached params map → All RegisterFits map
Reached-fits params map constructed = register_model-fits params
Reached-fits params map (after_reset before run) =
    model_reset-fits before (Reached-fits params before run)
Reached-fits params map (after_transaction before trans sc run lt) =
    rw (new_transaction-registers before trans sc)
      (process_loop-fits [] before trans false sc tt (Reached-fits params before run) lt)
