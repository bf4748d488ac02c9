-- ===== src/CsRegisters/Model.antt =====
-- dv/cs_registers/model/register_model.cc, env/simctrl.cc and the transaction handling of
-- model/base_register.cc: the list of registers, reset, and one transaction on all of them.
pub mod Listing
pub mod Invariant
pub mod Match
pub mod Run
mod Examples
use coco_ibex.Common.{
  ℕ, zero, suc, ◌+◌, ◌-◌, ◌*◌, ◌/◌, ◌%◌, ◌^◌, Bool, true, false, not, ◌&&◌, ◌||◌, List, [], ◌∷◌,
  ◌++◌, ◌==◌, ltb, leb, if◌then◌else◌, bit_or,
}
use coco_ibex.CsRegisters.Word.{u32_mod, not32}
use coco_ibex.CsRegisters.Register.{
  Class, Register, RegisterMap, Access, base, pmp_cfg, pmp_addr, non_imp, warl, match_addr, read_as,
  register_read, register_reset, updated,
}

-- `RegisterTransaction`.
pub record Transaction : Type 0 where
  pub csr_op : Access
  pub illegal_csr : Bool
  pub csr_addr : ℕ
  pub csr_rdata : ℕ
  pub csr_wdata : ℕ

pub record SimCtrl : Type 0 where
  pub stop_requested : Bool
  pub success : Bool

unfoldable pub request_stop : Bool → SimCtrl → SimCtrl
request_stop ok sc = record { stop_requested = true; success = sc.success && ok }

-- `CSRParams`.
pub record Params : Type 0 where
  pub pmp_enable : Bool
  pub pmp_granularity : ℕ
  pub pmp_num_regions : ℕ
  pub mhpm_counter_num : ℕ
  pub mhpm_counter_width : ℕ

-- `make_unique` of a register class: the value starts at 0, whatever it resets to.
abbrev pub make_register : Class → ℕ → Register
make_register kind reg_addr = record { kind = kind; address = reg_addr; value = 0 }

-- `for (i = first; i < first + left; i++) push_back(...)`.
unfoldable pub push_each : ℕ → ℕ → (ℕ → Register) → RegisterMap
push_each zero i make = []
push_each (suc left) i make = make i ∷ push_each left (i + 1) make

unfoldable pub pmp_cfg_class : Params → ℕ → Class
pmp_cfg_class params i =
    if params.pmp_enable && ltb i (params.pmp_num_regions / 4) then pmp_cfg else non_imp

unfoldable pub pmp_addr_class : Params → ℕ → Class
pmp_addr_class params i =
    if params.pmp_enable && ltb i params.pmp_num_regions then pmp_addr else non_imp

-- `~((0x1 << N) - 1) << 3`.
unfoldable pub mcountinhibit_resval : Params → ℕ
mcountinhibit_resval params =
    let one_bit = 2 ^ params.mhpm_counter_num % u32_mod in
    not32 ((one_bit + (u32_mod - 1)) % u32_mod) * 2 ^ 3 % u32_mod

unfoldable pub mcountinhibit_mask : Params → ℕ
mcountinhibit_mask params = bit_or (mcountinhibit_resval params) 0x2

-- The class of the `i`th counter's register.
unfoldable pub counter_class : Params → ℕ → ℕ → ℕ → Class
counter_class params mask resval i =
    if ltb i (params.mhpm_counter_num + 3) then warl mask resval else non_imp

-- `~((0x1L << MHPMCounterWidth) - 1)` in 64 bits, for a width below 64.
unfoldable pub counter_mask : ℕ → ℕ
counter_mask width = 2 ^ 64 - 1 - (2 ^ width - 1)

unfoldable pub mhpmcounter_mask_low : Params → ℕ
mhpmcounter_mask_low params =
    if leb 64 params.mhpm_counter_width then 0 else counter_mask params.mhpm_counter_width % u32_mod

unfoldable pub mhpmcounter_mask_high : Params → ℕ
mhpmcounter_mask_high params =
    if leb 64 params.mhpm_counter_width
    then 0
    else counter_mask params.mhpm_counter_width / 2 ^ 32 % u32_mod

-- The blocks of registers that the constructor makes, in its order.
unfoldable pub pmp_cfg_registers : Params → RegisterMap
pmp_cfg_registers params = push_each 4 0 (λ i. make_register (pmp_cfg_class params i) (0x3A0 + i))

unfoldable pub pmp_addr_registers : Params → RegisterMap
pmp_addr_registers params =
    push_each 16 0 (λ i. make_register (pmp_addr_class params i) (0x3B0 + i))

unfoldable pub event_registers : Params → RegisterMap
event_registers params =
    make_register (warl (mcountinhibit_mask params) (mcountinhibit_resval params)) 0x320
    ∷ push_each 29 3
        (λ i. make_register (counter_class params 0xFFFF_FFFF (2 ^ i % u32_mod) i) (0x320 + i))

unfoldable pub low_registers : Params → RegisterMap
low_registers params =
    make_register base 0xB00
    ∷ make_register base 0xB02
    ∷ push_each 29 3
        (λ i. make_register (counter_class params (mhpmcounter_mask_low params) 0 i) (0xB00 + i))

unfoldable pub high_registers : Params → RegisterMap
high_registers params =
    make_register base 0xB80
    ∷ make_register base 0xB82
    ∷ push_each 29 3
        (λ i. make_register (counter_class params (mhpmcounter_mask_high params) 0 i) (0xB80 + i))

-- The constructor.
unfoldable pub register_model : Params → RegisterMap
register_model params =
    pmp_cfg_registers params
    ++ (pmp_addr_registers params
        ++ (event_registers params ++ (low_registers params ++ high_registers params)))

unfoldable pub model_reset : RegisterMap → RegisterMap
model_reset [] = []
model_reset (r ∷ rest) = register_reset r ∷ model_reset rest

-- What `ProcessTransaction` gives: the register after it, `*match`, and whether the core's answer is
-- an error.
pub record Processed : Type 0 where
  pub register : Register
  pub matched : Bool
  pub failed : Bool

-- Is the value that the core read an error? The cycle counter runs on by itself.
unfoldable pub is_mismatch : Transaction → ℕ → Bool
is_mismatch trans read_val =
    if trans.csr_addr == 0xB00 || trans.csr_addr == 0xB80
    then false
    else not (read_val == trans.csr_rdata)

unfoldable pub process_transaction : RegisterMap → Register → Transaction → Bool → Processed
process_transaction map r trans matched =
    if not (match_addr r trans.csr_addr)
    then record { register = r; matched = matched; failed = false }
    else record {
      register = record r { value = updated trans.csr_op map r trans.csr_wdata };
      matched = true;
      failed = is_mismatch trans (register_read r);
    }

pub record Handled : Type 0 where
  pub registers : RegisterMap
  pub matched : Bool
  pub simctrl : SimCtrl

-- The loop of `NewTransaction`, with the registers that are done and those that are left: the map that
-- a register's lock mask reads is all of them.
unfoldable pub process_loop : RegisterMap → RegisterMap → Transaction → Bool → SimCtrl → Handled
process_loop before [] trans matched sc = record {
  registers = before;
  matched = matched;
  simctrl = sc;
}
process_loop before (r ∷ rest) trans matched sc =
    let p = process_transaction (before ++ r ∷ rest) r trans matched in
    process_loop (before ++ p.register ∷ []) rest trans p.matched
      (if p.failed then request_stop false sc else sc)

unfoldable pub new_transaction : RegisterMap → Transaction → SimCtrl → Handled
new_transaction map trans sc =
    let h = process_loop [] map trans false sc in
    if h.matched
    then h
    else (if trans.illegal_csr then h else record h { simctrl = request_stop false h.simctrl })
