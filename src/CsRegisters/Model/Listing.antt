-- ===== src/CsRegisters/Model/Listing.antt =====
-- The addresses of the constructed registers against the list that the driver draws addresses from
-- (dv/cs_registers/reg_driver/csr_listing.def).
use coco_ibex.Common.{
  Bool, true, false, not, if◌then◌else◌, sym, ap, ◌∙◌, append-nil, append_assoc, ℕ, ◌≡◌, refl, List,
  [], ◌∷◌, ◌++◌,
}
use coco_ibex.CsRegisters.Register.{
  updated, match_addr, register_read, register_reset, Register, RegisterMap,
}
use coco_ibex.CsRegisters.Model.{
  Transaction, SimCtrl, Processed, process_transaction, process_loop, model_reset, is_mismatch,
  request_stop, Params, register_model, push_each, pmp_cfg_registers, pmp_addr_registers,
  event_registers, low_registers, high_registers,
}
use coco_ibex.CsRegisters.Model.Run.{
  Reached, constructed, after_reset, after_transaction, new_transaction-registers,
}

-- `CSRAddresses`.
abbrev pub csr_addresses : List ℕ
csr_addresses =
    0x3A0 ∷ 0x3A1 ∷ 0x3A2 ∷ 0x3A3 ∷ 0x3B0 ∷ 0x3B1 ∷ 0x3B2 ∷ 0x3B3 ∷ 0x3B4 ∷ 0x3B5 ∷ 0x3B6 ∷ 0x3B7
    ∷ 0x3B8 ∷ 0x3B9 ∷ 0x3BA ∷ 0x3BB ∷ 0x3BC ∷ 0x3BD ∷ 0x3BE ∷ 0x3BF ∷ 0x320 ∷ 0x323 ∷ 0x324 ∷ 0x325
    ∷ 0x326 ∷ 0x327 ∷ 0x328 ∷ 0x329 ∷ 0x32A ∷ 0x32B ∷ 0x32C ∷ 0x32D ∷ 0x32E ∷ 0x32F ∷ 0x330 ∷ 0x331
    ∷ 0x332 ∷ 0x333 ∷ 0x334 ∷ 0x335 ∷ 0x336 ∷ 0x337 ∷ 0x338 ∷ 0x339 ∷ 0x33A ∷ 0x33B ∷ 0x33C ∷ 0x33D
    ∷ 0x33E ∷ 0x33F ∷ 0xB00 ∷ 0xB02 ∷ 0xB03 ∷ 0xB04 ∷ 0xB05 ∷ 0xB06 ∷ 0xB07 ∷ 0xB08 ∷ 0xB09 ∷ 0xB0A
    ∷ 0xB0B ∷ 0xB0C ∷ 0xB0D ∷ 0xB0E ∷ 0xB0F ∷ 0xB10 ∷ 0xB11 ∷ 0xB12 ∷ 0xB13 ∷ 0xB14 ∷ 0xB15 ∷ 0xB16
    ∷ 0xB17 ∷ 0xB18 ∷ 0xB19 ∷ 0xB1A ∷ 0xB1B ∷ 0xB1C ∷ 0xB1D ∷ 0xB1E ∷ 0xB1F ∷ 0xB80 ∷ 0xB82 ∷ 0xB83
    ∷ 0xB84 ∷ 0xB85 ∷ 0xB86 ∷ 0xB87 ∷ 0xB88 ∷ 0xB89 ∷ 0xB8A ∷ 0xB8B ∷ 0xB8C ∷ 0xB8D ∷ 0xB8E ∷ 0xB8F
    ∷ 0xB90 ∷ 0xB91 ∷ 0xB92 ∷ 0xB93 ∷ 0xB94 ∷ 0xB95 ∷ 0xB96 ∷ 0xB97 ∷ 0xB98 ∷ 0xB99 ∷ 0xB9A ∷ 0xB9B
    ∷ 0xB9C ∷ 0xB9D ∷ 0xB9E ∷ 0xB9F ∷ []

unfoldable pub addresses : RegisterMap → List ℕ
addresses [] = []
addresses (r ∷ rest) = r.address ∷ addresses rest

addresses-append : (xs ys : RegisterMap) → addresses (xs ++ ys) ≡ addresses xs ++ addresses ys
unfolding addresses
addresses-append [] ys = refl
addresses-append (x ∷ xs) ys = ap (λ t. x.address ∷ t) (addresses-append xs ys)

pub addresses-register_model : (params : Params) → addresses (register_model params) ≡ csr_addresses
unfolding addresses register_model push_each pmp_cfg_registers pmp_addr_registers event_registers
    low_registers high_registers
addresses-register_model params = refl

pub addresses-model_reset : (map : RegisterMap) → addresses (model_reset map) ≡ addresses map
unfolding addresses model_reset register_reset
addresses-model_reset [] = refl
addresses-model_reset (r ∷ rest) = ap (λ t. r.address ∷ t) (addresses-model_reset rest)

choice-address :
    (b : Bool) (p q : Processed) (address : ℕ)
    → p.register.address ≡ address
    → q.register.address ≡ address
    → (if b then p else q).register.address ≡ address
choice-address true p q address hp hq = hp
choice-address false p q address hp hq = hq

process_transaction-address :
    (map : RegisterMap) (r : Register) (trans : Transaction) (matched : Bool)
    → (process_transaction map r trans matched).register.address ≡ r.address
unfolding process_transaction
process_transaction-address map r trans matched =
    choice-address (not (match_addr r trans.csr_addr))
      (record { register = r; matched = matched; failed = false })
      (record {
        register = record r { value = updated trans.csr_op map r trans.csr_wdata };
        matched = true;
        failed = is_mismatch trans (register_read r);
      })
      r.address refl refl

pub process_loop-addresses :
    (before rest : RegisterMap) (trans : Transaction) (matched : Bool) (sc : SimCtrl)
    → addresses ((process_loop before rest trans matched sc).registers)
      ≡ addresses before ++ addresses rest
unfolding process_loop addresses
process_loop-addresses before [] trans matched sc = sym (append-nil (addresses before))
process_loop-addresses before (r ∷ rest) trans matched sc =
    let p = process_transaction (before ++ r ∷ rest) r trans matched in
    process_loop-addresses (before ++ p.register ∷ []) rest trans p.matched
      (if p.failed then request_stop false sc else sc)
    ∙ ap (λ t. t ++ addresses rest) (addresses-append before (p.register ∷ []))
    ∙ ap (λ a. (addresses before ++ a ∷ []) ++ addresses rest)
        (process_transaction-address (before ++ r ∷ rest) r trans matched)
    ∙ append_assoc (addresses before) (r.address ∷ []) (addresses rest)

-- For every choice of parameters, and at every point of a run, the model has exactly the registers of
-- the listing, in its order, so each address that the driver draws is known to the model and known
-- once.
pub Reached-addresses :
    (params : Params) (map : RegisterMap) → Reached params map → addresses map ≡ csr_addresses
unfolding addresses
Reached-addresses params map constructed = addresses-register_model params
Reached-addresses params map (after_reset before run) =
    addresses-model_reset before ∙ Reached-addresses params before run
Reached-addresses params map (after_transaction before trans sc run lt) =
    ap addresses (new_transaction-registers before trans sc)
    ∙ process_loop-addresses [] before trans false sc
    ∙ Reached-addresses params before run
