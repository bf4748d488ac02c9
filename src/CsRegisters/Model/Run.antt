-- ===== src/CsRegisters/Model/Run.antt =====
-- The runs of the register testbench (dv/cs_registers/model/register_model.cc): construction, resets
-- and transactions in any order.
use coco_ibex.Common.{◌<◌, Bool, true, false, [], if◌then◌else◌, ◌≡◌, refl}
use coco_ibex.CsRegisters.Word.{u32_mod}
use coco_ibex.CsRegisters.Register.{RegisterMap}
use coco_ibex.CsRegisters.Model.{
  Params, Transaction, SimCtrl, Handled, register_model, model_reset, request_stop, process_loop,
  new_transaction,
}

module _ (map : RegisterMap) (trans : Transaction) (sc : SimCtrl) where
  handled_registers :
      (b c : Bool) (h : Handled)
      → (if b
          then h
          else (if c then h else record h { simctrl = request_stop false h.simctrl })).registers
        ≡ h.registers
  handled_registers true c h = refl
  handled_registers false true h = refl
  handled_registers false false h = refl

  pub new_transaction-registers :
      (new_transaction map trans sc).registers ≡ (process_loop [] map trans false sc).registers
  unfolding new_transaction
  new_transaction-registers =
      let h = process_loop [] map trans false sc in handled_registers h.matched trans.illegal_csr h

-- The register lists that a run of the testbench goes through: the constructed one, and those after a
-- reset or a transaction with any operation, address and 32-bit operand.
pub data Reached (params : Params) : RegisterMap → Type 0 where
  constructed : Reached params (register_model params)
  after_reset : (map : RegisterMap) → Reached params map → Reached params (model_reset map)
  after_transaction :
      (map : RegisterMap) (trans : Transaction) (sc : SimCtrl)
      → Reached params map
      → trans.csr_wdata < u32_mod
      → Reached params ((new_transaction map trans sc).registers)
