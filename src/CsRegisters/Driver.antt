-- ===== src/CsRegisters/Driver.antt =====
-- The driver of the register testbench: dv/cs_registers/reg_driver/register_driver.cc and
-- register_transaction.cc. The random engine and its distributions are parameters.
pub mod Pace
pub mod Known
mod Examples
use coco_ibex.Common.{ℕ, zero, suc, ◌+◌, ◌-◌, Bool, true, false, ◌==◌, leb, if◌then◌else◌, get_or}
use coco_ibex.CsRegisters.Register.{Access, csr_read, csr_write, csr_set, csr_clear, RegisterMap}
use coco_ibex.CsRegisters.Model.{
  Transaction, SimCtrl, Handled, request_stop, model_reset, new_transaction,
}
use coco_ibex.CsRegisters.Model.Listing.{csr_addresses}

-- A drawn value and the engine after it.
pub record Drawn (Engine : Type 0) : Type 0 where
  pub value : ℕ
  pub engine : Engine

pub record Driver (Engine : Type 0) : Type 0 where
  pub transactions_driven : ℕ
  pub delay : ℕ
  pub reg_access : Bool
  pub next_transaction : Transaction
  pub generator : Engine

-- The operation of an index from `kCSRRead` to `kCSRClear`.
unfoldable pub operation_of : ℕ → Access
operation_of zero = csr_read
operation_of (suc zero) = csr_write
operation_of (suc (suc zero)) = csr_set
operation_of (suc (suc (suc n))) = csr_clear

-- `if (csr_op != kCSRRead) csr_wdata = ...`: the new operand and the engine.
unfoldable pub draw_wdata :
    {Engine : Type 0} → (Engine → Drawn Engine) → Access → ℕ → Engine → Drawn Engine
draw_wdata word csr_read old gen = record { value = old; engine = gen }
draw_wdata word csr_write old gen = word gen
draw_wdata word csr_set old gen = word gen
draw_wdata word csr_clear old gen = word gen

-- `between lo hi` is a uniform distribution on these bounds, `word` the one of the operand, whose
-- upper bound does not fit its `int`.
module _ {Engine : Type 0} (between : ℕ → ℕ → Engine → Drawn Engine)
    (word : Engine → Drawn Engine) where
  -- `RegisterTransaction::Randomize`.
  unfoldable pub randomize_transaction : Transaction → Engine → Transaction × Engine
  randomize_transaction trans gen =
      let index = between 0 111 gen in
      let drawn = between 0 3 index.engine in
      let op = operation_of drawn.value in
      let wdata = draw_wdata word op trans.csr_wdata drawn.engine in
      (
        record trans {
          csr_addr = get_or csr_addresses index.value 0;
          csr_op = op;
          csr_wdata = wdata.value;
        },
        wdata.engine,
      )

  unfoldable pub randomize : Driver Engine → Driver Engine
  randomize d =
      let next = randomize_transaction d.next_transaction d.generator in
      let wait = between 1 20 next.1 in
      record d {
        next_transaction = next.0;
        delay = wait.value;
        reg_access = true;
        generator = wait.engine;
      }

  unfoldable pub request_end : Driver Engine → SimCtrl → SimCtrl
  request_end d sc = if leb 10000 d.transactions_driven then request_stop true sc else sc

  -- `--delay_ == 0`: the delay is at least 1 from `OnInitial` on.
  unfoldable pub on_clock : Driver Engine → Driver Engine
  on_clock d =
      if d.delay == 1
      then (let r = randomize d in record r { transactions_driven = r.transactions_driven + 1 })
      else record d { delay = d.delay - 1; reg_access = false }

  -- `OnInitial`, once the engine is seeded.
  unfoldable pub on_initial : Engine → Driver Engine → Driver Engine
  on_initial seeded d = record d {
    transactions_driven = 0;
    delay = 1;
    reg_access = false;
    generator = seeded;
  }

-- `CaptureTransaction`: what the core did at a clock edge goes to the model.
unfoldable pub capture_transaction : Bool → Transaction → RegisterMap → SimCtrl → Handled
capture_transaction rst_n trans map sc =
    if rst_n
    then new_transaction map trans sc
    else record { registers = model_reset map; matched = false; simctrl = sc }
