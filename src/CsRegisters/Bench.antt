-- ===== src/CsRegisters/Bench.antt =====
-- The environment of the register testbench and its DPI functions: dv/cs_registers/env/env_dpi.cc and
-- register_environment.cc, reg_driver/reg_dpi.cc and rst_driver/rst_dpi.cc. Each of the two tables of
-- interfaces has at most one object in it, so a table is the list of the names that are registered.
pub mod Kept
pub mod Answer
pub mod Verdict
mod Examples
use coco_ibex.Common.{ℕ, Bool, true, false, not, ◌&&◌, ◌||◌, List, [], ◌∷◌, if◌then◌else◌, codes}
use coco_ibex.Text.{same_text}
use coco_ibex.CsRegisters.Register.{Access, RegisterMap}
use coco_ibex.CsRegisters.Model.{Params, Transaction, SimCtrl, Handled, register_model}
use coco_ibex.CsRegisters.Driver.{
  Drawn, Driver, on_clock, on_initial, request_end, capture_transaction,
}
use coco_ibex.CsRegisters.ResetDriver.{ResetDriver, Driven, reset_driver, drive_rst}

-- The signals of the core that the monitor reads.
pub record Pins : Type 0 where
  pub rst_n : Bool
  pub csr_access : Bool
  pub csr_op_en : Bool
  pub trans : Transaction

-- `RegisterEnvironment` with the tables of interfaces.
pub record Bench (Engine : Type 0) : Type 0 where
  pub registers : RegisterMap
  pub simctrl : SimCtrl
  pub reg_driver : Driver Engine
  pub rst_driver : ResetDriver Engine
  pub reg_intfs : List (List ℕ)
  pub rst_intfs : List (List ℕ)

-- `intfs.find(name) != intfs.end()`.
unfoldable pub is_registered : List ℕ → List (List ℕ) → Bool
is_registered name [] = false
is_registered name (other ∷ intfs) = same_text other name || is_registered name intfs

-- `intfs.insert` and `intfs.erase`.
unfoldable pub register_intf : List ℕ → List (List ℕ) → List (List ℕ)
register_intf name intfs = if is_registered name intfs then intfs else name ∷ intfs

unfoldable pub deregister_intf : List ℕ → List (List ℕ) → List (List ℕ)
deregister_intf name [] = []
deregister_intf name (other ∷ intfs) =
    let rest = deregister_intf name intfs in if same_text other name then rest else other ∷ rest

-- What a call at a clock edge is.
pub data Tick : Type 0 where
  monitor : List ℕ → Pins → Tick
  drive_tick reset_tick : List ℕ → Tick

module _ {Engine : Type 0} (between : ℕ → ℕ → Engine → Drawn Engine)
    (word : Engine → Drawn Engine) where
  -- `env_initial`, with the engines once they are seeded, and the transaction that the driver's memory
  -- holds.
  unfoldable pub env_initial : Params → Engine → Transaction → Bench Engine
  env_initial params seeded trans = record {
    registers = register_model params;
    simctrl = record { stop_requested = false; success = true };
    reg_driver = on_initial between word seeded (record {
      transactions_driven = 0;
      delay = 1;
      reg_access = false;
      next_transaction = trans;
      generator = seeded;
    });
    rst_driver = reset_driver (between 100 1000) seeded;
    reg_intfs = register_intf (codes "reg_driver") [];
    rst_intfs = register_intf (codes "rstn_driver") [];
  }

  unfoldable pub env_final : Bench Engine → Bench Engine
  env_final b = record b {
    reg_intfs = deregister_intf (codes "reg_driver") b.reg_intfs;
    rst_intfs = deregister_intf (codes "rstn_driver") b.rst_intfs;
  }

  unfoldable pub monitor_tick : List ℕ → Pins → Bench Engine → Bench Engine
  monitor_tick name pins b =
      let captured = capture_transaction pins.rst_n pins.trans b.registers b.simctrl in
      if is_registered name b.reg_intfs
        && ((pins.csr_access && (pins.csr_op_en || pins.trans.illegal_csr)) || not pins.rst_n)
      then record b { registers = captured.registers; simctrl = captured.simctrl }
      else b

  -- `driver_tick`: what is driven afterwards are the driver's fields.
  unfoldable pub driver_tick : List ℕ → Bench Engine → Bench Engine
  driver_tick name b =
      if is_registered name b.reg_intfs
      then record b {
        simctrl = request_end between word b.reg_driver b.simctrl;
        reg_driver = on_clock between word b.reg_driver;
      }
      else b

  unfoldable pub rst_tick : List ℕ → Bench Engine → Bench Engine
  rst_tick name b =
      if is_registered name b.rst_intfs
      then record b { rst_driver = (drive_rst (between 100 1000) b.rst_driver).driver }
      else b

  unfoldable pub bench_tick : Tick → Bench Engine → Bench Engine
  bench_tick (monitor name pins) b = monitor_tick name pins b
  bench_tick (drive_tick name) b = driver_tick name b
  bench_tick (reset_tick name) b = rst_tick name b

  -- Any sequence of calls.
  unfoldable pub bench_run : List Tick → Bench Engine → Bench Engine
  bench_run [] b = b
  bench_run (t ∷ ticks) b = bench_run ticks (bench_tick t b)
