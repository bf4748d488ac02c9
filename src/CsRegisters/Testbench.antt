-- ===== src/CsRegisters/Testbench.antt =====
-- The register testbench as a whole: the design of dv/cs_registers/tb/tb_cs_registers.sv, which calls the DPI
-- functions of env/env_dpi.cc, reg_driver/reg_dpi.cc and rst_driver/rst_dpi.cc, and keeps what they give out.
pub mod Judged
pub mod Returned
mod Examples
use coco_ibex.Common.{ℕ, Bool, List, [], ◌∷◌, if◌then◌else◌}
use coco_ibex.CsRegisters.Register.{Access}
use coco_ibex.CsRegisters.Driver.{Drawn, Driver, on_clock}
use coco_ibex.CsRegisters.ResetDriver.{drive_rst}
use coco_ibex.CsRegisters.Bench.{
  Bench, Tick, monitor, drive_tick, reset_tick, is_registered, bench_tick, env_final,
}

-- What `env_tick` gives out.
pub record EnvOutputs : Type 0 where
  pub stop_req : Bool
  pub test_passed : Bool

-- What `driver_tick` gives out.
pub record CsrInputs : Type 0 where
  pub csr_access : Bool
  pub csr_op : Access
  pub csr_op_en : Bool
  pub csr_addr : ℕ
  pub csr_wdata : ℕ

-- The signals that the DPI functions write, with the core, the environment, and all else.
pub record Design (Core Engine : Type 0) : Type 0 where
  pub core : Core
  pub bench : Bench Engine
  pub env_outputs : EnvOutputs
  pub csr_inputs : CsrInputs
  pub dpi_rst_n : Bool

-- A step of the design: of the core on its own, a call of `env_tick`, or one of the other functions.
pub data Step (Core : Type 0) : Type 0 where
  core_step : Core → Step Core
  env_step : Step Core
  call : Tick → Step Core

-- `GetStopReq` and `GetTestPass`.
unfoldable pub env_tick : {Engine : Type 0} → Bench Engine → EnvOutputs
env_tick b = record { stop_req = b.simctrl.stop_requested; test_passed = b.simctrl.success }

unfoldable pub drive_outputs : {Engine : Type 0} → Driver Engine → CsrInputs
drive_outputs d = record {
  csr_access = d.reg_access;
  csr_op = d.next_transaction.csr_op;
  csr_op_en = d.reg_access;
  csr_addr = d.next_transaction.csr_addr;
  csr_wdata = d.next_transaction.csr_wdata;
}

module _ {Engine : Type 0} (between : ℕ → ℕ → Engine → Drawn Engine)
    (word : Engine → Drawn Engine) where
  -- The signals for the core after a call of `driver_tick`, and the reset after one of `rst_tick`. Under a
  -- name that is not registered they stay as they are.
  unfoldable pub tick_inputs : Tick → Bench Engine → CsrInputs → CsrInputs
  tick_inputs (monitor name pins) b inputs = inputs
  tick_inputs (drive_tick name) b inputs =
      if is_registered name b.reg_intfs
      then drive_outputs (on_clock between word b.reg_driver)
      else inputs
  tick_inputs (reset_tick name) b inputs = inputs

  unfoldable pub tick_reset : Tick → Bench Engine → Bool → Bool
  tick_reset (monitor name pins) b rst_n = rst_n
  tick_reset (drive_tick name) b rst_n = rst_n
  tick_reset (reset_tick name) b rst_n =
      if is_registered name b.rst_intfs
      then (drive_rst (between 100 1000) b.rst_driver).rst_n
      else rst_n

module _ {Core Engine : Type 0} (between : ℕ → ℕ → Engine → Drawn Engine)
    (word : Engine → Drawn Engine) where
  unfoldable pub step : Step Core → Design Core Engine → Design Core Engine
  step (core_step core) d = record d { core = core }
  step env_step d = record d { env_outputs = env_tick d.bench }
  step (call t) d = record d {
    bench = bench_tick between word t d.bench;
    csr_inputs = tick_inputs between word t d.bench d.csr_inputs;
    dpi_rst_n = tick_reset between word t d.bench d.dpi_rst_n;
  }

  -- The `final` block: a call of `env_final`.
  unfoldable pub end_design : Design Core Engine → Design Core Engine
  end_design d = record d { bench = env_final between word d.bench }

  unfoldable pub steps : List (Step Core) → Design Core Engine → Design Core Engine
  steps [] d = d
  steps (a ∷ rest) d = steps rest (step a d)
