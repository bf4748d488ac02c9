-- ===== src/CsRegisters/Bench/Kept.antt =====
-- What holds at every point of a run of the testbench.
use coco_ibex.Common.{
  ℕ, ◌<◌, ◌^◌, Bool, true, false, not, ◌&&◌, ◌||◌, List, [], ◌∷◌, All, Bool-cases, inl, inr,
}
use coco_ibex.CsRegisters.Word.{u32_mod}
use coco_ibex.CsRegisters.Register.{RegisterMap}
use coco_ibex.CsRegisters.Model.{Params, Transaction, SimCtrl}
use coco_ibex.CsRegisters.Model.Run.{Reached, constructed, after_reset, after_transaction}
use coco_ibex.CsRegisters.Model.Invariant.{RegisterFits, Reached-fits}
use coco_ibex.CsRegisters.Driver.{Drawn, capture_transaction}
use coco_ibex.CsRegisters.Bench.{
  Bench, is_registered, Tick, monitor, drive_tick, reset_tick, env_initial, monitor_tick,
  driver_tick, rst_tick, bench_tick, bench_run,
}

-- A call that the core makes with a 32-bit operand.
abbrev HasWord : Tick → Type 0
HasWord (monitor name pins) = pins.trans.csr_wdata < 2 ^ 32
HasWord (drive_tick name) = Unit {0}
HasWord (reset_tick name) = Unit {0}

capture_transaction-Reached :
    (params : Params) (rst_n : Bool) (trans : Transaction) (map : RegisterMap) (sc : SimCtrl)
    → Reached params map
    → trans.csr_wdata < u32_mod
    → Reached params (capture_transaction rst_n trans map sc).registers
unfolding capture_transaction
capture_transaction-Reached params true trans map sc r h = after_transaction map trans sc r h
capture_transaction-Reached params false trans map sc r h = after_reset map r

module _ {Engine : Type 0} (between : ℕ → ℕ → Engine → Drawn Engine)
    (word : Engine → Drawn Engine) where
  bench_tick-Reached :
      (params : Params) (t : Tick) (b : Bench Engine)
      → Reached params b.registers
      → HasWord t
      → Reached params (bench_tick between word t b).registers
  unfolding bench_tick monitor_tick driver_tick rst_tick
  bench_tick-Reached params (monitor name pins) b r h =
      let seen =
        is_registered name b.reg_intfs
        && ((pins.csr_access && (pins.csr_op_en || pins.trans.illegal_csr)) || not pins.rst_n) in
      elim (Bool-cases seen) [
        | inl yes_seen ↦
            rw yes_seen
              (capture_transaction-Reached params pins.rst_n pins.trans b.registers b.simctrl r h)
        | inr not_seen ↦ rw not_seen r
      ]
  bench_tick-Reached params (drive_tick name) b r h =
      elim (Bool-cases (is_registered name b.reg_intfs)) [
        | inl known ↦ rw known r
        | inr unknown ↦ rw unknown r
      ]
  bench_tick-Reached params (reset_tick name) b r h =
      elim (Bool-cases (is_registered name b.rst_intfs)) [
        | inl known ↦ rw known r
        | inr unknown ↦ rw unknown r
      ]

  bench_run-Reached :
      (params : Params) (ticks : List Tick) (b : Bench Engine)
      → Reached params b.registers
      → All HasWord ticks
      → Reached params (bench_run between word ticks b).registers
  unfolding bench_run
  bench_run-Reached params [] b r h = r
  bench_run-Reached params (t ∷ ticks) b r h =
      bench_run-Reached params ticks (bench_tick between word t b)
        (bench_tick-Reached params t b r h.0) h.1

  -- Whatever calls the simulator makes after `env_initial`, in any order, under any name and with any signals
  -- with a 32-bit operand, every register of the model holds a value that its class may hold.
  bench_run-fits :
      (params : Params) (seeded : Engine) (trans : Transaction) (ticks : List Tick)
      → All HasWord ticks
      → All RegisterFits
          (bench_run between word ticks (env_initial between word params seeded trans)).registers
  unfolding env_initial
  bench_run-fits params seeded trans ticks h =
      Reached-fits params
        (bench_run between word ticks (env_initial between word params seeded trans)).registers
        (bench_run-Reached params ticks (env_initial between word params seeded trans) constructed
          h)
