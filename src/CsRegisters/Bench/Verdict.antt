-- ===== src/CsRegisters/Bench/Verdict.antt =====
-- The testbench passes exactly the cores that answer correctly.
use coco_ibex.Common.{
  ℕ, ◌≡◌, refl, ap, ap₂, ◌∙◌, arith, Bool, true, false, not, ◌||◌, ◌&&◌, List, [], ◌∷◌,
  if◌then◌else◌, Bool-cases, inl, inr, codes,
}
use coco_ibex.Text.{same_text}
use coco_ibex.CsRegisters.Register.{RegisterMap}
use coco_ibex.CsRegisters.Model.{
  Params, Transaction, SimCtrl, request_stop, register_model, model_reset, new_transaction,
}
use coco_ibex.CsRegisters.Model.Run.{new_transaction-registers}
use coco_ibex.CsRegisters.Model.Listing.{
  addresses, csr_addresses, addresses-register_model, addresses-model_reset, process_loop-addresses,
}
use coco_ibex.CsRegisters.Driver.{Drawn, capture_transaction, request_end}
use coco_ibex.CsRegisters.Bench.{
  Pins, Bench, is_registered, register_intf, Tick, monitor, drive_tick, reset_tick, env_initial,
  monitor_tick, driver_tick, rst_tick, bench_tick, bench_run,
}
use coco_ibex.CsRegisters.Bench.Answer.{register_at, is_correct, write_at, new_transaction-answer}

-- The monitor looks at an access, or at a reset, under its own name.
unfoldable pub is_seen : List ℕ → Pins → Bool
is_seen name pins =
    same_text (codes "reg_driver") name
    && ((pins.csr_access && (pins.csr_op_en || pins.trans.illegal_csr)) || not pins.rst_n)

-- The registers of a core, and whether its answer is correct, at a call of the testbench.
unfoldable pub core_after : Tick → RegisterMap → RegisterMap
core_after (monitor name pins) map =
    if is_seen name pins
    then (if pins.rst_n then write_at map pins.trans map else model_reset map)
    else map
core_after (drive_tick name) map = map
core_after (reset_tick name) map = map

unfoldable pub answers : Tick → RegisterMap → Bool
answers (monitor name pins) map =
    if is_seen name pins && pins.rst_n
    then is_correct (register_at pins.trans.csr_addr map) pins.trans
    else true
answers (drive_tick name) map = true
answers (reset_tick name) map = true

-- All the answers that a core gives are correct.
unfoldable pub all_answers : List Tick → RegisterMap → Bool
all_answers [] map = true
all_answers (t ∷ ticks) map = answers t map && all_answers ticks (core_after t map)

addresses-new_transaction :
    (map : RegisterMap) (trans : Transaction) (sc : SimCtrl)
    → addresses (new_transaction map trans sc).registers ≡ addresses map
unfolding addresses
addresses-new_transaction map trans sc =
    ap addresses (new_transaction-registers map trans sc)
    ∙ process_loop-addresses [] map trans false sc

success-verdict :
    (correct : Bool) (sc : SimCtrl)
    → (if correct then sc else request_stop false sc).success ≡ (sc.success && correct)
unfolding request_stop
success-verdict correct sc = ground arith

-- What a capture does on a map with the addresses of the listing.
capture-answer :
    (rst_n : Bool) (trans : Transaction) (map : RegisterMap) (sc : SimCtrl)
    → addresses map ≡ csr_addresses
    → ((capture_transaction rst_n trans map sc).registers
        ≡ (if rst_n then write_at map trans map else model_reset map))
      × ((capture_transaction rst_n trans map sc).simctrl.success ≡ (
          sc.success
          && (if rst_n then is_correct (register_at trans.csr_addr map) trans else true)))
      × (addresses (capture_transaction rst_n trans map sc).registers ≡ csr_addresses)
unfolding capture_transaction
capture-answer true trans map sc e =
    let (registers, simctrl) = new_transaction-answer map trans sc e in
    (
      registers,
      ap (λ (o : SimCtrl). o.success) simctrl
          ∙ success-verdict (is_correct (register_at trans.csr_addr map) trans) sc,
      addresses-new_transaction map trans sc ∙ e,
    )
capture-answer false trans map sc e = (refl, ground arith, addresses-model_reset map ∙ e)

pub and_true : (b : Bool) → b ≡ (b && true)
and_true true = refl
and_true false = refl

pub and_assoc : (a b c : Bool) → ((a && b) && c) ≡ (a && (b && c))
and_assoc true b c = refl
and_assoc false b c = refl

module _ {Engine : Type 0} (between : ℕ → ℕ → Engine → Drawn Engine)
    (word : Engine → Drawn Engine) where
  -- The testbench with the driver registered under its name, and the registers of the listing.
  abbrev pub Ready : Bench Engine → Type 0
  Ready b = (b.reg_intfs ≡ codes "reg_driver" ∷ []) × (addresses b.registers ≡ csr_addresses)

  -- The testbench behind a call: the registers and the verdict.
  abbrev pub Judged : Tick → Bench Engine → Bench Engine → Type 0
  Judged t b next =
      (next.registers ≡ core_after t b.registers)
      × (next.simctrl.success ≡ (b.simctrl.success && answers t b.registers))
      × Ready next

  monitor_seen :
      (name : List ℕ) (pins : Pins) (b : Bench Engine)
      → Ready b
      → (is_registered name b.reg_intfs
          && ((pins.csr_access && (pins.csr_op_en || pins.trans.illegal_csr)) || not pins.rst_n))
        ≡ is_seen name pins
  unfolding is_seen is_registered
  monitor_seen name pins b h = rw h.0 (ground arith)

  monitor-Judged :
      (name : List ℕ) (pins : Pins) (b : Bench Engine)
      → Ready b
      → Judged (monitor name pins) b (monitor_tick between word name pins b)
  unfolding monitor_tick core_after answers
  monitor-Judged name pins b h = elim (Bool-cases (is_seen name pins)) [
    | inl seen ↦
        let (registers, success, listed) =
          capture-answer pins.rst_n pins.trans b.registers b.simctrl h.1 in
        rw (monitor_seen name pins b h, seen) (registers, success, (h.0, listed))
    | inr unseen ↦ rw (monitor_seen name pins b h, unseen) (refl, and_true b.simctrl.success, h)
  ]

  drive-Judged :
      (name : List ℕ) (b : Bench Engine)
      → Ready b
      → Judged (drive_tick name) b (driver_tick between word name b)
  unfolding driver_tick core_after answers request_end request_stop
  drive-Judged name b h = elim (Bool-cases (is_registered name b.reg_intfs)) [
    | inl known ↦ rw known (refl, ground arith, h)
    | inr unknown ↦ rw unknown (refl, and_true b.simctrl.success, h)
  ]

  reset-Judged :
      (name : List ℕ) (b : Bench Engine)
      → Ready b
      → Judged (reset_tick name) b (rst_tick between word name b)
  unfolding rst_tick core_after answers
  reset-Judged name b h = elim (Bool-cases (is_registered name b.rst_intfs)) [
    | inl known ↦ rw known (refl, and_true b.simctrl.success, h)
    | inr unknown ↦ rw unknown (refl, and_true b.simctrl.success, h)
  ]

  pub tick-Judged :
      (t : Tick) (b : Bench Engine) → Ready b → Judged t b (bench_tick between word t b)
  unfolding bench_tick
  tick-Judged (monitor name pins) b h = monitor-Judged name pins b h
  tick-Judged (drive_tick name) b h = drive-Judged name b h
  tick-Judged (reset_tick name) b h = reset-Judged name b h

  run-Judged :
      (ticks : List Tick) (b : Bench Engine)
      → Ready b
      → (bench_run between word ticks b).simctrl.success
        ≡ (b.simctrl.success && all_answers ticks b.registers)
  unfolding bench_run all_answers
  run-Judged [] b h = and_true b.simctrl.success
  run-Judged (t ∷ ticks) b h =
      let (registers, success, ready) = tick-Judged t b h in
      let next = bench_tick between word t b in
      run-Judged ticks next ready
      ∙ ap₂ (λ (a : Bool) (map : RegisterMap). a && all_answers ticks map) success registers
      ∙ and_assoc b.simctrl.success (answers t b.registers)
          (all_answers ticks (core_after t b.registers))

  -- After any calls of the testbench's functions the test has passed so far exactly if every answer of the
  -- core that the monitor saw is correct: an error on an address without a register, and else the value of
  -- the register that the accesses and resets before have given it. The answer on the cycle counter is free.
  pub bench_run-all_answers :
      (params : Params) (seeded : Engine) (trans : Transaction) (ticks : List Tick)
      → (bench_run between word ticks
          (env_initial between word params seeded trans)).simctrl.success
        ≡ all_answers ticks (register_model params)
  unfolding env_initial register_intf is_registered
  bench_run-all_answers params seeded trans ticks =
      run-Judged ticks (env_initial between word params seeded trans)
        (refl, addresses-register_model params)
