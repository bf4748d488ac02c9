-- ===== src/CsRegisters/Driver/Examples.antt =====
-- The theorems on the driver with an engine that counts.
use coco_ibex.Common.{ℕ, ◌+◌, ◌≤◌, ◌≡◌, refl, arith, true, false, min}
use coco_ibex.CsRegisters.Register.{csr_read}
use coco_ibex.CsRegisters.Model.{
  Params, Transaction, SimCtrl, new_transaction, register_model, model_reset,
}
use coco_ibex.CsRegisters.Model.Run.{constructed, after_reset}
use coco_ibex.CsRegisters.Driver.{Drawn, Driver, randomize_transaction, randomize}
use coco_ibex.CsRegisters.Driver.Pace.{signals, signals_lem}
use coco_ibex.CsRegisters.Driver.Known.{randomize-known}

-- The lower bound and three more, if the upper bound allows it.
abbrev counting : ℕ → ℕ → ℕ → Drawn ℕ
counting lo hi gen = record { value = min (lo + 3) hi; engine = gen + 1 }

abbrev next_word : ℕ → Drawn ℕ
next_word gen = record { value = gen; engine = gen + 1 }

in_range :
    (lo hi gen : ℕ)
    → lo ≤ hi
    → (lo ≤ (counting lo hi gen).value) × ((counting lo hi gen).value ≤ hi)
in_range lo hi gen h = (omega arith, omega arith)

abbrev first : Transaction
first = record {
  csr_op = csr_read;
  illegal_csr = false;
  csr_addr = 0x3A3;
  csr_rdata = 0;
  csr_wdata = 0;
}

abbrev fresh : Driver ℕ
fresh = record {
  transactions_driven = 0;
  delay = 1;
  reg_access = false;
  next_transaction = first;
  generator = 42;
}

abbrev running : SimCtrl
running = record { stop_requested = false; success = true }

signals_lem_example :
    (n : ℕ) × (n ≤ 200001)
    × ((signals counting next_word in_range n fresh running).stop_requested ≡ true)
    × ((signals counting next_word in_range n fresh running).success ≡ true)
signals_lem_example = signals_lem counting next_word in_range fresh running refl refl

abbrev params : Params
params = record {
  pmp_enable = true;
  pmp_granularity = 0;
  pmp_num_regions = 4;
  mhpm_counter_num = 8;
  mhpm_counter_width = 64;
}

randomize-known_example :
    (new_transaction (model_reset (register_model params)) first running).matched ≡ true
unfolding randomize randomize_transaction
randomize-known_example =
    randomize-known counting next_word fresh params (model_reset (register_model params)) first
      running (omega arith) (after_reset (register_model params) constructed) refl
