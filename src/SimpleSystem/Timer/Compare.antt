-- ===== src/SimpleSystem/Timer/Compare.antt =====
-- The compare register of the timer (shared/rtl/timer.sv) while `timecmp_update` writes its halves.
use coco_ibex.Common.{
  ℕ, ◌+◌, ◌*◌, ◌/◌, ◌%◌, ◌^◌, ◌<◌, ◌≡◌, arith, ◌==◌, if◌then◌else◌, List, [], ◌∷◌, ◌++◌,
  append_assoc, All,
}
use coco_ibex.SimpleSystem.Console.{DevWrite, Trace, dev_write}
use coco_ibex.SimpleSystem.Timer.{timer_base, timer_mtimecmp, timer_mtimecmph, timecmp_update}

-- `mtimecmp_q` after a store of a whole word.
unfoldable pub store_timecmp : ℕ → DevWrite → ℕ
store_timecmp mtimecmp w =
    if w.addr == timer_base + timer_mtimecmp
    then mtimecmp / 2 ^ 32 * 2 ^ 32 + w.val
    else if w.addr == timer_base + timer_mtimecmph
    then w.val * 2 ^ 32 + mtimecmp % 2 ^ 32
    else mtimecmp

-- The values that the register takes, one for each store.
unfoldable pub compare_values : ℕ → Trace → List ℕ
compare_values mtimecmp [] = []
compare_values mtimecmp (w ∷ rest) =
    let next = store_timecmp mtimecmp w in next ∷ compare_values next rest

unfoldable pub last_value : ℕ → List ℕ → ℕ
last_value value [] = value
last_value value (next ∷ rest) = last_value next rest

-- The stores of one update.
abbrev pub update_stores : ℕ → Trace
update_stores new_time = timecmp_update new_time []

timecmp_update-append :
    (new_time : ℕ) (t : Trace) → timecmp_update new_time t ≡ t ++ update_stores new_time
unfolding timecmp_update dev_write
timecmp_update-append new_time t = simp append_assoc

-- After an update the register has the new time, and at no store in between is it earlier than both
-- the old and the new time: a time before both stays before it, so no interrupt is raised early.
pub timecmp_update-safe :
    (old new now : ℕ) (t : Trace)
    → old < 2 ^ 64
    → new < 2 ^ 64
    → now < old
    → now < new
    → (timecmp_update new t ≡ t ++ update_stores new)
      × All (λ (c : ℕ). now < c) (compare_values old (update_stores new))
      × (last_value old (compare_values old (update_stores new)) ≡ new)
unfolding compare_values store_timecmp last_value timecmp_update dev_write
timecmp_update-safe old new now t old_lt new_lt before_old before_new =
    (timecmp_update-append new t, (omega arith, (omega arith, (omega arith, tt))), omega arith)
