-- ===== src/SimpleSystem/Timer/Reading.antt =====
-- The time that `timer_read` gives, and what the timer's interrupt handler does.
use coco_ibex.Common.{
  ℕ, suc, ◌+◌, ◌*◌, ◌/◌, ◌%◌, ◌^◌, ◌≤◌, ◌<◌, ◌≡◌, ◌≢◌, ◌⊎◌, inl, inr, refl, ap, ◌∙◌, arith, bit_or,
  ◌==◌, done, true, false, ℕ_discrete,
}
use coco_ibex.Common.Bits.{bit_or-shift}
use coco_ibex.SimpleSystem.Timer.{
  Clock, Machine, dev_read, timer_read, timecmp_update, increment_timecmp, timer_enable,
  simple_timer_handler,
}

module _ (clock : Clock) (monotone : (i j : ℕ) → i ≤ j → clock i ≤ clock j) where
  -- A round that finds the same upper half twice has read the time of its second load.
  round_time :
      (n : ℕ)
      → clock (n + 2) < 2 ^ 64
      → clock n / 2 ^ 32 % 2 ^ 32 ≡ clock (n + 2) / 2 ^ 32 % 2 ^ 32
      → bit_or (clock n / 2 ^ 32 % 2 ^ 32 * 2 ^ 32) (clock (n + 1) % 2 ^ 32) ≡ clock (n + 1)
  round_time n lt e =
      bit_or-shift 32 (clock n / 2 ^ 32 % 2 ^ 32) (clock (n + 1) % 2 ^ 32) (omega arith)
      ∙ omega
          (arith, e, monotone n (n + 1) (omega arith), monotone (n + 1) (n + 2) (omega arith), lt)

  round_done :
      (fuel n : ℕ)
      → clock (n + 2) < 2 ^ 64
      → clock n / 2 ^ 32 % 2 ^ 32 ≡ clock (n + 2) / 2 ^ 32 % 2 ^ 32
      → timer_read (suc fuel) clock n ≡ done (record { final_time = clock (n + 1); loads = n + 3 })
  unfolding timer_read dev_read
  round_done fuel n lt e =
      let test : (clock n / 2 ^ 32 % 2 ^ 32 == clock (n + 2) / 2 ^ 32 % 2 ^ 32) ≡ true =
        ground arith in
      rw (test, round_time n lt e) refl

  round_again :
      (fuel n : ℕ)
      → clock n / 2 ^ 32 % 2 ^ 32 ≢ clock (n + 2) / 2 ^ 32 % 2 ^ 32
      → timer_read (suc fuel) clock n ≡ timer_read fuel clock (n + 3)
  unfolding timer_read dev_read
  round_again fuel n ne =
      let test : (clock n / 2 ^ 32 % 2 ^ 32 == clock (n + 2) / 2 ^ 32 % 2 ^ 32) ≡ false =
        ground arith in
      rw test refl

  n_plus_five : (n : ℕ) → n + 3 + 2 ≡ n + 5
  n_plus_five n = omega arith

  -- A change of the upper half is not followed by another one soon.
  second_round :
      (n : ℕ)
      → clock (n + 5) < 2 ^ 64
      → clock (n + 5) < clock n + 2 ^ 32
      → clock n / 2 ^ 32 % 2 ^ 32 ≢ clock (n + 2) / 2 ^ 32 % 2 ^ 32
      → clock (n + 3) / 2 ^ 32 % 2 ^ 32 ≡ clock (n + 3 + 2) / 2 ^ 32 % 2 ^ 32
  second_round n lt slow ne =
      let same : clock (n + 3 + 2) ≡ clock (n + 5) = ap clock (n_plus_five n) in
      rw same (
        omega (
          arith,
          slow,
          ne,
          monotone n (n + 2) (omega arith),
          monotone (n + 2) (n + 3) (omega arith),
          monotone (n + 3) (n + 5) (omega arith),
          lt,
        ))

  -- If over six loads the time stays below 2 ^ 64 and advances by less than 2 ^ 32, two rounds are enough, and the result is
  -- the time at the load of the lower half in the last of them.
  pub timer_read_lem :
      (fuel n : ℕ)
      → clock (n + 5) < 2 ^ 64
      → clock (n + 5) < clock n + 2 ^ 32
      → (k : ℕ) × ((k ≡ n) ⊎ (k ≡ n + 3))
        × (timer_read (suc (suc fuel)) clock n
            ≡ done (record { final_time = clock (k + 1); loads = k + 3 }))
  timer_read_lem fuel n lt slow =
      elim (ℕ_discrete (clock n / 2 ^ 32 % 2 ^ 32) (clock (n + 2) / 2 ^ 32 % 2 ^ 32)) [
        | yes e ↦ (
          n,
          inl refl,
          round_done (suc fuel) n (omega (arith, lt, monotone (n + 2) (n + 5) (omega arith))) e,
        )
        | no ne ↦ (
          n + 3,
          inr refl,
          round_again (suc fuel) n ne
              ∙ round_done fuel (n + 3) (omega (arith, lt, ap clock (n_plus_five n)))
                  (second_round n lt slow ne),
        )
      ]

  -- Under the same condition `timer_enable` ends: it sets the compare register to the time read and the
  -- period, starts the count of periods at 0, and enables the timer's interrupt and interrupts at all.
  pub timer_enable_lem :
      (fuel time_base : ℕ) (m : Machine)
      → clock (m.loads + 5) < 2 ^ 64
      → clock (m.loads + 5) < clock m.loads + 2 ^ 32
      → (k : ℕ) × ((k ≡ m.loads) ⊎ (k ≡ m.loads + 3))
        × (timer_enable (suc (suc fuel)) clock time_base m
            ≡ done (record {
              time_elapsed = 0;
              time_increment = time_base;
              mie = bit_or m.mie 0x80;
              mstatus = bit_or m.mstatus 0x8;
              loads = k + 3;
              trace = timecmp_update ((clock (k + 1) + time_base) % 2 ^ 64) m.trace;
            }))
  unfolding timer_enable increment_timecmp
  timer_enable_lem fuel time_base m lt slow =
      let (k, at, e) = timer_read_lem fuel m.loads lt slow in (k, at, rw e refl)

  -- Under the same condition the handler of the timer's interrupt ends, makes the stores that set the
  -- compare register to the time read and the period, and counts one period more.
  pub simple_timer_handler_lem :
      (fuel : ℕ) (m : Machine)
      → clock (m.loads + 5) < 2 ^ 64
      → clock (m.loads + 5) < clock m.loads + 2 ^ 32
      → (k : ℕ) × ((k ≡ m.loads) ⊎ (k ≡ m.loads + 3))
        × (simple_timer_handler (suc (suc fuel)) clock m
            ≡ done (record m {
              time_elapsed = (m.time_elapsed + 1) % 2 ^ 64;
              loads = k + 3;
              trace = timecmp_update ((clock (k + 1) + m.time_increment) % 2 ^ 64) m.trace;
            }))
  unfolding simple_timer_handler increment_timecmp
  simple_timer_handler_lem fuel m lt slow =
      let (k, at, e) = timer_read_lem fuel m.loads lt slow in (k, at, rw e refl)
