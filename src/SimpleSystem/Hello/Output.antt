-- ===== src/SimpleSystem/Hello/Output.antt =====
-- What a whole run of `main` shows on the console.
use mathlib.Core.Path.{subst}
use coco_ibex.Common.{
  sym, ap₂, dec_lt, ℕ, zero, suc, ◌+◌, ◌-◌, ◌^◌, ◌%◌, ◌≤◌, ◌<◌, ◌≡◌, refl, ◌∙◌, ap, List, ◌++◌,
  append_assoc, append-nil, arith, ◌==◌, leb, done, true, false, bit_or,
}
use coco_ibex.SimpleSystem.Console.{puts}
use coco_ibex.SimpleSystem.Coremark.{pcount_enable, pcount_reset}
use coco_ibex.SimpleSystem.Timer.{Clock, Machine, timecmp_update}
use coco_ibex.SimpleSystem.Timer.Reading.{timer_enable_lem, simple_timer_handler_lem}
use coco_ibex.SimpleSystem.Hello.{greeting, tick_line}
use coco_ibex.SimpleSystem.Hello.Run.{Program, take_interrupts, print_tick, wait_loop, hello_main}
use coco_ibex.SimpleSystem.Hello.Shown.{
  shown, shown-puts, shown-timecmp_update, greeting_text, greeting-puts, tick_lines,
  tick_line-bytes,
}

-- A machine behind so many interrupts: they are counted, and they show nothing.
record Later (count : ℕ) (m m' : Machine) : Type 0 where
  elapsed : m'.time_elapsed ≡ m.time_elapsed + count
  console : shown m'.trace ≡ shown m.trace
  enabled : (m'.mie ≡ m.mie) × (m'.mstatus ≡ m.mstatus)

-- The interrupts before the calls from `n` on, of so many calls.
abbrev total : (ℕ → ℕ) → ℕ → ℕ → ℕ
total interrupts n zero = 0
total interrupts n (suc count) = interrupts n + total interrupts (n + 1) count

-- A machine behind the loop, whose first `left` periods it has seen.
record Waited (left : ℕ) (m m' : Machine) : Type 0 where
  console : shown m'.trace ≡ shown m.trace ++ tick_lines left (m.time_elapsed + 1)
  enabled : (m'.mie ≡ m.mie) × (m'.mstatus ≡ m.mstatus)

module _ (clock : Clock) (monotone : (i j : ℕ) → i ≤ j → clock i ≤ clock j)
    (small : (n : ℕ) → clock n < 2 ^ 64) (slow : (n : ℕ) → clock (n + 5) < clock n + 2 ^ 32) where
  take_interrupts-Later :
      (count : ℕ) (m : Machine)
      → m.time_elapsed + count < 2 ^ 64
      → (m' : Machine) × (take_interrupts clock count m ≡ done m') × Later count m m'
  unfolding take_interrupts
  take_interrupts-Later zero m h =
      (m, refl, record { elapsed = omega arith; console = refl; enabled = (refl, refl) })
  take_interrupts-Later (suc count) m h =
      let (k, at, e) =
        simple_timer_handler_lem clock monotone 0 m (small (m.loads + 5)) (slow m.loads) in
      let next : Machine = record m {
        time_elapsed = (m.time_elapsed + 1) % 2 ^ 64;
        loads = k + 3;
        trace = timecmp_update ((clock (k + 1) + m.time_increment) % 2 ^ 64) m.trace;
      } in
      let (m', run, later) = take_interrupts-Later count next (omega (arith, h)) in
      (
        m',
        rw e run,
        record {
          elapsed = omega (arith, later.elapsed, h);
          console = later.console ∙ shown-timecmp_update _ m.trace;
          enabled = later.enabled;
        },
      )

  -- After a call that sees the same period as the one before, and after one that sees the next.
  Waited-same : (left : ℕ) (m a m' : Machine) → Later 0 m a → Waited left a m' → Waited left m m'
  Waited-same left m a m' h w = record {
    console =
        w.console
        ∙ ap₂ (λ (s : List ℕ) (e : ℕ). s ++ tick_lines left (e + 1)) h.console
            (h.elapsed ∙ omega arith);
    enabled = (w.enabled.0 ∙ h.enabled.0, w.enabled.1 ∙ h.enabled.1);
  }

  Waited-next :
      (left : ℕ) (m a m' : Machine)
      → Later 1 m a
      → Waited left (record a { trace = puts (tick_line a.time_elapsed) a.trace }) m'
      → Waited (suc left) m m'
  Waited-next left m a m' h w = record {
    console =
        w.console
        ∙ ap (λ (s : List ℕ). s ++ tick_lines left (a.time_elapsed + 1))
            (shown-puts (tick_line a.time_elapsed) a.trace (tick_line-bytes a.time_elapsed))
        ∙ append_assoc (shown a.trace) (tick_line a.time_elapsed) _
        ∙ ap₂ (λ (s : List ℕ) (e : ℕ). s ++ (tick_line e ++ tick_lines left (e + 1))) h.console
            h.elapsed;
    enabled = (w.enabled.0 ∙ h.enabled.0, w.enabled.1 ∙ h.enabled.1);
  }

  module _ (interrupts : ℕ → ℕ) (single : (n : ℕ) → interrupts n ≤ 1) where
    wait_loop-Waited :
        (fuel n left : ℕ) (m : Machine)
        → m.time_elapsed + left ≡ 5
        → 5 ≤ m.time_elapsed + total interrupts n fuel
        → (m' : Machine) × (wait_loop clock fuel interrupts n m.time_elapsed m ≡ done m')
          × Waited left m m'
    unfolding wait_loop print_tick
    wait_loop-Waited zero n zero m e reach =
        let over : leb m.time_elapsed 4 ≡ false = ground (arith, e) in
        (
          m,
          rw (over, wait_loop) refl,
          record { console = sym (append-nil _); enabled = (refl, refl) },
        )
    wait_loop-Waited (suc fuel) n zero m e reach =
        let over : leb m.time_elapsed 4 ≡ false = ground (arith, e) in
        (
          m,
          rw (over, wait_loop) refl,
          record { console = sym (append-nil _); enabled = (refl, refl) },
        )
    wait_loop-Waited zero n (suc left) m e reach = absurd (omega (arith, e, reach))
    wait_loop-Waited (suc fuel) n (suc left) m e reach =
        let on : leb m.time_elapsed 4 ≡ true = ground (arith, e) in
        let (a, run, later) = take_interrupts-Later (interrupts n) m (omega (arith, e, single n)) in
        elim (dec_lt 0 (interrupts n)) [
          | no none_taken ↦
              let zero_taken : interrupts n ≡ 0 = omega (arith, none_taken) in
              let same : (a.time_elapsed == m.time_elapsed) ≡ true =
                ground (arith, later.elapsed, zero_taken) in
              let (m', rest, w) =
                wait_loop-Waited fuel (n + 1) (suc left) a
                  (omega (arith, e, later.elapsed, zero_taken))
                  (omega (arith, reach, later.elapsed, zero_taken)) in
              (
                m',
                rw (on, wait_loop, run, same, print_tick) rest,
                Waited-same (suc left) m a m' (subst (λ k. Later k m a) zero_taken later) w,
              )
          | yes taken ↦
              let one_taken : interrupts n ≡ 1 = omega (arith, taken, single n) in
              let next : (a.time_elapsed == m.time_elapsed) ≡ false =
                ground (arith, later.elapsed, one_taken) in
              let (m', rest, w) =
                wait_loop-Waited fuel (n + 1) left
                  (record a { trace = puts (tick_line a.time_elapsed) a.trace })
                  (omega (arith, e, later.elapsed, one_taken))
                  (omega (arith, reach, later.elapsed, one_taken)) in
              (
                m',
                rw (on, wait_loop, run, next, print_tick) rest,
                Waited-next left m a m' (subst (λ k. Later k m a) one_taken later) w,
              )
        ]

    -- The program ends once it has seen five periods, if no two interrupts come between two calls of
    -- `get_elapsed_time`. It has then printed the greeting and, in turn, a line for each period but one that
    -- is over before the first call; the counters are stopped, and the timer's interrupt is enabled.
    pub hello_main_lem :
        (fuel : ℕ) (p : Program)
        → 5 ≤ total interrupts 0 (suc fuel)
        → (q : Program) × (hello_main clock fuel interrupts p ≡ done q)
          × (shown q.machine.trace
              ≡ shown p.machine.trace
                ++ (greeting_text ++ tick_lines (5 - interrupts 0) (interrupts 0 + 1)))
          × (q.counters.mcountinhibit ≡ 0xFFFF_FFFF)
          × (q.machine.mie ≡ bit_or p.machine.mie 0x80)
    unfolding hello_main pcount_enable
    hello_main_lem fuel p reach =
        let greeted : Machine = record p.machine { trace = greeting p.machine.trace } in
        let (k, at, e) =
          timer_enable_lem clock monotone 0 2000 greeted (small (greeted.loads + 5))
            (slow greeted.loads) in
        let enabled : Machine = record {
          time_elapsed = 0;
          time_increment = 2000;
          mie = bit_or p.machine.mie 0x80;
          mstatus = bit_or p.machine.mstatus 0x8;
          loads = k + 3;
          trace = timecmp_update ((clock (k + 1) + 2000) % 2 ^ 64) (greeting p.machine.trace);
        } in
        let (a, run, first) =
          take_interrupts-Later (interrupts 0) enabled (omega (arith, single 0)) in
        let (b, rest, w) =
          wait_loop-Waited fuel 1 (5 - interrupts 0) a (omega (arith, first.elapsed, single 0))
            (omega (arith, first.elapsed, reach)) in
        (
          record {
            counters =
                pcount_enable false
                  (pcount_enable true (pcount_reset (pcount_enable false p.counters)));
            machine = b;
          },
          rw (e, run, rest) refl,
          w.console
              ∙ ap₂ (λ (s : List ℕ) (e : ℕ). s ++ tick_lines (5 - interrupts 0) (e + 1))
                  (first.console
                    ∙ shown-timecmp_update _ (greeting p.machine.trace)
                    ∙ ap shown (greeting-puts p.machine.trace)
                    ∙ shown-puts greeting_text p.machine.trace (omega arith))
                  (first.elapsed ∙ omega arith)
              ∙ append_assoc (shown p.machine.trace) greeting_text _,
          refl,
          w.enabled.0 ∙ first.enabled.0,
        )
