-- ===== src/Led/Delay.antt =====
-- How long the delay loop runs.
use coco_ibex.Common.{
  ℕ, zero, suc, ◌+◌, ◌-◌, ◌*◌, ◌/◌, ◌%◌, ◌^◌, ◌≤◌, ◌<◌, ◌≡◌, refl, ap, ◌∙◌, false, done, arith,
  dec_lt, ◌==◌,
}
use coco_ibex.Led.{delay_loop, delay_loop_ibex, usec_cycles, usleep_ibex, usleep}

-- From a positive count the loop makes that many rounds.
delay_loop_lem :
    (fuel loops cycles : ℕ)
    → 0 < loops
    → loops < 2 ^ 32
    → loops ≤ fuel
    → delay_loop fuel loops cycles ≡ done (cycles + (8 * loops - 2))
unfolding delay_loop
delay_loop_lem zero loops cycles p h k = absurd (omega (arith, p, k))
delay_loop_lem (suc fuel) loops cycles p h k =
    let left : (loops + (2 ^ 32 - 1)) % 2 ^ 32 ≡ loops - 1 = omega (arith, p, h) in
    elim (dec_lt 1 loops) [
      | yes more ↦
          let later : ((loops + (2 ^ 32 - 1)) % 2 ^ 32 == 0) ≡ false = ground (arith, more, left) in
          let sum : cycles + 8 + (8 * (loops - 1) - 2) ≡ cycles + (8 * loops - 2) =
            omega (arith, more) in
          rw (later, delay_loop, left)
            (delay_loop_lem fuel (loops - 1) (cycles + 8) (omega (arith, more)) (omega (arith, h))
                (omega (arith, k))
              ∙ ap done sum)
      | no last ↦ let one : loops ≡ 1 = omega (arith, p, last) in rw (one, delay_loop) refl
    ]

delay_loop_ibex_lem :
    (loops : ℕ) → 0 < loops → loops < 2 ^ 32 → delay_loop_ibex loops ≡ done (8 * loops - 2)
unfolding delay_loop_ibex
delay_loop_ibex_lem loops p h =
    let sum : 0 + (8 * loops - 2) ≡ 8 * loops - 2 = omega arith in
    delay_loop_lem (2 ^ 32) loops 0 p h (omega (arith, h)) ∙ ap done sum

-- From zero the count wraps around, and the loop makes 2^32 rounds.
delay_loop-zero : (fuel : ℕ) → 2 ^ 32 ≤ suc fuel → delay_loop (suc fuel) 0 0 ≡ done (8 * 2 ^ 32 - 2)
unfolding delay_loop
delay_loop-zero fuel h =
    delay_loop_lem fuel (2 ^ 32 - 1) 8 (omega arith) (omega arith) (omega (arith, h))

usleep-zero : usleep 0 ≡ done (8 * 2 ^ 32 - 2)
unfolding usleep usleep_ibex delay_loop_ibex usec_cycles
usleep-zero = delay_loop-zero (2 ^ 32 - 1) (omega arith)

usec_cycles_lem : (usec : ℕ) → 50 * usec < 8 * 2 ^ 32 → usec_cycles usec ≡ 50 * usec / 8
unfolding usec_cycles
usec_cycles_lem usec h = omega (arith, h)

-- A wait for a whole number of rounds is short by the two cycles that the last branch does not take.
pub usleep-exact :
    (usec : ℕ)
    → 8 ≤ 50 * usec
    → 50 * usec < 8 * 2 ^ 32
    → 50 * usec % 8 ≡ 0
    → usleep usec ≡ done (50 * usec - 2)
unfolding usleep usleep_ibex
usleep-exact usec lo hi e =
    let whole : 8 * (50 * usec / 8) - 2 ≡ 50 * usec - 2 = omega (arith, e) in
    rw (usec_cycles_lem usec hi)
      (delay_loop_ibex_lem (50 * usec / 8) (omega (arith, lo)) (omega (arith, hi)) ∙ ap done whole)

-- A wait for at least one round and at most 2^32 of them ends, and it is never longer than the 50 cycles of
-- a microsecond for each, and shorter by two at least and nine at most.
pub usleep-cycles :
    (usec : ℕ)
    → 8 ≤ 50 * usec
    → 50 * usec < 8 * 2 ^ 32
    → (cycles : ℕ) × (usleep usec ≡ done cycles)
      × (cycles + 2 ≤ 50 * usec)
      × (50 * usec ≤ cycles + 9)
unfolding usleep usleep_ibex
usleep-cycles usec lo hi = (
  8 * (50 * usec / 8) - 2,
  rw (usec_cycles_lem usec hi)
      (delay_loop_ibex_lem (50 * usec / 8) (omega (arith, lo)) (omega (arith, hi))),
  omega arith,
  omega arith,
)
