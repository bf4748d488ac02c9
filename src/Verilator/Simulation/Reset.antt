-- ===== src/Verilator/Simulation/Reset.antt =====
-- The clock, the time and the reset over the rounds of the loop, and the timeout.
use coco_ibex.Common.{
  ℕ, zero, suc, ◌+◌, ◌-◌, ◌*◌, ◌/◌, ◌%◌, ◌^◌, ◌≤◌, ◌<◌, ◌≡◌, arith, true, ◌&&◌, ◌||◌, ◌==◌, ltb,
  leb, done, if◌then◌else◌, ap, ap₂, ◌∙◌, Bool-cases, inl, inr, ◌⊎◌,
}
use coco_ibex.Verilator.Simulation.{Toplevel, Simulator}
use coco_ibex.Verilator.Simulation.Loop.{is_over, sign_extended, run_loop}
use coco_ibex.Verilator.Simulation.Core.{
  Core, inactive, active, core_reset, core_edge, core_of, run_round-core,
}
use coco_ibex.Verilator.Simulation.Rounds.{rounds, rounds-suc, run_loop-ends}

-- The level of the reset in the cycle of a time: active from the end of the delay on for the duration.
unfoldable pub reset_level : Core → ℕ → ℕ
reset_level c time =
    if leb c.initial_delay (time / 2) && ltb (time / 2) (c.initial_delay + c.duration)
    then active c
    else inactive c

-- What a number of rounds from the time 0 make of it.
unfoldable level_after : Core → ℕ → ℕ
level_after c zero = inactive c
level_after c (suc n) = reset_level c n

unfoldable core_at : Core → ℕ → Core
core_at c n = record c { time = n; sig_clk = n % 2; sig_rst = level_after c n }

-- The clock is low at the time 0, and the delay and the duration have no overflow together.
abbrev Fresh : Core → Type 0
Fresh c =
    (c.time ≡ 0)
    × (c.sig_clk ≡ 0)
    × (c.sig_rst ≡ inactive c)
    × (c.initial_delay + c.duration < 2 ^ 32)

next_clock : (n : ℕ) → (if n % 2 == 0 then 1 else 0) ≡ suc n % 2
next_clock n = elim (Bool-cases (n % 2 == 0)) [
  | inl even ↦ let e : n % 2 ≡ 0 = ground (arith, even) in rw even (omega (arith, e))
  | inr odd ↦ let e : n % 2 ≡ 1 = ground (arith, odd) in rw odd (omega (arith, e))
]

-- The reset that a round drives, at the time of the round.
next_level :
    (c : Core) (n : ℕ)
    → c.initial_delay + c.duration < 2 ^ 32
    → (core_reset (core_at c n)).sig_rst ≡ reset_level c n
unfolding core_at level_after reset_level core_reset
next_level c zero small =
    let sum : (c.duration + c.initial_delay) % 2 ^ 32 ≡ c.initial_delay + c.duration =
      omega (arith, small) in
    rw sum (ground (arith, small))
next_level c (suc n) small =
    let sum : (c.duration + c.initial_delay) % 2 ^ 32 ≡ c.initial_delay + c.duration =
      omega (arith, small) in
    let order : n / 2 ≤ suc n / 2 = omega arith in rw sum (ground (arith, small, order))

core_at-suc :
    (c : Core) (n : ℕ)
    → c.initial_delay + c.duration < 2 ^ 32
    → suc n < 2 ^ 64
    → core_edge (core_reset (core_at c n)) ≡ core_at c (suc n)
unfolding core_at level_after core_edge core_reset
core_at-suc c n small fits =
    let time : (n + 1) % 2 ^ 64 ≡ suc n = omega (arith, fits) in
    ap
      (λ (l : ℕ). record c {
        time = (n + 1) % 2 ^ 64;
        sig_clk = if n % 2 == 0 then 1 else 0;
        sig_rst = l;
      })
      (next_level c n small)
    ∙ ap₂ (λ (t k : ℕ). record c { time = t; sig_clk = k; sig_rst = reset_level c n }) time
        (next_clock n)

core_at-zero : (c : Core) → Fresh c → c ≡ core_at c 0
unfolding core_at level_after
core_at-zero c f =
    ap₂ (λ (t k : ℕ). record c { time = t; sig_clk = k }) f.0 f.1
    ∙ ap (λ (l : ℕ). record c { time = 0; sig_clk = 0; sig_rst = l }) f.2

sign_extended-small : (n : ℕ) → n < 2 ^ 31 → sign_extended n ≡ n
unfolding sign_extended
sign_extended-small n h = ground (arith, h)

module _ {S : Type 0} (top : Toplevel S) where
  is_over-cases :
      (s : Simulator S)
      → is_over top s ≡ true
      → ((s.request_stop || top.got_finish s.state) ≡ true)
        ⊎ (sign_extended s.term_after_cycles ≤ s.time / 2)
  unfolding is_over
  is_over-cases s h = elim (Bool-cases (s.request_stop || top.got_finish s.state)) [
    | inl stopped ↦ inl stopped
    | inr goes ↦ inr (ground (arith, h, goes))
  ]

  is_over-timeout :
      (s : Simulator S)
      → 0 < s.term_after_cycles
      → sign_extended s.term_after_cycles ≤ s.time / 2
      → is_over top s ≡ true
  unfolding is_over
  is_over-timeout s positive late = ground (arith, positive, late)

  rounds-core_at :
      (n : ℕ) (s : Simulator S)
      → Fresh (core_of s)
      → n < 2 ^ 64
      → core_of (rounds top n s) ≡ core_at (core_of s) n
  unfolding rounds core_at level_after
  rounds-core_at zero s f fits = core_at-zero (core_of s) f
  rounds-core_at (suc n) s f fits =
      ap core_of (rounds-suc top n s)
      ∙ run_round-core top (rounds top n s)
      ∙ ap (λ (c : Core). core_edge (core_reset c)) (rounds-core_at n s f (omega (arith, fits)))
      ∙ core_at-suc (core_of s) n f.3 fits

  -- Whatever the design, the extensions and the signals do: after the round that begins at a time, counted
  -- from a fresh start, the clock has been toggled once more, and the reset has been active in the round
  -- exactly if the cycle is one of the reset's duration behind the initial delay.
  pub rounds-reset :
      (n : ℕ) (s : Simulator S)
      → Fresh (core_of s)
      → suc n < 2 ^ 64
      → ((rounds top (suc n) s).time ≡ suc n)
        × ((rounds top (suc n) s).sig_clk ≡ suc n % 2)
        × ((rounds top (suc n) s).sig_rst ≡ reset_level (core_of s) n)
  unfolding core_at level_after core_of
  rounds-reset n s f fits =
      let e = rounds-core_at (suc n) s f fits in
      (ap (λ (c : Core). c.time) e, ap (λ (c : Core). c.sig_clk) e, ap (λ (c : Core). c.sig_rst) e)

  rounds-timed :
      (n : ℕ) (s : Simulator S)
      → Fresh (core_of s)
      → n < 2 ^ 64
      → ((rounds top n s).time ≡ n) × ((rounds top n s).term_after_cycles ≡ s.term_after_cycles)
  unfolding core_at core_of
  rounds-timed n s f fits =
      let e = rounds-core_at n s f fits in
      (ap (λ (c : Core). c.time) e, ap (λ (c : Core). c.term_after_cycles) e)

  -- With a timeout, and without an overflow of the time, the loop ends: no later than at the timeout, and
  -- before it only on a request to stop or a `$finish`.
  pub run_loop-timeout :
      (fuel : ℕ) (s : Simulator S)
      → Fresh (core_of s)
      → 0 < s.term_after_cycles
      → s.term_after_cycles < 2 ^ 31
      → 2 * s.term_after_cycles ≤ fuel
      → (out : Simulator S) × (run_loop top fuel s ≡ done out)
        × (out.time ≤ 2 * s.term_after_cycles)
        × (((out.request_stop || top.got_finish out.state) ≡ true)
            ⊎ (out.time ≡ 2 * s.term_after_cycles))
  run_loop-timeout fuel s f positive small enough =
      let t = s.term_after_cycles in
      let n = 2 * t - 1 in
      let last = rounds-timed (suc n) s f (omega (arith, small, positive)) in
      let late : sign_extended (rounds top (suc n) s).term_after_cycles
          ≤ (rounds top (suc n) s).time / 2 =
        omega (arith, ap sign_extended last.1, sign_extended-small t small, last.0) in
      let over = is_over-timeout (rounds top (suc n) s) (omega (arith, last.1, positive)) late in
      let ended = run_loop-ends top n fuel s over (omega (arith, enough, positive)) in
      let k = ended.0 in
      let out = rounds top (suc k) s in
      let at = rounds-timed (suc k) s f (omega (arith, ended.1, small)) in
      let reason : ((out.request_stop || top.got_finish out.state) ≡ true) ⊎ (out.time ≡ 2 * t) =
        elim (is_over-cases out ended.3) [
          | inl stopped ↦ inl stopped
          | inr timeout ↦ inr (
              omega
                (arith, timeout, ap sign_extended at.1, sign_extended-small t small, at.0, ended.1))
        ] in
      (out, ended.2, omega (arith, at.0, ended.1), reason)
