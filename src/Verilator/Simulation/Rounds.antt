-- ===== src/Verilator/Simulation/Rounds.antt =====
-- The loop of `Run` against a number of rounds, and its end.
use coco_ibex.Common.{
  ℕ, zero, suc, ◌≤◌, ◌<◌, ◌≡◌, refl, arith, Bool, true, false, not, ◌&&◌, done, Bool-cases, inl,
  inr,
}
use coco_ibex.Verilator.Simulation.{Toplevel, Simulator}
use coco_ibex.Verilator.Simulation.Loop.{run_round, is_over, run_loop}

module _ {S : Type 0} (top : Toplevel S) where
  -- A number of rounds without the tests between them.
  unfoldable pub rounds : ℕ → Simulator S → Simulator S
  rounds zero s = s
  rounds (suc n) s = rounds n (run_round top s)

  pub rounds-suc : (n : ℕ) (s : Simulator S) → rounds (suc n) s ≡ run_round top (rounds n s)
  unfolding rounds
  rounds-suc zero s = refl
  rounds-suc (suc n) s = rounds-suc n (run_round top s)

  -- None of a number of rounds is the last one.
  unfoldable pub goes_on : ℕ → Simulator S → Bool
  goes_on zero s = true
  goes_on (suc n) s = not (is_over top (run_round top s)) && goes_on n (run_round top s)

  -- The loop does one round after the other up to the first one after which a test holds, and the tests
  -- change nothing.
  pub run_loop-rounds :
      (n fuel : ℕ) (s : Simulator S)
      → goes_on n s ≡ true
      → is_over top (rounds (suc n) s) ≡ true
      → n < fuel
      → run_loop top fuel s ≡ done (rounds (suc n) s)
  unfolding run_loop rounds goes_on
  run_loop-rounds n zero s on over enough = absurd (omega (arith, enough))
  run_loop-rounds zero (suc fuel) s on over enough = rw over refl
  run_loop-rounds (suc n) (suc fuel) s on over enough =
      let after = run_round top s in
      let not_yet : is_over top after ≡ false = ground (arith, on) in
      let later = run_loop-rounds n fuel after (ground (arith, on)) over (omega (arith, enough)) in
      rw not_yet later

  -- The loop ends no later than after a round that a test ends.
  pub run_loop-ends :
      (n fuel : ℕ) (s : Simulator S)
      → is_over top (rounds (suc n) s) ≡ true
      → n < fuel
      → (k : ℕ) × (k ≤ n)
        × (run_loop top fuel s ≡ done (rounds (suc k) s))
        × (is_over top (rounds (suc k) s) ≡ true)
  unfolding run_loop rounds
  run_loop-ends n zero s over enough = absurd (omega (arith, enough))
  run_loop-ends zero (suc fuel) s over enough = (0, omega arith, rw over refl, over)
  run_loop-ends (suc n) (suc fuel) s over enough =
      elim (Bool-cases (is_over top (run_round top s))) [
        | inl here ↦ (0, omega arith, rw here refl, here)
        | inr not_yet ↦
            let later = run_loop-ends n fuel (run_round top s) over (omega (arith, enough)) in
            (suc later.0, omega (arith, later.1), rw not_yet later.2, later.3)
      ]
