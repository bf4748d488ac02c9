-- ===== src/Verilator/Simulation/Stop.antt =====
-- A simulation says why it ends.
use mathlib.Core.Path.{subst}
use coco_ibex.Common.{
  ℕ, zero, suc, ◌/◌, ◌<◌, ◌≤◌, not, ◌&&◌, ◌==◌, leb, ◌≡◌, refl, ◌∙◌, ap, sym, arith, Bool, true,
  false, List, ◌++◌, append_assoc, Outcome, done, fault, ◌>>=◌, Bool-cases, inl, inr, if◌then◌else◌,
  codes,
}
use coco_ibex.Verilator.Simulation.{Toplevel, Simulator, unset_reset}
use coco_ibex.Verilator.Simulation.Loop.{
  sign_extended, run_round, is_over, run_loop, start_run, eval_top,
}
use coco_ibex.Verilator.Simulation.Log.{
  Host, int_text, trace_text, before_trace, stop_text, loop_messages, run_messages,
}

done_injective : {A : Type 0} {a b : A} → done a ≡ done b → a ≡ b
done_injective e = cc

guarded : {A : Type 0} (b : Bool) (m : Outcome A) → b ≡ true → (if b then m else fault) ≡ m
guarded true m e = refl
guarded false m e = cc

module _ {S : Type 0} (h : Host) (top : Toplevel S) where
  -- Why a simulation ends, with the line that says so.
  pub data Ending (s : Simulator S) : List ℕ → Type 0 where
    requested :
        s.request_stop ≡ true
        → Ending s (codes "Received stop request, shutting down simulation.\n")
    finished :
        s.request_stop ≡ false
        → top.got_finish s.state ≡ true
        → Ending s (codes "Received $finish() from Verilog, shutting down simulation.\n")
    timed_out :
        s.request_stop ≡ false
        → top.got_finish s.state ≡ false
        → 0 < s.term_after_cycles
        → sign_extended s.term_after_cycles ≤ s.time / 2
        → Ending s (
            codes "Simulation timeout of "
            ++ (int_text s.term_after_cycles
                ++ codes " cycles reached, shutting down simulation.\n"))

  stop_text-Ending : (s : Simulator S) → is_over top s ≡ true → Ending s (stop_text h top s)
  unfolding is_over stop_text
  stop_text-Ending s over = elim (Bool-cases s.request_stop) [
    | inl stop ↦ subst (Ending s) (rw stop refl) (requested stop)
    | inr on ↦ elim (Bool-cases (top.got_finish s.state)) [
      | inl over_now ↦ subst (Ending s) (rw (on, over_now) refl) (finished on over_now)
      | inr unfinished ↦
          let late : (not (s.term_after_cycles == 0)
                && leb (sign_extended s.term_after_cycles) (s.time / 2))
              ≡ true =
            ground (arith, over, on, unfinished) in
          subst (Ending s) (rw (on, unfinished, late) refl)
            (timed_out on unfinished (ground (arith, late)) (ground (arith, late)))
    ]
  ]

  loop_messages-stop :
      (fuel : ℕ) (s out : Simulator S)
      → run_loop top fuel s ≡ done out
      → (text : List ℕ) × (loop_messages h top fuel s ≡ done (text ++ stop_text h top out))
        × (is_over top out ≡ true)
  unfolding run_loop loop_messages
  loop_messages-stop zero s out e = cc
  loop_messages-stop (suc fuel) s out e = elim (Bool-cases (is_over top (run_round top s))) [
    | inl over ↦
        let here : run_round top s ≡ out = done_injective (rw over at e) in
        (
          trace_text h (before_trace h top s),
          rw over (
              ap
                (λ (o : Simulator S).
                  done (trace_text h (before_trace h top s) ++ stop_text h top o))
                here),
          ap (is_over top) (sym here) ∙ over,
        )
    | inr on ↦
        let (text, later, over) = loop_messages-stop fuel (run_round top s) out (rw on at e) in
        (
          trace_text h (before_trace h top s) ++ text,
          rw (on, later)
              (ap done (
                sym
                  (append_assoc (trace_text h (before_trace h top s)) text (stop_text h top out)))),
          over,
        )
  ]

  -- The messages of a run whose loop ends are some text and then, as the last line, why it ended: that a stop
  -- was requested, else that the design called `$finish`, else that the timeout was reached, with its cycles.
  pub run_messages-stop :
      (fuel : ℕ) (s out : Simulator S)
      → s.top_set ≡ true
      → run_loop top fuel (start_run top s) ≡ done out
      → (text : List ℕ) × (last : List ℕ) × (run_messages h top fuel s ≡ done (text ++ last))
        × Ending out last
  unfolding run_messages
  run_messages-stop fuel s out set e =
      let (text, looped, over) = loop_messages-stop fuel (start_run top s) out e in
      let opening = codes "\nSimulation running, end by pressing CTRL-c.\n" in
      let traced = if s.tracing_possible then record s { state = top.start_trace s.state } else s in
      let begun = unset_reset (eval_top top traced) in
      (
        opening ++ (trace_text h begun ++ text),
        stop_text h top out,
        guarded s.top_set _ set
            ∙ ap
                (λ (m : Outcome (List ℕ)).
                  m >>= (λ (t : List ℕ). done (opening ++ (trace_text h begun ++ t))))
                looped
            ∙ ap done (
                ap (λ (t : List ℕ). opening ++ t)
                  (sym (append_assoc (trace_text h begun) text (stop_text h top out)))
                ∙ sym (append_assoc opening (trace_text h begun ++ text) (stop_text h top out))),
        stop_text-Ending out over,
      )
