-- ===== src/SimpleSystem/Hello/Shown.antt =====
-- What the stores of examples/sw/simple_system/hello_test/hello_test.c show on the console.
use coco_ibex.Common.{
  Bool-cases, sym, ℕ, zero, suc, ◌+◌, ◌^◌, ◌%◌, ◌<◌, ◌≡◌, refl, ◌∙◌, ap, List, [], ◌∷◌, ◌++◌,
  append_assoc, append-nil, arith, ◌==◌, if◌then◌else◌, codes, All, inl, inr, bit_and,
}
use coco_ibex.SimpleSystem.Console.{
  Trace, dev_write, putchar, puts, puthex, puthex_loop, sim_ctrl_base, sim_ctrl_out,
}
use coco_ibex.SimpleSystem.Timer.{timecmp_update}
use coco_ibex.SimpleSystem.Hello.{greeting, tick_line}

-- The bytes on the console: the words stored to its register.
unfoldable pub shown : Trace → List ℕ
shown [] = []
shown (w ∷ t) = if w.addr == sim_ctrl_base + sim_ctrl_out then w.val ∷ shown t else shown t

shown-append : (t u : Trace) → shown (t ++ u) ≡ shown t ++ shown u
unfolding shown
shown-append [] u = refl
shown-append (w ∷ t) u = ground (arith, shown-append t u)

shown-putchar : (c : ℕ) (t : Trace) → c < 2 ^ 8 → shown (putchar c t) ≡ shown t ++ c ∷ []
unfolding putchar dev_write
shown-putchar c t h =
    let byte : c % 2 ^ 8 % 2 ^ 32 ≡ c = omega arith in
    rw byte (
      shown-append t (record { addr = sim_ctrl_base + sim_ctrl_out; val = c } ∷ [])
      ∙ unfold shown in refl)

pub shown-puts : (s : List ℕ) (t : Trace) → All (λ c. c < 2 ^ 8) s → shown (puts s t) ≡ shown t ++ s
unfolding puts
shown-puts [] t h = sym (append-nil (shown t))
shown-puts (c ∷ s) t h =
    shown-puts s (putchar c t) h.1
    ∙ ap (λ u. u ++ s) (shown-putchar c t h.0)
    ∙ append_assoc (shown t) (c ∷ []) s

-- The timer's stores show nothing.
pub shown-timecmp_update : (time : ℕ) (t : Trace) → shown (timecmp_update time t) ≡ shown t
unfolding timecmp_update dev_write shown
shown-timecmp_update time t = simp (shown-append, append-nil)

abbrev pub greeting_text : List ℕ
greeting_text = codes "Hello simple system\nDEADBEEF\nBAADF00D\n"

pub greeting-puts : (t : Trace) → greeting t ≡ puts greeting_text t
unfolding greeting puthex puthex_loop puts
greeting-puts t = refl

-- The lines of so many periods from `time` on.
abbrev pub tick_lines : ℕ → ℕ → List ℕ
tick_lines zero time = []
tick_lines (suc left) time = tick_line time ++ tick_lines left (time + 1)

pub tick_line-bytes : (time : ℕ) → All (λ c. c < 2 ^ 8) (tick_line time)
unfolding tick_line
tick_line-bytes time = elim (Bool-cases (bit_and time 1 == 0)) [
  | inl even ↦ rw even (omega arith)
  | inr odd ↦ rw odd (omega arith)
]
