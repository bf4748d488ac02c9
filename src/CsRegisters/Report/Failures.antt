-- ===== src/CsRegisters/Report/Failures.antt =====
-- A failure is always reported, and nothing else is.
use coco_ibex.Common.{
  ℕ, ◌≡◌, ◌≢◌, refl, ◌∙◌, ap, ap₂, Bool, false, List, [], ◌∷◌, ◌++◌, if◌then◌else◌, arith, ◌⊎◌, inl,
  inr,
}
use coco_ibex.CsRegisters.Register.{Register, RegisterMap}
use coco_ibex.CsRegisters.Model.{
  Transaction, SimCtrl, Handled, is_mismatch, request_stop, process_transaction, process_loop,
  new_transaction,
}
use coco_ibex.CsRegisters.Report.Messages.{
  mismatch_text, process_text, loop_text, unmatched_text, new_transaction_text,
}

-- The core's answer on the cycle counter is not compared.
abbrev IsCompared : Transaction → Type 0
IsCompared trans = (trans.csr_addr ≢ 0xB00) × (trans.csr_addr ≢ 0xB80)

-- The simulation control is untouched and nothing is printed, or a failure is requested and something is.
abbrev pub Reports : SimCtrl → SimCtrl → List ℕ → Type 0
Reports before after text =
    ((after ≡ before) × (text ≡ [])) ⊎ ((after ≡ request_stop false before) × (text ≢ []))

nonempty : (c : ℕ) (s : List ℕ) → c ∷ s ≢ []
nonempty c s = cc

-- A second failure asks for the same.
request_stop_idem :
    (sc : SimCtrl) → request_stop false (request_stop false sc) ≡ request_stop false sc
unfolding request_stop
request_stop_idem sc = ground arith

append-ne_left : (s t : List ℕ) → s ≢ [] → s ++ t ≢ []
append-ne_left [] t h = absurd (h refl)
append-ne_left (c ∷ s) t h = nonempty c (s ++ t)

append-ne_right : (s t : List ℕ) → t ≢ [] → s ++ t ≢ []
append-ne_right [] t h = h
append-ne_right (c ∷ s) t h = nonempty c (s ++ t)

Reports-append :
    (a b c : SimCtrl) (s t : List ℕ) → Reports a b s → Reports b c t → Reports a c (s ++ t)
Reports-append a b c s t (inl (e, f)) (inl (e', f')) = inl (e' ∙ e, ap₂ ◌++◌ f f')
Reports-append a b c s t (inl (e, f)) (inr (e', g)) =
    inr (e' ∙ ap (request_stop false) e, append-ne_right s t g)
Reports-append a b c s t (inr (e, f)) (inl (e', g)) = inr (e' ∙ e, append-ne_left s t f)
Reports-append a b c s t (inr (e, f)) (inr (e', g)) =
    inr (e' ∙ ap (request_stop false) e ∙ request_stop_idem a, append-ne_left s t f)

Reports-process :
    (map : RegisterMap) (r : Register) (trans : Transaction) (matched : Bool) (sc : SimCtrl)
    → IsCompared trans
    → Reports sc
        (if (process_transaction map r trans matched).failed then request_stop false sc else sc)
        (process_text r trans)
unfolding process_transaction process_text mismatch_text is_mismatch
Reports-process map r trans matched sc h = ground (arith, h)

Reports-loop :
    (before rest : RegisterMap) (trans : Transaction) (matched : Bool) (sc : SimCtrl)
    → IsCompared trans
    → Reports sc (process_loop before rest trans matched sc).simctrl (loop_text rest trans)
unfolding process_loop loop_text
Reports-loop before [] trans matched sc h = inl (refl, refl)
Reports-loop before (r ∷ rest) trans matched sc h =
    let p = process_transaction (before ++ r ∷ rest) r trans matched in
    Reports-append sc (if p.failed then request_stop false sc else sc) _ (process_text r trans)
      (loop_text rest trans) (Reports-process (before ++ r ∷ rest) r trans matched sc h)
      (Reports-loop (before ++ p.register ∷ []) rest trans p.matched _ h)

Reports-unmatched :
    (trans : Transaction) (h : Handled)
    → Reports h.simctrl
        (if h.matched
          then h
          else (if trans.illegal_csr
              then h
              else record h { simctrl = request_stop false h.simctrl })).simctrl
        (unmatched_text h.matched trans)
unfolding unmatched_text
Reports-unmatched trans h = ground arith

-- On an address other than the cycle counter's a transaction that requests a stop with a failure prints
-- a message, and one that does not leaves the simulation control as it was and prints nothing.
pub new_transaction-Reports :
    (map : RegisterMap) (trans : Transaction) (sc : SimCtrl)
    → IsCompared trans
    → Reports sc (new_transaction map trans sc).simctrl (new_transaction_text map trans sc)
unfolding new_transaction new_transaction_text
new_transaction-Reports map trans sc h =
    let handled = process_loop [] map trans false sc in
    Reports-append sc handled.simctrl _ (loop_text map trans) (unmatched_text handled.matched trans)
      (Reports-loop [] map trans false sc h) (Reports-unmatched trans handled)
