-- ===== src/CsRegisters/Driver/Known.antt =====
-- Every access that the driver makes is at an address that the model knows.
use coco_ibex.Common.{
  ℕ, ◌≤◌, ◌≡◌, refl, sym, ap, ◌∙◌, arith, Bool, true, false, not, ◌||◌, ◌==◌, if◌then◌else◌, List,
  [], ◌∷◌, ◌++◌, get_or, below, below_sound,
}
use coco_ibex.CsRegisters.Register.{Register, RegisterMap, match_addr, register_read, updated}
use coco_ibex.CsRegisters.Model.{
  Params, Transaction, SimCtrl, Handled, Processed, is_mismatch, request_stop, process_transaction,
  process_loop, new_transaction,
}
use coco_ibex.CsRegisters.Model.Listing.{addresses, csr_addresses, Reached-addresses}
use coco_ibex.CsRegisters.Model.Run.{Reached}
use coco_ibex.CsRegisters.Driver.{Drawn, Driver, randomize_transaction, randomize}

unfoldable is_in : ℕ → List ℕ → Bool
is_in a [] = false
is_in a (b ∷ rest) = (a == b) || is_in a rest

or_assoc : (a b c : Bool) → ((a || b) || c) ≡ (a || (b || c))
or_assoc true b c = refl
or_assoc false b c = refl

or_true : (a : Bool) → (a || true) ≡ true
or_true true = refl
or_true false = refl

or_false : (a : Bool) → (a || false) ≡ a
or_false true = refl
or_false false = refl

choice-matched :
    (b : Bool) (p q : Processed)
    → q.matched ≡ true
    → (if not b then p else q).matched ≡ (p.matched || b)
choice-matched true p q e = e ∙ sym (or_true p.matched)
choice-matched false p q e = sym (or_false p.matched)

process_transaction-matched :
    (map : RegisterMap) (r : Register) (trans : Transaction) (matched : Bool)
    → (process_transaction map r trans matched).matched ≡ (matched || (trans.csr_addr == r.address))
unfolding process_transaction match_addr
process_transaction-matched map r trans matched =
    choice-matched (trans.csr_addr == r.address)
      (record { register = r; matched = matched; failed = false })
      (record {
        register = record r { value = updated trans.csr_op map r trans.csr_wdata };
        matched = true;
        failed = is_mismatch trans (register_read r);
      })
      refl

process_loop-matched :
    (before rest : RegisterMap) (trans : Transaction) (matched : Bool) (sc : SimCtrl)
    → (process_loop before rest trans matched sc).matched
      ≡ (matched || is_in trans.csr_addr (addresses rest))
unfolding process_loop addresses is_in
process_loop-matched before [] trans matched sc = sym (or_false matched)
process_loop-matched before (r ∷ rest) trans matched sc =
    let p = process_transaction (before ++ r ∷ rest) r trans matched in
    process_loop-matched (before ++ p.register ∷ []) rest trans p.matched
      (if p.failed then request_stop false sc else sc)
    ∙ ap (λ (b : Bool). b || is_in trans.csr_addr (addresses rest))
        (process_transaction-matched (before ++ r ∷ rest) r trans matched)
    ∙ or_assoc matched (trans.csr_addr == r.address) (is_in trans.csr_addr (addresses rest))

handled-matched :
    (b c : Bool) (h : Handled)
    → (if b
        then h
        else (if c then h else record h { simctrl = request_stop false h.simctrl })).matched
      ≡ h.matched
handled-matched true c h = refl
handled-matched false true h = refl
handled-matched false false h = refl

-- At every point of a run the model knows a transaction's address exactly if it is in the listing.
Reached-matched :
    (params : Params) (map : RegisterMap) (trans : Transaction) (sc : SimCtrl)
    → Reached params map
    → (new_transaction map trans sc).matched ≡ is_in trans.csr_addr csr_addresses
unfolding new_transaction
Reached-matched params map trans sc run =
    let h = process_loop [] map trans false sc in
    handled-matched h.matched trans.illegal_csr h
    ∙ process_loop-matched [] map trans false sc
    ∙ ap (is_in trans.csr_addr) (Reached-addresses params map run)

known-all : below (λ (i : ℕ). is_in (get_or csr_addresses i 0) csr_addresses) 112 ≡ true
unfolding below is_in
known-all = refl

-- Whatever the engine draws within the bounds that it is asked for, the address that is driven next is
-- one that the model knows, at every point of a run.
pub randomize-known :
    {Engine : Type 0} (between : ℕ → ℕ → Engine → Drawn Engine) (word : Engine → Drawn Engine)
    (d : Driver Engine) (params : Params) (map : RegisterMap) (trans : Transaction) (sc : SimCtrl)
    → (between 0 111 d.generator).value ≤ 111
    → Reached params map
    → trans.csr_addr ≡ (randomize between word d).next_transaction.csr_addr
    → (new_transaction map trans sc).matched ≡ true
unfolding randomize randomize_transaction
randomize-known between word d params map trans sc le run e =
    Reached-matched params map trans sc run
    ∙ ap (λ (a : ℕ). is_in a csr_addresses) e
    ∙ below_sound (λ (i : ℕ). is_in (get_or csr_addresses i 0) csr_addresses) 112
        (between 0 111 d.generator).value (omega arith) known-all
