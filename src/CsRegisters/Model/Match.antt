-- ===== src/CsRegisters/Model/Match.antt =====
-- What one transaction does to the whole list of registers (`NewTransaction` in
-- dv/cs_registers/model/register_model.cc).
use coco_ibex.Common.{
  ℕ, Bool, true, false, [], ◌∷◌, ◌++◌, ◌==◌, if◌then◌else◌, ◌≡◌, ◌≢◌, refl, sym, ap, ◌∙◌, arith,
  All, append-nil, append_assoc, ◌⊎◌,
}
use coco_ibex.CsRegisters.Register.{
  csr_read, Register, RegisterMap, match_addr, register_read, updated,
}
use coco_ibex.CsRegisters.Model.{
  Transaction, SimCtrl, Handled, is_mismatch, request_stop, Processed, process_transaction,
  process_loop, new_transaction,
}

abbrev pub Elsewhere : ℕ → RegisterMap → Type 0
Elsewhere addr map = All (λ (r : Register). r.address ≢ addr) map

module _ (map : RegisterMap) (r : Register) (trans : Transaction) (matched : Bool) where
  process_transaction-other :
      r.address ≢ trans.csr_addr
      → process_transaction map r trans matched
        ≡ record { register = r; matched = matched; failed = false }
  unfolding process_transaction match_addr
  process_transaction-other ne =
      let test : (trans.csr_addr == r.address) ≡ false = ground arith in rw test refl

  process_transaction-hit :
      r.address ≡ trans.csr_addr
      → process_transaction map r trans matched ≡ record {
        register = record r { value = updated trans.csr_op map r trans.csr_wdata };
        matched = true;
        failed = is_mismatch trans (register_read r);
      }
  unfolding process_transaction match_addr
  process_transaction-hit e =
      let test : (trans.csr_addr == r.address) ≡ true = ground arith in rw test refl

-- The loop after its first transaction.
abbrev advance : RegisterMap → RegisterMap → Transaction → SimCtrl → Processed → Handled
advance before rest trans sc p =
    process_loop (before ++ p.register ∷ []) rest trans p.matched
      (if p.failed then request_stop false sc else sc)

-- The loop passes over the registers at other addresses.
process_loop-skip :
    (before pass rest : RegisterMap) (trans : Transaction) (matched : Bool) (sc : SimCtrl)
    → Elsewhere trans.csr_addr pass
    → process_loop before (pass ++ rest) trans matched sc
      ≡ process_loop (before ++ pass) rest trans matched sc
unfolding process_loop
process_loop-skip before [] rest trans matched sc h = rw (append-nil before) refl
process_loop-skip before (r ∷ pass) rest trans matched sc h =
    ap (λ (p : Processed). advance before (pass ++ rest) trans sc p)
      (process_transaction-other (before ++ r ∷ (pass ++ rest)) r trans matched h.0)
    ∙ process_loop-skip (before ++ r ∷ []) pass rest trans matched sc h.1
    ∙ ap (λ (t : RegisterMap). process_loop t rest trans matched sc)
        (append_assoc before (r ∷ []) pass)

process_loop-all :
    (before rest : RegisterMap) (trans : Transaction) (matched : Bool) (sc : SimCtrl)
    → Elsewhere trans.csr_addr rest
    → process_loop before rest trans matched sc
      ≡ record { registers = before ++ rest; matched = matched; simctrl = sc }
unfolding process_loop
process_loop-all before rest trans matched sc h =
    ap (λ (t : RegisterMap). process_loop before t trans matched sc) (sym (append-nil rest))
    ∙ process_loop-skip before rest [] trans matched sc h

process_loop-match :
    (before after : RegisterMap) (r : Register) (trans : Transaction) (sc : SimCtrl)
    → Elsewhere trans.csr_addr before
    → r.address ≡ trans.csr_addr
    → Elsewhere trans.csr_addr after
    → process_loop [] (before ++ r ∷ after) trans false sc ≡ record {
      registers =
          before
          ++ record r { value = updated trans.csr_op (before ++ r ∷ after) r trans.csr_wdata }
            ∷ after;
      matched = true;
      simctrl = if is_mismatch trans (register_read r) then request_stop false sc else sc;
    }
unfolding process_loop
process_loop-match before after r trans sc hb e ha =
    process_loop-skip [] before (r ∷ after) trans false sc hb
    ∙ rw (process_transaction-hit (before ++ r ∷ after) r trans false e) (
        process_loop-all
          (before
            ++ record r { value = updated trans.csr_op (before ++ r ∷ after) r trans.csr_wdata }
              ∷ [])
          after trans true
          (if is_mismatch trans (register_read r) then request_stop false sc else sc) ha
        ∙ ap
            (λ (t : RegisterMap). record {
              registers = t;
              matched = true;
              simctrl = if is_mismatch trans (register_read r) then request_stop false sc else sc;
            })
            (append_assoc before
              (record r { value = updated trans.csr_op (before ++ r ∷ after) r trans.csr_wdata }
                ∷ [])
              after))

-- A read leaves the register as it is.
updated-read :
    (map : RegisterMap) (r : Register) (trans : Transaction)
    → trans.csr_op ≡ csr_read
    → record r { value = updated trans.csr_op map r trans.csr_wdata } ≡ r
unfolding updated
updated-read map r trans e = rw e refl

-- `NewTransaction` at an address that one register has, and no other.
pub new_transaction-hit :
    (before after : RegisterMap) (r : Register) (trans : Transaction) (sc : SimCtrl)
    → Elsewhere trans.csr_addr before
    → r.address ≡ trans.csr_addr
    → Elsewhere trans.csr_addr after
    → new_transaction (before ++ r ∷ after) trans sc ≡ record {
      registers =
          before
          ++ record r { value = updated trans.csr_op (before ++ r ∷ after) r trans.csr_wdata }
            ∷ after;
      matched = true;
      simctrl = if is_mismatch trans (register_read r) then request_stop false sc else sc;
    }
unfolding new_transaction
new_transaction-hit before after r trans sc hb e ha =
    rw (process_loop-match before after r trans sc hb e ha) refl

-- A transaction at an address that one register has, and no other, is matched; it changes that register
-- alone, by its class's operation on the map, and not at all if it is a read. At the two addresses of the
-- cycle counter, and where the core read the value that the register has for the model, the simulation
-- control stays as it was, and else a stop is requested and the run has failed.
pub new_transaction-match :
    (before after : RegisterMap) (r : Register) (trans : Transaction) (sc : SimCtrl)
    → Elsewhere trans.csr_addr before
    → r.address ≡ trans.csr_addr
    → Elsewhere trans.csr_addr after
    → let h = new_transaction (before ++ r ∷ after) trans sc in
      (h.matched ≡ true)
      × (h.registers
          ≡ before
            ++ record r { value = updated trans.csr_op (before ++ r ∷ after) r trans.csr_wdata }
              ∷ after)
      × (trans.csr_op ≡ csr_read → h.registers ≡ before ++ r ∷ after)
      × ((trans.csr_addr ≡ 0xB00) ⊎ (trans.csr_addr ≡ 0xB80) → h.simctrl ≡ sc)
      × (register_read r ≡ trans.csr_rdata → h.simctrl ≡ sc)
      × (trans.csr_addr ≢ 0xB00
          → trans.csr_addr ≢ 0xB80
          → register_read r ≢ trans.csr_rdata
          → h.simctrl ≡ record { stop_requested = true; success = false })
unfolding is_mismatch request_stop
new_transaction-match before after r trans sc hb e ha =
    let map = before ++ r ∷ after in
    let hit = new_transaction-hit before after r trans sc hb e ha in
    let control = ap (λ (h : Handled). h.simctrl) hit in
    let changed = ap (λ (h : Handled). h.registers) hit in
    (
      ap (λ (h : Handled). h.matched) hit,
      changed,
      λ read. changed ∙ ap (λ (q : Register). before ++ q ∷ after) (updated-read map r trans read),
      λ counter. control ∙ ground (arith, counter),
      λ same. control ∙ ground (arith, same),
      λ no_low no_high differs. control ∙ ground (arith, no_low, no_high, differs),
    )

simctrl_choice :
    (ok : Bool) (h : Handled) (stopped : SimCtrl)
    → (if ok then h else record h { simctrl = stopped })
      ≡ record h { simctrl = if ok then h.simctrl else stopped }
simctrl_choice true h stopped = refl
simctrl_choice false h stopped = refl

-- A transaction at an address that no register has changes nothing, and stops the run as failed
-- unless the core signalled an illegal access.
pub new_transaction-unmatched :
    (map : RegisterMap) (trans : Transaction) (sc : SimCtrl)
    → Elsewhere trans.csr_addr map
    → new_transaction map trans sc ≡ record {
      registers = map;
      matched = false;
      simctrl = if trans.illegal_csr then sc else request_stop false sc;
    }
unfolding new_transaction
new_transaction-unmatched map trans sc h = rw (process_loop-all [] map trans false sc h) (
    simctrl_choice trans.illegal_csr (record { registers = map; matched = false; simctrl = sc })
      (request_stop false sc))
