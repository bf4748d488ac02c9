-- ===== src/CsRegisters/Bench/Answer.antt =====
-- What a correct core answers to a transaction, by a search for the register, against `NewTransaction`.
use coco_ibex.Common.{
  ℕ, ◌≡◌, ◌≢◌, refl, sym, ap, ◌∙◌, arith, Bool, true, false, not, ◌||◌, ◌&&◌, ◌==◌, List, [], ◌∷◌,
  ◌++◌, Option, none, some, if◌then◌else◌, ℕ_discrete,
}
use coco_ibex.CsRegisters.Register.{Register, RegisterMap, register_read, updated}
use coco_ibex.CsRegisters.Model.{
  Transaction, SimCtrl, Handled, is_mismatch, request_stop, new_transaction,
}
use coco_ibex.CsRegisters.Model.Match.{Elsewhere, new_transaction-hit, new_transaction-unmatched}
use coco_ibex.CsRegisters.Model.Listing.{addresses, csr_addresses}

-- The register at an address.
unfoldable pub register_at : ℕ → RegisterMap → Option Register
register_at addr [] = none
register_at addr (r ∷ rest) = if r.address == addr then some r else register_at addr rest

-- A correct answer: an error on an address without a register, else the register's value; the answer on
-- the cycle counter is free.
unfoldable pub is_correct : Option Register → Transaction → Bool
is_correct none trans = trans.illegal_csr
is_correct (some r) trans =
    trans.csr_addr == 0xB00 || trans.csr_addr == 0xB80 || register_read r == trans.csr_rdata

-- The operation on the register at the address.
unfoldable pub write_at : RegisterMap → Transaction → RegisterMap → RegisterMap
write_at map trans [] = []
write_at map trans (r ∷ rest) =
    if r.address == trans.csr_addr
    then record r { value = updated trans.csr_op map r trans.csr_wdata } ∷ rest
    else r ∷ write_at map trans rest

-- Where an address stands in a map.
data Located (addr : ℕ) : RegisterMap → Type 0 where
  absent : {map : RegisterMap} → Elsewhere addr map → Located addr map
  present :
      (before after : RegisterMap) (r : Register)
      → Elsewhere addr before
      → r.address ≡ addr
      → Elsewhere addr after
      → Located addr (before ++ r ∷ after)

abbrev Distinct : RegisterMap → Type 0
Distinct [] = Unit {0}
Distinct (r ∷ rest) = Elsewhere r.address rest × Distinct rest

locate : (addr : ℕ) (map : RegisterMap) → Distinct map → Located addr map
locate addr [] h = absent tt
locate addr (r ∷ rest) h = elim (ℕ_discrete r.address addr) [
  | yes e ↦ present [] rest r tt e (moved rest e h.0)
  | no ne ↦ behind (locate addr rest h.1) ne
]
  where
    moved : (rest : RegisterMap) → r.address ≡ addr → Elsewhere r.address rest → Elsewhere addr rest
    moved [] e k = tt
    moved (q ∷ rest) e k = (λ (f : q.address ≡ addr). k.0 (f ∙ sym e), moved rest e k.1)

    behind : {rest : RegisterMap} → Located addr rest → r.address ≢ addr → Located addr (r ∷ rest)
    behind (absent k) ne = absent (ne, k)
    behind (present before after q k e l) ne = present (r ∷ before) after q (ne, k) e l

register_at-absent :
    (addr : ℕ) (map : RegisterMap) → Elsewhere addr map → register_at addr map ≡ none
unfolding register_at
register_at-absent addr [] h = refl
register_at-absent addr (r ∷ rest) h = ground (arith, h.0, register_at-absent addr rest h.1)

register_at-present :
    (addr : ℕ) (before after : RegisterMap) (r : Register)
    → Elsewhere addr before
    → r.address ≡ addr
    → register_at addr (before ++ r ∷ after) ≡ some r
unfolding register_at
register_at-present addr [] after r h e =
    let hit : (r.address == addr) ≡ true = ground (arith, e) in rw hit refl
register_at-present addr (q ∷ before) after r h e =
    let miss : (q.address == addr) ≡ false = ground (arith, h.0) in
    rw miss (register_at-present addr before after r h.1 e)

write_at-absent :
    (map : RegisterMap) (trans : Transaction) (rest : RegisterMap)
    → Elsewhere trans.csr_addr rest
    → write_at map trans rest ≡ rest
unfolding write_at
write_at-absent map trans [] h = refl
write_at-absent map trans (r ∷ rest) h =
    let miss : (r.address == trans.csr_addr) ≡ false = ground (arith, h.0) in
    rw miss (ap (λ (t : RegisterMap). r ∷ t) (write_at-absent map trans rest h.1))

write_at-present :
    (map : RegisterMap) (trans : Transaction) (before after : RegisterMap) (r : Register)
    → Elsewhere trans.csr_addr before
    → r.address ≡ trans.csr_addr
    → write_at map trans (before ++ r ∷ after)
      ≡ before ++ record r { value = updated trans.csr_op map r trans.csr_wdata } ∷ after
unfolding write_at
write_at-present map trans [] after r h e =
    let hit : (r.address == trans.csr_addr) ≡ true = ground (arith, e) in rw hit refl
write_at-present map trans (q ∷ before) after r h e =
    let miss : (q.address == trans.csr_addr) ≡ false = ground (arith, h.0) in
    rw miss (ap (λ (t : RegisterMap). q ∷ t) (write_at-present map trans before after r h.1 e))

is_correct-some :
    (r : Register) (trans : Transaction)
    → is_correct (some r) trans ≡ not (is_mismatch trans (register_read r))
unfolding is_correct is_mismatch
is_correct-some r trans = ground arith

abbrev verdict : Bool → SimCtrl → SimCtrl
verdict correct sc = if correct then sc else request_stop false sc

verdict-not :
    (b : Bool) (sc : SimCtrl) → (if b then request_stop false sc else sc) ≡ verdict (not b) sc
verdict-not true sc = refl
verdict-not false sc = refl

answer_of :
    (map : RegisterMap) (trans : Transaction) (sc : SimCtrl)
    → Located trans.csr_addr map
    → ((new_transaction map trans sc).registers ≡ write_at map trans map)
      × ((new_transaction map trans sc).simctrl
          ≡ verdict (is_correct (register_at trans.csr_addr map) trans) sc)
unfolding is_correct
answer_of map trans sc (absent h) =
    let step = new_transaction-unmatched map trans sc h in
    (
      ap (λ (o : Handled). o.registers) step ∙ sym (write_at-absent map trans map h),
      ap (λ (o : Handled). o.simctrl) step
          ∙ ap (λ (o : Option Register). verdict (is_correct o trans) sc)
              (sym (register_at-absent trans.csr_addr map h)),
    )
answer_of map trans sc (present before after r h e k) =
    let step = new_transaction-hit before after r trans sc h e k in
    (
      ap (λ (o : Handled). o.registers) step ∙ sym (write_at-present _ trans before after r h e),
      ap (λ (o : Handled). o.simctrl) step
          ∙ verdict-not (is_mismatch trans (register_read r)) sc
          ∙ ap (λ (b : Bool). verdict b sc) (sym (is_correct-some r trans))
          ∙ ap (λ (o : Option Register). verdict (is_correct o trans) sc)
              (sym (register_at-present trans.csr_addr before after r h e)),
    )

-- The addresses of the listing are all different.
is_elsewhere : ℕ → List ℕ → Bool
is_elsewhere a [] = true
is_elsewhere a (b ∷ rest) = not (b == a) && is_elsewhere a rest

all_different : List ℕ → Bool
all_different [] = true
all_different (a ∷ rest) = is_elsewhere a rest && all_different rest

listing_different : all_different csr_addresses ≡ true
unfolding all_different is_elsewhere
listing_different = refl

Elsewhere-addresses :
    (a : ℕ) (map : RegisterMap) → is_elsewhere a (addresses map) ≡ true → Elsewhere a map
unfolding addresses is_elsewhere
Elsewhere-addresses a [] h = tt
Elsewhere-addresses a (r ∷ rest) h =
    (ground (arith, h), Elsewhere-addresses a rest (ground (arith, h)))

Distinct-addresses : (map : RegisterMap) → all_different (addresses map) ≡ true → Distinct map
unfolding addresses all_different
Distinct-addresses [] h = tt
Distinct-addresses (r ∷ rest) h = (
  Elsewhere-addresses r.address rest (ground (arith, h)),
  Distinct-addresses rest (ground (arith, h)),
)

-- On a map with the addresses of the listing a transaction writes to the register at its address, and
-- fails the test exactly if the answer is not correct.
pub new_transaction-answer :
    (map : RegisterMap) (trans : Transaction) (sc : SimCtrl)
    → addresses map ≡ csr_addresses
    → ((new_transaction map trans sc).registers ≡ write_at map trans map)
      × ((new_transaction map trans sc).simctrl ≡ (
          if is_correct (register_at trans.csr_addr map) trans then sc else request_stop false sc))
new_transaction-answer map trans sc e =
    answer_of map trans sc
      (locate trans.csr_addr map (Distinct-addresses map (ap all_different e ∙ listing_different)))
