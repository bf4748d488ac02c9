-- ===== src/Printf/Format/Fuel/Parts.antt =====
-- The loops of ee_printf.c that convert numbers and addresses never run out of fuel.
use coco_ibex.Common.{
  ℕ, zero, suc, ◌+◌, ◌/◌, Bool, true, false, ◌||◌, List, [], ◌∷◌, Option, none, some, Outcome, done,
  fault, spent, ◌>>=◌, Ends, Ends-bind, Bool-cases, ltb, ◌==◌, if◌then◌else◌, arith, inl, inr,
}
use coco_ibex.Common.Int.{ℤ}
use coco_ibex.Printf.Pad.{Flags}
use coco_ibex.Printf.Number.{number, digit_loop, convert_digits, tmp_size}
use coco_ibex.Printf.Address.{load, eaddr_loop, iaddr_loop}
use coco_ibex.Printf.Convert.{non_null}

-- An outcome that is a value or a fault.
abbrev pub Halts : {A : Type 0} → Outcome A → Type 0
Halts m = Ends m (λ _. Unit)

pub Halts-bind :
    {A B : Type 0} (m : Outcome A) (f : A → Outcome B)
    → Halts m
    → ((a : A) → Halts (f a))
    → Halts (m >>= f)
Halts-bind m f h k = Ends-bind (λ _. Unit) (λ _. Unit) m f h (λ a _. k a)

pub Halts-if :
    {A : Type 0} (b : Bool) (m n : Outcome A) → Halts m → Halts n → Halts (if b then m else n)
Halts-if true m n h k = h
Halts-if false m n h k = k

pub digit_loop-Halts :
    (dig : List ℕ) (base room num : ℕ) (tmp : List ℕ) → Halts (digit_loop dig base room num tmp)
unfolding digit_loop
digit_loop-Halts dig base zero num tmp = ground arith
digit_loop-Halts dig base (suc room) num tmp = elim (Bool-cases (num == 0)) [
  | inl z ↦ rw z tt
  | inr p ↦ rw p (digit_loop-Halts dig base room (num / base) _)
]

pub convert_digits-Halts : (dig : List ℕ) (base num : ℕ) → Halts (convert_digits dig base num)
unfolding convert_digits
convert_digits-Halts dig base num = elim (Bool-cases (num == 0)) [
  | inl z ↦ rw z tt
  | inr p ↦ rw p (digit_loop-Halts dig base tmp_size num [])
]

pub number-Halts :
    (str : List ℕ) (num base : ℕ) (size precision : ℤ) (flags : Flags)
    → Halts (number str num base size precision flags)
unfolding number
number-Halts str num base size precision flags = elim (Bool-cases (ltb base 2 || ltb 36 base)) [
  | inl bad ↦ rw bad tt
  | inr fits ↦
      rw fits (Ends-bind (λ _. Unit) (λ _. Unit) _ _ (convert_digits-Halts _ base _) (λ tmp _. tt))
]

pub load-Halts : (addr : List ℕ) (i : ℕ) → Halts (load addr i)
unfolding load
load-Halts [] i = tt
load-Halts (b ∷ addr) zero = tt
load-Halts (b ∷ addr) (suc i) = load-Halts addr i

pub eaddr_loop-Halts :
    (dig addr : List ℕ) (left i : ℕ) (tmp : List ℕ) → Halts (eaddr_loop dig addr left i tmp)
unfolding eaddr_loop
eaddr_loop-Halts dig addr zero i tmp = tt
eaddr_loop-Halts dig addr (suc left) i tmp =
    Halts-bind (load addr i) _ (load-Halts addr i) (λ b. eaddr_loop-Halts dig addr left (i + 1) _)

pub iaddr_loop-Halts :
    (addr : List ℕ) (left i : ℕ) (tmp : List ℕ) → Halts (iaddr_loop addr left i tmp)
unfolding iaddr_loop
iaddr_loop-Halts addr zero i tmp = tt
iaddr_loop-Halts addr (suc left) i tmp =
    Halts-bind (load addr i) _ (load-Halts addr i) (λ n. iaddr_loop-Halts addr left (i + 1) _)

pub non_null-Halts : (r : Outcome (Option (List ℕ))) → Halts r → Halts (non_null r)
unfolding non_null
non_null-Halts (done none) h = tt
non_null-Halts (done (some str)) h = tt
non_null-Halts fault h = tt
non_null-Halts spent h = h

-- `skip_atoi` leaves at most what it was given, and less where a digit stands.
