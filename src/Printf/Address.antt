-- ===== src/Printf/Address.antt =====
-- `eaddr` and `iaddr` of ee_printf.c: a hardware address and an IPv4 address in a field.
pub mod Text
mod Examples
use coco_ibex.Common.{
  ℕ, zero, suc, ◌+◌, ◌*◌, ◌/◌, ◌%◌, ◌^◌, ◌≡◌, Bool, true, false, List, [], ◌∷◌, ◌++◌, Option, none,
  some, Outcome, done, fault, ◌>>=◌, ltb, leb, ◌==◌, if◌then◌else◌, length, get_or, get_elem?,
  bit_and,
}
use coco_ibex.Common.Int.{ℤ}
use coco_ibex.Printf.Pad.{Flags, fill_loop}
use coco_ibex.Printf.Number.{digits, digit_table}

-- A byte of the address; behind its end the read is a fault.
unfoldable pub load : List ℕ → ℕ → Outcome ℕ
load addr i = elim (get_elem? addr i) [ none ↦ fault | some b ↦ done b ]

-- Both functions write their text into the field in this way; `size` counts down in two loops.
unfoldable pub justify : List ℕ → List ℕ → ℤ → Flags → List ℕ
justify str tmp size type =
    let len = length tmp in
    let before = if type.left then record { size = size; str = str } else fill_loop len size str in
    (fill_loop len before.size (before.str ++ tmp)).str

-- The loop of `eaddr` with `left` of its six rounds to go, at byte `i`.
unfoldable pub eaddr_loop : List ℕ → List ℕ → ℕ → ℕ → List ℕ → Outcome (List ℕ)
eaddr_loop dig addr zero i tmp = done tmp
eaddr_loop dig addr (suc left) i tmp = do
  b ← load addr i
  let tmp' = if i == 0 then tmp else tmp ++ b':' ∷ []
  eaddr_loop dig addr left (i + 1)
      (tmp' ++ get_or dig (b / 2 ^ 4) 0 ∷ get_or dig (bit_and b 0x0f) 0 ∷ [])

unfoldable pub eaddr : List ℕ → List ℕ → ℤ → Flags → Outcome (List ℕ)
eaddr str addr size type = do
  tmp ← eaddr_loop (digit_table type.uppercase) addr 6 0 []
  done (justify str tmp size type)

-- One byte in decimal, as the body of `iaddr`'s loop appends it.
unfoldable pub octet : ℕ → List ℕ → List ℕ
octet n tmp =
    if n == 0
    then tmp ++ get_or digits 0 0 ∷ []
    else if leb 100 n
    then ((tmp ++ get_or digits (n / 100) 0 ∷ []) ++ get_or digits (n % 100 / 10) 0 ∷ [])
      ++ get_or digits (n % 100 % 10) 0 ∷ []
    else if leb 10 n
    then (tmp ++ get_or digits (n / 10) 0 ∷ []) ++ get_or digits (n % 10) 0 ∷ []
    else tmp ++ get_or digits n 0 ∷ []

-- The loop of `iaddr` with `left` of its four rounds to go, at byte `i`.
unfoldable pub iaddr_loop : List ℕ → ℕ → ℕ → List ℕ → Outcome (List ℕ)
iaddr_loop addr zero i tmp = done tmp
iaddr_loop addr (suc left) i tmp = do
  n ← load addr i
  let tmp' = if i == 0 then tmp else tmp ++ b'.' ∷ []
  iaddr_loop addr left (i + 1) (octet n tmp')

unfoldable pub iaddr : List ℕ → List ℕ → ℤ → Flags → Outcome (List ℕ)
iaddr str addr size type = do tmp ← iaddr_loop addr 4 0 []; done (justify str tmp size type)
