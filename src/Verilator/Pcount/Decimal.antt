-- ===== src/Verilator/Pcount/Decimal.antt =====
-- The digits of a counter.
use coco_ibex.Common.{
  ℕ, zero, suc, ◌+◌, ◌-◌, ◌*◌, ◌/◌, ◌%◌, ◌^◌, ◌≤◌, ◌<◌, ◌≡◌, refl, arith, true, false, ltb, List,
  [], ◌∷◌, ◌++◌, All, All-append, dec_lt, ap, ◌∙◌,
}
use coco_ibex.Verilator.Pcount.{decimal_digits, decimal}

-- The value of a numeral.
abbrev pub value_from : ℕ → List ℕ → ℕ
value_from value [] = value
value_from value (c ∷ s) = value_from (value * 10 + (c - b'0')) s

abbrev pub IsDigit : ℕ → Type 0
IsDigit c = (b'0' ≤ c) × (c ≤ b'9')

value_from-append :
    (value : ℕ) (s : List ℕ) (c : ℕ)
    → value_from value (s ++ c ∷ []) ≡ value_from value s * 10 + (c - b'0')
value_from-append value [] c = refl
value_from-append value (d ∷ s) c = value_from-append (value * 10 + (d - b'0')) s c

-- The numbers of so many digits.
abbrev pub numerals : ℕ → ℕ
numerals zero = 1
numerals (suc fuel) = 10 * numerals fuel

decimal_digits-value :
    (fuel n : ℕ) → n < numerals (suc fuel) → value_from 0 (decimal_digits (suc fuel) n) ≡ n
unfolding decimal_digits
decimal_digits-value zero n h = ground (arith, h)
decimal_digits-value (suc fuel) n h = elim (dec_lt n 10) [
  | yes small ↦ ground (arith, small)
  | no large ↦
      let ten : ltb n 10 ≡ false = ground (arith, large) in
      let upper = decimal_digits-value fuel (n / 10) (omega (arith, h)) in
      let last : n / 10 * 10 + (n % 10 + b'0' - b'0') ≡ n = omega arith in
      rw ten (
        value_from-append 0 (decimal_digits (suc fuel) (n / 10)) (n % 10 + b'0')
        ∙ ap (λ (v : ℕ). v * 10 + (n % 10 + b'0' - b'0')) upper
        ∙ last)
]

-- The decimal text of a 64-bit number has its value.
pub decimal-value : (n : ℕ) → n < 2 ^ 64 → value_from 0 (decimal n) ≡ n
decimal-value n h = decimal_digits-value 19 n (omega (arith, h))

decimal_digits-IsDigit : (fuel n : ℕ) → All IsDigit (decimal_digits fuel n)
unfolding decimal_digits
decimal_digits-IsDigit zero n = tt
decimal_digits-IsDigit (suc fuel) n = elim (dec_lt n 10) [
  | yes small ↦
      let ten : ltb n 10 ≡ true = ground (arith, small) in
      rw ten ((omega (arith, small), omega (arith, small)), tt)
  | no large ↦
      let ten : ltb n 10 ≡ false = ground (arith, large) in
      rw ten (
        All-append IsDigit (decimal_digits fuel (n / 10)) ((n % 10 + b'0') ∷ [])
          (decimal_digits-IsDigit fuel (n / 10)) ((omega arith, omega arith), tt))
]

pub decimal-IsDigit : (n : ℕ) → All IsDigit (decimal n)
decimal-IsDigit n = decimal_digits-IsDigit 20 n
