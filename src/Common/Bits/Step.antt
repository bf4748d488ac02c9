-- ===== src/Common/Bits/Step.antt =====
-- The native operations mean a recursion on binary digits with fuel. Here the fuel is dropped: one
-- equation for the lowest digit of `&` and of `|`.
use Prim.Native.Nat.{ℕ, zero, suc, ◌+◌, ◌*◌, ◌/◌, ◌%◌, ◌≤◌, min, max, bit_and, bit_or}
use Prim.Native.Nat.{digits, bitwise, bit_and-bitwise, bit_or-bitwise}
use mathlib.Core.Path.{◌≡◌, refl, sym, ◌∙◌}
use native.Mathlib.Omega.{arith}

digits-zero : (rest : ℕ → ℕ) (op : ℕ → ℕ → ℕ) (fuel y : ℕ) → digits rest op fuel zero y ≡ rest y
digits-zero rest op zero y = refl
digits-zero rest op (suc fuel) y = refl

-- Fuel that covers the number gives the digits that the number's half would ask for.
half_fuel :
    (rest : ℕ → ℕ) (op : ℕ → ℕ → ℕ) (x fuel less y : ℕ)
    → x ≤ less
    → less ≤ fuel
    → digits rest op fuel x y ≡ digits rest op less x y
half_fuel rest op zero fuel less y small le =
    digits-zero rest op fuel y ∙ sym (digits-zero rest op less y)
half_fuel rest op (suc x) fuel zero y small le = absurd (omega arith)
half_fuel rest op (suc x) zero (suc less) y small le = absurd (omega arith)
half_fuel rest op (suc x) (suc fuel) (suc less) y small le =
    let halves = half_fuel rest op (suc x / 2) fuel less (y / 2) (omega arith) (omega arith) in
    rw halves

low_digit :
    (rest : ℕ → ℕ) (op : ℕ → ℕ → ℕ) (x y : ℕ)
    → bitwise rest op (suc x) y ≡ 2 * bitwise rest op (suc x / 2) (y / 2) + op (suc x % 2) (y % 2)
low_digit rest op x y =
    let h = suc x / 2 in omega (arith, half_fuel rest op h x h (y / 2) (omega arith) (omega arith))

pub bit_and_step : (x y : ℕ) → bit_and x y ≡ 2 * bit_and (x / 2) (y / 2) + min (x % 2) (y % 2)
bit_and_step zero y = simp bit_and-bitwise (omega arith)
bit_and_step (suc x) y = simp bit_and-bitwise (low_digit (λ (t : ℕ). 0) min x y)

pub bit_or_step : (x y : ℕ) → bit_or x y ≡ 2 * bit_or (x / 2) (y / 2) + max (x % 2) (y % 2)
bit_or_step zero y = simp bit_or-bitwise (omega arith)
bit_or_step (suc x) y = simp bit_or-bitwise (low_digit (λ (t : ℕ). t) max x y)

pub zero-bit_and : (b : ℕ) → bit_and 0 b ≡ 0
zero-bit_and b = bit_and-bitwise 0 b

pub zero-bit_or : (b : ℕ) → bit_or 0 b ≡ b
zero-bit_or b = bit_or-bitwise 0 b

zero_digits : (fuel x : ℕ) → digits (λ (t : ℕ). 0) min fuel x 0 ≡ 0
zero_digits zero zero = refl
zero_digits zero (suc x) = refl
zero_digits (suc fuel) zero = refl
zero_digits (suc fuel) (suc x) = let rest = zero_digits fuel (suc x / 2) in omega (arith, rest)

pub bit_and-zero : (x : ℕ) → bit_and x 0 ≡ 0
bit_and-zero x = bit_and-bitwise x 0 ∙ zero_digits x x

or_digits : (fuel x : ℕ) → x ≤ fuel → digits (λ (t : ℕ). t) max fuel x 0 ≡ x
or_digits zero zero h = refl
or_digits zero (suc x) h = absurd (omega arith)
or_digits (suc fuel) zero h = refl
or_digits (suc fuel) (suc x) h =
    let rest = or_digits fuel (suc x / 2) (omega arith) in omega (arith, rest)

pub bit_or-zero : (x : ℕ) → bit_or x 0 ≡ x
bit_or-zero x = bit_or-bitwise x 0 ∙ or_digits x x (omega arith)
