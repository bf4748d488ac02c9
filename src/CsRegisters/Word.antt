-- ===== src/CsRegisters/Word.antt =====
-- `uint32_t` values as numbers below 2 ^ 32, and bit facts about `~` and shifts in this width.
use Prim.Native.Nat.add
use native.Mathlib.Nat.{div-one, div-div-eq-div-mul, pow-suc, mul_comm}
use coco_ibex.Common.{ℕ, zero, suc, ◌+◌, ◌-◌, ◌/◌, ◌^◌, ◌<◌, ◌≡◌}
use coco_ibex.Common.Bits.{bit, bit-not}

abbrev pub u32_mod : ℕ
u32_mod = 2 ^ 32

-- `~x` on `uint32_t`.
unfoldable pub not32 : ℕ → ℕ
not32 x = u32_mod - 1 - x

pub bit-not32 : (x i : ℕ) → x < u32_mod → i < 32 → bit (not32 x) i ≡ 1 - bit x i
unfolding not32
bit-not32 x i h lt = bit-not 32 x i h lt

halves : (x k : ℕ) → x / 2 ^ suc k ≡ x / 2 / 2 ^ k
halves x k = rw (div-div-eq-div-mul x 2 (2 ^ k), pow-suc 2 k, mul_comm (2 ^ k) 2)

-- Shifting right moves the bits down.
pub bit-shift : (k x i : ℕ) → bit (x / 2 ^ k) i ≡ bit x (k + i)
unfolding bit
bit-shift zero x i = rw (div-one x, add.zero i)
bit-shift (suc k) x i =
    let e : x / 2 ^ suc k ≡ x / 2 / 2 ^ k = halves x k in
    rw (e, add.suc k i) (bit-shift k (x / 2) i)
