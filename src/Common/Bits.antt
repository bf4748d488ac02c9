-- ===== src/Common/Bits.antt =====
-- The bits of a number and the laws of `&`, `|` and `~` on them, at every width.
mod Step
use Step.{bit_or_step, bit_and_step, zero-bit_and, zero-bit_or, bit_and-zero, bit_or-zero}
use Prim.Native.Nat.{
  ℕ, zero, suc, ◌+◌, ◌-◌, ◌*◌, ◌/◌, ◌%◌, ◌^◌, ◌≤◌, ◌<◌, min, max, bit_and, bit_or,
}
use mathlib.Core.Path.{◌≡◌, refl, ap, ◌∙◌}
use native.Mathlib.Nat.{pow-suc}
use native.Mathlib.Omega.{arith}

-- The bit at position `i`, as 0 or 1.
unfoldable pub bit : ℕ → ℕ → ℕ
bit x zero = x % 2
bit x (suc i) = bit (x / 2) i

pub bit-le-one : (x i : ℕ) → bit x i ≤ 1
unfolding bit
bit-le-one x zero = omega arith
bit-le-one x (suc i) = bit-le-one (x / 2) i

pub bit-bit_and : (a b i : ℕ) → bit (bit_and a b) i ≡ min (bit a i) (bit b i)
unfolding bit
bit-bit_and a b zero = omega (arith, bit_and_step a b)
bit-bit_and a b (suc i) =
    let e : bit_and a b / 2 ≡ bit_and (a / 2) (b / 2) = omega (arith, bit_and_step a b) in
    rw e (bit-bit_and (a / 2) (b / 2) i)

pub bit-bit_or : (a b i : ℕ) → bit (bit_or a b) i ≡ max (bit a i) (bit b i)
unfolding bit
bit-bit_or a b zero = omega (arith, bit_or_step a b)
bit-bit_or a b (suc i) =
    let e : bit_or a b / 2 ≡ bit_or (a / 2) (b / 2) = omega (arith, bit_or_step a b) in
    rw e (bit-bit_or (a / 2) (b / 2) i)

pub bit-zero : (i : ℕ) → bit 0 i ≡ 0
unfolding bit
bit-zero zero = refl
bit-zero (suc i) = bit-zero i

-- A number has no bits past its width.
pub bit_high : (w x i : ℕ) → x < 2 ^ w → w ≤ i → bit x i ≡ 0
unfolding bit
bit_high zero x i h le = let e : x ≡ 0 = omega arith in rw e (bit-zero i)
bit_high (suc w) x zero h le = absurd (omega arith)
bit_high (suc w) x (suc i) h le = bit_high w (x / 2) i (omega (arith, pow-suc 2 w)) (omega arith)

-- A number is determined by its bits.
bit_ext : (w a b : ℕ) → a < 2 ^ w → b < 2 ^ w → ((i : ℕ) → i < w → bit a i ≡ bit b i) → a ≡ b
unfolding bit
bit_ext zero a b ha hb h = omega arith
bit_ext (suc w) a b ha hb h =
    let halves : a / 2 ≡ b / 2 =
      bit_ext w (a / 2) (b / 2) (omega (arith, pow-suc 2 w)) (omega (arith, pow-suc 2 w))
        (λ i lt. h (suc i) (omega arith)) in
    omega (arith, halves, h 0 (omega arith))

-- `~x` in a word of `w` bits flips each of its bits.
pub bit-not : (w x i : ℕ) → x < 2 ^ w → i < w → bit (2 ^ w - 1 - x) i ≡ 1 - bit x i
unfolding bit
bit-not zero x i hx hi = absurd (omega arith)
bit-not (suc w) x zero hx hi = omega (arith, pow-suc 2 w)
bit-not (suc w) x (suc i) hx hi =
    let e : (2 ^ suc w - 1 - x) / 2 ≡ 2 ^ w - 1 - x / 2 = omega (arith, pow-suc 2 w) in
    rw e (bit-not w (x / 2) i (omega (arith, pow-suc 2 w)) (omega arith))

half_two_pow : (k : ℕ) → 2 ^ suc k / 2 ≡ 2 ^ k
half_two_pow k = omega (arith, pow-suc 2 k)

-- A test of one bit, as C writes it: `x & (1 << k)`.
pub bit_and-two_pow : (x k : ℕ) → bit_and x (2 ^ k) ≡ bit x k * 2 ^ k
unfolding bit
bit_and-two_pow x zero = omega (arith, bit_and_step x 1, bit_and-zero (x / 2))
bit_and-two_pow x (suc k) = omega (
  arith,
  bit_and_step x (2 ^ suc k),
  half_two_pow k,
  ap (λ (t : ℕ). bit_and (x / 2) t) (half_two_pow k),
  bit_and-two_pow (x / 2) k,
  pow-suc 2 k,
  ap (λ (t : ℕ). bit (x / 2) k * t) (pow-suc 2 k),
)

-- `x & 3` is made of the two low bits.
pub bit_and-three : (x : ℕ) → bit_and x 3 ≡ bit x 0 + 2 * bit x 1
unfolding bit
bit_and-three x = omega (arith, bit_and_step x 3, bit_and_step (x / 2) 1, bit_and-zero (x / 2 / 2))

pub bit_and-lt : (w a b : ℕ) → a < 2 ^ w → bit_and a b < 2 ^ w
bit_and-lt zero a b h = let e : a ≡ 0 = omega arith in rw (e, zero-bit_and b) (omega arith)
bit_and-lt (suc w) a b h = omega (
  arith,
  pow-suc 2 w,
  bit_and_step a b,
  bit_and-lt w (a / 2) (b / 2) (omega (arith, pow-suc 2 w)),
)

pub bit_or-lt : (w a b : ℕ) → a < 2 ^ w → b < 2 ^ w → bit_or a b < 2 ^ w
bit_or-lt zero a b h k = let e : a ≡ 0 = omega arith in rw (e, zero-bit_or b) k
bit_or-lt (suc w) a b h k = omega (
  arith,
  pow-suc 2 w,
  bit_or_step a b,
  bit_or-lt w (a / 2) (b / 2) (omega (arith, pow-suc 2 w)) (omega (arith, pow-suc 2 w)),
)

-- `h << w | l`, for `l` in the low bits, is a sum.
pub bit_or-shift : (w h l : ℕ) → l < 2 ^ w → bit_or (h * 2 ^ w) l ≡ h * 2 ^ w + l
bit_or-shift zero h l lt = let e : l ≡ 0 = omega arith in rw e (bit_or-zero (h * 1) ∙ omega arith)
bit_or-shift (suc w) h l lt =
    let double : h * 2 ^ suc w ≡ 2 * (h * 2 ^ w) = rw (pow-suc 2 w) (omega arith) in
    let half : h * 2 ^ suc w / 2 ≡ h * 2 ^ w = omega (arith, double) in
    omega (
      arith,
      double,
      bit_or_step (h * 2 ^ suc w) l,
      ap (λ (t : ℕ). bit_or t (l / 2)) half,
      bit_or-shift w h (l / 2) (omega (arith, pow-suc 2 w)),
    )
