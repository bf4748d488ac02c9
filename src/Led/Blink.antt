-- ===== src/Led/Blink.antt =====
-- What the LED shows over time.
use coco_ibex.Common.{
  ℕ, zero, suc, ◌+◌, ◌-◌, ◌*◌, ◌%◌, ◌≡◌, ap, ◌∙◌, done, arith, ◌==◌, if◌then◌else◌,
}
use coco_ibex.Led.{blink, toggle, first_write, main_rounds}
use coco_ibex.Led.Delay.{usleep-exact}

-- The byte after so many changes.
abbrev pub shown : ℕ → ℕ
shown rounds = if rounds % 2 == 0 then 0x0a else 0xf5

shown-suc : (n : ℕ) → 255 - shown n ≡ shown (n + 1)
shown-suc n = ground arith

blink_lem :
    (rounds n : ℕ)
    → blink rounds (record { value = shown n; waited = n * 49_999_998 })
      ≡ done (record { value = shown (n + rounds); waited = (n + rounds) * 49_999_998 })
unfolding blink toggle
blink_lem zero n =
    let e : n ≡ n + 0 = omega arith in
    ap (λ (k : ℕ). done (record { value = shown k; waited = k * 49_999_998 })) e
blink_lem (suc rounds) n =
    let waited = usleep-exact 1_000_000 (omega arith) (omega arith) (omega arith) in
    rw (waited, shown-suc n)
      (ap (λ (c : ℕ). blink rounds (record { value = shown (n + 1); waited = c })) (sum n)
        ∙ blink_lem rounds (n + 1)
        ∙ ap (λ (k : ℕ). done (record { value = shown k; waited = k * 49_999_998 }))
            (count n rounds))
  where
    sum : (n : ℕ) → n * 49_999_998 + (50 * 1_000_000 - 2) ≡ (n + 1) * 49_999_998
    sum n = omega arith

    count : (n rounds : ℕ) → n + 1 + rounds ≡ n + suc rounds
    count n rounds = omega arith

-- After any number of rounds of the loop of `main` the LED shows 0x0a or its complement 0xf5, in turn,
-- and the waits have taken 49999998 cycles for each round, two less than a second at 50 MHz.
pub main_rounds_lem :
    (rounds : ℕ)
    → main_rounds rounds ≡ done (record { value = shown rounds; waited = rounds * 49_999_998 })
unfolding main_rounds first_write
main_rounds_lem rounds =
    blink_lem rounds 0
    ∙ ap (λ (k : ℕ). done (record { value = shown k; waited = k * 49_999_998 })) (start rounds)
  where
    start : (n : ℕ) → 0 + n ≡ n
    start n = omega arith
