-- ===== src/SimpleSystem/Coremark/Line.antt =====
-- One line of the report: the format `%s: %u` on a name and a 32-bit number.
use mathlib.Core.List.{reverse, reverse-cons}
use coco_ibex.Common.{
  ℕ, zero, suc, ◌+◌, ◌-◌, ◌/◌, ◌%◌, ◌^◌, ◌≤◌, ◌<◌, ◌≡◌, refl, ◌∙◌, ap, true, false, List, [], ◌∷◌,
  ◌++◌, append_assoc, some, done, arith, length, ltb, take, get_or, dec_lt, ◌==◌, below,
  below_sound, ==_iff,
}
use coco_ibex.Common.Int.{negsuc}
use coco_ibex.Printf.Pad.{no_flags}
use coco_ibex.Printf.Number.{number, digits}
use coco_ibex.Printf.Number.Digits.{low_digits, low_digits-zero, div_lt_two_pow, tmp_digits}
use coco_ibex.Printf.Number.Layout.{number-field}
use coco_ibex.Printf.Directive.{
  word, text, skip_flags, flag_of, get_width, get_precision, get_qualifier, read_directive,
  take_word,
}
use coco_ibex.Printf.Convert.{
  FloatWriter, radix_of, non_null, write_string, convert, convert_string, convert_integer,
}
use coco_ibex.Printf.Convert.Strings.{write_string_lem}
use coco_ibex.Printf.Format.{convert_at, run_directive, vsprintf_loop, ee_vsprintf}
use coco_ibex.SimpleSystem.Coremark.Report.{line_format}
use coco_ibex.Verilator.Pcount.{decimal_digits, decimal}
use coco_ibex.Verilator.Pcount.Decimal.{numerals}

digit_holds : below (λ k. get_or digits k 0 == k + b'0') 10 ≡ true
unfolding below
digit_holds = refl

digit_at : (n : ℕ) → get_or digits (n % 10) 0 ≡ n % 10 + b'0'
digit_at n = (==_iff _ _).0 (below_sound _ 10 (n % 10) (omega arith) digit_holds)

zero_sub : (n : ℕ) → 0 - n ≡ 0
zero_sub n = omega arith

-- The digits from the lowest up are those of the decimal text reversed.
reverse-low_digits :
    (fuel room n : ℕ)
    → 0 < n
    → n < numerals fuel
    → n < 2 ^ room
    → reverse (low_digits digits 10 room n) ≡ decimal_digits fuel n
unfolding low_digits decimal_digits
reverse-low_digits zero room n p h k = absurd (omega (arith, h))
reverse-low_digits (suc fuel) zero n p h k = absurd (omega (arith, k))
reverse-low_digits (suc fuel) (suc room) n p h k =
    let nonzero : (n == 0) ≡ false = ground arith in
    rw (nonzero, reverse-cons, digit_at n)
      (elim (dec_lt n 10) [
        | yes small ↦
            let none_left : n / 10 ≡ 0 = omega (arith, small) in
            let last : n % 10 ≡ n = omega (arith, small) in
            let ten : ltb n 10 ≡ true = ground (arith, small) in
            rw (ten, none_left, last, low_digits-zero false 10 (omega arith) (omega arith) room)
              refl
        | no large ↦
            let ten : ltb n 10 ≡ false = ground (arith, large) in
            rw ten (
              ap (λ (s : List ℕ). s ++ (n % 10 + b'0') ∷ [])
                (reverse-low_digits fuel room (n / 10) (omega (arith, large)) (omega (arith, h))
                  (div_lt_two_pow 10 room n (omega arith) k)))
      ])

decimal_lem :
    (n : ℕ) (lo : 2 ≤ 10) (hi : 10 ≤ 36)
    → n < 2 ^ 32
    → reverse (tmp_digits false 10 lo hi n) ≡ decimal n
unfolding tmp_digits decimal_digits
decimal_lem n lo hi lt = elim (dec_lt 0 n) [
  | yes p ↦
      let nonzero : (n == 0) ≡ false = ground arith in
      rw nonzero (reverse-low_digits 20 66 n p (omega (arith, lt)) (omega (arith, lt)))
  | no z ↦ let e : n ≡ 0 = omega arith in rw e refl
]

-- `%u` without flags, width and precision.
number-decimal :
    (str : List ℕ) (n : ℕ)
    → n < 2 ^ 32
    → number str n 10 (negsuc 0) (negsuc 0) no_flags ≡ done (some (str ++ decimal n))
number-decimal str n lt =
    number-field str n 10 (negsuc 0) (negsuc 0) no_flags (omega arith) (omega arith) lt
    ∙ simp zero_sub (ap (λ t. done (some (str ++ t))) (decimal_lem n _ _ lt))

take_all : (s : List ℕ) (n : ℕ) → length s ≤ n → take n s ≡ s
take_all [] zero h = refl
take_all [] (suc n) h = refl
take_all (c ∷ s) zero h = absurd (omega (arith, h))
take_all (c ∷ s) (suc n) h = ap (λ t. c ∷ t) (take_all s n (omega (arith, h)))

-- `%s` without flags, width and precision.
write_string-name :
    (name str : List ℕ)
    → length name < 2 ^ 32
    → write_string no_flags (negsuc 0) (negsuc 0) (some name) str ≡ str ++ name
write_string-name name str h =
    write_string_lem no_flags (negsuc 0) (negsuc 0) (some name) str
    ∙ simp zero_sub (ap (λ t. str ++ t) (take_all name (2 ^ 32 - 1) (omega (arith, h))))

-- The text of a line.
abbrev pub line_text : List ℕ → ℕ → List ℕ
line_text name value = name ++ (b':' ∷ b' ' ∷ (decimal value ++ b'\n' ∷ []))

module _ {Double : Type 0} (flt : FloatWriter Double) where
  pub ee_vsprintf-line :
      (name : List ℕ) (value : ℕ)
      → length name < 2 ^ 32
      → value < 2 ^ 32
      → ee_vsprintf flt line_format (text (some name) ∷ word value ∷ [])
        ≡ done (line_text name value)
  unfolding ee_vsprintf vsprintf_loop run_directive convert_at convert convert_string
      convert_integer radix_of non_null take_word read_directive skip_flags flag_of get_width
      get_precision get_qualifier
  ee_vsprintf-line name value h k =
      rw (write_string-name name [] h, number-decimal _ value k) (simp append_assoc)
