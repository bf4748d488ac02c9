-- ===== src/Printf/Number/Digits.antt =====
-- The digits that `number` puts into `tmp` are the numeral of the number in the base.
use mathlib.Core.List.{reverse, reverse-cons, reverse-append}
use native.Mathlib.Nat.{pow-suc, pow-zero, div-add-mod, mul-pos, mul-le-mul_right, div-mul-le_self}
use coco_ibex.Common.{
  ℕ, zero, suc, ◌+◌, ◌-◌, ◌*◌, ◌/◌, ◌%◌, ◌^◌, ◌≤◌, ◌<◌, ◌≡◌, refl, sym, ap, ◌∙◌, Bool, true, false,
  List, [], ◌∷◌, ◌++◌, append-nil, append_assoc, arith, done, leb, ◌==◌, if◌then◌else◌, length,
  length-reverse, All-append, get_or, All, below, below_sound, ==_iff, max, dec_lt, Bool-cases, inl,
  inr,
}
use coco_ibex.Printf.Number.{digit_table, digit_loop, convert_digits, copy_back}

-- The value of a digit character of either table.
abbrev pub digit_value : ℕ → ℕ
digit_value c = if leb c b'9' then c - b'0' else if leb c b'Z' then c - 55 else c - 87

-- The number that a text of digits spells in a base, the highest digit first.
abbrev pub value : ℕ → ℕ → List ℕ → ℕ
value base acc [] = acc
value base acc (c ∷ s) = value base (acc * base + digit_value c) s

-- The same with the lowest digit first.
abbrev low_value : ℕ → List ℕ → ℕ
low_value base [] = 0
low_value base (c ∷ s) = digit_value c + low_value base s * base

value-append :
    (base acc : ℕ) (s : List ℕ) (c : ℕ)
    → value base acc (s ++ c ∷ []) ≡ value base acc s * base + digit_value c
value-append base acc [] c = refl
value-append base acc (d ∷ s) c = value-append base (acc * base + digit_value d) s c

value-reverse : (base : ℕ) (s : List ℕ) → value base 0 (reverse s) ≡ low_value base s
value-reverse base [] = refl
value-reverse base (c ∷ s) =
    rw (reverse-cons, value-append base 0 (reverse s) c, value-reverse base s) (omega arith)

-- Each character of the tables has its place as its value, and a digit is not NUL.
table_holds :
    (uppercase : Bool)
    → below (λ k. digit_value (get_or (digit_table uppercase) k 0) == k) 36 ≡ true
unfolding below
table_holds true = refl
table_holds false = refl

pub digit_value-table :
    (uppercase : Bool) (k : ℕ) → k < 36 → digit_value (get_or (digit_table uppercase) k 0) ≡ k
digit_value-table uppercase k h = (==_iff _ k).0 (below_sound _ 36 k h (table_holds uppercase))

-- A character of the table for a digit of the base.
abbrev pub InBase : Bool → ℕ → ℕ → Type 0
InBase uppercase base c =
    (digit_value c < base) × (c ≡ get_or (digit_table uppercase) (digit_value c) 0)

-- `tmp` holds the shortest numeral of `num`: its value, its digits below the base and taken from the
-- table, and no digit too many (zero is one digit).
pub record IsNumeral (uppercase : Bool) (base num : ℕ) (text : List ℕ) : Type 0 where
  pub spells : value base 0 text ≡ num
  pub in_base : All (InBase uppercase base) text
  pub shortest : base ^ length text ≤ max num 1 * base

-- The digits of `num` from the lowest up, in at most `room` rounds.
unfoldable pub low_digits : List ℕ → ℕ → ℕ → ℕ → List ℕ
low_digits dig base zero num = []
low_digits dig base (suc room) num =
    let rest = low_digits dig base room (num / base) in
    if num == 0 then [] else get_or dig (num % base) 0 ∷ rest

pub div_lt_two_pow : (base room num : ℕ) → 2 ≤ base → num < 2 ^ suc room → num / base < 2 ^ room
div_lt_two_pow base room num h lt = grind (arith, pow-suc 2 room, div-add-mod num base)

zero_char : (uppercase : Bool) → b'0' ≡ get_or (digit_table uppercase) 0 0
zero_char true = refl
zero_char false = refl

max_one : (num : ℕ) → 0 < num → max num 1 ≡ num
max_one num pos = omega arith

module _ (uppercase : Bool) (base : ℕ) (two_le : 2 ≤ base) (le_36 : base ≤ 36) where
  abbrev pub table : List ℕ
  table = digit_table uppercase

  -- With room for the bits of `num` the loop stays inside `tmp`.
  digit_loop_lem :
      (room num : ℕ) (tmp : List ℕ)
      → num < 2 ^ room
      → digit_loop table base room num tmp ≡ done (tmp ++ low_digits table base room num)
  unfolding digit_loop low_digits
  digit_loop_lem zero num tmp lt = let e : num ≡ 0 = omega arith in rw (e, append-nil)
  digit_loop_lem (suc room) num tmp lt = elim (Bool-cases (num == 0)) [
    | inl is_zero ↦ rw (is_zero, append-nil)
    | inr positive ↦ rw positive (
        digit_loop_lem room (num / base) (tmp ++ get_or table (num % base) 0 ∷ [])
          (div_lt_two_pow base room num two_le lt)
        ∙ ap done (append_assoc tmp (get_or table (num % base) 0 ∷ []) _))
  ]

  value-low_digits :
      (room num : ℕ) → num < 2 ^ room → low_value base (low_digits table base room num) ≡ num
  unfolding low_digits
  value-low_digits zero num lt = omega arith
  value-low_digits (suc room) num lt = elim (Bool-cases (num == 0)) [
    | inl is_zero ↦ rw is_zero (ground arith)
    | inr positive ↦
        rw
          (
            positive,
            digit_value-table uppercase (num % base) (omega arith),
            value-low_digits room (num / base) (div_lt_two_pow base room num two_le lt),
          )
          (omega (arith, div-add-mod num base))
  ]

  InBase-low_digits : (room num : ℕ) → All (InBase uppercase base) (low_digits table base room num)
  unfolding low_digits
  InBase-low_digits zero num = tt
  InBase-low_digits (suc room) num = elim (Bool-cases (num == 0)) [
    | inl is_zero ↦ rw is_zero tt
    | inr positive ↦
        rw (positive, digit_value-table uppercase (num % base) (omega arith))
          ((omega arith, refl), InBase-low_digits room (num / base))
  ]

  pub low_digits-zero : (room : ℕ) → low_digits table base room 0 ≡ []
  unfolding low_digits
  low_digits-zero zero = refl
  low_digits-zero (suc room) = refl

  shortest-low_digits :
      (room num : ℕ) → 0 < num → base ^ length (low_digits table base room num) ≤ num * base
  unfolding low_digits
  shortest-low_digits zero num pos =
      let h : 0 < num * base = mul-pos pos (omega arith) in rw pow-zero h
  shortest-low_digits (suc room) num pos =
      let h : (num == 0) ≡ false = ground arith in
      rw (h, pow-suc base)
        (mul-le-mul_right base
          (tail_le (dec_lt 0 (num / base)) (λ more. shortest-low_digits room (num / base) more)))
    where
      tail_le :
          Dec (0 < num / base)
          → (0 < num / base
              → base ^ length (low_digits table base room (num / base)) ≤ num / base * base)
          → base ^ length (low_digits table base room (num / base)) ≤ num
      tail_le (yes more) rest = omega (arith, rest more, div-mul-le_self num base)
      tail_le (no none_left) rest =
          let e : num / base ≡ 0 = omega arith in rw (e, low_digits-zero, pow-zero) pos

  -- The digits as `tmp` holds them.
  unfoldable pub tmp_digits : ℕ → List ℕ
  tmp_digits num = if num == 0 then b'0' ∷ [] else low_digits table base 66 num

  -- The digits of a 32-bit number fit the 66 bytes of `tmp`.
  pub convert_digits-eq :
      (num : ℕ) → num < 2 ^ 32 → convert_digits table base num ≡ done (tmp_digits num)
  unfolding convert_digits tmp_digits
  convert_digits-eq num lt = elim (Bool-cases (num == 0)) [
    | inl is_zero ↦ rw is_zero
    | inr positive ↦ rw positive (digit_loop_lem 66 num [] (omega arith))
  ]

  All-reverse :
      (s : List ℕ) → All (InBase uppercase base) s → All (InBase uppercase base) (reverse s)
  All-reverse [] h = tt
  All-reverse (c ∷ s) h =
      rw reverse-cons (All-append _ (reverse s) (c ∷ []) (All-reverse s h.1) (h.0, tt))

  IsNumeral-zero : IsNumeral uppercase base 0 (b'0' ∷ [])
  IsNumeral-zero = record {
    spells = omega arith;
    in_base = ((omega arith, zero_char uppercase), tt);
    shortest = rw (pow-suc base 0, pow-zero base) (omega arith);
  }

  -- Read from the highest digit down, `tmp` is the numeral of the number.
  pub tmp_digits-IsNumeral :
      (num : ℕ) → num < 2 ^ 32 → IsNumeral uppercase base num (reverse (tmp_digits num))
  unfolding tmp_digits
  tmp_digits-IsNumeral num lt = elim (dec_lt 0 num) [
    | yes pos ↦
        let h : (num == 0) ≡ false = ground arith in
        rw h (record {
          spells = value-reverse base _ ∙ value-low_digits 66 num (omega arith);
          in_base = All-reverse _ (InBase-low_digits 66 num);
          shortest = rw length-reverse (
              omega (
                arith,
                shortest-low_digits 66 num pos,
                ap (λ (t : ℕ). t * base) (max_one num pos),
              ));
        })
    | no zero_num ↦ let e : num ≡ 0 = omega arith in rw e IsNumeral-zero
  ]

-- Copying `tmp` from its end back to its start writes it reversed.
take_below : ℕ → List ℕ → List ℕ
take_below zero s = []
take_below (suc i) [] = []
take_below (suc i) (c ∷ s) = c ∷ take_below i s

take_below-suc :
    (i : ℕ) (s : List ℕ) → i < length s → take_below (suc i) s ≡ take_below i s ++ get_or s i 0 ∷ []
unfolding take_below
take_below-suc zero [] h = absurd (omega arith)
take_below-suc zero (c ∷ s) h = refl
take_below-suc (suc i) [] h = absurd (omega arith)
take_below-suc (suc i) (c ∷ s) h = ap (λ t. c ∷ t) (take_below-suc i s (omega arith))

take_below-length : (s : List ℕ) → take_below (length s) s ≡ s
unfolding take_below
take_below-length [] = refl
take_below-length (c ∷ s) = ap (λ t. c ∷ t) (take_below-length s)

copy_back-take :
    (i : ℕ) (tmp str : List ℕ)
    → i ≤ length tmp
    → copy_back i tmp str ≡ str ++ reverse (take_below i tmp)
unfolding copy_back
copy_back-take zero tmp str h = unfold take_below in sym (append-nil str)
copy_back-take (suc i) tmp str h =
    rw (take_below-suc i tmp (omega arith), reverse-append)
      (copy_back-take i tmp (str ++ get_or tmp i 0 ∷ []) (omega arith)
        ∙ append_assoc str (get_or tmp i 0 ∷ []) _)

pub copy_back-reverse : (tmp str : List ℕ) → copy_back (length tmp) tmp str ≡ str ++ reverse tmp
copy_back-reverse tmp str =
    copy_back-take (length tmp) tmp str (omega arith)
    ∙ ap (λ t. str ++ reverse t) (take_below-length tmp)
