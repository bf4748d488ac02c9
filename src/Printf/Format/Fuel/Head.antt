-- ===== src/Printf/Format/Fuel/Head.antt =====
-- Reading the head of a directive in ee_printf.c ends, and leaves a format that is no longer.
use coco_ibex.Common.{
  ℕ, suc, ◌+◌, ◌-◌, ◌*◌, ◌^◌, Ends_weaken, ◌≤◌, ◌≡◌, refl, ◌||◌, List, [], ◌∷◌, Option, none, some,
  Ends, Ends-bind, Bool-cases, ltb, ◌==◌, length, arith, inl, inr,
}
use coco_ibex.Common.Int.{pos, ltb_ℤ}
use coco_ibex.Printf.Pad.{Flags, no_flags}
use coco_ibex.Printf.Directive.{
  Arg, word, text, pointer, address, double, skip_atoi, flag_of, skip_flags, take_word, star_width,
  get_width, dot_precision, get_precision, get_qualifier, read_directive, is_digit, int_max, to_int,
}
use coco_ibex.Printf.Format.Fuel.Parts.{Halts}

pub skip_atoi-le : (s : List ℕ) (i : ℕ) → Ends (skip_atoi s i) (λ n. length n.fmt ≤ length s)
unfolding skip_atoi
skip_atoi-le [] i = omega arith
skip_atoi-le (c ∷ s) i = elim (Bool-cases (is_digit c)) [
  | inl d ↦ elim (Bool-cases (ltb int_max (i * 10 + c))) [
    | inl over ↦ rw (d, over) tt
    | inr fits ↦
        rw (d, fits)
          (Ends_weaken (λ n. length n.fmt ≤ length s) (λ n. length n.fmt ≤ suc (length s)) _
            (λ n h. omega arith) (skip_atoi-le s (i * 10 + c - b'0')))
  ]
  | inr n ↦ rw n (omega arith)
]

pub skip_flags-le : (fmt : List ℕ) (flags : Flags) → length (skip_flags fmt flags).fmt ≤ length fmt
unfolding skip_flags
skip_flags-le [] flags = omega arith
skip_flags-le (c ∷ fmt) flags = go (flag_of c flags) refl (λ f. skip_flags-le fmt f)
  where
    go :
        (o : Option Flags)
        → flag_of c flags ≡ o
        → ((f : Flags) → length (skip_flags fmt f).fmt ≤ length fmt)
        → length (skip_flags (c ∷ fmt) flags).fmt ≤ suc (length fmt)
    go none e rest = rw (e, skip_flags) (omega arith)
    go (some flags') e rest = rw (e, skip_flags) (omega (arith, rest flags'))

pub get_qualifier-le : (fmt : List ℕ) → length (get_qualifier fmt).fmt ≤ length fmt
unfolding get_qualifier
get_qualifier-le [] = omega arith
get_qualifier-le (c ∷ fmt) = elim (Bool-cases (c == b'l' || c == b'L')) [
  | inl q ↦ rw q (omega arith)
  | inr n ↦ rw n (omega arith)
]

module _ {Double : Type 0} where
  pub take_word-Halts : (args : List (Arg Double)) → Halts (take_word args)
  unfolding take_word
  take_word-Halts [] = tt
  take_word-Halts (word w ∷ args) = tt
  take_word-Halts (text s ∷ args) = tt
  take_word-Halts (pointer p ∷ args) = tt
  take_word-Halts (address a ∷ args) = tt
  take_word-Halts (double x ∷ args) = tt

  pub star_width-le :
      (w : ℕ) (flags : Flags) (fmt : List ℕ) (args : List (Arg Double))
      → Ends (star_width w flags fmt args) (λ r. length r.fmt ≤ length fmt)
  unfolding star_width
  star_width-le w flags fmt args = elim (Bool-cases (ltb_ℤ (to_int w) (pos 0))) [
    | inl negative ↦ elim (Bool-cases (w == 2 ^ 31)) [
      | inl least ↦ rw (negative, least) tt
      | inr more ↦ rw (negative, more) (omega arith)
    ]
    | inr nonneg ↦ rw nonneg (omega arith)
  ]

  pub get_width-le :
      (flags : Flags) (fmt : List ℕ) (args : List (Arg Double))
      → Ends (get_width flags fmt args) (λ r. length r.fmt ≤ length fmt)
  unfolding get_width
  get_width-le flags [] args = omega arith
  get_width-le flags (c ∷ fmt) args = elim (Bool-cases (is_digit c)) [
    | inl d ↦ rw d (
        Ends-bind (λ n. length n.fmt ≤ length (c ∷ fmt)) _ (skip_atoi (c ∷ fmt) 0) _
          (skip_atoi-le (c ∷ fmt) 0) (λ n h. h))
    | inr n ↦ elim (Bool-cases (c == b'*')) [
      | inl star ↦
          rw (n, star)
            (Ends-bind (λ _. Unit) _ (take_word args) _ (take_word-Halts args)
              (λ t _.
                Ends_weaken (λ r. length r.fmt ≤ length fmt) _ _ (λ r h. omega arith)
                  (star_width-le t.taken flags fmt t.args)))
      | inr other ↦ rw (n, other) (omega arith)
    ]
  ]

  pub dot_precision-le :
      (fmt : List ℕ) (args : List (Arg Double))
      → Ends (dot_precision fmt args) (λ r. length r.fmt ≤ length fmt)
  unfolding dot_precision
  dot_precision-le [] args = omega arith
  dot_precision-le (c ∷ fmt) args = elim (Bool-cases (is_digit c)) [
    | inl d ↦ rw d (
        Ends-bind (λ n. length n.fmt ≤ length (c ∷ fmt)) _ (skip_atoi (c ∷ fmt) 0) _
          (skip_atoi-le (c ∷ fmt) 0) (λ n h. h))
    | inr n ↦ elim (Bool-cases (c == b'*')) [
      | inl star ↦
          rw (n, star)
            (Ends-bind (λ _. Unit) _ (take_word args) _ (take_word-Halts args) (λ t _. omega arith))
      | inr other ↦ rw (n, other) (omega arith)
    ]
  ]

  pub get_precision-le :
      (fmt : List ℕ) (args : List (Arg Double))
      → Ends (get_precision fmt args) (λ r. length r.fmt ≤ length fmt)
  unfolding get_precision
  get_precision-le [] args = omega arith
  get_precision-le (c ∷ fmt) args = elim (Bool-cases (c == b'.')) [
    | inl dot ↦ rw dot (
        Ends_weaken (λ r. length r.fmt ≤ length fmt) _ _ (λ r h. omega arith)
          (dot_precision-le fmt args))
    | inr other ↦ rw other (omega arith)
  ]

  pub read_directive-le :
      (fmt : List ℕ) (args : List (Arg Double))
      → Ends (read_directive fmt args) (λ d. length d.fmt ≤ length fmt)
  unfolding read_directive
  read_directive-le fmt args =
      let f = skip_flags fmt no_flags in
      Ends-bind (λ w. length w.fmt ≤ length f.fmt) _ (get_width f.flags f.fmt args) _
        (get_width-le f.flags f.fmt args)
        (λ w hw.
          Ends-bind (λ p. length p.fmt ≤ length w.fmt) _ (get_precision w.fmt w.args) _
            (get_precision-le w.fmt w.args)
            (λ p hp. omega (arith, hw, hp, skip_flags-le fmt no_flags, get_qualifier-le p.fmt)))
