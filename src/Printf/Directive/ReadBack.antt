-- ===== src/Printf/Directive/ReadBack.antt =====
-- `read_directive` reads back each directive that is spelled.
use coco_ibex.Common.{
  ℕ, ◌+◌, ◌-◌, ◌*◌, ◌≤◌, ◌≡◌, ◌⊎◌, refl, ◌∙◌, sym, Bool, true, false, List, [], ◌∷◌, ◌++◌, Option,
  none, some, done, inl, inr, ltb, if◌then◌else◌, arith,
}
use coco_ibex.Printf.Pad.{Flags, no_flags}
use coco_ibex.Printf.Number.Digits.{value, digit_value}
use coco_ibex.Printf.Directive.{
  Arg, is_digit, int_max, skip_atoi, flag_of, skip_flags, get_width, dot_precision, get_precision,
  get_qualifier, read_directive,
}
use coco_ibex.Printf.Directive.Spelling.{
  mark, flag_text, Spelled, precision_text, spell, width_value, precision_value, IsDigits,
  NoLeadingZero, IsPrecision, IsSpelled, EndsHead,
}

le-value : (acc : ℕ) (ds : List ℕ) → acc ≤ value 10 acc ds
le-value acc [] = omega arith
le-value acc (c ∷ ds) = omega (arith, le-value (acc * 10 + digit_value c) ds)

-- `skip_atoi` reads the decimal value of the digits and stops behind them.
skip_atoi-digits :
    (ds : List ℕ) (c : ℕ) (s : List ℕ) (i : ℕ)
    → IsDigits ds
    → is_digit c ≡ false
    → value 10 i ds + b'0' ≤ int_max
    → skip_atoi (ds ++ c ∷ s) i ≡ done (record { value = value 10 i ds; fmt = c ∷ s })
unfolding skip_atoi
skip_atoi-digits [] c s i h e fits = rw e
skip_atoi-digits (d ∷ ds) c s i h e fits =
    let dv : digit_value d ≡ d - b'0' = ground arith in
    let is : is_digit d ≡ true = ground arith in
    let small : ltb int_max (i * 10 + d) ≡ false =
      ground (arith, le-value (i * 10 + digit_value d) ds) in
    let eq : i * 10 + digit_value d ≡ i * 10 + d - b'0' = omega arith in
    rw (is, small) (rw (← eq) (skip_atoi-digits ds c s (i * 10 + digit_value d) h.1 e fits))

skip_flags-stop :
    (c : ℕ) (s : List ℕ) (f : Flags)
    → flag_of c f ≡ none
    → skip_flags (c ∷ s) f ≡ record { flags = f; fmt = c ∷ s }
unfolding skip_flags
skip_flags-stop c s f e = rw (e, skip_flags)

module _ (s : List ℕ) (f : Flags) where
  skip_left :
      (b : Bool)
      → skip_flags (mark b b'-' s) f ≡ skip_flags s (record f { left = if b then true else f.left })
  unfolding skip_flags flag_of
  skip_left true = refl
  skip_left false = refl

  skip_plus :
      (b : Bool)
      → skip_flags (mark b b'+' s) f ≡ skip_flags s (record f { plus = if b then true else f.plus })
  unfolding skip_flags flag_of
  skip_plus true = refl
  skip_plus false = refl

  skip_space :
      (b : Bool)
      → skip_flags (mark b b' ' s) f
        ≡ skip_flags s (record f { space = if b then true else f.space })
  unfolding skip_flags flag_of
  skip_space true = refl
  skip_space false = refl

  skip_hash :
      (b : Bool)
      → skip_flags (mark b b'#' s) f
        ≡ skip_flags s (record f { hex_prep = if b then true else f.hex_prep })
  unfolding skip_flags flag_of
  skip_hash true = refl
  skip_hash false = refl

  skip_zero :
      (b : Bool)
      → skip_flags (mark b b'0' s) f
        ≡ skip_flags s (record f { zeropad = if b then true else f.zeropad })
  unfolding skip_flags flag_of
  skip_zero true = refl
  skip_zero false = refl

bool_choice : (b : Bool) → (if b then true else false) ≡ b
bool_choice true = refl
bool_choice false = refl

skip_flags-flag_text :
    (f : Flags) (s : List ℕ)
    → f.sign ≡ false
    → f.uppercase ≡ false
    → skip_flags (flag_text f s) no_flags ≡ skip_flags s f
skip_flags-flag_text f s sign upper =
    let zero_text = mark f.zeropad b'0' s in
    let hash_text = mark f.hex_prep b'#' zero_text in
    let space_text = mark f.space b' ' hash_text in
    let plus_text = mark f.plus b'+' space_text in
    let f1 = record no_flags { left = if f.left then true else false } in
    let f2 = record f1 { plus = if f.plus then true else false } in
    let f3 = record f2 { space = if f.space then true else false } in
    let f4 = record f3 { hex_prep = if f.hex_prep then true else false } in
    skip_left plus_text no_flags f.left
    ∙ skip_plus space_text f1 f.plus
    ∙ skip_space hash_text f2 f.space
    ∙ skip_hash zero_text f3 f.hex_prep
    ∙ skip_zero s f4 f.zeropad
    ∙ λ i. skip_flags s (record {
      zeropad = bool_choice f.zeropad i;
      sign = sym sign i;
      plus = bool_choice f.plus i;
      space = bool_choice f.space i;
      left = bool_choice f.left i;
      hex_prep = bool_choice f.hex_prep i;
      uppercase = sym upper i;
    })

-- The head of a text: its first character, or 0 at its end.
flag_of-none : (c : ℕ) (f : Flags) → (b'1' ≤ c) ⊎ (c ≡ b'.') → flag_of c f ≡ none
unfolding flag_of
flag_of-none c f h = ground arith

module _ {Double : Type 0} (c : ℕ) (rest : List ℕ) (args : List (Arg Double))
    (ends : EndsHead c) where
  abbrev tail : Option (List ℕ) → List ℕ
  tail p = precision_text p (c ∷ rest)

  get_qualifier-ends : get_qualifier (c ∷ rest) ≡ record { qualifier = none; fmt = c ∷ rest }
  unfolding get_qualifier
  get_qualifier-ends = ground arith

  skip_flags-width :
      (w : List ℕ) (p : Option (List ℕ)) (f : Flags)
      → IsDigits w
      → NoLeadingZero w
      → skip_flags (w ++ tail p) f ≡ record { flags = f; fmt = w ++ tail p }
  skip_flags-width [] none f d z = skip_flags-stop c rest f (flag_of-none c f (ground arith))
  skip_flags-width [] (some ds) f d z = skip_flags-stop b'.' _ f (flag_of-none b'.' f (inr refl))
  skip_flags-width (e ∷ w) p f d z = skip_flags-stop e _ f (flag_of-none e f (inl (omega arith)))

  get_width-digits :
      (w : List ℕ) (p : Option (List ℕ)) (f : Flags)
      → IsDigits w
      → value 10 0 w + b'0' ≤ int_max
      → get_width f (w ++ tail p) args
        ≡ done (record { flags = f; field_width = width_value w; fmt = tail p; args = args })
  unfolding get_width
  get_width-digits [] none f d fits = ground arith
  get_width-digits [] (some ds) f d fits = refl
  get_width-digits (e ∷ w) none f d fits =
      let is : is_digit e ≡ true = ground arith in
      rw (is, skip_atoi-digits (e ∷ w) c rest 0 d (ground arith) fits)
  get_width-digits (e ∷ w) (some ds) f d fits =
      let is : is_digit e ≡ true = ground arith in
      rw (is, skip_atoi-digits (e ∷ w) b'.' (ds ++ c ∷ rest) 0 d refl fits)

  get_precision-digits :
      (p : Option (List ℕ))
      → IsPrecision p
      → get_precision (tail p) args
        ≡ done (record { precision = precision_value p; fmt = c ∷ rest; args = args })
  unfolding get_precision dot_precision
  get_precision-digits none h = ground arith
  get_precision-digits (some []) h = ground arith
  get_precision-digits (some (e ∷ ds)) h =
      let is : is_digit e ≡ true = ground arith in
      rw (is, skip_atoi-digits (e ∷ ds) c rest 0 h.0 (ground arith) h.1)

  -- A directive that is spelled with flags, width and precision is read back as these, up to its
  -- conversion character, and takes no argument.
  pub read_directive-spell :
      (d : Spelled)
      → IsSpelled d
      → read_directive (spell d (c ∷ rest)) args
        ≡ done (record {
          flags = d.flags;
          field_width = width_value d.width;
          precision = precision_value d.precision;
          qualifier = none;
          fmt = c ∷ rest;
          args = args;
        })
  unfolding read_directive
  read_directive-spell d h = rw (
    skip_flags-flag_text d.flags (d.width ++ tail d.precision) h.unsigned h.lower,
    skip_flags-width d.width d.precision d.flags h.digits h.no_zero,
    get_width-digits d.width d.precision d.flags h.digits h.fits,
    get_precision-digits d.precision h.precision,
    get_qualifier-ends,
  )
