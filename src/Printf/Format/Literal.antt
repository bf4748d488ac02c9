-- ===== src/Printf/Format/Literal.antt =====
-- What `ee_vsprintf` does with literal text and with an integer directive in the middle of a format.
use coco_ibex.Common.{
  ℕ, zero, suc, ◌≤◌, ◌≡◌, ◌≢◌, refl, ◌∙◌, ap, sym, false, List, [], ◌∷◌, ◌++◌, append_assoc,
  append-nil, none, some, done, Ends-bind_cong, Bool-cases, inl, inr, ◌==◌, arith, All, length,
}
use coco_ibex.Common.Int.{ℤ}
use coco_ibex.Printf.Pad.{Flags}
use coco_ibex.Printf.Number.{number}
use coco_ibex.Printf.Directive.{Arg, word, Directive, take_word}
use coco_ibex.Printf.Directive.Spelling.{
  Spelled, IsSpelled, spell, length-spell, width_value, precision_value, EndsHead,
}
use coco_ibex.Printf.Directive.ReadBack.{read_directive-spell}
use coco_ibex.Printf.Convert.{FloatWriter, Radix, radix_of, convert, convert_integer, non_null}
use coco_ibex.Printf.Format.{convert_at, run_directive, vsprintf_loop, ee_vsprintf}
use coco_ibex.Printf.Format.Fuel.{Halts, run_directive-le}

pub radix_of-EndsHead : (c : ℕ) (f : Flags) (r : Radix) → radix_of c f ≡ some r → EndsHead c
unfolding radix_of
radix_of-EndsHead c f r e = ground arith

radix_of-others :
    (c : ℕ) (f : Flags) (r : Radix)
    → radix_of c f ≡ some r
    → ((c == b'c') ≡ false)
      × ((c == b's') ≡ false)
      × ((c == b'p') ≡ false)
      × ((c == b'A') ≡ false)
      × ((c == b'a') ≡ false)
      × ((c == b'f') ≡ false)
unfolding radix_of
radix_of-others c f r e = ground arith

pub convert-radix :
    {Double : Type 0} (flt : FloatWriter Double) (c : ℕ) (d : Directive Double)
    (args : List (Arg Double)) (str : List ℕ) (r : Radix)
    → radix_of c d.flags ≡ some r
    → convert flt c d args str ≡ convert_integer flt r d args str
unfolding convert
convert-radix flt c d args str r e =
    let (n1, n2, n3, n4, n5, n6) = radix_of-others c d.flags r e in
    rw (n1, n2, n3, n4, n5, n6, e, convert)

abbrev IsLiteral : List ℕ → Type 0
IsLiteral s = All (λ c. c ≢ b'%') s

module _ {Double : Type 0} (flt : FloatWriter Double) where
  literal_loop :
      (lit fmt : List ℕ) (args : List (Arg Double)) (str : List ℕ)
      → IsLiteral lit
      → vsprintf_loop flt (length (lit ++ fmt)) (lit ++ fmt) args str
        ≡ vsprintf_loop flt (length fmt) fmt args (str ++ lit)
  literal_loop [] fmt args str h = rw append-nil
  literal_loop (c ∷ lit) fmt args str h =
      let e : (c == b'%') ≡ false = ground arith in
      step e
      ∙ literal_loop lit fmt args (str ++ c ∷ []) h.1
      ∙ ap (λ t. vsprintf_loop flt (length fmt) fmt args t) (append_assoc str (c ∷ []) lit)
    where
      step :
          (c == b'%') ≡ false
          → vsprintf_loop flt (suc (length (lit ++ fmt))) (c ∷ (lit ++ fmt)) args str
            ≡ vsprintf_loop flt (length (lit ++ fmt)) (lit ++ fmt) args (str ++ c ∷ [])
      step e = unfold vsprintf_loop in rw (e, vsprintf_loop)

  -- A format with no `%` is copied to the output.
  pub ee_vsprintf-literal :
      (lit : List ℕ) (args : List (Arg Double))
      → IsLiteral lit
      → ee_vsprintf flt lit args ≡ done lit
  unfolding ee_vsprintf vsprintf_loop
  ee_vsprintf-literal lit args h =
      ap (λ t. vsprintf_loop flt (length t) t args []) (sym (append-nil lit))
      ∙ literal_loop lit [] args [] h

module _ {Double : Type 0} (flt : FloatWriter Double)
    (flt_halts : (str : List ℕ) (x : Double) (size precision : ℤ) (c : ℕ) (flags : Flags)
      → Halts (flt str x size precision c flags)) where
  -- Any fuel that covers the format gives the same outcome.
  loop_enough :
      (f g : ℕ) (fmt : List ℕ) (args : List (Arg Double)) (str : List ℕ)
      → length fmt ≤ f
      → length fmt ≤ g
      → vsprintf_loop flt f fmt args str ≡ vsprintf_loop flt g fmt args str
  unfolding vsprintf_loop
  loop_enough zero zero fmt args str p q = refl
  loop_enough zero (suc g) [] args str p q = refl
  loop_enough zero (suc g) (c ∷ fmt) args str p q = absurd (omega arith)
  loop_enough (suc f) zero [] args str p q = refl
  loop_enough (suc f) zero (c ∷ fmt) args str p q = absurd (omega arith)
  loop_enough (suc f) (suc g) [] args str p q = refl
  loop_enough (suc f) (suc g) (c ∷ fmt) args str p q = elim (Bool-cases (c == b'%')) [
    | inl percent ↦
        rw (percent, vsprintf_loop)
          (Ends-bind_cong (λ r. length r.fmt ≤ length fmt) (run_directive flt fmt args str) _ _
            (run_directive-le flt flt_halts fmt args str)
            (λ r k. loop_enough f g r.fmt r.args r.str (omega (arith, k)) (omega (arith, k))))
    | inr plain ↦ rw (plain, vsprintf_loop) (loop_enough f g fmt args _ (omega arith) (omega arith))
  ]

  run_directive-integer :
      (d : Spelled) (c : ℕ) (rest : List ℕ) (w : ℕ) (args : List (Arg Double)) (str out : List ℕ)
      (r : Radix)
      → IsSpelled d
      → radix_of c d.flags ≡ some r
      → number str w r.base (width_value d.width) (precision_value d.precision) r.flags
        ≡ done (some out)
      → run_directive flt (spell d (c ∷ rest)) (word w ∷ args) str
        ≡ done (record { fmt = rest; args = args; str = out })
  unfolding run_directive convert_at convert_integer take_word non_null
  run_directive-integer d c rest w args str out r h e n =
      let head : Directive Double = record {
        flags = d.flags;
        field_width = width_value d.width;
        precision = precision_value d.precision;
        qualifier = none;
        fmt = c ∷ rest;
        args = word w ∷ args;
      } in
      rw (read_directive-spell c rest (word w ∷ args) (radix_of-EndsHead c d.flags r e) d h)
        (rw (convert-radix flt c head (word w ∷ args) str r e) (rw n))

  -- Literal text and an integer directive before the rest of a format: the text is copied, the number
  -- is written behind it by `number` with the flags, width and precision as spelled, and the loop goes
  -- on behind both.
  pub ee_vsprintf-integer :
      (lit : List ℕ) (d : Spelled) (c : ℕ) (rest : List ℕ) (w : ℕ) (args : List (Arg Double))
      (r : Radix) (out : List ℕ)
      → IsLiteral lit
      → IsSpelled d
      → radix_of c d.flags ≡ some r
      → number lit w r.base (width_value d.width) (precision_value d.precision) r.flags
        ≡ done (some out)
      → ee_vsprintf flt (lit ++ b'%' ∷ spell d (c ∷ rest)) (word w ∷ args)
        ≡ vsprintf_loop flt (length rest) rest args out
  unfolding ee_vsprintf
  ee_vsprintf-integer lit d c rest w args r out l h e n =
      literal_loop flt lit (b'%' ∷ spell d (c ∷ rest)) (word w ∷ args) [] l ∙ step
    where
      step :
          vsprintf_loop flt
            (suc (length (spell d (c ∷ rest))))
            (b'%' ∷ spell d (c ∷ rest))
            (word w ∷ args)
            lit
          ≡ vsprintf_loop flt (length rest) rest args out
      step =
          unfold vsprintf_loop in
          rw (run_directive-integer d c rest w args lit out r h e n) (
            loop_enough (length (spell d (c ∷ rest))) (length rest) rest args out
              (omega (arith, length-spell d (c ∷ rest))) (omega arith))
