-- ===== src/Printf/Format/Typed.antt =====
-- Formats whose directives have arguments of their kinds.
use coco_ibex.Common.{
  ℕ, zero, suc, ◌≤◌, ◌<◌, ◌^◌, ◌≡◌, ◌≢◌, ◌∙◌, List, [], ◌∷◌, Option, some, done, inl, arith, length,
}
use coco_ibex.Printf.Directive.{Arg, word, text, pointer}
use coco_ibex.Printf.Directive.Spelling.{
  Spelled, IsSpelled, spell, length-spell, width_value, precision_value,
}
use coco_ibex.Printf.Convert.{FloatWriter, Radix, radix_of}
use coco_ibex.Printf.Format.{vsprintf_loop, ee_vsprintf}
use coco_ibex.Printf.Format.Literal.{radix_of-EndsHead, convert-radix}
use coco_ibex.Printf.Format.Arms.{
  head, number-done, radix_of-base, write_pointer-done, directive-done, loop_end, plain-done,
  percent-done, integer-done, char-done, string-done, pointer-done,
}

-- A format and its arguments: text, `%%`, and directives, each with its argument. A directive is spelled with
-- each flag at most once, in one order, and a width and a precision in digits that fit `int`; it has no `*` and
-- no qualifier. The arguments behind the format are free.
pub data Typed {Double : Type 0} : List ℕ → List (Arg Double) → Type 0 where
  ended : {args : List (Arg Double)} → Typed [] args
  plain :
      {c : ℕ} {fmt : List ℕ} {args : List (Arg Double)}
      → c ≢ b'%'
      → Typed fmt args
      → Typed (c ∷ fmt) args
  percent :
      {fmt : List ℕ} {args : List (Arg Double)} → Typed fmt args → Typed (b'%' ∷ b'%' ∷ fmt) args
  integer :
      (d : Spelled) (c w : ℕ) (r : Radix) (fmt : List ℕ) {args : List (Arg Double)}
      → IsSpelled d
      → radix_of c d.flags ≡ some r
      → w < 2 ^ 32
      → Typed fmt args
      → Typed (b'%' ∷ spell d (c ∷ fmt)) (word w ∷ args)
  char :
      (d : Spelled) {w : ℕ} (fmt : List ℕ) {args : List (Arg Double)}
      → IsSpelled d
      → Typed fmt args
      → Typed (b'%' ∷ spell d (b'c' ∷ fmt)) (word w ∷ args)
  string :
      (d : Spelled) {s : Option (List ℕ)} (fmt : List ℕ) {args : List (Arg Double)}
      → IsSpelled d
      → Typed fmt args
      → Typed (b'%' ∷ spell d (b's' ∷ fmt)) (text s ∷ args)
  any_pointer :
      (d : Spelled) {p : ℕ} (fmt : List ℕ) {args : List (Arg Double)}
      → IsSpelled d
      → p < 2 ^ 32
      → Typed fmt args
      → Typed (b'%' ∷ spell d (b'p' ∷ fmt)) (pointer p ∷ args)

module _ {Double : Type 0} (flt : FloatWriter Double) where
  Typed-loop :
      (fuel : ℕ) (fmt : List ℕ) (args : List (Arg Double)) (str : List ℕ)
      → Typed fmt args
      → length fmt ≤ fuel
      → (out : List ℕ) × (vsprintf_loop flt fuel fmt args str ≡ done out)
  Typed-loop fuel fmt args str ended k = loop_end flt fuel args str
  Typed-loop zero fmt args str (plain ne t) k = absurd (omega (arith, k))
  Typed-loop (suc fuel) fmt args str (plain ne t) k =
      plain-done flt fuel _ _ args str ne (Typed-loop fuel _ args _ t (omega (arith, k)))
  Typed-loop zero fmt args str (percent t) k = absurd (omega (arith, k))
  Typed-loop (suc fuel) fmt args str (percent t) k =
      percent-done flt fuel _ args str (Typed-loop fuel _ args _ t (omega (arith, k)))
  Typed-loop zero fmt args str (integer d c w r f h e lt t) k = absurd (omega (arith, k))
  Typed-loop (suc fuel) fmt args str (integer d c w r f h e lt t) k =
      let (two_le, le_36) = radix_of-base c d.flags r e in
      let (out, n) =
        number-done str w r.base (width_value d.width) (precision_value d.precision) r.flags two_le
          le_36 lt in
      directive-done flt fuel d c f _ str _ h (radix_of-EndsHead c d.flags r e)
        (convert-radix flt c (head flt d c f _) _ str r e ∙ integer-done flt d c f _ str w r out n)
        (Typed-loop fuel f _ _ t (omega (arith, k, length-spell d (c ∷ f))))
  Typed-loop zero fmt args str (char d f h t) k = absurd (omega (arith, k))
  Typed-loop (suc fuel) fmt args str (char d f h t) k =
      directive-done flt fuel d b'c' f _ str _ h (inl (omega arith)) (char-done flt d f _ str _)
        (Typed-loop fuel f _ _ t (omega (arith, k, length-spell d (b'c' ∷ f))))
  Typed-loop zero fmt args str (string d f h t) k = absurd (omega (arith, k))
  Typed-loop (suc fuel) fmt args str (string d f h t) k =
      directive-done flt fuel d b's' f _ str _ h (inl (omega arith)) (string-done flt d f _ str _)
        (Typed-loop fuel f _ _ t (omega (arith, k, length-spell d (b's' ∷ f))))
  Typed-loop zero fmt args str (any_pointer d f h lt t) k = absurd (omega (arith, k))
  Typed-loop (suc fuel) fmt args str (any_pointer d f h lt t) k =
      let (out, n) =
        write_pointer-done d.flags (width_value d.width) (precision_value d.precision) _ str lt in
      directive-done flt fuel d b'p' f _ str _ h (inl (omega arith))
        (pointer-done flt d f _ str _ out n)
        (Typed-loop fuel f _ _ t (omega (arith, k, length-spell d (b'p' ∷ f))))

  -- A format of text, `%%`, integers, characters, strings and pointers, whose arguments are of these kinds, is
  -- formatted without a fault, where each directive has a flag at most once, in one order, a width and a
  -- precision in digits that fit `int`, and no `*` and no qualifier.
  pub Typed-ee_vsprintf :
      (fmt : List ℕ) (args : List (Arg Double))
      → Typed fmt args
      → (out : List ℕ) × (ee_vsprintf flt fmt args ≡ done out)
  unfolding ee_vsprintf
  Typed-ee_vsprintf fmt args t = Typed-loop (length fmt) fmt args [] t (omega arith)
