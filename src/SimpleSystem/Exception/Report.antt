-- ===== src/SimpleSystem/Exception/Report.antt =====
-- The report that the exception handler leaves on the console.
use coco_ibex.Common.{ℕ, ◌^◌, ◌<◌, ◌≡◌, refl, ap, ◌∙◌, List, [], ◌∷◌, ◌++◌, length, codes, All}
use coco_ibex.Printf.Number.Digits.{value}
use coco_ibex.SimpleSystem.Console.{Trace, putchar, puts, puthex, sim_halt}
use coco_ibex.SimpleSystem.Console.Hex.{puthex_lem, IsHexDigit}
use coco_ibex.SimpleSystem.Exception.{simple_exc_handler}

puts-append_text : (a b : List ℕ) (t : Trace) → puts b (puts a t) ≡ puts (a ++ b) t
unfolding puts
puts-append_text [] b t = refl
puts-append_text (c ∷ a) b t = puts-append_text a b (putchar c t)

puts-parts :
    (a p b q c r d : List ℕ) (t : Trace)
    → puts d (puts r (puts c (puts q (puts b (puts p (puts a t))))))
      ≡ puts (a ++ (p ++ (b ++ (q ++ (c ++ (r ++ d)))))) t
puts-parts a p b q c r d t =
    puts-append_text r d (puts c (puts q (puts b (puts p (puts a t)))))
    ∙ puts-append_text c (r ++ d) (puts q (puts b (puts p (puts a t))))
    ∙ puts-append_text q (c ++ (r ++ d)) (puts b (puts p (puts a t)))
    ∙ puts-append_text b (q ++ (c ++ (r ++ d))) (puts p (puts a t))
    ∙ puts-append_text p (b ++ (q ++ (c ++ (r ++ d)))) (puts a t)
    ∙ puts-append_text a (p ++ (b ++ (q ++ (c ++ (r ++ d))))) t

-- Eight hexadecimal digits that spell a word.
pub record IsWord (text : List ℕ) (h : ℕ) : Type 0 where
  eight : length text ≡ 8
  hexadecimal : All IsHexDigit text
  pub spells : value 16 0 text ≡ h

puthex-IsWord :
    (h : ℕ) (t : Trace) → h < 2 ^ 32 → (text : List ℕ) × IsWord text h × (puthex h t ≡ puts text t)
puthex-IsWord h t lt =
    let (text, e, n, d, v) = puthex_lem h t lt in
    (text, record { eight = n; hexadecimal = d; spells = v }, e)

-- The handler prints one report with the three registers as eight hexadecimal digits each, and halts
-- the simulation after it. The characters `%0X` stand in the report as they are.
pub simple_exc_handler_lem :
    (mepc mcause mtval : ℕ) (t : Trace)
    → mepc < 2 ^ 32
    → mcause < 2 ^ 32
    → mtval < 2 ^ 32
    → (p q r : List ℕ) × IsWord p mepc
      × IsWord q mcause
      × IsWord r mtval
      × (simple_exc_handler mepc mcause mtval t
          ≡ sim_halt (
              puts
                (codes "EXCEPTION!!!\n============\nMEPC:   0x%0X"
                  ++ (p
                      ++ (codes "\nMCAUSE: 0x%0X"
                          ++ (q ++ (codes "\nMTVAL:  0x%0X" ++ (r ++ codes "\n"))))))
                t))
unfolding simple_exc_handler puts
simple_exc_handler_lem mepc mcause mtval t h1 h2 h3 =
    let a = codes "EXCEPTION!!!\n============\nMEPC:   0x%0X" in
    let b = codes "\nMCAUSE: 0x%0X" in
    let c = codes "\nMTVAL:  0x%0X" in
    let t3 = puts a t in
    let (p, wp, ep) = puthex-IsWord mepc t3 h1 in
    let t4 = puts b (puts p t3) in
    let (q, wq, eq) = puthex-IsWord mcause t4 h2 in
    let t5 = puts c (puts q t4) in
    let (r, wr, er) = puthex-IsWord mtval t5 h3 in
    (
      p,
      q,
      r,
      wp,
      wq,
      wr,
      ap
            (λ (u : Trace).
              sim_halt (putchar b'\n' (puthex mtval (puts c (puthex mcause (puts b u))))))
            ep
          ∙ ap (λ (u : Trace). sim_halt (putchar b'\n' (puthex mtval (puts c u)))) eq
          ∙ ap (λ (u : Trace). sim_halt (putchar b'\n' u)) er
          ∙ ap sim_halt (puts-parts a p b q c r (codes "\n") t),
    )
