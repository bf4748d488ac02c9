-- ===== src/Printf/Format/Examples.antt =====
-- Tests of the formatting functions and their theorems at concrete formats. The program's `double` is
-- instantiated by a type with one value that prints as nothing.
use coco_ibex.Common.{
  ℕ, ◌≡◌, refl, true, List, [], ◌∷◌, ◌++◌, some, none, done, fault, spent, codes, arith, inl,
}
use coco_ibex.Common.Int.{pos, negsuc, ◌-ℤ◌}
use coco_ibex.Printf.Pad.{no_flags, pad_loop, fill_loop}
use coco_ibex.Printf.Number.{
  number, take_sign, take_prefix, digit_loop, zeros_loop, copy_back, convert_digits, write_sign,
  write_prefix, at_least, write_field,
}
use coco_ibex.Printf.Address.{eaddr, eaddr_loop, iaddr, iaddr_loop, load, justify, octet}
use coco_ibex.Printf.Directive.{
  Arg, word, text, pointer, skip_atoi, flag_of, skip_flags, take_word, star_width, get_width,
  dot_precision, get_precision, get_qualifier, read_directive,
}
use coco_ibex.Printf.Directive.Spelling.{Spelled, IsSpelled, spell}
use coco_ibex.Printf.Directive.ReadBack.{read_directive-spell}
use coco_ibex.Printf.Convert.{
  FloatWriter, radix_of, Radix, strnlen, copy, write_char, write_string, non_null, write_pointer,
  convert_char, convert_string, convert_pointer, convert_address, convert_float, convert_integer,
  convert_other, convert,
}
use coco_ibex.Printf.Format.{convert_at, run_directive, vsprintf_loop, ee_vsprintf}
use coco_ibex.Printf.Format.Fuel.{ee_vsprintf-ne-spent}
use coco_ibex.Printf.Format.Literal.{ee_vsprintf-literal, ee_vsprintf-integer}
use coco_ibex.Printf.Format.Typed.{
  Typed, ended, percent, integer, string, any_pointer, Typed-ee_vsprintf,
}

abbrev no_float : FloatWriter (Unit {0})
no_float str x size precision c flags = done str

abbrev no_args : List (Arg (Unit {0}))
no_args = []

-- All that a run of a format computes with.
run_format : List ℕ → List (Arg (Unit {0})) → List ℕ
unfolding ee_vsprintf vsprintf_loop run_directive convert_at convert convert_char convert_string
    convert_pointer convert_address convert_float convert_integer convert_other radix_of strnlen
    copy write_char write_string non_null write_pointer skip_atoi flag_of skip_flags take_word
    star_width get_width dot_precision get_precision get_qualifier read_directive number take_sign
    take_prefix digit_loop zeros_loop copy_back convert_digits write_sign write_prefix at_least
    write_field pad_loop fill_loop ◌-ℤ◌ eaddr eaddr_loop iaddr iaddr_loop load justify octet
run_format fmt args = elim (ee_vsprintf no_float fmt args) [
  | done str ↦ str
  | fault ↦ codes "fault"
  | spent ↦ codes "spent"
]

counter_line :
    run_format (codes "%s: %u\n") (text (some (codes "Loads")) ∷ word 1234 ∷ [])
    ≡ codes "Loads: 1234\n"
unfolding run_format
counter_line = refl

many :
    run_format (codes "[%-6d|%+05d|%#x|%*s|%.3s|%c%%|%p|%5") (
      word 0xffff_fff9
      ∷ word 42
      ∷ word 255
      ∷ word 4
      ∷ text none
      ∷ text (some (codes "abcdef"))
      ∷ word 0x141
      ∷ pointer 0xbeef
      ∷ [])
    ≡ codes "[-7    |+0042|0xff|<NULL>|abc|A%|0000beef|%"
unfolding run_format
many = refl

missing_arg : run_format (codes "%d") [] ≡ codes "fault"
unfolding run_format
missing_arg = refl

ee_vsprintf-ne-spent_example : ¬ (ee_vsprintf no_float (codes "%d%") no_args ≡ spent)
ee_vsprintf-ne-spent_example =
    ee_vsprintf-ne-spent no_float (λ str x size precision c flags. tt) (codes "%d%") no_args

literal_run : ee_vsprintf no_float (codes "ok\n") no_args ≡ done (codes "ok\n")
literal_run = ee_vsprintf-literal no_float (codes "ok\n") no_args (omega arith)

abbrev wide : Spelled
wide = record { flags = record no_flags { zeropad = true }; width = codes "4"; precision = none }

abbrev unsigned : Radix
unsigned = record { base = 10; flags = record no_flags { zeropad = true } }

number_runs :
    number (codes "n=") 42 10 (pos 4) (negsuc 0) (record no_flags { zeropad = true })
    ≡ done (some (codes "n=0042"))
unfolding number take_sign take_prefix digit_loop zeros_loop copy_back convert_digits write_sign
    write_prefix at_least write_field pad_loop ◌-ℤ◌
number_runs = refl

radix_runs : radix_of b'u' (record no_flags { zeropad = true }) ≡ some unsigned
unfolding radix_of
radix_runs = refl

read_directive-spell_example :
    read_directive (spell wide (b'u' ∷ codes "!")) no_args
    ≡ done (record {
      flags = record no_flags { zeropad = true };
      field_width = pos 4;
      precision = negsuc 0;
      qualifier = none;
      fmt = codes "u!";
      args = [];
    })
read_directive-spell_example =
    read_directive-spell b'u' (codes "!") no_args (inl (omega arith)) wide (record {
      digits = omega arith;
      no_zero = omega arith;
      fits = omega arith;
      precision = tt;
      unsigned = refl;
      lower = refl;
    })

ee_vsprintf-integer_example :
    ee_vsprintf no_float (codes "n=" ++ b'%' ∷ spell wide (b'u' ∷ codes "!")) (word 42 ∷ no_args)
    ≡ vsprintf_loop no_float 1 (codes "!") no_args (codes "n=0042")
ee_vsprintf-integer_example =
    ee_vsprintf-integer no_float (λ str x size precision c flags. tt) (codes "n=") wide b'u'
      (codes "!") 42 no_args unsigned (codes "n=0042") (omega arith)
      (record {
        digits = omega arith;
        no_zero = omega arith;
        fits = omega arith;
        precision = tt;
        unsigned = refl;
        lower = refl;
      })
      radix_runs number_runs

abbrev unadorned : Spelled
unadorned = record { flags = no_flags; width = []; precision = none }

unadorned-IsSpelled : IsSpelled unadorned
unadorned-IsSpelled = record {
  digits = tt;
  no_zero = tt;
  fits = omega arith;
  precision = tt;
  unsigned = refl;
  lower = refl;
}

abbrev mixed_args : List (Arg (Unit {0}))
mixed_args = text none ∷ word 0xFFFF_FFFF ∷ pointer 4096 ∷ []

mixed-Typed : Typed (codes "%s%d%%%p") mixed_args
unfolding radix_of
mixed-Typed = string unadorned (codes "%d%%%p") unadorned-IsSpelled (
    integer unadorned b'd' 0xFFFF_FFFF
      (record { base = 10; flags = record no_flags { sign = true } }) (codes "%%%p")
      unadorned-IsSpelled refl (omega arith)
      (percent (any_pointer unadorned [] unadorned-IsSpelled (omega arith) ended)))

Typed-ee_vsprintf_example :
    (out : List ℕ) × (ee_vsprintf no_float (codes "%s%d%%%p") mixed_args ≡ done out)
Typed-ee_vsprintf_example = Typed-ee_vsprintf no_float (codes "%s%d%%%p") mixed_args mixed-Typed
