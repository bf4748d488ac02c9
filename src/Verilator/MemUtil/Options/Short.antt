-- ===== src/Verilator/MemUtil/Options/Short.antt =====
-- The options for one memory against the general one.
use coco_ibex.Common.{
  ℕ, ◌≡◌, refl, arith, ◌∙◌, Bool, false, List, [], ◌∷◌, ◌++◌, some, Outcome, codes,
}
use coco_ibex.Text.{Without, same_text}
use coco_ibex.Verilator.MemUtil.Areas.{MemArea}
use coco_ibex.Verilator.MemUtil.Argument.{is_empty, parse_mem_arg, detect_mem_image_type}
use coco_ibex.Verilator.MemUtil.Argument.Fields.{with_commas, arg_of_texts, parse_mem_arg_lem}
use coco_ibex.Verilator.MemUtil.Write.{Dpi, World, mem_write_detect}
use coco_ibex.Verilator.MemUtil.Options.{
  MemOption, rominit, raminit, flashinit, meminit, CliResult, to_lower, same_ignoring_case,
  write_parsed, meminit_option, area_option, parse_cli_arguments,
}

-- An argument of a name and a file.
parse_name_and_file :
    (name file : List ℕ)
    → Without b',' name
    → Without b',' file
    → is_empty name ≡ false
    → parse_mem_arg (name ++ b',' ∷ file)
      ≡ some (record { name = name; filepath = file; type = detect_mem_image_type file })
unfolding with_commas arg_of_texts
parse_name_and_file name file hn hf given =
    parse_mem_arg_lem name (file ∷ []) hn (hf, tt) ∙ ground (arith, given)

module _ {M : Type 0} (d : Dpi M) (areas : List MemArea) where
  meminit_option-area :
      (name file : List ℕ) (next : World M → Outcome (CliResult M)) (exit_app : Bool) (w : World M)
      → Without b',' name
      → Without b',' file
      → is_empty name ≡ false
      → same_ignoring_case (name ++ b',' ∷ file) (codes "list") ≡ false
      → area_option d areas name next exit_app w file
        ≡ meminit_option d areas next exit_app w (name ++ b',' ∷ file)
  unfolding meminit_option write_parsed mem_write_detect
  meminit_option-area name file next exit_app w hn hf given no_list =
      rw (no_list, parse_name_and_file name file hn hf given) refl

  -- With a file whose name has no comma, `-r`, `-m` and `-f` do what `-l` does with the name of the
  -- memory before the comma, whatever the options behind them are.
  parse_cli_arguments-short :
      (file : List ℕ) (exit_app : Bool) (rest : List MemOption) (w : World M)
      → Without b',' file
      → (parse_cli_arguments d areas exit_app (rominit file ∷ rest) w
          ≡ parse_cli_arguments d areas exit_app (meminit (codes "rom" ++ b',' ∷ file) ∷ rest) w)
        × (parse_cli_arguments d areas exit_app (raminit file ∷ rest) w
            ≡ parse_cli_arguments d areas exit_app (meminit (codes "ram" ++ b',' ∷ file) ∷ rest) w)
        × (parse_cli_arguments d areas exit_app (flashinit file ∷ rest) w
            ≡ parse_cli_arguments d areas exit_app
                (meminit (codes "flash" ++ b',' ∷ file) ∷ rest)
                w)
  unfolding parse_cli_arguments same_ignoring_case same_text to_lower
  parse_cli_arguments-short file exit_app rest w h =
      let next = parse_cli_arguments d areas exit_app rest in
      (
        meminit_option-area (codes "rom") file next exit_app w (ground arith) h refl refl,
        meminit_option-area (codes "ram") file next exit_app w (ground arith) h refl refl,
        meminit_option-area (codes "flash") file next exit_app w (ground arith) h refl refl,
      )
