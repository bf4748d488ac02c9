-- ===== src/Verilator/MemUtil/Options.antt =====
-- `ParseCLIArguments` over the options that `getopt_long` finds, in their order.
pub mod Short
pub mod Kept
mod Examples
use coco_ibex.Common.{
  ℕ, ◌+◌, Bool, true, false, ◌&&◌, leb, List, [], ◌∷◌, Option, none, some, Outcome, done, ◌>>=◌,
  if◌then◌else◌, codes,
}
use coco_ibex.Text.{same_text}
use coco_ibex.Verilator.MemUtil.Areas.{MemArea}
use coco_ibex.Verilator.MemUtil.Argument.{MemArg, parse_mem_arg}
use coco_ibex.Verilator.MemUtil.Write.{Dpi, World, Written, mem_write, mem_write_detect}

-- What `getopt_long` returns, with `optarg`.
pub data MemOption : Type 0 where
  rominit raminit flashinit meminit : List ℕ → MemOption
  help missing_argument unrecognized : MemOption

unfoldable pub to_lower : ℕ → ℕ
to_lower c = if leb b'A' c && leb c b'Z' then c + 32 else c

abbrev lower_case : List ℕ → List ℕ
lower_case [] = []
lower_case (c ∷ s) = to_lower c ∷ lower_case s

-- `strcasecmp(a, b) == 0`.
unfoldable pub same_ignoring_case : List ℕ → List ℕ → Bool
same_ignoring_case a b = same_text (lower_case a) (lower_case b)

pub record CliResult (M : Type 0) : Type 0 where
  pub world : World M
  pub exit_app : Bool
  pub success : Bool

module _ {M : Type 0} (d : Dpi M) (mem_register : List MemArea) where
  -- What follows on a call of `MemWrite`.
  abbrev pub if_written :
      (World M → Outcome (CliResult M)) → Bool → Written M → Outcome (CliResult M)
  if_written next exit_app out =
      if out.ok
      then next out.world
      else done (record { world = out.world; exit_app = exit_app; success = false })

  unfoldable pub write_parsed :
      (World M → Outcome (CliResult M)) → Bool → World M → Option MemArg → Outcome (CliResult M)
  write_parsed next exit_app w none =
      done (record { world = w; exit_app = exit_app; success = false })
  write_parsed next exit_app w (some arg) =
      mem_write d mem_register arg.name arg.filepath arg.type w >>= if_written next exit_app

  unfoldable pub meminit_option :
      (World M → Outcome (CliResult M)) → Bool → World M → List ℕ → Outcome (CliResult M)
  meminit_option next exit_app w optarg =
      if same_ignoring_case optarg (codes "list")
      then done (record { world = w; exit_app = true; success = true })
      else write_parsed next exit_app w (parse_mem_arg optarg)

  abbrev pub area_option :
      List ℕ → (World M → Outcome (CliResult M)) → Bool → World M → List ℕ → Outcome (CliResult M)
  area_option name next exit_app w optarg =
      mem_write_detect d mem_register name optarg w >>= if_written next exit_app

  unfoldable pub parse_cli_arguments : Bool → List MemOption → World M → Outcome (CliResult M)
  parse_cli_arguments exit_app [] w =
      done (record { world = w; exit_app = exit_app; success = true })
  parse_cli_arguments exit_app (rominit optarg ∷ rest) w =
      area_option (codes "rom") (parse_cli_arguments exit_app rest) exit_app w optarg
  parse_cli_arguments exit_app (raminit optarg ∷ rest) w =
      area_option (codes "ram") (parse_cli_arguments exit_app rest) exit_app w optarg
  parse_cli_arguments exit_app (flashinit optarg ∷ rest) w =
      area_option (codes "flash") (parse_cli_arguments exit_app rest) exit_app w optarg
  parse_cli_arguments exit_app (meminit optarg ∷ rest) w =
      meminit_option (parse_cli_arguments exit_app rest) exit_app w optarg
  parse_cli_arguments exit_app (help ∷ rest) w =
      done (record { world = w; exit_app = exit_app; success = true })
  parse_cli_arguments exit_app (missing_argument ∷ rest) w =
      done (record { world = w; exit_app = exit_app; success = false })
  parse_cli_arguments exit_app (unrecognized ∷ rest) w = parse_cli_arguments exit_app rest w
