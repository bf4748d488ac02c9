-- ===== src/Verilator/MemUtil/Options/Kept.antt =====
-- What a command line leaves as it was.
use coco_ibex.Common.{
  ℕ, ◌≡◌, refl, arith, Bool, List, [], ◌∷◌, Option, none, some, Outcome, done, fault, spent, ◌>>=◌,
  codes, ◌∙◌,
}
use mathlib.Core.Path.{subst}
use coco_ibex.Verilator.MemUtil.Areas.{MemArea}
use coco_ibex.Verilator.MemUtil.Argument.{MemArg, parse_mem_arg, detect_mem_image_type}
use coco_ibex.Verilator.MemUtil.Elf.{Handles}
use coco_ibex.Verilator.MemUtil.Write.{Dpi, World, Written, mem_write, mem_write_detect}
use coco_ibex.Verilator.MemUtil.Write.Restore.{mem_write-restored}
use coco_ibex.Verilator.MemUtil.Options.{
  MemOption, rominit, raminit, flashinit, meminit, help, missing_argument, unrecognized, CliResult,
  if_written, write_parsed, meminit_option, area_option, parse_cli_arguments,
}

module _ {M : Type 0} (d : Dpi M) (areas : List MemArea) where
  -- A run that returns with a scope and handles.
  abbrev Keeps : ℕ → Handles → Outcome (CliResult M) → Type 0
  Keeps scope handles (done out) = (out.world.scope ≡ scope) × (out.world.handles ≡ handles)
  Keeps scope handles fault = Unit {0}
  Keeps scope handles spent = Unit {0}

  abbrev KeepsAlways : (World M → Outcome (CliResult M)) → Type 0
  KeepsAlways next = (w : World M) → Keeps w.scope w.handles (next w)

  Keeps-transport :
      (scope scope' : ℕ) (handles handles' : Handles) (m : Outcome (CliResult M))
      → scope ≡ scope'
      → handles ≡ handles'
      → Keeps scope handles m
      → Keeps scope' handles' m
  Keeps-transport scope scope' handles handles' (done out) s h k = (k.0 ∙ s, k.1 ∙ h)
  Keeps-transport scope scope' handles handles' fault s h k = tt
  Keeps-transport scope scope' handles handles' spent s h k = tt

  written-Keeps :
      (next : World M → Outcome (CliResult M)) (exit_app : Bool) (scope : ℕ) (handles : Handles)
      (m : Outcome (Written M))
      → KeepsAlways next
      → ((out : Written M)
          → m ≡ done out
          → (out.world.scope ≡ scope) × (out.world.handles ≡ handles))
      → Keeps scope handles (m >>= if_written d areas next exit_app)
  written-Keeps next exit_app scope handles (done out) k r =
      let same = r out refl in
      let later =
        Keeps-transport out.world.scope scope out.world.handles handles (next out.world) same.0
          same.1 (k out.world) in
      ground (arith, later, same.0, same.1)
  written-Keeps next exit_app scope handles fault k r = tt
  written-Keeps next exit_app scope handles spent k r = tt

  area_option-Keeps :
      (name : List ℕ) (next : World M → Outcome (CliResult M)) (exit_app : Bool) (optarg : List ℕ)
      → KeepsAlways next
      → KeepsAlways (λ (w : World M). area_option d areas name next exit_app w optarg)
  unfolding mem_write_detect
  area_option-Keeps name next exit_app optarg k w =
      let type = detect_mem_image_type optarg in
      written-Keeps next exit_app w.scope w.handles (mem_write d areas name optarg type w) k
        (mem_write-restored d areas name optarg type w)

  write_parsed-Keeps :
      (next : World M → Outcome (CliResult M)) (exit_app : Bool) (arg : Option MemArg)
      → KeepsAlways next
      → KeepsAlways (λ (w : World M). write_parsed d areas next exit_app w arg)
  unfolding write_parsed
  write_parsed-Keeps next exit_app none k w = (refl, refl)
  write_parsed-Keeps next exit_app (some arg) k w =
      written-Keeps next exit_app w.scope w.handles
        (mem_write d areas arg.name arg.filepath arg.type w) k
        (mem_write-restored d areas arg.name arg.filepath arg.type w)

  meminit_option-Keeps :
      (next : World M → Outcome (CliResult M)) (exit_app : Bool) (optarg : List ℕ)
      → KeepsAlways next
      → KeepsAlways (λ (w : World M). meminit_option d areas next exit_app w optarg)
  unfolding meminit_option
  meminit_option-Keeps next exit_app optarg k w =
      ground (arith, write_parsed-Keeps next exit_app (parse_mem_arg optarg) k w)

  parse_cli_arguments-Keeps :
      (exit_app : Bool) (options : List MemOption)
      → KeepsAlways (parse_cli_arguments d areas exit_app options)
  unfolding parse_cli_arguments
  parse_cli_arguments-Keeps exit_app [] w = (refl, refl)
  parse_cli_arguments-Keeps exit_app (rominit optarg ∷ rest) w =
      area_option-Keeps (codes "rom") (parse_cli_arguments d areas exit_app rest) exit_app optarg
        (parse_cli_arguments-Keeps exit_app rest) w
  parse_cli_arguments-Keeps exit_app (raminit optarg ∷ rest) w =
      area_option-Keeps (codes "ram") (parse_cli_arguments d areas exit_app rest) exit_app optarg
        (parse_cli_arguments-Keeps exit_app rest) w
  parse_cli_arguments-Keeps exit_app (flashinit optarg ∷ rest) w =
      area_option-Keeps (codes "flash") (parse_cli_arguments d areas exit_app rest) exit_app optarg
        (parse_cli_arguments-Keeps exit_app rest) w
  parse_cli_arguments-Keeps exit_app (meminit optarg ∷ rest) w =
      meminit_option-Keeps (parse_cli_arguments d areas exit_app rest) exit_app optarg
        (parse_cli_arguments-Keeps exit_app rest) w
  parse_cli_arguments-Keeps exit_app (help ∷ rest) w = (refl, refl)
  parse_cli_arguments-Keeps exit_app (missing_argument ∷ rest) w = (refl, refl)
  parse_cli_arguments-Keeps exit_app (unrecognized ∷ rest) w =
      parse_cli_arguments-Keeps exit_app rest w

  -- However the parse of a command line that returns ends, also after errors in it, the scope is the one
  -- before it, every descriptor is closed and every buffer freed.
  pub parse_cli_arguments-kept :
      (exit_app : Bool) (options : List MemOption) (w : World M) (out : CliResult M)
      → parse_cli_arguments d areas exit_app options w ≡ done out
      → (out.world.scope ≡ w.scope) × (out.world.handles ≡ w.handles)
  parse_cli_arguments-kept exit_app options w out e =
      subst (Keeps w.scope w.handles) e (parse_cli_arguments-Keeps exit_app options w)
