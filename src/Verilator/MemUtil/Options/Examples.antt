-- ===== src/Verilator/MemUtil/Options/Examples.antt =====
-- Command lines of the loader.
use coco_ibex.Common.{◌≡◌, refl, false, [], ◌∷◌, done, codes}
use coco_ibex.Verilator.MemUtil.Areas.{find_area}
use coco_ibex.Text.{same_text, split_last}
use coco_ibex.Verilator.MemUtil.Argument.{
  detect_mem_image_type, type_of_extension, get_mem_image_type_by_name,
}
use coco_ibex.Verilator.MemUtil.Write.{
  mem_write, mem_write_detect, write_found, write_area, write_scope, write_type, is_file_readable,
  write_vmem_to_mem,
}
use coco_ibex.Verilator.MemUtil.Write.Examples.{Words, design, world, ram, two_words}
use coco_ibex.Verilator.MemUtil.Options.{rominit, raminit, help, CliResult, parse_cli_arguments}
use coco_ibex.Verilator.MemUtil.Options.Kept.{parse_cli_arguments-kept}

-- A memory that is loaded, and one that is not registered.
abbrev failed_run : CliResult Words
failed_run = record { world = world; exit_app = false; success = false }

failed_run_lem :
    parse_cli_arguments
      (design two_words)
      (ram ∷ [])
      false
      (raminit (codes "a.vmem") ∷ rominit (codes "a") ∷ help ∷ [])
      world
    ≡ done failed_run
unfolding parse_cli_arguments mem_write_detect mem_write write_found write_area write_scope
    write_type is_file_readable write_vmem_to_mem find_area same_text detect_mem_image_type
    type_of_extension get_mem_image_type_by_name split_last
failed_run_lem = refl

parse_cli_arguments-kept_example :
    (failed_run.world.scope ≡ world.scope) × (failed_run.world.handles ≡ world.handles)
parse_cli_arguments-kept_example =
    parse_cli_arguments-kept (design two_words) (ram ∷ []) false
      (raminit (codes "a.vmem") ∷ rominit (codes "a") ∷ help ∷ []) world failed_run failed_run_lem
