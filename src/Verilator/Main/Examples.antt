-- ===== src/Verilator/Main/Examples.antt =====
-- Runs of the simple system's simulation, with the memory and the files of the loader's examples.
use coco_ibex.Common.{
  ℕ, List, length, Outcome, fault, spent, ◌+◌, ◌*◌, ◌≡◌, refl, arith, true, false, [], ◌∷◌, none,
  some, done, codes, replicate, get_elem?,
}
use coco_ibex.Verilator.MemUtil.Areas.{
  find_area, register_default_width, register_memory_area, emplace,
}
use coco_ibex.Text.{same_text, split_last}
use coco_ibex.Verilator.MemUtil.Argument.{
  detect_mem_image_type, type_of_extension, get_mem_image_type_by_name,
}
use coco_ibex.Verilator.MemUtil.Elf.{is_loaded}
use coco_ibex.Verilator.MemUtil.Elf.Bytes.{image_byte}
use coco_ibex.Verilator.MemUtil.Elf.Load.{starts_at, ends_at}
use coco_ibex.Verilator.MemUtil.Elf.Examples.{elf_file}
use coco_ibex.Verilator.MemUtil.Write.{World}
use coco_ibex.Verilator.MemUtil.Write.Examples.{Words, design, design_laws, world, two_words}
use coco_ibex.Verilator.MemUtil.Options.{raminit, parse_cli_arguments}
use coco_ibex.Verilator.Simulation.{
  Toplevel, simulator, set_top, register_extension, set_reset, unset_reset, handle_signals, trace,
}
use coco_ibex.Verilator.Simulation.Loop.{
  run, run_loop, start_run, end_run, run_round, advance_time, eval_top, on_clock_edge, toggle_clock,
  drive_reset, call_extensions, take_requests, is_over,
}
use coco_ibex.Verilator.Pcount.{ibex_counter_names, ibex_pcount_string}
use coco_ibex.Verilator.Pcount.ReadBack.{read_lines, entries}
use coco_ibex.Verilator.Simulation.Exec.{
  unknown_option, parse_command_args, parse_extensions, exec_arguments, exec, run_simulation,
}
use coco_ibex.Verilator.Main.{MainResult, memutil_extension, set_up, main}
use coco_ibex.Verilator.Main.Report.{main_report}
use coco_ibex.Verilator.Main.Counters.{reported, main_report-read_lines}
use coco_ibex.Verilator.Main.Loaded.{prepared, simulated}
use coco_ibex.Verilator.Main.Image.{main-raminit}

abbrev idle : Toplevel (World Words)
idle = record {
  eval = λ clk rst w. w;
  got_finish = λ w. true;
  final = λ w. w;
  start_trace = λ w. w;
  command_args = λ w. w;
  signals = λ time. [];
}

main-raminit_example :
    (memory : Words) × (main
        (design two_words)
        idle
        false
        0
        0
        (unknown_option ∷ [])
        (raminit (codes "a.elf") ∷ [])
        3
        world
      ≡ simulated
          (design two_words)
          idle
          3
          (record (prepared
            (design two_words)
            idle
            false
            0
            0
            (raminit (codes "a.elf") ∷ [])
            world) { state = record world { memory = memory } }))
    × (get_elem? (memory 1) 3
        ≡ image_byte (elf_file two_words) two_words (100 + (1 * 4 + 3)) (some none))
unfolding detect_mem_image_type type_of_extension get_mem_image_type_by_name split_last same_text
    is_loaded starts_at ends_at
main-raminit_example =
    main-raminit (design two_words) (design_laws two_words) idle false 0 0 3 (codes "a.elf") 7
      two_words 100 108 2 1 3 world refl refl refl (refl, refl, refl, refl, refl, refl)
      (ground arith)
      ((λ l. (1 ∷ 2 ∷ 0 ∷ 0 ∷ [], refl, refl)), ((λ l. (8 ∷ 9 ∷ [], refl, refl)), tt))
      (ground arith, refl, refl) refl (ground arith) (ground arith) (ground arith) (ground arith)

abbrev nines : World Words → List ℕ
nines w = replicate 32 9

abbrev outcome : Outcome (MainResult (World Words)) → MainResult (World Words)
outcome (done r) = r
outcome fault = record { simulator = prepared (design two_words) idle false 0 0 [] world; code = 1 }
outcome spent = record { simulator = prepared (design two_words) idle false 0 0 [] world; code = 1 }

-- A run without options, which the design ends with a `$finish`.
abbrev finished : MainResult (World Words)
finished = outcome (main (design two_words) idle false 0 0 [] [] 3 world)

finished_run : main (design two_words) idle false 0 0 [] [] 3 world ≡ done finished
unfolding main set_up exec parse_command_args parse_extensions exec_arguments run_simulation
    memutil_extension parse_cli_arguments register_default_width register_memory_area emplace
    find_area set_top simulator register_extension run run_loop start_run end_run run_round trace
    advance_time eval_top on_clock_edge toggle_clock drive_reset set_reset unset_reset
    handle_signals call_extensions take_requests is_over
finished_run = refl

finished_code : finished.code ≡ 0
unfolding main set_up exec parse_command_args parse_extensions exec_arguments run_simulation
    memutil_extension parse_cli_arguments register_default_width register_memory_area emplace
    find_area set_top simulator register_extension run run_loop start_run end_run run_round trace
    advance_time eval_top on_clock_edge toggle_clock drive_reset set_reset unset_reset
    handle_signals call_extensions take_requests is_over
finished_code = refl

main_report-read_lines_example :
    (text : List ℕ) × (csv : List ℕ) × (main_report
        (design two_words)
        nines
        idle
        false
        0
        0
        []
        []
        3
        world
      ≡ done (reported text csv))
    × (ibex_pcount_string (replicate 32 9) false ≡ done text)
    × (read_lines (length ibex_counter_names) csv
        ≡ some (entries ibex_counter_names (replicate 32 9)))
unfolding ibex_counter_names
main_report-read_lines_example =
    main_report-read_lines (design two_words) nines idle false 0 0 [] [] 3 world finished
      finished_run finished_code (ground arith) (omega arith)
