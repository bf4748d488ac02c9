-- ===== src/Verilator/Main/Image.antt =====
-- An image on the command line of the simulation of the simple system.
use coco_ibex.Common.{
  ℕ, ◌+◌, ◌-◌, ◌*◌, ◌^◌, ◌≤◌, ◌<◌, ◌≡◌, refl, Bool, true, false, List, [], ◌∷◌, none, some, done,
  codes, get_elem?, All, inl,
}
use coco_ibex.Verilator.MemUtil.Areas.{find_area}
use coco_ibex.Text.{same_text}
use coco_ibex.Verilator.MemUtil.Argument.{elf, detect_mem_image_type}
use coco_ibex.Verilator.MemUtil.Elf.{Phdr}
use coco_ibex.Verilator.MemUtil.Elf.Bounds.{EndsInside}
use coco_ibex.Verilator.MemUtil.Elf.Bytes.{HasBytes, image_byte}
use coco_ibex.Verilator.MemUtil.Elf.Load.{IsElf32, Spans}
use coco_ibex.Verilator.MemUtil.Write.{Dpi, World, mem_write, mem_write_detect}
use coco_ibex.Verilator.MemUtil.Write.Words.{MemoryLaws}
use coco_ibex.Verilator.MemUtil.Write.Image.{mem_write-image}
use coco_ibex.Verilator.MemUtil.Options.{raminit, parse_cli_arguments}
use coco_ibex.Verilator.Simulation.{Toplevel}
use coco_ibex.Verilator.Simulation.Exec.{unknown_option}
use coco_ibex.Verilator.Main.{main}
use coco_ibex.Verilator.Main.Loaded.{ram_area, prepared, simulated, main-simulated}

module _ {M : Type 0} (d : Dpi M) (laws : MemoryLaws d) (top : Toplevel (World M)) where
  raminit_lem :
      (file : List ℕ) (w after : World M)
      → detect_mem_image_type file ≡ elf
      → mem_write d (ram_area ∷ []) (codes "ram") file elf w
        ≡ done (record { world = after; ok = true })
      → parse_cli_arguments d (ram_area ∷ []) false (raminit file ∷ []) w
        ≡ done (record { world = after; exit_app = false; success = true })
  unfolding parse_cli_arguments mem_write_detect
  raminit_lem file w after type e = rw (type, e) refl

  -- With `-m` and a 32-bit ELF file whose image is a number of whole words inside the RAM, `main` is the
  -- simulation from a memory in which every byte of these words is that of the last segment at its address,
  -- counted from the lowest one, and with the scope and the handles as they were.
  pub main-raminit :
      (vm_trace : Bool) (clk rst fuel : ℕ) (file : List ℕ) (scope : ℕ) (ps : List Phdr)
      (low high rounds j k : ℕ) (w : World M)
      → detect_mem_image_type file ≡ elf
      → d.stat file ≡ true
      → d.get_scope (codes "TOP.ibex_simple_system.u_ram") ≡ some scope
      → IsElf32 (d.elf_file file) ps
      → All EndsInside ps
      → All (HasBytes (d.elf_file file)) ps
      → Spans low high ps
      → high - low ≡ rounds * 4
      → rounds ≤ laws.depth scope
      → rounds < 2 ^ 31
      → j < rounds
      → k < 4
      → (memory : M) × (main d top vm_trace clk rst (unknown_option ∷ []) (raminit file ∷ []) fuel w
          ≡ simulated d top fuel (record (prepared d top vm_trace clk rst (raminit file ∷ []) w) {
            state = record (top.command_args w) { memory = memory };
          }))
        × (get_elem? (laws.read scope j memory) k
            ≡ image_byte (d.elf_file file) ps (low + (j * 4 + k)) (some none))
  unfolding find_area same_text
  main-raminit vm_trace clk rst fuel file scope ps low high rounds j k w type there found is inside
        bytes s size_eq room fits jr ks =
      let given = top.command_args w in
      let written =
        mem_write-image d laws (ram_area ∷ []) (codes "ram") file ram_area scope ps low high rounds
          j k given (refl, there, found, inl refl) is inside bytes s size_eq room fits jr ks in
      let loaded : World M = record given { memory = written.0 } in
      (
        written.0,
        main-simulated d top vm_trace clk rst 1 (raminit file ∷ []) fuel w
            (record { world = loaded; exit_app = false; success = true })
            (raminit_lem file given loaded type written.1) refl refl,
        written.2,
      )
