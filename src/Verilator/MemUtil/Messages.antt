-- ===== src/Verilator/MemUtil/Messages.antt =====
-- What memutil/cpp/verilator_memutil.cc prints on standard output: the help and the list of memories.
mod Examples
use coco_ibex.Common.{ℕ, Bool, true, false, ◌==◌, ltb, List, [], ◌∷◌, ◌++◌, if◌then◌else◌, codes}
use coco_ibex.Verilator.MemUtil.Areas.{MemArea}
use coco_ibex.Verilator.Pcount.{decimal}

-- `operator<` of `std::string`, the order of the keys of `mem_register_`.
unfoldable pub is_before : List ℕ → List ℕ → Bool
is_before [] [] = false
is_before [] (d ∷ t) = true
is_before (c ∷ s) [] = false
is_before (c ∷ s) (d ∷ t) = if c == d then is_before s t else ltb c d

unfoldable pub insert_area : MemArea → List MemArea → List MemArea
insert_area m [] = m ∷ []
insert_area m (n ∷ rest) = if is_before m.name n.name then m ∷ n ∷ rest else n ∷ insert_area m rest

-- The order in which the map is iterated over.
unfoldable pub in_key_order : List MemArea → List MemArea
in_key_order [] = []
in_key_order (m ∷ rest) = insert_area m (in_key_order rest)

unfoldable pub region_text : MemArea → List ℕ
region_text m =
    codes "\t'"
    ++ (m.name
        ++ (codes "' ("
            ++ (decimal m.width_bit
                ++ (codes "bits) at location: '" ++ (m.location ++ codes "'\n")))))

unfoldable pub region_lines : List MemArea → List ℕ
region_lines [] = []
region_lines (m ∷ rest) = region_text m ++ region_lines rest

unfoldable pub print_mem_regions : List MemArea → List ℕ
print_mem_regions mem_register =
    codes "Registered memory regions:\n" ++ region_lines (in_key_order mem_register)

unfoldable memutil_help : List ℕ
memutil_help =
    codes
      "Simulation memory utilities:\n\n-r|--rominit=FILE\n  Initialize the ROM with FILE (elf/vmem)\n\n-m|--raminit=FILE\n  Initialize the RAM with FILE (elf/vmem)\n\n-f|--flashinit=FILE\n  Initialize the FLASH with FILE (elf/vmem)\n\n-l|--meminit=NAME,FILE[,TYPE]\n  Initialize memory region NAME with FILE [of TYPE]\n  TYPE is either 'elf' or 'vmem'\n\n-l list|--meminit=list\n  Print registered memory regions\n\n-h|--help\n  Show help\n\n"
