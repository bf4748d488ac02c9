-- ===== src/Verilator/MemUtil/Messages/Examples.antt =====
-- The list of a ROM and a RAM.
use coco_ibex.Common.{◌≡◌, refl, [], ◌∷◌, codes}
use coco_ibex.Verilator.MemUtil.Areas.{MemArea}
use coco_ibex.Verilator.MemUtil.Messages.{
  is_before, insert_area, in_key_order, region_text, region_lines, print_mem_regions,
}
use coco_ibex.Verilator.Pcount.{decimal_digits}

abbrev rom : MemArea
rom = record { name = codes "rom"; location = codes "TOP.u_rom"; width_bit = 32 }

abbrev ram : MemArea
ram = record { name = codes "ram"; location = codes "TOP.u_ram"; width_bit = 64 }

both_printed :
    print_mem_regions (rom ∷ ram ∷ [])
    ≡ codes
        "Registered memory regions:\n\t'ram' (64bits) at location: 'TOP.u_ram'\n\t'rom' (32bits) at location: 'TOP.u_rom'\n"
unfolding print_mem_regions region_lines region_text in_key_order insert_area is_before
    decimal_digits
both_printed = refl
