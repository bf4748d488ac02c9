-- ===== src/CsRegisters/Report/Names.antt =====
-- The names of the registers in dv/cs_registers/reg_driver/csr_listing.def, as
-- dv/cs_registers/reg_driver/register_transaction.cc prints them.
use Prim.Native.String.{String}
use coco_ibex.Common.{ℕ, ◌++◌, List, [], ◌∷◌, Option, none, some, ◌==◌, if◌then◌else◌, codes}
use coco_ibex.Verilator.Pcount.{decimal}

-- `CSR(reg, addr)`.
pub record Csr : Type 0 where
  pub reg : List ℕ
  pub address : ℕ

abbrev csr : String → ℕ → Csr
csr reg address = record { reg = codes reg; address = address }

unfoldable pub csr_listing : List Csr
csr_listing =
    csr "PMPCfg0" 0x3A0
    ∷ csr "PMPCfg1" 0x3A1
    ∷ csr "PMPCfg2" 0x3A2
    ∷ csr "PMPCfg3" 0x3A3
    ∷ csr "PMPAddr0" 0x3B0
    ∷ csr "PMPAddr1" 0x3B1
    ∷ csr "PMPAddr2" 0x3B2
    ∷ csr "PMPAddr3" 0x3B3
    ∷ csr "PMPAddr4" 0x3B4
    ∷ csr "PMPAddr5" 0x3B5
    ∷ csr "PMPAddr6" 0x3B6
    ∷ csr "PMPAddr7" 0x3B7
    ∷ csr "PMPAddr8" 0x3B8
    ∷ csr "PMPAddr9" 0x3B9
    ∷ csr "PMPAddr10" 0x3BA
    ∷ csr "PMPAddr11" 0x3BB
    ∷ csr "PMPAddr12" 0x3BC
    ∷ csr "PMPAddr13" 0x3BD
    ∷ csr "PMPAddr14" 0x3BE
    ∷ csr "PMPAddr15" 0x3BF
    ∷ csr "MCountInhibit" 0x320
    ∷ csr "MHPMEvent3" 0x323
    ∷ csr "MHPMEvent4" 0x324
    ∷ csr "MHPMEvent5" 0x325
    ∷ csr "MHPMEvent6" 0x326
    ∷ csr "MHPMEvent7" 0x327
    ∷ csr "MHPMEvent8" 0x328
    ∷ csr "MHPMEvent9" 0x329
    ∷ csr "MHPMEvent10" 0x32A
    ∷ csr "MHPMEvent11" 0x32B
    ∷ csr "MHPMEvent12" 0x32C
    ∷ csr "MHPMEvent13" 0x32D
    ∷ csr "MHPMEvent14" 0x32E
    ∷ csr "MHPMEvent15" 0x32F
    ∷ csr "MHPMEvent16" 0x330
    ∷ csr "MHPMEvent17" 0x331
    ∷ csr "MHPMEvent18" 0x332
    ∷ csr "MHPMEvent19" 0x333
    ∷ csr "MHPMEvent20" 0x334
    ∷ csr "MHPMEvent21" 0x335
    ∷ csr "MHPMEvent22" 0x336
    ∷ csr "MHPMEvent23" 0x337
    ∷ csr "MHPMEvent24" 0x338
    ∷ csr "MHPMEvent25" 0x339
    ∷ csr "MHPMEvent26" 0x33A
    ∷ csr "MHPMEvent27" 0x33B
    ∷ csr "MHPMEvent28" 0x33C
    ∷ csr "MHPMEvent29" 0x33D
    ∷ csr "MHPMEvent30" 0x33E
    ∷ csr "MHPMEvent31" 0x33F
    ∷ csr "MCycle" 0xB00
    ∷ csr "MInstret" 0xB02
    ∷ csr "MHPMCounter3" 0xB03
    ∷ csr "MHPMCounter4" 0xB04
    ∷ csr "MHPMCounter5" 0xB05
    ∷ csr "MHPMCounter6" 0xB06
    ∷ csr "MHPMCounter7" 0xB07
    ∷ csr "MHPMCounter8" 0xB08
    ∷ csr "MHPMCounter9" 0xB09
    ∷ csr "MHPMCounter10" 0xB0A
    ∷ csr "MHPMCounter11" 0xB0B
    ∷ csr "MHPMCounter12" 0xB0C
    ∷ csr "MHPMCounter13" 0xB0D
    ∷ csr "MHPMCounter14" 0xB0E
    ∷ csr "MHPMCounter15" 0xB0F
    ∷ csr "MHPMCounter16" 0xB10
    ∷ csr "MHPMCounter17" 0xB11
    ∷ csr "MHPMCounter18" 0xB12
    ∷ csr "MHPMCounter19" 0xB13
    ∷ csr "MHPMCounter20" 0xB14
    ∷ csr "MHPMCounter21" 0xB15
    ∷ csr "MHPMCounter22" 0xB16
    ∷ csr "MHPMCounter23" 0xB17
    ∷ csr "MHPMCounter24" 0xB18
    ∷ csr "MHPMCounter25" 0xB19
    ∷ csr "MHPMCounter26" 0xB1A
    ∷ csr "MHPMCounter27" 0xB1B
    ∷ csr "MHPMCounter28" 0xB1C
    ∷ csr "MHPMCounter29" 0xB1D
    ∷ csr "MHPMCounter30" 0xB1E
    ∷ csr "MHPMCounter31" 0xB1F
    ∷ csr "MCycleH" 0xB80
    ∷ csr "MInstretH" 0xB82
    ∷ csr "MHPMCounter3H" 0xB83
    ∷ csr "MHPMCounter4H" 0xB84
    ∷ csr "MHPMCounter5H" 0xB85
    ∷ csr "MHPMCounter6H" 0xB86
    ∷ csr "MHPMCounter7H" 0xB87
    ∷ csr "MHPMCounter8H" 0xB88
    ∷ csr "MHPMCounter9H" 0xB89
    ∷ csr "MHPMCounter10H" 0xB8A
    ∷ csr "MHPMCounter11H" 0xB8B
    ∷ csr "MHPMCounter12H" 0xB8C
    ∷ csr "MHPMCounter13H" 0xB8D
    ∷ csr "MHPMCounter14H" 0xB8E
    ∷ csr "MHPMCounter15H" 0xB8F
    ∷ csr "MHPMCounter16H" 0xB90
    ∷ csr "MHPMCounter17H" 0xB91
    ∷ csr "MHPMCounter18H" 0xB92
    ∷ csr "MHPMCounter19H" 0xB93
    ∷ csr "MHPMCounter20H" 0xB94
    ∷ csr "MHPMCounter21H" 0xB95
    ∷ csr "MHPMCounter22H" 0xB96
    ∷ csr "MHPMCounter23H" 0xB97
    ∷ csr "MHPMCounter24H" 0xB98
    ∷ csr "MHPMCounter25H" 0xB99
    ∷ csr "MHPMCounter26H" 0xB9A
    ∷ csr "MHPMCounter27H" 0xB9B
    ∷ csr "MHPMCounter28H" 0xB9C
    ∷ csr "MHPMCounter29H" 0xB9D
    ∷ csr "MHPMCounter30H" 0xB9E
    ∷ csr "MHPMCounter31H" 0xB9F
    ∷ []

-- The `case` of an address.
unfoldable pub csr_name : ℕ → List Csr → Option (List ℕ)
csr_name addr [] = none
csr_name addr (c ∷ rest) = if addr == c.address then some c.reg else csr_name addr rest

abbrev pub undef_reg : List ℕ
undef_reg = codes "Undef reg: "

-- The string that is returned: the name, or the `default`.
unfoldable pub name_or_default : ℕ → Option (List ℕ) → List ℕ
name_or_default csr_addr (some reg) = reg
name_or_default csr_addr none = undef_reg ++ decimal csr_addr

unfoldable pub reg_addr_string : ℕ → List ℕ
reg_addr_string csr_addr = name_or_default csr_addr (csr_name csr_addr csr_listing)
