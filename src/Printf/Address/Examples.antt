-- ===== src/Printf/Address/Examples.antt =====
-- Tests of the address conversions and their theorems at concrete addresses.
use coco_ibex.Common.{ℕ, ◌≡◌, refl, List, [], ◌∷◌, done, fault, codes}
use coco_ibex.Common.Int.{pos, negsuc}
use coco_ibex.Printf.Pad.{no_flags, fill_loop}
use coco_ibex.Printf.Address.{eaddr, eaddr_loop, iaddr, iaddr_loop, load, justify, octet}

abbrev localhost : List ℕ
localhost = 127 ∷ 0 ∷ 10 ∷ 1 ∷ []

iaddr_runs : iaddr [] localhost (pos 12) no_flags ≡ done (codes "  127.0.10.1")
unfolding iaddr iaddr_loop load justify octet fill_loop
iaddr_runs = refl

-- Three bytes are no address: the loop reads behind their end.
iaddr_short : iaddr [] (1 ∷ 2 ∷ 3 ∷ []) (pos 12) no_flags ≡ fault
unfolding iaddr iaddr_loop load octet
iaddr_short = refl

eaddr_runs :
    eaddr [] (0 ∷ 0x1b ∷ 0x44 ∷ 0x11 ∷ 0x3a ∷ 0xb7 ∷ []) (negsuc 0) no_flags
    ≡ done (codes "00:1b:44:11:3a:b7")
unfolding eaddr eaddr_loop load justify fill_loop
eaddr_runs = refl
