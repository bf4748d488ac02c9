-- ===== src/CsRegisters/Report/RoundTrip.antt =====
-- The printed address names one register.
use coco_ibex.Common.{
  ℕ, ◌<◌, ◌^◌, ◌≡◌, refl, ◌∙◌, ap, Bool, true, false, ◌&&◌, not, List, [], ◌∷◌, ◌++◌, Option, none,
  some, ◌==◌, if◌then◌else◌, arith, codes, drop,
}
use coco_ibex.Text.{same_text}
use coco_ibex.CsRegisters.Report.Names.{
  Csr, csr_listing, csr_name, undef_reg, name_or_default, reg_addr_string,
}
use coco_ibex.Verilator.Pcount.{decimal}
use coco_ibex.Verilator.Pcount.Decimal.{value_from, decimal-value}

-- The address of a name in a listing.
csr_address : List ℕ → List Csr → Option ℕ
csr_address text [] = none
csr_address text (c ∷ rest) = if same_text text c.reg then some c.address else csr_address text rest

number_of : List ℕ → Option ℕ → ℕ
number_of text (some address) = address
number_of text none = value_from 0 (drop 11 text)

-- An address read back from its text: that of the name, or else the number behind `Undef reg: `.
pub address_of_text : List ℕ → ℕ
address_of_text text = number_of text (csr_address text csr_listing)

-- Every name of the part of a listing is found in the whole at the address beside it.
abbrev found_at : Option ℕ → ℕ → Bool
found_at none address = false
found_at (some a) address = a == address

found_in : List Csr → List Csr → Bool
found_in listing [] = true
found_in listing (c ∷ rest) =
    found_at (csr_address c.reg listing) c.address && found_in listing rest

listing_found : found_in csr_listing csr_listing ≡ true
unfolding found_in csr_address csr_listing same_text
listing_found = refl

csr_address-found :
    (listing part : List Csr) (addr : ℕ) (reg : List ℕ)
    → found_in listing part ≡ true
    → csr_name addr part ≡ some reg
    → csr_address reg listing ≡ some addr
unfolding found_in csr_name
csr_address-found listing [] addr reg h e = ground arith
csr_address-found listing (c ∷ part) addr reg h e =
    ground (arith, csr_address-found listing part addr reg)

-- No name starts as the text of an address without one.
abbrev starts_u : List ℕ → Bool
starts_u [] = false
starts_u (c ∷ s) = c == b'U'

none_starts_u : List Csr → Bool
none_starts_u [] = true
none_starts_u (c ∷ rest) = not (starts_u c.reg) && none_starts_u rest

listing_starts : none_starts_u csr_listing ≡ true
unfolding none_starts_u csr_listing
listing_starts = refl

same_text-starts : (s reg : List ℕ) → starts_u reg ≡ false → same_text (b'U' ∷ s) reg ≡ false
unfolding same_text
same_text-starts s [] h = refl
same_text-starts s (c ∷ reg) h = ground arith

csr_address-undef :
    (s : List ℕ) (listing : List Csr)
    → none_starts_u listing ≡ true
    → csr_address (b'U' ∷ s) listing ≡ none
unfolding none_starts_u csr_address
csr_address-undef s [] h = refl
csr_address-undef s (c ∷ rest) h =
    ground (arith, same_text-starts s c.reg, csr_address-undef s rest)

read_name :
    (csr_addr : ℕ) (found : Option (List ℕ))
    → csr_addr < 2 ^ 32
    → csr_name csr_addr csr_listing ≡ found
    → address_of_text (name_or_default csr_addr found) ≡ csr_addr
unfolding address_of_text name_or_default number_of
read_name csr_addr (some reg) lt e =
    ap (number_of reg) (csr_address-found csr_listing csr_listing csr_addr reg listing_found e)
read_name csr_addr none lt e =
    let text = undef_reg ++ decimal csr_addr in
    ap (number_of text)
      (csr_address-undef (codes "ndef reg: " ++ decimal csr_addr) csr_listing listing_starts)
    ∙ decimal-value csr_addr (omega (arith, lt))

-- The text that is printed for a 32-bit address gives the address back, with a name or without one: no
-- two addresses are printed alike.
pub address_of_text-reg_addr_string :
    (csr_addr : ℕ) → csr_addr < 2 ^ 32 → address_of_text (reg_addr_string csr_addr) ≡ csr_addr
address_of_text-reg_addr_string csr_addr lt =
    unfold reg_addr_string in read_name csr_addr (csr_name csr_addr csr_listing) lt refl
