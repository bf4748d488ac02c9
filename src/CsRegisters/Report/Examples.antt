-- ===== src/CsRegisters/Report/Examples.antt =====
-- The messages at concrete transactions.
use coco_ibex.Common.{◌≡◌, refl, arith, true, false, codes}
use coco_ibex.CsRegisters.Register.{csr_set}
use coco_ibex.CsRegisters.Model.{Params, Transaction, SimCtrl, new_transaction, register_model}
use coco_ibex.CsRegisters.Report.Names.{csr_listing, csr_name, name_or_default, reg_addr_string}
use coco_ibex.CsRegisters.Report.Messages.{
  reg_op_string, hex_digits, has_wdata, print_transaction, new_transaction_text, simctrl_on_final,
}
use coco_ibex.CsRegisters.Report.RoundTrip.{address_of_text, address_of_text-reg_addr_string}
use coco_ibex.CsRegisters.Report.Failures.{Reports, new_transaction-Reports}
use coco_ibex.Verilator.Pcount.{decimal_digits}

address_of_text-reg_addr_string_example : address_of_text (reg_addr_string 0x3B5) ≡ 0x3B5
address_of_text-reg_addr_string_example = address_of_text-reg_addr_string 0x3B5 (omega arith)

abbrev set_unknown : Transaction
set_unknown = record {
  csr_op = csr_set;
  illegal_csr = false;
  csr_addr = 0x7C0;
  csr_rdata = 0;
  csr_wdata = 0xBEEF;
}

unknown_printed :
    print_transaction set_unknown
    ≡ codes
        "Register transaction:\nOperation:  CSR Set\nAddress:    Undef reg: 1984\nWrite data: beef\nRead data:  0\n"
unfolding print_transaction reg_op_string reg_addr_string name_or_default csr_name csr_listing
    hex_digits has_wdata decimal_digits
unknown_printed = refl

known_printed : reg_addr_string 0xB9F ≡ codes "MHPMCounter31H"
unfolding reg_addr_string name_or_default csr_name csr_listing
known_printed = refl

abbrev quiet : SimCtrl
quiet = record { stop_requested = false; success = true }

passed :
    simctrl_on_final quiet ≡ codes "\n//-------------//\n// TEST PASSED //\n//-------------//\n"
unfolding simctrl_on_final
passed = refl

abbrev no_pmp : Params
no_pmp = record {
  pmp_enable = false;
  pmp_granularity = 0;
  pmp_num_regions = 4;
  mhpm_counter_num = 0;
  mhpm_counter_width = 40;
}

new_transaction-Reports_example :
    Reports quiet
      (new_transaction (register_model no_pmp) set_unknown quiet).simctrl
      (new_transaction_text (register_model no_pmp) set_unknown quiet)
new_transaction-Reports_example =
    new_transaction-Reports (register_model no_pmp) set_unknown quiet (omega arith)
