-- ===== src/CsRegisters/Report/Messages.antt =====
-- The printing of dv/cs_registers: `Print` and `RegOpString` of reg_driver/register_transaction.cc, the
-- messages of `ProcessTransaction` (model/base_register.cc) and `NewTransaction`
-- (model/register_model.cc), and the `OnFinal` of env/simctrl.cc and reg_driver/register_driver.cc.
use coco_ibex.Common.{
  ℕ, zero, suc, ◌+◌, ◌-◌, ◌/◌, ◌%◌, ◌++◌, Bool, true, false, not, ◌||◌, List, [], ◌∷◌, ◌==◌, ltb,
  if◌then◌else◌, codes,
}
use coco_ibex.CsRegisters.Register.{
  Access, csr_read, csr_write, csr_set, csr_clear, Register, RegisterMap, match_addr, register_read,
}
use coco_ibex.CsRegisters.Model.{Transaction, SimCtrl, process_loop}
use coco_ibex.CsRegisters.Driver.{Driver}
use coco_ibex.CsRegisters.Report.Names.{reg_addr_string}
use coco_ibex.Verilator.Pcount.{decimal}

-- `RegOpString` of the four operations.
unfoldable pub reg_op_string : Access → List ℕ
reg_op_string csr_read = codes "CSR Read"
reg_op_string csr_write = codes "CSR Write"
reg_op_string csr_set = codes "CSR Set"
reg_op_string csr_clear = codes "CSR Clear"

abbrev hex_digit : ℕ → ℕ
hex_digit d = if ltb d 10 then b'0' + d else b'a' - 10 + d

-- `<<` of a `uint32_t` under `std::hex`, on fuel for its digits, of which there are at most eight.
unfoldable pub hex_digits : ℕ → ℕ → List ℕ
hex_digits zero n = []
hex_digits (suc fuel) n =
    let upper = hex_digits fuel (n / 16) in
    if ltb n 16 then hex_digit n ∷ [] else upper ++ hex_digit (n % 16) ∷ []

abbrev hex : ℕ → List ℕ
hex n = hex_digits 8 n

abbrev endl : List ℕ
endl = b'\n' ∷ []

-- `csr_op != kCSRRead`.
unfoldable pub has_wdata : Access → Bool
has_wdata csr_read = false
has_wdata _ = true

-- `RegisterTransaction::Print`.
unfoldable pub print_transaction : Transaction → List ℕ
print_transaction trans =
    codes "Register transaction:\nOperation:  "
    ++ (reg_op_string trans.csr_op
        ++ (codes "\nAddress:    "
            ++ (reg_addr_string trans.csr_addr
                ++ (endl
                    ++ ((if has_wdata trans.csr_op
                          then codes "Write data: " ++ (hex trans.csr_wdata ++ endl)
                          else [])
                        ++ (codes "Read data:  " ++ (hex trans.csr_rdata ++ endl)))))))

-- The message on the value that the core read, where the register holds another one.
unfoldable pub mismatch_text : Transaction → ℕ → List ℕ
mismatch_text trans read_val =
    if trans.csr_addr == 0xB00 || trans.csr_addr == 0xB80
    then (if ltb trans.csr_rdata read_val then codes "MCycle(H) overflow detected\n" else [])
    else if not (read_val == trans.csr_rdata)
    then codes "Error, transaction:\n"
      ++ (print_transaction trans ++ (codes "Expected rdata: " ++ (hex read_val ++ endl)))
    else []

-- `ProcessTransaction` of one register.
unfoldable pub process_text : Register → Transaction → List ℕ
process_text r trans =
    if not (match_addr r trans.csr_addr) then [] else mismatch_text trans (register_read r)

-- The loop of `NewTransaction`, in step with `process_loop`.
unfoldable pub loop_text : RegisterMap → Transaction → List ℕ
loop_text [] trans = []
loop_text (r ∷ rest) trans = process_text r trans ++ loop_text rest trans

-- The message on an address that no register has.
unfoldable pub unmatched_text : Bool → Transaction → List ℕ
unmatched_text matched trans =
    if matched
    then []
    else if trans.illegal_csr
    then []
    else codes "Non-existant register:\n"
      ++ (print_transaction trans ++ codes "Should have signalled an error.\n")

unfoldable pub new_transaction_text : RegisterMap → Transaction → SimCtrl → List ℕ
new_transaction_text map trans sc =
    loop_text map trans ++ unmatched_text (process_loop [] map trans false sc).matched trans

-- `SimCtrl::OnFinal`.
unfoldable pub simctrl_on_final : SimCtrl → List ℕ
simctrl_on_final sc =
    codes "\n//-------------//\n"
    ++ ((if sc.success then codes "// TEST PASSED //" else codes "// TEST FAILED //")
        ++ codes "\n//-------------//\n")

-- `RegisterDriver::OnFinal`, where `_ << transactions_driven_` is decimal.
unfoldable driver_on_final : {Engine : Type 0} → Driver Engine → List ℕ
driver_on_final d =
    codes "[Reg driver] drove: "
    ++ (decimal d.transactions_driven ++ codes " register transactions\n")
