-- ===== src/Lib.antt =====
-- Verification of the C and C++ code of the Ibex repository: the formatted output and the console of the
-- programs that run on the simple system, the programs themselves, the model that the register testbench
-- checks the core against, and the loader and the controller of the Verilator simulations.
--
-- Parts and files
--   Printf: examples/sw/benchmarks/coremark/ibex/ee_printf.c. `Printf/Pad` has the flags and the padding
--   loops, `Printf/Number` `number`, `Printf/Address` `eaddr` and `iaddr`, `Printf/Directive` the head
--   of a directive (flags, width, precision, qualifier), `Printf/Convert` the arms of the `switch` of
--   `ee_vsprintf`, `Printf/Format` its loop and `ee_printf`,
--   with `Format/Arms` and `Format/Typed` the formats whose arguments fit, and `Printf/Float` `flt` with what it
--   calls. The output buffer is the list of bytes written so far, a format the list of its bytes before
--   the terminator, the variable arguments a list of words, texts, addresses and doubles. Reading an
--   argument of another kind than the directive wants, and leaving the bounds of an array or of `int`,
--   is a fault.
--   SimpleSystem/Console: `putchar`, `puts`, `puthex` and `sim_halt` of
--   examples/sw/simple_system/common/simple_system_common.c. A volatile store is an entry of a trace.
--   `ee_printf` prints through `putchar`.
--   SimpleSystem/Timer: the timer functions of the same file. The time is a function of the number of loads
--   made, the stores go to the trace, and `Timer/Compare` reads them as shared/rtl/timer.sv does.
--   SimpleSystem/Exception: its exception handler. SimpleSystem/Hello:
--   examples/sw/simple_system/hello_test/hello_test.c, with `Hello/Run` the whole of `main`, and `Hello/Shown`
--   and `Hello/Output` its proofs. SimpleSystem/Coremark: the timing functions of
--   examples/sw/benchmarks/coremark/ibex/core_portme.c, with `Coremark/Report` the counter dump,
--   `portable_init` and `portable_fini`, which print through `ee_printf`; `Line`, `Dump` and `Finish` have
--   the proofs. Led: the delay loop and the rounds of `main` of examples/sw/led/led.c, with the cycles of its waits by
--   doc/pipeline_details.rst.
--   CsRegisters: dv/cs_registers. `CsRegisters/Register` has the register classes of
--   model/base_register.cc with their lock masks and operations, `CsRegisters/Model` the list of registers
--   of model/register_model.cc, its constructor, reset and transactions, with the stop request of
--   env/simctrl.cc. The classes' virtual functions are functions by clauses on the class. A register's
--   pointer to the list is the list itself as an argument, since a PMP address register reads the PMP
--   configurations in it. `CsRegisters/Masked`, `LockMask`, `PmpCfg`, `Update` and `Locked` have
--   the proofs on one register, `CsRegisters/Model/Match`, `Listing`, `Run` and `Invariant` those on the
--   list.
--   `CsRegisters/Driver` has reg_driver/register_driver.cc and register_transaction.cc, which draw the
--   transactions and hand those that the core made to the model; the random engine and its distributions
--   are parameters, with the bounds that a distribution keeps as a hypothesis.
--   `CsRegisters/Report` has what this testbench prints: the names of the registers of
--   reg_driver/csr_listing.def, the print of a transaction, and the messages of the model.
--   Verilator: dv/verilator. `Verilator/MemUtil` is the memory loader, memutil/cpp/verilator_memutil.cc:
--   `Areas` the registered memories, `Argument` the argument of `--meminit` and the type of an image, `Elf`
--   `ElfFileToBinary`, `Write` the three functions `MemWrite` with `WriteElfToMem` and `WriteVmemToMem`, and
--   `Options` `ParseCLIArguments` over what `getopt_long` returns. The DPI scope and the descriptors and
--   buffers in use are state, and a byte of a buffer that was not written is `none`.
--   `Verilator/Simulation` is the controller, simutil_verilator/cpp/verilator_sim_ctrl.cc: its state and
--   setters, `Simulation/Loop` `Run`, `Simulation/Exec` the arguments and `Exec`. An extension answers each
--   call with its new state and the stop requests that it made. The signals that arrive are delivered
--   before each round. `Core` is the part of the state that neither the design nor an extension reaches,
--   `Rounds`, `Reset`, `Trace`, `Verdict` and `Result` have the proofs. `Log` has what the controller prints
--   on standard output, each text in step with the function that prints it, and `Stop` its proofs;
--   `MemUtil/Messages` has the loader's help and list of memories, in the order of the map's keys.
--   `Verilator/Main` is examples/simple_system/ibex_simple_system.cc, in which the loader is an extension of
--   the controller; `Main/Report` has the counters that it prints and writes. `CsRegisters/ResetDriver` is dv/cs_registers/rst_driver/reset_driver.cc, and
--   `CsRegisters/Bench` the environment around the model and the two drivers, dv/cs_registers/env, with the
--   DPI functions of reg_driver/reg_dpi.cc and rst_driver/rst_dpi.cc as the calls that the simulator makes.
--   `Bench/Answer` says what a correct core answers, and `Bench/Verdict` compares. `CsRegisters/Testbench` has
--   the design's signals that these functions write; its evaluations are sequences of calls in any order, as
--   the `always_ff` blocks of tb/tb_cs_registers.sv make them. `Verilator/Main/Benches` has the mains of
--   dv/cs_registers/tb and dv/riscv_compliance, `Main/TestPassed` and `Main/Design` a simulation without
--   extensions, and `Testbench/Judged` and `Testbench/Returned` the exit code of the register testbench.
--   `Verilator/Pcount` is dv/verilator/pcount/cpp/ibex_pcounts.cc, the text of the performance counters.
--   Common: Boolean tests, lists, signed integers, outcomes and bit laws on the native numbers. Text:
--   comparing and cutting texts as std::string does.
--
-- Numbers, bounds and fuel
--   `long`, `int` and `uint32_t` have 32 bits, as on RV32; wrap-around is written out. The widths and
--   precisions of a directive are unbounded signed integers: those that the code reads are bounded by
--   `int`, and what it adds to them is small. `number` recurs on 66 units of fuel, the size of `tmp`, of
--   which a 32-bit number uses at most 32; `ee_vsprintf` recurs on the length of the format; `timer_read`
--   needs two rounds. Addresses of ELF files and the simulation time have 64 bits, and the extents of a
--   file wrap around as the code's do; the index of the words written is an `int`. The loop of `Run` takes
--   a number of rounds as fuel: with a timeout of N cycles 2 * N are enough, and without one it may run for
--   ever. The loop of hello_test has one unit for each call of `get_elapsed_time`. The delay loop of led.c has
--   2 ^ 32 units, after which its counter is back at its start; the loop of its `main` has no end, and the
--   model takes a number of its rounds.
--
-- Parameters
--   The type `double`, with its tests and the conversions `ecvtbuf` and `fcvtbuf`, is a parameter of the
--   model of `flt`; `flt` is one of that of `ee_vsprintf`, which holds for any. The time at each load, the
--   values of the exception registers, and the number of timer interrupts before each call of
--   `get_elapsed_time` are parameters of what reads them: an interrupt stores to the timer only, so where
--   it comes between two calls shows on neither. `float` with its operations is a parameter, and so are
--   the cycles between the calls of the timing functions. What libelf, `open` and `stat` answer for a
--   file, the DPI functions and the memory of the design behind them, with the laws of a memory, and the
--   verilated design with Verilator's own functions are parameters too, and so are the clock, the process
--   and the file sizes of the host and the `double` of the printed statistics.
--
-- Not modelled
--   Hardware description, vendored code, scripts and assembly. Messages on standard error, the message of
--   `ElfFileToBinary` on a skipped program header, the registration of signal handlers and interface names,
--   and the getters that only return a field.
mod Common
mod Text
pub mod CsRegisters
pub mod SimpleSystem
pub mod Led
pub mod Printf
pub mod Verilator
