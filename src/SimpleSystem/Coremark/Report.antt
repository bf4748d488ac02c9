-- ===== src/SimpleSystem/Coremark/Report.antt =====
-- What the port of CoreMark prints of the performance counters, and the functions around a run, in
-- examples/sw/benchmarks/coremark/ibex/core_portme.c.
use coco_ibex.Common.{
  ℕ, zero, suc, ◌+◌, ◌%◌, ◌^◌, List, [], ◌∷◌, some, Outcome, done, fault, ◌>>=◌, get_or, codes,
}
use coco_ibex.Printf.Directive.{Arg, word, text, double}
use coco_ibex.Printf.Convert.{FloatWriter}
use coco_ibex.Printf.Format.{ee_printf}
use coco_ibex.SimpleSystem.Console.{Trace}
use coco_ibex.SimpleSystem.Coremark.{Counters, Timing, get_time}

-- `PCOUNT_READ` of `mhpmcounter` number `n`, whose first one has number 3: the low word, and zero for a
-- counter that the core does not have.
unfoldable pub read_mhpmcounter : Counters → ℕ → ℕ
read_mhpmcounter c n = get_or c.mhpmcounters n 0 % 2 ^ 32

-- The loop of reads from `mhpmcounter` number `n` on.
unfoldable pub read_mhpmcounters : Counters → ℕ → ℕ → List ℕ
read_mhpmcounters c n zero = []
read_mhpmcounters c n (suc left) = read_mhpmcounter c n ∷ read_mhpmcounters c (n + 1) left

-- `minstret`, then `mhpmcounter3` to `mhpmcounter12`.
unfoldable pub pcount_read : Counters → List ℕ
pcount_read c = c.minstret % 2 ^ 32 ∷ read_mhpmcounters c 0 10

unfoldable pub pcount_names : List (List ℕ)
pcount_names =
    codes "Instructions Retired"
    ∷ codes "LSU Busy"
    ∷ codes "IFetch wait"
    ∷ codes "Loads"
    ∷ codes "Stores"
    ∷ codes "Jumps"
    ∷ codes "Branches"
    ∷ codes "Taken Branches"
    ∷ codes "Compressed Instructions"
    ∷ codes "Multiply Wait"
    ∷ codes "Divide Wait"
    ∷ []

abbrev pub heading : List ℕ
heading = codes "Performance Counters\n--------------------\n"

abbrev pub line_format : List ℕ
line_format = codes "%s: %u\n"

abbrev pub init_text : List ℕ
init_text = codes "Ibex coremark platform init...\n"

-- What `portable_init` and `portable_fini` print and leave in `portable_id`.
pub record Ported : Type 0 where
  pub trace : Trace
  pub portable_id : ℕ

-- The type `float`, with its conversions from an integer and to `double`.
pub record Singles (Single Double : Type 0) : Type 0 where
  pub of_integer : ℕ → Single
  pub multiply : Single → Single → Single
  pub divide : Single → Single → Single
  pub to_double : Single → Double

-- `(1000000.0f * (float)ITERATIONS) / elapsed`, as an argument of `ee_printf`.
unfoldable pub coremark_mhz : {Single Double : Type 0} → Singles Single Double → ℕ → ℕ → Double
coremark_mhz f iterations elapsed = f.to_double (
    f.divide (f.multiply (f.of_integer 1_000_000) (f.of_integer iterations)) (f.of_integer elapsed))

module _ {Double : Type 0} (flt : FloatWriter Double) where
  -- A call of `ee_printf` whose result is not used.
  abbrev pub print : List ℕ → List (Arg Double) → Trace → Outcome Trace
  print fmt args t = do p ← ee_printf flt fmt args t; done p.trace

  -- The loop over the names, in step with the counters; a counter that is not there is a fault.
  unfoldable pub dump_loop : List (List ℕ) → List ℕ → Trace → Outcome Trace
  dump_loop [] pcounts t = done t
  dump_loop (name ∷ names) [] t = fault
  dump_loop (name ∷ names) (value ∷ pcounts) t = do
    t' ← print line_format (text (some name) ∷ word value ∷ []) t
    dump_loop names pcounts t'

  unfoldable pub dump_pcounts : Counters → Trace → Outcome Trace
  dump_pcounts c t = do
    let pcounts = pcount_read c
    t1 ← print heading [] t
    t2 ← dump_loop pcount_names pcounts t1
    print (codes "\n") [] t2

  -- The sizes that `portable_init` tests are those of RV32. It leaves `portable_id` at 1.
  unfoldable pub portable_init : Trace → Outcome Ported
  portable_init t = do t' ← print init_text [] t; done (record { trace = t'; portable_id = 1 })

  -- `portable_fini`, for a number of `ITERATIONS`.
  unfoldable pub portable_fini :
      {Single : Type 0} → Singles Single Double → ℕ → Timing → Trace → Outcome Ported
  portable_fini f iterations m t = do
    t1 ← dump_pcounts m.counters t
    let elapsed = get_time m
    let x = coremark_mhz f iterations elapsed
    t2 ← print (codes "Coremark / MHz: %f\n") (double x ∷ []) t1
    done (record { trace = t2; portable_id = 0 })
