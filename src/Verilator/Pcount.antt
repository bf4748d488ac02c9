-- ===== src/Verilator/Pcount.antt =====
-- The performance counters of a simulation as a text: dv/verilator/pcount/cpp/ibex_pcounts.cc.
pub mod Decimal
pub mod ReadBack
mod Examples
use coco_ibex.Common.{
  ℕ, zero, suc, ◌+◌, ◌-◌, ◌/◌, ◌%◌, max, Bool, true, false, ltb, List, [], ◌∷◌, ◌++◌, Outcome, done,
  fault, ◌>>=◌, if◌then◌else◌, length, replicate, codes,
}

unfoldable pub ibex_counter_names : List (List ℕ)
ibex_counter_names =
    codes "Cycles"
    ∷ codes "NONE"
    ∷ codes "Instructions Retired"
    ∷ codes "LSU Busy"
    ∷ codes "Fetch Wait"
    ∷ codes "Loads"
    ∷ codes "Stores"
    ∷ codes "Jumps"
    ∷ codes "Conditional Branches"
    ∷ codes "Taken Conditional Branches"
    ∷ codes "Compressed Instructions"
    ∷ codes "Multiply Wait"
    ∷ codes "Divide Wait"
    ∷ []

-- The loop over the names with `std::max`.
unfoldable pub longest_name : ℕ → List (List ℕ) → ℕ
longest_name longest [] = longest
longest_name longest (name ∷ rest) = longest_name (max longest (length name)) rest

-- `<<` of a `uint64_t`, on fuel for its digits, of which there are at most 20.
unfoldable pub decimal_digits : ℕ → ℕ → List ℕ
decimal_digits zero n = []
decimal_digits (suc fuel) n =
    let upper = decimal_digits fuel (n / 10) in
    if ltb n 10 then (n + b'0') ∷ [] else upper ++ (n % 10 + b'0') ∷ []

abbrev pub decimal : ℕ → List ℕ
decimal n = decimal_digits 20 n

-- The name with its separator, and the spaces up to the column of the values.
unfoldable pub line_head : Bool → ℕ → List ℕ → List ℕ
line_head csv column name =
    if csv then name ++ b',' ∷ [] else name ++ b':' ∷ replicate (column - length name) b' '

-- The loop over the names, for each of which there has to be a counter in the array.
unfoldable pub pcount_lines : Bool → ℕ → List (List ℕ) → List ℕ → Outcome (List ℕ)
pcount_lines csv column [] pcounts = done []
pcount_lines csv column (name ∷ names) [] = fault
pcount_lines csv column (name ∷ names) (value ∷ pcounts) =
    pcount_lines csv column names pcounts
    >>= (λ (later : List ℕ). done (line_head csv column name ++ (decimal value ++ b'\n' ∷ later)))

unfoldable pub ibex_pcount_string : List ℕ → Bool → Outcome (List ℕ)
ibex_pcount_string pcounts csv =
    pcount_lines csv (longest_name 0 ibex_counter_names + 1) ibex_counter_names pcounts
