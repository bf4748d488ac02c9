-- ===== src/Verilator/Pcount/ReadBack.antt =====
-- The lines of the counters, read back, and their columns.
use coco_ibex.Common.{
  ℕ, zero, suc, ◌+◌, ◌-◌, ◌^◌, ◌≤◌, ◌<◌, ◌≡◌, ◌≢◌, refl, arith, max, Bool, true, false, not, ◌&&◌,
  ◌==◌, List, [], ◌∷◌, ◌++◌, append_assoc, Option, none, some, done, length, length-append,
  length-replicate, replicate, All, All-append, ap, ◌∙◌, sym,
}
use coco_ibex.Text.{Split, Without, split_first, split_first-append}
use coco_ibex.Verilator.Pcount.{
  longest_name, decimal, line_head, pcount_lines, ibex_pcount_string, ibex_counter_names,
}
use coco_ibex.Verilator.Pcount.Decimal.{value_from, IsDigit, decimal-value, decimal-IsDigit}

pub record Entry : Type 0 where
  pub name : List ℕ
  pub value : ℕ

abbrev add_entry : Entry → Option (List Entry) → Option (List Entry)
add_entry e none = none
add_entry e (some later) = some (e ∷ later)

-- A reader of a number of lines, each a name and a number with a comma between them.
abbrev entry_of : Option Split → Option Entry
entry_of none = none
entry_of (some s) = some (record { name = s.before; value = value_from 0 s.after })

abbrev add_line : Option Entry → Option (List Entry) → Option (List Entry)
add_line none later = none
add_line (some e) later = add_entry e later

unfoldable pub read_lines : ℕ → List ℕ → Option (List Entry)
read_lines zero text = some []
read_lines (suc lines) text = elim (split_first b'\n' text) [
  | none ↦ none
  | some l ↦ add_line (entry_of (split_first b',' l.before)) (read_lines lines l.after)
]

unfoldable pub entries : List (List ℕ) → List ℕ → List Entry
entries [] values = []
entries (name ∷ names) [] = []
entries (name ∷ names) (value ∷ values) =
    record { name = name; value = value } ∷ entries names values

-- A name that can be told from what follows it.
abbrev IsName : List ℕ → Type 0
IsName name = Without b',' name × Without b'\n' name

digits-Without : (s : List ℕ) → All IsDigit s → Without b'\n' s
digits-Without [] h = tt
digits-Without (c ∷ s) h = (ground (arith, h.0), digits-Without s h.1)

read_lines-line :
    (lines column value : ℕ) (name later : List ℕ)
    → IsName name
    → value < 2 ^ 64
    → read_lines (suc lines) (line_head true column name ++ (decimal value ++ b'\n' ∷ later))
      ≡ add_entry (record { name = name; value = value }) (read_lines lines later)
unfolding read_lines line_head
read_lines-line lines column value name later h small =
    let line = name ++ b',' ∷ decimal value in
    let same : (name ++ b',' ∷ []) ++ (decimal value ++ b'\n' ∷ later) ≡ line ++ b'\n' ∷ later =
      append_assoc name (b',' ∷ []) (decimal value ++ b'\n' ∷ later)
      ∙ sym (append_assoc name (b',' ∷ decimal value) (b'\n' ∷ later)) in
    let free =
      All-append (λ (c : ℕ). c ≢ b'\n') name (b',' ∷ decimal value) h.1
        (ground arith, digits-Without (decimal value) (decimal-IsDigit value)) in
    let cut = split_first-append b'\n' line later free in
    let field = split_first-append b',' name (decimal value) h.0 in
    ap (read_lines (suc lines)) same ∙ rw (read_lines, cut, field, decimal-value value small) refl

-- In csv form every line of the text reads back as the name and the value of its counter.
pcount_lines-read_lines :
    (column : ℕ) (names : List (List ℕ)) (values : List ℕ)
    → All IsName names
    → All (λ (v : ℕ). v < 2 ^ 64) values
    → length names ≤ length values
    → (text : List ℕ) × (pcount_lines true column names values ≡ done text)
      × (read_lines (length names) text ≡ some (entries names values))
unfolding pcount_lines entries read_lines
pcount_lines-read_lines column [] values hn hv same = ([], refl, refl)
pcount_lines-read_lines column (name ∷ names) [] hn hv same = absurd (omega (arith, same))
pcount_lines-read_lines column (name ∷ names) (v ∷ values) hn hv same =
    let later = pcount_lines-read_lines column names values hn.1 hv.1 (omega (arith, same)) in
    let text = line_head true column name ++ (decimal v ++ b'\n' ∷ later.0) in
    (
      text,
      rw later.1 refl,
      read_lines-line (length names) column v name later.0 hn.0 hv.0
          ∙ ap (add_entry (record { name = name; value = v })) later.2,
    )

-- The test of a name, for the names of the program.
unfoldable is_free : List ℕ → Bool
is_free [] = true
is_free (c ∷ s) = not (c == b',') && not (c == b'\n') && is_free s

is_free-IsName : (s : List ℕ) → is_free s ≡ true → IsName s
unfolding is_free
is_free-IsName [] h = (tt, tt)
is_free-IsName (c ∷ s) h =
    let later = is_free-IsName s (ground (arith, h)) in
    ((ground (arith, h), later.0), (ground (arith, h), later.1))

unfoldable all_free : List (List ℕ) → Bool
all_free [] = true
all_free (name ∷ names) = is_free name && all_free names

all_free-IsName : (names : List (List ℕ)) → all_free names ≡ true → All IsName names
unfolding all_free
all_free-IsName [] h = tt
all_free-IsName (name ∷ names) h =
    (is_free-IsName name (ground (arith, h)), all_free-IsName names (ground (arith, h)))

names_free : all_free ibex_counter_names ≡ true
unfolding all_free is_free ibex_counter_names
names_free = refl

-- `ibex_pcount_string` of at least as many 64-bit values as there are counters gives, in csv form, a text of which
-- every line reads back as the name and the value of a counter.
pub ibex_pcount_string-read_lines :
    (values : List ℕ)
    → All (λ (v : ℕ). v < 2 ^ 64) values
    → length ibex_counter_names ≤ length values
    → (text : List ℕ) × (ibex_pcount_string values true ≡ done text)
      × (read_lines (length ibex_counter_names) text ≡ some (entries ibex_counter_names values))
unfolding ibex_pcount_string
ibex_pcount_string-read_lines values hv same =
    pcount_lines-read_lines (longest_name 0 ibex_counter_names + 1) ibex_counter_names values
      (all_free-IsName ibex_counter_names names_free) hv same

longest_name-bounds :
    (longest : ℕ) (names : List (List ℕ))
    → (longest ≤ longest_name longest names)
      × All (λ (name : List ℕ). length name ≤ longest_name longest names) names
unfolding longest_name
longest_name-bounds longest [] = (omega arith, tt)
longest_name-bounds longest (name ∷ names) =
    let later = longest_name-bounds (max longest (length name)) names in
    (omega (arith, later.0), (omega (arith, later.0), later.1))

line_head-length :
    (column : ℕ) (name : List ℕ)
    → length name ≤ column
    → length (line_head false column name) ≡ column + 1
unfolding line_head
line_head-length column name h =
    let spaces : List ℕ = replicate (column - length name) b' ' in
    let size : length spaces ≡ column - length name =
      length-replicate (column - length name) b' ' in
    length-append name (b':' ∷ spaces) ∙ omega (arith, h, size)

line_heads-length :
    (column : ℕ) (names : List (List ℕ))
    → All (λ (name : List ℕ). length name ≤ column) names
    → All (λ (name : List ℕ). length (line_head false (column + 1) name) ≡ column + 2) names
line_heads-length column [] h = tt
line_heads-length column (name ∷ names) h = (
  line_head-length (column + 1) name (omega (arith, h.0)) ∙ omega arith,
  line_heads-length column names h.1,
)

-- In the other form the values of all counters begin in the same column, one space or more behind the
-- separator.
line_head-aligned :
    (names : List (List ℕ))
    → All
        (λ (name : List ℕ).
          length (line_head false (longest_name 0 names + 1) name) ≡ longest_name 0 names + 2)
        names
line_head-aligned names =
    line_heads-length (longest_name 0 names) names (longest_name-bounds 0 names).1
