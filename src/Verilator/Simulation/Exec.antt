-- ===== src/Verilator/Simulation/Exec.antt =====
-- `ParseCommandArgs`, `RunSimulation` and `Exec`.
use coco_ibex.Common.{
  ℕ, ◌+◌, ◌-◌, ◌*◌, ◌%◌, ◌^◌, Bool, true, false, not, ◌&&◌, ◌||◌, ◌==◌, ltb, leb, List, [], ◌∷◌,
  Outcome, done, fault, ◌>>=◌, if◌then◌else◌,
}
use coco_ibex.Verilator.Simulation.{Parsed, Extension, Toplevel, Simulator, trace_on}
use coco_ibex.Verilator.Simulation.Loop.{call_extensions, run}

-- What `getopt_long` returns, with `optarg`.
pub data CommandOption : Type 0 where
  term_after : List ℕ → CommandOption
  trace_option help_option missing_option unknown_option : CommandOption

abbrev is_decimal : ℕ → Bool
is_decimal c = leb b'0' c && leb c b'9'

-- `atoi`: the digits after the sign, whose value has to be an `int`.
unfoldable pub atoi_digits : List ℕ → ℕ → ℕ
atoi_digits [] value = value
atoi_digits (c ∷ s) value = if is_decimal c then atoi_digits s (value * 10 + (c - b'0')) else value

unfoldable pub atoi_signed : List ℕ → Outcome ℕ
atoi_signed [] = done 0
atoi_signed (c ∷ s) =
    let magnitude = atoi_digits s 0 in
    let plain = atoi_digits (c ∷ s) 0 in
    if c == b'-'
    then if leb magnitude (2 ^ 31) then done ((2 ^ 32 - magnitude) % 2 ^ 32) else fault
    else if c == b'+'
    then if ltb magnitude (2 ^ 31) then done magnitude else fault
    else if ltb plain (2 ^ 31)
    then done plain
    else fault

-- The spaces before it.
unfoldable pub atoi : List ℕ → Outcome ℕ
atoi [] = done 0
atoi (c ∷ s) =
    let rest = atoi s in if c == b' ' || leb 9 c && leb c 13 then rest else atoi_signed (c ∷ s)

pub record Arguments (S : Type 0) : Type 0 where
  pub simulator : Simulator S
  pub exit_app : Bool
  pub success : Bool

pub record Exit (S : Type 0) : Type 0 where
  pub simulator : Simulator S
  pub code : ℕ

module _ {S : Type 0} where
  -- The parse of the arguments by the extensions, up to the first one that refuses them.
  unfoldable pub parse_extensions : List (Extension S) → Bool → Simulator S → Outcome (Arguments S)
  parse_extensions [] exit_app s =
      done (record { simulator = s; exit_app = exit_app; success = true })
  parse_extensions (ext ∷ rest) exit_app s =
      ext.parse_cli_arguments exit_app s.state >>= (λ (p : Parsed S).
        let after : Simulator S = record s { state = p.state } in
        let later = parse_extensions rest p.exit_app after in
        if p.success
        then later
        else done (record { simulator = after; exit_app = p.exit_app; success = false }))

  -- The loop over the options, and the extensions after it.
  unfoldable pub parse_command_args :
      Toplevel S → List CommandOption → Bool → Simulator S → Outcome (Arguments S)
  parse_command_args top [] exit_app s =
      parse_extensions s.extension_array exit_app (record s { state = top.command_args s.state })
  parse_command_args top (term_after optarg ∷ rest) exit_app s =
      atoi optarg
      >>= (λ (n : ℕ). parse_command_args top rest exit_app (record s { term_after_cycles = n }))
  parse_command_args top (trace_option ∷ rest) exit_app s =
      let later = parse_command_args top rest exit_app (trace_on s) in
      if s.tracing_possible
      then later
      else done (record { simulator = s; exit_app = exit_app; success = false })
  parse_command_args top (help_option ∷ rest) exit_app s = parse_command_args top rest true s
  parse_command_args top (missing_option ∷ rest) exit_app s =
      done (record { simulator = s; exit_app = exit_app; success = false })
  parse_command_args top (unknown_option ∷ rest) exit_app s = parse_command_args top rest exit_app s

  unfoldable pub run_simulation : Toplevel S → ℕ → Simulator S → Outcome (Simulator S)
  run_simulation top fuel s =
      run top fuel (call_extensions (λ (ext : Extension S). ext.pre_exec) s.extension_array s)
      >>= (λ (out : Simulator S).
          done (call_extensions (λ (ext : Extension S). ext.post_exec) out.extension_array out))

  unfoldable pub exec_arguments : Toplevel S → ℕ → Arguments S → Outcome (Exit S)
  exec_arguments top fuel a =
      let finished = run_simulation top fuel a.simulator >>= (λ (out : Simulator S).
        done (record { simulator = out; code = if out.simulation_success then 0 else 1 })) in
      if not a.success
      then done (record { simulator = a.simulator; code = 1 })
      else if a.exit_app
      then done (record { simulator = a.simulator; code = 0 })
      else finished

  unfoldable pub exec : Toplevel S → List CommandOption → ℕ → Simulator S → Outcome (Exit S)
  exec top options fuel s = parse_command_args top options false s >>= exec_arguments top fuel
