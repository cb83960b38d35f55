-- ===== src/Flags/Parse.antt =====
-- flag_parse. The arguments left are a list, so `argc` is its length. In place of the two NUL bytes
-- that the code writes into an argument, the pieces of the argument are lists of their own.
use data_commoms.Base.{
  ℕ, zero, suc, ◌+◌, Bool, true, false, not, ◌&&◌, ◌||◌, Option, none, some, List, [], ◌∷◌, length,
  ◌==◌, if◌then◌else◌,
}
use data_commoms.Text.{text, Bytes, streq, strchr}
use data_commoms.Flags.{FloatOps, Flag, FlagCtx, FlagError, no_value, unknown}
use data_commoms.Flags.Values.{Case, sets, stops, overruns, parse_value}

-- What the code shows on the way: `system("clear")`, FlagPrintHelp, and FlagPrintError with the
-- error that the context holds then.
pub data Shown : Type 0 where
  clear_screen help : Shown
  error : FlagError → Option Bytes → Shown

-- The argument of a flag: behind the `=`, or the next one. `none` if there is none.
unfoldable pub take_arg : Option Bytes → List Bytes → Option (Bytes × List Bytes)
take_arg (some v) args = some (v, args)
take_arg none [] = none
take_arg none (a ∷ args) = some (a, args)

-- How the `for` over the flags ends: `found`, the arguments left and the flags; with an error and
-- the flags as they are then; or with a write out of bounds.
pub data Scanned (fl : FloatOps) : Type 0 where
  done : Bool → List Bytes → List (Flag fl) → Scanned fl
  failed : FlagError → List (Flag fl) → Scanned fl
  fault : Scanned fl

-- What follows `flag` in `argv`: the rest of a word behind the `-`.
pub record Word : Type 0 where
  pub ignore : Bool
  pub name : Bytes
  pub equals : Option Bytes

-- `flag += 1`, the test for `/`, and the split at `=`.
unfoldable pub read_word : Bytes → Word
read_word [] = record { ignore = false; name = []; equals = none }
read_word (c ∷ flag) =
    let ignore = c == b'/' in
    let (name, equals) = strchr (if ignore then flag else c ∷ flag) b'=' in
    record { ignore = ignore; name = name; equals = equals }

-- The test on an argument for the end of the flags.
unfoldable pub ends_flags : Bytes → Bool
ends_flags [] = true
ends_flags (c ∷ s) = not (c == b'-') || streq (c ∷ s) (text "--")

abbrev pub behind_dash : Bytes → Bytes
behind_dash [] = []
behind_dash (c ∷ s) = s

abbrev pub last_or : Option Bytes → List Bytes → Option Bytes
last_or d [] = d
last_or d (x ∷ xs) = last_or (some x) xs

abbrev pub show_missing : List Bytes → List Shown
show_missing [] = []
show_missing (x ∷ xs) = error no_value (some x) ∷ show_missing xs

module _ (fl : FloatOps) where
  -- A flag in front of those that the rest of the loop gives.
  abbrev pub before : Flag fl → Bool → Scanned fl → Scanned fl
  before f found (done b args fs) = done (found || b) args (f ∷ fs)
  before f found (failed e fs) = failed e (f ∷ fs)
  before f found fault = fault

  -- One round of the `for` at a flag of that name, up to the `break` of the `switch`.
  unfoldable pub scan_flag :
      Word → List Bytes → Flag fl → Option (Bytes × List Bytes) → Case (Flag fl × List Bytes)
  scan_flag w args f none = stops no_value
  scan_flag w args f (some (arg, args')) = elim (parse_value fl f.type w.ignore f.val arg) [
    | sets v ↦ sets (record f { val = v; has_changed = true }, args')
    | stops e ↦ stops e
    | overruns ↦ overruns
  ]

  -- The `for` over the flags.
  unfoldable pub scan : Word → List Bytes → List (Flag fl) → Scanned fl
  scan w args [] = done false args []
  scan w args (f ∷ fs) = elim (streq f.name w.name) [
    | false ↦ before f false (scan w args fs)
    | true ↦ elim (scan_flag w args f (take_arg w.equals args)) [
      | sets (f', args') ↦ before f' true (scan w args' fs)
      | stops e ↦ failed e (f ∷ fs)
      | overruns ↦ fault
    ]
  ]

  -- The loop behind the `while`: the last mandatory flag without a value, and what is shown.
  unfoldable pub missing : List (Flag fl) → List Bytes
  missing [] = []
  missing (f ∷ fs) =
      let rest = missing fs in if f.is_mandatory && not f.has_changed then f.name ∷ rest else rest

  pub data Outcome : Type 0 where
    returns : Bool → FlagCtx fl → List Shown → Outcome
    faults : Outcome
    out_of_fuel : Outcome

  -- The end of flag_parse, with no argument left.
  unfoldable pub finish : FlagCtx fl → Outcome
  finish c = elim (missing c.flags) [
    | [] ↦ returns true (record c { rest_argc = 0; rest_argv = [] }) []
    | x ∷ xs ↦
        returns false (record c { flag_error = no_value; flag_error_name = last_or (some x) xs })
          (show_missing (x ∷ xs))
  ]

  -- How a round of the `while` ends.
  pub data Round : Type 0 where
    again : FlagCtx fl → List Bytes → Round
    over : Outcome → Round

  -- What the round makes of the scan over the flags.
  unfoldable pub after_scan : FlagCtx fl → Bytes → Scanned fl → Round
  after_scan c flag (done true args fs) = again (record c { flags = fs }) args
  after_scan c flag (done false args fs) = over (
      returns false
        (record c {
          flags = fs;
          flag_error = unknown;
          flag_error_name = some flag;
          flag_error_value = some flag;
        })
        [])
  after_scan c flag (failed e fs) =
      over (returns false (record c { flags = fs; flag_error = e; flag_error_name = some flag }) [])
  after_scan c flag fault = over faults

  -- A round of the `while` with the argument `arg`, and `args` behind it.
  unfoldable pub round : FlagCtx fl → Bytes → List Bytes → Round
  round c arg args =
      let w = read_word (behind_dash arg) in
      if ends_flags arg
      then over (returns true (record c { rest_argc = length args + 1; rest_argv = arg ∷ args }) [])
      else if streq (text "-h") w.name || streq (text "-help") w.name
      then over (returns true c (clear_screen ∷ help ∷ []))
      else after_scan c w.name (scan w args c.flags)

  -- The `while`, on fuel: each round takes an argument or more.
  unfoldable pub parse_loop : ℕ → FlagCtx fl → List Bytes → Outcome
  parse_loop zero c args = out_of_fuel
  parse_loop (suc fuel) c [] = finish c
  parse_loop (suc fuel) c (arg ∷ args) = elim (round c arg args) [
    | again c' args' ↦ parse_loop fuel c' args'
    | over o ↦ o
  ]

  -- flag_parse. With no program name yet, the first argument is taken for it; the assertion in
  -- flag_shift_args fails if there is none.
  unfoldable pub parse : FlagCtx fl → List Bytes → Outcome
  parse c argv = elim c.program_name [
    | some p ↦ parse_loop (length argv + 1) c argv
    | none ↦ elim argv [
      | [] ↦ faults
      | p ∷ args ↦ parse_loop (length args + 1) (record c { program_name = some p }) args
    ]
  ]
