-- ===== src/Flags/Tests.antt =====
-- Command lines after tests/parser_test.c.
use mathlib.Core.List.{Memᴰ}
use data_commoms.Base.{
  ℕ, ◌-◌, ◌^◌, ◌≡◌, ◌≢◌, refl, Bool, true, false, none, some, List, [], ◌∷◌, arith, pos, negsuc,
  map, ◌||◌,
}
use data_commoms.Text.{text, Bytes, streq, strchr, strtol, strtoull, toupper}
use data_commoms.Text.Decimal.{dec}
use data_commoms.Flags.{
  FloatOps, FlagType, int, size, list, no_error, unknown, no_value, integer_overflow, FlagVal,
  as_int, as_size, as_list, Flag, FlagCtx,
}
use data_commoms.Flags.Values.{
  sets, stops, parse_uint, parse_int, parse_size, parse_value, list_append, size_suffix,
}
use data_commoms.Flags.Parse.{
  returns, out_of_fuel, parse, parse_loop, round, ends_flags, read_word, after_scan, scan,
  scan_flag, take_arg, finish, missing, error, clear_screen, help,
}
use data_commoms.Flags.Typed.{is_error}
use data_commoms.Flags.Keeps.{registered, all_fit}
use data_commoms.Flags.Explains.{parse_explains}
use data_commoms.Flags.Total.{parse_total}
use data_commoms.Flags.Equals.{equals_or_next}
use data_commoms.Flags.Mandatory.{parse_mandatory}
use data_commoms.Flags.Numbers.{
  parse_uint-dec, parse_uint_minus, parse_int-dec, parse_size-dec, kilo_small, signed_dec,
}

-- Floating-point numbers that are never read.
abbrev no_floats : FloatOps
no_floats = record {
  Float = ℕ;
  Double = ℕ;
  zero_float = 0;
  zero_double = 0;
  strtof = λ s. record { value = 0; rest = s; erange = false };
  strtod = λ s. record { value = 0; rest = s; erange = false };
  is_flt_max = λ x. false;
  is_dbl_max = λ x. false;
}

abbrev a_flag : FlagType → Bytes → FlagVal no_floats → Bool → Flag no_floats
a_flag t name v m = record {
  type = t;
  name = name;
  desc = [];
  val = v;
  def = v;
  is_mandatory = m;
  has_changed = false;
}

abbrev n_flag : Flag no_floats
n_flag = a_flag int (text "n") (as_int (pos 5)) true

abbrev limit_flag : Flag no_floats
limit_flag = a_flag size (text "limit") (as_size 1) false

abbrev items_flag : Flag no_floats
items_flag = a_flag list (text "i") (as_list []) false

abbrev context : FlagCtx no_floats
context = record {
  flags = n_flag ∷ limit_flag ∷ items_flag ∷ [];
  flag_error = no_error;
  flag_error_name = none;
  flag_error_value = none;
  program_name = none;
  rest_argc = 0;
  rest_argv = [];
}

abbrev command : List Bytes
command =
    text "prog"
    ∷ text "-n"
    ∷ text "-42"
    ∷ text "-limit=2K"
    ∷ text "-i"
    ∷ text "a"
    ∷ text "-i=b"
    ∷ []

abbrev n_set : Flag no_floats
n_set = record n_flag { val = as_int (negsuc 41); has_changed = true }

abbrev parsed : FlagCtx no_floats
parsed = record context {
  program_name = some (text "prog");
  flags =
      n_set
      ∷ record limit_flag { val = as_size 2048; has_changed = true }
      ∷ record items_flag { val = as_list (text "a" ∷ text "b" ∷ []); has_changed = true }
      ∷ [];
}

command_run : parse no_floats context command ≡ returns true parsed []
unfolding parse parse_loop round ends_flags streq read_word strchr after_scan scan scan_flag
    take_arg parse_value parse_int strtol parse_size strtoull toupper list_append finish missing
command_run = refl

-- A `/` behind the dash reads the value and keeps the old one.
ignored_keeps :
    parse no_floats context (text "prog" ∷ text "-/n=7" ∷ text "--" ∷ text "x" ∷ [])
    ≡ returns true
        (record context {
          program_name = some (text "prog");
          flags = record n_flag { has_changed = true } ∷ limit_flag ∷ items_flag ∷ [];
          rest_argc = 2;
          rest_argv = text "--" ∷ text "x" ∷ [];
        })
        []
unfolding parse parse_loop round ends_flags streq read_word strchr after_scan scan scan_flag
    take_arg parse_value parse_int strtol
ignored_keeps = refl

mandatory_missing :
    parse no_floats context (text "prog" ∷ [])
    ≡ returns false
        (record context {
          program_name = some (text "prog");
          flag_error = no_value;
          flag_error_name = some (text "n");
        })
        (error no_value (some (text "n")) ∷ [])
unfolding parse parse_loop finish missing
mandatory_missing = refl

-- With one argument left over, the mandatory flags are not looked at.
left_over_skips_mandatory :
    parse no_floats context (text "prog" ∷ text "x" ∷ [])
    ≡ returns true
        (record context {
          program_name = some (text "prog");
          rest_argc = 1;
          rest_argv = text "x" ∷ [];
        })
        []
unfolding parse parse_loop round ends_flags
left_over_skips_mandatory = refl

-- It is `--help` that shows the help; `-help` is no flag.
double_dash_help :
    parse no_floats context (text "prog" ∷ text "--help" ∷ [])
    ≡ returns true (record context { program_name = some (text "prog") }) (clear_screen ∷ help ∷ [])
unfolding parse parse_loop round ends_flags streq read_word strchr
double_dash_help = refl

single_dash_help :
    parse no_floats context (text "prog" ∷ text "-help" ∷ [])
    ≡ returns false
        (record context {
          program_name = some (text "prog");
          flag_error = unknown;
          flag_error_name = some (text "help");
          flag_error_value = some (text "help");
        })
        []
unfolding parse parse_loop round ends_flags streq read_word strchr after_scan scan
single_dash_help = refl

-- An empty number is a zero.
empty_number : parse_uint 8 [] ≡ sets 0
unfolding parse_uint strtoull
empty_number = refl

parse_total_example : parse no_floats context command ≢ out_of_fuel
parse_total_example = parse_total no_floats context command

parse_mandatory_example : n_set.has_changed ≡ true
parse_mandatory_example =
    parse_mandatory no_floats context parsed command command_run refl n_set (Memᴰ.head refl) refl

parse_uint-dec_example : parse_uint 8 (dec 256) ≡ stops integer_overflow
parse_uint-dec_example = parse_uint-dec 8 256 (omega arith)

parse_uint_minus_run : parse_uint 64 (b'-' ∷ dec 1) ≡ sets (2 ^ 64 - 1)
parse_uint_minus_run = parse_uint_minus 64 1 (omega arith) (omega arith)

parse_int-dec_example : parse_int (signed_dec true 42) ≡ sets (negsuc 41)
parse_int-dec_example = parse_int-dec true 42

parse_size-dec_example : parse_size (text "2k") ≡ sets 2048
unfolding dec size_suffix toupper
parse_size-dec_example = parse_size-dec 2 kilo_small

parse_explains_example :
    (map (registered no_floats) parsed.flags ≡ map (registered no_floats) context.flags)
    × (all_fit no_floats parsed.flags ≡ true)
    × ((true || is_error parsed.flag_error) ≡ true)
parse_explains_example = parse_explains no_floats context parsed command true [] refl command_run

equals_or_next_example :
    round no_floats context (text "-n=5") (text "-n" ∷ [])
    ≡ round no_floats context (text "-n") (text "5" ∷ text "-n" ∷ [])
unfolding streq
equals_or_next_example =
    equals_or_next no_floats context (text "n") (text "5") (text "-n" ∷ []) refl refl
