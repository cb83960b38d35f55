-- ===== src/Flags/PrintTests.antt =====
-- The texts of FlagPrintHelp and FlagPrintError on a command line after tests/parser_test.c.
use data_commoms.Base.{ℕ, ◌≡◌, refl, Bool, true, false, none, some, [], ◌∷◌, ◌++◌, pos, negsuc}
use data_commoms.Text.{text, Bytes, streq}
use data_commoms.Text.Decimal.{dec}
use data_commoms.Flags.{
  FloatOps, FlagType, bool, int, str, no_error, unknown, no_value, FlagVal, as_bool, as_int, as_str,
  Flag, FlagCtx,
}
use data_commoms.Flags.Values.{sets, parse_value, is_true_word, is_false_word}
use data_commoms.Flags.Parse.{returns, parse, parse_loop, finish, missing, error}
use data_commoms.Flags.Print.{
  newline, default_start, head_lines, type_name, default_text, flag_help, print_error,
}
use data_commoms.Flags.Help.{exact_int, default_reads_back}
use data_commoms.Flags.Errors.{Names, parse_error_prints, bad_bool_unprintable}

-- Floating-point numbers that are never read.
abbrev no_floats : FloatOps
no_floats = record {
  Float = ℕ;
  Double = ℕ;
  zero_float = 0;
  zero_double = 0;
  strtof = λ s. record { value = 0; rest = s; erange = false };
  strtod = λ s. record { value = 0; rest = s; erange = false };
  is_flt_max = λ x. false;
  is_dbl_max = λ x. false;
}

abbrev zero_text : ℕ → Bytes
zero_text x = text "0.0000"

abbrev a_flag : FlagType → Bytes → FlagVal no_floats → Bool → Flag no_floats
a_flag t name v m = record {
  type = t;
  name = name;
  desc = text "A flag";
  val = v;
  def = v;
  is_mandatory = m;
  has_changed = false;
}

abbrev n_flag : Flag no_floats
n_flag = a_flag int (text "n") (as_int (negsuc 4)) false

abbrev verbose_flag : Flag no_floats
verbose_flag = a_flag bool (text "v") (as_bool false) true

abbrev context : FlagCtx no_floats
context = record {
  flags = verbose_flag ∷ n_flag ∷ [];
  flag_error = no_error;
  flag_error_name = none;
  flag_error_value = none;
  program_name = some (text "prog");
  rest_argc = 0;
  rest_argv = [];
}

n_help :
    flag_help no_floats zero_text zero_text int n_flag
    ≡ some (
        text "    -n <int>"
        ++ (newline
            ++ (text "        A flag" ++ (newline ++ (text "        Default: -5" ++ newline)))))
unfolding flag_help type_name default_text dec
n_help = refl

-- A null pointer as the default of a string.
null_help :
    flag_help no_floats zero_text zero_text str (a_flag str (text "s") (as_str none) false) ≡ none
unfolding flag_help default_text
null_help = refl

default_reads_back_example :
    (d : Bytes) × (flag_help no_floats zero_text zero_text int n_flag
      ≡ some (
          head_lines no_floats zero_text zero_text
            (type_name no_floats zero_text zero_text int)
            n_flag
          ++ (default_start ++ (d ++ newline))))
    × (parse_value no_floats int false (as_int (pos 0)) d ≡ sets (as_int (negsuc 4)))
default_reads_back_example =
    default_reads_back no_floats zero_text zero_text n_flag (as_int (pos 0))
      (exact_int (negsuc 4) refl) refl

abbrev missing_ctx : FlagCtx no_floats
missing_ctx = record context { flag_error = no_value; flag_error_name = some (text "v") }

parse_error_prints_example :
    (n : Bytes) × (missing_ctx.flag_error_name ≡ some n)
    × Names no_floats no_value none n (print_error no_floats missing_ctx)
unfolding parse parse_loop finish missing
parse_error_prints_example =
    parse_error_prints no_floats context missing_ctx [] (error no_value (some (text "v")) ∷ []) refl
      refl

bad_bool_unprintable_example :
    (c' : FlagCtx no_floats) × (parse no_floats context (text "-v" ∷ text "maybe" ∷ [])
      ≡ returns false c' [])
    × (c'.flag_error ≡ unknown)
    × (c'.flag_error_name ≡ some (text "v"))
    × (print_error no_floats c' ≡ none)
unfolding is_true_word is_false_word streq
bad_bool_unprintable_example =
    bad_bool_unprintable no_floats context verbose_flag (n_flag ∷ []) (text "prog") (text "maybe")
      [] refl refl refl refl refl refl refl
