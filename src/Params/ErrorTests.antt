-- ===== src/Params/ErrorTests.antt =====
-- Files that cannot be read, and what is printed then.
use data_commoms.Base.{ℕ, ◌≡◌, refl, true, false, none, some, [], ◌∷◌, ◌++◌}
use data_commoms.Text.{Bytes, text, streq, strchr, strtoull}
use data_commoms.Text.Search.{strstr, lines}
use data_commoms.Params.{FloatText, uint, no_error, invalid_number, as_uint, simple, ParamCtx}
use data_commoms.Params.Line.{param_turn}
use data_commoms.Params.Parse.{returns, param_parse_txt}
use data_commoms.Params.Print.{error_text, param_print_error}
use data_commoms.Params.Errors.{parse_false_prints}

-- Numbers for `float`, of which none is read.
abbrev no_floats : FloatText
no_floats = record {
  Float = ℕ;
  zero_float = 0;
  strtof = λ s. record { value = 0; rest = []; erange = false };
  print = λ x. text "0.000000";
}

abbrev context : ParamCtx no_floats
context = record {
  params =
      record {
        type = uint;
        list_type = uint;
        room = 0;
        name = text "N";
        desc = [];
        val = simple (as_uint 5);
        is_mandatory = true;
        has_changed = false;
      }
      ∷ [];
  param_error = no_error;
}

-- A file that is not there is reported as a success.
says_success :
    (param_parse_txt no_floats [] context (text "a.txt") none ≡ returns false context)
    × (param_print_error no_floats context ≡ text "Task failed succesfully, No error" ++ b'\n' ∷ [])
unfolding param_parse_txt strstr streq error_text
says_success = (refl, refl)

abbrev bad_file : Bytes
bad_file = text "N=five" ++ b'\n' ∷ []

parse_false_prints_example :
    (rest : Bytes) × (param_print_error no_floats (record context { param_error = invalid_number })
      ≡ text "ERROR: " ++ rest)
unfolding param_parse_txt strstr lines param_turn strchr streq strtoull
parse_false_prints_example = parse_false_prints no_floats [] context (text "a.txt") (some bad_file)

-- A name without `.txt`.
unopened_keeps :
    param_parse_txt no_floats [] context (text "a.cfg") (some bad_file) ≡ returns false context
unfolding strstr
unopened_keeps = parse_false_prints no_floats [] context (text "a.cfg") (some bad_file)
