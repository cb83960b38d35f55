-- ===== src/Flags/Print.antt =====
-- FlagPrintHelp and FlagPrintError of include/parser.h: the texts that they print. `none`: a null
-- pointer is printed with `%s`, or a member of the union is read that was not written.
use data_commoms.Base.{Bool, true, false, Option, none, some, List, [], ◌∷◌, ◌++◌, if◌then◌else◌}
use data_commoms.Text.{Bytes, text}
use data_commoms.Text.Decimal.{dec, int_text}
use data_commoms.Flags.{
  FloatOps, FlagType, bool, uint8, uint16, uint32, uint64, int, float, double, size, str, list,
  no_error, unknown, no_value, invalid_number, integer_overflow, float_overflow, double_overflow,
  invalid_size_suffix, FlagVal, as_bool, as_uint8, as_uint16, as_uint32, as_uint64, as_int,
  as_float, as_double, as_size, as_str, Flag, FlagCtx,
}

abbrev pub newline : Bytes
newline = b'\n' ∷ []

-- A text that is a part of what is printed, if there is one.
abbrev pub between : Bytes → Option Bytes → Bytes → Option Bytes
between a none b = none
between a (some s) b = some (a ++ (s ++ b))

-- One text behind the other.
abbrev pub both : Option Bytes → Option Bytes → Option Bytes
both none b = none
both (some a) none = none
both (some a) (some b) = some (a ++ b)

abbrev pub usage_start : Bytes
usage_start = text "Usage: "

-- The part of `def_usage` behind the name of the program.
abbrev pub usage_end : Bytes
usage_end =
    text " [OPTIONS]"
    ++ (newline ++ newline)
    ++ (text "OPTIONS:" ++ newline ++ newline)
    ++ (text "    DEFAULT FLAGS:" ++ newline)
    ++ (text "    -f, -file <str>" ++ newline)
    ++ (text "        File name to be parsed" ++ newline)
    ++ (text "        Default: NONE" ++ newline)
    ++ (text "    -h, -help <bool>" ++ newline)
    ++ (text "        Show this message" ++ newline)
    ++ (text "        Default: false" ++ newline)
    ++ (text "    CUSTOM FLAGS:" ++ newline)

abbrev pub default_start : Bytes
default_start = text "        Default: "

-- What FlagPrintError prints behind the name of the flag: the first line, and on.
abbrev pub error_line : Bytes → Bytes → Bytes
error_line name what = text "ERROR: -" ++ (name ++ (text ": " ++ (what ++ newline)))

abbrev pub named_error : Option Bytes → Bytes → Option Bytes
named_error none what = none
named_error (some name) what = some (error_line name what)

abbrev pub valued_error : Option Bytes → Option Bytes → Bytes → Bytes → Bytes → Option Bytes
valued_error none value what before behind = none
valued_error (some name) none what before behind = none
valued_error (some name) (some value) what before behind =
    some (error_line name what ++ (text "    " ++ (before ++ (value ++ (behind ++ newline)))))

module _ (fl : FloatOps) (print_float : fl.Float → Bytes) (print_double : fl.Double → Bytes) where
  -- The first two lines of a flag, of a type of this name.
  abbrev pub head_lines : Bytes → Flag fl → Bytes
  head_lines type f =
      text "    -"
      ++ (f.name ++ (text " <" ++ (type ++ (text ">" ++ newline))))
      ++ (text "        " ++ (f.desc ++ newline))

  -- The third line; the default is only printed if the flag is not mandatory.
  abbrev pub last_line : Flag fl → Option Bytes → Option Bytes
  last_line f shown =
      if f.is_mandatory
      then some (text "        MANDATORY" ++ newline)
      else between default_start shown newline

  abbrev pub flag_lines : Bytes → Flag fl → Option Bytes → Option Bytes
  flag_lines type f shown = both (some (head_lines type f)) (last_line f shown)

  abbrev pub bool_shown : Bool → Bytes
  bool_shown true = text "true"
  bool_shown false = text "false"

  -- The name of a type in the help, and how a default is printed.
  unfoldable pub type_name : FlagType → Bytes
  type_name bool = text "bool"
  type_name uint8 = text "uint8"
  type_name uint16 = text "uint16"
  type_name uint32 = text "uint32"
  type_name uint64 = text "uint64"
  type_name int = text "int"
  type_name float = text "float"
  type_name double = text "double"
  type_name size = text "size"
  type_name str = text "str"
  type_name list = text "list"

  unfoldable pub default_text : FlagType → FlagVal fl → Option Bytes
  default_text bool (as_bool b) = some (bool_shown b)
  default_text uint8 (as_uint8 n) = some (dec n)
  default_text uint16 (as_uint16 n) = some (dec n)
  default_text uint32 (as_uint32 n) = some (dec n)
  default_text uint64 (as_uint64 n) = some (dec n)
  default_text int (as_int z) = some (int_text z)
  default_text float (as_float x) = some (print_float x)
  default_text double (as_double x) = some (print_double x)
  default_text size (as_size n) = some (dec n)
  default_text str (as_str s) = s
  default_text type v = none

  abbrev pub list_lines : Flag fl → Bytes
  list_lines f =
      text "    -"
      ++ (f.name ++ (text " <str> ... " ++ (f.name ++ (text " <str> ..." ++ newline))))
      ++ (text "        " ++ (f.desc ++ newline))

  -- The `switch` of FlagPrintHelp.
  unfoldable pub flag_help : FlagType → Flag fl → Option Bytes
  unfolding type_name default_text
  flag_help list f = some (list_lines f)
  flag_help type f = flag_lines (type_name type) f (default_text type f.def)

  -- The `for` over the flags.
  unfoldable pub flags_help : List (Flag fl) → Option Bytes
  unfolding flag_help
  flags_help [] = some []
  flags_help (f ∷ fs) = both (flag_help f.type f) (flags_help fs)

  -- FlagPrintHelp
  unfoldable pub print_help : FlagCtx fl → Option Bytes
  unfolding flags_help
  print_help c = both (between usage_start c.program_name usage_end) (flags_help c.flags)

module _ (fl : FloatOps) where
  -- FlagPrintError
  unfoldable pub print_error : FlagCtx fl → Option Bytes
  print_error c = elim c.flag_error [
    | no_error ↦ some (text "Task failed succesfully, No error :/" ++ newline)
    | unknown ↦
        valued_error c.flag_error_name c.flag_error_value (text "unknown flag") []
          (text " is not a valid flag")
    | no_value ↦ named_error c.flag_error_name (text "no value provided")
    | invalid_number ↦ named_error c.flag_error_name (text "invalid number")
    | integer_overflow ↦ named_error c.flag_error_name (text "integer overflow")
    | float_overflow ↦ named_error c.flag_error_name (text "float overflow")
    | double_overflow ↦ named_error c.flag_error_name (text "double overflow")
    | invalid_size_suffix ↦
        valued_error c.flag_error_name c.flag_error_value (text "invalid size suffix") (text "Got ")
          (text " suffix which is not expected")
  ]
