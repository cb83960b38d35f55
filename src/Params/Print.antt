-- ===== src/Params/Print.antt =====
-- ParamPrintError and param_name of include/file_parser.h.
use data_commoms.Base.{ℕ, zero, suc, Option, none, some, List, [], ◌∷◌, ◌++◌}
use data_commoms.Text.{Bytes, text}
use data_commoms.Params.{
  FloatText, ParamError, no_error, unknown, no_value, invalid_number, invalid_file_ext,
  invalid_size_suffix, bin_overflow, Param, ParamCtx,
}

-- The `switch` of ParamPrintError: the line that it prints.
unfoldable pub error_text : ParamError → Bytes
error_text no_error = text "Task failed succesfully, No error" ++ b'\n' ∷ []
error_text unknown = text "ERROR: unknown param" ++ b'\n' ∷ []
error_text no_value = text "ERROR: no value provided" ++ b'\n' ∷ []
error_text invalid_number = text "ERROR: invalid number" ++ b'\n' ∷ []
error_text invalid_file_ext = text "ERROR: invalid file extension" ++ b'\n' ∷ []
error_text invalid_size_suffix = text "ERROR: invalid size suffix" ++ b'\n' ∷ []
error_text bin_overflow = text "ERROR: bin overflow" ++ b'\n' ∷ []

module _ (fl : FloatText) where
  -- ParamPrintError
  abbrev pub param_print_error : ParamCtx fl → Bytes
  param_print_error c = error_text c.param_error

  -- param_name: `val` is the place of the parameter whose variable the pointer refers to, the
  -- number of parameters if there is none.
  abbrev pub param_name_at : List (Param fl) → ℕ → Option Bytes
  param_name_at [] val = none
  param_name_at (p ∷ ps) zero = some p.name
  param_name_at (p ∷ ps) (suc val) = param_name_at ps val

  -- ParamName
  abbrev pub param_name : ParamCtx fl → ℕ → Option Bytes
  param_name c val = param_name_at c.params val
