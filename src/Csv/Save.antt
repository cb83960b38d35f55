-- ===== src/Csv/Save.antt =====
-- param_save_csv, ParamSave and ParamParse of include/file_parser.h.
use data_commoms.Base.{ℕ, zero, suc, Bool, [], ◌∷◌, ◌++◌, if◌then◌else◌, Option, none, some}
use data_commoms.Text.{Bytes}
use data_commoms.Params
use data_commoms.Params.{FloatText, ParamCtx}
use data_commoms.Csv.{CsvFileh}
use data_commoms.Csv.Parse.{Parsed, param_parse_csv}

-- The texts of the columns from `i` on, `left` and one of them, with a comma between two, and a
-- line end.
unfoldable pub csv_line : (ℕ → Bytes) → ℕ → ℕ → Bytes
csv_line cell i zero = cell i ++ b'\n' ∷ []
csv_line cell i (suc left) = cell i ++ b',' ∷ csv_line cell (suc i) left

-- `file_type_e`
pub data FileType : Type 0 where
  txt csv : FileType

module _ (fl : FloatText) where
  -- The rows from `j` on, `left` of them, with `cols` and one columns.
  unfoldable pub csv_rows : (ℕ → ℕ → fl.Float) → ℕ → ℕ → ℕ → Bytes
  unfolding csv_line
  csv_rows items cols j zero = []
  csv_rows items cols j (suc left) =
      csv_line (λ i. fl.print (items i j)) 0 cols ++ csv_rows items cols (suc j) left

  abbrev pub rows_text : CsvFileh fl → ℕ → ℕ → Option Bytes
  rows_text t zero rows = none
  rows_text t (suc cols) zero = none
  rows_text t (suc cols) (suc rows) =
      some (csv_line t.column_name 0 cols ++ csv_rows t.column_item cols 0 (suc rows))

  -- param_save_csv: the file, or `none` with the result false. `opened`: `fopen` succeeds.
  unfoldable pub param_save_csv : CsvFileh fl → Bool → Option Bytes
  unfolding csv_rows
  param_save_csv t opened = if opened then rows_text t t.col_count t.item_count else none

  abbrev saved_csv : Option Bytes → Params.Save.Saved fl
  saved_csv none = Params.Save.refuses
  saved_csv (some s) = Params.Save.saves s

  -- ParamSave
  unfoldable pub param_save : ParamCtx fl → CsvFileh fl → FileType → Bool → Params.Save.Saved fl
  unfolding param_save_csv
  param_save c t txt opened = Params.Save.param_save_txt fl c opened
  param_save c t csv opened = saved_csv (param_save_csv t opened)

  abbrev parsed_txt : CsvFileh fl → Params.Parse.Outcome fl → Option (Parsed fl)
  parsed_txt t (Params.Parse.returns b c) = some (Parsed.returns b c t)
  parsed_txt t Params.Parse.crashed = none

  -- ParamParse; `none` if param_parse_txt goes wrong.
  unfoldable pub param_parse :
      Bytes → ParamCtx fl → CsvFileh fl → Bytes → FileType → Option Bytes → Option (Parsed fl)
  param_parse junk c t filename txt file =
      parsed_txt t (Params.Parse.param_parse_txt fl junk c filename file)
  param_parse junk c t filename csv file = some (param_parse_csv fl c t filename file)
