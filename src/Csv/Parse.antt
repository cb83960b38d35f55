-- ===== src/Csv/Parse.antt =====
-- csv_new_headers and param_parse_csv of include/file_parser.h.
use data_commoms.Base.{
  ℕ, suc, ◌+◌, Bool, true, false, ◌||◌, List, [], ◌∷◌, ◌++◌, map, take, ◌==◌, leb, if◌then◌else◌,
  Option, none, some,
}
use data_commoms.Text.{Bytes, text, strchr, goes_on}
use data_commoms.Text.Search.{tolower, strstr, strtok, lines}
use data_commoms.Params.{FloatText, no_error, invalid_number, ParamCtx, max_bin}
use data_commoms.Csv.{CsvFileh, first_byte, put, put_at}

-- A string cut at its first space, or else at its first line end.
abbrev pub cut_at : Bytes × Option Bytes → Bytes → Bytes
cut_at (a, some rest) s = a
cut_at (a, none) s = (strchr s b'\n').0

-- The name that a token of the first line gives: 255 bytes of it at most, in lower case.
unfoldable pub header_name : Bytes → Bytes
unfolding tolower
header_name token = let s = take 255 (map tolower token) in cut_at (strchr s b' ') s

-- The line without a line end: `\n`, `\r`, and `\r` before one of them.
unfoldable pub strip_end : Bytes → Bytes
strip_end [] = []
strip_end (c ∷ []) = if c == b'\n' || c == b'\r' then [] else c ∷ []
strip_end (c ∷ d ∷ []) =
    if d == b'\n' || d == b'\r' then (if c == b'\r' then [] else c ∷ []) else c ∷ d ∷ []
strip_end (c ∷ d ∷ e ∷ s) = c ∷ strip_end (d ∷ e ∷ s)

-- The first decimal separator becomes a point, unless it starts with one.
abbrev pub pointed : Bytes → Option (Bytes × Bytes) → Bytes
pointed token none = token
pointed token (some (before, [])) = token
pointed token (some (before, c ∷ s)) = before ++ b'.' ∷ s

unfoldable pub with_point : Bytes → Bytes → Bytes
with_point sep token = if first_byte sep == b'.' then token else pointed token (strstr token sep)

-- sizeof line
abbrev pub csv_line_size : ℕ
csv_line_size = 2048

module _ (fl : FloatText) where
  -- The `while` over the tokens of the first line, from the column `idx` on.
  unfoldable pub header_names : ℕ → List Bytes → CsvFileh fl → CsvFileh fl
  unfolding header_name
  header_names idx [] t = record t { col_count = idx }
  header_names idx (w ∷ ws) t =
      let rest =
        header_names (suc idx) ws
          (record t { column_name = put t.column_name idx (header_name w) }) in
      if leb max_bin idx then record t { col_count = idx } else rest

  -- csv_new_headers. What it does before looks at the last byte of the buffer, behind the string.
  unfoldable pub new_headers : Bytes → CsvFileh fl → CsvFileh fl
  unfolding header_names
  new_headers line t = header_names 0 (strtok t.column_sep line) t

  -- The `while` over the tokens of a line, from the column `cols` on: the table, and whether the
  -- function returns false there.
  unfoldable pub read_cells : ℕ → List Bytes → CsvFileh fl → Bool × CsvFileh fl
  unfolding with_point
  read_cells cols [] t = (true, t)
  read_cells cols (w ∷ ws) t =
      let r = fl.strtof (with_point t.decimal_sep w) in
      let rest =
        read_cells (suc cols) ws
          (record t { column_item = put_at t.column_item cols t.item_count r.value }) in
      if leb max_bin cols
      then (true, t)
      else if leb max_bin t.item_count
      then (false, t)
      else if goes_on r.rest
      then (false, t)
      else rest

  -- The `while` over the lines behind the first one.
  unfoldable pub read_rows : List Bytes → CsvFileh fl → Bool × CsvFileh fl
  unfolding read_cells strip_end
  read_rows [] t = (true, t)
  read_rows (l ∷ ls) t =
      let (ok, t') = read_cells 0 (strtok t.column_sep (strip_end l)) t in
      let rest = read_rows ls (record t' { item_count = t'.item_count + 1 }) in
      if ok then rest else (false, t')

  -- How param_parse_csv ends: with its result, the context and the table; or it reads a line that
  -- was never written, if the file is empty.
  pub data Parsed : Type 0 where
    returns : Bool → ParamCtx fl → CsvFileh fl → Parsed
    no_line : Parsed

  abbrev pub parsed : ParamCtx fl → Bool × CsvFileh fl → Parsed
  parsed c (true, t) = returns true (record c { param_error = no_error }) t
  parsed c (false, t) = returns false (record c { param_error = invalid_number }) t

  abbrev pub parse_table : ParamCtx fl → CsvFileh fl → List Bytes → Parsed
  parse_table c t [] = no_line
  parse_table c t (l ∷ ls) = parsed c (read_rows ls (new_headers l t))

  -- param_parse_csv. The file is `none` if it cannot be opened.
  unfoldable pub param_parse_csv : ParamCtx fl → CsvFileh fl → Bytes → Option Bytes → Parsed
  unfolding read_rows new_headers
  param_parse_csv c t filename file = elim (strstr filename (text ".csv")) [
    | none ↦ returns false c t
    | some at ↦ elim file [
      | none ↦ returns false c t
      | some s ↦ parse_table c t (lines csv_line_size s)
    ]
  ]
