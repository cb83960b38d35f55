-- ===== src/Csv/RoundTrip.antt =====
-- param_parse_csv on a file that param_save_csv wrote.
use data_commoms.Base.{
  ℕ, zero, suc, ◌≤◌, ◌<◌, ◌≡◌, refl, sym, ap, ◌∙◌, true, false, Option, none, some, List, ◌++◌,
  arith, length, ◌==◌,
}
use data_commoms.Text.{Bytes, text}
use data_commoms.Text.Search.{strstr, lines, is_some}
use data_commoms.Params.{FloatText, ParamCtx, no_error, max_bin}
use data_commoms.Csv.{CsvFileh, first_byte}
use data_commoms.Csv.Parse.{returns, parsed, parse_table, csv_line_size, read_rows, param_parse_csv}
use data_commoms.Csv.Save.{csv_line, csv_rows, rows_text, param_save_csv}
use data_commoms.Csv.Lines.{is_column_name, AreCells, lines-csv_line}
use data_commoms.Csv.Headers.{put_names, put_names-here, new_headers-line}
use data_commoms.Csv.Filled.{RowsFit, put_rows, put_rows-here, read_rows-rows}

module _ (fl : FloatText) where
  param_parse_csv-opened :
      (c : ParamCtx fl) (r : CsvFileh fl) (filename s : Bytes)
      → is_some (strstr filename (text ".csv")) ≡ true
      → param_parse_csv fl c r filename (some s) ≡ parse_table fl c r (lines csv_line_size s)
  unfolding param_parse_csv
  param_parse_csv-opened c r filename s = go (strstr filename (text ".csv"))
    where
      go :
          (o : Option (Bytes × Bytes))
          → is_some o ≡ true
          → elim o [
            | none ↦ returns false c r
            | some at ↦ parse_table fl c r (lines csv_line_size s)
          ]
            ≡ parse_table fl c r (lines csv_line_size s)
      go none h = cc
      go (some at) h = refl

  -- The table that is read: the names and the items of `t` over those of `r`.
  abbrev read_table : CsvFileh fl → CsvFileh fl → ℕ → ℕ → CsvFileh fl
  read_table t r cols rows = record r {
    column_name = put_names t.column_name 0 cols r.column_name;
    column_item = put_rows fl t.column_item cols 0 rows r.column_item;
    item_count = rows;
    col_count = suc cols;
  }

  -- The table has `cols` and one columns and `rows` rows that fit into a file.
  abbrev pub Fits : CsvFileh fl → ℕ → ℕ → Type 0
  Fits t cols rows =
      (t.col_count ≡ suc cols)
      × (t.item_count ≡ rows)
      × (0 < rows)
      × (cols < max_bin)
      × (rows ≤ max_bin)
      × ((k : ℕ) → k ≤ cols → is_column_name (t.column_name k) ≡ true)
      × (length (csv_line t.column_name 0 cols) < csv_line_size)
      × RowsFit fl t.column_item cols 0 rows

  -- A fresh table that takes the file as it is written: commas, and points in the numbers.
  abbrev pub Fresh : CsvFileh fl → Type 0
  Fresh r =
      (r.column_sep ≡ text ",") × ((first_byte r.decimal_sep == b'.') ≡ true) × (r.item_count ≡ 0)

  abbrev file_text : CsvFileh fl → ℕ → ℕ → Bytes
  file_text t cols rows = csv_line t.column_name 0 cols ++ csv_rows fl t.column_item cols 0 rows

  param_save_csv-text :
      (t : CsvFileh fl) (cols rows : ℕ)
      → t.col_count ≡ suc cols
      → t.item_count ≡ rows
      → 0 < rows
      → param_save_csv fl t true ≡ some (file_text t cols rows)
  unfolding param_save_csv
  param_save_csv-text t cols zero c n h = absurd (omega arith)
  param_save_csv-text t cols (suc rows) c n h =
      ap (λ k. rows_text fl t k t.item_count) c ∙ ap (λ k. rows_text fl t (suc cols) k) n

  parse_table-text :
      (c : ParamCtx fl) (t r : CsvFileh fl) (cols rows : ℕ)
      → Fits t cols rows
      → Fresh r
      → parse_table fl c r (lines csv_line_size (file_text t cols rows))
        ≡ returns true (record c { param_error = no_error }) (read_table t r cols rows)
  parse_table-text c t r cols rows (_, _, _, wide, tall, names, short, fit) (sep, dot, start) =
      let a : AreCells t.column_name 0 cols =
        λ k x y. (let n = names k (omega arith) in ground arith) in
      let others : List Bytes = lines csv_line_size (csv_rows fl t.column_item cols 0 rows) in
      let headed = new_headers-line fl t.column_name cols r names wide sep in
      let read =
        read_rows-rows fl t.column_item cols 0 rows
          (record r {
            column_name = put_names t.column_name 0 cols r.column_name;
            col_count = suc cols;
          })
          fit sep dot wide start (omega arith) in
      rw (lines-csv_line t.column_name 0 cols (csv_rows fl t.column_item cols 0 rows) a short) (
        ap (λ u. parsed fl c (read_rows fl others u)) headed
        ∙ ap (parsed fl c) read
        ∙ ap
            (λ n.
              returns true (record c { param_error = no_error })
                (record (read_table t r cols rows) { item_count = n }))
            (omega arith))

  -- What param_save_csv writes, param_parse_csv reads into a fresh table with commas and points: it
  -- succeeds, and the table has the saved columns and rows, with their names, and each number as
  -- strtof reads what is printed for it; provided that there are 1 to 2048 columns and rows, that
  -- the names are in lower case, not empty, of 254 bytes at most and with no space, comma or line
  -- end, that each number is printed as one cell that strtof reads to its end, that each line fits
  -- into the buffer, and that the name of the file has `.csv` in it.
  pub save_parse_csv :
      (c : ParamCtx fl) (t r : CsvFileh fl) (cols rows : ℕ) (filename : Bytes)
      → Fits t cols rows
      → Fresh r
      → is_some (strstr filename (text ".csv")) ≡ true
      → (s : Bytes) × (r' : CsvFileh fl) × (param_save_csv fl t true ≡ some s)
        × (param_parse_csv fl c r filename (some s)
            ≡ returns true (record c { param_error = no_error }) r')
        × (r'.col_count ≡ t.col_count)
        × (r'.item_count ≡ t.item_count)
        × ((k : ℕ) → k < t.col_count → r'.column_name k ≡ t.column_name k)
        × ((k l : ℕ)
            → k < t.col_count
            → l < t.item_count
            → r'.column_item k l ≡ (fl.strtof (fl.print (t.column_item k l))).value)
  save_parse_csv c t r cols rows filename fits fresh ext =
      let (wide, tall, some_row, _, _, _, _, _) = fits in
      (
        file_text t cols rows,
        read_table t r cols rows,
        param_save_csv-text t cols rows wide tall some_row,
        param_parse_csv-opened c r filename (file_text t cols rows) ext
            ∙ parse_table-text c t r cols rows fits fresh,
        sym wide,
        sym tall,
        λ k h. put_names-here t.column_name 0 cols r.column_name k (omega arith) (omega arith),
        λ k l h h'.
            put_rows-here fl t.column_item cols 0 rows r.column_item k l (omega arith) (omega arith)
              (omega arith),
      )
