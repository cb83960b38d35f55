-- ===== src/Csv/Tests.antt =====
-- A table after src/file_main.c, with whole numbers for `float`.
use data_commoms.Base.{
  ℕ, zero, suc, ◌+◌, ◌<◌, ◌≤◌, ◌≡◌, refl, true, false, some, List, [], ◌∷◌, ◌++◌, arith, map,
  get_or,
}
use data_commoms.Text.{Bytes, text, strtoull}
use data_commoms.Text.Decimal.{dec}
use data_commoms.Text.Search.{strstr, is_some, tolower, lines, strtok}
use data_commoms.Params.{FloatText, ParamCtx, no_error, max_bin}
use data_commoms.Csv.{CsvFileh, add_row, got, get_csv_data, put_at}
use data_commoms.Csv.Parse.{
  returns, param_parse_csv, read_rows, csv_line_size, new_headers, strip_end,
}
use data_commoms.Csv.Save.{param_save_csv, csv_line}
use data_commoms.Csv.AddRow.{get-add_row}
use data_commoms.Csv.Lines.{is_column_name}
use data_commoms.Csv.Cells.{is_read}
use data_commoms.Csv.Filled.{RowsFit}
use data_commoms.Csv.RoundTrip.{Fits, save_parse_csv}
use data_commoms.Csv.Counts.{parse_csv_counts, read_rows-bounded, blank_lines, read_rows-blank}

abbrev wholes : FloatText
wholes = record { Float = ℕ; zero_float = 0; strtof = strtoull; print = dec }

abbrev two_names : ℕ → Bytes
two_names zero = text "time"
two_names (suc k) = text "speed"

abbrev two_rows : ℕ → ℕ → ℕ
two_rows zero j = j + 1
two_rows (suc k) j = j + 10

abbrev a_table : CsvFileh wholes
a_table = record {
  column_name = two_names;
  column_item = two_rows;
  item_count = 2;
  col_count = 2;
  column_sep = text ";";
  decimal_sep = text ".";
}

abbrev fresh_table : CsvFileh wholes
fresh_table = record {
  column_name = λ i. [];
  column_item = λ i j. 0;
  item_count = 0;
  col_count = 0;
  column_sep = text ",";
  decimal_sep = text ".";
}

abbrev a_context : ParamCtx wholes
a_context = record { params = []; param_error = no_error }

a_table-Fits : Fits wholes a_table 1 2
unfolding csv_line dec strtoull tolower
a_table-Fits = (refl, refl, omega arith, omega arith, omega arith, names, omega arith, rows)
  where
    names : (k : ℕ) → k ≤ 1 → is_column_name (two_names k) ≡ true
    names zero h = refl
    names (suc k) h = refl

    first : (k : ℕ) → k ≤ 1 → is_read wholes (dec (two_rows k 0)) ≡ true
    first zero h = refl
    first (suc k) h = refl

    second : (k : ℕ) → k ≤ 1 → is_read wholes (dec (two_rows k 1)) ≡ true
    second zero h = refl
    second (suc k) h = refl

    rows : RowsFit wholes two_rows 1 0 2
    rows zero a b = (omega arith, first)
    rows (suc zero) a b = (omega arith, second)
    rows (suc (suc l)) a b = absurd (omega arith)

save_parse_csv_example :
    (s : Bytes) × (r' : CsvFileh wholes) × (param_save_csv wholes a_table true ≡ some s)
    × (param_parse_csv wholes a_context fresh_table (text "out.csv") (some s)
        ≡ returns true a_context r')
    × (r'.col_count ≡ 2)
    × (r'.item_count ≡ 2)
    × ((k : ℕ) → k < 2 → r'.column_name k ≡ two_names k)
    × ((k l : ℕ) → k < 2 → l < 2 → r'.column_item k l ≡ (strtoull (dec (two_rows k l))).value)
unfolding strstr
save_parse_csv_example =
    save_parse_csv wholes a_context a_table fresh_table 1 2 (text "out.csv") a_table-Fits
      (refl, refl, refl) refl

-- The next row.
abbrev longer_table : CsvFileh wholes
longer_table = record a_table {
  column_item = put_at (put_at two_rows 0 2 30) 1 2 40;
  item_count = 3;
}

abbrev speeds : List ℕ
speeds = 10 ∷ 11 ∷ []

get-add_row_example :
    (i : ℕ) × (i < 2)
    × (is_some (strstr (two_names i) (map tolower (text "Speed"))) ≡ true)
    × ((k : ℕ) → k < i → is_some (strstr (two_names k) (map tolower (text "Speed"))) ≡ false)
    × (get_csv_data wholes longer_table (text "Speed") 10
        ≡ got (speeds ++ get_or (30 ∷ 40 ∷ []) i 0 ∷ []))
unfolding add_row get_csv_data strstr tolower
get-add_row_example =
    get-add_row wholes a_table longer_table (30 ∷ 40 ∷ []) (text "Speed") 10 speeds 0 refl refl
      (omega arith)

abbrev csv_file : Bytes
csv_file = text "Time,Speed\n1,10\n\n2,11\n"

abbrev read_back : CsvFileh wholes
read_back =
    (read_rows wholes (text "1,10\n" ∷ text "\n" ∷ text "2,11\n" ∷ [])
      (new_headers wholes (text "Time,Speed\n") fresh_table)).1

csv_run :
    param_parse_csv wholes a_context fresh_table (text "a.csv") (some csv_file)
    ≡ returns true a_context read_back
unfolding param_parse_csv strstr lines read_rows new_headers strtok strtoull
csv_run = refl

csv_lines :
    lines csv_line_size csv_file
    ≡ text "Time,Speed\n" ∷ text "1,10\n" ∷ text "\n" ∷ text "2,11\n" ∷ []
unfolding lines
csv_lines = refl

parse_csv_counts_example : read_back.item_count ≡ 0 + 3
parse_csv_counts_example =
    parse_csv_counts wholes a_context a_context fresh_table read_back (text "a.csv") csv_file
      (text "Time,Speed\n") (text "1,10\n" ∷ text "\n" ∷ text "2,11\n" ∷ []) csv_lines csv_run

read_rows-bounded_run :
    (read_rows wholes (text "1,10\n" ∷ text "2\n" ∷ []) fresh_table).1.item_count ≤ max_bin
unfolding strtok strip_end
read_rows-bounded_run =
    read_rows-bounded wholes (text "1,10\n" ∷ text "2\n" ∷ []) fresh_table refl (omega arith)

read_rows-blank_example :
    read_rows wholes (blank_lines 3000) fresh_table
    ≡ (true, record fresh_table { item_count = 3000 })
read_rows-blank_example = read_rows-blank wholes 3000 fresh_table
