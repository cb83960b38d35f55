-- ===== src/Csv.antt =====
-- include/file_parser.h: the table of a CSV file (csv_fileh_t), and InitCSV, AddRowCSV, GetCSVData.
-- The arrays of the table are functions of the index; an index past their end is a fault.
pub mod Parse
pub mod Save
pub mod Rows
pub mod AddRow
pub mod Lines
pub mod Headers
pub mod Cells
pub mod Filled
pub mod RoundTrip
pub mod Counts
mod Tests
use data_commoms.Base.{
  ℕ, zero, suc, ◌+◌, Bool, true, false, ◌&&◌, List, [], ◌∷◌, map, length, ◌==◌, leb, ltb, not,
  if◌then◌else◌, Option, none, some,
}
use data_commoms.Text.{Bytes}
use data_commoms.Text.Search.{tolower, strstr, is_some}
use data_commoms.Params.{FloatText, max_bin}

-- `csv_fileh_t`: `column_name i` and `column_item i j` for the columns `i` and the rows `j` below
-- MAX_BIN.
pub record CsvFileh (fl : FloatText) : Type 0 where
  pub column_name : ℕ → Bytes
  pub column_item : ℕ → ℕ → fl.Float
  pub item_count : ℕ
  pub col_count : ℕ
  pub column_sep : Bytes
  pub decimal_sep : Bytes

-- `*s`, which is 0 at the end of a string.
abbrev pub first_byte : Bytes → ℕ
first_byte [] = 0
first_byte (c ∷ s) = c

-- One entry of an array, and of an array of arrays.
abbrev pub put {ℓ} : {A : Type ℓ} → (ℕ → A) → ℕ → A → ℕ → A
put f i x k = if k == i then x else f k

abbrev pub put_at {ℓ} : {A : Type ℓ} → (ℕ → ℕ → A) → ℕ → ℕ → A → ℕ → ℕ → A
put_at f i j x k l = if k == i && l == j then x else f k l

-- The first of `left` columns from `i` on whose name contains the text.
unfoldable pub find_column : (ℕ → Bytes) → Bytes → ℕ → ℕ → Option ℕ
find_column names low i zero = none
find_column names low i (suc left) =
    let next = find_column names low (suc i) left in
    if is_some (strstr (names i) low) then some i else next

module _ (fl : FloatText) where
  -- InitCSV: its result and the table.
  unfoldable pub init_csv : Bytes → Bytes → CsvFileh fl → Bool × CsvFileh fl
  init_csv dec_sep col_sep t = if first_byte dec_sep == first_byte col_sep then (false, t) else (
    true,
    record t { item_count = 0; col_count = 0; decimal_sep = dec_sep; column_sep = col_sep },
  )

  -- The `for` in AddRowCSV, from the column `i` on, at the row `n`.
  unfoldable pub write_row : ℕ → ℕ → List fl.Float → (ℕ → ℕ → fl.Float) → ℕ → ℕ → fl.Float
  write_row i n [] items = items
  write_row i n (x ∷ row) items = write_row (suc i) n row (put_at items i n x)

  -- What AddRowCSV does: false; true with the new table; or a write past the end of a column.
  pub data Added : Type 0 where
    not_added : Added
    added : CsvFileh fl → Added
    overrun : Added

  abbrev pub no_room : List fl.Float → ℕ → Bool
  no_room [] n = false
  no_room (x ∷ row) n = leb max_bin n

  unfoldable pub add_row : CsvFileh fl → List fl.Float → Added
  unfolding write_row
  add_row t row =
      if not (length row == t.col_count)
      then not_added
      else if no_room row t.item_count
      then overrun
      else added (record t {
        column_item = write_row 0 t.item_count row t.column_item;
        item_count = t.item_count + 1;
      })

  -- The items of the rows from `j` on, `left` of them.
  unfoldable pub items_from : (ℕ → fl.Float) → ℕ → ℕ → List fl.Float
  items_from item j zero = []
  items_from item j (suc left) = item j ∷ items_from item (suc j) left

  -- What GetCSVData does: -1 if there is no room; 0 if there is no such column; the items, and
  -- their number as the result; or a copy of the name past the end of `low_name`.
  pub data Got : Type 0 where
    too_small not_found name_overrun : Got
    got : List fl.Float → Got

  unfoldable pub get_csv_data : CsvFileh fl → Bytes → ℕ → Got
  unfolding find_column items_from
  get_csv_data t name data_len =
      if leb 256 (length name)
      then name_overrun
      else if ltb data_len t.item_count
      then too_small
      else elim (find_column t.column_name (map tolower name) 0 t.col_count) [
        | none ↦ not_found
        | some i ↦ got (items_from (t.column_item i) 0 t.item_count)
      ]
