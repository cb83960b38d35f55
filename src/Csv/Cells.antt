-- ===== src/Csv/Cells.antt =====
-- The rows of a CSV file as param_save_csv writes them, read by param_parse_csv.
use mathlib.Core.List.{append-nil}
use data_commoms.Base.{
  ℕ, zero, suc, ◌+◌, ◌≤◌, ◌<◌, ◌≡◌, refl, ap, ◌∙◌, Bool, true, false, not, ◌&&◌, List, [], ◌∷◌,
  arith, length, get_or, ◌==◌, leb,
}
use data_commoms.Text.{Bytes, text, goes_on}
use data_commoms.Text.Search.{strtok}
use data_commoms.Params.{FloatText, max_bin}
use data_commoms.Csv.{CsvFileh, first_byte, put_at, write_row}
use data_commoms.Csv.Parse.{strip_end, with_point, read_cells}
use data_commoms.Csv.Save.{csv_line}
use data_commoms.Csv.Lines.{
  is_cell, AreCells, first_cell, later_cells, strtok-cells_text, strip_end-csv_line,
}

with_point-none : (sep w : Bytes) → (first_byte sep == b'.') ≡ true → with_point sep w ≡ w
unfolding with_point
with_point-none sep w h = rw h refl

module _ (fl : FloatText) where
  -- The text is read as a number to its end.
  abbrev pub is_read : Bytes → Bool
  is_read w = is_cell w && not (goes_on (fl.strtof w).rest)

  -- What `strtof` makes of the cells `i` to `i + left`.
  abbrev pub cell_values : (ℕ → Bytes) → ℕ → ℕ → List fl.Float
  cell_values f i zero = (fl.strtof (f i)).value ∷ []
  cell_values f i (suc left) = (fl.strtof (f i)).value ∷ cell_values f (suc i) left

  pub length-cell_values : (f : ℕ → Bytes) (i left : ℕ) → length (cell_values f i left) ≡ suc left
  length-cell_values f i zero = refl
  length-cell_values f i (suc left) = ap suc (length-cell_values f (suc i) left)

  pub get_or-cell_values :
      (f : ℕ → Bytes) (i left k : ℕ) (d : fl.Float)
      → k ≤ left
      → get_or (cell_values f i left) k d ≡ (fl.strtof (f (i + k))).value
  get_or-cell_values f i zero k d h =
      let none : k ≡ 0 = omega arith in rw none (ap (λ c. (fl.strtof (f c)).value) (omega arith))
  get_or-cell_values f i (suc left) zero d h = ap (λ c. (fl.strtof (f c)).value) (omega arith)
  get_or-cell_values f i (suc left) (suc k) d h =
      get_or-cell_values f (suc i) left k d (omega arith)
      ∙ ap (λ c. (fl.strtof (f c)).value) (omega arith)

  read_cells-word :
      (w : Bytes) (ws : List Bytes) (i : ℕ) (t : CsvFileh fl)
      → is_read w ≡ true
      → (first_byte t.decimal_sep == b'.') ≡ true
      → i < max_bin
      → t.item_count < max_bin
      → read_cells fl i (w ∷ ws) t
        ≡ read_cells fl
            (suc i)
            ws
            (record t { column_item = put_at t.column_item i t.item_count (fl.strtof w).value })
  unfolding read_cells
  read_cells-word w ws i t h dot cols rows =
      let room : leb max_bin i ≡ false = ground arith in
      let free : leb max_bin t.item_count ≡ false = ground arith in
      let stops : goes_on (fl.strtof w).rest ≡ false = ground arith in
      rw (room, free, with_point-none t.decimal_sep w dot, stops) refl

  read_cells-cells :
      (f : ℕ → Bytes) (i left : ℕ) (t : CsvFileh fl)
      → ((k : ℕ) → i ≤ k → k ≤ i + left → is_read (f k) ≡ true)
      → (first_byte t.decimal_sep == b'.') ≡ true
      → i + left < max_bin
      → t.item_count < max_bin
      → read_cells fl i (first_cell [] f i left ∷ later_cells [] f i left) t ≡ (
        true,
        record t { column_item = write_row fl i t.item_count (cell_values f i left) t.column_item },
      )
  unfolding read_cells write_row
  read_cells-cells f i zero t h dot cols rows =
      ap (λ w. read_cells fl i (w ∷ []) t) (append-nil (f i))
      ∙ read_cells-word (f i) [] i t (h i (omega arith) (omega arith)) dot (omega arith) rows
  read_cells-cells f i (suc left) t h dot cols rows =
      read_cells-word (f i) (later_cells [] f i (suc left)) i t (h i (omega arith) (omega arith))
        dot (omega arith) rows
      ∙ read_cells-cells f (suc i) left
          (record t { column_item = put_at t.column_item i t.item_count (fl.strtof (f i)).value })
          (λ k a b. h k (omega arith) (omega arith)) dot (omega arith) rows

  -- The line of a row, with the cells 0 to `cols`.
  pub read_cells-line :
      (f : ℕ → Bytes) (cols : ℕ) (t : CsvFileh fl)
      → ((k : ℕ) → k ≤ cols → is_read (f k) ≡ true)
      → t.column_sep ≡ text ","
      → (first_byte t.decimal_sep == b'.') ≡ true
      → cols < max_bin
      → t.item_count < max_bin
      → read_cells fl 0 (strtok t.column_sep (strip_end (csv_line f 0 cols))) t ≡ (
        true,
        record t { column_item = write_row fl 0 t.item_count (cell_values f 0 cols) t.column_item },
      )
  read_cells-line f cols t h sep dot le rows =
      let a : AreCells f 0 cols = λ k x y. (let n = h k (omega arith) in ground arith) in
      let cells : List Bytes = first_cell [] f 0 cols ∷ later_cells [] f 0 cols in
      let split : strtok t.column_sep (strip_end (csv_line f 0 cols)) ≡ cells =
        rw (sep, strip_end-csv_line f 0 cols a) (strtok-cells_text [] f 0 cols refl a) in
      ap (λ ws. read_cells fl 0 ws t) split
      ∙ read_cells-cells f 0 cols t (λ k x y. h k (omega arith)) dot (omega arith) rows
