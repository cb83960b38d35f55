-- ===== src/Csv/Filled.antt =====
-- The rows of a CSV file one after the other, and the table that they fill.
use data_commoms.Base.{
  ℕ, zero, suc, ◌+◌, ◌≤◌, ◌<◌, ◌≡◌, refl, ap, ◌∙◌, true, List, arith, length, ◌==◌, Bool-cases, inl,
  inr,
}
use data_commoms.Text.{Bytes, text}
use data_commoms.Text.Search.{lines, read_lines}
use data_commoms.Params.{FloatText, max_bin}
use data_commoms.Csv.{CsvFileh, first_byte, write_row}
use data_commoms.Csv.Parse.{read_rows, csv_line_size}
use data_commoms.Csv.Save.{csv_line, csv_rows}
use data_commoms.Csv.Rows.{write_row-other, write_row-here}
use data_commoms.Csv.Lines.{AreCells, lines-csv_line}
use data_commoms.Csv.Cells.{
  is_read, cell_values, length-cell_values, get_or-cell_values, read_cells-line,
}

module _ (fl : FloatText) where
  -- The table with the rows from `j` on, `left` of them, over others.
  abbrev pub put_rows : (ℕ → ℕ → fl.Float) → ℕ → ℕ → ℕ → (ℕ → ℕ → fl.Float) → ℕ → ℕ → fl.Float
  put_rows items cols j zero old = old
  put_rows items cols j (suc left) old =
      put_rows items cols (suc j) left
        (write_row fl 0 j (cell_values fl (λ i. fl.print (items i j)) 0 cols) old)

  put_rows-before :
      (items : ℕ → ℕ → fl.Float) (cols j left : ℕ) (old : ℕ → ℕ → fl.Float) (k l : ℕ)
      → l < j
      → put_rows items cols j left old k l ≡ old k l
  put_rows-before items cols j zero old k l h = refl
  put_rows-before items cols j (suc left) old k l h =
      let row : List fl.Float = cell_values fl (λ i. fl.print (items i j)) 0 cols in
      put_rows-before items cols (suc j) left (write_row fl 0 j row old) k l (omega arith)
      ∙ write_row-other fl 0 j row old k l (ground arith)

  pub put_rows-here :
      (items : ℕ → ℕ → fl.Float) (cols j left : ℕ) (old : ℕ → ℕ → fl.Float) (k l : ℕ)
      → k ≤ cols
      → j ≤ l
      → l < j + left
      → put_rows items cols j left old k l ≡ (fl.strtof (fl.print (items k l))).value
  put_rows-here items cols j zero old k l c h le = absurd (omega arith)
  put_rows-here items cols j (suc left) old k l c h le = elim (Bool-cases (l == j)) [
    | inl e ↦
        let f : ℕ → Bytes = λ i. fl.print (items i j) in
        let row : List fl.Float = cell_values fl f 0 cols in
        let same : l ≡ j = ground arith in
        let wide = length-cell_values fl f 0 cols in
        rw same (
          put_rows-before items cols (suc j) left (write_row fl 0 j row old) k j (omega arith)
          ∙ ap (λ c. write_row fl 0 j row old c j) (omega arith)
          ∙ write_row-here fl 0 j row old k fl.zero_float (omega arith)
          ∙ get_or-cell_values fl f 0 cols k fl.zero_float c
          ∙ ap (λ c. (fl.strtof (f c)).value) (omega arith))
    | inr e ↦
        put_rows-here items cols (suc j) left
          (write_row fl 0 j (cell_values fl (λ i. fl.print (items i j)) 0 cols) old) k l c
          (ground arith) (omega arith)
  ]

  -- What the file can hold: the lines of these rows.
  abbrev pub RowsFit : (ℕ → ℕ → fl.Float) → ℕ → ℕ → ℕ → Type 0
  RowsFit items cols j left =
      (l : ℕ)
      → j ≤ l
      → l < j + left
      → (length (csv_line (λ i. fl.print (items i l)) 0 cols) < csv_line_size)
        × ((k : ℕ) → k ≤ cols → is_read fl (fl.print (items k l)) ≡ true)

  pub read_rows-rows :
      (items : ℕ → ℕ → fl.Float) (cols j left : ℕ) (t : CsvFileh fl)
      → RowsFit items cols j left
      → t.column_sep ≡ text ","
      → (first_byte t.decimal_sep == b'.') ≡ true
      → cols < max_bin
      → t.item_count ≡ j
      → j + left ≤ max_bin
      → read_rows fl (lines csv_line_size (csv_rows fl items cols j left)) t ≡ (
        true,
        record t { column_item = put_rows items cols j left t.column_item; item_count = j + left },
      )
  unfolding read_rows csv_rows lines read_lines
  read_rows-rows items cols j zero t fit sep dot le at small =
      ap (λ n. (true, record t { item_count = n })) (omega arith)
  read_rows-rows items cols j (suc left) t fit sep dot le at small =
      let f : ℕ → Bytes = λ i. fl.print (items i j) in
      let (short, read) = fit j (omega arith) (omega arith) in
      let a : AreCells f 0 cols = λ k x y. (let n = read k (omega arith) in ground arith) in
      let row = read_cells-line fl f cols t read sep dot le (omega arith) in
      let rest =
        read_rows-rows items cols (suc j) left
          (record t {
            column_item = write_row fl 0 j (cell_values fl f 0 cols) t.column_item;
            item_count = suc j;
          })
          (λ l x y. fit l (omega arith) (omega arith)) sep dot le refl (omega arith) in
      let next : t.item_count + 1 ≡ suc j = omega arith in
      let others : List Bytes = lines csv_line_size (csv_rows fl items cols (suc j) left) in
      rw (lines-csv_line f 0 cols (csv_rows fl items cols (suc j) left) a short, row)
        (ap
            (λ n. read_rows fl others (record t {
              column_item = write_row fl 0 n (cell_values fl f 0 cols) t.column_item;
              item_count = t.item_count + 1;
            }))
            at
          ∙ ap
              (λ n. read_rows fl others (record t {
                column_item = write_row fl 0 j (cell_values fl f 0 cols) t.column_item;
                item_count = n;
              }))
              next
          ∙ rest
          ∙ ap
              (λ n. (
                true,
                record t {
                  column_item = put_rows items cols j (suc left) t.column_item;
                  item_count = n;
                },
              ))
              (omega arith))
