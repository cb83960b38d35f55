-- ===== src/Csv/Counts.antt =====
-- How many rows param_parse_csv counts, whatever the lines hold.
use data_commoms.Base.{
  ℕ, zero, suc, ◌+◌, ◌≤◌, ◌≡◌, refl, sym, ap, ◌∙◌, Bool, true, false, ◌&&◌, List, [], ◌∷◌, arith,
  length, leb, if◌then◌else◌, Bool-cases, inl, inr, Option, none, some,
}
use data_commoms.Text.{Bytes, text, goes_on}
use data_commoms.Text.Search.{strtok, strstr, lines, cut_tokens}
use data_commoms.Params.{FloatText, ParamCtx, max_bin}
use data_commoms.Csv.{CsvFileh, put, put_at}
use data_commoms.Csv.Parse.{
  returns, parsed, parse_table, csv_line_size, param_parse_csv, new_headers, header_names,
  header_name, with_point, strip_end, read_cells, read_rows,
}

-- A line with a cell in it.
abbrev has_cells : List Bytes → Bool
has_cells [] = false
has_cells (w ∷ ws) = true

abbrev pub blank_lines : ℕ → List Bytes
blank_lines zero = []
blank_lines (suc n) = (b'\n' ∷ []) ∷ blank_lines n

module _ (fl : FloatText) where
  abbrev pub all_have_cells : Bytes → List Bytes → Bool
  all_have_cells sep [] = true
  all_have_cells sep (l ∷ ls) = has_cells (strtok sep (strip_end l)) && all_have_cells sep ls

  -- A row keeps the number of rows, the number of columns and the separators.
  abbrev Keeps : CsvFileh fl → Bool × CsvFileh fl → Type 0
  Keeps t (ok, t') =
      (t'.item_count ≡ t.item_count) × (t'.col_count ≡ t.col_count) × (t'.column_sep ≡ t.column_sep)

  read_cells-Keeps : (i : ℕ) (ws : List Bytes) (t : CsvFileh fl) → Keeps t (read_cells fl i ws t)
  unfolding read_cells
  read_cells-Keeps i [] t = (refl, refl, refl)
  read_cells-Keeps i (w ∷ ws) t =
      let v = (fl.strtof (with_point t.decimal_sep w)).value in
      let ih =
        read_cells-Keeps (suc i) ws
          (record t { column_item = put_at t.column_item i t.item_count v }) in
      elim (Bool-cases (leb max_bin i)) [
        | inl e ↦ rw (read_cells, e) (refl, refl, refl)
        | inr e ↦ elim (Bool-cases (leb max_bin t.item_count)) [
          | inl f ↦ rw (read_cells, e, f) (refl, refl, refl)
          | inr f ↦ elim (Bool-cases (goes_on (fl.strtof (with_point t.decimal_sep w)).rest)) [
            | inl g ↦ rw (read_cells, e, f, g) (refl, refl, refl)
            | inr g ↦ rw (read_cells, e, f, g) ih
          ]
        ]
      ]

  -- A row with a cell is refused if the columns are full.
  read_cells-full :
      (ws : List Bytes) (t : CsvFileh fl)
      → has_cells ws ≡ true
      → max_bin ≤ t.item_count
      → (read_cells fl 0 ws t).0 ≡ false
  unfolding read_cells
  read_cells-full [] t h full = cc
  read_cells-full (w ∷ ws) t h full =
      let e : leb max_bin t.item_count ≡ true = ground arith in rw e refl

  abbrev Counted : CsvFileh fl → List Bytes → Bool × CsvFileh fl → Type 0
  Counted t ls (ok, t') =
      (ok ≡ true → t'.item_count ≡ t.item_count + length ls)
      × (all_have_cells t.column_sep ls ≡ true → t.item_count ≤ max_bin → t'.item_count ≤ max_bin)

  read_rows-Counted : (ls : List Bytes) (t : CsvFileh fl) → Counted t ls (read_rows fl ls t)
  unfolding read_rows
  read_rows-Counted [] t = (λ _. omega arith, λ _ h. h)
  read_rows-Counted (l ∷ ls) t =
      let ws : List Bytes = strtok t.column_sep (strip_end l) in
      go (read_cells fl 0 ws t) (read_cells-Keeps 0 ws t) (λ a b. read_cells-full ws t a b)
        (λ u. read_rows-Counted ls u)
    where
      go :
          (r : Bool × CsvFileh fl)
          → Keeps t r
          → (has_cells (strtok t.column_sep (strip_end l)) ≡ true
              → max_bin ≤ t.item_count
              → r.0 ≡ false)
          → ((u : CsvFileh fl) → Counted u ls (read_rows fl ls u))
          → Counted t (l ∷ ls) (
              let (ok, t') = r in
              let rest = read_rows fl ls (record t' { item_count = t'.item_count + 1 }) in
              if ok then rest else (false, t'))
      go (false, t') (n, _, _) full rest = (λ h. cc, λ h le. omega arith)
      go (true, t') (n, _, sep) full rest =
          let u : CsvFileh fl = record t' { item_count = t'.item_count + 1 } in
          let (counts, bounded) = rest u in
          (
            λ h. counts h ∙ omega arith,
            λ h le. bounded (rw sep (ground arith)) (elim (Bool-cases (leb max_bin t.item_count)) [
              | inl e ↦ let no = full (ground arith) (ground arith) in cc
              | inr e ↦ ground arith
            ]),
          )

  new_headers-item_count :
      (l : Bytes) (t : CsvFileh fl) → (new_headers fl l t).item_count ≡ t.item_count
  unfolding new_headers
  new_headers-item_count l t = go 0 (strtok t.column_sep l) t
    where
      go :
          (i : ℕ) (ws : List Bytes) (u : CsvFileh fl)
          → (header_names fl i ws u).item_count ≡ u.item_count
      go i [] u = refl
      go i (w ∷ ws) u =
          let ih = go (suc i) ws (record u { column_name = put u.column_name i (header_name w) }) in
          elim (Bool-cases (leb max_bin i)) [
            | inl e ↦ rw (header_names, e) refl
            | inr e ↦ rw (header_names, e) ih
          ]

  -- If param_parse_csv succeeds, each line behind the first one counts as a row, beside those that
  -- the table had.
  pub parse_csv_counts :
      (c c' : ParamCtx fl) (t t' : CsvFileh fl) (filename s l : Bytes) (ls : List Bytes)
      → lines csv_line_size s ≡ l ∷ ls
      → param_parse_csv fl c t filename (some s) ≡ returns true c' t'
      → t'.item_count ≡ t.item_count + length ls
  unfolding param_parse_csv
  parse_csv_counts c c' t t' filename s l ls split = go (strstr filename (text ".csv"))
    where
      on_rows :
          (r : Bool × CsvFileh fl)
          → Counted (new_headers fl l t) ls r
          → parsed fl c r ≡ returns true c' t'
          → t'.item_count ≡ t.item_count + length ls
      on_rows (false, u) k e = cc
      on_rows (true, u) (counts, _) e =
          let same : u ≡ t' = cc in
          let start = new_headers-item_count l t in
          ap (λ v. v.item_count) (sym same) ∙ counts refl ∙ rw start refl

      go :
          (o : Option (Bytes × Bytes))
          → elim o [
            | none ↦ returns false c t
            | some at ↦ parse_table fl c t (lines csv_line_size s)
          ]
            ≡ returns true c' t'
          → t'.item_count ≡ t.item_count + length ls
      go none e = cc
      go (some at) e =
          on_rows (read_rows fl ls (new_headers fl l t)) (read_rows-Counted ls (new_headers fl l t))
            (rw split at e)

  -- Lines that all have a cell do not take the table past the end of its columns.
  pub read_rows-bounded :
      (ls : List Bytes) (t : CsvFileh fl)
      → all_have_cells t.column_sep ls ≡ true
      → t.item_count ≤ max_bin
      → (read_rows fl ls t).1.item_count ≤ max_bin
  read_rows-bounded ls t h le = (read_rows-Counted ls t).1 h le

  -- Blank lines count as rows, with no check: the number of rows passes any bound.
  pub read_rows-blank :
      (n : ℕ) (t : CsvFileh fl)
      → read_rows fl (blank_lines n) t ≡ (true, record t { item_count = t.item_count + n })
  unfolding read_rows strip_end strtok cut_tokens
  read_rows-blank zero t = ap (λ k. (true, record t { item_count = k })) (omega arith)
  read_rows-blank (suc n) t =
      read_rows-blank n (record t { item_count = t.item_count + 1 })
      ∙ ap (λ k. (true, record t { item_count = k })) (omega arith)
