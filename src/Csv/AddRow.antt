-- ===== src/Csv/AddRow.antt =====
-- What GetCSVData gives after AddRowCSV.
use data_commoms.Base.{
  ℕ, suc, ◌+◌, ◌<◌, ◌≡◌, refl, sym, ap, ◌∙◌, true, false, Option, none, some, List, [], ◌∷◌, ◌++◌,
  arith, map, length, get_or, ◌==◌, leb, ltb, Bool-cases, inl, inr,
}
use data_commoms.Text.{Bytes}
use data_commoms.Text.Search.{tolower, strstr, is_some}
use data_commoms.Params.{FloatText}
use data_commoms.Csv.{
  CsvFileh, write_row, not_added, added, overrun, no_room, add_row, find_column, items_from, Got,
  too_small, not_found, name_overrun, got, get_csv_data,
}
use data_commoms.Csv.Rows.{
  write_row-other, write_row-here, items_from-ext, items_from-snoc, find_column-Column,
}

module _ (fl : FloatText) where
  -- The table after a row that was added.
  abbrev with_row : CsvFileh fl → List fl.Float → CsvFileh fl
  with_row t row = record t {
    column_item = write_row fl 0 t.item_count row t.column_item;
    item_count = t.item_count + 1;
  }

  add_row-added :
      (t t' : CsvFileh fl) (row : List fl.Float)
      → add_row fl t row ≡ added t'
      → (length row ≡ t.col_count) × (with_row t row ≡ t')
  unfolding add_row
  add_row-added t t' row h = elim (Bool-cases (length row == t.col_count)) [
    | inl e ↦ elim (Bool-cases (no_room fl row t.item_count)) [
      | inl r ↦ let no : overrun ≡ added t' = rw (add_row, e, r) at h in cc
      | inr r ↦
          let same : added (with_row t row) ≡ added t' = rw (add_row, e, r) at h in
          (ground arith, cc)
    ]
    | inr e ↦ let no : not_added ≡ added t' = rw (add_row, e) at h in cc
  ]

  get_csv_data-got :
      (t : CsvFileh fl) (name : Bytes) (data_len : ℕ) (xs : List fl.Float)
      → get_csv_data fl t name data_len ≡ got xs
      → (i : ℕ) × (length name < 256)
        × (find_column t.column_name (map tolower name) 0 t.col_count ≡ some i)
        × (items_from fl (t.column_item i) 0 t.item_count ≡ xs)
  unfolding get_csv_data
  get_csv_data-got t name data_len xs h = elim (Bool-cases (leb 256 (length name))) [
    | inl e ↦ let no : name_overrun ≡ got xs = rw (get_csv_data, e) at h in cc
    | inr e ↦ elim (Bool-cases (ltb data_len t.item_count)) [
      | inl r ↦ let no : too_small ≡ got xs = rw (get_csv_data, e, r) at h in cc
      | inr r ↦
          go (find_column t.column_name (map tolower name) 0 t.col_count) (ground arith)
            (rw (get_csv_data, e, r) at h)
    ]
  ]
    where
      go :
          (o : Option ℕ)
          → length name < 256
          → elim o [
            | none ↦ not_found
            | some i ↦ got (items_from fl (t.column_item i) 0 t.item_count)
          ]
            ≡ (let g : Got fl = got xs in g)
          → (i : ℕ) × (length name < 256)
            × (o ≡ some i)
            × (items_from fl (t.column_item i) 0 t.item_count ≡ xs)
      go none le q = cc
      go (some i) le q = (i, le, refl, cc)

  -- After AddRowCSV succeeded, GetCSVData gives the items it gave before, followed by the item of
  -- the new row in the first column whose name contains the name that is asked for in lower case;
  -- provided that the buffer has room for one more.
  pub get-add_row :
      (t t' : CsvFileh fl) (row : List fl.Float) (name : Bytes) (data_len : ℕ) (xs : List fl.Float)
      (d : fl.Float)
      → add_row fl t row ≡ added t'
      → get_csv_data fl t name data_len ≡ got xs
      → t.item_count < data_len
      → (i : ℕ) × (i < t.col_count)
        × (is_some (strstr (t.column_name i) (map tolower name)) ≡ true)
        × ((k : ℕ) → k < i → is_some (strstr (t.column_name k) (map tolower name)) ≡ false)
        × (get_csv_data fl t' name data_len ≡ got (xs ++ get_or row i d ∷ []))
  unfolding get_csv_data
  get-add_row t t' row name data_len xs d add get room =
      let (cols, same) = add_row-added t t' row add in
      let (i, short, at, items) = get_csv_data-got t name data_len xs get in
      let (_, inside, match, first) =
        rw at at (find_column-Column fl t.column_name (map tolower name) 0 t.col_count) in
      let inside_row : i < length row = omega arith in
      let here : write_row fl 0 t.item_count row t.column_item i (0 + t.item_count)
          ≡ get_or row i d =
        ap (λ l. write_row fl 0 t.item_count row t.column_item i l) (omega arith)
        ∙ ap (λ c. write_row fl 0 t.item_count row t.column_item c t.item_count) (omega arith)
        ∙ write_row-here fl 0 t.item_count row t.column_item i d inside_row in
      let below : (l : ℕ)
          → l < 0 + t.item_count
          → write_row fl 0 t.item_count row t.column_item i l ≡ t.column_item i l =
        λ l h. write_row-other fl 0 t.item_count row t.column_item i l (ground arith) in
      let long : leb 256 (length name) ≡ false = ground arith in
      let roomy : ltb data_len (t.item_count + 1) ≡ false = ground arith in
      let next : t.item_count + 1 ≡ suc t.item_count = omega arith in
      let grown : items_from fl (write_row fl 0 t.item_count row t.column_item i) 0
            (t.item_count + 1)
          ≡ xs ++ get_or row i d ∷ [] =
        ap (items_from fl (write_row fl 0 t.item_count row t.column_item i) 0) next
        ∙ items_from-snoc fl (write_row fl 0 t.item_count row t.column_item i) 0 t.item_count
        ∙ rw
            (
              items_from-ext fl (write_row fl 0 t.item_count row t.column_item i) (t.column_item i)
                  0 t.item_count below,
              items,
              here,
            )
            refl in
      (
        i,
        omega arith,
        match,
        λ k h. first k (omega arith) h,
        ap (λ u. get_csv_data fl u name data_len) (sym same) ∙ rw (long, roomy, at, grown) refl,
      )
