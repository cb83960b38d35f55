-- ===== src/Csv/Headers.antt =====
-- The first line of a CSV file as param_save_csv writes it, read by csv_new_headers.
use data_commoms.Base.{
  ℕ, zero, suc, ◌+◌, ◌≤◌, ◌<◌, ◌≡◌, refl, ap, ◌∙◌, true, false, List, [], ◌∷◌, ◌++◌, arith,
  length-append, ◌==◌, leb, take-length, map, Bool-cases, inl, inr,
}
use data_commoms.Text.{Bytes, text}
use data_commoms.Text.Search.{tolower, strtok}
use data_commoms.Text.Find.{lacks, lacks-append, strchr-append, strchr-lacks}
use data_commoms.Params.{FloatText, max_bin}
use data_commoms.Csv.{CsvFileh, put}
use data_commoms.Csv.Parse.{header_name, header_names, new_headers}
use data_commoms.Csv.Save.{csv_line}
use data_commoms.Csv.Lines.{
  is_lower, is_column_name, AreCells, first_cell, later_cells, strtok-cells_text, csv_line-header,
}

map-tolower : (s : Bytes) → is_lower s ≡ true → map tolower s ≡ s
map-tolower [] h = refl
map-tolower (c ∷ s) h =
    let this : tolower c ≡ c = ground arith in rw (this, map-tolower s (ground arith)) refl

is_lower-append : (a b : Bytes) → is_lower a ≡ true → is_lower b ≡ true → is_lower (a ++ b) ≡ true
is_lower-append [] b h k = k
is_lower-append (c ∷ a) b h k = let ih = is_lower-append a b (ground arith) k in ground arith

header_name-whole : (w : Bytes) → is_column_name w ≡ true → header_name w ≡ w
unfolding header_name
header_name-whole w h =
    rw
      (
        map-tolower w (ground arith),
        take-length 255 w (ground arith),
        strchr-lacks b' ' w (ground arith),
      )
      (ap (λ x. x.0) (strchr-lacks b'\n' w (ground arith)))

header_name-last : (w : Bytes) → is_column_name w ≡ true → header_name (w ++ b'\n' ∷ []) ≡ w
unfolding header_name tolower
header_name-last w h =
    let long = length-append w (b'\n' ∷ []) in
    let lower : is_lower w ≡ true = ground arith in
    let bare : lacks b' ' w ≡ true = ground arith in
    rw
      (
        map-tolower (w ++ b'\n' ∷ []) (is_lower-append w (b'\n' ∷ []) lower refl),
        take-length 255 (w ++ b'\n' ∷ []) (ground arith),
        strchr-lacks b' ' (w ++ b'\n' ∷ []) (lacks-append b' ' w (b'\n' ∷ []) bare refl),
      )
      (ap (λ x. x.0) (strchr-append b'\n' w [] (ground arith)))

header_name-first_cell :
    (f : ℕ → Bytes) (i left : ℕ)
    → is_column_name (f i) ≡ true
    → header_name (first_cell (b'\n' ∷ []) f i left) ≡ f i
header_name-first_cell f i zero h = header_name-last (f i) h
header_name-first_cell f i (suc left) h = header_name-whole (f i) h

-- The names from `i` to `i + left` over others.
abbrev pub put_names : (ℕ → Bytes) → ℕ → ℕ → (ℕ → Bytes) → ℕ → Bytes
put_names f i zero names = put names i (f i)
put_names f i (suc left) names = put_names f (suc i) left (put names i (f i))

put_names-before :
    (f : ℕ → Bytes) (i left : ℕ) (names : ℕ → Bytes) (k : ℕ)
    → k < i
    → put_names f i left names k ≡ names k
put_names-before f i zero names k h = let other : (k == i) ≡ false = ground arith in rw other refl
put_names-before f i (suc left) names k h =
    let other : (k == i) ≡ false = ground arith in
    put_names-before f (suc i) left (put names i (f i)) k (omega arith) ∙ rw other refl

pub put_names-here :
    (f : ℕ → Bytes) (i left : ℕ) (names : ℕ → Bytes) (k : ℕ)
    → i ≤ k
    → k ≤ i + left
    → put_names f i left names k ≡ f k
put_names-here f i zero names k h le =
    let same : k ≡ i = omega arith in
    let here : (i == i) ≡ true = ground arith in rw (same, here) refl
put_names-here f i (suc left) names k h le = elim (Bool-cases (k == i)) [
  | inl e ↦
      let same : k ≡ i = ground arith in
      let here : (i == i) ≡ true = ground arith in
      rw same (put_names-before f (suc i) left (put names i (f i)) i (omega arith) ∙ rw here refl)
  | inr e ↦ put_names-here f (suc i) left (put names i (f i)) k (ground arith) (omega arith)
]

module _ (fl : FloatText) where
  header_names-cells :
      (f : ℕ → Bytes) (i left : ℕ) (t : CsvFileh fl)
      → ((k : ℕ) → i ≤ k → k ≤ i + left → is_column_name (f k) ≡ true)
      → i + left < max_bin
      → header_names fl i (first_cell (b'\n' ∷ []) f i left ∷ later_cells (b'\n' ∷ []) f i left) t
        ≡ record t { column_name = put_names f i left t.column_name; col_count = suc (i + left) }
  unfolding header_names
  header_names-cells f i zero t h le =
      let room : leb max_bin i ≡ false = ground arith in
      rw (room, header_name-last (f i) (h i (omega arith) (omega arith)))
        (ap (λ n. record t { column_name = put t.column_name i (f i); col_count = n })
          (omega arith))
  header_names-cells f i (suc left) t h le =
      let room : leb max_bin i ≡ false = ground arith in
      let rest =
        header_names-cells f (suc i) left (record t { column_name = put t.column_name i (f i) })
          (λ k a b. h k (omega arith) (omega arith)) (omega arith) in
      rw (room, header_name-whole (f i) (h i (omega arith) (omega arith)))
        (rest
          ∙ ap
              (λ n. record t {
                column_name = put_names f i (suc left) t.column_name;
                col_count = n;
              })
              (omega arith))

  -- The line of the names gives the names.
  pub new_headers-line :
      (f : ℕ → Bytes) (cols : ℕ) (t : CsvFileh fl)
      → ((k : ℕ) → k ≤ cols → is_column_name (f k) ≡ true)
      → cols < max_bin
      → t.column_sep ≡ text ","
      → new_headers fl (csv_line f 0 cols) t
        ≡ record t { column_name = put_names f 0 cols t.column_name; col_count = suc cols }
  unfolding new_headers
  new_headers-line f cols t h le sep =
      let a : AreCells f 0 cols = λ k x y. (let n = h k (omega arith) in ground arith) in
      let cells : List Bytes =
        first_cell (b'\n' ∷ []) f 0 cols ∷ later_cells (b'\n' ∷ []) f 0 cols in
      let split : strtok t.column_sep (csv_line f 0 cols) ≡ cells =
        rw (sep, csv_line-header f 0 cols) (strtok-cells_text (b'\n' ∷ []) f 0 cols refl a) in
      ap (λ ws. header_names fl 0 ws t) split
      ∙ header_names-cells f 0 cols t (λ k x y. h k (omega arith)) (omega arith)
      ∙ ap (λ n. record t { column_name = put_names f 0 cols t.column_name; col_count = n })
          (omega arith)
