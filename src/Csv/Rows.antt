-- ===== src/Csv/Rows.antt =====
-- A row in the table: AddRowCSV, and what GetCSVData gives after it.
use data_commoms.Base.{
  ℕ, zero, suc, ◌+◌, ◌≤◌, ◌<◌, ◌≡◌, ◌⊎◌, refl, ap, ◌∙◌, true, false, Option, none, some, List, [],
  ◌∷◌, ◌++◌, arith, length, get_or, ◌==◌, Bool-cases, inl, inr,
}
use data_commoms.Text.{Bytes}
use data_commoms.Text.Search.{strstr, is_some}
use data_commoms.Params.{FloatText}
use data_commoms.Csv.{put_at, write_row, find_column, items_from}

module _ (fl : FloatText) where
  -- A row changes no other row, and no column in front of it.
  pub write_row-other :
      (i n : ℕ) (row : List fl.Float) (items : ℕ → ℕ → fl.Float) (k l : ℕ)
      → (l == n) ≡ false
      → write_row fl i n row items k l ≡ items k l
  unfolding write_row
  write_row-other i n [] items k l h = refl
  write_row-other i n (x ∷ row) items k l h =
      write_row-other (suc i) n row (put_at items i n x) k l h
      ∙ elim (Bool-cases (k == i)) [ inl e ↦ rw (e, h) refl | inr e ↦ rw e refl ]

  write_row-before :
      (i n : ℕ) (row : List fl.Float) (items : ℕ → ℕ → fl.Float) (k l : ℕ)
      → k < i
      → write_row fl i n row items k l ≡ items k l
  unfolding write_row
  write_row-before i n [] items k l h = refl
  write_row-before i n (x ∷ row) items k l h =
      let other : (k == i) ≡ false = ground arith in
      write_row-before (suc i) n row (put_at items i n x) k l (omega arith) ∙ rw other refl

  -- It stands where it was written.
  pub write_row-here :
      (i n : ℕ) (row : List fl.Float) (items : ℕ → ℕ → fl.Float) (k : ℕ) (d : fl.Float)
      → k < length row
      → write_row fl i n row items (i + k) n ≡ get_or row k d
  unfolding write_row
  write_row-here i n [] items k d h = absurd (omega arith)
  write_row-here i n (x ∷ row) items zero d h =
      let first : (i + 0 == i) ≡ true = ground arith in
      let same : (n == n) ≡ true = ground arith in
      write_row-before (suc i) n row (put_at items i n x) (i + 0) n (omega arith)
      ∙ rw (first, same) refl
  write_row-here i n (x ∷ row) items (suc k) d h =
      ap (λ c. write_row fl (suc i) n row (put_at items i n x) c n) (omega arith)
      ∙ write_row-here (suc i) n row (put_at items i n x) k d (omega arith)

  pub items_from-ext :
      (f g : ℕ → fl.Float) (j left : ℕ)
      → ((l : ℕ) → l < j + left → f l ≡ g l)
      → items_from fl f j left ≡ items_from fl g j left
  unfolding items_from
  items_from-ext f g j zero h = refl
  items_from-ext f g j (suc left) h =
      let ih = items_from-ext f g (suc j) left (λ l le. h l (omega arith)) in
      rw (h j (omega arith), ih) refl

  pub items_from-snoc :
      (f : ℕ → fl.Float) (j left : ℕ)
      → items_from fl f j (suc left) ≡ items_from fl f j left ++ f (j + left) ∷ []
  unfolding items_from
  items_from-snoc f j zero = ap (λ k. f k ∷ []) (omega arith)
  items_from-snoc f j (suc left) =
      ap (λ xs. f j ∷ xs)
        (items_from-snoc f (suc j) left
          ∙ ap (λ k. items_from fl f (suc j) left ++ f k ∷ []) (omega arith))

  -- The column that is found is one of the table, its name contains the text, and no name in front
  -- does.
  abbrev pub Column : (ℕ → Bytes) → Bytes → ℕ → ℕ → Option ℕ → Type 0
  Column names low i left none =
      (k : ℕ) → i ≤ k → k < i + left → is_some (strstr (names k) low) ≡ false
  Column names low i left (some c) =
      (i ≤ c)
      × (c < i + left)
      × (is_some (strstr (names c) low) ≡ true)
      × ((k : ℕ) → i ≤ k → k < c → is_some (strstr (names k) low) ≡ false)

  pub find_column-Column :
      (names : ℕ → Bytes) (low : Bytes) (i left : ℕ)
      → Column names low i left (find_column names low i left)
  unfolding find_column
  find_column-Column names low i zero = λ k a b. absurd (omega arith)
  find_column-Column names low i (suc left) = elim (Bool-cases (is_some (strstr (names i) low))) [
    | inl e ↦ rw (find_column, e) (omega arith, omega arith, e, λ k a b. absurd (omega arith))
    | inr e ↦
        rw (find_column, e)
          (Column-skip i (find_column names low (suc i) left) e
            (find_column-Column names low (suc i) left))
  ]
    where
      first_or : (k : ℕ) → i ≤ k → (i ≡ k) ⊎ (suc i ≤ k)
      first_or k h = elim (Bool-cases (i == k)) [
        | inl e ↦ inl (ground arith)
        | inr e ↦ inr (ground arith)
      ]

      Column-skip :
          (j : ℕ) (o : Option ℕ)
          → is_some (strstr (names i) low) ≡ false
          → Column names low (suc i) left o
          → Column names low i (suc left) o
      Column-skip j none e h =
          λ k a b. elim (first_or k a) [ inl q ↦ rw (← q) e | inr le ↦ h k le (omega arith) ]
      Column-skip j (some c) e (a, b, m, h) = (
        omega arith,
        omega arith,
        m,
        λ k x y. elim (first_or k x) [ inl q ↦ rw (← q) e | inr le ↦ h k le y ],
      )
