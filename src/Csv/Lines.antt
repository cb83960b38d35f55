-- ===== src/Csv/Lines.antt =====
-- The lines of a CSV file as param_save_csv writes them, and how they are split into cells.
use mathlib.Core.List.{append_assoc, append-nil}
use data_commoms.Base.{
  ℕ, zero, suc, ◌+◌, ◌≤◌, ◌<◌, ◌≡◌, refl, ap, ◌∙◌, Bool, true, false, ◌&&◌, ◌||◌, List, [], ◌∷◌,
  ◌++◌, arith, length, length-append, ◌==◌, leb,
}
use data_commoms.Text.{Bytes, text, goes_on}
use data_commoms.Text.Search.{is_in, cut_tokens, strtok, tolower, lines}
use data_commoms.Text.Find.{lacks, lacks-append, read_lines-line}
use data_commoms.Text.Split.{clean, cut_tokens-delim, cut_tokens-last, token-word}
use data_commoms.Csv.Parse.{strip_end, csv_line_size}
use data_commoms.Csv.Save.{csv_line}

-- A cell with something in it, and no comma and no line end.
abbrev pub is_cell : Bytes → Bool
is_cell w = goes_on w && lacks b',' w && lacks b'\n' w && lacks b'\r' w

-- The name of a column: in lower case, with no space, and with at most 254 bytes.
abbrev pub is_lower : Bytes → Bool
is_lower [] = true
is_lower (c ∷ s) = tolower c == c && is_lower s

abbrev pub is_column_name : Bytes → Bool
is_column_name w = is_cell w && lacks b' ' w && is_lower w && leb (length w) 254

-- The cells `i` to `i + left` of a line, with `e` behind the last one; and the text of the line.
abbrev pub first_cell : Bytes → (ℕ → Bytes) → ℕ → ℕ → Bytes
first_cell e f i zero = f i ++ e
first_cell e f i (suc left) = f i

abbrev pub later_cells : Bytes → (ℕ → Bytes) → ℕ → ℕ → List Bytes
later_cells e f i zero = []
later_cells e f i (suc left) = first_cell e f (suc i) left ∷ later_cells e f (suc i) left

abbrev pub cells_text : Bytes → (ℕ → Bytes) → ℕ → ℕ → Bytes
cells_text e f i zero = f i ++ e
cells_text e f i (suc left) = f i ++ b',' ∷ cells_text e f (suc i) left

-- Each cell is one.
abbrev pub AreCells : (ℕ → Bytes) → ℕ → ℕ → Type 0
AreCells f i left = (k : ℕ) → i ≤ k → k ≤ i + left → is_cell (f k) ≡ true

csv_line-cells_text :
    (f : ℕ → Bytes) (i left : ℕ) → csv_line f i left ≡ cells_text [] f i left ++ b'\n' ∷ []
unfolding csv_line
csv_line-cells_text f i zero = rw (append-nil (f i)) refl
csv_line-cells_text f i (suc left) =
    rw
      (
        csv_line-cells_text f (suc i) left,
        append_assoc (f i) (b',' ∷ cells_text [] f (suc i) left) (b'\n' ∷ []),
      )
      refl

cells_text-append :
    (e : Bytes) (f : ℕ → Bytes) (i left : ℕ) → cells_text [] f i left ++ e ≡ cells_text e f i left
cells_text-append e f i zero = rw (append-nil (f i)) refl
cells_text-append e f i (suc left) =
    rw
      (
        append_assoc (f i) (b',' ∷ cells_text [] f (suc i) left) e,
        cells_text-append e f (suc i) left,
      )
      refl

clean-cell : (w : Bytes) → lacks b',' w ≡ true → clean (text ",") w ≡ true
unfolding is_in
clean-cell [] h = refl
clean-cell (c ∷ w) h = let ih = clean-cell w (ground arith) in ground arith

first_cell-goes_on :
    (e : Bytes) (f : ℕ → Bytes) (i left : ℕ)
    → is_cell (f i) ≡ true
    → goes_on (first_cell e f i left) ≡ true
first_cell-goes_on e f i zero h = go (f i) h
  where
    go : (w : Bytes) → is_cell w ≡ true → goes_on (w ++ e) ≡ true
    go [] h = cc
    go (c ∷ w) h = refl
first_cell-goes_on e f i (suc left) h = ground arith

cut_tokens-cells_text :
    (e : Bytes) (f : ℕ → Bytes) (i left : ℕ)
    → lacks b',' e ≡ true
    → AreCells f i left
    → cut_tokens (text ",") (cells_text e f i left)
      ≡ (first_cell e f i left, later_cells e f i left)
unfolding is_in
cut_tokens-cells_text e f i zero h c =
    let cell = c i (omega arith) (omega arith) in
    cut_tokens-last (text ",") (f i ++ e)
      (clean-cell (f i ++ e) (lacks-append b',' (f i) e (ground arith) h))
cut_tokens-cells_text e f i (suc left) h c =
    let cell = c i (omega arith) (omega arith) in
    let next = c (suc i) (omega arith) (omega arith) in
    cut_tokens-delim (text ",") (f i) (cells_text e f (suc i) left) (first_cell e f (suc i) left)
      (later_cells e f (suc i) left) b',' refl (clean-cell (f i) (ground arith))
      (first_cell-goes_on e f (suc i) left next)
      (cut_tokens-cells_text e f (suc i) left h (λ k a b. c k (omega arith) (omega arith)))

-- `strtok_r` gives the cells.
pub strtok-cells_text :
    (e : Bytes) (f : ℕ → Bytes) (i left : ℕ)
    → lacks b',' e ≡ true
    → AreCells f i left
    → strtok (text ",") (cells_text e f i left) ≡ first_cell e f i left ∷ later_cells e f i left
unfolding strtok
strtok-cells_text e f i left h c =
    let cell = c i (omega arith) (omega arith) in
    rw
      (
        cut_tokens-cells_text e f i left h c,
        token-word (first_cell e f i left) (later_cells e f i left)
            (first_cell-goes_on e f i left cell),
      )
      refl

strip_end-line : (s : Bytes) → lacks b'\r' s ≡ true → strip_end (s ++ b'\n' ∷ []) ≡ s
unfolding strip_end
strip_end-line [] h = refl
strip_end-line (c ∷ []) h = let other : (c == b'\r') ≡ false = ground arith in rw other refl
strip_end-line (c ∷ d ∷ []) h = ap (λ t. c ∷ t) (strip_end-line (d ∷ []) (ground arith))
strip_end-line (c ∷ d ∷ e ∷ s) h = ap (λ t. c ∷ t) (strip_end-line (d ∷ e ∷ s) (ground arith))

lacks-cells_text :
    (c : ℕ) (f : ℕ → Bytes) (i left : ℕ)
    → (c == b'\n' || c == b'\r') ≡ true
    → AreCells f i left
    → lacks c (cells_text [] f i left) ≡ true
lacks-cells_text c f i zero h a =
    let cell = a i (omega arith) (omega arith) in
    let this : lacks c (f i) ≡ true = ground arith in lacks-append c (f i) [] this refl
lacks-cells_text c f i (suc left) h a =
    let cell = a i (omega arith) (omega arith) in
    let this : lacks c (f i) ≡ true = ground arith in
    let rest = lacks-cells_text c f (suc i) left h (λ k x y. a k (omega arith) (omega arith)) in
    lacks-append c (f i) (b',' ∷ cells_text [] f (suc i) left) this (ground arith)

pub strip_end-csv_line :
    (f : ℕ → Bytes) (i left : ℕ)
    → AreCells f i left
    → strip_end (csv_line f i left) ≡ cells_text [] f i left
strip_end-csv_line f i left a =
    rw (csv_line-cells_text f i left)
      (strip_end-line (cells_text [] f i left) (lacks-cells_text b'\r' f i left refl a))

pub csv_line-header :
    (f : ℕ → Bytes) (i left : ℕ) → csv_line f i left ≡ cells_text (b'\n' ∷ []) f i left
csv_line-header f i left = csv_line-cells_text f i left ∙ cells_text-append (b'\n' ∷ []) f i left

-- `fgets` reads the line as one.
pub lines-csv_line :
    (f : ℕ → Bytes) (i left : ℕ) (s : Bytes)
    → AreCells f i left
    → length (csv_line f i left) < csv_line_size
    → lines csv_line_size (csv_line f i left ++ s) ≡ csv_line f i left ∷ lines csv_line_size s
unfolding lines
lines-csv_line f i left s a le =
    let body : Bytes = cells_text [] f i left in
    let whole = csv_line-cells_text f i left in
    let long = length-append body (b'\n' ∷ []) in
    let short : length (body ++ b'\n' ∷ []) < csv_line_size = rw (← whole) le in
    rw (whole, append_assoc body (b'\n' ∷ []) s)
      (read_lines-line 2047 2047 [] body s (lacks-cells_text b'\n' f i left refl a) (omega arith))
