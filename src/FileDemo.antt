-- ===== src/FileDemo.antt =====
-- src/file_main.c: a program that saves a struct, reads it back, reads its parameters and a table,
-- and saves both.
pub mod Struct
mod Tests
use data_commoms.Base.{
  ℕ, zero, suc, ◌/◌, ◌%◌, Bool, true, false, Option, none, some, List, [], ◌∷◌, ltb, length, pos,
  if◌then◌else◌, ◌≡◌, refl,
}
use data_commoms.Text.{Bytes, text}
use data_commoms.Params.{
  FloatText, int, no_error, as_float, simple, ParamList, Value, bin, Param, ParamCtx, param_bool,
  param_uint, param_int, param_float, param_str, param_list, param_bin,
}
use data_commoms.Params.Parse
use data_commoms.Params.Parse.{param_parse_txt}
use data_commoms.Params.Save.{Saved, saves, refuses, crashes, param_save_txt}
use data_commoms.Csv.{
  CsvFileh, init_csv, Added, not_added, added, overrun, add_row, Got, too_small, not_found,
  name_overrun, got, get_csv_data,
}
use data_commoms.Csv.Parse as CsvParse
use data_commoms.Csv.Parse.{Parsed, param_parse_csv}
use data_commoms.Csv.Save.{param_save_csv}

-- How a part of `main` ends: with a value; by `return -1`; or the program goes wrong.
pub data Run {ℓ} (A : Type ℓ) : Type ℓ where
  ok : A → Run A
  returns_minus_one : Run A
  goes_wrong : Run A

infixl 5 ◌>>=◌
abbrev pub ◌>>=◌ {ℓ κ} : {A : Type ℓ} {B : Type κ} → Run A → (A → Run B) → Run B
ok a >>= f = f a
returns_minus_one >>= f = returns_minus_one
goes_wrong >>= f = goes_wrong

-- A failed assertion.
abbrev pub asserted {ℓ} : {A : Type ℓ} → Option A → Run A
asserted none = goes_wrong
asserted (some a) = ok a

-- A `uint16_t` in memory, and a `paramstruct_t`.
abbrev pub u16_bytes : ℕ → Bytes → Bytes
u16_bytes v rest = v % 256 ∷ v / 256 ∷ rest

abbrev pub struct_bytes : ℕ → ℕ → ℕ → Bytes
struct_bytes a b c = u16_bytes a (u16_bytes b (u16_bytes c []))

abbrev pub file_name : Bytes
file_name = text "save_params_txt.txt"

-- An assignment to the variable of the parameter at an index.
abbrev pub assign_at {ℓ} : {A : Type ℓ} → (A → A) → ℕ → List A → List A
assign_at f i [] = []
assign_at f zero (p ∷ ps) = f p ∷ ps
assign_at f (suc i) (p ∷ ps) = p ∷ assign_at f i ps

-- sizeof paramstr
abbrev pub paramstr_size : ℕ
paramstr_size = 265

-- sizeof buff, and the number of its items.
abbrev pub buff_bytes : ℕ
buff_bytes = 200

abbrev pub buff_items : ℕ
buff_items = 50

module _ (fl : FloatText) where
  abbrev pub assign : Value fl → ℕ → ParamCtx fl → ParamCtx fl
  assign v i c = record c { params = assign_at (λ p. record p { val = v }) i c.params }

  -- The result of ParamSave is not looked at; `left` is what the file holds if nothing is written.
  abbrev pub file_after : Option Bytes → Saved fl → Run (Option Bytes)
  file_after left (saves s) = ok (some s)
  file_after left refuses = ok left
  file_after left crashes = goes_wrong

  abbrev pub parsed_params : Parse.Outcome fl → Run (ParamCtx fl)
  parsed_params (Parse.returns true c) = ok c
  parsed_params (Parse.returns false c) = returns_minus_one
  parsed_params Parse.crashed = goes_wrong

  -- Up to the first ParamParse, with the struct that is assigned. `left` is what the file holds
  -- before, and `opened` whether it can be written.
  unfoldable pub first_part : Bytes → Option Bytes → Bool → ParamCtx fl → Bytes → Run (ParamCtx fl)
  first_part junk left opened c struct = do
    c ← asserted (param_bin fl c 6 (text "PSTRUCT") (text "an struct") 0)
    let c = assign (bin struct) 0 c
    file ← file_after left (param_save_txt fl c opened)
    parsed_params (param_parse_txt fl junk c file_name file)

  -- The numbers that stand in the source: 2.34, 1.045, 69 and 1239.9876543210.
  pub record Literals : Type 0 where
    pub pfloat : fl.Float
    pub pfloat2 : fl.Float
    pub row_item : fl.Float
    pub new_pfloat : fl.Float

  -- The other parameters. `held` is the text of `paramstr` after ParamStr has written a pointer
  -- over it, `room` the bytes from `paramuint` on that are free, and `list_items` the static array
  -- of `paramlist`.
  unfoldable pub register_others :
      Literals → ℕ → Bytes → ParamList fl → ParamCtx fl → Run (ParamCtx fl)
  register_others k room held var c = do
    c ← asserted (param_int fl c (text "PINT") true (pos 3) (text "an int value"))
    c ← asserted (param_float fl c (text "PFLOAT") true k.pfloat (text "an float value"))
    c ← asserted (param_float fl c (text "PFLOAT2") true k.pfloat2 (text "an float value n2"))
    c ← asserted (param_uint fl c room (text "PUINT") false 5 (text "a uint param"))
    c ← asserted (param_bool fl c (text "PBOOL") false false (text "a bool param"))
    c ← asserted (param_list fl c var (text "PLIST") [] int)
    asserted (param_str fl c paramstr_size (text "PSTR") true held (text "a string param"))

  abbrev pub parsed_table : Parsed fl → Run (ParamCtx fl × CsvFileh fl)
  parsed_table (CsvParse.returns true c t) = ok (c, t)
  parsed_table (CsvParse.returns false c t) = returns_minus_one
  parsed_table CsvParse.no_line = goes_wrong

  -- The items that GetCSVData writes into `buff`: it is told the number of bytes.
  abbrev pub in_buff : Got fl → Run (List fl.Float)
  in_buff too_small = ok []
  in_buff not_found = ok []
  in_buff name_overrun = goes_wrong
  in_buff (got xs) = if ltb buff_items (length xs) then goes_wrong else ok xs

  abbrev pub table_added : Added fl → Run (CsvFileh fl)
  table_added not_added = returns_minus_one
  table_added (added t) = ok t
  table_added overrun = goes_wrong

  -- AddRowCSV.
  abbrev pub with_new_row :
      Literals
      → ParamCtx fl
      → CsvFileh fl
      → List fl.Float
      → Run (ParamCtx fl × CsvFileh fl × List fl.Float)
  with_new_row k c t sizes = do
    let x = k.row_item
    t ← table_added (add_row fl t (x ∷ x ∷ x ∷ x ∷ []))
    ok (c, t, sizes)

  -- GetCSVData, and on.
  abbrev pub with_sizes :
      Literals → ParamCtx fl × CsvFileh fl → Run (ParamCtx fl × CsvFileh fl × List fl.Float)
  with_sizes k (c, t) = do
    sizes ← in_buff (get_csv_data fl t (text "size") buff_bytes)
    with_new_row k c t sizes

  -- The table: InitCSV, ParamParse, GetCSVData and AddRowCSV. The file is `none` if it is not
  -- there. What it gives is the context, the table, and the items that are printed at the end.
  unfoldable pub table_part :
      Literals
      → Option Bytes
      → ParamCtx fl
      → CsvFileh fl
      → Run (ParamCtx fl × CsvFileh fl × List fl.Float)
  table_part k file c fileh =
      let (fine, t) = init_csv fl (text ".") (text ",") fileh in
      if fine
      then (parsed_table (param_parse_csv fl c t (text "../params/data.csv") file) >>= with_sizes k)
      else returns_minus_one

  -- The text of a file that ParamSave writes.
  abbrev pub saved_text : Saved fl → Run Bytes
  saved_text (saves s) = ok s
  saved_text refuses = returns_minus_one
  saved_text crashes = goes_wrong

  abbrev pub saved_table : Option Bytes → Run Bytes
  saved_table none = returns_minus_one
  saved_table (some s) = ok s

  -- What is there when `main` ends: the parameters, the table, the sizes that it prints, and the
  -- two files.
  pub record Result : Type 0 where
    pub ctx : ParamCtx fl
    pub table : CsvFileh fl
    pub sizes : List fl.Float
    pub txt_file : Bytes
    pub csv_file : Bytes

  -- The files that are there, whether the two files can be written, what the memory holds, and how
  -- many bytes from `paramuint` on are free.
  pub record World : Type 0 where
    pub left : Option Bytes
    pub params_file : Option Bytes
    pub data_file : Option Bytes
    pub txt_opened : Bool
    pub csv_opened : Bool
    pub junk : Bytes
    pub room : ℕ
    pub held : Bytes
    pub fileh : CsvFileh fl
    pub paramlist : ParamList fl

  -- `main`, with the static context. PFLOAT is the parameter at index 2.
  unfoldable pub main : Literals → World → Run Result
  unfolding first_part register_others table_part
  main k w = do
    c ←
        first_part w.junk w.left w.txt_opened (record { params = []; param_error = no_error })
          (struct_bytes 10 37 398)
    c ← register_others k w.room w.held w.paramlist c
    c ← parsed_params (param_parse_txt fl w.junk c (text "../params/params.txt") w.params_file)
    (c, t, sizes) ← table_part k w.data_file c w.fileh
    let c = assign (simple (as_float k.new_pfloat)) 2 c
    txt ← saved_text (param_save_txt fl c w.txt_opened)
    csv ← saved_table (param_save_csv fl t w.csv_opened)
    ok (record { ctx = c; table = t; sizes = sizes; txt_file = txt; csv_file = csv })
