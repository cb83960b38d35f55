-- ===== src/FileDemo/Tests.antt =====
-- The program of src/file_main.c on the beginning of its own data file.
use data_commoms.Base.{ℕ, ◌≡◌, refl, none, some, List, [], ◌∷◌, ◌++◌, arith, true}
use data_commoms.Text.{Bytes, text, strchr, strtoull}
use data_commoms.Text.Search.{strstr, strtok, lines, tolower}
use data_commoms.Text.Decimal.{dec}
use data_commoms.Params.{FloatText, ParamCtx}
use data_commoms.Csv.{CsvFileh, init_csv, add_row, get_csv_data}
use data_commoms.Csv.Parse.{param_parse_csv}
use data_commoms.FileDemo.{ok, struct_bytes, first_part, Literals, table_part}
use data_commoms.FileDemo.Struct.{empty, with_struct, struct_survives}

-- Whole numbers for `float`.
abbrev whole : FloatText
whole = record {
  Float = ℕ;
  zero_float = 0;
  strtof =
      λ s. (let r = strtoull s in record { value = r.value; rest = r.rest; erange = r.erange });
  print = dec;
}

abbrev literals : Literals whole
literals = record { pfloat = 2; pfloat2 = 1; row_item = 69; new_pfloat = 1239 }

abbrev no_table : CsvFileh whole
no_table = record {
  column_name = λ k. [];
  column_item = λ k l. 0;
  item_count = 0;
  col_count = 0;
  column_sep = [];
  decimal_sep = [];
}

abbrev data_file : Bytes
data_file =
    text "position,velocity,altitud,size"
    ++ b'\n' ∷ (text "8,3,4,6" ++ b'\n' ∷ (text "0,923,0,2" ++ b'\n' ∷ []))

struct_survives_example :
    first_part whole [] none true (empty whole) (struct_bytes 10 37 398)
    ≡ ok (with_struct whole (struct_bytes 10 37 398) true)
struct_survives_example =
    struct_survives whole [] none 10 37 398 (omega arith) (omega arith) (omega arith) refl

-- 398 is 1 · 256 + 142.
struct_in_memory : struct_bytes 10 37 398 ≡ 10 ∷ 0 ∷ 37 ∷ 0 ∷ 142 ∷ 1 ∷ []
struct_in_memory = refl

-- The sizes of the two rows are what is printed.
table_runs :
    (r : ParamCtx whole × CsvFileh whole × List ℕ) × (table_part whole literals
        (some data_file)
        (empty whole)
        no_table
      ≡ ok r)
    × (r.2 ≡ 6 ∷ 2 ∷ [])
unfolding table_part init_csv param_parse_csv strstr lines strtok strtoull get_csv_data strchr
    add_row tolower
table_runs = (_, refl, refl)
