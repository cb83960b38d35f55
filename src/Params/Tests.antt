-- ===== src/Params/Tests.antt =====
-- Files after src/file_main.c and the text that param_save_txt writes.
use data_commoms.Base.{
  ℕ, zero, suc, ◌≡◌, refl, Bool, true, false, none, some, List, [], ◌∷◌, arith, pos, negsuc,
}
use data_commoms.Text.{Bytes, text, streq, strchr, strtoull, strtol}
use data_commoms.Text.Search.{strstr, lines}
use data_commoms.Params.{
  FloatText, ParamType, bool, uint, int, str, binary, no_error, Simple, as_bool, as_uint, as_int,
  as_str, ParamList, Value, simple, bin, Param, ParamCtx,
}
use data_commoms.Params.Items.{bool_word, listed, parse_list_param, read_item}
use data_commoms.Params.Line.{param_turn}
use data_commoms.Params.Parse.{returns, param_parse_txt}
use data_commoms.Params.Save.{saves, param_save_txt, line_text, item_text, items_text, hex_text_of}
use data_commoms.Text.Decimal.{dec}
use data_commoms.Params.Keys.{ends_with}
use data_commoms.Params.Lists
use data_commoms.Params.Restore.{
  holds_bool, holds_uint, holds_int, holds_str, holds_list, holds_bin,
}
use data_commoms.Params.Tokens.{joined, Read}
use data_commoms.Params.Scan.{given}
use data_commoms.Params.Load.{AllHold, read_backs}
use data_commoms.Params.RoundTrip.{save_parse}
use data_commoms.Params.ParseList.{parse_list_all, parse_list_over}
use data_commoms.Params.Mandatory.{AllKept, AllGiven, parse_keeps, parse_gives_mandatory}

-- Numbers for `float`, of which only 0 is printed and read.
abbrev pub zeros : FloatText
zeros = record {
  Float = ℕ;
  zero_float = 0;
  strtof = λ s. record { value = 0; rest = []; erange = false };
  print = λ x. text "0.000000";
}

abbrev pub a_param : ParamType → ParamType → ℕ → Bytes → Value zeros → Param zeros
a_param ty t len name v = record {
  type = ty;
  list_type = t;
  room = len;
  name = name;
  desc = text "A value";
  val = v;
  is_mandatory = true;
  has_changed = false;
}

abbrev numbers : List (Simple zeros) → ℕ → Value zeros
numbers xs n = Value.list (record { items = xs; count = n; type = int })

abbrev saved_params : List (Param zeros)
saved_params =
    a_param bool bool 0 (text "PBOOL") (simple (as_bool true))
    ∷ a_param uint bool 8 (text "PUINT") (simple (as_uint 4000000000))
    ∷ a_param int bool 0 (text "PNUM") (simple (as_int (negsuc 41)))
    ∷ a_param str bool 4 (text "PSTR") (simple (as_str (some (text "a b"))))
    ∷ a_param ParamType.list int 0 (text "PLIST")
        (numbers (as_int (pos 7) ∷ as_int (negsuc 0) ∷ []) 2)
    ∷ a_param binary bool 2 (text "PBIN") (bin (0 ∷ 175 ∷ []))
    ∷ []

abbrev old_values : List (Value zeros)
old_values =
    simple (as_bool false)
    ∷ simple (as_uint 0)
    ∷ simple (as_int (pos 0))
    ∷ simple (as_str none)
    ∷ numbers (as_int (pos 1) ∷ as_int (pos 2) ∷ as_int (pos 3) ∷ []) 3
    ∷ bin (1 ∷ 2 ∷ [])
    ∷ []

abbrev writer : ParamCtx zeros
writer = record { params = saved_params; param_error = no_error }

abbrev reader : ParamCtx zeros
reader = record { params = given zeros false saved_params old_values; param_error = no_error }

saved_params-AllHold : AllHold zeros [] saved_params old_values
unfolding line_text items_text item_text hex_text_of dec
saved_params-AllHold = (
  holds_bool bool 0 (simple (as_bool false)) true,
  (refl, refl, refl),
  refl,
  (
    holds_uint bool 8 (simple (as_uint 0)) 4000000000 (omega arith) (omega arith),
    (refl, refl, refl),
    refl,
    (
      holds_int bool 0 (simple (as_int (pos 0))) (negsuc 41) (omega arith) (omega arith),
      (refl, refl, refl),
      refl,
      (
        holds_str bool 4 (simple (as_str none)) (text "a b") refl refl refl (omega arith),
        (refl, refl, refl),
        refl,
        (
          holds_list 0
              (record { items = as_int (pos 7) ∷ as_int (negsuc 0) ∷ []; count = 2; type = int })
              (record {
                items = as_int (pos 1) ∷ as_int (pos 2) ∷ as_int (pos 3) ∷ [];
                count = 3;
                type = int;
              })
              (omega arith) (omega arith) (omega arith) (omega arith)
              (
                Lists.holds_int (pos 7) (omega arith) (omega arith),
                (Lists.holds_int (negsuc 0) (omega arith) (omega arith), tt),
              ),
          (refl, refl, refl),
          refl,
          (holds_bin bool (0 ∷ 175 ∷ []) (1 ∷ 2 ∷ []) refl refl refl, (refl, refl, refl), refl, tt),
        ),
      ),
    ),
  ),
)

abbrev restored : List (Param zeros)
restored = given zeros true saved_params (read_backs zeros [] saved_params old_values)

save_parse_example :
    (s : Bytes) × (param_save_txt zeros writer true ≡ saves s)
    × (param_parse_txt zeros [] reader (text "out.txt") (some s)
        ≡ returns true (record reader { params = restored }))
unfolding ends_with strstr streq
save_parse_example =
    save_parse zeros [] writer reader old_values (text "out.txt") refl saved_params-AllHold refl
      (omega arith) refl

-- The values are those that were saved.
restored_number :
    read_backs zeros [] saved_params old_values
    ≡ simple (as_bool true)
      ∷ simple (as_uint 4000000000)
      ∷ simple (as_int (negsuc 41))
      ∷ simple (as_str (some (text "a b")))
      ∷ numbers (as_int (pos 7) ∷ as_int (negsuc 0) ∷ as_int (pos 3) ∷ []) 2
      ∷ bin (0 ∷ 175 ∷ [])
      ∷ []
restored_number = refl

-- One parameter, and a file that sets it.
abbrev pub one : ℕ → Bool → ParamCtx zeros
one n b = record {
  params =
      record (a_param uint bool 8 (text "PUINT") (simple (as_uint n))) { has_changed = b } ∷ [];
  param_error = no_error;
}

abbrev one_file : Bytes
one_file = text "# a comment\n\nPUINT = 12 # twelve\n"

one_run :
    param_parse_txt zeros [] (one 0 false) (text "a.txt") (some one_file)
    ≡ returns true (one 12 true)
unfolding param_parse_txt strstr lines param_turn strchr streq strtoull
one_run = refl

parse_keeps_example : AllKept zeros (one 0 false).params (one 12 true).params
parse_keeps_example =
    parse_keeps zeros [] (one 0 false) (one 12 true) true (text "a.txt") (some one_file) one_run

parse_gives_mandatory_example : AllGiven zeros (one 12 true).params
parse_gives_mandatory_example =
    parse_gives_mandatory zeros [] (one 0 false) (one 12 true) (text "a.txt") (some one_file)
      one_run

-- A list of numbers, and one of truth values.
abbrev an_array : ParamList zeros
an_array = record {
  items = as_int (pos 1) ∷ as_int (pos 2) ∷ as_int (pos 3) ∷ [];
  count = 0;
  type = int;
}

parse_list_all_example :
    parse_list_param zeros int an_array (text "[7,8")
    ≡ listed true (record an_array {
      items = as_int (pos 7) ∷ as_int (pos 8) ∷ as_int (pos 3) ∷ [];
      count = 2;
    })
unfolding read_item strtol
parse_list_all_example =
    parse_list_all zeros int an_array (text "7") (text "8" ∷ [])
      (as_int (pos 7) ∷ as_int (pos 8) ∷ []) refl refl (λ slot. refl, (λ slot. refl, tt))
      (omega arith) (omega arith)

abbrev copies : {A : Type 0} → ℕ → A → List A
copies zero x = []
copies (suc n) x = x ∷ copies n x

abbrev flags_array : ℕ → Bool → ℕ → ParamList zeros
flags_array n b count = record { items = copies n (as_bool b); count = count; type = bool }

parse_list_over_run :
    parse_list_param zeros bool
      (flags_array 32 false 0)
      (b'[' ∷ joined (text "1") (copies 40 (text "1")))
    ≡ listed false (flags_array 32 true 32)
unfolding read_item bool_word streq
parse_list_over_run =
    parse_list_over zeros bool (flags_array 32 false 0) (text "1") (copies 31 (text "1")) (text "1")
      (copies 8 (text "1")) (copies 32 (as_bool true)) refl refl (ones-Read 32) refl (omega arith)
  where
    ones-Read : (n : ℕ) → Read zeros bool (copies n (text "1")) (copies n (as_bool true))
    ones-Read zero = tt
    ones-Read (suc n) = (λ slot. refl, ones-Read n)
