-- ===== src/Params/Items.antt =====
-- ParseListParam of include/file_parser.h.
use data_commoms.Base.{
  ℕ, suc, ◌-◌, ◌^◌, Bool, true, false, ◌||◌, Option, none, some, List, [], ◌∷◌, ◌==◌, ltb, leb,
  if◌then◌else◌, get_or, set, take, ltb_ℤ, int_max, int_min,
}
use data_commoms.Text.{Bytes, text, streq, strtoull, strtol, goes_on}
use data_commoms.Text.Search.{strtok}
use data_commoms.Params.{
  FloatText, ParamType, bool, uint, int, float, str, list, binary, Simple, as_bool, as_uint, as_int,
  as_float, as_str, ParamList,
}

-- The words for a truth value.
unfoldable pub bool_word : Bytes → Option Bool
bool_word w =
    if streq w (text "1") || streq w (text "true") || streq w (text "yes") || streq w (text "si")
    then some true
    else if streq w (text "0") || streq w (text "false") || streq w (text "no")
    then some false
    else none

-- What the `switch` makes of a token: an item, a return with false, or a write through a null
-- pointer.
pub data Item (fl : FloatText) : Type 0 where
  item : Simple fl → Item fl
  bad wild : Item fl

-- How ParseListParam ends: its result and the list as it is then, or the write above.
pub data Listed (fl : FloatText) : Type 0 where
  listed : Bool → ParamList fl → Listed fl
  fault : Listed fl

abbrev pub uint_max : ℕ
uint_max = 2 ^ 32 - 1

-- The greatest number of items.
abbrev pub list_max : ℕ
list_max = 32

module _ (fl : FloatText) where
  abbrev bool_item : Option Bool → Item fl
  bool_item none = bad
  bool_item (some b) = item (as_bool b)

  -- `strncpy` into a buffer, which copies as many bytes as a pointer has, less one.
  abbrev str_item : Simple fl → Bytes → Item fl
  str_item (as_str (some buffer)) t = item (as_str (some (take 7 t)))
  str_item s t = wild

  -- The `switch` on the type of the items; `slot` is what the array holds at the index.
  unfoldable pub read_item : ParamType → Simple fl → Bytes → Item fl
  unfolding bool_word
  read_item bool slot t = bool_item (bool_word t)
  read_item uint slot t =
      let r = strtoull t in
      if goes_on r.rest || ltb uint_max r.value then bad else item (as_uint r.value)
  read_item int slot t =
      let r = strtol t in
      if goes_on r.rest || ltb_ℤ int_max r.value || ltb_ℤ r.value int_min
      then bad
      else item (as_int r.value)
  read_item float slot t =
      let r = fl.strtof t in if goes_on r.rest then bad else item (as_float r.value)
  read_item str slot t = str_item slot t
  read_item list slot t = bad
  read_item binary slot t = bad

  -- The `while` over the tokens, with `idx` items stored.
  unfoldable pub store_items : ParamType → ℕ → ParamList fl → List Bytes → Listed fl
  store_items ty idx l [] = listed true l
  store_items ty idx l (t ∷ ts) = elim (leb list_max idx) [
    | true ↦ listed false l
    | false ↦ elim (read_item ty (get_or l.items idx (as_str none)) t) [
      | item x ↦
          store_items ty (suc idx) (record l { items = set l.items idx x; count = suc idx }) ts
      | bad ↦ listed false l
      | wild ↦ fault
    ]
  ]

  -- ParseListParam on the text up to the `]`, with the type of the items and the list.
  unfoldable pub parse_list_param : ParamType → ParamList fl → Bytes → Listed fl
  unfolding store_items read_item
  parse_list_param ty l [] = listed false l
  parse_list_param ty l (c ∷ inner) =
      if c == b'[' then store_items ty 0 l (strtok (text ", ") inner) else listed false l
