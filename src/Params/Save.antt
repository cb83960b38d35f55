-- ===== src/Params/Save.antt =====
-- param_save_txt of include/file_parser.h.
use data_commoms.Base.{
  ℕ, ◌+◌, ◌-◌, ◌/◌, ◌%◌, Bool, true, false, some, List, [], ◌∷◌, ◌++◌, leb, ltb, if◌then◌else◌,
  length, take, to_int32,
}
use data_commoms.Text.{Bytes, text}
use data_commoms.Text.Decimal.{int_text}
use data_commoms.Params.{
  FloatText, ParamType, bool, uint, int, float, str, binary, Simple, as_bool, as_uint, as_int,
  as_float, as_str, Value, simple, bin, Param, ParamCtx,
}

-- `%d` on a `uint32_t`
abbrev pub uint_text : ℕ → Bytes
uint_text n = int_text (to_int32 n)

abbrev pub bool_text : Bool → Bytes
bool_text true = text "true"
bool_text false = text "false"

-- A digit of `%X`, and `%02X` on a byte.
abbrev pub hex_char : ℕ → ℕ
hex_char d = if ltb d 10 then b'0' + d else b'A' + (d - 10)

unfoldable pub hex_text_of : Bytes → Bytes
hex_text_of [] = []
hex_text_of (b ∷ bs) = hex_char (b / 16) ∷ hex_char (b % 16) ∷ hex_text_of bs

-- A text; `return false` on the way; or a read of what is not there.
pub data Print : Type 0 where
  printed : Bytes → Print
  gives_up wild : Print

infixr 66 ◌⊕◌
-- One text behind the other.
abbrev pub ◌⊕◌ : Print → Print → Print
printed a ⊕ printed b = printed (a ++ b)
printed a ⊕ gives_up = gives_up
printed a ⊕ wild = wild
gives_up ⊕ q = gives_up
wild ⊕ q = wild

module _ (fl : FloatText) where
  -- The inner `switch`: an item of a list.
  unfoldable pub item_text : ParamType → Simple fl → Print
  item_text bool (as_bool b) = printed (bool_text b)
  item_text uint (as_uint n) = printed (uint_text n)
  item_text int (as_int z) = printed (int_text z)
  item_text float (as_float x) = printed (fl.print x)
  item_text str (as_str (some s)) = printed (b'"' ∷ (s ++ b'"' ∷ []))
  item_text binary x = gives_up
  item_text ParamType.list x = gives_up
  item_text ty x = wild

  -- The `for` over the items: `]` behind the last one, `,` behind each other.
  unfoldable pub items_text : ParamType → List (Simple fl) → Print
  unfolding item_text
  items_text ty [] = printed []
  items_text ty (x ∷ []) = item_text ty x ⊕ printed (b']' ∷ [])
  items_text ty (x ∷ y ∷ xs) = item_text ty x ⊕ (printed (b',' ∷ []) ⊕ items_text ty (y ∷ xs))

  -- The comment behind a value.
  abbrev pub comment : Param fl → Bytes
  comment p = b' ' ∷ b'#' ∷ (p.desc ++ b'\n' ∷ [])

  abbrev pub commented : Param fl → Bytes → Print
  commented p v = printed (p.name ++ b'=' ∷ (v ++ comment p))

  -- The outer `switch`: the line of a parameter, on its type and on what its variable holds.
  unfoldable pub line_text : ParamType → Value fl → Param fl → Print
  unfolding items_text hex_text_of
  line_text bool (simple (as_bool b)) p = commented p (bool_text b)
  line_text uint (simple (as_uint n)) p = commented p (uint_text n)
  line_text int (simple (as_int z)) p = commented p (int_text z)
  line_text float (simple (as_float x)) p = commented p (fl.print x)
  line_text str (simple (as_str (some s))) p = commented p (b'"' ∷ (s ++ b'"' ∷ []))
  line_text ParamType.list (Value.list l) p =
      if leb l.count (length l.items)
      then printed (p.name ++ b'=' ∷ b'[' ∷ [])
        ⊕ (items_text l.type (take l.count l.items) ⊕ printed (b'\n' ∷ []))
      else wild
  line_text binary (bin bs) p =
      if leb p.room (length bs)
      then printed (p.name ++ b'=' ∷ b'0' ∷ b'x' ∷ (hex_text_of (take p.room bs) ++ b'\n' ∷ []))
      else wild
  line_text ty v p = wild

  unfoldable pub params_text : List (Param fl) → Print
  unfolding line_text
  params_text [] = printed []
  params_text (p ∷ ps) = line_text p.type p.val p ⊕ params_text ps

  -- param_save_txt: its result, and the file if it was written to the end. `opened`: `fopen`
  -- succeeds; if it does not, `fclose` gets a null pointer.
  pub data Saved : Type 0 where
    saves : Bytes → Saved
    refuses crashes : Saved

  abbrev pub saved : Print → Saved
  saved (printed s) = saves s
  saved gives_up = refuses
  saved wild = crashes

  unfoldable pub param_save_txt : ParamCtx fl → Bool → Saved
  unfolding params_text
  param_save_txt c opened = elim c.params [
    | [] ↦ refuses
    | p ∷ ps ↦ if opened then saved (params_text (p ∷ ps)) else crashes
  ]
