-- ===== src/Params/Line.antt =====
-- The body of the `for` over the parameters in param_parse_txt: one parameter on one line.
use data_commoms.Base.{
  ℕ, zero, suc, ◌/◌, ◌%◌, ◌^◌, Bool, true, false, Option, none, some, [], ◌∷◌, ◌++◌, ◌==◌, ltb, leb,
  if◌then◌else◌, length, ℤ, to_int32, to_size,
}
use data_commoms.Text.{Bytes, text, streq, strchr, strtoull, strtol, goes_on}
use data_commoms.Text.Search.{strstr, strtoul_16, is_some}
use data_commoms.Params.{
  FloatText, ParamType, bool, uint, int, float, str, binary, ParamError, unknown, invalid_number,
  bin_overflow, as_bool, as_uint, as_int, as_float, as_str, Value, simple, bin, Param, max_bin,
}
use data_commoms.Params.Items.{bool_word, Listed, listed, parse_list_param}

-- `name[j]` is compared with a space from `j = 1` on: the name up to that space.
unfoldable pub cut_name : Bytes → Bytes
cut_name [] = []
cut_name (c ∷ s) = c ∷ (strchr s b' ').0

-- Where the value of a parameter starts: the parameter is not on the line; `strcpy` writes past the
-- 256 bytes of `name`; or the line is `before` and the text behind the `=`.
pub data Found : Type 0 where
  absent overrun : Found
  value_at : Bytes → Bytes → Found

-- The text from the name on, split at the first `=`.
abbrev pub at_equals : Bytes → Bytes → Bytes × Option Bytes → Found
at_equals name before (key, none) = absent
at_equals name before (key, some v) =
    if streq (cut_name key) name then value_at (before ++ (key ++ b'=' ∷ [])) v else absent

unfoldable pub find_value : Bytes → Bytes → Found
unfolding cut_name
find_value name line = elim (strstr line name) [
  | none ↦ absent
  | some (before, from) ↦
      if leb 256 (length from) then overrun else at_equals name before (strchr from b'=')
]

-- The spaces before the value, and what stands behind them.
unfoldable pub blanks : Bytes → Bytes × Bytes
blanks [] = ([], [])
blanks (c ∷ s) = let (sp, v) = blanks s in if c == b' ' then (c ∷ sp, v) else ([], c ∷ s)

-- Where the value ends. `no_end`: `val_end` is null. `wild`: a null pointer is incremented, or the
-- pointer passes the end of the string. `ends skipped val` is what stands before the value, and
-- the value: the line is cut behind it.
pub data Ends : Type 0 where
  no_end wild : Ends
  ends : Bytes → Bytes → Ends

-- The value up to the byte `c`.
abbrev pub up_to_byte : Bytes → Bytes × Option Bytes → Ends
up_to_byte skipped (v, none) = no_end
up_to_byte skipped (v, some rest) = ends skipped v

abbrev pub up_to_space : Bytes → Bytes × Option Bytes → Ends
up_to_space v (a, some rest) = ends [] a
up_to_space v (a, none) = up_to_byte [] (strchr v b'\n')

abbrev pub up_to_bracket : Bytes × Option Bytes → Ends
up_to_bracket (a, some rest) = ends [] (a ++ b']' ∷ [])
up_to_bracket (a, none) = wild

unfoldable pub value_end : ParamType → Bytes → Ends
value_end ParamType.list v = up_to_bracket (strchr v b']')
value_end str [] = wild
value_end str (c ∷ v) = up_to_byte (c ∷ []) (strchr v b'"')
value_end _ v = up_to_space v (strchr v b' ')

-- What the `switch` does: it writes the variable and has_changed, returns false with an error, or
-- goes wrong.
pub data Stored (fl : FloatText) : Type 0 where
  stored : Param fl → Stored fl
  refused : ParamError → Stored fl
  fault : Stored fl

-- `atoi`, which reads a `long` and keeps 32 bits.
unfoldable pub atoi : Bytes → ℤ
atoi s = to_int32 (to_size (strtol s).value)

-- A `0x` anywhere in the text skips two bytes.
abbrev pub hex_text : Bytes → Bytes
hex_text (a ∷ b ∷ v) = if is_some (strstr (a ∷ b ∷ v) (text "0x")) then v else a ∷ b ∷ v
hex_text v = v

-- The loop over pairs of digits; `junk` stands in memory behind the two bytes of `temp`. `none`:
-- the number of digits is odd, and the loop runs past the end; or `room` is used up.
unfoldable pub read_bytes : Bytes → ℕ → Bytes → Option Bytes
read_bytes junk room [] = some []
read_bytes junk room (a ∷ []) = none
read_bytes junk zero (a ∷ b ∷ v) = none
read_bytes junk (suc room) (a ∷ b ∷ v) = elim (read_bytes junk room v) [
  | none ↦ none
  | some bs ↦ some ((strtoul_16 (a ∷ b ∷ junk) % 256) ∷ bs)
]

-- The bytes that are read over those that the variable holds.
abbrev pub over : Bytes → Bytes → Bytes
over [] old = old
over (b ∷ bs) [] = b ∷ bs
over (b ∷ bs) (o ∷ old) = b ∷ over bs old

-- The text before the closing bracket.
abbrev pub drop_last : Bytes → Bytes
drop_last [] = []
drop_last (c ∷ []) = []
drop_last (c ∷ d ∷ s) = c ∷ drop_last (d ∷ s)

module _ (fl : FloatText) (junk : Bytes) where
  abbrev pub changes : Param fl → Value fl → Stored fl
  changes p v = stored (record p { val = v; has_changed = true })

  abbrev pub store_bool : Param fl → Option Bool → Stored fl
  store_bool p none = refused unknown
  store_bool p (some b) = changes p (simple (as_bool b))

  -- The result of ParseListParam is not looked at.
  abbrev pub store_list : Param fl → Listed fl → Stored fl
  store_list p (listed true l) = changes p (Value.list l)
  store_list p (listed false l) = stored (record p { val = Value.list l })
  store_list p Listed.fault = fault

  abbrev pub store_list_of : Param fl → Value fl → Bytes → Stored fl
  store_list_of p (Value.list l) v = store_list p (parse_list_param fl p.list_type l (drop_last v))
  store_list_of p _ v = fault

  abbrev pub store_bytes : Param fl → Value fl → Option Bytes → Stored fl
  store_bytes p (bin old) (some bs) = changes p (bin (over bs old))
  store_bytes p v bs = fault

  -- The `switch` on the type. For an unsigned number the code writes the eight bytes of an
  -- `unsigned long`, of which the variable gets the low four; `strcpy` writes the string and its
  -- NUL. Both are faults if the variable has not that much room.
  unfoldable pub store_as : ParamType → Param fl → Bytes → Stored fl
  unfolding bool_word atoi read_bytes parse_list_param
  store_as bool p v = store_bool p (bool_word v)
  store_as uint p v =
      let r = strtoull v in
      if goes_on r.rest
      then refused invalid_number
      else if ltb p.room 8
      then fault
      else changes p (simple (as_uint (r.value % 2 ^ 32)))
  store_as int p v = changes p (simple (as_int (atoi v)))
  store_as float p v =
      let r = fl.strtof v in
      if goes_on r.rest then refused invalid_number else changes p (simple (as_float r.value))
  store_as str p v = if ltb (length v) p.room then changes p (simple (as_str (some v))) else fault
  store_as ParamType.list p v = store_list_of p p.val v
  store_as binary p v =
      let w = hex_text v in
      if ltb max_bin (length w / 2)
      then refused bin_overflow
      else store_bytes p p.val (read_bytes junk p.room w)

  -- How a turn of the `for` ends: the next parameter gets the line as it is then; `break`; `return
  -- false`; or a fault. `found` is set in each but those where the parameter is not on the line.
  pub data Turn : Type 0 where
    passes : Turn
    sets : Param fl → Bytes → Turn
    breaks : Turn
    fails : ParamError → Turn
    crashes : Turn

  abbrev pub after_store : Bytes → Stored fl → Turn
  after_store line (stored p) = sets p line
  after_store line (refused e) = fails e
  after_store line fault = crashes

  abbrev pub after_end : Param fl → Bytes → Ends → Turn
  after_end p before no_end = breaks
  after_end p before wild = crashes
  after_end p before (ends skipped v) = after_store (before ++ (skipped ++ v)) (store_as p.type p v)

  abbrev pub after_find : Param fl → Found → Turn
  after_find p absent = passes
  after_find p overrun = crashes
  after_find p (value_at before v) =
      let (sp, w) = blanks v in after_end p (before ++ sp) (value_end p.type w)

  unfoldable pub param_turn : Param fl → Bytes → Turn
  unfolding find_value blanks value_end store_as
  param_turn p line = after_find p (find_value p.name line)
