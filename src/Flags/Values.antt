-- ===== src/Flags/Values.antt =====
-- The cases of the `switch` in flag_parse: what each type makes of its argument.
use data_commoms.Base.{
  int_min, int_max, ℕ, ◌-◌, ◌*◌, ◌%◌, ◌^◌, Bool, true, false, not, ◌&&◌, ◌||◌, Option, none, some,
  [], ◌∷◌, ◌++◌, length, ◌==◌, ltb, if◌then◌else◌, ℤ, pos, negsuc, ltb_ℤ,
}
use data_commoms.Text.{goes_on, text, Bytes, streq, strtoull, strtol, toupper, ullong_max, long_max}
use data_commoms.Flags.{
  FloatOps, FlagType, bool, uint8, uint16, uint32, uint64, int, float, double, size, str, list,
  FlagError, unknown, invalid_number, integer_overflow, float_overflow, FlagVal, as_bool, as_uint8,
  as_uint16, as_uint32, as_uint64, as_int, as_float, as_double, as_size, as_str, as_list,
  flag_list_init_cap,
}

-- What a case does: it leaves the value of the flag, or stops with an error, or the code writes
-- out of the bounds of an array.
pub data Case {ℓ} (A : Type ℓ) : Type ℓ where
  sets : A → Case A
  stops : FlagError → Case A
  overruns : Case A

unfoldable pub is_true_word : Bytes → Bool
is_true_word arg =
    streq arg (text "1")
    || streq arg (text "true")
    || streq arg (text "yes")
    || streq arg (text "si")

unfoldable pub is_false_word : Bytes → Bool
is_false_word arg = streq arg (text "0") || streq arg (text "false") || streq arg (text "no")

-- The check of FLAG_UINT8 to FLAG_UINT64 against the greatest value, and the conversion.
unfoldable pub parse_uint : ℕ → Bytes → Case ℕ
parse_uint w arg =
    let r = strtoull arg in
    if goes_on r.rest
    then stops invalid_number
    else if (r.value == ullong_max && r.erange) || ltb (2 ^ w - 1) r.value
    then stops integer_overflow
    else sets (r.value % 2 ^ w)

abbrev pub ℤ_eq : ℤ → ℤ → Bool
ℤ_eq a b = not (ltb_ℤ a b) && not (ltb_ℤ b a)

-- The case FLAG_INT; the conversion to `int` is exact in range.
unfoldable pub parse_int : Bytes → Case ℤ
parse_int arg =
    let r = strtol arg in
    if goes_on r.rest
    then stops invalid_number
    else if (ℤ_eq r.value (pos long_max) || ℤ_eq r.value (negsuc long_max)) && r.erange
    then stops integer_overflow
    else if ltb_ℤ int_max r.value || ltb_ℤ r.value int_min
    then stops integer_overflow
    else sets r.value

-- The inner `switch` of FLAG_SIZE on the suffix letter.
unfoldable pub size_mult : ℕ → Option ℕ
size_mult s2 =
    if s2 == b'K'
    then some 1024
    else if s2 == b'M'
    then some (1024 * 1024)
    else if s2 == b'G'
    then some (1024 * 1024 * 1024)
    else if s2 == b'T'
    then some (1024 * 1024 * 1024 * 1024)
    else if s2 == b'P'
    then some (1024 * 1024 * 1024 * 1024 * 1024)
    else none

-- What stands behind the number: nothing, or one letter.
unfoldable pub size_suffix : Bytes → Option ℕ
unfolding size_mult
size_suffix [] = some 1
size_suffix (s ∷ []) = size_mult (toupper s)
size_suffix (s ∷ t ∷ rest) = none

abbrev pub size_max : ℕ
size_max = 2 ^ 64 - 1

-- The product as `__uint128_t`, and in 64 bits.
unfoldable pub scale_size : ℕ → Option ℕ → Case ℕ
scale_size base none = stops invalid_number
scale_size base (some mult) =
    let wide = (base * mult) % 2 ^ 128 in
    if ltb size_max wide then stops integer_overflow else sets ((base * mult) % 2 ^ 64)

-- The case FLAG_SIZE.
unfoldable pub parse_size : Bytes → Case ℕ
unfolding size_suffix scale_size
parse_size arg =
    let r = strtoull arg in
    if r.value == ullong_max && r.erange
    then stops integer_overflow
    else scale_size r.value (size_suffix r.rest)

-- The value is stored if the flag is not to be ignored.
abbrev pub keep {ℓ κ} : {A : Type ℓ} {V : Type κ} → Bool → V → (A → V) → Case A → Case V
keep ignore old f (sets a) = sets (if ignore then old else f a)
keep ignore old f (stops e) = stops e
keep ignore old f overruns = overruns

module _ (fl : FloatOps) where
  -- The case FLAG_BOOL: an ignored argument is not even read.
  unfoldable pub parse_bool : Bool → FlagVal fl → Bytes → Case (FlagVal fl)
  unfolding is_true_word is_false_word
  parse_bool ignore old arg =
      if ignore
      then sets old
      else if is_true_word arg
      then sets (as_bool true)
      else if is_false_word arg
      then sets (as_bool false)
      else stops unknown

  -- The case FLAG_FLOAT.
  unfoldable pub parse_float : Bytes → Case fl.Float
  parse_float arg =
      let r = fl.strtof arg in
      if goes_on r.rest
      then stops invalid_number
      else if fl.is_flt_max r.value && r.erange
      then stops float_overflow
      else sets r.value

  -- The case FLAG_DOUBLE.
  unfoldable pub parse_double : Bytes → Case fl.Double
  parse_double arg =
      let r = fl.strtod arg in
      if goes_on r.rest
      then stops invalid_number
      else if fl.is_dbl_max r.value && r.erange
      then stops float_overflow
      else sets r.value

  -- flag_list_append on the value of a list flag. The code has no test of the capacity.
  unfoldable pub list_append : FlagVal fl → Bytes → Case (FlagVal fl)
  list_append (as_list items) item =
      if ltb (length items) flag_list_init_cap
      then sets (as_list (items ++ item ∷ []))
      else overruns
  list_append v item = overruns

  -- The `switch`: the type of the flag, `ignore`, the value it has, and the argument.
  unfoldable pub parse_value : FlagType → Bool → FlagVal fl → Bytes → Case (FlagVal fl)
  parse_value bool ignore old arg = parse_bool ignore old arg
  parse_value uint8 ignore old arg = keep ignore old as_uint8 (parse_uint 8 arg)
  parse_value uint16 ignore old arg = keep ignore old as_uint16 (parse_uint 16 arg)
  parse_value uint32 ignore old arg = keep ignore old as_uint32 (parse_uint 32 arg)
  parse_value uint64 ignore old arg = keep ignore old as_uint64 (parse_uint 64 arg)
  parse_value int ignore old arg = keep ignore old as_int (parse_int arg)
  parse_value float ignore old arg = keep ignore old as_float (parse_float arg)
  parse_value double ignore old arg = keep ignore old as_double (parse_double arg)
  parse_value size ignore old arg = keep ignore old as_size (parse_size arg)
  parse_value str ignore old arg = sets (if ignore then old else as_str (some arg))
  parse_value list ignore old arg = if ignore then sets old else list_append old arg
