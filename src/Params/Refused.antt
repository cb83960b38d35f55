-- ===== src/Params/Refused.antt =====
-- A line that param_parse_txt refuses is refused with an error.
use data_commoms.Base.{
  ◌≡◌, inl, inr, refl, Bool, true, false, Option, none, some, ◌++◌, ltb, length, ◌/◌, Bool-cases,
}
use data_commoms.Text.{Bytes, strtoull, goes_on}
use data_commoms.Params.{
  FloatText, ParamType, bool, uint, int, float, str, binary, ParamError, no_error, Value, bin,
  Param, max_bin,
}
use data_commoms.Params.Items.{bool_word, Listed, listed, parse_list_param}
use data_commoms.Params.Line.{
  Found, absent, overrun, value_at, find_value, blanks, Ends, no_end, wild, ends, value_end, Stored,
  stored, refused, hex_text, read_bytes, drop_last, store_bool, store_list, store_list_of,
  store_bytes, store_as, Turn, passes, sets, breaks, fails, crashes, after_store, after_end,
  after_find, param_turn,
}
use data_commoms.Params.Line

abbrev pub is_error : ParamError → Bool
is_error no_error = false
is_error e = true

module _ (fl : FloatText) (junk : Bytes) where
  -- What is refused is refused with an error.
  abbrev StoredOk : Stored fl → Type 0
  StoredOk (stored p) = Unit
  StoredOk (refused e) = is_error e ≡ true
  StoredOk Line.fault = Unit

  store_bool-Ok : (p : Param fl) (o : Option Bool) → StoredOk (store_bool fl junk p o)
  store_bool-Ok p none = refl
  store_bool-Ok p (some b) = tt

  store_list-Ok : (p : Param fl) (l : Listed fl) → StoredOk (store_list fl junk p l)
  store_list-Ok p (listed true l) = tt
  store_list-Ok p (listed false l) = tt
  store_list-Ok p Listed.fault = tt

  store_list_of-Ok :
      (p : Param fl) (v : Value fl) (s : Bytes) → StoredOk (store_list_of fl junk p v s)
  store_list_of-Ok p (Value.list l) s =
      store_list-Ok p (parse_list_param fl p.list_type l (drop_last s))
  store_list_of-Ok p (Value.simple x) s = tt
  store_list_of-Ok p (bin x) s = tt

  store_bytes-Ok :
      (p : Param fl) (v : Value fl) (o : Option Bytes) → StoredOk (store_bytes fl junk p v o)
  store_bytes-Ok p (bin old) (some bs) = tt
  store_bytes-Ok p (bin old) none = tt
  store_bytes-Ok p (Value.simple x) o = tt
  store_bytes-Ok p (Value.list x) o = tt

  store_as-Ok : (t : ParamType) (p : Param fl) (v : Bytes) → StoredOk (store_as fl junk t p v)
  unfolding store_as
  store_as-Ok bool p v = store_bool-Ok p (bool_word v)
  store_as-Ok uint p v = elim (Bool-cases (goes_on (strtoull v).rest)) [
    | inl e ↦ rw e refl
    | inr e ↦ elim (Bool-cases (ltb p.room 8)) [ inl f ↦ rw (e, f) tt | inr f ↦ rw (e, f) tt ]
  ]
  store_as-Ok int p v = tt
  store_as-Ok float p v = elim (Bool-cases (goes_on (fl.strtof v).rest)) [
    | inl e ↦ rw e refl
    | inr e ↦ rw e tt
  ]
  store_as-Ok str p v = elim (Bool-cases (ltb (length v) p.room)) [
    | inl e ↦ rw e tt
    | inr e ↦ rw e tt
  ]
  store_as-Ok ParamType.list p v = store_list_of-Ok p p.val v
  store_as-Ok binary p v =
      let w = hex_text v in
      elim (Bool-cases (ltb max_bin (length w / 2))) [
        | inl e ↦ rw e refl
        | inr e ↦ rw e (store_bytes-Ok p p.val (read_bytes junk p.room w))
      ]

  abbrev pub TurnOk : Turn fl junk → Type 0
  TurnOk (fails e) = is_error e ≡ true
  TurnOk t = Unit

  after_store-Ok : (line : Bytes) (s : Stored fl) → StoredOk s → TurnOk (after_store fl junk line s)
  after_store-Ok line (stored p) h = tt
  after_store-Ok line (refused e) h = h
  after_store-Ok line Line.fault h = tt

  after_end-Ok : (p : Param fl) (before : Bytes) (e : Ends) → TurnOk (after_end fl junk p before e)
  after_end-Ok p before no_end = tt
  after_end-Ok p before wild = tt
  after_end-Ok p before (ends skipped v) =
      after_store-Ok (before ++ (skipped ++ v)) (store_as fl junk p.type p v)
        (store_as-Ok p.type p v)

  after_find-Ok : (p : Param fl) (f : Found) → TurnOk (after_find fl junk p f)
  after_find-Ok p absent = tt
  after_find-Ok p overrun = tt
  after_find-Ok p (value_at before v) =
      let (sp, w) = blanks v in after_end-Ok p (before ++ sp) (value_end p.type w)

  pub param_turn-Ok : (p : Param fl) (line : Bytes) → TurnOk (param_turn fl junk p line)
  unfolding param_turn
  param_turn-Ok p line = after_find-Ok p (find_value p.name line)
