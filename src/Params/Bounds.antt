-- ===== src/Params/Bounds.antt =====
-- What a value that is read can be, whatever the line holds: the sizes of the variables are kept.
use data_commoms.Base.{
  ℕ, zero, suc, ◌%◌, ◌^◌, ◌≤◌, ◌<◌, ◌≡◌, refl, ap, ◌∙◌, Bool, false, Option, some, none, List, [],
  ◌∷◌, arith, length, length-set, set, get_or, ltb, leb, ◌==◌, Bool-cases, inl, inr, ℤ, ◌≤ℤ◌,
  int_max, int_min, to_int32, to_size,
}
use data_commoms.Text.{Bytes, text, strtol}
use data_commoms.Text.Search.{strtok, strtoul_16}
use data_commoms.Params.{
  FloatText, ParamType, bool, uint, int, float, str, binary, Simple, as_bool, as_uint, as_int,
  as_float, as_str, ParamList, Value, simple, bin, param_list_init_cap,
}
use data_commoms.Params.Items.{
  Item, item, bad, wild, Listed, listed, fault, list_max, read_item, store_items, parse_list_param,
}
use data_commoms.Params.Line.{atoi, read_bytes, over}

module _ (fl : FloatText) where
  -- A value of its type: numbers in 32 bits, a list within its array, and binary data of
  -- the length of the parameter.
  pub data Sound : ParamType → ℕ → Value fl → Type 0 where
    sound_bool : (n : ℕ) (b : Bool) → Sound bool n (simple (as_bool b))
    sound_uint : (n x : ℕ) → x < 2 ^ 32 → Sound uint n (simple (as_uint x))
    sound_int : (n : ℕ) (z : ℤ) → int_min ≤ℤ z → z ≤ℤ int_max → Sound int n (simple (as_int z))
    sound_float : (n : ℕ) (x : fl.Float) → Sound float n (simple (as_float x))
    sound_str : (n : ℕ) (s : Bytes) → Sound str n (simple (as_str (some s)))
    sound_list :
        (n : ℕ) (l : ParamList fl)
        → length l.items ≡ param_list_init_cap
        → l.count ≤ param_list_init_cap
        → Sound ParamType.list n (Value.list l)
    sound_bin : (bs : Bytes) → Sound binary (length bs) (bin bs)

  -- The list keeps its array, and does not pass its end.
  abbrev pub InArray : ParamList fl → Listed fl → Type 0
  InArray l (listed b l') =
      (length l'.items ≡ length l.items)
      × (l.count ≤ param_list_init_cap → l'.count ≤ param_list_init_cap)
  InArray l fault = Unit

  InArray-stored :
      (l : ParamList fl) (idx : ℕ) (x : Simple fl) (r : Listed fl)
      → idx < list_max
      → InArray (record l { items = set l.items idx x; count = suc idx }) r
      → InArray l r
  InArray-stored l idx x (listed b l') h (len, cnt) =
      (len ∙ length-set l.items idx x, λ _. cnt (omega arith))
  InArray-stored l idx x fault h i = tt

  store_items-InArray :
      (ty : ParamType) (idx : ℕ) (l : ParamList fl) (ts : List Bytes)
      → InArray l (store_items fl ty idx l ts)
  unfolding store_items
  store_items-InArray ty idx l [] = (refl, λ h. h)
  store_items-InArray ty idx l (t ∷ ts) = elim (Bool-cases (leb list_max idx)) [
    | inl e ↦ rw (store_items, e) (refl, λ h. h)
    | inr e ↦
        rw (store_items, e)
          (go (read_item fl ty (get_or l.items idx (as_str none)) t) (ground arith) (λ x.
            store_items-InArray ty (suc idx)
              (record l { items = set l.items idx x; count = suc idx }) ts))
  ]
    where
      go :
          (i : Item fl)
          → idx < list_max
          → ((x : Simple fl)
              → InArray
                  (record l { items = set l.items idx x; count = suc idx })
                  (store_items fl ty
                    (suc idx)
                    (record l { items = set l.items idx x; count = suc idx })
                    ts))
          → InArray l (elim i [
            | item x ↦
                store_items fl ty
                  (suc idx)
                  (record l { items = set l.items idx x; count = suc idx })
                  ts
            | bad ↦ listed false l
            | wild ↦ fault
          ])
      go (item x) h rest =
          InArray-stored l idx x
            (store_items fl ty (suc idx) (record l { items = set l.items idx x; count = suc idx })
              ts)
            h (rest x)
      go bad h rest = (refl, λ k. k)
      go wild h rest = tt

  -- ParseListParam, on any text: no item behind the end of the array.
  pub parse_list_param-InArray :
      (ty : ParamType) (l : ParamList fl) (s : Bytes) → InArray l (parse_list_param fl ty l s)
  unfolding parse_list_param
  parse_list_param-InArray ty l [] = (refl, λ h. h)
  parse_list_param-InArray ty l (c ∷ inner) = elim (Bool-cases (c == b'[')) [
    | inl e ↦ rw (parse_list_param, e) (store_items-InArray ty 0 l (strtok (text ", ") inner))
    | inr e ↦ rw (parse_list_param, e) (refl, λ h. h)
  ]

pub atoi-int_range : (s : Bytes) → (int_min ≤ℤ atoi s) × (atoi s ≤ℤ int_max)
unfolding atoi
atoi-int_range s = go (to_size (strtol s).value)
  where
    go : (n : ℕ) → (int_min ≤ℤ to_int32 n) × (to_int32 n ≤ℤ int_max)
    go n = elim (Bool-cases (ltb (n % 2 ^ 32) (2 ^ 31))) [
      | inl e ↦ rw e (omega arith, ground arith)
      | inr e ↦ rw e (ground arith, ground arith)
    ]

-- As many bytes at most as there is room for.
abbrev pub AtMost : ℕ → Option Bytes → Type 0
AtMost n none = Unit
AtMost n (some bs) = length bs ≤ n

pub read_bytes-AtMost : (junk : Bytes) (room : ℕ) (s : Bytes) → AtMost room (read_bytes junk room s)
unfolding read_bytes
read_bytes-AtMost junk room [] = omega arith
read_bytes-AtMost junk room (a ∷ []) = tt
read_bytes-AtMost junk zero (a ∷ b ∷ v) = tt
read_bytes-AtMost junk (suc room) (a ∷ b ∷ v) =
    go (read_bytes junk room v) (read_bytes-AtMost junk room v)
  where
    go :
        (o : Option Bytes)
        → AtMost room o
        → AtMost
            (suc room)
            (elim o [ none ↦ none | some bs ↦ some ((strtoul_16 (a ∷ b ∷ junk) % 256) ∷ bs) ])
    go none h = tt
    go (some bs) h = omega arith

pub length-over : (bs old : Bytes) → length bs ≤ length old → length (over bs old) ≡ length old
length-over [] old h = refl
length-over (b ∷ bs) [] h = absurd (omega arith)
length-over (b ∷ bs) (o ∷ old) h = ap suc (length-over bs old (omega arith))
