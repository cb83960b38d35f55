-- ===== src/Flags/Typed.antt =====
-- flag_parse keeps the flags in order: their names, types, defaults and descriptions stay, and each
-- holds a value of its type that fits the width of that type.
use data_commoms.Base.{
  int_min, int_max, ℕ, ◌-◌, ◌%◌, ◌^◌, ◌≡◌, refl, Bool, true, false, ◌&&◌, ◌||◌, Option, none, some,
  [], ◌∷◌, arith, length, inl, inr, Bool-cases, ltb, leb, ℤ, pos, negsuc, ltb_ℤ, ◌*◌, ◌==◌,
  length-append,
}
use native.Mathlib.Nat.{mod-lt, one-le-pow}
use data_commoms.Text.{goes_on, Bytes, strtoull, strtol, ullong_max, long_max}
use data_commoms.Flags.{
  FloatOps, FlagType, bool, uint8, uint16, uint32, uint64, int, float, double, size, str, list,
  FlagVal, as_bool, as_uint8, as_uint16, as_uint32, as_uint64, as_int, as_float, as_double, as_size,
  as_str, as_list, FlagError, no_error, flag_list_init_cap,
}
use data_commoms.Flags.Values.{
  Case, sets, stops, overruns, keep, parse_uint, parse_int, parse_size, scale_size, size_suffix,
  parse_bool, parse_float, parse_double, list_append, parse_value, is_true_word, is_false_word,
  ℤ_eq, size_max,
}

-- The range of an `int`.
abbrev pub is_int : ℤ → Bool
is_int (pos n) = ltb n (2 ^ 31)
is_int (negsuc n) = ltb n (2 ^ 31)

abbrev pub is_error : FlagError → Bool
is_error no_error = false
is_error e = true

-- If a case leaves a value, it passes the test; if it stops, it is with an error.
pub data Satisfies {A : Type 0} (p : A → Bool) : Case A → Type 0 where
  sets_ok : {a : A} → p a ≡ true → Satisfies p (sets a)
  stops_ok : {e : FlagError} → is_error e ≡ true → Satisfies p (stops e)
  overruns_ok : Satisfies p overruns

parse_uint-Satisfies : (w : ℕ) (arg : Bytes) → Satisfies (λ n. ltb n (2 ^ w)) (parse_uint w arg)
unfolding parse_uint
parse_uint-Satisfies w arg =
    let r = strtoull arg in
    let bound = mod-lt r.value (one-le-pow w 2 (omega arith)) in
    elim (Bool-cases (goes_on r.rest)) [
      | inl g ↦ rw g (stops_ok refl)
      | inr g ↦ elim (Bool-cases ((r.value == ullong_max && r.erange) || ltb (2 ^ w - 1) r.value)) [
        | inl o ↦ rw (g, o) (stops_ok refl)
        | inr o ↦ rw (g, o) (sets_ok (ground (arith, bound)))
      ]
    ]

int_range : (v : ℤ) → (ltb_ℤ int_max v || ltb_ℤ v int_min) ≡ false → is_int v ≡ true
int_range (pos n) e = ground arith
int_range (negsuc n) e = ground arith

parse_int-Satisfies : (arg : Bytes) → Satisfies is_int (parse_int arg)
unfolding parse_int
parse_int-Satisfies arg =
    let v = (strtol arg).value in
    let end = (ℤ_eq v (pos long_max) || ℤ_eq v (negsuc long_max)) && (strtol arg).erange in
    elim (Bool-cases (goes_on (strtol arg).rest)) [
      | inl g ↦ rw g (stops_ok refl)
      | inr g ↦ elim (Bool-cases end) [
        | inl o ↦ rw (g, o) (stops_ok refl)
        | inr o ↦ elim (Bool-cases (ltb_ℤ int_max v || ltb_ℤ v int_min)) [
          | inl out ↦ rw (g, o, out) (stops_ok refl)
          | inr out ↦ rw (g, o, out) (sets_ok (int_range v out))
        ]
      ]
    ]

scale_size-Satisfies :
    (base : ℕ) (m : Option ℕ) → Satisfies (λ n. ltb n (2 ^ 64)) (scale_size base m)
unfolding scale_size
scale_size-Satisfies base none = stops_ok refl
scale_size-Satisfies base (some m) =
    let bound = mod-lt (base * m) {m = 2 ^ 64} (omega arith) in
    elim (Bool-cases (ltb size_max ((base * m) % 2 ^ 128))) [
      | inl o ↦ rw o (stops_ok refl)
      | inr o ↦ rw o (sets_ok (ground (arith, bound)))
    ]

parse_size-Satisfies : (arg : Bytes) → Satisfies (λ n. ltb n (2 ^ 64)) (parse_size arg)
unfolding parse_size
parse_size-Satisfies arg =
    let r = strtoull arg in
    elim (Bool-cases (r.value == ullong_max && r.erange)) [
      | inl o ↦ rw o (stops_ok refl)
      | inr o ↦ rw o (scale_size-Satisfies r.value (size_suffix r.rest))
    ]

module _ (fl : FloatOps) where
  -- A value of the type.
  abbrev pub fits : FlagType → FlagVal fl → Bool
  fits bool (as_bool b) = true
  fits uint8 (as_uint8 n) = ltb n (2 ^ 8)
  fits uint16 (as_uint16 n) = ltb n (2 ^ 16)
  fits uint32 (as_uint32 n) = ltb n (2 ^ 32)
  fits uint64 (as_uint64 n) = ltb n (2 ^ 64)
  fits int (as_int n) = is_int n
  fits float (as_float x) = true
  fits double (as_double x) = true
  fits size (as_size n) = ltb n (2 ^ 64)
  fits str (as_str s) = true
  fits list (as_list items) = leb (length items) flag_list_init_cap
  fits _ _ = false

  keep-Satisfies :
      {A : Type 0} (t : FlagType) (ignore : Bool) (old : FlagVal fl) (f : A → FlagVal fl)
      (r : Case A)
      → fits t old ≡ true
      → Satisfies (λ a. fits t (f a)) r
      → Satisfies (fits t) (keep ignore old f r)
  keep-Satisfies t true old f (sets a) h s = sets_ok h
  keep-Satisfies t false old f (sets a) h (sets_ok s) = sets_ok s
  keep-Satisfies t ignore old f (stops e) h (stops_ok s) = stops_ok s
  keep-Satisfies t ignore old f overruns h s = overruns_ok

  parse_float-Satisfies : (arg : Bytes) → Satisfies (λ x. true) (parse_float fl arg)
  unfolding parse_float
  parse_float-Satisfies arg =
      let r = fl.strtof arg in
      elim (Bool-cases (goes_on r.rest)) [
        | inl g ↦ rw g (stops_ok refl)
        | inr g ↦ elim (Bool-cases (fl.is_flt_max r.value && r.erange)) [
          | inl o ↦ rw (g, o) (stops_ok refl)
          | inr o ↦ rw (g, o) (sets_ok refl)
        ]
      ]

  parse_double-Satisfies : (arg : Bytes) → Satisfies (λ x. true) (parse_double fl arg)
  unfolding parse_double
  parse_double-Satisfies arg =
      let r = fl.strtod arg in
      elim (Bool-cases (goes_on r.rest)) [
        | inl g ↦ rw g (stops_ok refl)
        | inr g ↦ elim (Bool-cases (fl.is_dbl_max r.value && r.erange)) [
          | inl o ↦ rw (g, o) (stops_ok refl)
          | inr o ↦ rw (g, o) (sets_ok refl)
        ]
      ]

  pub parse_value-Satisfies :
      (t : FlagType) (ignore : Bool) (old : FlagVal fl) (arg : Bytes)
      → fits t old ≡ true
      → Satisfies (fits t) (parse_value fl t ignore old arg)
  unfolding parse_value parse_bool list_append
  parse_value-Satisfies bool true old arg h = sets_ok h
  parse_value-Satisfies bool false old arg h = elim (Bool-cases (is_true_word arg)) [
    | inl y ↦ rw y (sets_ok refl)
    | inr y ↦ elim (Bool-cases (is_false_word arg)) [
      | inl n ↦ rw (y, n) (sets_ok refl)
      | inr n ↦ rw (y, n) (stops_ok refl)
    ]
  ]
  parse_value-Satisfies uint8 ignore old arg h =
      keep-Satisfies uint8 ignore old as_uint8 (parse_uint 8 arg) h (parse_uint-Satisfies 8 arg)
  parse_value-Satisfies uint16 ignore old arg h =
      keep-Satisfies uint16 ignore old as_uint16 (parse_uint 16 arg) h (parse_uint-Satisfies 16 arg)
  parse_value-Satisfies uint32 ignore old arg h =
      keep-Satisfies uint32 ignore old as_uint32 (parse_uint 32 arg) h (parse_uint-Satisfies 32 arg)
  parse_value-Satisfies uint64 ignore old arg h =
      keep-Satisfies uint64 ignore old as_uint64 (parse_uint 64 arg) h (parse_uint-Satisfies 64 arg)
  parse_value-Satisfies int ignore old arg h =
      keep-Satisfies int ignore old as_int (parse_int arg) h (parse_int-Satisfies arg)
  parse_value-Satisfies float ignore old arg h =
      keep-Satisfies float ignore old as_float (parse_float fl arg) h (parse_float-Satisfies arg)
  parse_value-Satisfies double ignore old arg h =
      keep-Satisfies double ignore old as_double (parse_double fl arg) h
        (parse_double-Satisfies arg)
  parse_value-Satisfies size ignore old arg h =
      keep-Satisfies size ignore old as_size (parse_size arg) h (parse_size-Satisfies arg)
  parse_value-Satisfies str true old arg h = sets_ok h
  parse_value-Satisfies str false old arg h = sets_ok refl
  parse_value-Satisfies list true old arg h = sets_ok h
  parse_value-Satisfies list false (as_list items) arg h =
      elim (Bool-cases (ltb (length items) flag_list_init_cap)) [
        | inl o ↦ rw o (sets_ok (ground (arith, length-append items (arg ∷ []))))
        | inr o ↦ rw o overruns_ok
      ]
  parse_value-Satisfies list false old arg h = overruns_ok
