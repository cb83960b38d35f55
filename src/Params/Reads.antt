-- ===== src/Params/Reads.antt =====
-- How the line of one parameter reads back, on each type with one value.
use mathlib.Core.List.{append_assoc, append-nil}
use data_commoms.Base.{
  ℕ, ◌^◌, ◌<◌, ◌≡◌, refl, Bool, true, false, some, [], ◌∷◌, ◌++◌, arith, length, ltb, length-append,
  ◌≤◌, ℤ, ◌≤ℤ◌, int_max, int_min, to_int32,
}
use data_commoms.Text.{Bytes, goes_on}
use data_commoms.Text.Find.{lacks, strchr-append}
use data_commoms.Params.{
  FloatText, bool, uint, int, float, str, Value, Param, simple, as_bool, as_uint, as_int, as_float,
  as_str,
}
use data_commoms.Params.Line.{stored, blanks, value_end, store_as, param_turn, sets}
use data_commoms.Params.Keys.{is_name, find_value-front}
use data_commoms.Text.Decimal.{int_text}
use data_commoms.Params.Save.{uint_text, bool_text}
use data_commoms.Params.Words.{
  is_word, turn-word, int_text-word, atoi-int_text, strtoull-uint_text, bool_word-bool_text,
  bool_text-word,
}

module _ (fl : FloatText) (junk : Bytes) where
  abbrev pub with_val : Param fl → Value fl → Param fl
  with_val q v = record q { val = v; has_changed = true }

  -- The parameter takes the value on the line with this text behind the `=`, and leaves a line
  -- that is no longer and has no other `=`.
  abbrev pub Reads : Param fl → Value fl → Bytes → Type 0
  Reads q v tail =
      (cut : Bytes) × (lacks b'=' cut ≡ true)
      × (length cut ≤ length tail)
      × (param_turn fl junk q (q.name ++ b'=' ∷ tail) ≡ sets (with_val q v) (q.name ++ b'=' ∷ cut))

  abbrev pub Fits : Param fl → Bytes → Type 0
  Fits q tail = (is_name q.name ≡ true) × (length (q.name ++ b'=' ∷ tail) < 256)

  Reads-word :
      (q : Param fl) (v : Value fl) (w rest : Bytes)
      → Fits q (w ++ b' ' ∷ rest)
      → is_word w ≡ true
      → value_end q.type ≡ value_end bool
      → store_as fl junk q.type q w ≡ stored (with_val q v)
      → Reads q v (w ++ b' ' ∷ rest)
  unfolding value_end
  Reads-word q v w rest (n, le) word e st = (
    w,
    ground arith,
    (let l = length-append w (b' ' ∷ rest) in omega arith),
    rw (turn-word fl junk q w rest n le word (λ x. rw e refl), st) refl,
  )

  pub Reads-bool :
      (q : Param fl) (b : Bool) (rest : Bytes)
      → q.type ≡ bool
      → Fits q (bool_text b ++ b' ' ∷ rest)
      → Reads q (simple (as_bool b)) (bool_text b ++ b' ' ∷ rest)
  unfolding store_as
  Reads-bool q b rest t f =
      Reads-word q (simple (as_bool b)) (bool_text b) rest f (bool_text-word b) (rw t refl)
        (rw (t, bool_word-bool_text b) refl)

  pub Reads-uint :
      (q : Param fl) (n : ℕ) (rest : Bytes)
      → q.type ≡ uint
      → n < 2 ^ 32
      → 8 ≤ q.room
      → Fits q (uint_text n ++ b' ' ∷ rest)
      → Reads q (simple (as_uint n)) (uint_text n ++ b' ' ∷ rest)
  unfolding store_as value_end
  Reads-uint q n rest t h fits f =
      let (stops, low) = strtoull-uint_text n h in
      let wide : ltb q.room 8 ≡ false = ground arith in
      Reads-word q (simple (as_uint n)) (uint_text n) rest f (int_text-word (to_int32 n))
        (rw t refl) (rw (t, stops, low, wide) refl)

  pub Reads-int :
      (q : Param fl) (z : ℤ) (rest : Bytes)
      → q.type ≡ int
      → int_min ≤ℤ z
      → z ≤ℤ int_max
      → Fits q (int_text z ++ b' ' ∷ rest)
      → Reads q (simple (as_int z)) (int_text z ++ b' ' ∷ rest)
  unfolding store_as value_end
  Reads-int q z rest t lo hi f =
      Reads-word q (simple (as_int z)) (int_text z) rest f (int_text-word z) (rw t refl)
        (rw (t, atoi-int_text z lo hi) refl)

  pub Reads-float :
      (q : Param fl) (w rest : Bytes)
      → q.type ≡ float
      → is_word w ≡ true
      → goes_on (fl.strtof w).rest ≡ false
      → Fits q (w ++ b' ' ∷ rest)
      → Reads q (simple (as_float (fl.strtof w).value)) (w ++ b' ' ∷ rest)
  unfolding store_as value_end
  Reads-float q w rest t word stops f =
      Reads-word q (simple (as_float (fl.strtof w).value)) w rest f word (rw t refl)
        (rw (t, stops) refl)

  pub Reads-str :
      (q : Param fl) (s rest : Bytes)
      → q.type ≡ str
      → lacks b'"' s ≡ true
      → lacks b'=' s ≡ true
      → length s < q.room
      → Fits q (b'"' ∷ (s ++ b'"' ∷ rest))
      → Reads q (simple (as_str (some s))) (b'"' ∷ (s ++ b'"' ∷ rest))
  unfolding param_turn value_end store_as blanks
  Reads-str q s rest t quote eq fits (n, le) = (
    b'"' ∷ s,
    eq,
    (let l = length-append s (b'"' ∷ rest) in omega arith),
    let in_room : ltb (length s) q.room ≡ true = ground arith in
        rw
          (
            find_value-front q.name (b'"' ∷ (s ++ b'"' ∷ rest)) n le,
            t,
            strchr-append b'"' s rest quote,
            in_room,
            append-nil (q.name ++ b'=' ∷ []),
            append_assoc,
          )
          refl,
  )
