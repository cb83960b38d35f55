-- ===== src/Params/Restore.antt =====
-- The values that a line of a parameter file can hold, and that each such line reads back.
use mathlib.Core.List.{append_assoc}
use data_commoms.Base.{
  ℕ, ◌^◌, ◌≤◌, ◌<◌, ◌≡◌, refl, Bool, true, false, some, [], ◌∷◌, ◌++◌, arith, length, map, take,
  ltb, ℤ, ◌≤ℤ◌, int_max, int_min,
}
use data_commoms.Text.{Bytes, goes_on}
use data_commoms.Text.Find.{lacks, lacks-append}
use data_commoms.Params.{
  FloatText, ParamType, bool, uint, int, float, str, binary, as_bool, as_uint, as_int, as_float,
  as_str, ParamList, Param, Value, simple, bin,
}
use data_commoms.Params.Items.{list_max}
use data_commoms.Params.Keys.{is_name}
use data_commoms.Params.Save.{Print, printed, gives_up, wild, line_text, comment, commented}
use data_commoms.Params.Words.{is_word}
use data_commoms.Params.Reads.{Reads, Fits}
use data_commoms.Params.Hex.{starts_hex, are_bytes}
use data_commoms.Params.Tokens.{laid}
use data_commoms.Params.Lists.{HoldsItems, settled}

-- The line has less than 256 bytes.
abbrev fits_line : Print → Bool
fits_line (printed s) = ltb (length s) 256
fits_line gives_up = false
fits_line wild = false

module _ (fl : FloatText) (junk : Bytes) where
  -- A value of a parameter (its type, the type of its items, its length) that a line can hold, and
  -- the value that stands where it is read: numbers of 32 bits, with eight bytes of room if they
  -- are unsigned; values of `float` that are printed as one word; strings without quotes, line ends
  -- and `=` that fit into their buffer; lists with 1 to 32 items; and binary data of the length of
  -- the parameter.
  pub data Holds : ParamType → ParamType → ℕ → Value fl → Value fl → Type 0 where
    holds_bool :
        (t : ParamType) (n : ℕ) (old : Value fl) (b : Bool)
        → Holds bool t n (simple (as_bool b)) old
    holds_uint :
        (t : ParamType) (n : ℕ) (old : Value fl) (x : ℕ)
        → x < 2 ^ 32
        → 8 ≤ n
        → Holds uint t n (simple (as_uint x)) old
    holds_int :
        (t : ParamType) (n : ℕ) (old : Value fl) (z : ℤ)
        → int_min ≤ℤ z
        → z ≤ℤ int_max
        → Holds int t n (simple (as_int z)) old
    holds_float :
        (t : ParamType) (n : ℕ) (old : Value fl) (x : fl.Float)
        → is_word (fl.print x) ≡ true
        → goes_on (fl.strtof (fl.print x)).rest ≡ false
        → Holds float t n (simple (as_float x)) old
    holds_str :
        (t : ParamType) (n : ℕ) (old : Value fl) (s : Bytes)
        → lacks b'"' s ≡ true
        → lacks b'=' s ≡ true
        → lacks b'\n' s ≡ true
        → length s < n
        → Holds str t n (simple (as_str (some s))) old
    holds_list :
        (n : ℕ) (l old : ParamList fl)
        → 0 < l.count
        → l.count ≤ list_max
        → l.count ≤ length l.items
        → l.count ≤ length old.items
        → HoldsItems fl l.type (take l.count l.items)
        → Holds ParamType.list l.type n (Value.list l) (Value.list old)
    holds_bin :
        (t : ParamType) (bs old : Bytes)
        → length old ≡ length bs
        → are_bytes bs ≡ true
        → starts_hex junk ≡ false
        → Holds binary t (length bs) (bin bs) (bin old)

  -- The value after a file with the first one is read over the second.
  abbrev pub read_back : Value fl → Value fl → Value fl
  read_back (simple x) old = simple (settled fl x)
  read_back (Value.list l) (Value.list old) = Value.list (record old {
    items = laid fl (map (settled fl) (take l.count l.items)) old.items;
    count = l.count;
  })
  read_back (Value.list l) old = old
  read_back (bin bs) old = bin bs

  -- The parameter of another run of the program.
  abbrev pub with_old : Param fl → Value fl → Param fl
  with_old p old = record p { val = old; has_changed = false }

  abbrev pub line_fits : Param fl → Bool
  line_fits p = fits_line (line_text fl p.type p.val p)

  -- The line of the parameter: one line with one `=`, which reads back.
  abbrev pub Line : Param fl → Value fl → Type 0
  Line p old =
      (tail : Bytes) × (line_text fl p.type p.val p
        ≡ printed (p.name ++ b'=' ∷ (tail ++ b'\n' ∷ [])))
      × (lacks b'=' tail ≡ true)
      × (lacks b'\n' tail ≡ true)
      × Reads fl junk (with_old p old) (read_back p.val old) (tail ++ b'\n' ∷ [])

  abbrev pub Plain : Param fl → Type 0
  Plain p = (is_name p.name ≡ true) × (lacks b'=' p.desc ≡ true) × (lacks b'\n' p.desc ≡ true)

  pub Line-commented :
      (p : Param fl) (old : Value fl) (v : Bytes)
      → Plain p
      → lacks b'=' v ≡ true
      → lacks b'\n' v ≡ true
      → line_text fl p.type p.val p ≡ commented fl p v
      → line_fits p ≡ true
      → (Fits fl junk (with_old p old) (v ++ comment fl p)
          → Reads fl junk (with_old p old) (read_back p.val old) (v ++ comment fl p))
      → Line p old
  Line-commented p old v (n, d, d') k k' e f read =
      let tail : Bytes = v ++ b' ' ∷ b'#' ∷ p.desc in
      let all : tail ++ b'\n' ∷ [] ≡ v ++ comment fl p =
        append_assoc v (b' ' ∷ b'#' ∷ p.desc) (b'\n' ∷ []) in
      let short : ltb (length (p.name ++ b'=' ∷ (v ++ comment fl p))) 256 ≡ true = rw e at f in
      (
        tail,
        rw (e, all) refl,
        lacks-append b'=' v (b' ' ∷ b'#' ∷ p.desc) k d,
        lacks-append b'\n' v (b' ' ∷ b'#' ∷ p.desc) k' d',
        rw all (read (n, ground arith)),
      )
