-- ===== src/Params/ReadBack.antt =====
-- The line of each kind of value reads back.
use mathlib.Core.List.{append_assoc}
use data_commoms.Base.{
  ℕ, suc, ◌≤◌, ◌<◌, ◌≡◌, refl, Bool, true, some, List, [], ◌∷◌, ◌++◌, arith, length, length-map,
  length-take, take-length, map, take, ltb, leb, to_int32,
}
use data_commoms.Text.{Bytes, is_digit}
use data_commoms.Text.Find.{lacks-append}
use data_commoms.Params.{
  FloatText, ParamType, bool, uint, int, float, str, binary, Simple, as_bool, as_uint, as_int,
  as_float, as_str, ParamList, Param, Value, simple, bin,
}
use data_commoms.Params.Items.{list_max}
use data_commoms.Text.Decimal.{int_text}
use data_commoms.Params.Save.{printed, line_text, comment, uint_text, bool_text, hex_text_of}
use data_commoms.Params.Words.{int_text-word, bool_text-word}
use data_commoms.Params.Reads.{Reads-bool, Reads-uint, Reads-int, Reads-float, Reads-str}
use data_commoms.Params.Hex.{Reads-bin, lacks-hex_text_of}
use data_commoms.Params.Tokens.{joined, lacks-joined}
use data_commoms.Params.Lists.{HoldsItems, settled, items-Reads, Reads-list}
use data_commoms.Params.Restore.{
  Holds, holds_bool, holds_uint, holds_int, holds_float, holds_str, holds_list, holds_bin, with_old,
  line_fits, Line, Plain, Line-commented,
}

module _ (fl : FloatText) (junk : Bytes) where
  -- The line of a list, with the items that are printed.
  Line-list :
      (p : Param fl) (l old : ParamList fl) (ys : List (Simple fl))
      → Plain fl junk p
      → p.type ≡ ParamType.list
      → p.list_type ≡ l.type
      → p.val ≡ Value.list l
      → take l.count l.items ≡ ys
      → length ys ≡ l.count
      → 0 < l.count
      → l.count ≤ list_max
      → l.count ≤ length l.items
      → l.count ≤ length old.items
      → HoldsItems fl l.type ys
      → line_fits fl junk p ≡ true
      → Line fl junk p (Value.list old)
  unfolding line_text
  Line-list p l old [] pl t lt was e len pos small have room h f = absurd (omega arith)
  Line-list p l old (y ∷ ys) (n, d, d') t lt was e len pos small have room h f =
      let (w, ws, printed_as, u, us, r) = items-Reads fl l.type y ys h in
      let there : leb l.count (length l.items) ≡ true = ground arith in
      let all : Bytes = joined w ws ++ b']' ∷ b'\n' ∷ [] in
      let line : line_text fl p.type p.val p ≡ printed (p.name ++ b'=' ∷ b'[' ∷ all) =
        rw
          (
            t,
            was,
            there,
            e,
            printed_as,
            append_assoc (joined w ws) (b']' ∷ []) (b'\n' ∷ []),
            append_assoc p.name (b'=' ∷ b'[' ∷ []) all,
          )
          refl in
      let short : ltb (length (p.name ++ b'=' ∷ b'[' ∷ all)) 256 ≡ true = rw line at f in
      let tail : Bytes = b'[' ∷ (joined w ws ++ b']' ∷ []) in
      let whole = append_assoc (joined w ws) (b']' ∷ []) (b'\n' ∷ []) in
      let many : suc (length (map (settled fl) ys)) ≡ l.count =
        rw (length-map (settled fl) ys) len in
      (
        tail,
        rw (line, whole) refl,
        lacks-append b'=' (b'[' ∷ joined w ws) (b']' ∷ []) (lacks-joined b'=' w ws refl u us) refl,
        lacks-append b'\n' (b'[' ∷ joined w ws) (b']' ∷ []) (lacks-joined b'\n' w ws refl u us)
            refl,
        rw (whole, was, e, ← many)
            (Reads-list fl junk (with_old fl junk p (Value.list old)) l.type old (settled fl y)
              (map (settled fl) ys) w ws t lt refl (omega arith) (omega arith) u us r
              (n, ground arith)),
      )

  abbrev param : ParamType → ParamType → ℕ → Value fl → Bytes → Bytes → Bool → Bool → Param fl
  param ty t n v name desc b b' = record {
    type = ty;
    list_type = t;
    room = n;
    name = name;
    desc = desc;
    val = v;
    is_mandatory = b;
    has_changed = b';
  }

  pub Line-Holds :
      (ty t : ParamType) (n : ℕ) (v old : Value fl) (name desc : Bytes) (b b' : Bool)
      → Holds fl junk ty t n v old
      → Plain fl junk (param ty t n v name desc b b')
      → line_fits fl junk (param ty t n v name desc b b') ≡ true
      → Line fl junk (param ty t n v name desc b b') old
  unfolding line_text is_digit
  Line-Holds _ _ _ _ _ name desc b b' (holds_bool t n old x) pl f =
      let p : Param fl = param bool t n (simple (as_bool x)) name desc b b' in
      let w = bool_text-word x in
      Line-commented fl junk p old (bool_text x) pl (ground arith) (ground arith) refl f (λ fits.
        Reads-bool fl junk (with_old fl junk p old) x (b'#' ∷ (desc ++ b'\n' ∷ [])) refl fits)
  Line-Holds _ _ _ _ _ name desc b b' (holds_uint t n old x h wide) pl f =
      let p : Param fl = param uint t n (simple (as_uint x)) name desc b b' in
      let w = int_text-word (to_int32 x) in
      Line-commented fl junk p old (uint_text x) pl (ground arith) (ground arith) refl f (λ fits.
        Reads-uint fl junk (with_old fl junk p old) x (b'#' ∷ (desc ++ b'\n' ∷ [])) refl h wide
          fits)
  Line-Holds _ _ _ _ _ name desc b b' (holds_int t n old z lo hi) pl f =
      let p : Param fl = param int t n (simple (as_int z)) name desc b b' in
      let w = int_text-word z in
      Line-commented fl junk p old (int_text z) pl (ground arith) (ground arith) refl f (λ fits.
        Reads-int fl junk (with_old fl junk p old) z (b'#' ∷ (desc ++ b'\n' ∷ [])) refl lo hi fits)
  Line-Holds _ _ _ _ _ name desc b b' (holds_float t n old x w stops) pl f =
      let p : Param fl = param float t n (simple (as_float x)) name desc b b' in
      Line-commented fl junk p old (fl.print x) pl (ground arith) (ground arith) refl f (λ fits.
        Reads-float fl junk (with_old fl junk p old) (fl.print x) (b'#' ∷ (desc ++ b'\n' ∷ [])) refl
          w stops fits)
  Line-Holds _ _ _ _ _ name desc b b' (holds_str t n old s quote eq nl small) pl f =
      let p : Param fl = param str t n (simple (as_str (some s))) name desc b b' in
      let flat = append_assoc s (b'"' ∷ []) (comment fl p) in
      Line-commented fl junk p old (b'"' ∷ (s ++ b'"' ∷ [])) pl
        (lacks-append b'=' s (b'"' ∷ []) eq refl) (lacks-append b'\n' s (b'"' ∷ []) nl refl) refl f
        (λ fits. rw flat (
          Reads-str fl junk (with_old fl junk p old) s (comment fl p) refl quote eq small
            (rw flat at fits)))
  Line-Holds _ _ _ _ _ name desc b b' (holds_list n l old pos small have room h) pl f =
      Line-list (param ParamType.list l.type n (Value.list l) name desc b b') l old
        (take l.count l.items) pl refl refl refl refl (length-take l.count l.items have) pos small
        have room h f
  Line-Holds _ _ _ _ _ name desc b b' (holds_bin t bs old len h j) (nm, d, d') f =
      let p : Param fl = param binary t (length bs) (bin bs) name desc b b' in
      let all : Bytes = b'0' ∷ b'x' ∷ (hex_text_of bs ++ b'\n' ∷ []) in
      let there : leb (length bs) (length bs) ≡ true = ground arith in
      let whole = take-length (length bs) bs (omega arith) in
      let line : line_text fl binary (bin bs) p ≡ printed (name ++ b'=' ∷ all) =
        rw (there, whole) refl in
      let short : ltb (length (name ++ b'=' ∷ all)) 256 ≡ true = rw line at f in
      (
        b'0' ∷ b'x' ∷ hex_text_of bs,
        line,
        lacks-hex_text_of b'=' bs refl h,
        lacks-hex_text_of b'\n' bs refl h,
        Reads-bin fl junk (with_old fl junk p (bin old)) bs old refl refl refl len j h
            (nm, ground arith),
      )
