-- ===== src/Params/Scan.antt =====
-- The parameters on the line of one of them: it is set and the others are not.
use data_commoms.Base.{
  ◌<◌, ◌≡◌, refl, Bool, true, false, not, ◌&&◌, List, [], ◌∷◌, ◌++◌, arith, length, length-append,
}
use data_commoms.Text.{Bytes}
use data_commoms.Text.Find.{lacks}
use data_commoms.Params.{FloatText, Param, Value}
use data_commoms.Params.Line.{param_turn, passes}
use data_commoms.Params.Parse.{on, is_skipped, scan_line}
use data_commoms.Params.Keys.{is_name, ends_with, find_value-absent}
use data_commoms.Params.Reads.{Reads}

-- A line that starts with a name is no comment.
pub is_skipped-name : (n r : Bytes) → is_name n ≡ true → is_skipped (n ++ b'=' ∷ r) ≡ false
unfolding is_skipped
is_skipped-name [] r h = refl
is_skipped-name (c ∷ n) r h = ground arith

module _ (fl : FloatText) where
  -- No name of these parameters is the end of the name, and so on for the other way round.
  abbrev pub none_ends : Bytes → List (Param fl) → Bool
  none_ends n [] = true
  none_ends n (q ∷ qs) = not (ends_with n q.name) && none_ends n qs

  abbrev pub ends_none : List (Param fl) → Bytes → Bool
  ends_none [] n = true
  ends_none (p ∷ ps) n = not (ends_with p.name n) && ends_none ps n

  -- No name is the end of another.
  abbrev pub names_apart : List (Param fl) → Bool
  names_apart [] = true
  names_apart (p ∷ ps) = none_ends p.name ps && ends_none ps p.name && names_apart ps

  -- The parameters with other values, all changed or all not.
  abbrev pub given : Bool → List (Param fl) → List (Value fl) → List (Param fl)
  given b [] vs = []
  given b (p ∷ ps) [] = []
  given b (p ∷ ps) (v ∷ vs) = record p { val = v; has_changed = b } ∷ given b ps vs

  pub none_ends-given :
      (n : Bytes) (b : Bool) (ps : List (Param fl)) (vs : List (Value fl))
      → none_ends n ps ≡ true
      → none_ends n (given b ps vs) ≡ true
  none_ends-given n b [] vs h = refl
  none_ends-given n b (p ∷ ps) [] h = refl
  none_ends-given n b (p ∷ ps) (v ∷ vs) h =
      let ih = none_ends-given n b ps vs (ground arith) in ground arith

  module _ (junk : Bytes) where
    param_turn-passes :
        (q : Param fl) (n r : Bytes)
        → is_name n ≡ true
        → lacks b'=' r ≡ true
        → length (n ++ b'=' ∷ r) < 256
        → ends_with n q.name ≡ false
        → param_turn fl junk q (n ++ b'=' ∷ r) ≡ passes
    unfolding param_turn
    param_turn-passes q n r h k le e = rw (find_value-absent q.name n r h k le e) refl

    scan_line-passes :
        (qs : List (Param fl)) (n r : Bytes)
        → is_name n ≡ true
        → lacks b'=' r ≡ true
        → length (n ++ b'=' ∷ r) < 256
        → none_ends n qs ≡ true
        → scan_line fl junk (n ++ b'=' ∷ r) qs ≡ on false qs
    unfolding scan_line
    scan_line-passes [] n r h k le e = refl
    scan_line-passes (q ∷ qs) n r h k le e =
        rw
          (
            scan_line,
            param_turn-passes q n r h k le (ground arith),
            scan_line-passes qs n r h k le (ground arith),
          )
          refl

    -- A line sets its parameter, among the others.
    pub scan_line-sets :
        (pre : List (Param fl)) (q : Param fl) (post : List (Param fl)) (v : Value fl) (r : Bytes)
        → is_name q.name ≡ true
        → lacks b'=' r ≡ true
        → length (q.name ++ b'=' ∷ r) < 256
        → none_ends q.name pre ≡ true
        → none_ends q.name post ≡ true
        → Reads fl junk q v r
        → scan_line fl junk (q.name ++ b'=' ∷ r) (pre ++ q ∷ post)
          ≡ on true (pre ++ record q { val = v; has_changed = true } ∷ post)
    unfolding scan_line
    scan_line-sets [] q post v r h k le e f (cut, k', le', turn) =
        let a = length-append q.name (b'=' ∷ r) in
        let b = length-append q.name (b'=' ∷ cut) in
        rw (scan_line, turn, scan_line-passes post q.name cut h k' (omega arith) f) refl
    scan_line-sets (p ∷ pre) q post v r h k le e f reads =
        rw
          (
            scan_line,
            param_turn-passes p q.name r h k le (ground arith),
            scan_line-sets pre q post v r h k le (ground arith) f reads,
          )
          refl
