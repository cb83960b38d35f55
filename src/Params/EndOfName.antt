-- ===== src/Params/EndOfName.antt =====
-- A line for one parameter that sets another, whose name is the end of that of the first.
use mathlib.Core.List.{append_assoc}
use data_commoms.Base.{ℕ, ◌<◌, ◌≡◌, refl, true, [], ◌∷◌, ◌++◌, length, ap, ◌∙◌}
use data_commoms.Text.{Bytes}
use data_commoms.Text.Find.{lacks}
use data_commoms.Params.{FloatText, Param}
use data_commoms.Params.Line.{
  value_at, find_value, blanks, value_end, Ends, no_end, wild, ends, Stored, stored, refused, Turn,
  passes, sets, breaks, fails, crashes, after_store, after_end, after_find, store_as, param_turn,
}
use data_commoms.Params.Line
use data_commoms.Params.Keys.{is_name, find_value-front, find_value-end_of_name}

module _ (fl : FloatText) (junk : Bytes) where
  -- The same turn, on a line with a text in front.
  abbrev pub behind : Bytes → Turn fl junk → Turn fl junk
  behind pre passes = passes
  behind pre (sets p line) = sets p (pre ++ line)
  behind pre breaks = breaks
  behind pre (fails e) = fails e
  behind pre crashes = crashes

  after_store-behind :
      (pre line : Bytes) (r : Stored fl)
      → after_store fl junk (pre ++ line) r ≡ behind pre (after_store fl junk line r)
  after_store-behind pre line (stored p) = refl
  after_store-behind pre line (refused e) = refl
  after_store-behind pre line Line.fault = refl

  after_end-behind :
      (pre before : Bytes) (p : Param fl) (e : Ends)
      → after_end fl junk p (pre ++ before) e ≡ behind pre (after_end fl junk p before e)
  after_end-behind pre before p no_end = refl
  after_end-behind pre before p wild = refl
  after_end-behind pre before p (ends skipped v) =
      rw (append_assoc pre before (skipped ++ v))
        (after_store-behind pre (before ++ (skipped ++ v)) (store_as fl junk p.type p v))

  -- A line for a longer name does to the parameter whose name is the end of it what a line for that
  -- name would do: it sets the same value, or ends the parse in the same way; if the first byte of
  -- that name does not stand in front, the name is one that the format allows, and the line has
  -- less than 256 bytes from that name on.
  pub param_turn-end_of_name :
      (pre : Bytes) (c : ℕ) (q r : Bytes) (p : Param fl)
      → p.name ≡ c ∷ q
      → is_name (c ∷ q) ≡ true
      → lacks c pre ≡ true
      → length ((c ∷ q) ++ b'=' ∷ r) < 256
      → param_turn fl junk p ((pre ++ c ∷ q) ++ b'=' ∷ r)
        ≡ behind pre (param_turn fl junk p ((c ∷ q) ++ b'=' ∷ r))
  unfolding param_turn
  param_turn-end_of_name pre c q r p named n h le =
      let key = (c ∷ q) ++ b'=' ∷ [] in
      let long : find_value p.name ((pre ++ c ∷ q) ++ b'=' ∷ r) ≡ value_at (pre ++ key) r =
        ap (λ x. find_value x ((pre ++ c ∷ q) ++ b'=' ∷ r)) named
        ∙ find_value-end_of_name pre c q r n h le in
      let short : find_value p.name ((c ∷ q) ++ b'=' ∷ r) ≡ value_at key r =
        ap (λ x. find_value x ((c ∷ q) ++ b'=' ∷ r)) named ∙ find_value-front (c ∷ q) r n le in
      rw (long, short, append_assoc pre key (blanks r).0)
        (after_end-behind pre (key ++ (blanks r).0) p (value_end p.type (blanks r).1))
