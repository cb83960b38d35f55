-- ===== src/Flags/Equals.antt =====
-- The two spellings of an argument: `-n=v`, and `-n` with `v` as the next argument.
use data_commoms.Base.{
  ◌≡◌, refl, Bool, true, false, not, ◌&&◌, Option, none, some, List, [], ◌∷◌, ◌++◌, arith, ◌==◌,
  if◌then◌else◌, Bool-cases, inl, inr,
}
use data_commoms.Text.{text, Bytes, streq}
use data_commoms.Text.Find.{lacks, strchr-append, strchr-lacks}
use data_commoms.Flags.{FloatOps, Flag, FlagCtx}
use data_commoms.Flags.Values.{Case, sets, stops, overruns}
use data_commoms.Flags.Parse.{
  take_arg, Scanned, done, failed, fault, Word, read_word, ends_flags, before, scan_flag, scan,
  after_scan, round,
}

-- The name of a flag as it can be typed behind the `-`.
abbrev pub is_flag_name : Bytes → Bool
is_flag_name [] = false
is_flag_name (c ∷ n) = not (c == b'/') && not (streq (c ∷ n) (text "-")) && lacks b'=' (c ∷ n)

abbrev pub word : Bytes → Option Bytes → Word
word n equals = record { ignore = false; name = n; equals = equals }

pub read_word-plain : (n : Bytes) → is_flag_name n ≡ true → read_word n ≡ word n none
unfolding read_word
read_word-plain [] h = cc
read_word-plain (c ∷ n) h =
    let slash : (c == b'/') ≡ false = ground arith in
    rw (slash, strchr-lacks b'=' (c ∷ n) (ground arith)) refl

read_word-equals :
    (n v : Bytes) → is_flag_name n ≡ true → read_word (n ++ b'=' ∷ v) ≡ word n (some v)
unfolding read_word
read_word-equals [] v h = cc
read_word-equals (c ∷ n) v h =
    let slash : (c == b'/') ≡ false = ground arith in
    rw (slash, strchr-append b'=' (c ∷ n) v (ground arith)) refl

pub ends_flags-plain : (n : Bytes) → is_flag_name n ≡ true → ends_flags (b'-' ∷ n) ≡ false
unfolding ends_flags streq
ends_flags-plain [] h = cc
ends_flags-plain (c ∷ n) h = ground arith

ends_flags-equals :
    (n v : Bytes) → is_flag_name n ≡ true → ends_flags (b'-' ∷ (n ++ b'=' ∷ v)) ≡ false
unfolding ends_flags streq
ends_flags-equals [] v h = cc
ends_flags-equals (c ∷ []) v h = ground arith
ends_flags-equals (c ∷ d ∷ n) v h = ground arith

module _ (fl : FloatOps) where
  abbrev pub none_named : Bytes → List (Flag fl) → Bool
  none_named n [] = true
  none_named n (f ∷ fs) = not (streq f.name n) && none_named n fs

  -- No two of the flags have this name.
  abbrev pub one_named : Bytes → List (Flag fl) → Bool
  one_named n [] = true
  one_named n (f ∷ fs) = if streq f.name n then none_named n fs else one_named n fs

  scan-none_named :
      (w : Word) (args : List Bytes) (fs : List (Flag fl))
      → none_named w.name fs ≡ true
      → scan fl w args fs ≡ done false args fs
  unfolding scan
  scan-none_named w args [] h = refl
  scan-none_named w args (f ∷ fs) h =
      let other : streq f.name w.name ≡ false = ground arith in
      rw (scan, other, scan-none_named w args fs (ground arith)) refl

  -- Two scans with the same outcome, but for the arguments left where no flag was found.
  data Same : Scanned fl → Scanned fl → Type 0 where
    same : (s : Scanned fl) → Same s s
    unfound :
        (args args' : List Bytes) (fs : List (Flag fl))
        → Same (done false args fs) (done false args' fs)

  before-Same :
      (f : Flag fl) (s s' : Scanned fl)
      → Same s s'
      → Same (before fl f false s) (before fl f false s')
  before-Same f _ _ (same s) = same (before fl f false s)
  before-Same f _ _ (unfound args args' fs) = unfound args args' (f ∷ fs)

  after_scan-Same :
      (c : FlagCtx fl) (n : Bytes) (s s' : Scanned fl)
      → Same s s'
      → after_scan fl c n s ≡ after_scan fl c n s'
  unfolding after_scan
  after_scan-Same c n _ _ (same s) = refl
  after_scan-Same c n _ _ (unfound args args' fs) = refl

  scan-Same :
      (n v : Bytes) (args : List Bytes) (fs : List (Flag fl))
      → one_named n fs ≡ true
      → Same (scan fl (word n (some v)) args fs) (scan fl (word n none) (v ∷ args) fs)
  unfolding scan take_arg scan_flag
  scan-Same n v args [] h = unfound args (v ∷ args) []
  scan-Same n v args (f ∷ fs) h = elim (Bool-cases (streq f.name n)) [
    | inr e ↦
        rw (scan, e)
          (before-Same f (scan fl (word n (some v)) args fs) (scan fl (word n none) (v ∷ args) fs)
            (scan-Same n v args fs (ground arith)))
    | inl e ↦
        rw (scan, e) (go (scan_flag fl (word n (some v)) args f (some (v, args))) (ground arith))
  ]
    where
      go :
          (r : Case (Flag fl × List Bytes))
          → none_named n fs ≡ true
          → Same
              (elim r [
                | sets (f', args') ↦ before fl f' true (scan fl (word n (some v)) args' fs)
                | stops e ↦ failed e (f ∷ fs)
                | overruns ↦ fault
              ])
              (elim r [
                | sets (f', args') ↦ before fl f' true (scan fl (word n none) args' fs)
                | stops e ↦ failed e (f ∷ fs)
                | overruns ↦ fault
              ])
      go (sets (f', args')) k =
          rw
            (scan-none_named (word n (some v)) args' fs k, scan-none_named (word n none) args' fs k)
            (same (done true args' (f' ∷ fs)))
      go (stops e) k = same (failed e (f ∷ fs))
      go overruns k = same fault

  -- One turn of the `while` in flag_parse does the same on `-n=v` as on `-n` with `v` as the next
  -- argument: the same flags, errors and arguments left; provided that no two flags have the name
  -- n, and that n is not empty, not a dash, has no `=` and does not start with a slash.
  pub equals_or_next :
      (c : FlagCtx fl) (n v : Bytes) (args : List Bytes)
      → is_flag_name n ≡ true
      → one_named n c.flags ≡ true
      → round fl c (b'-' ∷ (n ++ b'=' ∷ v)) args ≡ round fl c (b'-' ∷ n) (v ∷ args)
  unfolding round
  equals_or_next c n v args h one =
      rw
        (
          read_word-equals n v h,
          read_word-plain n h,
          ends_flags-equals n v h,
          ends_flags-plain n h,
          after_scan-Same c n (scan fl (word n (some v)) args c.flags)
              (scan fl (word n none) (v ∷ args) c.flags) (scan-Same n v args c.flags one),
        )
        refl
