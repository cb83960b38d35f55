-- ===== src/Flags/Help.antt =====
-- FlagPrintHelp: the defaults that it prints are arguments that flag_parse reads as those defaults.
use mathlib.Core.List.{append-nil}
use data_commoms.Base.{
  ℕ, suc, ℤ, ◌*◌, ◌^◌, ◌≤◌, ◌<◌, ◌≡◌, refl, sym, ap, ◌∙◌, Bool, true, false, some, ◌++◌, arith, ltb,
  pos, negsuc,
}
use data_commoms.Text.{text, Bytes, streq, neg_ℕ}
use data_commoms.Text.Decimal.{dec, int_text}
use data_commoms.Flags.{
  FloatOps, FlagType, bool, uint8, uint16, uint32, uint64, int, size, str, FlagVal, as_bool,
  as_uint8, as_uint16, as_uint32, as_uint64, as_int, as_size, as_str, Flag,
}
use data_commoms.Flags.Values.{
  sets, keep, parse_uint, parse_int, parse_size, size_suffix, parse_value, parse_bool, is_true_word,
  is_false_word, size_max,
}
use data_commoms.Flags.Numbers.{parse_uint-dec, parse_int-dec, parse_size-dec, no_unit}
use data_commoms.Flags.Typed.{is_int}
use data_commoms.Flags.Print.{
  newline, default_start, head_lines, flag_lines, type_name, default_text, flag_help,
}

shows_uint : (w n : ℕ) → w ≤ 64 → n < 2 ^ w → parse_uint w (dec n) ≡ sets n
shows_uint w n h e = parse_uint-dec w n h ∙ ground arith

shows_int : (z : ℤ) → is_int z ≡ true → parse_int (int_text z) ≡ sets z
shows_int (pos n) e = parse_int-dec false n ∙ rw e refl
shows_int (negsuc n) e =
    let small : ltb (2 ^ 31) (suc n) ≡ false = ground arith in
    let same : neg_ℕ (suc n) ≡ negsuc n = ground arith in
    parse_int-dec true (suc n) ∙ rw small (ap sets same)

shows_size : (n : ℕ) → n < 2 ^ 64 → parse_size (dec n) ≡ sets n
unfolding size_suffix
shows_size n e =
    let whole : n * 1 ≡ n = omega arith in
    let small : ltb size_max n ≡ false = ground arith in
    ap parse_size (sym (append-nil (dec n))) ∙ parse_size-dec n no_unit ∙ rw (whole, small) refl

module _ (fl : FloatOps) where
  -- A value of a type that is printed to the last digit: no floating-point number, list or null
  -- pointer.
  pub data Exact : FlagType → FlagVal fl → Type 0 where
    exact_bool : (b : Bool) → Exact bool (as_bool b)
    exact_uint8 : (n : ℕ) → n < 2 ^ 8 → Exact uint8 (as_uint8 n)
    exact_uint16 : (n : ℕ) → n < 2 ^ 16 → Exact uint16 (as_uint16 n)
    exact_uint32 : (n : ℕ) → n < 2 ^ 32 → Exact uint32 (as_uint32 n)
    exact_uint64 : (n : ℕ) → n < 2 ^ 64 → Exact uint64 (as_uint64 n)
    exact_int : (z : ℤ) → is_int z ≡ true → Exact int (as_int z)
    exact_size : (n : ℕ) → n < 2 ^ 64 → Exact size (as_size n)
    exact_str : (s : Bytes) → Exact str (as_str (some s))

  module _ (print_float : fl.Float → Bytes) (print_double : fl.Double → Bytes) where
    default-Exact :
        {t : FlagType} {v : FlagVal fl} (old : FlagVal fl)
        → Exact t v
        → (d : Bytes) × (default_text fl print_float print_double t v ≡ some d)
          × (parse_value fl t false old d ≡ sets v)
    unfolding default_text parse_value parse_bool is_true_word is_false_word streq
    default-Exact old (exact_bool true) = (text "true", refl, refl)
    default-Exact old (exact_bool false) = (text "false", refl, refl)
    default-Exact old (exact_uint8 n h) =
        (dec n, refl, ap (keep false old as_uint8) (shows_uint 8 n (omega arith) h))
    default-Exact old (exact_uint16 n h) =
        (dec n, refl, ap (keep false old as_uint16) (shows_uint 16 n (omega arith) h))
    default-Exact old (exact_uint32 n h) =
        (dec n, refl, ap (keep false old as_uint32) (shows_uint 32 n (omega arith) h))
    default-Exact old (exact_uint64 n h) =
        (dec n, refl, ap (keep false old as_uint64) (shows_uint 64 n (omega arith) h))
    default-Exact old (exact_int z h) =
        (int_text z, refl, ap (keep false old as_int) (shows_int z h))
    default-Exact old (exact_size n h) = (dec n, refl, ap (keep false old as_size) (shows_size n h))
    default-Exact old (exact_str s) = (s, refl, refl)

    flag_help-Exact :
        {t : FlagType} {v : FlagVal fl} (f : Flag fl)
        → Exact t v
        → flag_help fl print_float print_double t f
          ≡ flag_lines fl print_float print_double
              (type_name fl print_float print_double t)
              f
              (default_text fl print_float print_double t f.def)
    unfolding flag_help
    flag_help-Exact f (exact_bool b) = refl
    flag_help-Exact f (exact_uint8 n h) = refl
    flag_help-Exact f (exact_uint16 n h) = refl
    flag_help-Exact f (exact_uint32 n h) = refl
    flag_help-Exact f (exact_uint64 n h) = refl
    flag_help-Exact f (exact_int z h) = refl
    flag_help-Exact f (exact_size n h) = refl
    flag_help-Exact f (exact_str s) = refl

    -- What FlagPrintHelp prints as the default of a flag that is not mandatory, flag_parse reads as
    -- that default: of each type but floating-point numbers and lists, if the default has the width
    -- of the type and is not a null pointer.
    pub default_reads_back :
        (f : Flag fl) (old : FlagVal fl)
        → Exact f.type f.def
        → f.is_mandatory ≡ false
        → (d : Bytes) × (flag_help fl print_float print_double f.type f
            ≡ some (
                head_lines fl print_float print_double
                  (type_name fl print_float print_double f.type)
                  f
                ++ (default_start ++ (d ++ newline))))
          × (parse_value fl f.type false old d ≡ sets f.def)
    default_reads_back f old x free =
        let (d, shown, read) = default-Exact old x in
        (d, flag_help-Exact f x ∙ rw (shown, free) refl, read)
