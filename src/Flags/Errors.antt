-- ===== src/Flags/Errors.antt =====
-- What FlagPrintError prints after flag_parse has returned false.
use mathlib.Core.Path.{subst}
use mathlib.Core.List.{append_assoc}
use data_commoms.Base.{
  suc, ◌+◌, ◌≡◌, ◌⊎◌, inl, inr, refl, sym, ap, Bool, true, false, ◌||◌, Option, none, some, List,
  [], ◌∷◌, ◌++◌, arith, length, ◌∙◌,
}
use data_commoms.Text.{text, Bytes, streq}
use data_commoms.Text.Find.{streq_refl}
use data_commoms.Text.Search.{is_some}
use data_commoms.Flags.{
  FloatOps, bool, Flag, FlagCtx, FlagError, no_error, unknown, no_value, invalid_number,
  integer_overflow, float_overflow, double_overflow, invalid_size_suffix,
}
use data_commoms.Flags.Values.{stops, is_true_word, is_false_word, parse_bool, parse_value}
use data_commoms.Flags.Parse.{
  failed, scan, take_arg, returns, parse_loop, parse, Shown, over, after_scan, round, scan_flag,
}
use data_commoms.Flags.Typed.{is_error}
use data_commoms.Flags.Keeps.{all_fit}
use data_commoms.Flags.Explains.{parse_explains}
use data_commoms.Flags.Equals.{is_flag_name, word, read_word-plain, ends_flags-plain}
use data_commoms.Flags.Print.{print_error}
use data_commoms.Flags.Named.{parse-Named}

module _ (fl : FloatOps) where
  -- Where FlagPrintError prints `flag_error_value`.
  abbrev pub shows_value : FlagError → Bool
  shows_value unknown = true
  shows_value invalid_size_suffix = true
  shows_value e = false

  -- The text names the flag, or the null pointer of a value would be printed.
  abbrev pub Names : FlagError → Option Bytes → Bytes → Option Bytes → Type 0
  Names e value n printed =
      ((rest : Bytes) × (printed ≡ some (text "ERROR: -" ++ (n ++ rest))))
      ⊎ ((shows_value e ≡ true) × (value ≡ none))

  print_error-Names :
      (c : FlagCtx fl) (e : FlagError) (n : Bytes) (value : Option Bytes)
      → is_error e ≡ true
      → Names e value n (
          print_error fl
            (record c { flag_error = e; flag_error_name = some n; flag_error_value = value }))
  unfolding print_error
  print_error-Names c no_error n value h = cc
  print_error-Names c unknown n none h = inr (refl, refl)
  print_error-Names c unknown n (some v) h =
      inl (_, ap (λ s. some (text "ERROR: -" ++ s)) (append_assoc n _ _))
  print_error-Names c invalid_size_suffix n none h = inr (refl, refl)
  print_error-Names c invalid_size_suffix n (some v) h =
      inl (_, ap (λ s. some (text "ERROR: -" ++ s)) (append_assoc n _ _))
  print_error-Names c no_value n value h = inl (_, refl)
  print_error-Names c invalid_number n value h = inl (_, refl)
  print_error-Names c integer_overflow n value h = inl (_, refl)
  print_error-Names c float_overflow n value h = inl (_, refl)
  print_error-Names c double_overflow n value h = inl (_, refl)

  -- If each flag holds a value of its type and width, then after flag_parse has returned false, the
  -- context names a flag, and FlagPrintError prints an error that begins with that name; or it
  -- would print the null pointer that stands for the value of an unknown flag or of a size suffix.
  pub parse_error_prints :
      (c c' : FlagCtx fl) (argv : List Bytes) (shown : List Shown)
      → all_fit fl c.flags ≡ true
      → parse fl c argv ≡ returns false c' shown
      → (n : Bytes) × (c'.flag_error_name ≡ some n)
        × Names c'.flag_error c'.flag_error_value n (print_error fl c')
  parse_error_prints c c' argv shown h run =
      let (_, _, err) = parse_explains fl c c' argv false shown h run in
      go c'.flag_error_name err (rw run at (parse-Named fl c argv)) refl
    where
      go :
          (o : Option Bytes)
          → is_error c'.flag_error ≡ true
          → is_some o ≡ true
          → c'.flag_error_name ≡ o
          → (n : Bytes) × (c'.flag_error_name ≡ some n)
            × Names c'.flag_error c'.flag_error_value n (print_error fl c')
      go none err k e = cc
      go (some n) err k e = (
        n,
        e,
        subst
            (λ o.
              Names c'.flag_error c'.flag_error_value n
                (print_error fl (record c' { flag_error_name = o })))
            (sym e) (print_error-Names c' c'.flag_error n c'.flag_error_value err),
      )

  bad_word :
      (f : Flag fl) (arg : Bytes)
      → f.type ≡ bool
      → (is_true_word arg || is_false_word arg) ≡ false
      → parse_value fl f.type false f.val arg ≡ stops unknown
  unfolding parse_value parse_bool
  bad_word f arg is_bool no_word =
      let no_yes : is_true_word arg ≡ false = ground arith in
      let no_no : is_false_word arg ≡ false = ground arith in
      ap (λ t. parse_value fl t false f.val arg) is_bool ∙ rw (no_yes, no_no) refl

  scan-bad_word :
      (f : Flag fl) (fs : List (Flag fl)) (arg : Bytes) (args : List Bytes)
      → f.type ≡ bool
      → (is_true_word arg || is_false_word arg) ≡ false
      → scan fl (word f.name none) (arg ∷ args) (f ∷ fs) ≡ failed unknown (f ∷ fs)
  unfolding scan scan_flag take_arg
  scan-bad_word f fs arg args is_bool no_word =
      rw (scan, streq_refl f.name, scan_flag, bad_word f arg is_bool no_word) refl

  round-bad_word :
      (c : FlagCtx fl) (f : Flag fl) (fs : List (Flag fl)) (arg : Bytes) (args : List Bytes)
      → c.flags ≡ f ∷ fs
      → f.type ≡ bool
      → is_flag_name f.name ≡ true
      → (streq (text "-h") f.name || streq (text "-help") f.name) ≡ false
      → (is_true_word arg || is_false_word arg) ≡ false
      → round fl c (b'-' ∷ f.name) (arg ∷ args)
        ≡ over (
            returns false
              (record c { flags = f ∷ fs; flag_error = unknown; flag_error_name = some f.name })
              [])
  unfolding round after_scan
  round-bad_word c f fs arg args flags is_bool n no_help no_word =
      let stopped =
        ap (scan fl (word f.name none) (arg ∷ args)) flags
        ∙ scan-bad_word f fs arg args is_bool no_word in
      rw (round, ends_flags-plain f.name n, read_word-plain f.name n, no_help, stopped) refl

  -- A `bool` flag whose argument is none of its words makes flag_parse return false with the error
  -- of an unknown flag, and FlagPrintError then prints a null pointer; provided that no value of an
  -- error was kept before, that it is the first flag of the context and the first argument, and
  -- that its name is neither -h nor -help, is not empty, not a dash, has no `=` and no slash in
  -- front.
  pub bad_bool_unprintable :
      (c : FlagCtx fl) (f : Flag fl) (fs : List (Flag fl)) (p arg : Bytes) (args : List Bytes)
      → c.flags ≡ f ∷ fs
      → f.type ≡ bool
      → c.program_name ≡ some p
      → c.flag_error_value ≡ none
      → is_flag_name f.name ≡ true
      → (streq (text "-h") f.name || streq (text "-help") f.name) ≡ false
      → (is_true_word arg || is_false_word arg) ≡ false
      → (c' : FlagCtx fl) × (parse fl c ((b'-' ∷ f.name) ∷ arg ∷ args) ≡ returns false c' [])
        × (c'.flag_error ≡ unknown)
        × (c'.flag_error_name ≡ some f.name)
        × (print_error fl c' ≡ none)
  unfolding parse parse_loop print_error
  bad_bool_unprintable c f fs p arg args flags is_bool named no_value_yet n no_help no_word =
      let stopped = round-bad_word c f fs arg args flags is_bool n no_help no_word in
      let fuel : length ((b'-' ∷ f.name) ∷ arg ∷ args) + 1
          ≡ suc (length ((b'-' ∷ f.name) ∷ arg ∷ args)) =
        omega arith in
      (
        record c { flags = f ∷ fs; flag_error = unknown; flag_error_name = some f.name },
        rw (parse, named, fuel, parse_loop, stopped)
            λ i.
              returns false
                (record c {
                  flags = f ∷ fs;
                  flag_error = unknown;
                  flag_error_name = some f.name;
                  program_name = named i;
                })
                [],
        refl,
        refl,
        rw no_value_yet refl,
      )
