-- ===== src/Params/Errors.antt =====
-- What ParamPrintError prints after param_parse_txt has returned false.
use data_commoms.Base.{
  ◌≡◌, inl, inr, refl, Bool, true, false, ◌&&◌, ◌||◌, Option, none, some, List, [], ◌∷◌, ◌++◌,
  Bool-cases,
}
use data_commoms.Text.{Bytes, text}
use data_commoms.Text.Search.{strstr, lines, is_some}
use data_commoms.Params.{
  FloatText, ParamError, no_error, unknown, no_value, invalid_number, invalid_file_ext,
  invalid_size_suffix, bin_overflow, Param, ParamCtx,
}
use data_commoms.Params.Line.{Turn, passes, sets, breaks, fails, crashes, param_turn}
use data_commoms.Params.Parse.{
  Scan, on, stops, keep, missing, returns, crashed, Outcome, finish, is_skipped, scan_line,
  parse_lines, line_size, param_parse_txt,
}
use data_commoms.Params.Parse
use data_commoms.Params.Print.{error_text, param_print_error}
use data_commoms.Params.Refused.{is_error, TurnOk, param_turn-Ok}

error_text-error :
    (e : ParamError) → is_error e ≡ true → (rest : Bytes) × (error_text e ≡ text "ERROR: " ++ rest)
unfolding error_text
error_text-error no_error h = cc
error_text-error unknown h = (_, refl)
error_text-error no_value h = (_, refl)
error_text-error invalid_number h = (_, refl)
error_text-error invalid_file_ext h = (_, refl)
error_text-error invalid_size_suffix h = (_, refl)
error_text-error bin_overflow h = (_, refl)

module _ (fl : FloatText) (junk : Bytes) where
  abbrev ScanOk : Scan fl → Type 0
  ScanOk (stops e ps) = is_error e ≡ true
  ScanOk s = Unit

  keep-Ok : (p : Param fl) (b : Bool) (s : Scan fl) → ScanOk s → ScanOk (keep fl p b s)
  keep-Ok p b (on f ps) h = tt
  keep-Ok p b (stops e ps) h = h
  keep-Ok p b Parse.fault h = tt

  scan_line-Ok : (line : Bytes) (ps : List (Param fl)) → ScanOk (scan_line fl junk line ps)
  unfolding scan_line
  scan_line-Ok line [] = tt
  scan_line-Ok line (p ∷ ps) =
      go (λ l. scan_line-Ok l ps) (param_turn fl junk p line) (param_turn-Ok fl junk p line)
    where
      go :
          ((l : Bytes) → ScanOk (scan_line fl junk l ps))
          → (t : Turn fl junk) → TurnOk fl junk t
          → ScanOk (elim t [
            | passes ↦ keep fl p false (scan_line fl junk line ps)
            | sets p' line' ↦ keep fl p' true (scan_line fl junk line' ps)
            | breaks ↦ on true (p ∷ ps)
            | fails e ↦ stops e (p ∷ ps)
            | crashes ↦ Parse.fault
          ])
      go ih passes h = keep-Ok p false (scan_line fl junk line ps) (ih line)
      go ih (sets p' line') h = keep-Ok p' true (scan_line fl junk line' ps) (ih line')
      go ih breaks h = tt
      go ih (fails e) h = h
      go ih crashes h = tt

  -- A false comes with an error.
  abbrev OutcomeOk : Outcome fl → Type 0
  OutcomeOk (returns b c) = (b || is_error c.param_error) ≡ true
  OutcomeOk crashed = Unit

  finish-Ok : (found : Bool) (c : ParamCtx fl) → OutcomeOk (finish fl found c)
  unfolding finish
  finish-Ok false c = refl
  finish-Ok true c = elim (Bool-cases (missing fl c.params)) [
    | inl e ↦ rw e refl
    | inr e ↦ rw e refl
  ]

  parse_lines-Ok :
      (found : Bool) (c : ParamCtx fl) (ls : List Bytes)
      → OutcomeOk (parse_lines fl junk found c ls)
  unfolding parse_lines
  parse_lines-Ok found c [] = finish-Ok found c
  parse_lines-Ok found c (l ∷ ls) =
      go (λ f c'. parse_lines-Ok f c' ls) (is_skipped l) (scan_line fl junk l c.params)
        (scan_line-Ok l c.params)
    where
      go :
          ((f : Bool) (c' : ParamCtx fl) → OutcomeOk (parse_lines fl junk f c' ls))
          → (skip : Bool) (s : Scan fl) → ScanOk s
          → OutcomeOk (elim skip [
            | true ↦ parse_lines fl junk found c ls
            | false ↦ elim s [
              | on f ps ↦ parse_lines fl junk (found || f) (record c { params = ps }) ls
              | stops e ps ↦ returns false (record c { params = ps; param_error = e })
              | Parse.fault ↦ crashed
            ]
          ])
      go ih true s h = ih found c
      go ih false (on f ps) h = ih (found || f) (record c { params = ps })
      go ih false (stops e ps) h = h
      go ih false Parse.fault h = tt

  -- The name of the file has `.txt` in it, and the file can be opened.
  abbrev pub opens : Bytes → Option Bytes → Bool
  opens filename file = is_some (strstr filename (text ".txt")) && is_some file

  -- What a run says of what was there: nothing new if the file did not open; else a false comes
  -- with an error that ParamPrintError prints.
  abbrev pub Reports : Bool → ParamCtx fl → Outcome fl → Type 0
  Reports false c r = r ≡ returns false c
  Reports true c (returns false c') =
      (rest : Bytes) × (param_print_error fl c' ≡ text "ERROR: " ++ rest)
  Reports true c (returns true c') = Unit
  Reports true c crashed = Unit

  OutcomeOk-Reports : (c : ParamCtx fl) (r : Outcome fl) → OutcomeOk r → Reports true c r
  OutcomeOk-Reports c (returns true c') h = tt
  OutcomeOk-Reports c (returns false c') h = error_text-error c'.param_error h
  OutcomeOk-Reports c crashed h = tt

  -- If the name of the file has no `.txt` in it or the file cannot be opened, param_parse_txt
  -- returns false and leaves the context as it is, the error included; and if it returns false on a
  -- file that opened, ParamPrintError prints an error.
  pub parse_false_prints :
      (c : ParamCtx fl) (filename : Bytes) (file : Option Bytes)
      → Reports (opens filename file) c (param_parse_txt fl junk c filename file)
  unfolding param_parse_txt
  parse_false_prints c filename file = go (strstr filename (text ".txt")) file
    where
      go :
          (o : Option (Bytes × Bytes)) (f : Option Bytes)
          → Reports (is_some o && is_some f) c (elim o [
            | none ↦ returns false c
            | some at ↦ elim f [
              | none ↦ returns false c
              | some s ↦ parse_lines fl junk false c (lines line_size s)
            ]
          ])
      go none f = refl
      go (some at) none = refl
      go (some at) (some s) =
          OutcomeOk-Reports c (parse_lines fl junk false c (lines line_size s))
            (parse_lines-Ok false c (lines line_size s))
