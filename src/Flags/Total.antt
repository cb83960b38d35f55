-- ===== src/Flags/Total.antt =====
-- flag_parse always ends.
use data_commoms.Base.{
  ℕ, zero, suc, ◌+◌, ◌≤◌, ◌<◌, ◌≡◌, ◌≢◌, refl, Bool, true, false, Option, none, some, List, [], ◌∷◌,
  arith, length, inl, inr, Bool-cases, ◌||◌,
}
use data_commoms.Text.{text, Bytes, streq}
use data_commoms.Flags.{FloatOps, Flag, FlagVal, FlagCtx, no_value}
use data_commoms.Flags.Values.{Case, sets, stops, overruns, parse_value}
use data_commoms.Flags.Parse.{
  Scanned, done, failed, fault, Word, before, take_arg, scan_flag, scan, finish, missing, read_word,
  returns, faults, out_of_fuel, parse_loop, parse, Round, again, over, after_scan, ends_flags,
  behind_dash, round, last_or, show_missing,
}

module _ (fl : FloatOps) where
  -- What a scan leaves of the arguments.
  abbrev Leaves : ℕ → Scanned fl → Type 0
  Leaves n (done b args fs) = length args ≤ n
  Leaves n _ = Unit

  before-Leaves :
      (f : Flag fl) (b : Bool) {n m : ℕ} (r : Scanned fl)
      → n ≤ m
      → Leaves n r
      → Leaves m (before fl f b r)
  before-Leaves f b (done c args fs) h l = omega arith
  before-Leaves f b (failed e fs) h l = tt
  before-Leaves f b fault h l = tt

  abbrev LeavesArgs : ℕ → Case (Flag fl × List Bytes) → Type 0
  LeavesArgs n (sets (f, args)) = length args ≤ n
  LeavesArgs n _ = Unit

  take_arg-length :
      (e : Option Bytes) (args : List Bytes) {a : Bytes} {args' : List Bytes}
      → take_arg e args ≡ some (a, args')
      → length args' ≤ length args
  unfolding take_arg
  take_arg-length (some v) args h = ground arith
  take_arg-length none [] h = cc
  take_arg-length none (a ∷ args) h = ground arith

  scan_flag-Leaves :
      (w : Word) (args : List Bytes) (f : Flag fl) (o : Option (Bytes × List Bytes))
      → ((a : Bytes) (args' : List Bytes) → o ≡ some (a, args') → length args' ≤ length args)
      → LeavesArgs (length args) (scan_flag fl w args f o)
  unfolding scan_flag
  scan_flag-Leaves w args f none h = tt
  scan_flag-Leaves w args f (some (a, args')) h = go (parse_value fl f.type w.ignore f.val a)
    where
      go :
          (r : Case (FlagVal fl))
          → LeavesArgs (length args) (elim r [
            | sets v ↦ sets (record f { val = v; has_changed = true }, args')
            | stops e ↦ stops e
            | overruns ↦ overruns
          ])
      go (sets v) = h a args' refl
      go (stops e) = tt
      go overruns = tt

  scan-Leaves :
      (w : Word) (args : List Bytes) (fs : List (Flag fl))
      → Leaves (length args) (scan fl w args fs)
  unfolding scan
  scan-Leaves w args [] = omega arith
  scan-Leaves w args (f ∷ fs) =
      go (streq f.name w.name) (scan_flag fl w args f (take_arg w.equals args))
        (scan_flag-Leaves w args f (take_arg w.equals args)
          (λ a args' e. take_arg-length w.equals args e))
        (scan-Leaves w args fs) (λ args'. scan-Leaves w args' fs)
    where
      go :
          (b : Bool) (r : Case (Flag fl × List Bytes))
          → LeavesArgs (length args) r
          → Leaves (length args) (scan fl w args fs)
          → ((args' : List Bytes) → Leaves (length args') (scan fl w args' fs))
          → Leaves (length args) (elim b [
            | false ↦ before fl f false (scan fl w args fs)
            | true ↦ elim r [
              | sets (f', args') ↦ before fl f' true (scan fl w args' fs)
              | stops e ↦ failed e (f ∷ fs)
              | overruns ↦ fault
            ]
          ])
      go false r l same ih = before-Leaves f false (scan fl w args fs) (omega arith) same
      go true (sets (f', args')) l same ih = before-Leaves f' true (scan fl w args' fs) l (ih args')
      go true (stops e) l same ih = tt
      go true overruns l same ih = tt

  abbrev GoesDown : ℕ → Round fl → Type 0
  GoesDown n (again c args) = length args ≤ n
  GoesDown n (over o) = o ≢ out_of_fuel

  after_scan-GoesDown :
      (c : FlagCtx fl) (flag : Bytes) (n : ℕ) (r : Scanned fl)
      → Leaves n r
      → GoesDown n (after_scan fl c flag r)
  unfolding after_scan
  after_scan-GoesDown c flag n (done true args fs) l = l
  after_scan-GoesDown c flag n (done false args fs) l = λ e. cc
  after_scan-GoesDown c flag n (failed e fs) l = λ e. cc
  after_scan-GoesDown c flag n fault l = λ e. cc

  round-GoesDown :
      (c : FlagCtx fl) (arg : Bytes) (args : List Bytes)
      → GoesDown (length args) (round fl c arg args)
  unfolding round
  round-GoesDown c arg args =
      let w = read_word (behind_dash arg) in
      elim (Bool-cases (ends_flags arg)) [
        | inl e ↦ rw e (λ e. cc)
        | inr e ↦ elim (Bool-cases (streq (text "-h") w.name || streq (text "-help") w.name)) [
          | inl h ↦ rw (e, h) (λ e. cc)
          | inr h ↦
              rw (e, h)
                (after_scan-GoesDown c w.name (length args) (scan fl w args c.flags)
                  (scan-Leaves w args c.flags))
        ]
      ]

  finish-returns : (c : FlagCtx fl) → finish fl c ≢ out_of_fuel
  unfolding finish
  finish-returns c = go (missing fl c.flags)
    where
      go :
          (l : List Bytes)
          → elim l [
            | [] ↦ returns true (record c { rest_argc = 0; rest_argv = [] }) []
            | x ∷ xs ↦
                returns false
                  (record c { flag_error = no_value; flag_error_name = last_or (some x) xs })
                  (show_missing (x ∷ xs))
          ]
            ≢ out_of_fuel
      go [] = λ e. cc
      go (x ∷ xs) = λ e. cc

  -- The loop has as much fuel as it needs.
  parse_loop-total :
      (fuel : ℕ) (c : FlagCtx fl) (args : List Bytes)
      → length args < fuel
      → parse_loop fl fuel c args ≢ out_of_fuel
  unfolding parse_loop
  parse_loop-total zero c args h = absurd (omega arith)
  parse_loop-total (suc fuel) c [] h = finish-returns c
  parse_loop-total (suc fuel) c (arg ∷ args) h =
      go (λ c' args'. parse_loop-total fuel c' args') (round fl c arg args)
        (round-GoesDown c arg args)
    where
      go :
          ((c' : FlagCtx fl) (args' : List Bytes)
            → length args' < fuel
            → parse_loop fl fuel c' args' ≢ out_of_fuel)
          → (r : Round fl) → GoesDown (length args) r
          → elim r [ again c' args' ↦ parse_loop fl fuel c' args' | over o ↦ o ] ≢ out_of_fuel
      go ih (again c' args') l = ih c' args' (omega arith)
      go ih (over o) l = l

  -- flag_parse comes to an end on every command line.
  pub parse_total : (c : FlagCtx fl) (argv : List Bytes) → parse fl c argv ≢ out_of_fuel
  unfolding parse
  parse_total c argv = go c.program_name argv
    where
      go :
          (o : Option Bytes) (l : List Bytes)
          → elim o [
            | some p ↦ parse_loop fl (length argv + 1) c argv
            | none ↦ elim l [
              | [] ↦ faults
              | p ∷ args ↦ parse_loop fl (length args + 1) (record c { program_name = some p }) args
            ]
          ]
            ≢ out_of_fuel
      go (some p) l = parse_loop-total (length argv + 1) c argv (omega arith)
      go none [] = λ e. cc
      go none (p ∷ args) =
          parse_loop-total (length args + 1) (record c { program_name = some p }) args (omega arith)
