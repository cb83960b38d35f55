-- ===== src/Flags/Explains.antt =====
-- What flag_parse leaves as it is, whatever the command line, and what it tells the caller.
use data_commoms.Base.{
  ℕ, zero, suc, ◌+◌, ◌≡◌, refl, ◌∙◌, Bool, true, false, ◌||◌, Option, none, some, List, [], ◌∷◌,
  length, inl, inr, Bool-cases, map,
}
use data_commoms.Text.{text, Bytes, streq}
use data_commoms.Flags.{FloatOps, Flag, FlagCtx, no_value}
use data_commoms.Flags.Parse.{
  Scanned, done, failed, fault, scan, finish, missing, read_word, Outcome, returns, faults,
  out_of_fuel, parse_loop, parse, Shown, Round, again, over, after_scan, ends_flags, behind_dash,
  round, last_or, show_missing,
}
use data_commoms.Flags.Typed.{is_error}
use data_commoms.Flags.Keeps.{registered, all_fit, Kept, ScanKept, scan-ScanKept}

module _ (fl : FloatOps) where
  -- The flags are kept, and a false comes with an error.
  abbrev Sound : List (Flag fl) → Outcome fl → Type 0
  Sound fs (returns b c shown) = Kept fl fs c.flags × ((b || is_error c.flag_error) ≡ true)
  Sound fs faults = Unit
  Sound fs out_of_fuel = Unit

  abbrev RoundSound : List (Flag fl) → Round fl → Type 0
  RoundSound fs (again c args) = Kept fl fs c.flags
  RoundSound fs (over o) = Sound fs o

  after_scan-RoundSound :
      (c : FlagCtx fl) (flag : Bytes) (r : Scanned fl)
      → ScanKept fl c.flags r
      → RoundSound c.flags (after_scan fl c flag r)
  unfolding after_scan
  after_scan-RoundSound c flag (done true args fs) k = k
  after_scan-RoundSound c flag (done false args fs) k = (k, refl)
  after_scan-RoundSound c flag (failed e fs) k = k
  after_scan-RoundSound c flag fault k = tt

  round-RoundSound :
      (c : FlagCtx fl) (arg : Bytes) (args : List Bytes)
      → all_fit fl c.flags ≡ true
      → RoundSound c.flags (round fl c arg args)
  unfolding round
  round-RoundSound c arg args h =
      let w = read_word (behind_dash arg) in
      elim (Bool-cases (ends_flags arg)) [
        | inl e ↦ rw e ((refl, h), refl)
        | inr e ↦ elim (Bool-cases (streq (text "-h") w.name || streq (text "-help") w.name)) [
          | inl s ↦ rw (e, s) ((refl, h), refl)
          | inr s ↦
              rw (e, s)
                (after_scan-RoundSound c w.name (scan fl w args c.flags)
                  (scan-ScanKept fl w args c.flags h))
        ]
      ]

  finish-Sound : (c : FlagCtx fl) → all_fit fl c.flags ≡ true → Sound c.flags (finish fl c)
  unfolding finish
  finish-Sound c h = go (missing fl c.flags)
    where
      go :
          (l : List Bytes)
          → Sound c.flags (elim l [
            | [] ↦ returns true (record c { rest_argc = 0; rest_argv = [] }) []
            | x ∷ xs ↦
                returns false
                  (record c { flag_error = no_value; flag_error_name = last_or (some x) xs })
                  (show_missing (x ∷ xs))
          ])
      go [] = ((refl, h), refl)
      go (x ∷ xs) = ((refl, h), refl)

  trans-Sound :
      (fs fs' : List (Flag fl)) (o : Outcome fl)
      → map (registered fl) fs' ≡ map (registered fl) fs
      → Sound fs' o
      → Sound fs o
  trans-Sound fs fs' (returns b c shown) same ((k, a), e) = ((k ∙ same, a), e)
  trans-Sound fs fs' faults same s = tt
  trans-Sound fs fs' out_of_fuel same s = tt

  parse_loop-Sound :
      (fuel : ℕ) (c : FlagCtx fl) (args : List Bytes)
      → all_fit fl c.flags ≡ true
      → Sound c.flags (parse_loop fl fuel c args)
  unfolding parse_loop
  parse_loop-Sound zero c args h = tt
  parse_loop-Sound (suc fuel) c [] h = finish-Sound c h
  parse_loop-Sound (suc fuel) c (arg ∷ args) h =
      go (λ c' args'. parse_loop-Sound fuel c' args') (round fl c arg args)
        (round-RoundSound c arg args h)
    where
      go :
          ((c' : FlagCtx fl) (args' : List Bytes)
            → all_fit fl c'.flags ≡ true
            → Sound c'.flags (parse_loop fl fuel c' args'))
          → (r : Round fl) → RoundSound c.flags r
          → Sound c.flags (elim r [ again c' args' ↦ parse_loop fl fuel c' args' | over o ↦ o ])
      go ih (again c' args') (same, a) =
          trans-Sound c.flags c'.flags (parse_loop fl fuel c' args') same (ih c' args' a)
      go ih (over o) s = s

  parse-Sound :
      (c : FlagCtx fl) (argv : List Bytes)
      → all_fit fl c.flags ≡ true
      → Sound c.flags (parse fl c argv)
  unfolding parse
  parse-Sound c argv h = go c.program_name argv
    where
      go :
          (o : Option Bytes) (l : List Bytes)
          → Sound c.flags (elim o [
            | some p ↦ parse_loop fl (length argv + 1) c argv
            | none ↦ elim l [
              | [] ↦ faults
              | p ∷ args ↦ parse_loop fl (length args + 1) (record c { program_name = some p }) args
            ]
          ])
      go (some p) l = parse_loop-Sound (length argv + 1) c argv h
      go none [] = tt
      go none (p ∷ args) =
          parse_loop-Sound (length args + 1) (record c { program_name = some p }) args h

  -- If each flag holds a value of its type and width, then after flag_parse, whatever it returns,
  -- each flag does so again, and has the name, type, default, description and duty that the program
  -- gave it; and if it returns false, the context holds an error.
  pub parse_explains :
      (c c' : FlagCtx fl) (argv : List Bytes) (b : Bool) (shown : List Shown)
      → all_fit fl c.flags ≡ true
      → parse fl c argv ≡ returns b c' shown
      → (map (registered fl) c'.flags ≡ map (registered fl) c.flags)
        × (all_fit fl c'.flags ≡ true)
        × ((b || is_error c'.flag_error) ≡ true)
  parse_explains c c' argv b shown h run =
      let ((same, fit), err) = rw run at (parse-Sound c argv h) in (same, fit, err)
