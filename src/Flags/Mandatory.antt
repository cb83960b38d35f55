-- ===== src/Flags/Mandatory.antt =====
-- What a successful run of flag_parse says about the mandatory flags.
use mathlib.Core.List.{Memᴰ}
use data_commoms.Base.{
  ℕ, zero, suc, ◌+◌, ◌≡◌, refl, true, false, Option, none, some, List, [], ◌∷◌, arith, length, inl,
  inr, Bool-cases, ◌||◌,
}
use data_commoms.Text.{text, Bytes, streq}
use data_commoms.Flags.{FloatOps, Flag, FlagCtx, no_value}
use data_commoms.Flags.Parse.{
  Scanned, done, failed, fault, scan, finish, missing, read_word, Outcome, returns, faults,
  parse_loop, parse, Round, again, over, after_scan, ends_flags, behind_dash, round, last_or,
  show_missing,
}

module _ (fl : FloatOps) where
  -- After a return with true, nothing left over and no help shown, no mandatory flag is missing.
  abbrev Complete : Outcome fl → Type 0
  Complete (returns true c []) = c.rest_argc ≡ 0 → missing fl c.flags ≡ []
  Complete _ = Unit

  abbrev CompleteRound : Round fl → Type 0
  CompleteRound (again c args) = Unit
  CompleteRound (over o) = Complete o

  after_scan-CompleteRound :
      (c : FlagCtx fl) (flag : Bytes) (r : Scanned fl) → CompleteRound (after_scan fl c flag r)
  unfolding after_scan
  after_scan-CompleteRound c flag (done true args fs) = tt
  after_scan-CompleteRound c flag (done false args fs) = tt
  after_scan-CompleteRound c flag (failed e fs) = tt
  after_scan-CompleteRound c flag fault = tt

  round-CompleteRound :
      (c : FlagCtx fl) (arg : Bytes) (args : List Bytes) → CompleteRound (round fl c arg args)
  unfolding round
  round-CompleteRound c arg args =
      let w = read_word (behind_dash arg) in
      elim (Bool-cases (ends_flags arg)) [
        | inl e ↦ rw e (λ h. absurd (omega arith))
        | inr e ↦ elim (Bool-cases (streq (text "-h") w.name || streq (text "-help") w.name)) [
          | inl h ↦ rw (e, h) tt
          | inr h ↦ rw (e, h) (after_scan-CompleteRound c w.name (scan fl w args c.flags))
        ]
      ]

  finish-Complete : (c : FlagCtx fl) → Complete (finish fl c)
  unfolding finish
  finish-Complete c = go (missing fl c.flags) refl
    where
      go :
          (l : List Bytes)
          → missing fl c.flags ≡ l
          → Complete (elim l [
            | [] ↦ returns true (record c { rest_argc = 0; rest_argv = [] }) []
            | x ∷ xs ↦
                returns false
                  (record c { flag_error = no_value; flag_error_name = last_or (some x) xs })
                  (show_missing (x ∷ xs))
          ])
      go [] e = λ h. e
      go (x ∷ xs) e = tt

  parse_loop-Complete :
      (fuel : ℕ) (c : FlagCtx fl) (args : List Bytes) → Complete (parse_loop fl fuel c args)
  unfolding parse_loop
  parse_loop-Complete zero c args = tt
  parse_loop-Complete (suc fuel) c [] = finish-Complete c
  parse_loop-Complete (suc fuel) c (arg ∷ args) =
      go (λ c' args'. parse_loop-Complete fuel c' args') (round fl c arg args)
        (round-CompleteRound c arg args)
    where
      go :
          ((c' : FlagCtx fl) (args' : List Bytes) → Complete (parse_loop fl fuel c' args'))
          → (r : Round fl) → CompleteRound r
          → Complete (elim r [ again c' args' ↦ parse_loop fl fuel c' args' | over o ↦ o ])
      go ih (again c' args') l = ih c' args'
      go ih (over o) l = l

  parse-Complete : (c : FlagCtx fl) (argv : List Bytes) → Complete (parse fl c argv)
  unfolding parse
  parse-Complete c argv = go c.program_name argv
    where
      go :
          (o : Option Bytes) (l : List Bytes)
          → Complete (elim o [
            | some p ↦ parse_loop fl (length argv + 1) c argv
            | none ↦ elim l [
              | [] ↦ faults
              | p ∷ args ↦ parse_loop fl (length args + 1) (record c { program_name = some p }) args
            ]
          ])
      go (some p) l = parse_loop-Complete (length argv + 1) c argv
      go none [] = tt
      go none (p ∷ args) =
          parse_loop-Complete (length args + 1) (record c { program_name = some p }) args

  missing-cons :
      (f : Flag fl) (fs : List (Flag fl))
      → missing fl (f ∷ fs) ≡ []
      → (f.is_mandatory ≡ true → f.has_changed ≡ true) × (missing fl fs ≡ [])
  unfolding missing
  missing-cons f fs e = elim (Bool-cases f.is_mandatory) [
    | inl m ↦ elim (Bool-cases f.has_changed) [
      | inl d ↦ (λ k. d, rw (m, d) at e)
      | inr d ↦ let e2 = rw (m, d) at e in cc
    ]
    | inr m ↦ (λ k. cc, rw m at e)
  ]

  missing_none :
      (fs : List (Flag fl)) {f : Flag fl}
      → missing fl fs ≡ []
      → Memᴰ f fs
      → f.is_mandatory ≡ true
      → f.has_changed ≡ true
  missing_none [] e i m = elim i [ ]
  missing_none (f ∷ fs) e (Memᴰ.head same) m = rw same ((missing-cons f fs e).0 (rw same at m))
  missing_none (f ∷ fs) e (Memᴰ.tail i) m = missing_none fs (missing-cons f fs e).1 i m

  -- If flag_parse returns true and neither left arguments over nor showed the help, then every
  -- mandatory flag was given.
  pub parse_mandatory :
      (c c' : FlagCtx fl) (argv : List Bytes)
      → parse fl c argv ≡ returns true c' []
      → c'.rest_argc ≡ 0
      → (f : Flag fl) → Memᴰ f c'.flags
      → f.is_mandatory ≡ true
      → f.has_changed ≡ true
  parse_mandatory c c' argv run none_left f i m =
      missing_none c'.flags (rw run at (parse-Complete c argv) none_left) i m
