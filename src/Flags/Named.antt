-- ===== src/Flags/Named.antt =====
-- After flag_parse has returned false, its context names a flag.
use data_commoms.Base.{
  ℕ, zero, suc, ◌+◌, ◌≡◌, inl, inr, refl, true, false, ◌||◌, Option, none, some, List, [], ◌∷◌,
  length, Bool-cases,
}
use data_commoms.Text.{text, Bytes, streq}
use data_commoms.Text.Search.{is_some}
use data_commoms.Flags.{FloatOps, FlagCtx, no_value}
use data_commoms.Flags.Parse.{
  Scanned, done, failed, fault, scan, finish, missing, read_word, Outcome, returns, faults,
  out_of_fuel, parse_loop, parse, Round, again, over, after_scan, ends_flags, behind_dash, round,
  last_or, show_missing,
}

module _ (fl : FloatOps) where
  -- A property of what flag_parse returns follows from its last round.
  module _ (Q : Outcome fl → Type 0) (at_end : (c : FlagCtx fl) → Q (finish fl c))
      (out : Q out_of_fuel) (fails : Q faults)
      (at_round : (c : FlagCtx fl) (arg : Bytes) (args : List Bytes) (o : Outcome fl)
        → round fl c arg args ≡ over o
        → Q o) where
    parse_loop-at_end :
        (fuel : ℕ) (c : FlagCtx fl) (args : List Bytes) → Q (parse_loop fl fuel c args)
    unfolding parse_loop
    parse_loop-at_end zero c args = out
    parse_loop-at_end (suc fuel) c [] = at_end c
    parse_loop-at_end (suc fuel) c (arg ∷ args) =
        go (λ c' args'. parse_loop-at_end fuel c' args') (round fl c arg args) (at_round c arg args)
      where
        go :
            ((c' : FlagCtx fl) (args' : List Bytes) → Q (parse_loop fl fuel c' args'))
            → (r : Round fl) → ((o : Outcome fl) → r ≡ over o → Q o)
            → Q (elim r [ again c' args' ↦ parse_loop fl fuel c' args' | over o ↦ o ])
        go ih (again c' args') h = ih c' args'
        go ih (over o) h = h o refl

    parse-at_end : (c : FlagCtx fl) (argv : List Bytes) → Q (parse fl c argv)
    unfolding parse
    parse-at_end c argv = go c.program_name argv
      where
        go :
            (o : Option Bytes) (l : List Bytes)
            → Q (elim o [
              | some p ↦ parse_loop fl (length argv + 1) c argv
              | none ↦ elim l [
                | [] ↦ faults
                | p ∷ args ↦
                    parse_loop fl (length args + 1) (record c { program_name = some p }) args
              ]
            ])
        go (some p) l = parse_loop-at_end (length argv + 1) c argv
        go none [] = fails
        go none (p ∷ args) =
            parse_loop-at_end (length args + 1) (record c { program_name = some p }) args

  -- A false comes with the name of a flag.
  abbrev pub Named : Outcome fl → Type 0
  Named (returns b c shown) = (b || is_some c.flag_error_name) ≡ true
  Named faults = Unit
  Named out_of_fuel = Unit

  is_some-last_or : (x : Bytes) (xs : List Bytes) → is_some (last_or (some x) xs) ≡ true
  is_some-last_or x [] = refl
  is_some-last_or x (y ∷ xs) = is_some-last_or y xs

  finish-Named : (c : FlagCtx fl) → Named (finish fl c)
  unfolding finish
  finish-Named c = go (missing fl c.flags)
    where
      go :
          (l : List Bytes)
          → Named (elim l [
            | [] ↦ returns true (record c { rest_argc = 0; rest_argv = [] }) []
            | x ∷ xs ↦
                returns false
                  (record c { flag_error = no_value; flag_error_name = last_or (some x) xs })
                  (show_missing (x ∷ xs))
          ])
      go [] = refl
      go (x ∷ xs) = is_some-last_or x xs

  abbrev RoundNamed : Round fl → Type 0
  RoundNamed (again c args) = Unit
  RoundNamed (over o) = Named o

  after_scan-Named :
      (c : FlagCtx fl) (flag : Bytes) (r : Scanned fl) → RoundNamed (after_scan fl c flag r)
  unfolding after_scan
  after_scan-Named c flag (done true args fs) = tt
  after_scan-Named c flag (done false args fs) = refl
  after_scan-Named c flag (failed e fs) = refl
  after_scan-Named c flag fault = tt

  round-Named :
      (c : FlagCtx fl) (arg : Bytes) (args : List Bytes) → RoundNamed (round fl c arg args)
  unfolding round
  round-Named c arg args =
      let w = read_word (behind_dash arg) in
      elim (Bool-cases (ends_flags arg)) [
        | inl e ↦ rw e refl
        | inr e ↦ elim (Bool-cases (streq (text "-h") w.name || streq (text "-help") w.name)) [
          | inl s ↦ rw (e, s) refl
          | inr s ↦ rw (e, s) (after_scan-Named c w.name (scan fl w args c.flags))
        ]
      ]

  pub parse-Named : (c : FlagCtx fl) (argv : List Bytes) → Named (parse fl c argv)
  parse-Named c argv =
      parse-at_end Named finish-Named tt tt
        (λ c arg args o e. (let n = round-Named c arg args in rw e at n)) c argv
