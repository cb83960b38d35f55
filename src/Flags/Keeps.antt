-- ===== src/Flags/Keeps.antt =====
-- What a scan over the flags leaves as it is, whatever the argument.
use data_commoms.Base.{
  ◌≡◌, refl, Bool, true, false, ◌&&◌, Option, none, some, List, [], ◌∷◌, map, arith,
}
use data_commoms.Text.{Bytes, streq}
use data_commoms.Flags.{FloatOps, FlagType, FlagVal, Flag}
use data_commoms.Flags.Values.{Case, sets, stops, overruns, parse_value}
use data_commoms.Flags.Parse.{Scanned, done, failed, fault, Word, before, take_arg, scan_flag, scan}
use data_commoms.Flags.Typed.{
  fits, is_error, Satisfies, sets_ok, stops_ok, overruns_ok, parse_value-Satisfies,
}

module _ (fl : FloatOps) where
  -- What the program has registered of a flag.
  abbrev pub registered : Flag fl → FlagType × Bytes × Bytes × FlagVal fl × Bool
  registered f = (f.type, f.name, f.desc, f.def, f.is_mandatory)

  abbrev pub all_fit : List (Flag fl) → Bool
  all_fit [] = true
  all_fit (f ∷ fs) = fits fl f.type f.val && all_fit fs

  -- The flags before and after: the same in what is registered, each with a value that fits.
  abbrev pub Kept : List (Flag fl) → List (Flag fl) → Type 0
  Kept fs fs' = (map registered fs' ≡ map registered fs) × (all_fit fs' ≡ true)

  abbrev pub ScanKept : List (Flag fl) → Scanned fl → Type 0
  ScanKept fs (done b args fs') = Kept fs fs'
  ScanKept fs (failed e fs') = Kept fs fs' × (is_error e ≡ true)
  ScanKept fs fault = Unit

  before-ScanKept :
      (f f' : Flag fl) (b : Bool) (fs : List (Flag fl)) (r : Scanned fl)
      → registered f' ≡ registered f
      → fits fl f'.type f'.val ≡ true
      → ScanKept fs r
      → ScanKept (f ∷ fs) (before fl f' b r)
  before-ScanKept f f' b fs (done c args fs') same ok (k, a) =
      (rw (same, k) refl, ground (arith, ok, a))
  before-ScanKept f f' b fs (failed e fs') same ok ((k, a), err) =
      ((rw (same, k) refl, ground (arith, ok, a)), err)
  before-ScanKept f f' b fs fault same ok k = tt

  abbrev FlagKept : Flag fl → Case (Flag fl × List Bytes) → Type 0
  FlagKept f (sets (f', args)) = (registered f' ≡ registered f) × (fits fl f'.type f'.val ≡ true)
  FlagKept f (stops e) = is_error e ≡ true
  FlagKept f overruns = Unit

  scan_flag-FlagKept :
      (w : Word) (args : List Bytes) (f : Flag fl) (o : Option (Bytes × List Bytes))
      → fits fl f.type f.val ≡ true
      → FlagKept f (scan_flag fl w args f o)
  unfolding scan_flag
  scan_flag-FlagKept w args f none h = refl
  scan_flag-FlagKept w args f (some (a, args')) h =
      go (parse_value fl f.type w.ignore f.val a)
        (parse_value-Satisfies fl f.type w.ignore f.val a h)
    where
      go :
          (r : Case (FlagVal fl))
          → Satisfies (fits fl f.type) r
          → FlagKept f (elim r [
            | sets v ↦ sets (record f { val = v; has_changed = true }, args')
            | stops e ↦ stops e
            | overruns ↦ overruns
          ])
      go (sets v) (sets_ok ok) = (refl, ok)
      go (stops e) (stops_ok err) = err
      go overruns overruns_ok = tt

  pub scan-ScanKept :
      (w : Word) (args : List Bytes) (fs : List (Flag fl))
      → all_fit fs ≡ true
      → ScanKept fs (scan fl w args fs)
  unfolding scan
  scan-ScanKept w args [] h = (refl, refl)
  scan-ScanKept w args (f ∷ fs) h =
      go (streq f.name w.name) (scan_flag fl w args f (take_arg w.equals args))
        (scan_flag-FlagKept w args f (take_arg w.equals args) (ground (arith, h)))
        (λ args'. scan-ScanKept w args' fs (ground (arith, h)))
    where
      go :
          (b : Bool) (r : Case (Flag fl × List Bytes))
          → FlagKept f r
          → ((args' : List Bytes) → ScanKept fs (scan fl w args' fs))
          → ScanKept (f ∷ fs) (elim b [
            | false ↦ before fl f false (scan fl w args fs)
            | true ↦ elim r [
              | sets (f', args') ↦ before fl f' true (scan fl w args' fs)
              | stops e ↦ failed e (f ∷ fs)
              | overruns ↦ fault
            ]
          ])
      go false r k ih =
          before-ScanKept f f false fs (scan fl w args fs) refl (ground (arith, h)) (ih args)
      go true (sets (f', args')) (same, ok) ih =
          before-ScanKept f f' true fs (scan fl w args' fs) same ok (ih args')
      go true (stops e) k ih = ((refl, h), k)
      go true overruns k ih = tt
