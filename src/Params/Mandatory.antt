-- ===== src/Params/Mandatory.antt =====
-- What param_parse_txt promises of all parameters, whatever the file holds.
use data_commoms.Base.{
  ◌≡◌, Bool, true, false, ◌||◌, Option, some, none, List, [], ◌∷◌, arith, Bool-cases, inl, inr,
}
use data_commoms.Text.{Bytes, text}
use data_commoms.Text.Search.{strstr, lines}
use data_commoms.Params.{FloatText, Param, ParamCtx}
use data_commoms.Params.Line.{Turn, passes, sets, breaks, fails, crashes, param_turn}
use data_commoms.Params.Parse.{
  Scan, on, stops, fault, keep, is_skipped, line_size, missing, Outcome, returns, crashed, finish,
  scan_line, parse_lines, param_parse_txt,
}
use data_commoms.Params.Keeps.{Kept, Kept-refl, Kept-trans}
use data_commoms.Params.Stores.{TurnKept, param_turn-Kept}

module _ (fl : FloatText) where
  abbrev pub AllKept : List (Param fl) → List (Param fl) → Type 0
  AllKept [] [] = Unit
  AllKept (p ∷ ps) (q ∷ qs) = Kept fl p q × AllKept ps qs
  AllKept [] (q ∷ qs) = ⊥
  AllKept (p ∷ ps) [] = ⊥

  AllKept-refl : (ps : List (Param fl)) → AllKept ps ps
  AllKept-refl [] = tt
  AllKept-refl (p ∷ ps) = (Kept-refl fl p, AllKept-refl ps)

  AllKept-trans : (ps qs rs : List (Param fl)) → AllKept ps qs → AllKept qs rs → AllKept ps rs
  AllKept-trans [] [] [] a b = tt
  AllKept-trans [] [] (r ∷ rs) a b = elim b [ ]
  AllKept-trans [] (q ∷ qs) rs a b = elim a [ ]
  AllKept-trans (p ∷ ps) [] rs a b = elim a [ ]
  AllKept-trans (p ∷ ps) (q ∷ qs) [] a b = elim b [ ]
  AllKept-trans (p ∷ ps) (q ∷ qs) (r ∷ rs) (a, more) (b, bs) =
      (Kept-trans fl p q r a b, AllKept-trans ps qs rs more bs)

  -- Each mandatory parameter was given.
  abbrev pub AllGiven : List (Param fl) → Type 0
  AllGiven [] = Unit
  AllGiven (p ∷ ps) = (p.is_mandatory ≡ true → p.has_changed ≡ true) × AllGiven ps

  missing-AllGiven : (ps : List (Param fl)) → missing fl ps ≡ false → AllGiven ps
  unfolding missing
  missing-AllGiven [] h = tt
  missing-AllGiven (p ∷ ps) h = (λ m. ground arith, missing-AllGiven ps (ground arith))

  -- The parameters are those that were there, as Kept says, and if the result is true, each
  -- mandatory one was given.
  abbrev Promise : List (Param fl) → Outcome fl → Type 0
  Promise ps (returns true c) = AllKept ps c.params × AllGiven c.params
  Promise ps (returns false c) = AllKept ps c.params
  Promise ps crashed = Unit

  Promise-Kept :
      (ps qs : List (Param fl)) (o : Outcome fl) → AllKept ps qs → Promise qs o → Promise ps o
  Promise-Kept ps qs (returns true c) k (a, g) = (AllKept-trans ps qs c.params k a, g)
  Promise-Kept ps qs (returns false c) k a = AllKept-trans ps qs c.params k a
  Promise-Kept ps qs crashed k a = tt

  finish-Promise : (found : Bool) (c : ParamCtx fl) → Promise c.params (finish fl found c)
  unfolding finish
  finish-Promise false c = AllKept-refl c.params
  finish-Promise true c = elim (Bool-cases (missing fl c.params)) [
    | inl e ↦ rw e (AllKept-refl c.params)
    | inr e ↦ rw e (AllKept-refl c.params, missing-AllGiven c.params e)
  ]

  module _ (junk : Bytes) where
    abbrev ScanKept : List (Param fl) → Scan fl → Type 0
    ScanKept ps (on b qs) = AllKept ps qs
    ScanKept ps (stops e qs) = AllKept ps qs
    ScanKept ps fault = Unit

    keep-Kept :
        (p q : Param fl) (b : Bool) (ps : List (Param fl)) (r : Scan fl)
        → Kept fl p q
        → ScanKept ps r
        → ScanKept (p ∷ ps) (keep fl q b r)
    keep-Kept p q b ps (on f qs) k s = (k, s)
    keep-Kept p q b ps (stops e qs) k s = (k, s)
    keep-Kept p q b ps fault k s = tt

    scan_line-Kept : (line : Bytes) (ps : List (Param fl)) → ScanKept ps (scan_line fl junk line ps)
    unfolding scan_line
    scan_line-Kept line [] = tt
    scan_line-Kept line (p ∷ ps) =
        go (param_turn fl junk p line) (param_turn-Kept fl junk p line) (λ l. scan_line-Kept l ps)
      where
        go :
            (t : Turn fl junk)
            → TurnKept fl junk p t
            → ((l : Bytes) → ScanKept ps (scan_line fl junk l ps))
            → ScanKept (p ∷ ps) (elim t [
              | passes ↦ keep fl p false (scan_line fl junk line ps)
              | sets p' line' ↦ keep fl p' true (scan_line fl junk line' ps)
              | breaks ↦ on true (p ∷ ps)
              | fails e ↦ stops e (p ∷ ps)
              | crashes ↦ fault
            ])
        go passes k rest =
            keep-Kept p p false ps (scan_line fl junk line ps) (Kept-refl fl p) (rest line)
        go (sets q l) k rest = keep-Kept p q true ps (scan_line fl junk l ps) k (rest l)
        go breaks k rest = AllKept-refl (p ∷ ps)
        go (fails e) k rest = AllKept-refl (p ∷ ps)
        go crashes k rest = tt

    parse_lines-Promise :
        (found : Bool) (c : ParamCtx fl) (ls : List Bytes)
        → Promise c.params (parse_lines fl junk found c ls)
    unfolding parse_lines
    parse_lines-Promise found c [] = finish-Promise found c
    parse_lines-Promise found c (l ∷ ls) = elim (Bool-cases (is_skipped l)) [
      | inl e ↦ rw (parse_lines, e) (parse_lines-Promise found c ls)
      | inr e ↦
          rw (parse_lines, e)
            (go (scan_line fl junk l c.params) (scan_line-Kept l c.params)
              (λ f ps. parse_lines-Promise (found || f) (record c { params = ps }) ls))
    ]
      where
        go :
            (r : Scan fl)
            → ScanKept c.params r
            → ((f : Bool)
                → (ps : List (Param fl))
                → Promise ps (parse_lines fl junk (found || f) (record c { params = ps }) ls))
            → Promise c.params (elim r [
              | on f ps ↦ parse_lines fl junk (found || f) (record c { params = ps }) ls
              | stops e ps ↦ returns false (record c { params = ps; param_error = e })
              | fault ↦ crashed
            ])
        go (on f ps) k rest =
            Promise-Kept c.params ps
              (parse_lines fl junk (found || f) (record c { params = ps }) ls) k (rest f ps)
        go (stops e ps) k rest = k
        go fault k rest = tt

    param_parse_txt-Promise :
        (c : ParamCtx fl) (filename : Bytes) (file : Option Bytes)
        → Promise c.params (param_parse_txt fl junk c filename file)
    unfolding param_parse_txt
    param_parse_txt-Promise c filename file = go (strstr filename (text ".txt")) file
      where
        go :
            (at : Option (Bytes × Bytes)) (f : Option Bytes)
            → Promise c.params (elim at [
              | none ↦ returns false c
              | some x ↦ elim f [
                | none ↦ returns false c
                | some s ↦ parse_lines fl junk false c (lines line_size s)
              ]
            ])
        go none f = AllKept-refl c.params
        go (some x) none = AllKept-refl c.params
        go (some x) (some s) = parse_lines-Promise false c (lines line_size s)

    -- Whatever the file holds, if param_parse_txt returns, with no write past the room of a
    -- variable, the parameters are those that were there, with their names, types, descriptions and
    -- duties; none that was given counts as not given, and a value of its type and size is still
    -- one.
    pub parse_keeps :
        (c c' : ParamCtx fl) (b : Bool) (filename : Bytes) (file : Option Bytes)
        → param_parse_txt fl junk c filename file ≡ returns b c'
        → AllKept c.params c'.params
    parse_keeps c c' true filename file e = (rw e at (param_parse_txt-Promise c filename file)).0
    parse_keeps c c' false filename file e = rw e at (param_parse_txt-Promise c filename file)

    -- If param_parse_txt succeeds, each mandatory parameter was given a value.
    pub parse_gives_mandatory :
        (c c' : ParamCtx fl) (filename : Bytes) (file : Option Bytes)
        → param_parse_txt fl junk c filename file ≡ returns true c'
        → AllGiven c'.params
    parse_gives_mandatory c c' filename file e =
        (rw e at (param_parse_txt-Promise c filename file)).1
