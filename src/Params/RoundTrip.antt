-- ===== src/Params/RoundTrip.antt =====
-- param_parse_txt on a file that param_save_txt wrote.
use data_commoms.Base.{
  ◌<◌, ◌≡◌, refl, ap, ◌∙◌, true, false, Option, some, none, List, [], ◌∷◌, arith, length,
}
use data_commoms.Text.{Bytes, text}
use data_commoms.Text.Search.{lines, strstr, is_some}
use data_commoms.Params.{FloatText, Param, ParamCtx, Value}
use data_commoms.Params.Parse.{line_size, missing, returns, finish, parse_lines, param_parse_txt}
use data_commoms.Params.Save.{printed, params_text, saves, param_save_txt}
use data_commoms.Params.Scan.{names_apart, given}
use data_commoms.Params.Load.{AllHold, read_backs, clear, is_none, params-load}

module _ (fl : FloatText) where
  module _ (junk : Bytes) where
    clear-nil : (ps : List (Param fl)) → clear fl junk ps [] ≡ true
    clear-nil [] = refl
    clear-nil (p ∷ ps) = clear-nil ps

    is_none-length : (ps : List (Param fl)) → 0 < length ps → is_none fl junk ps ≡ false
    is_none-length [] h = absurd (omega arith)
    is_none-length (p ∷ ps) h = refl

    missing-given :
        (ps : List (Param fl)) (vs : List (Value fl)) → missing fl (given fl true ps vs) ≡ false
    unfolding missing
    missing-given [] vs = refl
    missing-given (p ∷ ps) [] = refl
    missing-given (p ∷ ps) (v ∷ vs) = let ih = missing-given ps vs in ground arith

    param_save_txt-printed :
        (ps : List (Param fl)) (c : ParamCtx fl) (s : Bytes)
        → params_text fl ps ≡ printed s
        → 0 < length ps
        → param_save_txt fl (record c { params = ps }) true ≡ saves s
    unfolding param_save_txt
    param_save_txt-printed [] c s e h = absurd (omega arith)
    param_save_txt-printed (p ∷ ps) c s e h = rw e refl

    param_parse_txt-opened :
        (c : ParamCtx fl) (filename s : Bytes)
        → is_some (strstr filename (text ".txt")) ≡ true
        → param_parse_txt fl junk c filename (some s)
          ≡ parse_lines fl junk false c (lines line_size s)
    unfolding param_parse_txt
    param_parse_txt-opened c filename s = go (strstr filename (text ".txt"))
      where
        go :
            (o : Option (Bytes × Bytes))
            → is_some o ≡ true
            → elim o [
              | none ↦ returns false c
              | some at ↦ parse_lines fl junk false c (lines line_size s)
            ]
              ≡ parse_lines fl junk false c (lines line_size s)
        go none h = cc
        go (some at) h = refl

    -- What param_save_txt writes, param_parse_txt reads into a program with the same parameters and
    -- other values: it succeeds, and each parameter has the value that was saved (a float as strtof
    -- reads what was printed, a list in front of the old items behind it); provided that there is a
    -- parameter, that no name is the end of another, that names have no `=`, space, `#` or line end
    -- and descriptions no `=` or line end, that each value is one that a line can hold and its
    -- variable takes (a string fits into its buffer, eight bytes may be written at an unsigned
    -- number), that what stands behind the two bytes that strtoul gets does not go on with a
    -- hexadecimal digit if there are binary data, that each line has less than 256 bytes, and that
    -- the name of the file has `.txt` in it.
    pub save_parse :
        (c c' : ParamCtx fl) (olds : List (Value fl)) (filename : Bytes)
        → c'.params ≡ given fl false c.params olds
        → AllHold fl junk c.params olds
        → names_apart fl c.params ≡ true
        → 0 < length c.params
        → is_some (strstr filename (text ".txt")) ≡ true
        → (s : Bytes) × (param_save_txt fl c true ≡ saves s)
          × (param_parse_txt fl junk c' filename (some s)
              ≡ returns true (record c' {
                params = given fl true c.params (read_backs fl junk c.params olds);
              }))
    unfolding finish
    save_parse c c' olds filename same h a some_param ext =
        let (s, written, loaded) = params-load fl junk c.params olds h a in
        let all = missing-given c.params (read_backs fl junk c.params olds) in
        let some_found : is_none fl junk c.params ≡ false = is_none-length c.params some_param in
        (
          s,
          param_save_txt-printed c.params c s written some_param,
          param_parse_txt-opened c' filename s ext
              ∙ ap (λ ps. parse_lines fl junk false (record c' { params = ps }) (lines line_size s))
                  same
              ∙ loaded false c' [] (clear-nil c.params)
              ∙ rw (some_found, all) refl,
        )
