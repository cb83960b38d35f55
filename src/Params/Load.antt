-- ===== src/Params/Load.antt =====
-- The lines of a file that holds a value of each parameter, one after the other.
use mathlib.Core.List.{append_assoc}
use data_commoms.Base.{
  ◌<◌, ◌≡◌, refl, sym, ◌∙◌, Bool, true, false, not, ◌&&◌, ◌||◌, List, [], ◌∷◌, ◌++◌, arith, length,
  length-append, ltb,
}
use data_commoms.Text.{Bytes}
use data_commoms.Text.Search.{lines, read_lines}
use data_commoms.Text.Find.{lacks, lacks-append, read_lines-line}
use data_commoms.Params.{FloatText, Param, ParamCtx, Value}
use data_commoms.Params.Parse.{line_size, finish, parse_lines}
use data_commoms.Params.Keys.{is_name, ends_with}
use data_commoms.Params.Save.{printed, params_text}
use data_commoms.Params.Reads.{Reads}
use data_commoms.Params.ReadBack.{Line-Holds}
use data_commoms.Params.Restore.{Holds, read_back, with_old, line_fits, Plain}
use data_commoms.Params.Scan.{
  is_skipped-name, none_ends, ends_none, names_apart, given, none_ends-given, scan_line-sets,
}

or_true : (b : Bool) → (b || true) ≡ true
or_true true = refl
or_true false = refl

or_false : (b : Bool) → (b || false) ≡ b
or_false true = refl
or_false false = refl

module _ (fl : FloatText) where
  module _ (junk : Bytes) where
    -- Each parameter is written as a line that reads back over the value that is there.
    abbrev pub AllHold : List (Param fl) → List (Value fl) → Type 0
    AllHold [] [] = Unit
    AllHold (p ∷ ps) (v ∷ vs) =
        Holds fl junk p.type p.list_type p.room p.val v
        × Plain fl junk p
        × (line_fits fl junk p ≡ true)
        × AllHold ps vs
    AllHold [] (v ∷ vs) = ⊥
    AllHold (p ∷ ps) [] = ⊥

    abbrev pub read_backs : List (Param fl) → List (Value fl) → List (Value fl)
    read_backs [] vs = []
    read_backs (p ∷ ps) [] = []
    read_backs (p ∷ ps) (v ∷ vs) = read_back fl junk p.val v ∷ read_backs ps vs

    -- None of the names ends with a name of `pre`.
    abbrev pub clear : List (Param fl) → List (Param fl) → Bool
    clear [] pre = true
    clear (p ∷ ps) pre = none_ends fl p.name pre && clear ps pre

    none_ends-snoc :
        (n : Bytes) (pre : List (Param fl)) (q : Param fl)
        → none_ends fl n pre ≡ true
        → ends_with n q.name ≡ false
        → none_ends fl n (pre ++ q ∷ []) ≡ true
    none_ends-snoc n [] q h e = ground arith
    none_ends-snoc n (p ∷ pre) q h e =
        let ih = none_ends-snoc n pre q (ground arith) e in ground arith

    clear-snoc :
        (ps pre : List (Param fl)) (q : Param fl)
        → clear ps pre ≡ true
        → ends_none fl ps q.name ≡ true
        → clear ps (pre ++ q ∷ []) ≡ true
    clear-snoc [] pre q h e = refl
    clear-snoc (p ∷ ps) pre q h e =
        let this = none_ends-snoc p.name pre q (ground arith) (ground arith) in
        let rest = clear-snoc ps pre q (ground arith) (ground arith) in ground arith

    lines-line :
        (n tail s : Bytes)
        → is_name n ≡ true
        → lacks b'\n' tail ≡ true
        → length (n ++ b'=' ∷ (tail ++ b'\n' ∷ [])) < 256
        → lines line_size ((n ++ b'=' ∷ (tail ++ b'\n' ∷ [])) ++ s)
          ≡ (n ++ b'=' ∷ (tail ++ b'\n' ∷ [])) ∷ lines line_size s
    unfolding lines
    lines-line n tail s h k le =
        let start : Bytes = n ++ b'=' ∷ tail in
        let whole : n ++ b'=' ∷ (tail ++ b'\n' ∷ []) ≡ start ++ b'\n' ∷ [] =
          sym (append_assoc n (b'=' ∷ tail) (b'\n' ∷ [])) in
        let long = length-append start (b'\n' ∷ []) in
        let short : length (start ++ b'\n' ∷ []) < 256 = rw (← whole) le in
        rw (whole, append_assoc start (b'\n' ∷ []) s)
          (read_lines-line 1023 1023 [] start s
            (lacks-append b'\n' n (b'=' ∷ tail) (ground arith) k) (omega arith))

    abbrev pub is_none : List (Param fl) → Bool
    is_none [] = true
    is_none (p ∷ ps) = false

    -- The text of the parameters, and what it does after others are read.
    abbrev pub Loads : List (Param fl) → List (Value fl) → Type 0
    Loads ps olds =
        (s : Bytes) × (params_text fl ps ≡ printed s)
        × ((found : Bool) (c : ParamCtx fl) (pre : List (Param fl))
            → clear ps pre ≡ true
            → parse_lines fl junk found (record c { params = pre ++ given fl false ps olds })
                (lines line_size s)
              ≡ finish fl (found || not (is_none ps))
                  (record c { params = pre ++ given fl true ps (read_backs ps olds) }))

    -- A line of the file, with the parameters before and behind its own.
    load-line :
        (found : Bool) (c : ParamCtx fl) (pre post : List (Param fl)) (p : Param fl)
        (old v : Value fl) (tail s : Bytes)
        → is_name p.name ≡ true
        → lacks b'=' tail ≡ true
        → lacks b'\n' tail ≡ true
        → length (p.name ++ b'=' ∷ (tail ++ b'\n' ∷ [])) < 256
        → none_ends fl p.name pre ≡ true
        → none_ends fl p.name post ≡ true
        → Reads fl junk (with_old fl junk p old) v (tail ++ b'\n' ∷ [])
        → parse_lines fl junk found
            (record c { params = pre ++ with_old fl junk p old ∷ post })
            (lines line_size ((p.name ++ b'=' ∷ (tail ++ b'\n' ∷ [])) ++ s))
          ≡ parse_lines fl junk true
              (record c { params = (pre ++ record p { val = v; has_changed = true } ∷ []) ++ post })
              (lines line_size s)
    unfolding parse_lines
    load-line found c pre post p old v tail s n no_eq no_nl short before behind reads =
        let q : Param fl = with_old fl junk p old in
        let line : Bytes = p.name ++ b'=' ∷ (tail ++ b'\n' ∷ []) in
        let plain = lacks-append b'=' tail (b'\n' ∷ []) no_eq refl in
        rw
          (
            lines-line p.name tail s n no_nl short,
            parse_lines,
            is_skipped-name p.name (tail ++ b'\n' ∷ []) n,
            scan_line-sets fl junk pre q post v (tail ++ b'\n' ∷ []) n plain short before behind
                reads,
            or_true found,
            append_assoc pre (record p { val = v; has_changed = true } ∷ []) post,
          )
          refl

    pub params-load :
        (ps : List (Param fl)) (olds : List (Value fl))
        → AllHold ps olds
        → names_apart fl ps ≡ true
        → Loads ps olds
    unfolding params_text parse_lines lines read_lines
    params-load [] [] h a = ([], refl, λ found c pre k. rw (or_false found) refl)
    params-load [] (v ∷ olds) h a = elim h [ ]
    params-load (p ∷ ps) [] h a = elim h [ ]
    params-load (p ∷ ps) (old ∷ olds) (holds, plain, fits, hs) a =
        let (n, _, _) = plain in
        let (tail, line, no_eq, no_nl, reads) =
          Line-Holds fl junk p.type p.list_type p.room p.val old p.name p.desc p.is_mandatory
            p.has_changed holds plain fits in
        let (s, written, loaded) = params-load ps olds hs (ground arith) in
        let text_of : Bytes = p.name ++ b'=' ∷ (tail ++ b'\n' ∷ []) in
        let short : ltb (length text_of) 256 ≡ true = rw line at fits in
        let apart : none_ends fl p.name ps ≡ true = ground arith in
        let ends : ends_none fl ps p.name ≡ true = ground arith in
        let q : Param fl = record p { val = read_back fl junk p.val old; has_changed = true } in
        (
          text_of ++ s,
          rw (line, written) refl,
          λ found c pre k.
              load-line found c pre (given fl false ps olds) p old (read_back fl junk p.val old)
                tail s n no_eq no_nl (ground arith) (ground arith)
                (none_ends-given fl p.name false ps olds apart) reads
              ∙ loaded true c (pre ++ q ∷ []) (clear-snoc ps pre q (ground arith) ends)
              ∙ rw
                  (or_true found, append_assoc pre (q ∷ []) (given fl true ps (read_backs ps olds)))
                  refl,
        )
