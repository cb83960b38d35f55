-- ===== src/Params/Parse.antt =====
-- param_parse_txt of include/file_parser.h: all lines of the file against all parameters.
use data_commoms.Base.{
  ℕ, Bool, true, false, not, ◌&&◌, ◌||◌, Option, none, some, List, [], ◌∷◌, ◌==◌, if◌then◌else◌,
}
use data_commoms.Text.{Bytes, text}
use data_commoms.Text.Search.{strstr, lines}
use data_commoms.Params.{FloatText, ParamError, unknown, no_value, Param, ParamCtx}
use data_commoms.Params.Line.{passes, sets, breaks, fails, crashes, param_turn}

-- How the `for` on a line ends: at its end or by `break`, with whether `found` was set; by `return
-- false`; or by a fault.
pub data Scan (fl : FloatText) : Type 0 where
  on : Bool → List (Param fl) → Scan fl
  stops : ParamError → List (Param fl) → Scan fl
  fault : Scan fl

-- The lines that are skipped.
unfoldable pub is_skipped : Bytes → Bool
is_skipped [] = false
is_skipped (c ∷ s) = c == b'#' || c == b' ' || c == b'\n'

-- sizeof line
abbrev pub line_size : ℕ
line_size = 1024

module _ (fl : FloatText) where
  abbrev pub keep : Param fl → Bool → Scan fl → Scan fl
  keep p b (on f ps) = on (b || f) (p ∷ ps)
  keep p b (stops e ps) = stops e (p ∷ ps)
  keep p b fault = fault

  unfoldable pub missing : List (Param fl) → Bool
  missing [] = false
  missing (p ∷ ps) = (p.is_mandatory && not p.has_changed) || missing ps

  pub data Outcome : Type 0 where
    returns : Bool → ParamCtx fl → Outcome
    crashed : Outcome

  -- Behind the `while`.
  unfoldable pub finish : Bool → ParamCtx fl → Outcome
  unfolding missing
  finish found c =
      if not found
      then returns false (record c { param_error = unknown })
      else if missing c.params
      then returns false (record c { param_error = no_value })
      else returns true c

  module _ (junk : Bytes) where
    -- The `for` over the parameters on a line; a value that is read cuts the line for the rest.
    unfoldable pub scan_line : Bytes → List (Param fl) → Scan fl
    scan_line line [] = on false []
    scan_line line (p ∷ ps) = elim (param_turn fl junk p line) [
      | passes ↦ keep p false (scan_line line ps)
      | sets p' line' ↦ keep p' true (scan_line line' ps)
      | breaks ↦ on true (p ∷ ps)
      | fails e ↦ stops e (p ∷ ps)
      | crashes ↦ fault
    ]

    -- The `while` over the lines.
    unfoldable pub parse_lines : Bool → ParamCtx fl → List Bytes → Outcome
    unfolding scan_line finish is_skipped
    parse_lines found c [] = finish found c
    parse_lines found c (l ∷ ls) = elim (is_skipped l) [
      | true ↦ parse_lines found c ls
      | false ↦ elim (scan_line l c.params) [
        | on f ps ↦ parse_lines (found || f) (record c { params = ps }) ls
        | stops e ps ↦ returns false (record c { params = ps; param_error = e })
        | fault ↦ crashed
      ]
    ]

    -- param_parse_txt. The file is `none` if it cannot be opened.
    unfoldable pub param_parse_txt : ParamCtx fl → Bytes → Option Bytes → Outcome
    unfolding parse_lines
    param_parse_txt c filename file = elim (strstr filename (text ".txt")) [
      | none ↦ returns false c
      | some at ↦ elim file [
        | none ↦ returns false c
        | some s ↦ parse_lines false c (lines line_size s)
      ]
    ]
