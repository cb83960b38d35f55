-- ===== src/FileDemo/Struct.antt =====
-- The struct that src/file_main.c saves and reads back.
use data_commoms.Base.{ℕ, ◌^◌, ◌<◌, ◌≡◌, refl, ap, ◌∙◌, Bool, true, false, Option, [], ◌∷◌, arith}
use data_commoms.Text.{Bytes, text, streq}
use data_commoms.Text.Search.{strstr}
use data_commoms.Params.{FloatText, bool, binary, bin, Param, ParamCtx, no_error, new_param}
use data_commoms.Params.Parse.{param_parse_txt}
use data_commoms.Params.Save.{line_text, hex_text_of}
use data_commoms.Params.Hex.{starts_hex, are_bytes}
use data_commoms.Params.Restore.{holds_bin}
use data_commoms.Params.Load.{AllHold}
use data_commoms.Params.RoundTrip.{save_parse}
use data_commoms.FileDemo.{
  ok, struct_bytes, file_name, file_after, parsed_params, first_part, ◌>>=◌,
}

module _ (fl : FloatText) where
  abbrev pub empty : ParamCtx fl
  empty = record { params = []; param_error = no_error }

  -- PSTRUCT with these bytes.
  abbrev pub struct_param : Bytes → Bool → Param fl
  struct_param bs changed = record {
    type = binary;
    list_type = bool;
    room = 6;
    name = text "PSTRUCT";
    desc = text "an struct";
    val = bin bs;
    is_mandatory = true;
    has_changed = changed;
  }

  abbrev pub with_struct : Bytes → Bool → ParamCtx fl
  with_struct bs changed = record { params = struct_param bs changed ∷ []; param_error = no_error }

  bytes_fit :
      (a b c : ℕ) → a < 2 ^ 16 → b < 2 ^ 16 → c < 2 ^ 16 → are_bytes (struct_bytes a b c) ≡ true
  bytes_fit a b c ha hb hc = ground arith

  struct-AllHold :
      (junk : Bytes) (a b c : ℕ)
      → a < 2 ^ 16
      → b < 2 ^ 16
      → c < 2 ^ 16
      → starts_hex junk ≡ false
      → AllHold fl junk
          (struct_param (struct_bytes a b c) false ∷ [])
          (bin (struct_bytes a b c) ∷ [])
  unfolding line_text hex_text_of
  struct-AllHold junk a b c ha hb hc h = (
    holds_bin bool (struct_bytes a b c) (struct_bytes a b c) refl (bytes_fit a b c ha hb hc) h,
    (refl, refl, refl),
    refl,
    tt,
  )

  -- The struct that is saved is read back, whatever its three numbers of 16 bits: the first part of
  -- `main` ends with PSTRUCT as it was assigned, and marked as read; provided that the file can be
  -- written, and that the memory behind the two bytes that strtoul gets does not go on with a
  -- hexadecimal digit.
  pub struct_survives :
      (junk : Bytes) (left : Option Bytes) (a b c : ℕ)
      → a < 2 ^ 16
      → b < 2 ^ 16
      → c < 2 ^ 16
      → starts_hex junk ≡ false
      → first_part fl junk left true empty (struct_bytes a b c)
        ≡ ok (with_struct (struct_bytes a b c) true)
  unfolding first_part strstr streq new_param
  struct_survives junk left a b c ha hb hc h =
      let s0 : ParamCtx fl = with_struct (struct_bytes a b c) false in
      let (s, written, loaded) =
        save_parse fl junk s0 s0 (bin (struct_bytes a b c) ∷ []) file_name refl
          (struct-AllHold junk a b c ha hb hc h) refl (omega arith) refl in
      ap
        (λ q. file_after fl left q >>= λ file.
          parsed_params fl (param_parse_txt fl junk s0 file_name file))
        written
      ∙ ap (parsed_params fl) loaded
