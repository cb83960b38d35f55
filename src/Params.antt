-- ===== src/Params.antt =====
-- include/file_parser.h: the parameters of a program that stand in a text file, and their context.
-- A parameter refers to a variable of the program (`ref`); the value of that variable is part of
-- the parameter here, so the variables of two parameters are taken to be different.
pub mod Items
pub mod Line
pub mod Keys
pub mod Words
pub mod Reads
pub mod Hex
pub mod Tokens
pub mod Lists
pub mod Restore
pub mod ReadBack
pub mod Scan
pub mod Load
pub mod RoundTrip
pub mod Bounds
pub mod Keeps
pub mod Stores
pub mod Mandatory
pub mod ParseList
pub mod Print
pub mod Refused
pub mod Errors
pub mod EndOfName
mod Tests
mod ErrorTests
mod LineTests
pub mod Parse
pub mod Save
use data_commoms.Base.{
  ℕ, zero, suc, ◌+◌, Bool, true, false, Option, none, some, List, [], ◌∷◌, ◌++◌, length, ltb,
  if◌then◌else◌, ℤ,
}
use data_commoms.Text.{Bytes, Strto}

-- `float`, with zero, `strtof`, and what `%f` and `%.6f` print.
pub record FloatText : Type 1 where
  pub Float : Type 0
  pub zero_float : Float
  pub strtof : Bytes → Strto Float
  pub print : Float → Bytes

-- `param_type_e`
pub data ParamType : Type 0 where
  bool uint int float str list binary : ParamType

-- `param_error_e`
pub data ParamError : Type 0 where
  no_error unknown no_value invalid_number invalid_file_ext invalid_size_suffix bin_overflow :
      ParamError

-- `param_simple_val_u`, with the member in use. The pointer of a string in a list is `none`, or
-- points to a buffer of the program.
pub data Simple (fl : FloatText) : Type 0 where
  as_bool : Bool → Simple fl
  as_uint : ℕ → Simple fl
  as_int : ℤ → Simple fl
  as_float : fl.Float → Simple fl
  as_str : Option Bytes → Simple fl

-- `param_list_t`; `items` is the whole array.
pub record ParamList (fl : FloatText) : Type 0 where
  pub items : List (Simple fl)
  pub count : ℕ
  pub type : ParamType

-- What the variable of a parameter holds.
pub data Value (fl : FloatText) : Type 0 where
  simple : Simple fl → Value fl
  list : ParamList fl → Value fl
  bin : Bytes → Value fl

-- `param_t`; `list_type` is `def.list.type`. `room` says how many bytes from `ref` on may be
-- written before something else is overwritten. For binary data it is `list_bin_len`, the size that
-- the program gives; for the other types the code has no such size, and the writes that can pass
-- the end of the variable, those of unsigned numbers and of strings, are faults where there is less
-- room.
pub record Param (fl : FloatText) : Type 0 where
  pub type : ParamType
  pub list_type : ParamType
  pub room : ℕ
  pub name : Bytes
  pub desc : Bytes
  pub val : Value fl
  pub is_mandatory : Bool
  pub has_changed : Bool

-- `param_ctx_t` without the table of a CSV file: the first `params_count` parameters.
pub record ParamCtx (fl : FloatText) : Type 0 where
  pub params : List (Param fl)
  pub param_error : ParamError

-- MAX_BIN, PARAM_LIST_INIT_CAP and FLAGS_CAP
abbrev pub max_bin : ℕ
max_bin = 2048

abbrev pub param_list_init_cap : ℕ
param_list_init_cap = 1024

abbrev pub params_cap : ℕ
params_cap = 256

module _ (fl : FloatText) where
  -- context_reset
  pub context_reset : ParamCtx fl → ParamCtx fl
  context_reset ctx = record ctx { params = [] }

  -- param_new_param_ with the assignments behind it. `none`: the assertion on the capacity fails.
  unfoldable pub new_param :
      ParamCtx fl
      → ParamType
      → ParamType
      → ℕ
      → Value fl
      → Bytes
      → Bool
      → Bytes
      → Option (ParamCtx fl)
  new_param ctx type list_type room val name is_mandatory desc =
      if ltb (length ctx.params) params_cap
      then some (record ctx {
        params =
            ctx.params
            ++ record {
              type = type;
              list_type = list_type;
              room = room;
              name = name;
              desc = desc;
              val = val;
              is_mandatory = is_mandatory;
              has_changed = false;
            }
              ∷ [];
      })
      else none

  -- ParamBool to ParamBin: the variable gets the default. A list keeps its items and its count, and
  -- lists and binary data are always mandatory. `room` of a `uint32_t` is 4, or more if nothing of
  -- the program stands behind it; that of a string is the size of its buffer.
  abbrev pub param_bool : ParamCtx fl → Bytes → Bool → Bool → Bytes → Option (ParamCtx fl)
  param_bool ctx name is_mandatory d =
      new_param ctx bool bool 0 (simple (as_bool d)) name is_mandatory

  abbrev pub param_uint : ParamCtx fl → ℕ → Bytes → Bool → ℕ → Bytes → Option (ParamCtx fl)
  param_uint ctx room name is_mandatory d =
      new_param ctx uint bool room (simple (as_uint d)) name is_mandatory

  abbrev pub param_int : ParamCtx fl → Bytes → Bool → ℤ → Bytes → Option (ParamCtx fl)
  param_int ctx name is_mandatory d = new_param ctx int bool 0 (simple (as_int d)) name is_mandatory

  abbrev pub param_float : ParamCtx fl → Bytes → Bool → fl.Float → Bytes → Option (ParamCtx fl)
  param_float ctx name is_mandatory d =
      new_param ctx float bool 0 (simple (as_float d)) name is_mandatory

  -- `*var = _def` writes a pointer over the start of the buffer; what the buffer then holds, read
  -- as a string, is the argument `held`.
  abbrev pub param_str : ParamCtx fl → ℕ → Bytes → Bool → Bytes → Bytes → Option (ParamCtx fl)
  param_str ctx room name is_mandatory held =
      new_param ctx str bool room (simple (as_str (some held))) name is_mandatory

  abbrev pub param_list :
      ParamCtx fl → ParamList fl → Bytes → Bytes → ParamType → Option (ParamCtx fl)
  param_list ctx var name desc type =
      new_param ctx list type 0 (list (record var { type = type })) name true desc

  abbrev filled : ℕ → ℕ → Bytes
  filled zero d = []
  filled (suc n) d = d ∷ filled n d

  abbrev pub param_bin : ParamCtx fl → ℕ → Bytes → Bytes → ℕ → Option (ParamCtx fl)
  param_bin ctx len name desc d = new_param ctx binary bool len (bin (filled len d)) name true desc
