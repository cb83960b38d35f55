-- ===== src/Flags.antt =====
-- include/parser.h: the flags of a command line, their types, and the context that holds them.
-- There are no floating-point numbers here: `float` and `double` and what the C library does with
-- them are the record FloatOps, a parameter.
pub mod Values
pub mod Parse
pub mod Total
pub mod Equals
pub mod Mandatory
pub mod Numbers
pub mod Typed
pub mod Keeps
pub mod Explains
pub mod Print
pub mod Help
pub mod Named
pub mod Errors
mod Tests
mod PrintTests
use data_commoms.Base.{
  ℕ, zero, suc, ◌+◌, Bool, true, false, Option, none, some, List, [], ◌∷◌, ◌++◌, length, ltb,
  if◌then◌else◌, map, ℤ, pos,
}
use data_commoms.Text.{Bytes, Strto}

-- `float` and `double`: the types, zero as `memset` leaves it, `strtof` and `strtod`, and the tests
-- against the greatest finite values (`f == __FLT_MAX__ || f == -__FLT_MAX__`).
pub record FloatOps : Type 1 where
  pub Float : Type 0
  pub Double : Type 0
  pub zero_float : Float
  pub zero_double : Double
  pub strtof : Bytes → Strto Float
  pub strtod : Bytes → Strto Double
  pub is_flt_max : Float → Bool
  pub is_dbl_max : Double → Bool

-- `flag_type_e`
pub data FlagType : Type 0 where
  bool uint8 uint16 uint32 uint64 int float double size str list : FlagType

-- `flag_error_e`
pub data FlagError : Type 0 where
  no_error unknown no_value invalid_number integer_overflow float_overflow double_overflow :
      FlagError
  invalid_size_suffix : FlagError

-- `flag_val_u`, with the member that is in use. `as_str` may be a null pointer, and `as_list` holds
-- the items up to `count`.
pub data FlagVal (fl : FloatOps) : Type 0 where
  as_bool : Bool → FlagVal fl
  as_uint8 : ℕ → FlagVal fl
  as_uint16 : ℕ → FlagVal fl
  as_uint32 : ℕ → FlagVal fl
  as_uint64 : ℕ → FlagVal fl
  as_int : ℤ → FlagVal fl
  as_float : fl.Float → FlagVal fl
  as_double : fl.Double → FlagVal fl
  as_size : ℕ → FlagVal fl
  as_str : Option Bytes → FlagVal fl
  as_list : List Bytes → FlagVal fl

-- `flag_t`
pub record Flag (fl : FloatOps) : Type 0 where
  pub type : FlagType
  pub name : Bytes
  pub desc : Bytes
  pub val : FlagVal fl
  pub def : FlagVal fl
  pub is_mandatory : Bool
  pub has_changed : Bool

-- `flag_ctx_t`. `flags` holds the first `flags_count` elements of the array; a null pointer is
-- `none`, and `rest_argv` the arguments from there on.
pub record FlagCtx (fl : FloatOps) : Type 0 where
  pub flags : List (Flag fl)
  pub flag_error : FlagError
  pub flag_error_name : Option Bytes
  pub flag_error_value : Option Bytes
  pub program_name : Option Bytes
  pub rest_argc : ℕ
  pub rest_argv : List Bytes

-- FLAGS_CAP and FLAG_LIST_INIT_CAP
abbrev pub flags_cap : ℕ
flags_cap = 256

abbrev pub flag_list_init_cap : ℕ
flag_list_init_cap = 1024

module _ (fl : FloatOps) where
  -- context_reset
  pub context_reset : FlagCtx fl → FlagCtx fl
  context_reset ctx = record ctx { flags = []; rest_argc = 0; program_name = none }

  -- flag_new_flag_ with the two assignments behind it: `memset` zeroes the rest. `none`: the
  -- assertion on the capacity fails. The pointer that the caller gets is the index of the flag.
  pub new_flag : FlagCtx fl → FlagType → FlagVal fl → Bytes → Bool → Bytes → Option (ℕ × FlagCtx fl)
  new_flag ctx type value name is_mandatory desc =
      if ltb (length ctx.flags) flags_cap
      then some (
        length ctx.flags,
        record ctx {
          flags =
              ctx.flags
              ++ record {
                type = type;
                name = name;
                desc = desc;
                val = value;
                def = value;
                is_mandatory = is_mandatory;
                has_changed = false;
              }
                ∷ [];
        },
      )
      else none

  -- FlagBool to FlagList; a list starts empty.
  abbrev pub flag_bool : FlagCtx fl → Bytes → Bool → Bool → Bytes → Option (ℕ × FlagCtx fl)
  flag_bool ctx name is_mandatory d = new_flag ctx bool (as_bool d) name is_mandatory

  abbrev pub flag_uint8 : FlagCtx fl → Bytes → Bool → ℕ → Bytes → Option (ℕ × FlagCtx fl)
  flag_uint8 ctx name is_mandatory d = new_flag ctx uint8 (as_uint8 d) name is_mandatory

  abbrev pub flag_uint16 : FlagCtx fl → Bytes → Bool → ℕ → Bytes → Option (ℕ × FlagCtx fl)
  flag_uint16 ctx name is_mandatory d = new_flag ctx uint16 (as_uint16 d) name is_mandatory

  abbrev pub flag_uint32 : FlagCtx fl → Bytes → Bool → ℕ → Bytes → Option (ℕ × FlagCtx fl)
  flag_uint32 ctx name is_mandatory d = new_flag ctx uint32 (as_uint32 d) name is_mandatory

  abbrev pub flag_uint64 : FlagCtx fl → Bytes → Bool → ℕ → Bytes → Option (ℕ × FlagCtx fl)
  flag_uint64 ctx name is_mandatory d = new_flag ctx uint64 (as_uint64 d) name is_mandatory

  abbrev pub flag_int : FlagCtx fl → Bytes → Bool → ℤ → Bytes → Option (ℕ × FlagCtx fl)
  flag_int ctx name is_mandatory d = new_flag ctx int (as_int d) name is_mandatory

  abbrev pub flag_float : FlagCtx fl → Bytes → Bool → fl.Float → Bytes → Option (ℕ × FlagCtx fl)
  flag_float ctx name is_mandatory d = new_flag ctx float (as_float d) name is_mandatory

  abbrev pub flag_double : FlagCtx fl → Bytes → Bool → fl.Double → Bytes → Option (ℕ × FlagCtx fl)
  flag_double ctx name is_mandatory d = new_flag ctx double (as_double d) name is_mandatory

  abbrev pub flag_size : FlagCtx fl → Bytes → Bool → ℕ → Bytes → Option (ℕ × FlagCtx fl)
  flag_size ctx name is_mandatory d = new_flag ctx size (as_size d) name is_mandatory

  abbrev pub flag_str : FlagCtx fl → Bytes → Bool → Option Bytes → Bytes → Option (ℕ × FlagCtx fl)
  flag_str ctx name is_mandatory d = new_flag ctx str (as_str d) name is_mandatory

  abbrev pub flag_list : FlagCtx fl → Bytes → Bool → Bytes → Option (ℕ × FlagCtx fl)
  flag_list ctx name is_mandatory = new_flag ctx list (as_list []) name is_mandatory

  -- The loop of flag_name.
  name_at : List (Flag fl) → ℕ → Option Bytes
  name_at [] i = none
  name_at (f ∷ fs) zero = some f.name
  name_at (f ∷ fs) (suc i) = name_at fs i

  -- flag_name: the name of the flag that the pointer points into, or null.
  pub flag_name : FlagCtx fl → ℕ → Option Bytes
  unfolding name_at
  flag_name ctx val = name_at ctx.flags val
