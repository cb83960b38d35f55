-- ===== src/Text.antt =====
-- The C library's functions on strings that the parsers call. A string is the list of its bytes,
-- without the terminating NUL; a pointer into a string is the rest of it.
pub mod Decimal
pub mod Search
pub mod Find
pub mod Split
use Prim.Native.Char.{code}
use Prim.Native.String.{String}
use data_commoms.Base.{
  ℕ, ◌+◌, ◌-◌, ◌*◌, ◌%◌, ◌^◌, Bool, true, false, ◌&&◌, ◌||◌, Option, none, some, List, [], ◌∷◌,
  ◌==◌, ltb, leb, if◌then◌else◌, ℤ, pos, negsuc,
}

abbrev pub Bytes : Type 0
Bytes = List ℕ

-- The bytes of an ASCII literal.
abbrev pub text : String → Bytes
text String.[] = []
text (String.◌∷◌ c s) = code c ∷ text s

-- `strcmp(a, b) == 0`
unfoldable pub streq : Bytes → Bytes → Bool
streq [] [] = true
streq [] (y ∷ b) = false
streq (x ∷ a) [] = false
streq (x ∷ a) (y ∷ b) = x == y && streq a b

-- `strchr(s, c)`, with the two pieces that a NUL written there leaves: what stands before the first
-- `c`, and what stands behind it.
unfoldable pub strchr : Bytes → ℕ → Bytes × Option Bytes
strchr [] c = ([], none)
strchr (x ∷ s) c =
    let (before, behind) = strchr s c in if x == c then ([], some s) else (x ∷ before, behind)

-- `isspace` in the C locale.
unfoldable pub is_space : ℕ → Bool
is_space c = c == b' ' || (leb 9 c && leb c 13)

unfoldable pub is_digit : ℕ → Bool
is_digit c = leb b'0' c && leb c b'9'

unfoldable pub skip_space : Bytes → Bytes
skip_space [] = []
skip_space (c ∷ s) = let rest = skip_space s in if is_space c then rest else c ∷ s

-- The value of the digits at the front, with no bound, and what stands behind them.
unfoldable pub digits : ℕ → Bytes → ℕ × Bytes
unfolding is_digit
digits acc [] = (acc, [])
digits acc (c ∷ s) =
    let onward = digits (acc * 10 + (c - b'0')) s in if is_digit c then onward else (acc, c ∷ s)

-- An optional sign: whether it is a minus, and what stands behind it.
unfoldable pub sign : Bytes → Bool × Bytes
sign [] = (false, [])
sign (c ∷ s) = if c == b'-' then (true, s) else if c == b'+' then (false, s) else (false, c ∷ s)

unfoldable pub starts_with_digit : Bytes → Bool
starts_with_digit [] = false
starts_with_digit (c ∷ s) = is_digit c

-- What `strtoull`, `strtol` and their kin give: the value, where they stop, and whether `errno`
-- is ERANGE.
pub record Strto {ℓ} (A : Type ℓ) : Type ℓ where
  pub value : A
  pub rest : Bytes
  pub erange : Bool

abbrev pub ullong_max : ℕ
ullong_max = 2 ^ 64 - 1

-- `strtoull(s, &rest, 10)`, also `strtoul` on a 64-bit target. A minus negates modulo 2^64.
unfoldable pub strtoull : Bytes → Strto ℕ
unfolding is_space is_digit skip_space sign digits starts_with_digit
strtoull s =
    let (neg, t) = sign (skip_space s) in
    let (n, rest) = digits 0 t in
    if starts_with_digit t
    then (if ltb ullong_max n
        then record { value = ullong_max; rest = rest; erange = true }
        else record {
          value = if neg then (2 ^ 64 - n) % 2 ^ 64 else n;
          rest = rest;
          erange = false;
        })
    else record { value = 0; rest = s; erange = false }

abbrev pub long_max : ℕ
long_max = 2 ^ 63 - 1

-- -n
abbrev pub neg_ℕ : ℕ → ℤ
neg_ℕ n = if n == 0 then pos 0 else negsuc (n - 1)

-- `strtol(s, &rest, 10)` on a 64-bit target.
unfoldable pub strtol : Bytes → Strto ℤ
unfolding is_space is_digit skip_space sign digits starts_with_digit
strtol s =
    let (neg, t) = sign (skip_space s) in
    let (n, rest) = digits 0 t in
    if starts_with_digit t
    then (if neg
        then (if ltb (2 ^ 63) n
            then record { value = negsuc long_max; rest = rest; erange = true }
            else record { value = neg_ℕ n; rest = rest; erange = false })
        else (if ltb long_max n
            then record { value = pos long_max; rest = rest; erange = true }
            else record { value = pos n; rest = rest; erange = false }))
    else record { value = pos 0; rest = s; erange = false }

-- `toupper` in the C locale.
unfoldable pub toupper : ℕ → ℕ
toupper c = if leb b'a' c && leb c b'z' then c - 32 else c

-- `*ptr != '\0'`
abbrev pub goes_on : Bytes → Bool
goes_on [] = false
goes_on (c ∷ s) = true
