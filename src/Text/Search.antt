-- ===== src/Text/Search.antt =====
-- Searching and cutting strings (`strstr`, `strtok_r`), the lines that `fgets` gives, and
-- hexadecimal numbers.
use data_commoms.Base.{
  ℕ, ◌+◌, ◌-◌, ◌*◌, ◌%◌, ◌^◌, Bool, true, false, ◌&&◌, ◌||◌, Option, none, some, List, [], ◌∷◌,
  ◌++◌, ◌==◌, ltb, leb, if◌then◌else◌,
}
use data_commoms.Text.{Bytes, is_digit, skip_space, sign, ullong_max}

-- `strncmp(s, p, strlen(p)) == 0`
unfoldable pub starts_with : Bytes → Bytes → Bool
starts_with [] s = true
starts_with (x ∷ p) [] = false
starts_with (x ∷ p) (y ∷ s) = x == y && starts_with p s

-- `strstr(s, p)`: what stands before the first place where `p` stands, and the string from there
-- on.
unfoldable pub strstr : Bytes → Bytes → Option (Bytes × Bytes)
unfolding starts_with
strstr [] p = if starts_with p [] then some ([], []) else none
strstr (c ∷ s) p =
    if starts_with p (c ∷ s)
    then some ([], c ∷ s)
    else (elim (strstr s p) [ none ↦ none | some (before, from) ↦ some (c ∷ before, from) ])

-- `strstr(s, p) != NULL`
abbrev pub is_some {ℓ} : {A : Type ℓ} → Option A → Bool
is_some none = false
is_some (some x) = true

unfoldable pub is_in : Bytes → ℕ → Bool
is_in [] c = false
is_in (d ∷ ds) c = c == d || is_in ds c

-- A token in front of others, unless it is empty.
abbrev pub token : Bytes → List Bytes → List Bytes
token [] rest = rest
token (c ∷ t) rest = (c ∷ t) ∷ rest

-- The bytes up to the next delimiter, and the tokens behind it.
unfoldable pub cut_tokens : Bytes → Bytes → Bytes × List Bytes
unfolding is_in
cut_tokens delims [] = ([], [])
cut_tokens delims (c ∷ s) =
    let (t, rest) = cut_tokens delims s in
    if is_in delims c then ([], token t rest) else (c ∷ t, rest)

-- The tokens that `strtok_r(s, delims, &saveptr)` gives one after the other.
unfoldable pub strtok : Bytes → Bytes → List Bytes
unfolding cut_tokens
strtok delims s = let (t, rest) = cut_tokens delims s in token t rest

-- The strings that `fgets` gives on a file up to its end, into a buffer for `max` bytes and the
-- NUL; `line` is read already, and there is room for `room` more. A file has no NUL byte.
unfoldable pub read_lines : ℕ → ℕ → Bytes → Bytes → List Bytes
read_lines max room line [] = token line []
read_lines max room line (c ∷ s) =
    let line' = line ++ c ∷ [] in
    let next = read_lines max max [] s in
    let more = read_lines max (room - 1) line' s in
    if c == b'\n' || leb room 1 then line' ∷ next else more

unfoldable pub lines : ℕ → Bytes → List Bytes
unfolding read_lines
lines size file = read_lines (size - 1) (size - 1) [] file

-- `tolower` in the C locale.
unfoldable pub tolower : ℕ → ℕ
tolower c = if leb b'A' c && leb c b'Z' then c + 32 else c

-- The value of a hexadecimal digit.
unfoldable pub hex_digit : ℕ → Option ℕ
unfolding is_digit
hex_digit c =
    if is_digit c
    then some (c - b'0')
    else if leb b'A' c && leb c b'F'
    then some (c - b'A' + 10)
    else if leb b'a' c && leb c b'f'
    then some (c - b'a' + 10)
    else none

unfoldable pub hex_digits : ℕ → Bytes → ℕ
unfolding hex_digit
hex_digits acc [] = acc
hex_digits acc (c ∷ s) = elim (hex_digit c) [ none ↦ acc | some d ↦ hex_digits (acc * 16 + d) s ]

-- The prefix `0x`, where a hexadecimal digit follows it.
unfoldable pub hex_prefix : Bytes → Bytes
unfolding hex_digit
hex_prefix (z ∷ x ∷ d ∷ s) =
    if z == b'0' && (x == b'x' || x == b'X') && is_some (hex_digit d) then d ∷ s else z ∷ x ∷ d ∷ s
hex_prefix s = s

-- `strtoul(s, &end, 16)`
unfoldable pub strtoul_16 : Bytes → ℕ
unfolding skip_space sign hex_digits hex_prefix
strtoul_16 s =
    let (neg, t) = sign (skip_space s) in
    let n = hex_digits 0 (hex_prefix t) in
    if ltb ullong_max n then ullong_max else if neg then (2 ^ 64 - n) % 2 ^ 64 else n
